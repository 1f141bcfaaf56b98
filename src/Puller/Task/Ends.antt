-- ===== src/Puller/Task/Ends.antt =====
-- Every request of the pull task ends by itself.
use live_cdn.Common.{
  ℕ, ◌≢◌, refl, inl, inr, true, false, List, [], ◌∷◌, is_success, Bool-cases, err,
}
use live_cdn.Puller.{
  Pull, on_chunk, Arrival, chunk, broken, Ended, finished, invalid_stream, read_failed, out_of_fuel,
  pull_loop,
}
use live_cdn.Puller.Loop.{parse_all-ne-stuck}
use live_cdn.Puller.Chunks.{Parsed-cases}
use live_cdn.Puller.Task.{
  Shared, Response, unbuilt, unreachable, answered, no_end, result_of, pulled, opened,
  pull_flv_stream,
}

pull_loop-ne-out_of_fuel :
    (clock : ℕ → ℕ) (as' : List Arrival) (s : Pull) → (pull_loop clock s as').1 ≢ out_of_fuel
unfolding pull_loop on_chunk
pull_loop-ne-out_of_fuel clock [] s = λ h. cc
pull_loop-ne-out_of_fuel clock (chunk false d ∷ as') s = λ h. cc
pull_loop-ne-out_of_fuel clock (chunk true d ∷ as') s = elim (Parsed-cases (on_chunk clock s d)) [
  | inl (t, r) ↦ rw (r, pull_loop) (pull_loop-ne-out_of_fuel clock as' t)
  | inr (inl (t, r)) ↦ rw (r, pull_loop) (λ h. cc)
  | inr (inr r) ↦ absurd (parse_all-ne-stuck clock _ r)
]
pull_loop-ne-out_of_fuel clock (broken true ∷ as') s = λ h. cc
pull_loop-ne-out_of_fuel clock (broken false ∷ as') s = λ h. cc

result_of-ne-no_end : (end : Ended) → end ≢ out_of_fuel → result_of end ≢ err no_end
unfolding result_of
result_of-ne-no_end finished h = λ e. cc
result_of-ne-no_end invalid_stream h = λ e. cc
result_of-ne-no_end read_failed h = λ e. cc
result_of-ne-no_end out_of_fuel h = λ e. h refl

-- Whatever the network answers, a request ends because the stream or the relay has ended, or with one
-- of the errors that the code names: the loops over the body and over the buffer come to their end.
pub pull_flv_stream-ends :
    (clock : ℕ → ℕ) (s : Shared) (r : Response) → (pull_flv_stream clock s r).1 ≢ err no_end
unfolding pull_flv_stream pulled
pull_flv_stream-ends clock s unbuilt = λ e. cc
pull_flv_stream-ends clock s unreachable = λ e. cc
pull_flv_stream-ends clock s (answered status body) = elim (Bool-cases (is_success status)) [
  | inl good ↦ rw good (
      result_of-ne-no_end (pull_loop clock (opened s) body).1
        (pull_loop-ne-out_of_fuel clock body (opened s)))
  | inr bad ↦ rw bad (λ e. cc)
]
