-- ===== src/StreamRelay/Task/Pulls.antt =====
-- The task of an m3u8 relay against the rounds of its pull loop.
use live_cdn.Common.{
  ℕ, ◌+◌, ◌^◌, ◌<◌, ◌≡◌, refl, sym, ap, subst, ◌≤◌, ◌∙◌, true, false, Option, none, some, List, [],
  ◌∷◌, map, arith, length, Result, ok, err, inl, inr, Bool-cases, Option-cases, Result-cases,
}
use live_cdn.Crypto.{Ring}
use live_cdn.Playlist.{Float}
use live_cdn.Backoff.{F64, next_wait, reset}
use live_cdn.StreamRelay.{StreamRelay, Round, Library, pull_round, pull_all}
use live_cdn.StreamRelay.Task.{
  FetchError, fetch_url, fetched, Turn, round_of, Task, with_relay, after_fetch, run_task,
  until_stop, failures, next_count,
}

-- What is left of the relay, and the count of failures; nothing is left of a panic.
abbrev pub relay_of : {F T : Type 0} → Option (Task F T) → Option (StreamRelay F)
relay_of none = none
relay_of (some t) = some t.relay

abbrev pub Counts : {F T : Type 0} → ℕ → Option (Task F T) → Type 0
Counts n none = Unit {0}
Counts n (some t) = (t.backoff).attempt ≡ n

with_relay-relay :
    {F T : Type 0} (t : Task F T) (o : Option (StreamRelay F)) → relay_of (with_relay t o) ≡ o
unfolding with_relay
with_relay-relay t none = refl
with_relay-relay t (some relay) = refl

with_relay-Counts :
    {F T : Type 0} (t : Task F T) (o : Option (StreamRelay F)) (n : ℕ)
    → (t.backoff).attempt ≡ n
    → Counts n (with_relay t o)
unfolding with_relay
with_relay-Counts t none n h = tt
with_relay-Counts t (some relay) n h = h

next_count-le : (n : ℕ) (o : Option (List ℕ)) → next_count n o ≤ n + 1
next_count-le n none = omega arith
next_count-le n (some body) = omega arith

module _ {F T : Type 0} (fl : Float F) (R : Ring) (lib : Library) (G : F64 T) where
  pull_round-failed :
      (s : StreamRelay F) (r : Round) → (r.playlist).body ≡ none → pull_round fl R lib s r ≡ some s
  unfolding pull_round
  pull_round-failed s r h = rw h refl

  after_fetch-relay :
      (t : Task F T) (i : Turn)
      → relay_of (after_fetch fl R lib G t i (fetch_url i.playlist.answer))
        ≡ pull_round fl R lib t.relay (round_of i)
  unfolding after_fetch
  after_fetch-relay t i = elim (Result-cases (fetch_url i.playlist.answer)) [
    | inr (e, h) ↦
        ap (λ r. relay_of (after_fetch fl R lib G t i r)) h
        ∙ sym (pull_round-failed t.relay (round_of i) (ap fetched h))
    | inl (body, h) ↦
        ap (λ r. relay_of (after_fetch fl R lib G t i r)) h
        ∙ with_relay-relay (record t { backoff = reset t.backoff })
            (pull_round fl R lib t.relay (round_of i))
  ]

  after_fetch-Counts :
      (t : Task F T) (i : Turn) (r : Result FetchError (List ℕ))
      → (t.backoff).attempt + 1 < 2 ^ 32
      → Counts (next_count (t.backoff).attempt (fetched r)) (after_fetch fl R lib G t i r)
  unfolding after_fetch next_wait reset
  after_fetch-Counts t i (err e) fits = omega arith
  after_fetch-Counts t i (ok body) fits =
      with_relay-Counts (record t { backoff = reset t.backoff })
        (pull_round fl R lib t.relay (round_of i)) 0 refl

  run_task_goes :
      (t : Task F T) (i : Turn) (is : List Turn)
      → i.running ≡ true
      → run_task fl R lib G t (i ∷ is)
        ≡ elim (after_fetch fl R lib G t i (fetch_url i.playlist.answer))
            as (λ x. Option (Task F T)) [ none ↦ none | some t' ↦ run_task fl R lib G t' is ]
  unfolding run_task
  run_task_goes t i is on = simp on refl

  run_task_stops :
      (t : Task F T) (i : Turn) (is : List Turn)
      → i.running ≡ false
      → run_task fl R lib G t (i ∷ is) ≡ some t
  unfolding run_task
  run_task_stops t i is off = simp off refl

  pull_all_goes :
      (s : StreamRelay F) (r : Round) (rs : List Round) (o : Option (StreamRelay F))
      → pull_round fl R lib s r ≡ o
      → pull_all fl R lib s (r ∷ rs) ≡ elim o as (λ x. Option (StreamRelay F)) [
        | none ↦ none
        | some s' ↦ pull_all fl R lib s' rs
      ]
  unfolding pull_all
  pull_all_goes s r rs o h = rw (h, pull_all) refl

  -- A task leaves its relay as the rounds of the pull loop do.
  run_task-relay :
      (is : List Turn) (t : Task F T)
      → relay_of (run_task fl R lib G t is)
        ≡ pull_all fl R lib t.relay (map round_of (until_stop is))
  unfolding run_task pull_all
  run_task-relay [] t = refl
  run_task-relay (i ∷ is) t = elim (Bool-cases i.running) [
    | inr off ↦ ap relay_of (run_task_stops t i is off) ∙ simp off refl
    | inl on ↦
        let r : List Round = map round_of (until_stop is) in
        let here = after_fetch-relay t i in
        let all : pull_all fl R lib t.relay (map round_of (until_stop (i ∷ is)))
            ≡ pull_all fl R lib t.relay (round_of i ∷ r) =
          simp on refl in
        elim (Option-cases (after_fetch fl R lib G t i (fetch_url i.playlist.answer))) [
          | inl e ↦
              ap relay_of (run_task_goes t i is on)
              ∙ rw e refl
              ∙ sym (all ∙ pull_all_goes t.relay (round_of i) r none (sym here ∙ ap relay_of e))
          | inr (t', e) ↦
              ap relay_of (run_task_goes t i is on)
              ∙ rw e (run_task-relay is t')
              ∙ sym (
                  all
                  ∙ pull_all_goes t.relay (round_of i) r (some t'.relay) (sym here ∙ ap relay_of e))
        ]
  ]

  run_task-Counts :
      (is : List Turn) (t : Task F T) (n : ℕ)
      → (t.backoff).attempt ≡ n
      → n + length is < 2 ^ 32
      → Counts (failures n (until_stop is)) (run_task fl R lib G t is)
  unfolding run_task
  run_task-Counts [] t n h fits = h
  run_task-Counts (i ∷ is) t n h fits = elim (Bool-cases i.running) [
    | inr off ↦ rw (run_task_stops t i is off) (simp off h)
    | inl on ↦
        let m : ℕ = next_count n (fetched (fetch_url i.playlist.answer)) in
        let count : Counts m (after_fetch fl R lib G t i (fetch_url i.playlist.answer)) =
          subst
            (λ k.
              Counts (next_count k (fetched (fetch_url i.playlist.answer)))
                (after_fetch fl R lib G t i (fetch_url i.playlist.answer)))
            h (after_fetch-Counts t i (fetch_url i.playlist.answer) (omega (arith, h))) in
        rw (run_task_goes t i is on)
          (elim (Option-cases (after_fetch fl R lib G t i (fetch_url i.playlist.answer))) [
            | inl e ↦ rw e tt
            | inr (t', e) ↦ rw e (
                simp on (
                  run_task-Counts is t' m (rw e at count)
                    (omega (arith, next_count-le n (fetched (fetch_url i.playlist.answer))))))
          ])
  ]

-- The waits, and fetches that fail, have no effect on the stream: however the fetches go, a relay's
-- task leaves its relay as the rounds of the pull loop do up to the stop, where a failed fetch brings
-- nothing. While a u32 counts the rounds, the backoff's number of attempts is, where no round
-- panics, the number of the failures since the last fetch of the playlist that succeeded.
pub run_task-pull_all :
    {F T : Type 0} (fl : Float F) (R : Ring) (lib : Library) (G : F64 T) (is : List Turn)
    (t : Task F T)
    → (t.backoff).attempt + length is < 2 ^ 32
    → (relay_of (run_task fl R lib G t is)
        ≡ pull_all fl R lib t.relay (map round_of (until_stop is)))
      × Counts (failures (t.backoff).attempt (until_stop is)) (run_task fl R lib G t is)
run_task-pull_all fl R lib G is t fits =
    (run_task-relay fl R lib G is t, run_task-Counts fl R lib G is t (t.backoff).attempt refl fits)
