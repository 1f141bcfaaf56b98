-- ===== src/Puller/Loop.antt =====
-- The inner loop of the puller: each round takes bytes off the buffer, so it ends, and its fuel does
-- not matter.
use live_cdn.Common.{
  ℕ, zero, suc, ◌+◌, ◌≤◌, ◌<◌, ◌≡◌, refl, ◌≢◌, ◌⊎◌, inl, inr, arith, ltb, List, from_be32, length,
  byte_at, length-drop, Result-cases, Bool-cases, ltb→le,
}
use live_cdn.Flv.{tag_try_from}
use live_cdn.Puller.{
  Pull, Round, waits, rejects, goes, parse_header, parse_tag, round, size_field, waiting, rejected,
  stuck, parse_loop, parse_all,
}

-- What a round's result says of the buffer.
abbrev Shrinks : Pull → Round → Type 0
Shrinks s (goes s') = length s'.buffer + 4 ≤ length s.buffer
Shrinks s waits = Unit {0}
Shrinks s rejects = Unit {0}

parse_header-Shrinks : (s : Pull) → Shrinks s (parse_header s)
unfolding parse_header
parse_header-Shrinks s =
    let b : List ℕ = s.buffer in
    ground (arith, length-drop (from_be32 0 (byte_at b 5) (byte_at b 6) (byte_at b 7) + 4) b)

pub Round-cases : (r : Round) → (r ≡ waits) ⊎ ((r ≡ rejects) ⊎ ((s : Pull) × (r ≡ goes s)))
Round-cases waits = inl refl
Round-cases rejects = inr (inl refl)
Round-cases (goes s) = inr (inr (s, refl))

module _ (clock : ℕ → ℕ) where
  parse_tag-Shrinks : (s : Pull) → Shrinks s (parse_tag clock s)
  unfolding parse_tag
  parse_tag-Shrinks s = elim (Bool-cases (ltb (length s.buffer) 11)) [
    | inl short ↦ rw short tt
    | inr long ↦ rw long (elim (Result-cases (tag_try_from (byte_at s.buffer 0))) [
      | inr (x, e) ↦ rw e (omega (arith, length-drop 11 s.buffer, ltb→le _ _ long))
      | inl (t, e) ↦ rw e (
          let total : ℕ = 11 + size_field s.buffer + 4 in
          elim (Bool-cases (ltb (length s.buffer) total)) [
            | inl part ↦ rw part tt
            | inr whole ↦ rw whole (omega (arith, length-drop total s.buffer, ltb→le _ _ whole))
          ])
    ])
  ]

  round-Shrinks : (s : Pull) → Shrinks s (round clock s)
  unfolding round
  round-Shrinks s = elim (Bool-cases s.flv_header_parsed) [
    | inl parsed ↦ simp parsed (parse_tag-Shrinks s)
    | inr fresh ↦ simp fresh (parse_header-Shrinks s)
  ]

  pub round_shorter :
      (s s' : Pull) → round clock s ≡ goes s' → length s'.buffer + 4 ≤ length s.buffer
  round_shorter s s' e = rw e at (round-Shrinks s)

  -- With more fuel than there are bytes the loop ends by itself.
  parse_loop-ne-stuck :
      (fuel : ℕ) (s : Pull) → length s.buffer < fuel → parse_loop clock fuel s ≢ stuck
  unfolding parse_loop
  parse_loop-ne-stuck zero s h = elim h [ ]
  parse_loop-ne-stuck (suc fuel) s h = elim (Round-cases (round clock s)) [
    | inl e ↦ rw (e, parse_loop) (λ x. cc)
    | inr (inl e) ↦ rw (e, parse_loop) (λ x. cc)
    | inr (inr (s', e)) ↦
        rw (e, parse_loop) (parse_loop-ne-stuck fuel s' (omega (arith, round_shorter s s' e)))
  ]

  parse_loop_enough :
      (f g : ℕ) (s : Pull)
      → length s.buffer < f
      → length s.buffer < g
      → parse_loop clock f s ≡ parse_loop clock g s
  unfolding parse_loop
  parse_loop_enough zero g s h k = elim h [ ]
  parse_loop_enough (suc f) zero s h k = elim k [ ]
  parse_loop_enough (suc f) (suc g) s h k = elim (Round-cases (round clock s)) [
    | inl e ↦ rw (e, parse_loop)
    | inr (inl e) ↦ rw (e, parse_loop)
    | inr (inr (s', e)) ↦
        let shorter : length s'.buffer + 4 ≤ length s.buffer = round_shorter s s' e in
        rw (e, parse_loop) (parse_loop_enough f g s' (omega arith) (omega arith))
  ]

  -- The loop, a round at a time.
  pub parse_all-waits : (s : Pull) → round clock s ≡ waits → parse_all clock s ≡ waiting s
  unfolding parse_all parse_loop
  parse_all-waits s e = rw (e, parse_loop)

  pub parse_all-rejects : (s : Pull) → round clock s ≡ rejects → parse_all clock s ≡ rejected s
  unfolding parse_all parse_loop
  parse_all-rejects s e = rw (e, parse_loop)

  pub parse_all-goes :
      (s s' : Pull) → round clock s ≡ goes s' → parse_all clock s ≡ parse_all clock s'
  unfolding parse_all parse_loop
  parse_all-goes s s' e =
      let shorter : length s'.buffer + 4 ≤ length s.buffer = round_shorter s s' e in
      rw (e, parse_loop)
        (parse_loop_enough (length s.buffer) (suc (length s'.buffer)) s' (omega arith)
          (omega arith))

  -- The inner loop ends on every buffer.
  pub parse_all-ne-stuck : (s : Pull) → parse_all clock s ≢ stuck
  unfolding parse_all
  parse_all-ne-stuck s = parse_loop-ne-stuck (suc (length s.buffer)) s (omega arith)
