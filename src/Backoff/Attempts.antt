-- ===== src/Backoff/Attempts.antt =====
-- The count of attempts, and what it does to the waits.
use live_cdn.Common.{ℕ, zero, suc, ◌+◌, ◌%◌, ◌^◌, ◌<◌, ◌≡◌, ◌∙◌, refl, ap, arith, as_i32}
use live_cdn.Backoff.{F64, ExponentialBackoff, new_backoff, next_wait, base_secs}

module _ {T : Type 0} (F : F64 T) where
  -- The state after so many waits, and the seed.
  abbrev pub after_waits : ExponentialBackoff T → ℕ → ℕ → ExponentialBackoff T × ℕ
  after_waits b seed zero = (b, seed)
  after_waits b seed (suc n) = let (b', seed', wait) = next_wait F b seed in after_waits b' seed' n

  after_waits-attempt :
      (n : ℕ) (b : ExponentialBackoff T) (seed : ℕ)
      → b.attempt + n < 2 ^ 32
      → ((after_waits b seed n).0.attempt ≡ b.attempt + n)
        × ((after_waits b seed n).0.initial ≡ b.initial)
        × ((after_waits b seed n).0.max_wait ≡ b.max_wait)
        × ((after_waits b seed n).0.multiplier ≡ b.multiplier)
  unfolding next_wait
  after_waits-attempt zero b seed h = (omega arith, refl, refl, refl)
  after_waits-attempt (suc n) b seed h =
      let now : (b.attempt + 1) % 2 ^ 32 ≡ b.attempt + 1 = omega arith in
      let (count, initial, max_wait, multiplier) =
        after_waits-attempt n (next_wait F b seed).0 (next_wait F b seed).1 (omega arith) in
      (omega arith, initial, max_wait, multiplier)

  pub base_secs-parts :
      (b : ExponentialBackoff T) (initial max_wait multiplier : T) (n : ℕ)
      → b.initial ≡ initial
      → b.max_wait ≡ max_wait
      → b.multiplier ≡ multiplier
      → b.attempt ≡ n
      → base_secs F b ≡ F.minimum (F.mul initial (F.powi multiplier (as_i32 n))) max_wait
  base_secs-parts b initial max_wait multiplier n i m k c =
      ap (λ x. F.minimum (F.mul x (F.powi b.multiplier (as_i32 b.attempt))) b.max_wait) i
      ∙ ap (λ x. F.minimum (F.mul initial (F.powi b.multiplier (as_i32 b.attempt))) x) m
      ∙ ap (λ x. F.minimum (F.mul initial (F.powi x (as_i32 b.attempt))) max_wait) k
      ∙ ap (λ x. F.minimum (F.mul initial (F.powi multiplier (as_i32 x))) max_wait) c

  -- After any number of losses that a u32 counts, the next wait is, before its jitter, the first wait
  -- times two to that power, read as an i32, or the longest wait if that is less.
  base_secs-after_waits :
      (initial max_wait : T) (seed n : ℕ)
      → n < 2 ^ 32
      → base_secs F (after_waits (new_backoff F initial max_wait) seed n).0
        ≡ F.minimum (F.mul initial (F.powi (F.literal 2 0) (as_i32 n))) max_wait
  unfolding new_backoff
  base_secs-after_waits initial max_wait seed n h =
      let (count, i, m, k) =
        after_waits-attempt n (new_backoff F initial max_wait) seed (omega arith) in
      let zero_first : 0 + n ≡ n = omega arith in
      base_secs-parts _ initial max_wait (F.literal 2 0) n i m k (count ∙ zero_first)
