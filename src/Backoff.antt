-- ===== src/Backoff.antt =====
-- agent-rust/src/relay/backoff.rs: the token bucket and the waits between two attempts. The numbers of
-- type f64 are a parameter; the time and the seed of the pseudo-random numbers are passed along. A
-- duration is its seconds.
pub mod Attempts
pub mod Toy
use live_cdn.Common.{
  ℕ, ◌+◌, ◌-◌, ◌*◌, ◌/◌, ◌%◌, ◌^◌, Bool, true, false, if◌then◌else◌, bit_xor, ℤ, as_i32,
}

-- `literal m e` is the literal m / 10 ^ e, `seconds_between` the time from one instant to another.
pub record F64 (T : Type 0) : Type 0 where
  pub literal : ℕ → ℕ → T
  pub from_u64 : ℕ → T
  pub add : T → T → T
  pub sub : T → T → T
  pub mul : T → T → T
  pub div : T → T → T
  pub powi : T → ℤ → T
  pub minimum : T → T → T
  pub maximum : T → T → T
  pub less_eq : T → T → Bool
  pub seconds_between : ℕ → ℕ → T

-- xorshift64
unfoldable pub next_seed : ℕ → ℕ
next_seed s =
    let a = bit_xor s (s * 2 ^ 13 % 2 ^ 64) in
    let b = bit_xor a (a / 2 ^ 7) in bit_xor b (b * 2 ^ 17 % 2 ^ 64)

pub record TokenBucket (T : Type 0) : Type 0 where
  pub rate : T
  pub tokens : T
  pub max_tokens : T
  pub last_refill : ℕ
  pub jitter_range : T

pub record ExponentialBackoff (T : Type 0) : Type 0 where
  pub initial : T
  pub max_wait : T
  pub multiplier : T
  pub attempt : ℕ

module _ {T : Type 0} (F : F64 T) where
  abbrev random_of : ℕ → T
  random_of seed = F.div (F.from_u64 seed) (F.from_u64 (2 ^ 64 - 1))

  unfoldable pub pseudo_random : ℕ → ℕ × T
  pseudo_random seed = (next_seed seed, random_of (next_seed seed))

  unfoldable pub new_bucket : ℕ → ℕ → TokenBucket T
  new_bucket rate now = record {
    rate = F.from_u64 rate;
    tokens = F.from_u64 rate;
    max_tokens = F.mul (F.from_u64 rate) (F.literal 2 0);
    last_refill = now;
    jitter_range = F.literal 15 2;
  }

  unfoldable pub refill : TokenBucket T → ℕ → TokenBucket T
  refill b now = record b {
    tokens =
        F.minimum (F.add b.tokens (F.mul (F.seconds_between b.last_refill now) b.rate))
          b.max_tokens;
    last_refill = now;
  }

  -- The wait for tokens that are missing, with its jitter, and the next seed.
  abbrev waited : TokenBucket T → T → ℕ → ℕ × T
  waited b n seed =
      let wait_secs = F.div (F.sub n b.tokens) b.rate in
      let (seed', x) = pseudo_random seed in
      let r = F.sub (F.mul (F.mul x b.jitter_range) (F.literal 2 0)) b.jitter_range in
      let zero_secs = F.literal 0 0 in
      if F.less_eq b.jitter_range zero_secs
      then (seed, F.maximum (F.add wait_secs zero_secs) zero_secs)
      else (seed', F.maximum (F.add wait_secs (F.mul wait_secs r)) zero_secs)

  -- The bucket, the seed and the seconds to wait.
  unfoldable pub consume : TokenBucket T → ℕ → ℕ → ℕ → TokenBucket T × ℕ × T
  consume b n now seed =
      let c = refill b now in
      let (seed', wait) = waited c (F.from_u64 n) seed in
      if F.less_eq (F.from_u64 n) c.tokens
      then (record c { tokens = F.sub c.tokens (F.from_u64 n) }, seed, F.literal 0 0)
      else (record c { tokens = F.literal 0 0 }, seed', wait)

  pub set_rate : TokenBucket T → ℕ → TokenBucket T
  set_rate b rate = record b {
    rate = F.from_u64 rate;
    max_tokens = F.mul (F.from_u64 rate) (F.literal 2 0);
  }

  unfoldable pub new_backoff : T → T → ExponentialBackoff T
  new_backoff initial max_wait = record {
    initial = initial;
    max_wait = max_wait;
    multiplier = F.literal 2 0;
    attempt = 0;
  }

  -- The seconds without the jitter. The exponent is a u32 that is cast to an i32: from 2^31 on it is
  -- negative.
  abbrev pub base_secs : ExponentialBackoff T → T
  base_secs b = F.minimum (F.mul b.initial (F.powi b.multiplier (as_i32 b.attempt))) b.max_wait

  -- The method `next`: the backoff, the seed and the seconds to wait.
  unfoldable pub next_wait : ExponentialBackoff T → ℕ → ExponentialBackoff T × ℕ × T
  next_wait b seed =
      let secs = base_secs b in
      let (seed', x) = pseudo_random seed in
      let jitter =
        F.mul (F.mul secs (F.literal 25 2)) (F.sub (F.mul x (F.literal 2 0)) (F.literal 1 0)) in
      (
        record b { attempt = (b.attempt + 1) % 2 ^ 32 },
        seed',
        F.maximum (F.add secs jitter) (F.literal 0 0),
      )

unfoldable pub reset : {T : Type 0} → ExponentialBackoff T → ExponentialBackoff T
reset b = record b { attempt = 0 }
