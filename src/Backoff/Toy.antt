-- ===== src/Backoff/Toy.antt =====
-- Whole numbers in place of f64, at which the theorems are tried.
use live_cdn.Common.{ℕ, ◌+◌, ◌-◌, ◌*◌, ◌/◌, ◌^◌, min, max, leb, ℤ, pos, negsuc}
use live_cdn.Backoff.{F64}

-- The whole part of a power with a negative exponent is 0, for a base above 1.
abbrev whole_power : ℕ → ℤ → ℕ
whole_power a (pos n) = a ^ n
whole_power a (negsuc n) = 0

abbrev pub whole : F64 ℕ
whole = record {
  literal = λ m e. m / 10 ^ e;
  from_u64 = λ n. n;
  add = λ a b. a + b;
  sub = λ a b. a - b;
  mul = λ a b. a * b;
  div = λ a b. a / b;
  powi = whole_power;
  minimum = min;
  maximum = max;
  less_eq = leb;
  seconds_between = λ a b. b - a;
}
