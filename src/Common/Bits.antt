-- ===== src/Common/Bits.antt =====
-- `bit_or` and `bit_and` at variables: a byte put behind a shifted word, and the two nibbles of a
-- byte.
use Prim.Native.Nat.{
  ℕ, zero, suc, ◌+◌, ◌*◌, ◌/◌, ◌%◌, ◌^◌, ◌≤◌, ◌<◌, max, bit_or, bit_and, digits, bit_or-bitwise,
}
use mathlib.Core.Path.{◌≡◌, refl, ap, ◌∙◌}
use mathlib.Core.Bool.{Bool, true, ◌&&◌}
use native.Mathlib.Nat.{pow-suc}
use native.Mathlib.Omega.{arith}
use live_cdn.Common.Tests.{◌==◌, ==_iff}

or_digits : ℕ → ℕ → ℕ → ℕ
or_digits = digits (λ b. b) max

-- Any count of digits that covers the first number gives the same result.
or_digits_enough : (n m a b : ℕ) → a ≤ n → a ≤ m → or_digits n a b ≡ or_digits m a b
unfolding or_digits
or_digits_enough zero zero a b p q = refl
or_digits_enough zero (suc m) zero b p q = refl
or_digits_enough zero (suc m) (suc a) b p q = absurd (omega arith)
or_digits_enough (suc n) zero zero b p q = refl
or_digits_enough (suc n) zero (suc a) b p q = absurd (omega arith)
or_digits_enough (suc n) (suc m) zero b p q = refl
or_digits_enough (suc n) (suc m) (suc a) b p q =
    omega (arith, or_digits_enough n m (suc a / 2) (b / 2) (omega arith) (omega arith))

zero-bit_or : (b : ℕ) → bit_or 0 b ≡ b
zero-bit_or b = bit_or-bitwise 0 b

bit_or-halves : (a b : ℕ) → bit_or a b ≡ bit_or (a / 2) (b / 2) * 2 + max (a % 2) (b % 2)
unfolding or_digits
bit_or-halves zero b = omega (arith, zero-bit_or b, zero-bit_or (b / 2))
bit_or-halves (suc a) b = omega (
  arith,
  bit_or-bitwise (suc a) b,
  bit_or-bitwise (suc a / 2) (b / 2),
  or_digits_enough a (suc a / 2) (suc a / 2) (b / 2) (omega arith) (omega arith),
)

bit_or-zero_below : (n a : ℕ) → a ≤ n → bit_or a 0 ≡ a
bit_or-zero_below n zero h = refl
bit_or-zero_below zero (suc a) h = absurd (omega arith)
bit_or-zero_below (suc n) (suc a) h =
    omega (arith, bit_or-halves (suc a) 0, bit_or-zero_below n (suc a / 2) (omega arith))

bit_or_comm_below : (n a b : ℕ) → a ≤ n → b ≤ n → bit_or a b ≡ bit_or b a
bit_or_comm_below n zero b p q = omega (arith, zero-bit_or b, bit_or-zero_below b b (omega arith))
bit_or_comm_below n (suc a) zero p q =
    omega (arith, zero-bit_or (suc a), bit_or-zero_below (suc a) (suc a) (omega arith))
bit_or_comm_below zero (suc a) (suc b) p q = elim p [ ]
bit_or_comm_below (suc n) (suc a) (suc b) p q = omega (
  arith,
  bit_or-halves (suc a) (suc b),
  bit_or-halves (suc b) (suc a),
  bit_or_comm_below n (suc a / 2) (suc b / 2) (omega arith) (omega arith),
)

-- `(a << k) | b` is a sum where `b` has no digit beyond the k lowest.
pub bit_or-shl : (k a b : ℕ) → b < 2 ^ k → bit_or (a * 2 ^ k) b ≡ a * 2 ^ k + b
bit_or-shl zero a b h =
    let e : b ≡ 0 = omega arith in rw e (omega (arith, bit_or-zero_below (a * 1) (a * 1)))
bit_or-shl (suc k) a b h =
    let double : a * 2 ^ suc k ≡ a * 2 ^ k * 2 =
      omega (arith, ap (λ (t : ℕ). a * t) (pow-suc 2 k)) in
    let half : a * 2 ^ suc k / 2 ≡ a * 2 ^ k = omega arith in
    let fits : b / 2 < 2 ^ k = omega (arith, pow-suc 2 k) in
    omega (
      arith,
      bit_or-halves (a * 2 ^ suc k) b,
      ap (λ (t : ℕ). bit_or t (b / 2)) half,
      bit_or-shl k a (b / 2) fits,
    )

all_bytes : ℕ → (ℕ → Bool) → Bool
all_bytes zero p = true
all_bytes (suc n) p = p n && all_bytes n p

all_bytes_sound : (n : ℕ) (p : ℕ → Bool) (x : ℕ) → all_bytes n p ≡ true → x < n → p x ≡ true
unfolding all_bytes
all_bytes_sound zero p x h lt = absurd (omega arith)
all_bytes_sound (suc n) p x h lt = ground (arith, all_bytes_sound n p x)

low_nibble_table : all_bytes 256 (λ x. bit_and x 0x0f == x % 16) ≡ true
unfolding all_bytes
low_nibble_table = refl

high_nibble_table : all_bytes 256 (λ x. bit_and (x / 16) 0x0f == x / 16) ≡ true
unfolding all_bytes
high_nibble_table = refl

-- `b & 0x0F` and `(b >> 4) & 0x0F`
pub low_nibble : (b : ℕ) → b < 256 → bit_and b 0x0f ≡ b % 16
low_nibble b h = (==_iff _ (b % 16)).0 (all_bytes_sound 256 _ b low_nibble_table h)

pub high_nibble : (b : ℕ) → b < 256 → bit_and (b / 16) 0x0f ≡ b / 16
high_nibble b h = (==_iff _ (b / 16)).0 (all_bytes_sound 256 _ b high_nibble_table h)

-- Three and four bytes put together by shifts and `|`, the fourth one on top.
pub or_three :
    (a b c : ℕ)
    → b < 256
    → c < 256
    → bit_or (bit_or (a * 2 ^ 16) (b * 2 ^ 8)) c ≡ a * 2 ^ 16 + b * 2 ^ 8 + c
or_three a b c hb hc =
    let regroup : a * 2 ^ 16 + b * 2 ^ 8 ≡ (a * 2 ^ 8 + b) * 2 ^ 8 = omega arith in
    ap (λ (t : ℕ). bit_or t c) (bit_or-shl 16 a (b * 2 ^ 8) (omega arith) ∙ regroup)
    ∙ bit_or-shl 8 (a * 2 ^ 8 + b) c hc
    ∙ omega arith

pub or_four :
    (a b c d : ℕ)
    → a < 256
    → b < 256
    → c < 256
    → bit_or (bit_or (bit_or (a * 2 ^ 16) (b * 2 ^ 8)) c) (d * 2 ^ 24)
      ≡ d * 2 ^ 24 + a * 2 ^ 16 + b * 2 ^ 8 + c
or_four a b c d ha hb hc =
    let low : ℕ = a * 2 ^ 16 + b * 2 ^ 8 + c in
    ap (λ (t : ℕ). bit_or t (d * 2 ^ 24)) (or_three a b c hb hc)
    ∙ bit_or_comm_below (low + d * 2 ^ 24) low (d * 2 ^ 24) (omega arith) (omega arith)
    ∙ bit_or-shl 24 d low (omega arith)
    ∙ omega arith
