-- ===== src/Common/Strips.antt =====
-- Laws of the string operations: equality, splitting, and taking a pattern off.
use Prim.Native.Nat.{ℕ, zero, suc}
use mathlib.Core.Path.{◌≡◌, refl, sym, ap, ap₂}
use mathlib.Core.Logic.{◌≢◌, inl, inr}
use mathlib.Core.Bool.{Bool, true, false, not, ◌&&◌}
use mathlib.Core.Option.{Option, none, some}
use mathlib.Core.List.{List, [], ◌∷◌, ◌++◌}
use native.Mathlib.Omega.{arith}
use live_cdn.Common.Tests.{◌==◌, ==_iff, Bool-cases}
use live_cdn.Common.Lists.{length, length-append}
use live_cdn.Common.Text.{
  same, is_some, starts_with, ends_with, strip_prefix, strip_suffix, strip_starts, strip_ends,
  trim_end_matches, split_by,
}

pub same_refl : (s : List ℕ) → same s s ≡ true
same_refl [] = refl
same_refl (c ∷ s) = ground (arith, same_refl s)

pub true_false : ◌≢◌ {A = Bool} true false
true_false h = cc

pub same_equal : (s t : List ℕ) → same s t ≡ true → s ≡ t
same_equal [] [] h = refl
same_equal [] (d ∷ t) h = absurd cc
same_equal (c ∷ s) [] h = absurd cc
same_equal (c ∷ s) (d ∷ t) h = elim (Bool-cases (c == d)) [
  | inl e ↦ ap₂ ◌∷◌ ((==_iff c d).0 e) (same_equal s t (rw e at h))
  | inr e ↦ absurd (true_false (sym (rw e at h)))
]

pub is_some-none {ℓ} : {A : Type ℓ} (o : Option A) → is_some o ≡ false → o ≡ none
is_some-none none h = refl
is_some-none (some a) h = absurd cc

-- No character passes the test.
abbrev pub none_of : (ℕ → Bool) → List ℕ → Bool
none_of p [] = true
none_of p (c ∷ s) = let rest = none_of p s in not (p c) && rest

pub split_by-append :
    (p : ℕ → Bool) (s t : List ℕ) (b : ℕ)
    → p b ≡ true
    → none_of p s ≡ true
    → split_by p (s ++ b ∷ t) ≡ s ∷ split_by p t
unfolding split_by
split_by-append p [] t b e h = rw e refl
split_by-append p (c ∷ s) t b e h = elim (Bool-cases (p c)) [
  | inl f ↦ absurd (true_false (sym (rw f at h)))
  | inr f ↦ rw (f, split_by-append p s t b e (rw f at h)) refl
]

pub split_by-none_of : (p : ℕ → Bool) (s : List ℕ) → none_of p s ≡ true → split_by p s ≡ s ∷ []
unfolding split_by
split_by-none_of p [] h = refl
split_by-none_of p (c ∷ s) h = elim (Bool-cases (p c)) [
  | inl f ↦ absurd (true_false (sym (rw f at h)))
  | inr f ↦ rw (f, split_by-none_of p s (rw f at h)) refl
]

pub strip_starts-none : (n : ℕ) (s p : List ℕ) → starts_with s p ≡ false → strip_starts n s p ≡ s
unfolding strip_starts
strip_starts-none zero s p h = refl
strip_starts-none (suc n) s p h = rw (strip_starts, is_some-none (strip_prefix s p) h) refl

strip_ends-none : (n : ℕ) (s p : List ℕ) → ends_with s p ≡ false → strip_ends n s p ≡ s
unfolding strip_ends
strip_ends-none zero s p h = refl
strip_ends-none (suc n) s p h = rw (strip_ends, is_some-none (strip_suffix s p) h) refl

strip_suffix-append : (s p : List ℕ) → strip_suffix (s ++ p) p ≡ some s
strip_suffix-append [] [] = refl
strip_suffix-append [] (d ∷ p) = rw (same_refl (d ∷ p)) refl
strip_suffix-append (c ∷ s) p = elim (Bool-cases (same (c ∷ (s ++ p)) p)) [
  | inl e ↦
      let l = ap length (same_equal (c ∷ (s ++ p)) p e) in absurd (omega (arith, length-append s p))
  | inr e ↦ rw (e, strip_suffix-append s p) refl
]

-- A pattern that stands at the end once is taken off once.
pub trim_end_matches-once :
    (c : ℕ) (s p : List ℕ) → ends_with (c ∷ s) p ≡ false → trim_end_matches ((c ∷ s) ++ p) p ≡ c ∷ s
unfolding strip_ends
trim_end_matches-once c s p h =
    rw (strip_ends, strip_suffix-append (c ∷ s) p) (strip_ends-none (length (s ++ p)) (c ∷ s) p h)
