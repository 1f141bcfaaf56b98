-- ===== src/Common/Lists.antt =====
-- Lists measured and indexed by native numbers, under the library's names.
use Prim.Native.Nat.{ℕ, zero, suc, ◌+◌, ◌-◌, ◌≤◌, ◌<◌, min}
use mathlib.Core.Path.{◌≡◌, refl, sym, ap, ap₂}
use mathlib.Core.Logic.{◌⊎◌, inl, inr}
use mathlib.Core.Bool.{Bool}
use mathlib.Core.Option.{Option, none, some}
use mathlib.Core.List.{List, [], ◌∷◌, ◌++◌, map}
use native.Mathlib.Omega.{arith}
use live_cdn.Common.Tests.{if◌then◌else◌}
use live_cdn.Common.Bytes.{from_be32, from_be64}

module _ {ℓ} {A : Type ℓ} where
  abbrev pub length : List A → ℕ
  length [] = 0
  length (x ∷ xs) = suc (length xs)

  abbrev pub get_or : List A → ℕ → A → A
  get_or [] i d = d
  get_or (x ∷ xs) zero d = x
  get_or (x ∷ xs) (suc i) d = get_or xs i d

  abbrev pub take : ℕ → List A → List A
  take zero xs = []
  take (suc n) [] = []
  take (suc n) (x ∷ xs) = x ∷ take n xs

  abbrev pub drop : ℕ → List A → List A
  drop zero xs = xs
  drop (suc n) [] = []
  drop (suc n) (x ∷ xs) = drop n xs

  -- The entries that pass a test, in order (the library's `filter` wants a decision).
  abbrev pub keep : (A → Bool) → List A → List A
  keep p [] = []
  keep p (x ∷ xs) = if p x then x ∷ keep p xs else keep p xs

  abbrev pub All {κ} : (A → Type κ) → List A → Type κ
  All P [] = Unit {κ}
  All P (x ∷ xs) = P x × All P xs

module _ {ℓ} {A : Type ℓ} where
  pub length-append : (xs ys : List A) → length (xs ++ ys) ≡ length xs + length ys
  length-append [] ys = omega arith
  length-append (x ∷ xs) ys = omega (arith, length-append xs ys)

  pub length-take : (n : ℕ) (xs : List A) → length (take n xs) ≡ min n (length xs)
  length-take zero xs = omega arith
  length-take (suc n) [] = omega arith
  length-take (suc n) (x ∷ xs) = omega (arith, length-take n xs)

  pub length-drop : (n : ℕ) (xs : List A) → length (drop n xs) ≡ length xs - n
  length-drop zero xs = omega arith
  length-drop (suc n) [] = omega arith
  length-drop (suc n) (x ∷ xs) = omega (arith, length-drop n xs)

  pub take-append_le : (n : ℕ) (xs ys : List A) → n ≤ length xs → take n (xs ++ ys) ≡ take n xs
  take-append_le zero xs ys h = refl
  take-append_le (suc n) [] ys h = elim h [ ]
  take-append_le (suc n) (x ∷ xs) ys h = ap (◌∷◌ x) (take-append_le n xs ys (omega arith))

  pub drop-append_le :
      (n : ℕ) (xs ys : List A) → n ≤ length xs → drop n (xs ++ ys) ≡ drop n xs ++ ys
  drop-append_le zero xs ys h = refl
  drop-append_le (suc n) [] ys h = elim h [ ]
  drop-append_le (suc n) (x ∷ xs) ys h = drop-append_le n xs ys (omega arith)

  pub take-drop : (n : ℕ) (xs : List A) → take n xs ++ drop n xs ≡ xs
  take-drop zero xs = refl
  take-drop (suc n) [] = refl
  take-drop (suc n) (x ∷ xs) = ap (◌∷◌ x) (take-drop n xs)

  pub take-length : (xs : List A) → take (length xs) xs ≡ xs
  take-length [] = refl
  take-length (x ∷ xs) = ap (◌∷◌ x) (take-length xs)

  pub drop-length : (xs : List A) → drop (length xs) xs ≡ []
  drop-length [] = refl
  drop-length (x ∷ xs) = drop-length xs

  pub take-append : (xs ys : List A) → take (length xs) (xs ++ ys) ≡ xs
  take-append [] ys = refl
  take-append (x ∷ xs) ys = ap (◌∷◌ x) (take-append xs ys)

  pub drop-append : (xs ys : List A) → drop (length xs) (xs ++ ys) ≡ ys
  drop-append [] ys = refl
  drop-append (x ∷ xs) ys = drop-append xs ys

  pub get_or-append :
      (xs ys : List A) (i : ℕ) (d : A) → i < length xs → get_or (xs ++ ys) i d ≡ get_or xs i d
  get_or-append [] ys i d h = elim h [ ]
  get_or-append (x ∷ xs) ys zero d h = refl
  get_or-append (x ∷ xs) ys (suc i) d h = get_or-append xs ys i d (omega arith)

  pub All-append {κ} : (P : A → Type κ) (xs ys : List A) → All P xs → All P ys → All P (xs ++ ys)
  All-append P [] ys hx hy = hy
  All-append P (x ∷ xs) ys hx hy = (hx.0, All-append P xs ys hx.1 hy)

-- Indexing a byte slice, and the big-endian words that start at an index. Every read of the
-- sources stands behind a check of the slice's length, so the default is never seen.
abbrev pub byte_at : List ℕ → ℕ → ℕ
byte_at d i = get_or d i 0

abbrev pub u32_at : List ℕ → ℕ → ℕ
u32_at d i = from_be32 (byte_at d i) (byte_at d (i + 1)) (byte_at d (i + 2)) (byte_at d (i + 3))

abbrev pub u64_at : List ℕ → ℕ → ℕ
u64_at d i =
    from_be64 (byte_at d i) (byte_at d (i + 1)) (byte_at d (i + 2)) (byte_at d (i + 3))
      (byte_at d (i + 4)) (byte_at d (i + 5)) (byte_at d (i + 6)) (byte_at d (i + 7))

module _ (d more : List ℕ) (i : ℕ) where
  pub byte_at-append : i < length d → byte_at (d ++ more) i ≡ byte_at d i
  byte_at-append h = get_or-append d more i 0 h

  pub u32_at-append : i + 3 < length d → u32_at (d ++ more) i ≡ u32_at d i
  u32_at-append h = rw (
    get_or-append d more i 0 (omega arith),
    get_or-append d more (i + 1) 0 (omega arith),
    get_or-append d more (i + 2) 0 (omega arith),
    get_or-append d more (i + 3) 0 (omega arith),
  )

  pub u64_at-append : i + 7 < length d → u64_at (d ++ more) i ≡ u64_at d i
  u64_at-append h = rw (
    get_or-append d more i 0 (omega arith),
    get_or-append d more (i + 1) 0 (omega arith),
    get_or-append d more (i + 2) 0 (omega arith),
    get_or-append d more (i + 3) 0 (omega arith),
    get_or-append d more (i + 4) 0 (omega arith),
    get_or-append d more (i + 5) 0 (omega arith),
    get_or-append d more (i + 6) 0 (omega arith),
    get_or-append d more (i + 7) 0 (omega arith),
  )

module _ {ℓ} {A : Type ℓ} where
  abbrev pub replicate : ℕ → A → List A
  replicate zero a = []
  replicate (suc n) a = a ∷ replicate n a

  pub ∷-injective :
      {x y : A} {xs ys : List A} → ◌≡◌ {A = List A} (x ∷ xs) (y ∷ ys) → (x ≡ y) × (xs ≡ ys)
  ∷-injective e = (cc, cc)

  pub ∷-ne-nil : {x : A} {xs : List A} → ◌≡◌ {A = List A} (x ∷ xs) [] → ⊥
  ∷-ne-nil e = cc

  -- Two ways to cut one list: the first cut is before the second, or not.
  pub append_split :
      (xs ys us vs : List A)
      → xs ++ ys ≡ us ++ vs
      → ((w : List A) × (us ≡ xs ++ w) × (ys ≡ w ++ vs) × (0 < length w))
        ⊎ ((w : List A) × (xs ≡ us ++ w) × (vs ≡ w ++ ys))
  append_split [] ys [] vs e = inr ([], refl, sym e)
  append_split [] ys (u ∷ us) vs e = inl (u ∷ us, refl, e, omega arith)
  append_split (x ∷ xs) ys [] vs e = inr (x ∷ xs, refl, sym e)
  append_split (x ∷ xs) ys (u ∷ us) vs e = elim (append_split xs ys us vs (∷-injective e).1) [
    | inl (w, p, q, h) ↦ inl (w, ap₂ ◌∷◌ (sym (∷-injective e).0) p, q, h)
    | inr (w, p, q) ↦ inr (w, ap₂ ◌∷◌ (∷-injective e).0 p, q)
  ]

  pub append-eq-nil : (xs ys : List A) → xs ++ ys ≡ [] → xs ≡ []
  append-eq-nil [] ys e = refl
  append-eq-nil (x ∷ xs) ys e = cc

  pub All-left {κ} : (P : A → Type κ) (xs ys : List A) → All P (xs ++ ys) → All P xs
  All-left P [] ys h = tt
  All-left P (x ∷ xs) ys h = (h.0, All-left P xs ys h.1)

  pub All-right {κ} : (P : A → Type κ) (xs ys : List A) → All P (xs ++ ys) → All P ys
  All-right P [] ys h = h
  All-right P (x ∷ xs) ys h = All-right P xs ys h.1

module _ {ℓ κ} {A : Type ℓ} {B : Type κ} where
  pub length-map : (xs : List A) (f : A → B) → length (map f xs) ≡ length xs
  length-map [] f = refl
  length-map (x ∷ xs) f = ap suc (length-map xs f)

module _ {ℓ} {A : Type ℓ} where
  abbrev pub get_elem? : List A → ℕ → Option A
  get_elem? [] i = none
  get_elem? (x ∷ xs) zero = some x
  get_elem? (x ∷ xs) (suc i) = get_elem? xs i

  none-ne-some : {y : A} → ◌≡◌ {A = Option A} none (some y) → ⊥
  none-ne-some h = cc

  -- The element behind the front.
  pub get_elem?-append :
      (xs ys : List A) {y : A}
      → get_elem? (xs ++ ys) (length xs) ≡ some y
      → (rest : List A) × (ys ≡ y ∷ rest)
  get_elem?-append [] [] h = absurd (none-ne-some h)
  get_elem?-append [] (z ∷ ys) h = (ys, cc)
  get_elem?-append (x ∷ xs) ys h = get_elem?-append xs ys h
