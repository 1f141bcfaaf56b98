-- ===== src/Server/Entries.antt =====
-- Tables of relays by the stream's key, as agent-rust/src/main.rs keeps them in AppState: each key
-- stands once, and its entry is as it should be.
use live_cdn.Common.{
  ℕ, ◌≡◌, refl, sym, subst, none, some, List, [], ◌∷◌, same, same_equal, arith, Bool-cases,
  some_injective, inl, inr,
}
use live_cdn.Server.{get}
use live_cdn.Server.Request.{put}

module _ {A : Type 0} (P : List ℕ → A → Type 0) where
  abbrev pub AreEntries : List (List ℕ × A) → Type 0
  AreEntries [] = Unit {0}
  AreEntries ((k, a) ∷ rest) = P k a × (get rest k ≡ none) × AreEntries rest

  pub get-AreEntries :
      (t : List (List ℕ × A)) (key : List ℕ) (a : A) → AreEntries t → get t key ≡ some a → P key a
  get-AreEntries [] key a i = λ h. absurd cc
  get-AreEntries ((k, b) ∷ rest) key a i = elim (Bool-cases (same k key)) [
    | inl e ↦
        rw e (λ h. subst (λ x. P x a) (same_equal k key e) (subst (P k) (some_injective h) i.0))
    | inr e ↦ rw e (get-AreEntries rest key a i.2)
  ]

  get-put-none :
      (t : List (List ℕ × A)) (key other : List ℕ) (a : A)
      → get t other ≡ none
      → get (put t key a) other ≡ none
  get-put-none [] key other a h = refl
  get-put-none ((k, b) ∷ rest) key other a h = ground (arith, get-put-none rest key other a)

  pub put-AreEntries :
      (t : List (List ℕ × A)) (key : List ℕ) (a : A)
      → AreEntries t
      → P key a
      → AreEntries (put t key a)
  put-AreEntries [] key a i e = tt
  put-AreEntries ((k, b) ∷ rest) key a i e = elim (Bool-cases (same k key)) [
    | inl f ↦ rw f (subst (λ x. P x a) (sym (same_equal k key f)) e, i.1, i.2)
    | inr f ↦ rw f (i.0, get-put-none rest key k a i.1, put-AreEntries rest key a i.2 e)
  ]
