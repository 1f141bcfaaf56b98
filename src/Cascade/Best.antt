-- ===== src/Cascade/Best.antt =====
-- What the selection promises: the path is over an allowed candidate that closes no loop, and none
-- of the others has a better score.
use live_cdn.Common.{
  ℕ, ◌≡◌, ◌⊎◌, inl, inr, refl, suc, Bool, true, false, ◌&&◌, ◌||◌, not, some, List, [], ◌∷◌, All,
  Bool-cases, arith, same,
}
use live_cdn.Cascade.{ℤ, Float, CandidateUpstream, CascadePath, CascadeSelector, would_create_loop}
use live_cdn.Cascade.Score.{
  Locks, path_over, passed_over, scored_from, insert_path, sort_paths, select_from_candidates,
  is_empty_text, first,
}

module _ (F : Float) where
  -- A score order that a sort can use: it is irreflexive and its negation is transitive.
  pub record IsWeakOrder : Type 0 where
    pub irreflexive : (x : F.Carrier) → F.less x x ≡ false
    pub not_less_trans :
        (x y z : F.Carrier) → F.less x y ≡ false → F.less y z ≡ false → F.less x z ≡ false
    pub asymmetric : (x y : F.Carrier) → F.less x y ≡ true → F.less y x ≡ false

  -- No path of the list has a better score.
  abbrev pub AtMost : F.Carrier → List (CascadePath F.Carrier) → Type 0
  AtMost x ps = All (λ (q : CascadePath F.Carrier). F.less x q.score ≡ false) ps

  abbrev pub Sorted : List (CascadePath F.Carrier) → Type 0
  Sorted [] = Unit {0}
  Sorted (p ∷ ps) = AtMost p.score ps × Sorted ps

  AtMost-weaken :
      (o : IsWeakOrder) (x y : F.Carrier) (ps : List (CascadePath F.Carrier))
      → F.less x y ≡ false
      → AtMost y ps
      → AtMost x ps
  AtMost-weaken o x y [] h a = tt
  AtMost-weaken o x y (p ∷ ps) h a =
      (o.not_less_trans x y p.score h a.0, AtMost-weaken o x y ps h a.1)

  -- Insertion and sorting neither lose nor add a path: what all the paths have, all have after it.
  module _ (P : CascadePath F.Carrier → Type 0) where
    All-insert_path :
        (ps : List (CascadePath F.Carrier)) (p : CascadePath F.Carrier)
        → P p
        → All P ps
        → All P (insert_path F p ps)
    unfolding insert_path
    All-insert_path [] p h hs = (h, tt)
    All-insert_path (q ∷ qs) p h hs = elim (Bool-cases (F.less p.score q.score)) [
      | inl l ↦ rw l (hs.0, All-insert_path qs p h hs.1)
      | inr n ↦ rw n (h, hs)
    ]

    All-sort_paths : (ps : List (CascadePath F.Carrier)) → All P ps → All P (sort_paths F ps)
    unfolding sort_paths
    All-sort_paths [] h = tt
    All-sort_paths (p ∷ ps) h = All-insert_path (sort_paths F ps) p h.0 (All-sort_paths ps h.1)

    All-insert_path_back :
        (ps : List (CascadePath F.Carrier)) (p : CascadePath F.Carrier)
        → All P (insert_path F p ps)
        → P p × All P ps
    unfolding insert_path
    All-insert_path_back [] p = λ h. h
    All-insert_path_back (q ∷ qs) p = elim (Bool-cases (F.less p.score q.score)) [
      | inl l ↦ rw l (λ h. let (a, b) = All-insert_path_back qs p h.1 in (a, (h.0, b)))
      | inr n ↦ rw n (λ h. h)
    ]

    All-sort_paths_back : (ps : List (CascadePath F.Carrier)) → All P (sort_paths F ps) → All P ps
    unfolding sort_paths
    All-sort_paths_back [] h = tt
    All-sort_paths_back (p ∷ ps) h =
        let (a, b) = All-insert_path_back (sort_paths F ps) p h in (a, All-sort_paths_back ps b)

  insert_path-Sorted :
      (o : IsWeakOrder) (ps : List (CascadePath F.Carrier)) (p : CascadePath F.Carrier)
      → Sorted ps
      → Sorted (insert_path F p ps)
  unfolding insert_path
  insert_path-Sorted o [] p h = (tt, tt)
  insert_path-Sorted o (q ∷ qs) p h = elim (Bool-cases (F.less p.score q.score)) [
    | inl l ↦ rw l (
      All-insert_path (λ (r : CascadePath F.Carrier). F.less q.score r.score ≡ false) qs p
          (o.asymmetric p.score q.score l) h.0,
      insert_path-Sorted o qs p h.1,
    )
    | inr n ↦ rw n ((n, AtMost-weaken o p.score q.score qs n h.0), h)
  ]

  sort_paths-Sorted :
      (o : IsWeakOrder) (ps : List (CascadePath F.Carrier)) → Sorted (sort_paths F ps)
  unfolding sort_paths
  sort_paths-Sorted o [] = tt
  sort_paths-Sorted o (p ∷ ps) = insert_path-Sorted o (sort_paths F ps) p (sort_paths-Sorted o ps)

  first_head :
      (ps : List (CascadePath F.Carrier)) (path : CascadePath F.Carrier)
      → first F ps ≡ some path
      → (qs : List (CascadePath F.Carrier)) × (ps ≡ path ∷ qs)
  first_head [] path h = absurd cc
  first_head (q ∷ qs) path h = (qs, cc)

  -- What the loop over the candidates asks of a candidate that it keeps.
  abbrev pub IsAllowed : CascadeSelector F.Carrier → CandidateUpstream F.Carrier → Type 0
  IsAllowed s c =
      (c.allow_cascade ≡ true)
      × (is_empty_text c.url ≡ false)
      × (would_create_loop s.loop_guard c.node_id c.tier ≡ false)

  kept-IsAllowed :
      (a b c d : Bool)
      → c ≡ true
      → (not a || (b || (c && d))) ≡ false
      → (a ≡ true) × (b ≡ false) × (d ≡ false)
  kept-IsAllowed a b c d e h = ground arith

  -- A path is over one of the candidates, which is allowed.
  abbrev pub IsOver :
      CascadeSelector F.Carrier
      → List (CandidateUpstream F.Carrier)
      → CascadePath F.Carrier
      → Type 0
  IsOver s [] p = ⊥
  IsOver s (c ∷ cs) p =
      (IsAllowed s c × (p.upstream_node_id ≡ c.node_id) × (p.tier ≡ c.tier)) ⊎ IsOver s cs p

  All-IsOver-more :
      (s : CascadeSelector F.Carrier) (c : CandidateUpstream F.Carrier)
      (cs : List (CandidateUpstream F.Carrier)) (ps : List (CascadePath F.Carrier))
      → All (IsOver s cs) ps
      → All (IsOver s (c ∷ cs)) ps
  All-IsOver-more s c cs [] h = tt
  All-IsOver-more s c cs (p ∷ ps) h = (inr h.0, All-IsOver-more s c cs ps h.1)

  scored_from-IsOver :
      (s : CascadeSelector F.Carrier) (now : ℕ) (locks : Locks) (i : ℕ)
      (cs : List (CandidateUpstream F.Carrier))
      → ((j : ℕ) → locks.guard_free j ≡ true)
      → All (IsOver s cs) (scored_from F s now locks i cs)
  unfolding scored_from path_over passed_over
  scored_from-IsOver s now locks i [] free = tt
  scored_from-IsOver s now locks i (c ∷ cs) free =
      let later : All (IsOver s (c ∷ cs)) (scored_from F s now locks (suc i) cs) =
        All-IsOver-more s c cs _ (scored_from-IsOver s now locks (suc i) cs free) in
      elim (Bool-cases (passed_over F s (locks.guard_free i) c)) [
        | inl over ↦ rw over later
        | inr kept ↦ rw kept (inl (kept-IsAllowed _ _ _ _ (free i) kept, refl, refl), later)
      ]

  -- Where scores are ordered and the locks are free, the path that is selected is over one of the
  -- candidates, which allows cascading, has a URL and closes no loop, and no candidate that was
  -- scored has a better score.
  pub select_from_candidates-best :
      (s : CascadeSelector F.Carrier) (now : ℕ) (locks : Locks)
      (cs : List (CandidateUpstream F.Carrier)) (path : CascadePath F.Carrier)
      → IsWeakOrder
      → ((j : ℕ) → locks.guard_free j ≡ true)
      → select_from_candidates F s now locks cs ≡ some path
      → IsOver s cs path × AtMost path.score (scored_from F s now locks 0 cs)
  unfolding select_from_candidates
  select_from_candidates-best s now locks cs path o free h =
      let ps : List (CascadePath F.Carrier) = scored_from F s now locks 0 cs in
      let (qs, e) = first_head (sort_paths F ps) path h in
      let sorted : Sorted (path ∷ qs) = rw e at (sort_paths-Sorted o ps) in
      let over : All (IsOver s cs) (path ∷ qs) =
        rw e at (All-sort_paths (IsOver s cs) ps (scored_from-IsOver s now locks 0 cs free)) in
      (
        over.0,
        All-sort_paths_back (λ (q : CascadePath F.Carrier). F.less path.score q.score ≡ false) ps
            (rw e (o.irreflexive path.score, sorted.0)),
      )

  pub select_from_candidates-IsOver :
      (s : CascadeSelector F.Carrier) (now : ℕ) (locks : Locks)
      (cs : List (CandidateUpstream F.Carrier)) (path : CascadePath F.Carrier)
      → ((j : ℕ) → locks.guard_free j ≡ true)
      → select_from_candidates F s now locks cs ≡ some path
      → IsOver s cs path
  unfolding select_from_candidates
  select_from_candidates-IsOver s now locks cs path free h =
      let ps : List (CascadePath F.Carrier) = scored_from F s now locks 0 cs in
      let (qs, e) = first_head (sort_paths F ps) path h in
      let over : All (IsOver s cs) (path ∷ qs) =
        rw e at (All-sort_paths (IsOver s cs) ps (scored_from-IsOver s now locks 0 cs free)) in
      over.0

  IsOver-open :
      (s : CascadeSelector F.Carrier) (cs : List (CandidateUpstream F.Carrier))
      (p : CascadePath F.Carrier)
      → IsOver s cs p
      → would_create_loop s.loop_guard p.upstream_node_id p.tier ≡ false
  IsOver-open s [] p x = elim x [ ]
  IsOver-open s (c ∷ cs) p (inl (allowed, id, tier)) = let (a, u, o) = allowed in rw (id, tier) o
  IsOver-open s (c ∷ cs) p (inr more) = IsOver-open s cs p more

  open-other :
      (s : CascadeSelector F.Carrier) (id : List ℕ) (tier : ℤ)
      → would_create_loop s.loop_guard id tier ≡ false
      → same id s.loop_guard.node_id ≡ false
  unfolding would_create_loop
  open-other s id tier h = ground arith

  -- No path over the agent itself is selected.
  pub select_from_candidates-other :
      (s : CascadeSelector F.Carrier) (now : ℕ) (locks : Locks)
      (cs : List (CandidateUpstream F.Carrier)) (path : CascadePath F.Carrier)
      → ((j : ℕ) → locks.guard_free j ≡ true)
      → select_from_candidates F s now locks cs ≡ some path
      → same path.upstream_node_id s.loop_guard.node_id ≡ false
  select_from_candidates-other s now locks cs path free h =
      open-other s path.upstream_node_id path.tier
        (IsOver-open s cs path (select_from_candidates-IsOver s now locks cs path free h))
