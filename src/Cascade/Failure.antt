-- ===== src/Cascade/Failure.antt =====
-- The switch after failures: what it chooses from, and that it may choose the upstream that failed.
use live_cdn.Common.{
  ℕ, ◌≡◌, ◌+◌, refl, sym, ap, ◌∙◌, subst, true, false, Option, none, some, List, [], ◌∷◌, ◌++◌, leb,
  suc, Bool-cases, inl, inr,
}
use live_cdn.Cascade.{Float, CandidateUpstream, MeshMapResponse, CascadePath, CascadeSelector}
use live_cdn.Cascade.Score.{
  Locks, compute_local_score, select_from_candidates, scored_from, passed_over, path_over,
  get_probe_rtt_sync, first, sort_paths,
}
use live_cdn.Cascade.Switch.{
  apply_path_switch, force_reselect, reselect_from, emergency_switch, report_upstream_fail,
}

abbrev pub upstream_of : {R : Type 0} → Option (CascadePath R) → Option (List ℕ)
upstream_of none = none
upstream_of (some p) = some p.upstream_node_id

-- The fields that failures and switches change.
abbrev moved :
    {R : Type 0}
    → CascadeSelector R
    → Option (CascadePath R)
    → Option ℕ
    → List ℕ
    → ℕ
    → CascadeSelector R
moved s path last times fails = record s {
  current_path = path;
  last_switch_at = last;
  switch_count_5min = times;
  upstream_consecutive_fails = fails;
}

module _ (F : Float) where
  -- Failures that are reported one after the other, at their times.
  unfoldable pub report_fails :
      CascadeSelector F.Carrier → List (ℕ × Locks) → CascadeSelector F.Carrier
  report_fails s [] = s
  report_fails s ((now, locks) ∷ more) = report_fails (report_upstream_fail F s now locks) more

  module _ (s : CascadeSelector F.Carrier) (path : Option (CascadePath F.Carrier)) (last : Option ℕ)
      (times : List ℕ) (fails now : ℕ) (locks : Locks) where
    -- The selection does not look at what failures change.
    scored_from-moved :
        (i : ℕ) (cs : List (CandidateUpstream F.Carrier))
        → scored_from F (moved s path last times fails) now locks i cs
          ≡ scored_from F s now locks i cs
    unfolding scored_from passed_over path_over get_probe_rtt_sync compute_local_score
    scored_from-moved i [] = refl
    scored_from-moved i (c ∷ cs) = rw (scored_from-moved (suc i) cs) refl

    select_from_candidates-moved :
        (cs : List (CandidateUpstream F.Carrier))
        → select_from_candidates F (moved s path last times fails) now locks cs
          ≡ select_from_candidates F s now locks cs
    unfolding select_from_candidates
    select_from_candidates-moved cs =
        ap (λ (ps : List (CascadePath F.Carrier)). first F (sort_paths F ps))
          (scored_from-moved 0 cs)

  module _ (s₀ : CascadeSelector F.Carrier) (resp : MeshMapResponse F.Carrier)
      (upstream : List ℕ) where
    -- The state after an answer of the controller.
    abbrev pub answered : CascadeSelector F.Carrier
    answered = record s₀ { last_mesh_response = some resp }

    -- At any time the selection prefers the upstream.
    abbrev pub Preferred : Type 0
    Preferred =
        (now : ℕ) (locks : Locks)
        → upstream_of (select_from_candidates F answered now locks resp.candidate_upstreams)
          ≡ some upstream

    module _ (path : Option (CascadePath F.Carrier)) (last : Option ℕ) (times : List ℕ)
        (fails now : ℕ) (locks : Locks) where
      chosen : Option (CascadePath F.Carrier)
      chosen =
          select_from_candidates F (moved answered path last times (fails + 1)) now locks
            resp.candidate_upstreams

      third_fail :
          leb 3 (fails + 1) ≡ true
          → report_upstream_fail F (moved answered path last times fails) now locks
            ≡ moved answered chosen (some now) (times ++ now ∷ []) 0
      unfolding chosen report_upstream_fail emergency_switch reselect_from force_reselect
          apply_path_switch
      third_fail h = rw h refl

      early_fail :
          leb 3 (fails + 1) ≡ false
          → report_upstream_fail F (moved answered path last times fails) now locks
            ≡ moved answered path last times (fails + 1)
      unfolding report_upstream_fail
      early_fail h = rw h refl

    abbrev Stays : List (ℕ × Locks) → CascadeSelector F.Carrier → Type 0
    Stays events t = upstream_of (report_fails t events).current_path ≡ some upstream

    report_fails-moved :
        (events : List (ℕ × Locks)) (path : Option (CascadePath F.Carrier)) (last : Option ℕ)
        (times : List ℕ) (fails : ℕ)
        → Preferred
        → upstream_of path ≡ some upstream
        → Stays events (moved answered path last times fails)
    unfolding report_fails chosen
    report_fails-moved [] path last times fails pref e = e
    report_fails-moved ((now, locks) ∷ more) path last times fails pref e =
        elim (Bool-cases (leb 3 (fails + 1))) [
          | inl hard ↦ subst (Stays more) (sym (third_fail path last times fails now locks hard)) (
              report_fails-moved more _ (some now) (times ++ now ∷ []) 0 pref (
                ap upstream_of (
                  select_from_candidates-moved answered path last times (fails + 1) now locks
                    resp.candidate_upstreams)
                ∙ pref now locks))
          | inr soft ↦
              subst (Stays more) (sym (early_fail path last times fails now locks soft))
                (report_fails-moved more path last times (fails + 1) pref e)
        ]

    -- The upstream that fails is not taken out of the choice: as long as the selection prefers it
    -- among the candidates of the last answer, no number of reported failures moves the agent off it.
    pub report_fails-stays :
        (events : List (ℕ × Locks))
        → Preferred
        → upstream_of s₀.current_path ≡ some upstream
        → upstream_of (report_fails answered events).current_path ≡ some upstream
    report_fails-stays events pref e =
        report_fails-moved events s₀.current_path s₀.last_switch_at s₀.switch_count_5min
          s₀.upstream_consecutive_fails pref e
