-- ===== src/Cascade/Hysteresis.antt =====
-- What an answer of the controller takes to move the agent from one upstream to another.
use live_cdn.Common.{
  ℕ, ◌≡◌, ◌<◌, refl, sym, ap, ◌∙◌, subst, true, false, Option, none, some, List, [], ◌∷◌, ◌++◌,
  arith, leb, length, if◌then◌else◌, Bool-cases, inl, inr, same,
}
use mathlib.Core.Bool.{false≢true}
use live_cdn.Cascade.{Float, MeshMapResponse, MeshPolicy, CascadePath, CascadeSelector}
use live_cdn.Cascade.Score.{Locks, select_from_candidates}
use live_cdn.Cascade.Switch.{
  apply_path_switch, hysteresis_between, check_hysteresis, update_mesh_map, is_forced, cooling,
  cooldown_of, max_switch_of, recent, improvement, min_improvement_of, depth_of,
}

same_refl : (xs : List ℕ) → same xs xs ≡ true
same_refl [] = refl
same_refl (x ∷ xs) = ground (arith, same_refl xs)

leb→lt : (a b : ℕ) → leb a b ≡ false → b < a
leb→lt a b h = ground arith

module _ (F : Float) where
  -- The switch of the agent from the upstream of `cur` to that of `new` at `now` was due.
  pub record IsDue (s : CascadeSelector F.Carrier) (now : ℕ) (policy : Option MeshPolicy)
      (cur new : CascadePath F.Carrier) : Type 0 where
    pub cool : cooling now s.last_switch_at (cooldown_of policy) ≡ false
    pub few : length (recent now s.switch_count_5min) < max_switch_of policy
    pub better : F.less (improvement F cur new) (min_improvement_of F policy) ≡ false

  -- The hysteresis between two upstreams, with the switch that follows.
  settled :
      CascadeSelector F.Carrier
      → ℕ
      → Option MeshPolicy
      → CascadePath F.Carrier
      → Option (CascadePath F.Carrier)
      → CascadeSelector F.Carrier
  settled s now policy cur new =
      let (s2, should_switch) = check_hysteresis F s now policy (some cur) new in
      if should_switch then apply_path_switch s2 now new else s2

  hysteresis_between-IsDue :
      (s : CascadeSelector F.Carrier) (now : ℕ) (policy : Option MeshPolicy)
      (cur new : CascadePath F.Carrier)
      → (hysteresis_between F s now policy cur new).1 ≡ true
      → IsDue s now policy cur new
        × ((hysteresis_between F s now policy cur new).0
            ≡ record s { switch_count_5min = recent now s.switch_count_5min })
  unfolding hysteresis_between
  hysteresis_between-IsDue s now policy cur new =
      elim (Bool-cases (same cur.upstream_node_id new.upstream_node_id)) [
        | inl e ↦ rw e (λ h. absurd cc)
        | inr e ↦ rw e (elim (Bool-cases (cooling now s.last_switch_at (cooldown_of policy))) [
          | inl c ↦ rw c (λ h. absurd cc)
          | inr c ↦
              rw c
                (elim (Bool-cases
                  (leb (max_switch_of policy) (length (recent now s.switch_count_5min)))) [
                    | inl m ↦ rw m (λ h. absurd cc)
                    | inr m ↦
                        rw m
                          (elim (Bool-cases
                            (F.less (improvement F cur new) (min_improvement_of F policy))) [
                              | inl l ↦ rw l (λ h. absurd cc)
                              | inr l ↦
                                  rw l (λ h.
                                    (record { cool = c; few = leb→lt _ _ m; better = l }, refl))
                            ])
                  ])
        ])
      ]

  hysteresis_between-path :
      (s : CascadeSelector F.Carrier) (now : ℕ) (policy : Option MeshPolicy)
      (cur new : CascadePath F.Carrier)
      → (hysteresis_between F s now policy cur new).0.current_path ≡ s.current_path
  unfolding hysteresis_between
  hysteresis_between-path s now policy cur new = ground arith

  some-path :
      {p q : CascadePath F.Carrier}
      → ◌≡◌ {A = Option (CascadePath F.Carrier)} (some p) (some q)
      → p ≡ q
  some-path e = cc

  stays-other :
      (p q : CascadePath F.Carrier) → p ≡ q → same p.upstream_node_id q.upstream_node_id ≡ false → ⊥
  stays-other p q e h = false≢true (
      sym (
        subst (λ (r : CascadePath F.Carrier). same p.upstream_node_id r.upstream_node_id ≡ false)
          (sym e) h)
      ∙ same_refl p.upstream_node_id)

  settled-IsDue :
      (s : CascadeSelector F.Carrier) (now : ℕ) (policy : Option MeshPolicy)
      (cur next : CascadePath F.Carrier) (new : Option (CascadePath F.Carrier))
      → s.current_path ≡ some cur
      → (settled s now policy cur new).current_path ≡ some next
      → same cur.upstream_node_id next.upstream_node_id ≡ false
      → IsDue s now policy cur next
        × ((settled s now policy cur new).last_switch_at ≡ some now)
        × ((settled s now policy cur new).switch_count_5min
            ≡ recent now s.switch_count_5min ++ now ∷ [])
  unfolding settled check_hysteresis apply_path_switch
  settled-IsDue s now policy cur next none e = λ h other. absurd cc
  settled-IsDue s now policy cur next (some new) e =
      elim (Bool-cases (hysteresis_between F s now policy cur new).1) [
        | inl go ↦
            let (due, rest) = hysteresis_between-IsDue s now policy cur new go in
            rw go (λ h other. (
              subst (IsDue s now policy cur) (some-path h) due,
              refl,
              ap (λ (t : CascadeSelector F.Carrier). t.switch_count_5min ++ now ∷ []) rest,
            ))
        | inr stay ↦ rw stay (λ h other. absurd (
            stays-other cur next
              (some-path (sym (hysteresis_between-path s now policy cur new ∙ e) ∙ h)) other))
      ]

  -- The state with the tier and the depth of an answer.
  abbrev pub with_tier :
      CascadeSelector F.Carrier → MeshMapResponse F.Carrier → CascadeSelector F.Carrier
  with_tier s resp = record s {
    self_tier = resp.self_tier;
    loop_guard = record s.loop_guard { max_depth = depth_of resp.policy resp.self_tier };
  }

  update_mesh_map-settled :
      (s : CascadeSelector F.Carrier) (now : ℕ) (locks : Locks) (resp : MeshMapResponse F.Carrier)
      (cur : CascadePath F.Carrier)
      → is_forced resp.migration_advice ≡ false
      → s.current_path ≡ some cur
      → update_mesh_map F s now locks resp
        ≡ record (settled
            (with_tier s resp)
            now
            resp.policy
            cur
            (select_from_candidates F (with_tier s resp) now locks resp.candidate_upstreams)) {
              last_mesh_response = some resp;
            }
  unfolding update_mesh_map settled
  update_mesh_map-settled s now locks resp cur calm e =
      let s1 : CascadeSelector F.Carrier = with_tier s resp in
      let new : Option (CascadePath F.Carrier) =
        select_from_candidates F s1 now locks resp.candidate_upstreams in
      rw calm (
        ap
          (λ (c : Option (CascadePath F.Carrier)).
            record (let (s2, should_switch) = check_hysteresis F s1 now resp.policy c new in
              if should_switch then apply_path_switch s2 now new else s2) {
                last_mesh_response = some resp;
              })
          e)

  -- If an answer that does not say that the upstream is offline moves the agent from one upstream to
  -- another, then the cooldown of the last switch is over, the last five minutes have seen fewer
  -- switches than the policy allows, and the score is better by what the policy asks. The switch is
  -- then on record.
  pub update_mesh_map-IsDue :
      (s : CascadeSelector F.Carrier) (now : ℕ) (locks : Locks) (resp : MeshMapResponse F.Carrier)
      (cur next : CascadePath F.Carrier)
      → is_forced resp.migration_advice ≡ false
      → s.current_path ≡ some cur
      → (update_mesh_map F s now locks resp).current_path ≡ some next
      → same cur.upstream_node_id next.upstream_node_id ≡ false
      → IsDue s now resp.policy cur next
        × ((update_mesh_map F s now locks resp).last_switch_at ≡ some now)
        × ((update_mesh_map F s now locks resp).switch_count_5min
            ≡ recent now s.switch_count_5min ++ now ∷ [])
  update_mesh_map-IsDue s now locks resp cur next calm e h other =
      let s1 : CascadeSelector F.Carrier = with_tier s resp in
      let new : Option (CascadePath F.Carrier) =
        select_from_candidates F s1 now locks resp.candidate_upstreams in
      let eq : update_mesh_map F s now locks resp
          ≡ record (settled s1 now resp.policy cur new) { last_mesh_response = some resp } =
        update_mesh_map-settled s now locks resp cur calm e in
      let (due, last, times) =
        settled-IsDue s1 now resp.policy cur next new e
          (sym (ap (λ (t : CascadeSelector F.Carrier). t.current_path) eq) ∙ h) other in
      (
        record { cool = due.cool; few = due.few; better = due.better },
        ap (λ (t : CascadeSelector F.Carrier). t.last_switch_at) eq ∙ last,
        ap (λ (t : CascadeSelector F.Carrier). t.switch_count_5min) eq ∙ times,
      )
