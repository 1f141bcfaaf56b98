-- ===== src/Cascade/Paths.antt =====
-- The current path over any sequence of the selector's operations, and when an answer of the
-- controller changes it.
use live_cdn.Common.{
  ℕ, ◌≡◌, ◌+◌, refl, sym, ap, ◌∙◌, subst, Bool, true, false, Option, none, some, List, [], ◌∷◌, All,
  arith, leb, Bool-cases, Option-cases, inl, inr, same,
}
use live_cdn.Cascade.{
  Float, MeshMapResponse, MeshPolicy, CascadePath, CascadeSelector, new_selector, new_guard,
}
use live_cdn.Cascade.Score.{Locks, select_from_candidates}
use live_cdn.Cascade.Switch.{
  apply_path_switch, hysteresis_between, check_hysteresis, force_reselect, update_mesh_map,
  report_upstream_ok, emergency_switch, reselect_from, report_upstream_fail, is_forced, depth_of,
}
use live_cdn.Cascade.Ping.{run_mesh_ping, ping_from, is_unreachable, probe_all}
use live_cdn.Cascade.Best.{select_from_candidates-other}

-- The operations that change the selector, with their inputs.
pub data Act (R : Type 0) : Type 0 where
  updates : ℕ → Locks → MeshMapResponse R → Act R
  succeeds : ℕ → Act R
  fails : ℕ → Locks → Act R
  pings : ℕ → Locks → (List ℕ → ℕ) → Act R

-- The act finds the guard's lock free, as it does when no other task is updating the selector.
abbrev pub IsUndisturbed : {R : Type 0} → Act R → Type 0
IsUndisturbed (updates now locks resp) = (j : ℕ) → locks.guard_free j ≡ true
IsUndisturbed (succeeds now) = Unit {0}
IsUndisturbed (fails now locks) = (j : ℕ) → locks.guard_free j ≡ true
IsUndisturbed (pings now locks ping) = (j : ℕ) → locks.guard_free j ≡ true

-- A path is not over the node `id`.
abbrev pub IsNotOver : {R : Type 0} → List ℕ → Option (CascadePath R) → Type 0
IsNotOver id none = Unit {0}
IsNotOver id (some p) = same p.upstream_node_id id ≡ false

module _ (F : Float) where
  unfoldable pub act : CascadeSelector F.Carrier → Act F.Carrier → CascadeSelector F.Carrier
  act s (updates now locks resp) = update_mesh_map F s now locks resp
  act s (succeeds now) = report_upstream_ok F s now
  act s (fails now locks) = report_upstream_fail F s now locks
  act s (pings now locks ping) = run_mesh_ping F s now locks ping

  unfoldable pub act_all :
      CascadeSelector F.Carrier → List (Act F.Carrier) → CascadeSelector F.Carrier
  act_all s [] = s
  act_all s (a ∷ as') = act_all (act s a) as'

  pub record IsLoopFree (s : CascadeSelector F.Carrier) (id : List ℕ) : Type 0 where
    pub guards : s.loop_guard.node_id ≡ id
    pub other : IsNotOver id s.current_path

  selected_other :
      (s : CascadeSelector F.Carrier) (now : ℕ) (locks : Locks) (resp : MeshMapResponse F.Carrier)
      (id : List ℕ)
      → ((j : ℕ) → locks.guard_free j ≡ true)
      → s.loop_guard.node_id ≡ id
      → IsNotOver id (select_from_candidates F s now locks resp.candidate_upstreams)
  selected_other s now locks resp id free g =
      elim (Option-cases (select_from_candidates F s now locks resp.candidate_upstreams)) [
        | inl e ↦ rw e tt
        | inr (p, e) ↦ rw e (
            subst (λ i. same p.upstream_node_id i ≡ false) g
              (select_from_candidates-other F s now locks _ p free e))
      ]

  -- The hysteresis forgets old switches and changes nothing else.
  check_hysteresis-keeps :
      (s : CascadeSelector F.Carrier) (now : ℕ) (policy : Option MeshPolicy)
      (cur new : Option (CascadePath F.Carrier))
      → ((check_hysteresis F s now policy cur new).0.current_path ≡ s.current_path)
        × ((check_hysteresis F s now policy cur new).0.loop_guard ≡ s.loop_guard)
  unfolding check_hysteresis hysteresis_between
  check_hysteresis-keeps s now policy none none = (refl, refl)
  check_hysteresis-keeps s now policy none (some q) = (refl, refl)
  check_hysteresis-keeps s now policy (some p) none = (refl, refl)
  check_hysteresis-keeps s now policy (some p) (some q) = (ground arith, ground arith)

  force_reselect-IsLoopFree :
      (s : CascadeSelector F.Carrier) (now : ℕ) (locks : Locks) (resp : MeshMapResponse F.Carrier)
      (id : List ℕ)
      → ((j : ℕ) → locks.guard_free j ≡ true)
      → s.loop_guard.node_id ≡ id
      → IsLoopFree (force_reselect F s now locks resp) id
  unfolding force_reselect apply_path_switch
  force_reselect-IsLoopFree s now locks resp id free g = record {
    guards = g;
    other = selected_other s now locks resp id free g;
  }

  reselect_from-IsLoopFree :
      (s : CascadeSelector F.Carrier) (now : ℕ) (locks : Locks) (id : List ℕ)
      (resp : Option (MeshMapResponse F.Carrier))
      → ((j : ℕ) → locks.guard_free j ≡ true)
      → s.loop_guard.node_id ≡ id
      → IsLoopFree (reselect_from F s now locks resp) id
  unfolding reselect_from
  reselect_from-IsLoopFree s now locks id none free g = record { guards = g; other = tt }
  reselect_from-IsLoopFree s now locks id (some resp) free g =
      force_reselect-IsLoopFree s now locks resp id free g

  emergency_switch-IsLoopFree :
      (s : CascadeSelector F.Carrier) (now : ℕ) (locks : Locks) (id : List ℕ)
      → ((j : ℕ) → locks.guard_free j ≡ true)
      → s.loop_guard.node_id ≡ id
      → IsLoopFree (emergency_switch F s now locks) id
  unfolding emergency_switch
  emergency_switch-IsLoopFree s now locks id free g =
      let r : IsLoopFree (reselect_from F s now locks s.last_mesh_response) id =
        reselect_from-IsLoopFree s now locks id s.last_mesh_response free g in
      record { guards = r.guards; other = r.other }

  ping_from-IsLoopFree :
      (s : CascadeSelector F.Carrier) (now : ℕ) (locks : Locks) (ping : List ℕ → ℕ) (id : List ℕ)
      (resp : Option (MeshMapResponse F.Carrier))
      → ((j : ℕ) → locks.guard_free j ≡ true)
      → IsLoopFree s id
      → IsLoopFree (ping_from F s now locks ping resp) id
  unfolding ping_from
  ping_from-IsLoopFree s now locks ping id none free h = h
  ping_from-IsLoopFree s now locks ping id (some resp) free h =
      let s' : CascadeSelector F.Carrier = record s {
        probe_results = probe_all now ping resp.candidate_upstreams s.probe_results;
      } in
      elim (Bool-cases (is_unreachable s' now)) [
        | inl dead ↦ rw dead (emergency_switch-IsLoopFree s' now locks id free h.guards)
        | inr alive ↦ rw alive (record { guards = h.guards; other = h.other })
      ]

  update_mesh_map-IsLoopFree :
      (s : CascadeSelector F.Carrier) (now : ℕ) (locks : Locks) (resp : MeshMapResponse F.Carrier)
      (id : List ℕ)
      → ((j : ℕ) → locks.guard_free j ≡ true)
      → IsLoopFree s id
      → IsLoopFree (update_mesh_map F s now locks resp) id
  unfolding update_mesh_map apply_path_switch
  update_mesh_map-IsLoopFree s now locks resp id free h =
      let s1 : CascadeSelector F.Carrier = record s {
        self_tier = resp.self_tier;
        loop_guard = record s.loop_guard { max_depth = depth_of resp.policy resp.self_tier };
      } in
      let new : Option (CascadePath F.Carrier) =
        select_from_candidates F s1 now locks resp.candidate_upstreams in
      let (path, guard) = check_hysteresis-keeps s1 now resp.policy s1.current_path new in
      elim (Bool-cases (is_forced resp.migration_advice)) [
        | inl forced ↦ rw forced (
            let f : IsLoopFree (force_reselect F s1 now locks resp) id =
              force_reselect-IsLoopFree s1 now locks resp id free h.guards in
            record { guards = f.guards; other = f.other })
        | inr calm ↦
            rw calm
              (elim (Bool-cases (check_hysteresis F s1 now resp.policy s1.current_path new).1) [
                | inl go ↦ rw go (record {
                  guards = ap (λ g. g.node_id) guard ∙ h.guards;
                  other = selected_other s1 now locks resp id free h.guards;
                })
                | inr stay ↦ rw stay (record {
                  guards = ap (λ g. g.node_id) guard ∙ h.guards;
                  other = subst (IsNotOver id) (sym path) h.other;
                })
              ])
      ]

  act-IsLoopFree :
      (s : CascadeSelector F.Carrier) (a : Act F.Carrier) (id : List ℕ)
      → IsUndisturbed a
      → IsLoopFree s id
      → IsLoopFree (act s a) id
  unfolding act report_upstream_ok report_upstream_fail run_mesh_ping
  act-IsLoopFree s (updates now locks resp) id free h =
      update_mesh_map-IsLoopFree s now locks resp id free h
  act-IsLoopFree s (succeeds now) id free h = record { guards = h.guards; other = h.other }
  act-IsLoopFree s (fails now locks) id free h =
      elim (Bool-cases (leb 3 (s.upstream_consecutive_fails + 1))) [
        | inl hard ↦ rw hard (emergency_switch-IsLoopFree _ now locks id free h.guards)
        | inr soft ↦ rw soft (record { guards = h.guards; other = h.other })
      ]
  act-IsLoopFree s (pings now locks ping) id free h =
      ping_from-IsLoopFree s now locks ping id s.last_mesh_response free h

  act_all-IsLoopFree :
      (as' : List (Act F.Carrier)) (s : CascadeSelector F.Carrier) (id : List ℕ)
      → All IsUndisturbed as'
      → IsLoopFree s id
      → IsLoopFree (act_all s as') id
  unfolding act_all
  act_all-IsLoopFree [] s id free h = h
  act_all-IsLoopFree (a ∷ as') s id free h =
      act_all-IsLoopFree as' (act s a) id free.1 (act-IsLoopFree s a id free.0 h)

  -- Whatever the controller answers, whatever fails and whatever the pings measure: an agent that
  -- finds the lock of its guard free each time never has itself as its upstream.
  pub act_all-other :
      (id region isp : List ℕ) (ipv6 : Bool) (as' : List (Act F.Carrier))
      → All IsUndisturbed as'
      → IsNotOver id (act_all (new_selector F.Carrier id region isp ipv6) as').current_path
  unfolding new_selector new_guard
  act_all-other id region isp ipv6 as' free =
      (act_all-IsLoopFree as' (new_selector F.Carrier id region isp ipv6) id free
        (record { guards = refl; other = tt })).other
