-- ===== src/Cascade/Switch.antt =====
-- When the path is changed: the answer of the controller, the hysteresis, and the switch after
-- repeated failures.
use live_cdn.Common.{
  cuts_char, ◌||◌, ℕ, ◌+◌, ◌-◌, ◌*◌, Bool, true, false, ◌&&◌, Option, none, some, List, [], ◌∷◌,
  ◌++◌, ltb, leb, if◌then◌else◌, length, keep, same,
}
use live_cdn.Cascade.{
  ℤ, as_u64, Float, MeshPolicy, MigrationAdvice, MeshMapResponse, CascadePath, CascadeSelector,
}
use live_cdn.Cascade.Score.{Locks, select_from_candidates}

-- "upstream_offline"
abbrev pub upstream_offline : List ℕ
upstream_offline =
    117 ∷ 112 ∷ 115 ∷ 116 ∷ 114 ∷ 101 ∷ 97 ∷ 109 ∷ 95 ∷ 111 ∷ 102 ∷ 102 ∷ 108 ∷ 105 ∷ 110 ∷ 101 ∷ []

abbrev pub cooldown_of : Option MeshPolicy → ℕ
cooldown_of none = 30
cooldown_of (some p) = as_u64 p.switch_cooldown_sec

abbrev pub max_switch_of : Option MeshPolicy → ℕ
max_switch_of none = 3
max_switch_of (some p) = as_u64 p.max_switch_per_5min

abbrev pub cooling : ℕ → Option ℕ → ℕ → Bool
cooling now none sec = false
cooling now (some last) sec = ltb (now - last) (sec * 1000)

-- The switches of the last five minutes: `retain(|t| *t > cutoff)`.
abbrev pub recent : ℕ → List ℕ → List ℕ
recent now times = keep (λ t. ltb now (t + 300000)) times

-- Whether the advice asks for a switch at once.
abbrev pub is_forced : Option MigrationAdvice → Bool
is_forced none = false
is_forced (some a) = a.should_switch && same a.reason upstream_offline

abbrev pub depth_of : Option MeshPolicy → ℤ → ℤ
depth_of none tier = tier
depth_of (some p) tier = p.max_depth

-- A switch logs the first 8 bytes of the new upstream's name: a cut within a character panics, which
-- ends the whole agent.
abbrev pub switch_panics : {R : Type 0} → Option (CascadePath R) → Bool
switch_panics none = false
switch_panics (some path) = cuts_char 8 path.upstream_node_id

module _ {R : Type 0} where
  unfoldable pub apply_path_switch :
      CascadeSelector R → ℕ → Option (CascadePath R) → CascadeSelector R
  apply_path_switch s now new_path = record s {
    current_path = new_path;
    last_switch_at = some now;
    switch_count_5min = s.switch_count_5min ++ now ∷ [];
  }

module _ (F : Float) where
  abbrev pub min_improvement_of : Option MeshPolicy → F.Carrier
  min_improvement_of none = F.literal 15 2
  min_improvement_of (some p) = F.div (F.from_i32 p.min_score_improvement) (F.literal 1000 1)

  abbrev pub improvement : CascadePath F.Carrier → CascadePath F.Carrier → F.Carrier
  improvement cur new = F.div (F.sub new.score cur.score) (F.maximum cur.score (F.literal 1 2))

  -- The last arm of the match: both paths are over upstreams. Old switches are forgotten here.
  unfoldable pub hysteresis_between :
      CascadeSelector F.Carrier
      → ℕ
      → Option MeshPolicy
      → CascadePath F.Carrier
      → CascadePath F.Carrier
      → CascadeSelector F.Carrier × Bool
  hysteresis_between s now policy cur new =
      let times = recent now s.switch_count_5min in
      let s' = record s { switch_count_5min = times } in
      if same cur.upstream_node_id new.upstream_node_id
      then (s, false)
      else if cooling now s.last_switch_at (cooldown_of policy)
      then (s, false)
      else if leb (max_switch_of policy) (length times)
      then (s', false)
      else if F.less (improvement cur new) (min_improvement_of policy)
      then (s', false)
      else (s', true)

  unfoldable pub check_hysteresis :
      CascadeSelector F.Carrier
      → ℕ
      → Option MeshPolicy
      → Option (CascadePath F.Carrier)
      → Option (CascadePath F.Carrier)
      → CascadeSelector F.Carrier × Bool
  check_hysteresis s now policy none none = (s, false)
  check_hysteresis s now policy none (some new) = (s, true)
  check_hysteresis s now policy (some cur) none = (s, true)
  check_hysteresis s now policy (some cur) (some new) = hysteresis_between s now policy cur new

  unfoldable pub force_reselect :
      CascadeSelector F.Carrier → ℕ → Locks → MeshMapResponse F.Carrier → CascadeSelector F.Carrier
  force_reselect s now locks resp =
      apply_path_switch s now (select_from_candidates F s now locks resp.candidate_upstreams)

  unfoldable pub update_mesh_map :
      CascadeSelector F.Carrier → ℕ → Locks → MeshMapResponse F.Carrier → CascadeSelector F.Carrier
  update_mesh_map s now locks resp =
      let s1 = record s {
        self_tier = resp.self_tier;
        loop_guard = record s.loop_guard { max_depth = depth_of resp.policy resp.self_tier };
      } in
      let forced = record (force_reselect s1 now locks resp) { last_mesh_response = some resp } in
      let new_path = select_from_candidates F s1 now locks resp.candidate_upstreams in
      let (s2, should_switch) = check_hysteresis s1 now resp.policy s1.current_path new_path in
      let s3 = if should_switch then apply_path_switch s2 now new_path else s2 in
      if is_forced resp.migration_advice
      then forced
      else record s3 { last_mesh_response = some resp }

  -- Whether the switch that an answer leads to panics.
  unfoldable pub update_panics :
      CascadeSelector F.Carrier → ℕ → Locks → MeshMapResponse F.Carrier → Bool
  update_panics s now locks resp =
      let s1 = record s {
        self_tier = resp.self_tier;
        loop_guard = record s.loop_guard { max_depth = depth_of resp.policy resp.self_tier };
      } in
      let new_path = select_from_candidates F s1 now locks resp.candidate_upstreams in
      let (s2, should_switch) = check_hysteresis s1 now resp.policy s1.current_path new_path in
      (is_forced resp.migration_advice || should_switch) && switch_panics new_path

  unfoldable pub report_upstream_ok : CascadeSelector F.Carrier → ℕ → CascadeSelector F.Carrier
  report_upstream_ok s now = record s {
    upstream_consecutive_fails = 0;
    upstream_last_ok_at = some now;
  }

  -- Without an answer of the controller there is only the origin.
  unfoldable pub reselect_from :
      CascadeSelector F.Carrier
      → ℕ
      → Locks
      → Option (MeshMapResponse F.Carrier)
      → CascadeSelector F.Carrier
  reselect_from s now locks none = record s { current_path = none }
  reselect_from s now locks (some resp) = force_reselect s now locks resp

  unfoldable pub emergency_switch :
      CascadeSelector F.Carrier → ℕ → Locks → CascadeSelector F.Carrier
  emergency_switch s now locks = record (reselect_from s now locks s.last_mesh_response) {
    upstream_consecutive_fails = 0;
  }

  unfoldable pub report_upstream_fail :
      CascadeSelector F.Carrier → ℕ → Locks → CascadeSelector F.Carrier
  report_upstream_fail s now locks =
      let fails = s.upstream_consecutive_fails + 1 in
      let s' = record s { upstream_consecutive_fails = fails } in
      if leb 3 fails then emergency_switch s' now locks else s'
