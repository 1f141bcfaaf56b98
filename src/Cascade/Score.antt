-- ===== src/Cascade/Score.antt =====
-- The choice among the candidates: the local score, its correction by the measured round trip, and
-- the best path. `try_read` of a lock may fail, which is an input for each candidate.
use live_cdn.Common.{
  ℕ, ◌-◌, Bool, true, false, ◌&&◌, ◌||◌, not, Option, none, some, List, [], ◌∷◌, suc, ltb,
  if◌then◌else◌, same,
}
use live_cdn.Cascade.{
  ℤ, pos, leℤ, Float, CandidateUpstream, CascadePath, Reason, same_region_and_isp, same_region,
  other_region, would_create_loop, get_probe, CascadeSelector,
}

pub record Locks : Type 0 where
  pub guard_free : ℕ → Bool
  pub probes_free : ℕ → Bool

abbrev pub is_tier1 : ℤ → Bool
is_tier1 t = leℤ (pos 1) t && leℤ t (pos 1)

abbrev pub is_empty_text : List ℕ → Bool
is_empty_text [] = true
is_empty_text (x ∷ xs) = false

-- `get_probe_rtt_sync`: results older than a minute are ignored.
unfoldable pub get_probe_rtt_sync : {R : Type 0} → CascadeSelector R → ℕ → Bool → List ℕ → Option ℕ
get_probe_rtt_sync s now free node_id =
    if not free then none else elim (get_probe s.probe_results node_id) [
      | none ↦ none
      | some p ↦ if ltb (now - p.probed_at) 60000 then some p.connect_rtt_ms else none
    ]

-- Instead of strings that are appended to: the reason, with the flag for IPv6.
abbrev pub reason_for : {R : Type 0} → CascadeSelector R → CandidateUpstream R → Bool → Reason
reason_for s c ipv6 =
    if same c.region s.region && same c.isp s.isp
    then same_region_and_isp ipv6
    else if same c.region s.region
    then same_region ipv6
    else other_region ipv6

module _ (F : Float) where
  unfoldable pub compute_local_score :
      CascadeSelector F.Carrier → CandidateUpstream F.Carrier → F.Carrier
  compute_local_score s c =
      let one = F.literal 10 1 in
      let avail = F.sub one (F.div (F.from_i32 c.current_children) (F.from_i32 c.max_children)) in
      let s1 =
        if leℤ c.max_children (pos 0)
        then one
        else F.mul one (F.add (F.literal 5 1) (F.mul (F.literal 5 1) avail)) in
      let s2 =
        if F.less c.bw_remaining_mbps (F.literal 40 1) then F.mul s1 (F.literal 7 1) else s1 in
      let s3 = if is_tier1 c.tier then F.mul s2 (F.literal 11 1) else s2 in
      let s4 =
        if same c.region s.region && same c.isp s.isp
        then F.mul s3 (F.literal 115 2)
        else if same c.region s.region
        then F.mul s3 (F.literal 105 2)
        else s3 in
      if s.has_ipv6 && c.has_ipv6 then F.mul s4 (F.literal 105 2) else s4

  pub with_rtt : F.Carrier → Option ℕ → F.Carrier
  with_rtt x none = x
  with_rtt x (some rtt) =
      if ltb rtt 10
      then F.mul x (F.literal 12 1)
      else if ltb rtt 50
      then F.mul x (F.literal 11 1)
      else if ltb 200 rtt
      then F.mul x (F.literal 7 1)
      else if ltb 100 rtt
      then F.mul x (F.literal 85 2)
      else x

  -- The path over a candidate that is not passed over.
  unfoldable pub path_over :
      CascadeSelector F.Carrier → ℕ → Option ℕ → CandidateUpstream F.Carrier → CascadePath F.Carrier
  unfolding compute_local_score with_rtt
  path_over s now rtt c =
      let local_score = with_rtt (compute_local_score s c) rtt in
      let weighed =
        F.add (F.mul c.score_hint (F.literal 7 1))
          (F.mul (F.mul local_score (F.literal 1000 1)) (F.literal 3 1)) in
      let ipv6 = s.has_ipv6 && not (is_empty_text c.ipv6_url) in
      record {
        upstream_url = if ipv6 then c.ipv6_url else c.url;
        upstream_node_id = c.node_id;
        score = F.div weighed (F.literal 1000 1);
        tier = c.tier;
        reason = reason_for s c ipv6;
        selected_at = now;
      }

  -- The three `continue`s of the loop. The guard is only asked if its lock is free.
  unfoldable pub passed_over : CascadeSelector F.Carrier → Bool → CandidateUpstream F.Carrier → Bool
  passed_over s free c =
      not c.allow_cascade
      || (is_empty_text c.url || (free && would_create_loop s.loop_guard c.node_id c.tier))

  -- The loop over the candidates, from the `i`-th on.
  unfoldable pub scored_from :
      CascadeSelector F.Carrier
      → ℕ
      → Locks
      → ℕ
      → List (CandidateUpstream F.Carrier)
      → List (CascadePath F.Carrier)
  scored_from s now locks i [] = []
  scored_from s now locks i (c ∷ cs) =
      let rest = scored_from s now locks (suc i) cs in
      let rtt = get_probe_rtt_sync s now (locks.probes_free i) c.node_id in
      if passed_over s (locks.guard_free i) c then rest else path_over s now rtt c ∷ rest

  -- `sort_by` is stable: an element stands before those that are not greater than it.
  unfoldable pub insert_path :
      CascadePath F.Carrier → List (CascadePath F.Carrier) → List (CascadePath F.Carrier)
  insert_path p [] = p ∷ []
  insert_path p (q ∷ qs) =
      let rest = insert_path p qs in if F.less p.score q.score then q ∷ rest else p ∷ q ∷ qs

  unfoldable pub sort_paths : List (CascadePath F.Carrier) → List (CascadePath F.Carrier)
  sort_paths [] = []
  sort_paths (p ∷ ps) = insert_path p (sort_paths ps)

  -- `scored.into_iter().next()`
  abbrev pub first : List (CascadePath F.Carrier) → Option (CascadePath F.Carrier)
  first [] = none
  first (best ∷ others) = some best

  unfoldable pub select_from_candidates :
      CascadeSelector F.Carrier
      → ℕ
      → Locks
      → List (CandidateUpstream F.Carrier)
      → Option (CascadePath F.Carrier)
  select_from_candidates s now locks candidates =
      first (sort_paths (scored_from s now locks 0 candidates))
