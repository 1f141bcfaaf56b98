-- ===== src/Cascade/Tests.antt =====
-- The selector of one agent, with scores in thousandths for the floating-point numbers.
use live_cdn.Common.{
  ℕ, ◌≡◌, refl, false, none, some, List, [], ◌∷◌, ◌++◌, arith, Bool-cases, inl, inr,
}
use live_cdn.Cascade.{
  pos, CascadePath, CascadeSelector, new_selector, same_region, new_guard, would_create_loop,
}
use live_cdn.Cascade.Toy.{thousandths, candidate, response, only_five, agent, free, chosen}
use live_cdn.Cascade.Score.{
  Locks, path_over, select_from_candidates, scored_from, passed_over, insert_path, sort_paths,
  get_probe_rtt_sync, compute_local_score,
}
use live_cdn.Cascade.Switch.{
  update_mesh_map, check_hysteresis, hysteresis_between, apply_path_switch, recent,
}
use live_cdn.Cascade.Best.{IsWeakOrder, IsOver, AtMost, select_from_candidates-best}
use live_cdn.Cascade.Paths.{updates, fails, pings, act_all, IsNotOver, act_all-other}
use live_cdn.Cascade.Failure.{upstream_of, answered, Preferred, report_fails, report_fails-stays}
use live_cdn.Cascade.Hysteresis.{IsDue, with_tier, update_mesh_map-IsDue}

thousandths-IsWeakOrder : IsWeakOrder thousandths
thousandths-IsWeakOrder = record {
  irreflexive = λ x. ground arith;
  not_less_trans = λ x y z h k. ground arith;
  asymmetric = λ x y h. ground arith;
}

chosen-selected :
    select_from_candidates thousandths agent 100 free response.candidate_upstreams ≡ some chosen
unfolding select_from_candidates scored_from passed_over insert_path sort_paths get_probe_rtt_sync
    would_create_loop new_selector new_guard
chosen-selected = refl

select_from_candidates-best_example :
    IsOver thousandths agent response.candidate_upstreams chosen
    × AtMost thousandths chosen.score
        (scored_from thousandths agent 100 free 0 response.candidate_upstreams)
select_from_candidates-best_example =
    select_from_candidates-best thousandths agent 100 free response.candidate_upstreams chosen
      thousandths-IsWeakOrder (λ j. refl) chosen-selected

act_all-other_example :
    IsNotOver
      (9 ∷ [])
      (act_all thousandths (new_selector ℕ (9 ∷ []) (1 ∷ []) (3 ∷ []) false) (
        updates 100 free response
        ∷ fails 200 free
        ∷ pings 300 free (λ url. 9999)
        ∷ [])).current_path
act_all-other_example =
    act_all-other thousandths (9 ∷ []) (1 ∷ []) (3 ∷ []) false
      (updates 100 free response ∷ fails 200 free ∷ pings 300 free (λ url. 9999) ∷ [])
      ((λ j. refl), ((λ j. refl), ((λ j. refl), tt)))

-- A slow upstream, node 7, which the agent has had for a minute.
abbrev slow : CascadePath ℕ
slow = record {
  upstream_url = 47 ∷ [];
  upstream_node_id = 7 ∷ [];
  score = 100;
  tier = pos 1;
  reason = same_region false;
  selected_at = 0;
}

abbrev on_slow : CascadeSelector ℕ
on_slow = record agent {
  current_path = some slow;
  last_switch_at = some 0;
  switch_count_5min = 0 ∷ [];
}

abbrev better : CascadePath ℕ
better =
    path_over thousandths (with_tier thousandths on_slow response) 60000 none (candidate 5 80000)

better-taken : (update_mesh_map thousandths on_slow 60000 free response).current_path ≡ some better
unfolding update_mesh_map check_hysteresis hysteresis_between apply_path_switch
    select_from_candidates scored_from passed_over insert_path sort_paths get_probe_rtt_sync
    would_create_loop new_selector new_guard path_over compute_local_score
better-taken = refl

update_mesh_map-IsDue_example :
    IsDue thousandths on_slow 60000 none slow better
    × ((update_mesh_map thousandths on_slow 60000 free response).last_switch_at ≡ some 60000)
    × ((update_mesh_map thousandths on_slow 60000 free response).switch_count_5min
        ≡ recent 60000 (0 ∷ []) ++ 60000 ∷ [])
unfolding path_over
update_mesh_map-IsDue_example =
    update_mesh_map-IsDue thousandths on_slow 60000 free response slow better refl refl better-taken
      refl

abbrev on_five : CascadeSelector ℕ
on_five = record agent { current_path = some chosen }

five-Preferred : Preferred thousandths on_five only_five (5 ∷ [])
unfolding select_from_candidates scored_from passed_over insert_path sort_paths would_create_loop
    new_selector new_guard path_over
five-Preferred now locks = elim (Bool-cases (locks.guard_free 0)) [
  | inl e ↦ rw e refl
  | inr e ↦ rw e refl
]

abbrev four_failures : List (ℕ × Locks)
four_failures = (1, free) ∷ (2, free) ∷ (3, free) ∷ (4, free) ∷ []

five-current : upstream_of on_five.current_path ≡ some (5 ∷ [])
unfolding path_over
five-current = refl

report_fails-stays_example :
    upstream_of
      (report_fails thousandths
        (answered thousandths on_five only_five (5 ∷ []))
        four_failures).current_path
    ≡ some (5 ∷ [])
report_fails-stays_example =
    report_fails-stays thousandths on_five only_five (5 ∷ []) four_failures five-Preferred
      five-current
