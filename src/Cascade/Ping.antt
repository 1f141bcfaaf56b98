-- ===== src/Cascade/Ping.antt =====
-- The mesh ping: every candidate is probed, and an upstream that does not answer is left. What a
-- probe of a URL measures (a u32, 9999 where it fails) is an input of the round, and `mesh_ping` of
-- what the network answers.
use live_cdn.Common.{
  ℕ, ◌-◌, Bool, false, ◌&&◌, ◌||◌, not, Option, none, some, List, [], ◌∷◌, ltb, if◌then◌else◌,
  is_success,
}
use live_cdn.Cascade.{
  Float, CandidateUpstream, MeshMapResponse, ProbeResult, CascadeSelector, get_probe,
}
use live_cdn.Cascade.Score.{Locks, is_empty_text, select_from_candidates}
use live_cdn.Cascade.Switch.{emergency_switch, switch_panics}

-- `CascadeSelector::mesh_ping`, with the status of the answer, if there is one, and the milliseconds
-- that it took.
abbrev pub mesh_ping : Option (ℕ × ℕ) → ℕ
mesh_ping none = 9999
mesh_ping (some (status, ms)) = if is_success status then ms else 9999

abbrev pub probe_of : ℕ → ℕ → ProbeResult
probe_of now rtt = record { connect_rtt_ms = rtt; probed_at = now; reachable = ltb rtt 9999 }

abbrev pub Probes : Type 0
Probes = List (List ℕ × ProbeResult)

unfoldable pub probe_all :
    {R : Type 0} → ℕ → (List ℕ → ℕ) → List (CandidateUpstream R) → Probes → Probes
probe_all now ping [] probes = probes
probe_all now ping (c ∷ cs) probes =
    if not c.allow_cascade || is_empty_text c.url
    then probe_all now ping cs probes
    else probe_all now ping cs ((c.node_id, probe_of now (ping c.url)) ∷ probes)

-- Whether a recent probe of the current upstream failed.
unfoldable pub is_unreachable : {R : Type 0} → CascadeSelector R → ℕ → Bool
is_unreachable s now = elim s.current_path [
  | none ↦ false
  | some path ↦ elim (get_probe s.probe_results path.upstream_node_id) [
    | none ↦ false
    | some p ↦ ltb (now - p.probed_at) 30000 && not p.reachable
  ]
]

module _ (F : Float) where
  unfoldable pub ping_from :
      CascadeSelector F.Carrier
      → ℕ
      → Locks
      → (List ℕ → ℕ)
      → Option (MeshMapResponse F.Carrier)
      → CascadeSelector F.Carrier
  ping_from s now locks ping none = s
  ping_from s now locks ping (some resp) =
      let s' = record s {
        probe_results = probe_all now ping resp.candidate_upstreams s.probe_results;
      } in
      if is_unreachable s' now then emergency_switch F s' now locks else s'

  unfoldable pub run_mesh_ping :
      CascadeSelector F.Carrier → ℕ → Locks → (List ℕ → ℕ) → CascadeSelector F.Carrier
  run_mesh_ping s now locks ping = ping_from s now locks ping s.last_mesh_response

  -- Whether the emergency switch that a round leads to panics.
  unfoldable pub ping_panics :
      CascadeSelector F.Carrier
      → ℕ
      → Locks
      → (List ℕ → ℕ)
      → Option (MeshMapResponse F.Carrier)
      → Bool
  ping_panics s now locks ping none = false
  ping_panics s now locks ping (some resp) =
      let s' = record s {
        probe_results = probe_all now ping resp.candidate_upstreams s.probe_results;
      } in
      is_unreachable s' now
      && switch_panics (select_from_candidates F s' now locks resp.candidate_upstreams)
