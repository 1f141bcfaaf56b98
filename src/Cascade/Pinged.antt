-- ===== src/Cascade/Pinged.antt =====
-- Rounds of the mesh ping that reach nobody.
use live_cdn.Common.{
  ℕ, ◌-◌, ◌≡◌, refl, ap, sym, ◌∙◌, ◌⊎◌, inl, inr, Bool, true, false, ◌&&◌, ◌||◌, not, some, List,
  [], ◌∷◌, same, arith, ltb, Bool-cases, true_false,
}
use live_cdn.Cascade.{
  Float, CandidateUpstream, MeshMapResponse, CascadePath, CascadeSelector, get_probe,
}
use live_cdn.Cascade.Score.{Locks, is_empty_text}
use live_cdn.Cascade.Switch.{emergency_switch}
use live_cdn.Cascade.Ping.{Probes, probe_of, probe_all, is_unreachable, ping_from, run_mesh_ping}

-- Whether a node is among the candidates that a round probes.
abbrev pub is_probed : {R : Type 0} → List ℕ → List (CandidateUpstream R) → Bool
is_probed id [] = false
is_probed id (c ∷ cs) =
    let rest = is_probed id cs in
    (not (not c.allow_cascade || is_empty_text c.url) && same c.node_id id) || rest

-- The last probe of a node has failed just now.
HasFailed : ℕ → List ℕ → Probes → Type 0
HasFailed now id probes = get_probe probes id ≡ some (probe_of now 9999)

-- One probe more, of a node that is probed.
probed_next :
    {R : Type 0} (now : ℕ) (ping : List ℕ → ℕ) (id : List ℕ) (c : CandidateUpstream R)
    (cs : List (CandidateUpstream R)) (probes : Probes)
    → ping c.url ≡ 9999
    → (not c.allow_cascade || is_empty_text c.url) ≡ false
    → (is_probed id (c ∷ cs) ≡ true) ⊎ HasFailed now id probes
    → (is_probed id cs ≡ true) ⊎ HasFailed now id ((c.node_id, probe_of now (ping c.url)) ∷ probes)
unfolding HasFailed
probed_next now ping id c cs probes fails probed h = elim (Bool-cases (same c.node_id id)) [
  | inl e ↦ inr (rw (e, fails) refl)
  | inr e ↦ elim h [ inl among ↦ inl (simp (probed, e) at among) | inr failed ↦ inr (rw e failed) ]
]

probe_all-HasFailed :
    {R : Type 0} (now : ℕ) (ping : List ℕ → ℕ) (id : List ℕ)
    → ((url : List ℕ) → ping url ≡ 9999)
    → (cs : List (CandidateUpstream R)) (probes : Probes)
    → (is_probed id cs ≡ true) ⊎ HasFailed now id probes
    → HasFailed now id (probe_all now ping cs probes)
unfolding probe_all
probe_all-HasFailed now ping id fails [] probes (inl h) = absurd (true_false (sym h))
probe_all-HasFailed now ping id fails [] probes (inr h) = h
probe_all-HasFailed now ping id fails (c ∷ cs) probes h =
    elim (Bool-cases (not c.allow_cascade || is_empty_text c.url)) [
      | inl skipped ↦
          simp skipped (probe_all-HasFailed now ping id fails cs probes (simp skipped at h))
      | inr probed ↦ simp probed (
          probe_all-HasFailed now ping id fails cs ((c.node_id, probe_of now (ping c.url)) ∷ probes)
            (probed_next now ping id c cs probes (fails c.url) probed h))
    ]

-- When no candidate answers a ping as it should, and the upstream is one of those that are probed, a
-- round of pings does not leave it at that: it switches, whatever the upstream is worth.
pub run_mesh_ping-switches :
    (F : Float) (s : CascadeSelector F.Carrier) (now : ℕ) (locks : Locks) (ping : List ℕ → ℕ)
    (resp : MeshMapResponse F.Carrier) (path : CascadePath F.Carrier)
    → ((url : List ℕ) → ping url ≡ 9999)
    → s.last_mesh_response ≡ some resp
    → s.current_path ≡ some path
    → is_probed path.upstream_node_id resp.candidate_upstreams ≡ true
    → run_mesh_ping F s now locks ping
      ≡ emergency_switch F
          (record s { probe_results = probe_all now ping resp.candidate_upstreams s.probe_results })
          now
          locks
unfolding run_mesh_ping ping_from is_unreachable HasFailed
run_mesh_ping-switches F s now locks ping resp path fails known current among =
    let failed =
      probe_all-HasFailed now ping path.upstream_node_id fails resp.candidate_upstreams
        s.probe_results (inl among) in
    let just_now : ltb (now - now) 30000 ≡ true = ground arith in
    ap (ping_from F s now locks ping) known ∙ simp (current, failed, just_now)
