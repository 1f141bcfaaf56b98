-- ===== src/Cascade/Toy.antt =====
-- One agent with two candidates, and scores in thousandths for the floating-point numbers, at which
-- the theorems are tried.
use live_cdn.Common.{ℕ, ◌+◌, ◌-◌, ◌*◌, ◌/◌, ◌^◌, max, true, false, none, [], ◌∷◌, ltb}
use live_cdn.Cascade.{
  ℤ, pos, negsuc, Float, CandidateUpstream, MeshMapResponse, CascadePath, CascadeSelector,
  new_selector,
}
use live_cdn.Cascade.Score.{Locks, path_over}

abbrev pub from_int : ℤ → ℕ
from_int (pos n) = n * 1000
from_int (negsuc n) = 0

abbrev pub thousandths : Float
thousandths = record {
  Carrier = ℕ;
  literal = λ m e. m * 1000 / 10 ^ e;
  from_i32 = from_int;
  add = λ x y. x + y;
  sub = λ x y. x - y;
  mul = λ x y. x * y / 1000;
  div = λ x y. x * 1000 / y;
  maximum = λ x y. max x y;
  less = λ x y. ltb x y;
}

abbrev pub candidate : ℕ → ℕ → CandidateUpstream ℕ
candidate id hint = record {
  node_id = id ∷ [];
  url = 47 ∷ [];
  region = 1 ∷ [];
  isp = 2 ∷ [];
  tier = pos 1;
  score_hint = hint;
  max_children = pos 10;
  current_children = pos 0;
  bw_remaining_mbps = 50000;
  allow_cascade = true;
  has_ipv6 = false;
  ipv6_url = [];
}

abbrev pub response : MeshMapResponse ℕ
response = record {
  self_tier = pos 2;
  candidate_upstreams = candidate 9 90000 ∷ candidate 5 80000 ∷ [];
  policy = none;
  migration_advice = none;
}

abbrev pub only_five : MeshMapResponse ℕ
only_five = record response { candidate_upstreams = candidate 5 80000 ∷ [] }

-- The agent itself is node 9.
abbrev pub agent : CascadeSelector ℕ
agent = new_selector ℕ (9 ∷ []) (1 ∷ []) (3 ∷ []) false

abbrev pub free : Locks
free = record { guard_free = λ i. true; probes_free = λ i. true }

abbrev pub chosen : CascadePath ℕ
chosen = path_over thousandths agent 100 none (candidate 5 80000)
