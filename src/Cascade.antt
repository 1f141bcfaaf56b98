-- ===== src/Cascade.antt =====
-- agent-rust/src/relay/cascade_selector.rs: which upstream an agent pulls a stream from. Strings are
-- lists of code points, instants milliseconds. Every operation takes the time, which stands still while it
-- runs. The floating-point numbers are a parameter.
mod Tests
pub mod Score
pub mod Switch
pub mod Ping
pub mod Pinged
pub mod Toy
pub mod Best
pub mod Paths
pub mod Failure
pub mod Hysteresis
pub use live_cdn.Common.{ℤ, pos, negsuc, leℤ, as_u64}
use live_cdn.Common.{
  ℕ, ◌+◌, ◌-◌, ◌*◌, ◌^◌, Bool, true, false, ◌&&◌, ◌||◌, not, Option, none, some, List, [], ◌∷◌, ltb,
  leb, ◌==◌, if◌then◌else◌, length, keep, same, contains,
}

-- `f64`: `literal m e` is the literal m / 10 ^ e.
pub record Float : Type 1 where
  pub Carrier : Type 0
  pub literal : ℕ → ℕ → Carrier
  pub from_i32 : ℤ → Carrier
  pub add : Carrier → Carrier → Carrier
  pub sub : Carrier → Carrier → Carrier
  pub mul : Carrier → Carrier → Carrier
  pub div : Carrier → Carrier → Carrier
  pub maximum : Carrier → Carrier → Carrier
  pub less : Carrier → Carrier → Bool

pub record CandidateUpstream (R : Type 0) : Type 0 where
  pub node_id : List ℕ
  pub url : List ℕ
  pub region : List ℕ
  pub isp : List ℕ
  pub tier : ℤ
  pub score_hint : R
  pub max_children : ℤ
  pub current_children : ℤ
  pub bw_remaining_mbps : R
  pub allow_cascade : Bool
  pub has_ipv6 : Bool
  pub ipv6_url : List ℕ

-- The fields of `MeshPolicy` that the selector reads.
pub record MeshPolicy : Type 0 where
  pub max_depth : ℤ
  pub switch_cooldown_sec : ℤ
  pub min_score_improvement : ℤ
  pub max_switch_per_5min : ℤ

-- The policy as the controller writes it, and the defaults of the fields that it leaves out.
pub record PolicyFields : Type 0 where
  pub max_depth : Option ℤ
  pub switch_cooldown_sec : Option ℤ
  pub min_score_improvement : Option ℤ
  pub max_switch_per_5min : Option ℤ

abbrev given : Option ℤ → ℤ → ℤ
given none d = d
given (some n) d = n

pub read_policy : PolicyFields → MeshPolicy
read_policy f = record {
  max_depth = given f.max_depth (pos 2);
  switch_cooldown_sec = given f.switch_cooldown_sec (pos 30);
  min_score_improvement = given f.min_score_improvement (pos 15);
  max_switch_per_5min = given f.max_switch_per_5min (pos 3);
}

pub record MigrationAdvice : Type 0 where
  pub should_switch : Bool
  pub reason : List ℕ

pub record MeshMapResponse (R : Type 0) : Type 0 where
  pub self_tier : ℤ
  pub candidate_upstreams : List (CandidateUpstream R)
  pub policy : Option MeshPolicy
  pub migration_advice : Option MigrationAdvice

-- The text that says why a path was chosen, with its "+IPv6" as a flag.
pub data Reason : Type 0 where
  same_region_and_isp : Bool → Reason
  same_region : Bool → Reason
  other_region : Bool → Reason

pub record CascadePath (R : Type 0) : Type 0 where
  pub upstream_url : List ℕ
  pub upstream_node_id : List ℕ
  pub score : R
  pub tier : ℤ
  pub reason : Reason
  pub selected_at : ℕ

pub record LoopGuard : Type 0 where
  pub node_id : List ℕ
  pub known_upstream_chain : List (List ℕ)
  pub max_depth : ℤ

unfoldable pub new_guard : List ℕ → ℤ → LoopGuard
new_guard node_id max_depth = record {
  node_id = node_id;
  known_upstream_chain = [];
  max_depth = max_depth;
}

unfoldable pub would_create_loop : LoopGuard → List ℕ → ℤ → Bool
would_create_loop g upstream_node_id upstream_tier =
    if leℤ (pos 0) upstream_tier && leℤ g.max_depth upstream_tier
    then true
    else if same upstream_node_id g.node_id
    then true
    else contains g.known_upstream_chain g.node_id

unfoldable pub update_upstream_chain : LoopGuard → List (List ℕ) → LoopGuard
update_upstream_chain g path = record g { known_upstream_chain = path }

unfoldable pub detect_loop_in_path : LoopGuard → List (List ℕ) → Bool
detect_loop_in_path g path = contains path g.node_id

pub record ProbeResult : Type 0 where
  pub connect_rtt_ms : ℕ
  pub probed_at : ℕ
  pub reachable : Bool

-- A `HashMap` keyed by node: the newest entry of a key stands first.
abbrev pub get_probe : List (List ℕ × ProbeResult) → List ℕ → Option ProbeResult
get_probe [] id = none
get_probe ((k, p) ∷ ps) id = let rest = get_probe ps id in if same k id then some p else rest

pub record CascadeSelector (R : Type 0) : Type 0 where
  pub node_id : List ℕ
  pub region : List ℕ
  pub isp : List ℕ
  pub has_ipv6 : Bool
  pub current_path : Option (CascadePath R)
  pub last_mesh_response : Option (MeshMapResponse R)
  pub loop_guard : LoopGuard
  pub last_switch_at : Option ℕ
  pub switch_count_5min : List ℕ
  pub self_tier : ℤ
  pub probe_results : List (List ℕ × ProbeResult)
  pub upstream_consecutive_fails : ℕ
  pub upstream_last_ok_at : Option ℕ

abbrev url_of : {R : Type 0} → Option (CascadePath R) → Option (List ℕ)
url_of none = none
url_of (some p) = some p.upstream_url

-- What a new puller is given for its upstream.
unfoldable pub current_upstream_url : {R : Type 0} → CascadeSelector R → Option (List ℕ)
current_upstream_url s = url_of s.current_path

abbrev fresh_rtt : Option ProbeResult → ℕ → Option ℕ
fresh_rtt none now = none
fresh_rtt (some p) now = if ltb (now - p.probed_at) 60000 then some p.connect_rtt_ms else none

pub get_probe_rtt : {R : Type 0} → CascadeSelector R → List ℕ → ℕ → Option ℕ
get_probe_rtt s id now = fresh_rtt (get_probe s.probe_results id) now

pub detect_loop : {R : Type 0} → CascadeSelector R → List (List ℕ) → Bool
detect_loop s path = detect_loop_in_path s.loop_guard path

unfoldable pub new_selector : (R : Type 0) → List ℕ → List ℕ → List ℕ → Bool → CascadeSelector R
new_selector R node_id region isp has_ipv6 = record {
  node_id = node_id;
  region = region;
  isp = isp;
  has_ipv6 = has_ipv6;
  current_path = none;
  last_mesh_response = none;
  loop_guard = new_guard node_id (pos 2);
  last_switch_at = none;
  switch_count_5min = [];
  self_tier = pos 2;
  probe_results = [];
  upstream_consecutive_fails = 0;
  upstream_last_ok_at = none;
}
