-- ===== src/Server/Heartbeat.antt =====
-- What the agent tells the controller: `register_with_controller` and a round of `heartbeat_loop` of
-- agent-rust/src/main.rs, with the payloads of agent-rust/src/protocol/mod.rs. The fields that are
-- always 0, and the version, are left out.
use live_cdn.Common.{
  is_success, ℕ, zero, suc, ◌+◌, Bool, ◌||◌, Option, none, some, List, [], ◌∷◌, ◌==◌, if◌then◌else◌,
  codes,
}
use live_cdn.Config.{Config, controller_api_url, is_cascade_node}
use live_cdn.Cascade.{ℤ, pos, negsuc, CascadePath, CascadeSelector}
use live_cdn.Server.{AppState}
use live_cdn.Server.Http.{hls_users, flv_users}

pub record RegisterPayload : Type 0 where
  pub node_id : List ℕ
  pub public_ip : List ℕ
  pub public_ipv6 : List ℕ
  pub port : ℕ
  pub region : List ℕ
  pub isp : List ℕ
  pub bw_limit : ℕ
  pub domain : List ℕ
  pub protocol : List ℕ
  pub ws_path : List ℕ
  pub tls_enabled : Bool
  pub token : List ℕ
  pub cascade_enabled : Bool
  pub cascade_upstream : Bool

unfoldable pub register_payload : Config → RegisterPayload
register_payload c = record {
  node_id = c.node_id;
  public_ip = c.public_ip;
  public_ipv6 = c.public_ipv6;
  port = c.port;
  region = c.region;
  isp = c.isp;
  bw_limit = c.bw_limit;
  domain = c.domain;
  protocol = c.protocol;
  ws_path = c.ws_path;
  tls_enabled = c.tls_enabled;
  token = c.reg_token;
  cascade_enabled = c.cascade_enabled;
  cascade_upstream = is_cascade_node c;
}

-- How `register_with_controller` ends, with the status of the answer, if there is one.
data Registered : Type 0 where
  registered request_failed : Registered
  refused : ℕ → Registered

unfoldable register_result : Option ℕ → Registered
register_result none = request_failed
register_result (some status) = if is_success status then registered else refused status

pub record HeartbeatPayload : Type 0 where
  pub node_id : List ℕ
  pub bw_limit : ℕ
  pub online_users : ℕ
  pub rtt_ms : ℕ
  pub cascade_depth : ℤ
  pub current_upstream : List ℕ

-- `measure_rtt`: the milliseconds that the request took, or that it failed.
abbrev pub measured : Option ℕ → ℕ
measured none = 9999
measured (some ms) = ms

-- One measurement after the other, as long as the result is 0.
abbrev pub rtt_after : ℕ → List (Option ℕ) → ℕ
rtt_after rtt [] = rtt
rtt_after rtt (m ∷ ms) = rtt_after (if rtt == 0 then measured m else rtt) ms

pub record CascadeStats : Type 0 where
  pub cascade_depth : ℤ
  pub current_upstream : List ℕ
  pub self_tier : ℤ

-- `tier - 1`
abbrev one_less : ℤ → ℤ
one_less (pos zero) = negsuc 0
one_less (pos (suc n)) = pos n
one_less (negsuc n) = negsuc (suc n)

abbrev stats_of : {R : Type 0} → Option (CascadePath R) → ℤ → CascadeStats
stats_of none tier = record { cascade_depth = pos 0; current_upstream = []; self_tier = tier }
stats_of (some p) tier = record {
  cascade_depth = one_less tier;
  current_upstream = p.upstream_node_id;
  self_tier = tier;
}

pub cascade_stats : {R : Type 0} → CascadeSelector R → CascadeStats
cascade_stats s = stats_of s.current_path s.self_tier

-- With what the relays' origins answer, in the order of the tables.
pub heartbeat_payload :
    {F : Type 0} → AppState F → CascadeStats → List (Option ℕ) → HeartbeatPayload
heartbeat_payload s stats origins = record {
  node_id = s.config.node_id;
  bw_limit = s.config.bw_limit;
  online_users = hls_users s.relays + flv_users s.flv_relays;
  rtt_ms = rtt_after 0 origins;
  cascade_depth = stats.cascade_depth;
  current_upstream = stats.current_upstream;
}

-- The controller's reply: its status, and the mesh map that its body has, if it has one.
pub data Reply (M : Type 0) : Type 0 where
  no_reply : Reply M
  reply : ℕ → Option M → Reply M

pub data Reaction (M : Type 0) : Type 0 where
  nothing : Reaction M
  update_mesh : M → Reaction M
  register : List ℕ → RegisterPayload → Reaction M

abbrev mesh_reaction : {M : Type 0} → Option M → Reaction M
mesh_reaction none = nothing
mesh_reaction (some m) = update_mesh m

unfoldable pub heartbeat_reaction : {M : Type 0} → Config → Reply M → Reaction M
heartbeat_reaction c no_reply = nothing
heartbeat_reaction c (reply status mesh) =
    if is_success status
    then mesh_reaction mesh
    else if status == 404 || status == 410
    then register (controller_api_url c (codes "/api/agent/register")) (register_payload c)
    else nothing
