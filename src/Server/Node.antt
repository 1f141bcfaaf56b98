-- ===== src/Server/Node.antt =====
-- An agent with its selector, as agent-rust/src/main.rs runs the two: connections, whose relays get
-- the selector's upstream, rounds of `heartbeat_loop`, whose answers reach the selector, and rounds of
-- the mesh ping, one after the other. What the network answers is an input.
pub mod Sources
pub mod Kept
pub mod Served
mod Tests
use live_cdn.Common.{ℕ, Bool, false, if◌then◌else◌, Option, none, some, List, [], ◌∷◌, ◌++◌, codes}
use live_cdn.Config.{controller_api_url}
use live_cdn.Cascade.{Float, MeshMapResponse, CascadeSelector, current_upstream_url}
use live_cdn.Cascade.Score.{Locks}
use live_cdn.Cascade.Switch.{update_mesh_map, update_panics}
use live_cdn.Cascade.Ping.{run_mesh_ping, ping_panics}
use live_cdn.Server.{AppState}
use live_cdn.Server.Http.{Library}
use live_cdn.Server.Heartbeat.{
  RegisterPayload, HeartbeatPayload, Reply, Reaction, nothing, update_mesh, register, cascade_stats,
  heartbeat_payload, heartbeat_reaction,
}
use live_cdn.Server.Connections.{Connection, handle_connection}
use live_cdn.Server.LogLines.{connection_panics}

pub record Node (F C : Type 0) : Type 0 where
  pub app : AppState F
  pub selector : CascadeSelector C

-- A connection; a round of the heartbeat, with what the relays' origins and the controller answer; a
-- round of the mesh ping, with what the probes measure.
pub data Input (E C : Type 0) : Type 0 where
  visited : Connection E → Input E C
  heartbeat : ℕ → Locks → List (Option ℕ) → Reply (MeshMapResponse C) → Input E C
  pinged : ℕ → Locks → (List ℕ → ℕ) → Input E C

-- A request to the controller: its URL, the bearer's token, and the payload.
pub data Sent : Type 0 where
  beat : List ℕ → List ℕ → HeartbeatPayload → Sent
  registration : List ℕ → RegisterPayload → Sent

-- The connection meets the upstream that the selector has by then.
abbrev pub with_upstream : {E : Type 0} → Option (List ℕ) → Connection E → Connection E
with_upstream upstream c = record c {
  socket = record c.socket { upstream = upstream };
  visit = record c.visit { upstream = upstream };
}

module _ {F : Type 0} (R : Float) where
  -- What the answer to a heartbeat makes the agent do, and send.
  pub react :
      Node F R.Carrier
      → ℕ
      → Locks
      → Reaction (MeshMapResponse R.Carrier)
      → Node F R.Carrier × List Sent
  react s now locks nothing = (s, [])
  react s now locks (update_mesh m) =
      (record s { selector = update_mesh_map R s.selector now locks m }, [])
  react s now locks (register url payload) = (s, registration url payload ∷ [])

  pub heartbeat_round :
      Node F R.Carrier
      → ℕ
      → Locks
      → List (Option ℕ)
      → Reply (MeshMapResponse R.Carrier)
      → Node F R.Carrier × List Sent
  unfolding react
  heartbeat_round s now locks origins answer =
      let (s', more) = react s now locks (heartbeat_reaction s.app.config answer) in
      (
        s',
        beat (controller_api_url s.app.config (codes "/api/agent/heartbeat")) s.app.config.reg_token
              (heartbeat_payload s.app (cascade_stats s.selector) origins)
            ∷ more,
      )

  reaction_panics : Node F R.Carrier → ℕ → Locks → Reaction (MeshMapResponse R.Carrier) → Bool
  reaction_panics s now locks nothing = false
  reaction_panics s now locks (update_mesh m) = update_panics R s.selector now locks m
  reaction_panics s now locks (register url payload) = false

module _ {F E : Type 0} (R : Float) (n : ℕ) (lib : Library) where
  pub take_input : Node F R.Carrier → Input E R.Carrier → Node F R.Carrier × List Sent
  unfolding heartbeat_round
  take_input s (visited c) =
      let upstream = current_upstream_url s.selector in
      (record s { app = (handle_connection n lib s.app (with_upstream upstream c)).0 }, [])
  take_input s (heartbeat now locks origins answer) = heartbeat_round R s now locks origins answer
  take_input s (pinged now locks ping) =
      (record s { selector = run_mesh_ping R s.selector now locks ping }, [])

  -- Whether a log line that the input leads to panics.
  unfoldable pub input_panics : Node F R.Carrier → Input E R.Carrier → Bool
  unfolding reaction_panics
  input_panics s (visited c) =
      connection_panics n s.app (with_upstream (current_upstream_url s.selector) c)
  input_panics s (heartbeat now locks origins answer) =
      reaction_panics R s now locks (heartbeat_reaction s.app.config answer)
  input_panics s (pinged now locks ping) =
      ping_panics R s.selector now locks ping s.selector.last_mesh_response

  -- After a panic the agent is gone: what is left is what it was about to leave.
  unfoldable pub take_all :
      Node F R.Carrier → List (Input E R.Carrier) → Node F R.Carrier × List Sent
  take_all s [] = (s, [])
  take_all s (i ∷ is) =
      let (s', sent) = take_input s i in
      let (s'', more) = take_all s' is in
      if input_panics s i then (s', sent) else (s'', sent ++ more)
