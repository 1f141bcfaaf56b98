-- ===== src/Agent.antt =====
-- `main` of agent-rust/src/main.rs: the arguments, the settings, the tasks and the listeners that are
-- started, the loop over the connections while the heartbeat and the mesh ping run, and the shutdown.
-- What the system answers is an input; a connection is served to its end before the next event. The
-- log, except for its lines that can panic, and the waits of the tasks are left out.
pub mod Stops
pub mod Panics
mod Tests
use live_cdn.Common.{
  ℕ, Bool, true, false, Option, none, some, List, [], ◌∷◌, ◌++◌, if◌then◌else◌, Result, ok, err,
  ◌&&◌, ◌==◌, not, is_nil,
}
use live_cdn.Config.{Config, load, listen_text, listen_ipv6_text}
use live_cdn.Cli.{CliAction, run, version, parse_cli_args}
use live_cdn.StreamRelay.{StreamRelay}
use live_cdn.StreamRelay as StreamRelays
use live_cdn.Server.{AppState, FlvPuller}
use live_cdn.Server.Http.{Library}
use live_cdn.Cascade.{Float, new_selector}
use live_cdn.Server.Connections.{Connection}
use live_cdn.Server.Node.{Node, Input, visited, take_input, input_panics}

-- What the agent finds when it starts: its files, as far as they hold settings, the environment, the
-- host's name, the library's parser of addresses, and which addresses can be bound.
pub record System (E : Type 0) : Type 0 where
  pub file : List ℕ → Option (Result E Config)
  pub env : List ℕ → Option (List ℕ)
  pub hostname : Option (List ℕ)
  pub parse_address : List ℕ → Option (List ℕ)
  pub can_bind : List ℕ → Bool

pub data Task : Type 0 where
  self_update registration heartbeat mesh_ping health_check ipv6_listener signal_handler : Task

-- What comes in: a connection over IPv4 or a round of a background task, a connection over IPv6, a
-- failed `accept`, or the signal.
pub data Event (E C : Type 0) : Type 0 where
  taken : Input E C → Event E C
  over_ipv6 : Connection E → Event E C
  accept_failed : Event E C
  signal : Event E C

-- How `main` ends: with an exit code, with the version on its output, with a panic, or after the
-- shutdown. `serving` is no end: the events are over, and the loop waits.
pub data Ended (F C : Type 0) : Type 0 where
  exits : ℕ → Ended F C
  shows_version : Ended F C
  panics : Ended F C
  stopped : List Task → Node F C → Ended F C
  serving : List Task → Node F C → Ended F C

-- `FlvPuller::stop`
pub stop_puller : FlvPuller → FlvPuller
stop_puller p = record p { running = false }

abbrev pub each_value : {A : Type 0} → (A → A) → List (List ℕ × A) → List (List ℕ × A)
each_value f [] = []
each_value f ((k, a) ∷ rest) = (k, f a) ∷ each_value f rest

-- The start of the state.
pub new_state : {F : Type 0} → (C : Type 0) → Config → Node F C
new_state C c = record {
  app = record { config = c; relays = []; flv_relays = [] };
  selector = new_selector C c.node_id c.region c.isp (not (is_nil c.public_ipv6));
}

pub stop_relays : {F : Type 0} → AppState F → AppState F
unfolding stop_puller
stop_relays s = record s {
  relays = each_value StreamRelays.stop s.relays;
  flv_relays = each_value stop_puller s.flv_relays;
}

-- Whether there is an address for IPv6 that can be bound.
pub binds_ipv6 : {E : Type 0} → System E → Option (List ℕ) → Bool
binds_ipv6 sys none = false
binds_ipv6 sys (some text) = elim (sys.parse_address text) [
  | none ↦ false
  | some address ↦ sys.can_bind address
]

pub tasks_of : Config → Bool → List Task
tasks_of c ipv6 =
    (if c.auto_update then self_update ∷ [] else [])
    ++ ((registration ∷ heartbeat ∷ mesh_ping ∷ health_check ∷ [])
        ++ ((if ipv6 then ipv6_listener ∷ [] else []) ++ signal_handler ∷ []))

module _ {F E : Type 0} (R : Float) (n : ℕ) (lib : Library) where
  -- The loop over what comes in, which ends with the signal or with a panic.
  pub accept_loop :
      Bool → List Task → Node F R.Carrier → List (Event E R.Carrier) → Ended F R.Carrier
  accept_loop ipv6 tasks s [] = serving tasks s
  accept_loop ipv6 tasks s (taken i ∷ es) =
      let rest = accept_loop ipv6 tasks (take_input R n lib s i).0 es in
      if input_panics R n lib s i then panics else rest
  accept_loop ipv6 tasks s (over_ipv6 c ∷ es) =
      let s' = if ipv6 then (take_input R n lib s (visited c)).0 else s in
      let rest = accept_loop ipv6 tasks s' es in
      if ipv6 && input_panics R n lib s (visited c) then panics else rest
  accept_loop ipv6 tasks s (accept_failed ∷ es) = accept_loop ipv6 tasks s es
  accept_loop ipv6 tasks s (signal ∷ es) = stopped tasks (record s { app = stop_relays s.app })

  -- The heartbeat's interval panics in its task when it is 0, and the release profile aborts.
  pub bound : System E → Config → List (Event E R.Carrier) → Option (List ℕ) → Ended F R.Carrier
  unfolding accept_loop tasks_of new_state binds_ipv6
  bound sys c es none = panics
  bound sys c es (some address) =
      let ipv6 = binds_ipv6 sys (listen_ipv6_text c) in
      if sys.can_bind address && not (c.hb_interval_secs == 0)
      then accept_loop ipv6 (tasks_of c ipv6) (new_state R.Carrier c) es
      else panics

  pub configured : System E → List (Event E R.Carrier) → Result E Config → Ended F R.Carrier
  unfolding bound
  configured sys es (err e) = exits 1
  configured sys es (ok c) = bound sys c es (sys.parse_address (listen_text c))

  pub with_action :
      System E → List (Event E R.Carrier) → Result (List ℕ) CliAction → Ended F R.Carrier
  unfolding configured
  with_action sys es (err message) = exits 2
  with_action sys es (ok version) = shows_version
  with_action sys es (ok (run path)) = configured sys es (load (sys.file path) sys.env sys.hostname)

  pub agent_main : System E → List (List ℕ) → List (Event E R.Carrier) → Ended F R.Carrier
  unfolding with_action
  agent_main sys args es = with_action sys es (parse_cli_args args)
