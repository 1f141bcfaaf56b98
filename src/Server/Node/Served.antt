-- ===== src/Server/Node/Served.antt =====
-- The tables of relays of an agent whose selector is at work.
use live_cdn.Common.{ℕ, sym, subst}
use live_cdn.Config.{Config}
use live_cdn.Cascade.{Float, current_upstream_url}
use live_cdn.Server.Http.{Library}
use live_cdn.Server.Heartbeat.{heartbeat_reaction}
use live_cdn.Server.Connections.Kept.{IsServed, handle_connection-IsServed}
use live_cdn.Server.Node.{
  Node, Input, visited, heartbeat, pinged, with_upstream, heartbeat_round, take_input,
}
use live_cdn.Server.Node.Kept.{react-app}

module _ {F E : Type 0} (R : Float) (n : ℕ) (lib : Library) (c : Config) where
  pub take_input-IsServed :
      (s : Node F R.Carrier) (i : Input E R.Carrier)
      → IsServed c s.app
      → IsServed c (take_input R n lib s i).0.app
  unfolding take_input heartbeat_round
  take_input-IsServed s (visited d) h =
      handle_connection-IsServed c n lib s.app (with_upstream (current_upstream_url s.selector) d) h
  take_input-IsServed s (heartbeat now locks origins answer) h =
      subst (IsServed c) (sym (react-app R s now locks (heartbeat_reaction s.app.config answer))) h
  take_input-IsServed s (pinged now locks ping) h = h
