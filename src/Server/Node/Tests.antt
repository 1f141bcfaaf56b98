-- ===== src/Server/Node/Tests.antt =====
-- An agent whose first viewer comes before its first heartbeat, which then brings an upstream.
use live_cdn.Common.{
  ℕ, ◌≡◌, refl, true, none, some, List, [], ◌∷◌, codes, ok, split_by, is_space, strip_starts,
  strip_ends,
}
use live_cdn.Config.{default_config, origin_flv_url}
use live_cdn.Crypto.Toy.{key_info}
use live_cdn.Viewer.{Network}
use live_cdn.Cascade.{current_upstream_url, new_selector, would_create_loop, new_guard}
use live_cdn.Cascade.Toy.{thousandths, agent, only_five, free}
use live_cdn.Server.{
  get, new_flv_relay, connection_kind, is_flv_request, parse_stream_key_from_url,
  get_or_create_flv_relay,
}
use live_cdn.Server.Request.{visit_flv, read_headers}
use live_cdn.Cascade.Switch.{update_panics, update_mesh_map, check_hysteresis, apply_path_switch}
use live_cdn.Cascade.Score.{
  select_from_candidates, sort_paths, scored_from, passed_over, insert_path, path_over,
}
use live_cdn.Cascade.Ping.{ping_panics, run_mesh_ping, ping_from, is_unreachable, probe_all}
use live_cdn.Server.Http.{Library}
use live_cdn.Server.Socket.{fields}
use live_cdn.Server.Heartbeat.{reply, heartbeat_reaction}
use live_cdn.Server.Connections.{Connection, handle_connection}
use live_cdn.Server.LogLines.{connection_panics}
use live_cdn.Server.Node.{
  input_panics, Node, Input, visited, heartbeat, pinged, react, heartbeat_round, take_input,
  take_all,
}
use live_cdn.Server.Node.Kept.{take_all-upstream}
use live_cdn.Server.Node.Sources.{sources, some_ne_none}

abbrev library : Library
library = record { blog = []; base64_encode = λ d. d; json = λ h. [] }

abbrev online : Network
online = record { response_ok = true; flv_header_ok = true; startup_ok = true; events = [] }

abbrev viewer : Connection ℕ
viewer = record {
  peeked = some (codes "GET /live/s1.flv HTTP/1.1\r\n");
  socket = record {
    accepted = true;
    handshake = fields none none;
    upstream = none;
    fresh_key = ok key_info;
    startup = [];
    network = online;
    first_ok = true;
    messages = [];
  };
  visit = record {
    request_line = codes "GET /live/s1.flv HTTP/1.1\r\n";
    header_lines = codes "\r\n" ∷ [];
    upstream = none;
    startup = [];
    network = online;
  };
  requests = [];
}

abbrev node : Node ℕ ℕ
node = record {
  app = record { config = default_config; relays = []; flv_relays = [] };
  selector = agent;
}

abbrev later : List (Input ℕ ℕ)
later =
    heartbeat 1000 free [] (reply 200 (some only_five))
    ∷ pinged 2000 free (λ url. 20)
    ∷ visited viewer
    ∷ heartbeat 3000 free (some 12 ∷ []) (reply 200 none)
    ∷ []

take_all-upstream_example :
    sources (
      get
        (take_all thousandths 9 library node (visited viewer ∷ later)).0.app.flv_relays
        (codes "s1"))
    ≡ sources (some (new_flv_relay default_config (codes "s1") none))
unfolding take_input handle_connection connection_kind is_flv_request split_by visit_flv
    read_headers parse_stream_key_from_url is_space strip_starts strip_ends get_or_create_flv_relay
    current_upstream_url origin_flv_url new_selector
take_all-upstream_example =
    take_all-upstream thousandths 9 library node (codes "s1") (visited viewer) later refl
      (some_ne_none _)

-- The selector is elsewhere by then.
selects_another :
    current_upstream_url (take_all thousandths 9 library node (visited viewer ∷ later)).0.selector
    ≡ some (47 ∷ [])
unfolding take_all take_input heartbeat_round react current_upstream_url heartbeat_reaction
    update_mesh_map run_mesh_ping ping_from is_unreachable check_hysteresis new_selector
    select_from_candidates sort_paths scored_from passed_over would_create_loop new_guard
    insert_path apply_path_switch probe_all path_over input_panics connection_panics connection_kind
    is_flv_request split_by read_headers parse_stream_key_from_url is_space strip_starts strip_ends
    update_panics ping_panics handle_connection visit_flv get_or_create_flv_relay
selects_another = refl
