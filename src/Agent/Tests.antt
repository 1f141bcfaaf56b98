-- ===== src/Agent/Tests.antt =====
-- An agent that runs with its default settings, and arguments that end it at once.
use live_cdn.Server.{connection_kind, is_flv_request, parse_stream_key_from_url}
use live_cdn.Server.LogLines.{connection_panics}
use live_cdn.Server.Node.{input_panics}
use live_cdn.Server.Request.{read_headers}
use live_cdn.Cascade.{current_upstream_url, new_selector}
use live_cdn.Common.{
  split_by, is_space, strip_starts, strip_ends, List, false, ℕ, ◌≡◌, refl, true, none, some, [],
  ◌∷◌, codes, ok,
}
use live_cdn.Config.{Config, default_config}
use live_cdn.Crypto.Toy.{key_info}
use live_cdn.Viewer.{Network}
use live_cdn.Cli.{parse_cli_args}
use live_cdn.Server.Http.{Library}
use live_cdn.Server.Socket.{fields}
use live_cdn.Server.Connections.{Connection}
use live_cdn.Server.Heartbeat.{reply}
use live_cdn.Server.Node.{visited, heartbeat, pinged}
use live_cdn.Cascade.Toy.{thousandths, only_five, free}
use live_cdn.Agent.{
  Event, new_state, System, taken, over_ipv6, accept_failed, exits, shows_version, with_action,
  agent_main,
}
use live_cdn.Agent.Stops.{meets_panic}

abbrev settings : Config
settings = record default_config { node_id = codes "edge-1" }

abbrev system : System ℕ
system = record {
  file = λ path. some (ok settings);
  env = λ name. none;
  hostname = none;
  parse_address = λ text. some text;
  can_bind = λ address. true;
}

abbrev library : Library
library = record { blog = []; base64_encode = λ d. d; json = λ h. [] }

abbrev online : Network
online = record { response_ok = true; flv_header_ok = true; startup_ok = true; events = [] }

abbrev viewer : Connection ℕ
viewer = record {
  peeked = some (codes "GET /live/s1.flv HTTP/1.1\r\n");
  socket = record {
    accepted = true;
    handshake = fields none none;
    upstream = none;
    fresh_key = ok key_info;
    startup = [];
    network = online;
    first_ok = true;
    messages = [];
  };
  visit = record {
    request_line = codes "GET /live/s1.flv HTTP/1.1\r\n";
    header_lines = codes "\r\n" ∷ [];
    upstream = none;
    startup = [];
    network = online;
  };
  requests = [];
}

abbrev loaded : Config
loaded =
    live_cdn.Config.named none
      (live_cdn.Config.normalize (live_cdn.Config.override (λ name. none) settings))

abbrev before_signal : List (Event ℕ ℕ)
before_signal =
    taken (visited viewer)
    ∷ taken (heartbeat 1000 free [] (reply 200 (some only_five)))
    ∷ taken (pinged 2000 free (λ url. 20))
    ∷ accept_failed
    ∷ over_ipv6 viewer
    ∷ []

-- This viewer makes no log line panic.
quiet_viewer :
    meets_panic {F = ℕ} thousandths 9 library true
      (new_state ℕ loaded)
      (taken (visited viewer) ∷ [])
    ≡ false
unfolding new_state input_panics connection_panics connection_kind is_flv_request split_by
    read_headers parse_stream_key_from_url is_space strip_starts strip_ends current_upstream_url
    new_selector
quiet_viewer = refl

-- The fourth character lies over the eighth byte.
abbrev cut_viewer : Connection ℕ
cut_viewer = record viewer {
  peeked = some (codes "GET /ws HTTP/1.1\r\nUpgrade: websocket\r\n");
  socket = record viewer.socket {
    handshake = fields (some (20013 ∷ 22269 ∷ 30005 ∷ [])) (some (codes "flv"));
  };
}

ends_at_once :
    (agent_main {F = ℕ} thousandths 9 library system (codes "--version" ∷ []) [] ≡ shows_version)
    × (agent_main {F = ℕ} thousandths 9 library system (codes "-c" ∷ []) [] ≡ exits 2)
unfolding agent_main parse_cli_args with_action
ends_at_once = (refl, refl)
