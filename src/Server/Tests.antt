-- ===== src/Server/Tests.antt =====
-- The server at concrete connections and requests.
use live_cdn.Common.{
  ℕ, ◌≡◌, refl, true, none, some, List, [], ◌∷◌, ◌++◌, codes, is_space, split_by, ok,
}
use live_cdn.Config.{default_config}
use live_cdn.Crypto.Toy.{key_info}
use live_cdn.StreamRelay.{StreamRelay, new_relay, m3u8}
use live_cdn.Server.{
  AppState, is_flv_request, connection_kind, http_flv, websocket, parse_stream_key_from_url,
}
use live_cdn.Server.Request.{Visit}
use live_cdn.Server.Keys.{request_for, parse_stream_key_from_url-request_for}
use live_cdn.Server.Connections.{Connection}
use live_cdn.Server.Socket.{no_message}
use live_cdn.Server.Pinged.{Neighbour, probe, run_mesh_ping-agents}
use live_cdn.Cascade.{CascadeSelector, new_selector}
use live_cdn.Cascade.Switch.{emergency_switch}
use live_cdn.Cascade.Ping.{probe_all, run_mesh_ping}
use live_cdn.Cascade.Toy.{thousandths, response, agent, free, chosen}
use live_cdn.Server.Http.{Library, get_method, handle_http_request}
use live_cdn.Server.Hls.{playlist_path, IsAnswer, handle_http_request-playlist}

abbrev live_request : List ℕ
live_request = request_for (codes "/live/" ++ codes "s1") (codes "HTTP/1.1\r\n")

kinds :
    (connection_kind (live_request ++ codes "Host: a\r\n") ≡ http_flv)
    × (connection_kind (codes "GET /ws/live HTTP/1.1\r\nUpgrade: websocket\r\n") ≡ websocket)
unfolding connection_kind is_flv_request split_by
kinds = (refl, refl)

parse_stream_key_from_url-request_for_example :
    (parse_stream_key_from_url live_request ≡ codes "s1")
    × (parse_stream_key_from_url
          (request_for (codes "/cascade/" ++ codes "s1") (codes "HTTP/1.1\r\n"))
        ≡ codes "s1")
unfolding is_space
parse_stream_key_from_url-request_for_example =
    parse_stream_key_from_url-request_for (codes "s1") (codes "HTTP/1.1\r\n") refl refl refl refl
      refl

abbrev playing : StreamRelay ℕ
playing = record (new_relay (codes "http://o/s.m3u8") key_info 2 3) {
  segments = record { seq = 0; seg_type = m3u8; data_bytes = 1 ∷ 2 ∷ []; duration = 0 } ∷ [];
}

abbrev state : AppState ℕ
state = record { config = default_config; relays = (codes "s1", playing) ∷ []; flv_relays = [] }

abbrev visit : Visit
visit = record {
  request_line = live_request;
  header_lines = codes "Host: a\r\n" ∷ codes "\r\n" ∷ [];
  upstream = none;
  startup = [];
  network = record { response_ok = true; flv_header_ok = true; startup_ok = true; events = [] };
}

abbrev library : Library
library = record { blog = codes "<html>"; base64_encode = λ d. d; json = λ h. [] }

handle_http_request-playlist_example : IsAnswer library (some playing) (
    handle_http_request library state get_method (playlist_path (codes "s1") (codes "stream.m3u8")))
unfolding default_config
handle_http_request-playlist_example =
    handle_http_request-playlist library state get_method (codes "s1") (codes "stream.m3u8") refl
      refl refl refl refl

-- Two agents as candidates: the one that is pulled from answers the ping with 404.
abbrev neighbour : List ℕ → Neighbour ℕ
neighbour url = record {
  state = state;
  name = codes "%7Bstream_key%7D.flv";
  headers = codes "Host: a\r\n";
  millis = 12;
}

abbrev base : Connection ℕ
base = record {
  peeked = none;
  socket = record {
    accepted = true;
    handshake = no_message;
    upstream = none;
    fresh_key = ok key_info;
    startup = [];
    network = visit.network;
    first_ok = true;
    messages = [];
  };
  visit = visit;
  requests = [];
}

abbrev pulling : CascadeSelector ℕ
pulling = record agent { last_mesh_response = some response; current_path = some chosen }

run_mesh_ping-agents_example :
    let ping = λ (url : List ℕ). probe 9 library base (neighbour url) in
    run_mesh_ping thousandths pulling 100 free ping
    ≡ emergency_switch thousandths
        (record pulling { probe_results = probe_all 100 ping response.candidate_upstreams [] })
        100
        free
unfolding new_selector live_cdn.Cascade.Score.path_over
run_mesh_ping-agents_example =
    run_mesh_ping-agents 9 library base neighbour thousandths pulling 100 free response chosen
      (λ url. record { lower = refl; upper = refl }) refl refl refl
