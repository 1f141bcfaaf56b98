-- ===== src/Viewer/Tests.antt =====
-- One viewer of a small relay, and viewers that hang up.
use live_cdn.Common.{
  ◌+◌, ◌≡◌, refl, ◌+◌, ◌-◌, ◌≤◌, ◌++◌, List, [], ◌∷◌, length, arith, keep, true, false,
}
use live_cdn.Flv.{video, FlvTagPacket}
use live_cdn.Drop.{get_packet_priority, default_policy, new_tracker, report_lag}
use live_cdn.Viewer.{
  Relay, Network, RecvEvent, received, lagged, Loop, serve, handle_http_flv, handle_ws_flv,
  rejected,
}
use live_cdn.Viewer.Clients.{visits, visits_locked_out}
use live_cdn.Gop.{parse_video_frame_type}
use live_cdn.Viewer.Heard.{tag_is_high, delivered, lags}
use live_cdn.Viewer.Stream.{serve_keeps_high, flowing, serve_recovers}

abbrev key : FlvTagPacket
key = record { tag_type = video; timestamp_ms = 0; body = 0x17 ∷ 1 ∷ []; origin_ts = 0 }

abbrev inter : FlvTagPacket
inter = record { tag_type = video; timestamp_ms = 40; body = 0x27 ∷ 1 ∷ []; origin_ts = 0 }

abbrev relay : Relay
relay = record { client_count = 1; max_clients = 3; bytes_sent = 0 }

-- The viewer falls behind by two packets, and goes on.
abbrev events : List RecvEvent
events = received key true ∷ lagged 2 ∷ received inter true ∷ received key true ∷ []

abbrev lagging : Loop
lagging = record {
  tracker = report_lag (new_tracker default_policy) 2;
  relay = relay;
  written = [];
}

abbrev online : Network
online = record { response_ok = true; flv_header_ok = true; startup_ok = true; events = events }

abbrev gone : Network
gone = record { response_ok = false; flv_header_ok = false; startup_ok = false; events = [] }

serve_keeps_high_example :
    (keep tag_is_high (serve lagging events).written ≡ [] ++ keep tag_is_high (delivered events))
    × (length (keep tag_is_high (serve lagging events).written) + 1 ≡ 0 + 3)
    × (2 ≡ lags events)
unfolding get_packet_priority parse_video_frame_type
serve_keeps_high_example =
    serve_keeps_high events lagging (key ∷ inter ∷ key ∷ inter ∷ key ∷ []) (inter ∷ key ∷ [])
      (refl, (tt, (refl, (refl, tt))))
      (
        inter ∷ key ∷ inter ∷ key ∷ [],
        refl,
        (
          inter ∷ key ∷ [],
          inter ∷ key ∷ [],
          [],
          refl,
          refl,
          refl,
          (key ∷ [], refl, ([], refl, (refl, refl))),
        ),
      )

serve_recovers_example :
    let s' = serve lagging (flowing (key ∷ inter ∷ key ∷ [])) in
    (s'.tracker.lag_count ≡ 2 - (length s'.written - 0))
    × (0 ≤ length s'.written)
    × (s'.tracker.total_packets ≡ 3)
    × (s'.tracker.total_drops + length s'.written ≡ 3)
unfolding report_lag new_tracker
serve_recovers_example = serve_recovers (key ∷ inter ∷ key ∷ []) lagging (omega arith) (omega arith)

visits_locked_out_example :
    ((handle_http_flv (visits relay (gone ∷ gone ∷ [])) (key ∷ []) online).1 ≡ rejected)
    × ((handle_ws_flv (visits relay (gone ∷ gone ∷ [])) (key ∷ []) online).1 ≡ rejected)
visits_locked_out_example =
    visits_locked_out relay (gone ∷ gone ∷ []) (key ∷ []) online (refl, (refl, tt)) (omega arith)
