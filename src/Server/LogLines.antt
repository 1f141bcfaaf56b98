-- ===== src/Server/LogLines.antt =====
-- The log lines of agent-rust/src/main.rs, relay/flv.rs and relay/mod.rs that cut a text after some of
-- its bytes, `&key[..8.min(key.len())]`: where the cut falls within a character the slice panics, and
-- a panic ends the whole agent, since the release profile aborts. The log is at its default level.
use live_cdn.Common.{
  ℕ, Bool, false, ◌&&◌, ◌||◌, not, Option, none, some, List, [], ◌∷◌, true, codes, is_nil, has_text,
  cuts_char, if◌then◌else◌, Result, ok, err,
}
use live_cdn.Crypto.{KeyInfo}
use live_cdn.StreamRelay.{StreamRelay}
use live_cdn.Server.{
  AppState, FlvPuller, Kind, websocket, http_flv, plain_http, get, connection_kind,
  parse_stream_key_from_url,
}
use live_cdn.Server.Http.{Library}
use live_cdn.Server.Request.{Visit, read_headers}
use live_cdn.Server.Socket.{
  WsRoute, closed, failed, missing_stream_key, flv_mode, encrypted_mode, ws_route,
}
use live_cdn.Server.Connections.{Socket, Connection, handle_connection}

-- A relay that is made for an upstream logs the upstream's URL.
abbrev made_panics : Option FlvPuller → Option (List ℕ) → Bool
made_panics none (some upstream) = cuts_char 20 upstream
made_panics other upstream = false

-- Whether a key or its error lets the m3u8 relay be handed out.
abbrev is_given : {F E : Type 0} → Option (StreamRelay F) → Result E KeyInfo → Bool
is_given (some relay) fresh = true
is_given none (ok key_info) = true
is_given none (err e) = false

module _ {F : Type 0} where
  -- A viewer's relay logs its key when it is made, in the task that it spawns, so a relay whose key
  -- the log cannot cut is never there before.
  abbrev pub flv_panics : AppState F → List ℕ → Option (List ℕ) → Bool
  flv_panics s key upstream = cuts_char 8 key || made_panics (get s.flv_relays key) upstream

  abbrev pub headers_panic : AppState F → Visit → Option Bool → Bool
  headers_panic s v none = false
  headers_panic s v (some is_cascade_pull) =
      let key = parse_stream_key_from_url v.request_line in
      not (has_text v.request_line (codes "/cascade/") && not is_cascade_pull)
      && (not (is_nil key) && flv_panics s key v.upstream)

  module _ {E : Type 0} where
    abbrev pub route_panics : AppState F → Socket E → WsRoute → Bool
    route_panics s c closed = false
    route_panics s c failed = false
    route_panics s c missing_stream_key = false
    route_panics s c (flv_mode key) = flv_panics s key c.upstream
    route_panics s c (encrypted_mode key) =
        cuts_char 8 key && is_given (get s.relays key) c.fresh_key

    abbrev pub kind_panics : ℕ → AppState F → Connection E → Kind → Bool
    kind_panics n s c websocket =
        (c.socket).accepted && route_panics s c.socket (ws_route (c.socket).handshake)
    kind_panics n s c http_flv = headers_panic s c.visit (
        read_headers n (c.visit).header_lines (has_text (c.visit).request_line (codes "/cascade/")))
    kind_panics n s c plain_http = false

    abbrev pub peeked_panics : ℕ → AppState F → Connection E → Option (List ℕ) → Bool
    peeked_panics n s c none = false
    peeked_panics n s c (some peek_str) = kind_panics n s c (connection_kind peek_str)

    -- Whether the handler of a connection, or a task that it starts, meets such a log line.
    unfoldable pub connection_panics : ℕ → AppState F → Connection E → Bool
    connection_panics n s c = peeked_panics n s c c.peeked

    -- Connections that come one after the other. After a panic the agent is gone: what is left is what
    -- its handler was about to leave.
    unfoldable pub handle_all : ℕ → Library → AppState F → List (Connection E) → AppState F
    handle_all n lib s [] = s
    handle_all n lib s (c ∷ cs) =
        let s' = (handle_connection n lib s c).0 in
        let rest = handle_all n lib s' cs in if connection_panics n s c then s' else rest
