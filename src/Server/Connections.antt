-- ===== src/Server/Connections.antt =====
-- `handle_connection` of agent-rust/src/main.rs: a connection from the bytes that are peeked at to its
-- end, for each of its three kinds, where no log line panics (Server/LogLines.antt).
pub mod Kept
mod Tests
use live_cdn.Common.{
  ℕ, Bool, true, false, not, Option, none, some, List, [], ◌∷◌, map, if◌then◌else◌, codes, Result,
  ok, err,
}
use live_cdn.Flv.{FlvTagPacket}
use live_cdn.Crypto.{KeyInfo}
use live_cdn.StreamRelay.{StreamRelay}
use live_cdn.Viewer.{Network, Ending, handle_ws_flv}
use live_cdn.Disguise.{Response}
use live_cdn.Server.{
  AppState, Kind, websocket, http_flv, plain_http, connection_kind, get_or_create_flv_relay,
  get_or_create_relay,
}
use live_cdn.Server.Request.{Visit, FlvOutcome, visit_flv, put}
use live_cdn.Server.Http.{Library, Method, handle_http_request}
use live_cdn.Server.Socket.{
  Handshake, WsRoute, closed, failed, missing_stream_key, flv_mode, encrypted_mode, ws_route,
  Message, handle_ws_encrypted,
}

-- What a WebSocket connection brings: the library's handshake, the first message, the selector's
-- upstream, the key that would be made, and what the two modes meet.
pub record Socket (E : Type 0) : Type 0 where
  pub accepted : Bool
  pub handshake : Handshake
  pub upstream : Option (List ℕ)
  pub fresh_key : Result E KeyInfo
  pub startup : List FlvTagPacket
  pub network : Network
  pub first_ok : Bool
  pub messages : List Message

-- The bytes that are peeked at, and the rest by the kind of the connection: a connection of plain
-- HTTP may bring several requests.
pub record Connection (E : Type 0) : Type 0 where
  pub peeked : Option (List ℕ)
  pub socket : Socket E
  pub visit : Visit
  pub requests : List (Method × List ℕ)

pub data Outcome : Type 0 where
  -- the handler returned an error
  broken : Outcome
  hung_up no_key : Outcome
  streamed : Ending → Outcome
  -- what was sent, and whether the viewer was taken in
  encrypted : List (List ℕ) → Bool → Outcome
  flv : FlvOutcome → Outcome
  pages : List Response → Outcome

module _ {F E : Type 0} where
  -- `handle_ws_flv_mode`, with the relay of the table.
  unfoldable pub serve_ws_flv : AppState F → List ℕ → Socket E → AppState F × Outcome
  serve_ws_flv s key c =
      let (s', relay) = get_or_create_flv_relay s key c.upstream in
      let (viewers, ending) = handle_ws_flv relay.viewers c.startup c.network in
      (
        record s' { flv_relays = put s'.flv_relays key (record relay { viewers = viewers }) },
        streamed ending,
      )

  unfoldable pub with_relay :
      List ℕ → Socket E → AppState F × Result E (StreamRelay F) → AppState F × Outcome
  with_relay key c (s, err e) = (s, broken)
  with_relay key c (s, ok relay) =
      let (relay', written, admitted) = handle_ws_encrypted relay c.first_ok c.messages in
      (record s { relays = put s.relays key relay' }, encrypted written admitted)

  -- `handle_ws_encrypted_mode`, with the relay of the table.
  unfoldable pub serve_ws_encrypted : AppState F → List ℕ → Socket E → AppState F × Outcome
  unfolding with_relay
  serve_ws_encrypted s key c = with_relay key c (get_or_create_relay s key c.fresh_key)

  unfoldable pub route_socket : AppState F → Socket E → WsRoute → AppState F × Outcome
  route_socket s c closed = (s, hung_up)
  route_socket s c failed = (s, broken)
  route_socket s c missing_stream_key = (s, no_key)
  route_socket s c (flv_mode key) = serve_ws_flv s key c
  route_socket s c (encrypted_mode key) = serve_ws_encrypted s key c

  unfoldable pub handle_websocket : AppState F → Socket E → AppState F × Outcome
  unfolding route_socket
  handle_websocket s c =
      if not c.accepted then (s, broken) else route_socket s c (ws_route c.handshake)

  -- `n` is the number of rounds for the loop over the header lines of an HTTP-FLV request.
  unfoldable pub by_kind : ℕ → Library → AppState F → Connection E → Kind → AppState F × Outcome
  by_kind n lib s c websocket = handle_websocket s c.socket
  by_kind n lib s c http_flv = let (s', outcome) = visit_flv n s c.visit in (s', flv outcome)
  by_kind n lib s c plain_http =
      (s, pages (map (λ r. handle_http_request lib s r.0 r.1) c.requests))

  unfoldable pub peeked_at :
      ℕ → Library → AppState F → Connection E → Option (List ℕ) → AppState F × Outcome
  unfolding by_kind
  peeked_at n lib s c none = (s, broken)
  peeked_at n lib s c (some peek_str) = by_kind n lib s c (connection_kind peek_str)

  unfoldable pub handle_connection : ℕ → Library → AppState F → Connection E → AppState F × Outcome
  unfolding peeked_at
  handle_connection n lib s c = peeked_at n lib s c c.peeked
