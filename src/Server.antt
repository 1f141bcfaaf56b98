-- ===== src/Server.antt =====
-- The agent's side of a connection in agent-rust/src/main.rs: the kind of the connection, the
-- request of an HTTP-FLV viewer, the tables of relays and the HTTP responses.
pub mod Request
pub mod Headers
pub mod Entries
pub mod Tables
pub mod Keys
pub mod Socket
pub mod Heartbeat
pub mod Http
pub mod Connections
pub mod LogLines
pub mod Node
pub mod Pinged
pub mod Hls
mod Tests
use live_cdn.Common.{
  ℕ, zero, suc, ◌+◌, ◌<◌, Bool, true, false, ◌&&◌, ◌||◌, not, Option, none, some, List, [], ◌∷◌,
  ◌++◌, map, keep, length, if◌then◌else◌, ◌==◌, ltb, leb, codes, is_nil, same, has_text,
  starts_with, ends_with, split_by, split_whitespace, trim_start_matches, trim_end_matches, lines,
  replace, Result, ok, err,
}
use live_cdn.Config.{Config, origin_flv_url, origin_hls_url, is_cascade_node}
use live_cdn.Crypto.{KeyInfo}
use live_cdn.StreamRelay.{StreamRelay, new_relay, latest_m3u8, start}
use live_cdn.Viewer.{Relay}
use live_cdn.Disguise.{Response, is_disguise_path, serve_disguise}

-- `handle_connection`: what the first bytes of a connection show.
pub data Kind : Type 0 where
  websocket http_flv plain_http : Kind

abbrev pub flv_line : List (List ℕ) → Bool
flv_line [] = false
flv_line (line ∷ rest) =
    has_text line (codes ".flv")
    && (starts_with line (codes "GET")
        && (has_text line (codes "/live/") || has_text line (codes "/cascade/")))

unfoldable pub is_flv_request : List ℕ → Bool
is_flv_request peek_str = flv_line (lines peek_str)

unfoldable pub connection_kind : List ℕ → Kind
connection_kind peek_str =
    if has_text peek_str (codes "Upgrade: websocket")
      || has_text peek_str (codes "Upgrade: WebSocket")
    then websocket
    else if is_flv_request peek_str
    then http_flv
    else plain_http

abbrev key_of : List (List ℕ) → List ℕ
key_of [] = []
key_of (method ∷ []) = []
key_of (method ∷ url ∷ rest) =
    trim_start_matches (trim_start_matches (trim_end_matches url (codes ".flv")) (codes "/live/"))
      (codes "/cascade/")

unfoldable pub parse_stream_key_from_url : List ℕ → List ℕ
parse_stream_key_from_url request_line = key_of (split_whitespace request_line)

-- The HTTP-FLV relay, as far as its owner sets it; the stream is `Puller`'s and `Viewer`'s.
pub record FlvPuller : Type 0 where
  pub stream_key : List ℕ
  pub flv_url : List ℕ
  pub backup_flv_url : Option (List ℕ)
  pub viewers : Relay
  pub running : Bool

unfoldable pub with_backup : List ℕ → List ℕ → Option (List ℕ) → ℕ → FlvPuller
with_backup stream_key flv_url backup_flv_url max_clients = record {
  stream_key = stream_key;
  flv_url = flv_url;
  backup_flv_url = backup_flv_url;
  viewers = record { client_count = 0; max_clients = max_clients; bytes_sent = 0 };
  running = false;
}

-- `FlvPuller::new`, which the agent does not call.
unfoldable without_backup : List ℕ → List ℕ → ℕ → FlvPuller
unfolding with_backup
without_backup stream_key flv_url max_clients = with_backup stream_key flv_url none max_clients

-- `AppState` without the disguise and the selector of upstreams, whose state is its own.
pub record AppState (F : Type 0) : Type 0 where
  pub config : Config
  pub relays : List (List ℕ × StreamRelay F)
  pub flv_relays : List (List ℕ × FlvPuller)

abbrev pub get {ℓ} : {A : Type ℓ} → List (List ℕ × A) → List ℕ → Option A
get [] key = none
get ((k, a) ∷ rest) key = let later = get rest key in if same k key then some a else later

abbrev filled : List ℕ → Option (List ℕ) → Option (List ℕ)
filled key none = none
filled key (some url) = some (replace url (codes "{stream_key}") key)

abbrev upstream_or_origin : Config → List ℕ → Option (List ℕ) → List ℕ
upstream_or_origin c key none = origin_flv_url c key
upstream_or_origin c key (some upstream) = replace upstream (codes "{stream_key}") key

-- A relay that is not in the table yet, started.
abbrev pub new_flv_relay : Config → List ℕ → Option (List ℕ) → FlvPuller
new_flv_relay c key upstream =
    record (with_backup key (upstream_or_origin c key upstream) (filled key c.backup_origin_url)
      c.max_clients) { running = true }

module _ {F : Type 0} where
  abbrev found_flv :
      AppState F → List ℕ → Option (List ℕ) → Option FlvPuller → AppState F × FlvPuller
  found_flv s key upstream (some relay) = (s, relay)
  found_flv s key upstream none =
      let relay = new_flv_relay s.config key upstream in
      (record s { flv_relays = (key, relay) ∷ s.flv_relays }, relay)

  -- With what the selector answers for the current upstream.
  unfoldable pub get_or_create_flv_relay :
      AppState F → List ℕ → Option (List ℕ) → AppState F × FlvPuller
  get_or_create_flv_relay s key upstream = found_flv s key upstream (get s.flv_relays key)

  abbrev pub new_hls_relay : Config → List ℕ → KeyInfo → StreamRelay F
  new_hls_relay c key key_info =
      (start (new_relay (origin_hls_url c key) key_info c.max_clients c.buffer_segments)).0

  abbrev created :
      {E : Type 0} → AppState F → List ℕ → Result E KeyInfo → AppState F × Result E (StreamRelay F)
  created s key (err e) = (s, err e)
  created s key (ok key_info) =
      let relay = new_hls_relay s.config key key_info in
      (record s { relays = (key, relay) ∷ s.relays }, ok relay)

  abbrev found_hls :
      {E : Type 0}
      → AppState F
      → List ℕ
      → Result E KeyInfo
      → Option (StreamRelay F)
      → AppState F × Result E (StreamRelay F)
  found_hls s key fresh (some relay) = (s, ok relay)
  found_hls s key fresh none = created s key fresh

  -- With the key that would be made, or the error of making one.
  unfoldable pub get_or_create_relay :
      {E : Type 0} → AppState F → List ℕ → Result E KeyInfo → AppState F × Result E (StreamRelay F)
  get_or_create_relay s key fresh = found_hls s key fresh (get s.relays key)
