-- ===== src/Server/Http.antt =====
-- The HTTP responses of the agent, and what it tells the controller: `handle_http_request`,
-- `handle_hls`, `register_with_controller` and one round of `heartbeat_loop` of
-- agent-rust/src/main.rs. The blog's text, base64 and JSON are parameters.
use live_cdn.Common.{
  ℕ, ◌+◌, Bool, true, false, ◌&&◌, not, Option, none, some, List, [], ◌∷◌, keep, length,
  if◌then◌else◌, ◌==◌, codes, is_nil, same, starts_with, ends_with, split_by,
}
use live_cdn.Config.{is_cascade_node}
use live_cdn.StreamRelay.{StreamRelay, latest_m3u8}
use live_cdn.Disguise.{Response, is_disguise_path, serve_disguise}
use live_cdn.Server.{AppState, FlvPuller, get}

-- The answer of `/health`.
pub record Health : Type 0 where
  pub node_id : List ℕ
  pub active_relays : ℕ
  pub flv_count : ℕ
  pub users : ℕ
  pub ipv6 : Bool
  pub cascade_enabled : Bool
  pub cascade_upstream : Bool

pub record Library : Type 0 where
  pub blog : List ℕ
  pub base64_encode : List ℕ → List ℕ
  pub json : Health → List ℕ

pub data Method : Type 0 where
  get_method other_method : Method

abbrev is_get : Method → Bool
is_get get_method = true
is_get other_method = false

abbrev pub text : ℕ → List ℕ → Response
text status body = record { status = status; headers = []; body = body }

abbrev typed : ℕ → List ℕ → List ℕ → Response
typed status content_type body = record {
  status = status;
  headers = (codes "Content-Type", content_type) ∷ [];
  body = body;
}

abbrev pub flv_users : List (List ℕ × FlvPuller) → ℕ
flv_users [] = 0
flv_users ((k, p) ∷ rest) = (p.viewers).client_count + flv_users rest

abbrev pub playlist_response : Library → Option (List ℕ) → Response
playlist_response lib none = text 503 (codes "No data yet")
playlist_response lib (some d) = record {
  status = 200;
  headers =
      (codes "Content-Type", codes "application/vnd.apple.mpegurl")
      ∷ (codes "Cache-Control", codes "no-cache")
      ∷ (codes "Access-Control-Allow-Origin", codes "*")
      ∷ (codes "X-LiveCDN-Encrypted", codes "true")
      ∷ [];
  body = lib.base64_encode d;
}

abbrev pub parts : List ℕ → List (List ℕ)
parts path = keep (λ p. not (is_nil p)) (split_by (λ c. c == 47) path)

abbrev pub disguised : Option Response → Response → Response
disguised none r = r
disguised (some page) r = page

module _ {F : Type 0} where
  abbrev pub hls_users : List (List ℕ × StreamRelay F) → ℕ
  hls_users [] = 0
  hls_users ((k, r) ∷ rest) = r.client_count + hls_users rest

  abbrev pub health : AppState F → Health
  health s = record {
    node_id = (s.config).node_id;
    active_relays = length s.relays;
    flv_count = length s.flv_relays;
    users = hls_users s.relays + flv_users s.flv_relays;
    ipv6 = not (is_nil (s.config).public_ipv6);
    cascade_enabled = (s.config).cascade_enabled;
    cascade_upstream = is_cascade_node s.config;
  }

  abbrev pub relay_response : Library → List ℕ → Option (StreamRelay F) → Response
  relay_response lib filename none = text 404 (codes "Stream not found")
  relay_response lib filename (some r) =
      if ends_with filename (codes ".m3u8")
      then playlist_response lib (latest_m3u8 r)
      else typed 404 (codes "text/plain") (codes "Use WebSocket for stream data")

  abbrev pub parts_response : Library → AppState F → List (List ℕ) → Response
  parts_response lib s [] = text 404 (codes "Not Found")
  parts_response lib s (a ∷ []) = text 404 (codes "Not Found")
  parts_response lib s (a ∷ b ∷ []) = text 404 (codes "Not Found")
  parts_response lib s (a ∷ stream_key ∷ filename ∷ rest) =
      relay_response lib filename (get s.relays stream_key)

  unfoldable pub handle_hls : Library → AppState F → List ℕ → Response
  handle_hls lib s path = parts_response lib s (parts path)

  abbrev pub undisguised : Library → AppState F → Method → List ℕ → Response
  undisguised lib s method path =
      if same path (s.config).ws_path && is_get method
      then typed 426 (codes "text/plain") (codes "WebSocket upgrade required")
      else if starts_with path (codes "/live/")
      then handle_hls lib s path
      else if same path (codes "/health")
      then typed 200 (codes "application/json") (lib.json (health s))
      else typed 404 (codes "text/html")
          (codes "<html><body><h1>404 Not Found</h1><p><a href=\"/\">Go Home</a></p></body></html>")

  unfoldable pub handle_http_request : Library → AppState F → Method → List ℕ → Response
  handle_http_request lib s method path =
      let other = undisguised lib s method path in
      if is_disguise_path path then disguised (serve_disguise lib.blog path) other else other
