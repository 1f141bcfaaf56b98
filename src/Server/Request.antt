-- ===== src/Server/Request.antt =====
-- `handle_http_flv_connection` of agent-rust/src/main.rs up to the stream, which `Viewer` continues.
use live_cdn.Common.{
  ℕ, zero, suc, ◌+◌, Bool, false, ◌&&◌, ◌||◌, not, Option, none, some, List, [], ◌∷◌, map, leb,
  if◌then◌else◌, codes, is_nil, same, has_text, starts_with,
}
use live_cdn.Flv.{FlvTagPacket}
use live_cdn.Viewer.{Network, Ending, handle_http_flv}
use live_cdn.Server.{AppState, get_or_create_flv_relay, parse_stream_key_from_url}

-- `to_lowercase`, as far as a comparison with ASCII letters other than k sees it.
abbrev lower_char : ℕ → ℕ
lower_char c = if leb 65 c && leb c 90 then c + 32 else c

abbrev pub is_blank : List ℕ → Bool
is_blank line = same line (codes "\r\n") || same line (codes "\n")

abbrev pub is_agent : List ℕ → Bool
is_agent line = starts_with (map lower_char line) (codes "x-livecdn-agent:")

-- The loop over the header lines, for a number of rounds: `none` is no end within them. At the end of
-- the connection `read_line` gives the empty text again and again.
unfoldable pub read_headers : ℕ → List (List ℕ) → Bool → Option Bool
read_headers zero ls is_cascade_pull = none
read_headers (suc n) [] is_cascade_pull = read_headers n [] is_cascade_pull
read_headers (suc n) (line ∷ ls) is_cascade_pull =
    let rest = read_headers n ls (is_cascade_pull || is_agent line) in
    if is_blank line then some is_cascade_pull else rest

abbrev pub has_blank : List (List ℕ) → Bool
has_blank [] = false
has_blank (line ∷ ls) = let rest = has_blank ls in is_blank line || rest

-- `served`: the relay took the viewer or refused it, with `X-LiveCDN-Cascade: true` or without.
pub data FlvOutcome : Type 0 where
  forbidden not_found unfinished : FlvOutcome
  served : Ending → Bool → FlvOutcome

abbrev pub put {ℓ} : {A : Type ℓ} → List (List ℕ × A) → List ℕ → A → List (List ℕ × A)
put [] key a = []
put ((k, b) ∷ rest) key a =
    let later = put rest key a in if same k key then (k, a) ∷ rest else (k, b) ∷ later

-- What a connection brings: its lines, the selector's upstream, and what its stream meets.
pub record Visit : Type 0 where
  pub request_line : List ℕ
  pub header_lines : List (List ℕ)
  pub upstream : Option (List ℕ)
  pub startup : List FlvTagPacket
  pub network : Network

module _ {F : Type 0} where
  -- The relay is the table's, which every viewer of the stream shares.
  abbrev pub serve_visit : AppState F → List ℕ → Bool → Visit → AppState F × FlvOutcome
  serve_visit s key is_cascade_pull v =
      let (s', relay) = get_or_create_flv_relay s key v.upstream in
      let (viewers, ending) = handle_http_flv relay.viewers v.startup v.network in
      (
        record s' { flv_relays = put s'.flv_relays key (record relay { viewers = viewers }) },
        served ending (s.config.cascade_enabled || is_cascade_pull),
      )

  abbrev pub after_headers : AppState F → Visit → Bool → Option Bool → AppState F × FlvOutcome
  after_headers s v is_cascade_endpoint none = (s, unfinished)
  after_headers s v is_cascade_endpoint (some is_cascade_pull) =
      let key = parse_stream_key_from_url v.request_line in
      if is_cascade_endpoint && not is_cascade_pull
      then (s, forbidden)
      else if is_nil key
      then (s, not_found)
      else serve_visit s key is_cascade_pull v

  unfoldable pub visit_flv : ℕ → AppState F → Visit → AppState F × FlvOutcome
  visit_flv n s v =
      let is_cascade_endpoint = has_text v.request_line (codes "/cascade/") in
      after_headers s v is_cascade_endpoint (read_headers n v.header_lines is_cascade_endpoint)
