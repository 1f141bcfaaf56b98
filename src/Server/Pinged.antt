-- ===== src/Server/Pinged.antt =====
-- The mesh ping of agent-rust/src/relay/cascade_selector.rs against the HTTP server of
-- agent-rust/src/main.rs: what an agent answers when another one probes the URL that it pulls from.
use live_cdn.Common.{
  ℕ, ◌≡◌, refl, Bool, true, false, ◌&&◌, Option, none, some, List, [], ◌∷◌, ◌++◌, codes, has_text,
  split_by, onto_first, line_list, strip_suffix, ◌==◌, same, Bool-cases, Option-cases, inl, inr,
}
use live_cdn.Disguise.{is_disguise_path, serve_disguise}
use live_cdn.Cascade.{Float, MeshMapResponse, CascadePath, CascadeSelector}
use live_cdn.Cascade.Score.{Locks}
use live_cdn.Cascade.Switch.{emergency_switch}
use live_cdn.Cascade.Ping.{mesh_ping, probe_all, run_mesh_ping}
use live_cdn.Cascade.Pinged.{is_probed, run_mesh_ping-switches}
use live_cdn.Server.{AppState, flv_line, is_flv_request, connection_kind, plain_http}
use live_cdn.Server.Http.{Library, other_method, handle_http_request}
use live_cdn.Server.Connections.{Connection, Outcome, pages, handle_connection, peeked_at, by_kind}

-- The path that agents pull a stream from, and a HEAD request for it.
abbrev pub cascade_path : List ℕ → List ℕ
cascade_path name = codes "/cascade/" ++ name

abbrev pub head_request : List ℕ → List ℕ → List ℕ
head_request path headers = codes "HEAD " ++ (path ++ (codes " HTTP/1.1\r\n" ++ headers))

false-right : (b : Bool) → (b && false) ≡ false
false-right true = refl
false-right false = refl

-- A line that starts with an H is no request for FLV.
flv_line-h : (s : List ℕ) (rest : List (List ℕ)) → flv_line ((72 ∷ s) ∷ rest) ≡ false
flv_line-h s rest = false-right (has_text (72 ∷ s) (codes ".flv"))

flv_line-line_list : (ps : List (List ℕ)) → flv_line (line_list (onto_first 72 ps)) ≡ false
flv_line-line_list [] = refl
flv_line-line_list (p ∷ []) = flv_line-h p []
flv_line-line_list (p ∷ q ∷ ps) = elim (Option-cases (strip_suffix p (13 ∷ []))) [
  | inl e ↦ rw e (flv_line-h p (line_list (q ∷ ps)))
  | inr (r, e) ↦ rw e (flv_line-h r (line_list (q ∷ ps)))
]

is_flv_request-h : (s : List ℕ) → is_flv_request (72 ∷ s) ≡ false
unfolding is_flv_request split_by
is_flv_request-h s = flv_line-line_list (split_by (λ c. c == 10) s)

-- The answer to a HEAD request for a stream that agents pull, whatever the agent's state.
handle_http_request-cascade :
    {F : Type 0} (lib : Library) (s : AppState F) (name : List ℕ)
    → (handle_http_request lib s other_method (cascade_path name)).status ≡ 404
unfolding handle_http_request serve_disguise
handle_http_request-cascade lib s name =
    let path : List ℕ = cascade_path name in
    elim (Bool-cases (is_disguise_path path)) [
      | inl e ↦ rw (e, false-right (same path (s.config).ws_path)) refl
      | inr e ↦ rw (e, false-right (same path (s.config).ws_path)) refl
    ]

-- The status of the answer, if there is one.
abbrev pub status_of : Outcome → Option ℕ
status_of (pages (r ∷ [])) = some r.status
status_of other = none

-- An agent that is probed: its state, the stream's name in the URL, the request's headers, and how
-- long the answer takes.
pub record Neighbour (F : Type 0) : Type 0 where
  pub state : AppState F
  pub name : List ℕ
  pub headers : List ℕ
  pub millis : ℕ

abbrev pub ping_request : {F : Type 0} → Neighbour F → List ℕ
ping_request a = head_request (cascade_path a.name) a.headers

abbrev pub timed : Option ℕ → ℕ → Option (ℕ × ℕ)
timed none ms = none
timed (some status) ms = some (status, ms)

-- The connection that a probe makes, the rest of which is never looked at.
abbrev pub ping_connection : {F E : Type 0} → Connection E → Neighbour F → Connection E
ping_connection base a = record base {
  peeked = some (ping_request a);
  requests = (other_method, cascade_path a.name) ∷ [];
}

module _ {F E : Type 0} (n : ℕ) (lib : Library) (base : Connection E) where
  -- What a probe of the agent measures.
  abbrev pub probe : Neighbour F → ℕ
  probe a =
      mesh_ping
        (timed (status_of (handle_connection n lib a.state (ping_connection base a)).1) a.millis)

  -- The request asks for no WebSocket.
  pub record IsPlain (a : Neighbour F) : Type 0 where
    pub lower : has_text (ping_request a) (codes "Upgrade: websocket") ≡ false
    pub upper : has_text (ping_request a) (codes "Upgrade: WebSocket") ≡ false

  ping_request-kind : (a : Neighbour F) → IsPlain a → connection_kind (ping_request a) ≡ plain_http
  unfolding connection_kind
  ping_request-kind a plain = rw (plain.lower, plain.upper, is_flv_request-h _) refl

  probe-fails : (a : Neighbour F) → IsPlain a → probe a ≡ 9999
  unfolding handle_connection peeked_at by_kind
  probe-fails a plain =
      rw (ping_request-kind a plain, handle_http_request-cascade lib a.state a.name) refl

-- Where every candidate is an agent, whatever state each of them is in, and probes ask for no
-- WebSocket: a HEAD request for a URL under `/cascade/` is answered 404, so no upstream ever passes
-- for reachable, and each round of the mesh ping in which the upstream is probed ends in an emergency
-- switch, however well the upstream serves.
pub run_mesh_ping-agents :
    {F E : Type 0} (n : ℕ) (lib : Library) (base : Connection E) (agents : List ℕ → Neighbour F)
    (R : Float) (s : CascadeSelector R.Carrier) (now : ℕ) (locks : Locks)
    (resp : MeshMapResponse R.Carrier) (path : CascadePath R.Carrier)
    → ((url : List ℕ) → IsPlain n lib base (agents url))
    → s.last_mesh_response ≡ some resp
    → s.current_path ≡ some path
    → is_probed path.upstream_node_id resp.candidate_upstreams ≡ true
    → let ping = λ (url : List ℕ). probe n lib base (agents url) in
      run_mesh_ping R s now locks ping
      ≡ emergency_switch R
          (record s { probe_results = probe_all now ping resp.candidate_upstreams s.probe_results })
          now
          locks
run_mesh_ping-agents n lib base agents R s now locks resp path plain known current among =
    run_mesh_ping-switches R s now locks (λ url. probe n lib base (agents url)) resp path
      (λ url. probe-fails n lib base (agents url) (plain url)) known current among
