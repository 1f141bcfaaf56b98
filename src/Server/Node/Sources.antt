-- ===== src/Server/Node/Sources.antt =====
-- The URLs that relays pull from, over one connection of any kind.
use live_cdn.Common.{
  ℕ, ◌≡◌, ◌∙◌, refl, sym, ap, subst, ◌⊎◌, inl, inr, Bool, ◌&&◌, not, Option, none, some, List, [],
  ◌∷◌, is_nil, same, same_refl, same_equal, Bool-cases, Option-cases, Result, ok, err,
}
use live_cdn.Config.{Config}
use live_cdn.Crypto.{KeyInfo}
use live_cdn.StreamRelay.{StreamRelay}
use live_cdn.Server.{
  AppState, FlvPuller, Kind, websocket, http_flv, plain_http, get, get_or_create_flv_relay,
  get_or_create_relay, new_flv_relay, connection_kind, parse_stream_key_from_url,
}
use live_cdn.Server.Request.{put, Visit, after_headers, visit_flv}
use live_cdn.Server.Http.{Library}
use live_cdn.Server.Socket.{
  WsRoute, closed, failed, missing_stream_key, flv_mode, encrypted_mode, ws_route,
}
use live_cdn.Server.Connections.{
  Socket, Connection, serve_ws_flv, with_relay, serve_ws_encrypted, route_socket, handle_websocket,
  by_kind, peeked_at, handle_connection,
}
use live_cdn.Server.Node.{with_upstream}

-- The two URLs that a relay pulls from, the stream's and its backup.
abbrev pub sources : Option FlvPuller → Option (List ℕ × Option (List ℕ))
sources none = none
sources (some p) = some (p.flv_url, p.backup_flv_url)

abbrev Table : Type 0
Table = List (List ℕ × FlvPuller)

pub some_ne_none : {A : Type 0} (a : A) → ¬ (some a ≡ none)
some_ne_none a h = cc

pub sources-none : (o : Option FlvPuller) → sources o ≡ none → o ≡ none
sources-none none h = refl
sources-none (some p) h = absurd cc

put-sources :
    (t : Table) (key other : List ℕ) (p : FlvPuller)
    → sources (get t key) ≡ sources (some p)
    → sources (get (put t key p) other) ≡ sources (get t other)
put-sources [] key other p = λ h. refl
put-sources ((k, b) ∷ rest) key other p = elim (Bool-cases (same k key)) [
  | inl e ↦
      rw (e, same_equal k key e)
        (λ h. elim (Bool-cases (same key other)) [ inl f ↦ rw f (sym h) | inr f ↦ rw f refl ])
  | inr e ↦ rw e (λ h. elim (Bool-cases (same k other)) [
    | inl f ↦ rw f refl
    | inr f ↦ rw f (put-sources rest key other p h)
  ])
]

-- Every stream's relay pulls from where it did, or is a new one, for this upstream.
unfoldable pub Grows : Config → Option (List ℕ) → Table → Table → Type 0
Grows c upstream t t' =
    (k : List ℕ)
    → (sources (get t' k) ≡ sources (get t k))
      ⊎ ((get t k ≡ none) × (sources (get t' k) ≡ sources (some (new_flv_relay c k upstream))))

module _ {F : Type 0} where
  -- A relay is looked up or made, and put back after its viewers have changed.
  served-Grows :
      (s : AppState F) (key : List ℕ) (upstream : Option (List ℕ)) (q : FlvPuller)
      → sources (some q) ≡ sources (some (get_or_create_flv_relay s key upstream).1)
      → Grows s.config upstream s.flv_relays
          (put (get_or_create_flv_relay s key upstream).0.flv_relays key q)
  unfolding Grows get_or_create_flv_relay
  served-Grows s key upstream q = elim (Option-cases (get s.flv_relays key)) [
    | inl e ↦
        rw (e, same_refl key)
          (λ h k. elim (Bool-cases (same key k)) [
            | inl f ↦ inr (
              subst (λ j. get s.flv_relays j ≡ none) (same_equal key k f) e,
              rw f (
                  h
                  ∙ ap (λ j. sources (some (new_flv_relay s.config j upstream)))
                      (same_equal key k f)),
            )
            | inr f ↦ inl (rw f refl)
          ])
    | inr (p, e) ↦ rw e (λ h k. inl (put-sources s.flv_relays key k q (ap sources e ∙ sym h)))
  ]

  after_headers-Grows :
      (s : AppState F) (v : Visit) (endpoint : Bool) (o : Option Bool)
      → Grows s.config v.upstream s.flv_relays (after_headers s v endpoint o).0.flv_relays
  unfolding Grows
  after_headers-Grows s v endpoint none = λ k. inl refl
  after_headers-Grows s v endpoint (some b) = elim (Bool-cases (endpoint && not b)) [
    | inl e ↦ rw e (λ k. inl refl)
    | inr e ↦ rw e (elim (Bool-cases (is_nil (parse_stream_key_from_url v.request_line))) [
      | inl f ↦ rw f (λ k. inl refl)
      | inr f ↦ rw f (served-Grows s (parse_stream_key_from_url v.request_line) v.upstream _ refl)
    ])
  ]

  module _ {E : Type 0} where
    get_or_create_relay-flv :
        (s : AppState F) (key : List ℕ) (fresh : Result E KeyInfo)
        → (get_or_create_relay s key fresh).0.flv_relays ≡ s.flv_relays
    unfolding get_or_create_relay
    get_or_create_relay-flv s key (err e) = elim (Option-cases (get s.relays key)) [
      | inl g ↦ rw g refl
      | inr (r, g) ↦ rw g refl
    ]
    get_or_create_relay-flv s key (ok info) = elim (Option-cases (get s.relays key)) [
      | inl g ↦ rw g refl
      | inr (r, g) ↦ rw g refl
    ]

    with_relay-flv :
        (key : List ℕ) (w : Socket E) (o : AppState F × Result E (StreamRelay F))
        → (with_relay key w o).0.flv_relays ≡ o.0.flv_relays
    unfolding with_relay
    with_relay-flv key w (s, err e) = refl
    with_relay-flv key w (s, ok r) = refl

    route_socket-Grows :
        (s : AppState F) (w : Socket E) (r : WsRoute)
        → Grows s.config w.upstream s.flv_relays (route_socket s w r).0.flv_relays
    unfolding Grows route_socket serve_ws_flv serve_ws_encrypted
    route_socket-Grows s w closed = λ k. inl refl
    route_socket-Grows s w failed = λ k. inl refl
    route_socket-Grows s w missing_stream_key = λ k. inl refl
    route_socket-Grows s w (flv_mode key) = served-Grows s key w.upstream _ refl
    route_socket-Grows s w (encrypted_mode key) = λ k. inl (
        ap (λ t. sources (get t k))
          (with_relay-flv key w (get_or_create_relay s key w.fresh_key)
            ∙ get_or_create_relay-flv s key w.fresh_key))

    handle_websocket-Grows :
        (s : AppState F) (w : Socket E)
        → Grows s.config w.upstream s.flv_relays (handle_websocket s w).0.flv_relays
    unfolding Grows handle_websocket
    handle_websocket-Grows s w = elim (Bool-cases w.accepted) [
      | inl e ↦ simp e (route_socket-Grows s w (ws_route w.handshake))
      | inr e ↦ simp e (λ (k : List ℕ). inl refl)
    ]

    by_kind-Grows :
        (n : ℕ) (lib : Library) (s : AppState F) (c : Connection E) (upstream : Option (List ℕ))
        (k : Kind)
        → Grows s.config upstream s.flv_relays
            (by_kind n lib s (with_upstream upstream c) k).0.flv_relays
    unfolding Grows by_kind visit_flv
    by_kind-Grows n lib s c upstream websocket =
        handle_websocket-Grows s (record c.socket { upstream = upstream })
    by_kind-Grows n lib s c upstream http_flv =
        after_headers-Grows s (record c.visit { upstream = upstream }) _ _
    by_kind-Grows n lib s c upstream plain_http = λ k. inl refl

    pub handle_connection-Grows :
        (n : ℕ) (lib : Library) (s : AppState F) (c : Connection E) (upstream : Option (List ℕ))
        → Grows s.config upstream s.flv_relays
            (handle_connection n lib s (with_upstream upstream c)).0.flv_relays
    unfolding Grows handle_connection peeked_at
    handle_connection-Grows n lib s c upstream = elim (Option-cases c.peeked) [
      | inl e ↦ rw e (λ k. inl refl)
      | inr (bytes, e) ↦ rw e (by_kind-Grows n lib s c upstream (connection_kind bytes))
    ]
