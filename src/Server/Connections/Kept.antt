-- ===== src/Server/Connections/Kept.antt =====
-- The tables of relays over whole connections of every kind.
use live_cdn.Common.{
  ℕ, ◌≤◌, ◌≡◌, ◌∙◌, refl, sym, ap, subst, Bool, ◌&&◌, not, Option, none, some, List, [], ◌∷◌, ◌++◌,
  is_nil, same, arith, length, Bool-cases, Option-cases, inl, inr, Result, ok, err,
}
use live_cdn.Config.{Config, origin_hls_url}
use live_cdn.Crypto.{KeyInfo}
use live_cdn.StreamRelay.{
  StreamRelay, new_relay, start, add_client, remove_client, record_bytes_sent, latest_m3u8,
}
use live_cdn.Flv.{FlvTagPacket}
use live_cdn.Viewer.{Network, handle_ws_flv}
use live_cdn.Viewer.Clients.{handle_ws_flv-clients}
use live_cdn.Server.{
  AppState, FlvPuller, Kind, websocket, http_flv, plain_http, get, get_or_create_flv_relay,
  get_or_create_relay, new_hls_relay, connection_kind, parse_stream_key_from_url,
}
use live_cdn.Server.Request.{put, Visit, after_headers, visit_flv}
use live_cdn.Server.Entries.{AreEntries, get-AreEntries, put-AreEntries}
use live_cdn.Server.Tables.{IsEntry, IsTable, IsGiven, get_or_create-IsGiven, after_headers-IsKept}
use live_cdn.Server.Http.{Library}
use live_cdn.Server.Socket.{
  WsRoute, closed, failed, missing_stream_key, flv_mode, encrypted_mode, ws_route, Message,
  send_all, first_message, handle_ws_encrypted, handle_ws_encrypted-clients,
}
use live_cdn.Server.Connections.{
  Socket, Connection, serve_ws_flv, with_relay, serve_ws_encrypted, route_socket, handle_websocket,
  by_kind, peeked_at, handle_connection,
}
use live_cdn.Server.LogLines.{connection_panics, handle_all}

viewed-IsEntry :
    (limit : ℕ) (key : List ℕ) (p : FlvPuller) (startup : List FlvTagPacket) (net : Network)
    → IsEntry limit key p
    → IsEntry limit key (record p { viewers = (handle_ws_flv p.viewers startup net).0 })
viewed-IsEntry limit key p startup net i =
    let (count, maximum) = handle_ws_flv-clients p.viewers startup net in
    record {
      own = i.own;
      maximum = maximum ∙ i.maximum;
      within = subst (λ n. n ≤ limit) (sym count) i.within;
    }

module _ {F : Type 0} where
  -- The m3u8 relay of a stream in the table of an agent with these settings.
  pub record IsHlsEntry (c : Config) (key : List ℕ) (r : StreamRelay F) : Type 0 where
    pub own : r.origin_m3u8_url ≡ origin_hls_url c key
    pub maximum : r.max_clients ≡ c.max_clients
    pub within : r.client_count ≤ c.max_clients

  -- Both tables, under the settings that the agent started with.
  pub record IsServed (c : Config) (s : AppState F) : Type 0 where
    pub config : s.config ≡ c
    pub flv : IsTable c.max_clients s.flv_relays
    pub hls : AreEntries (IsHlsEntry c) s.relays

  send_all-origin :
      (ms : List Message) (r : StreamRelay F) (written : List (List ℕ))
      → (send_all r ms written).0.origin_m3u8_url ≡ r.origin_m3u8_url
  unfolding send_all record_bytes_sent
  send_all-origin [] r written = refl
  send_all-origin (m ∷ ms) r written = ground (
    arith,
    send_all-origin ms (record_bytes_sent r (length m.data_bytes)) (written ++ m.data_bytes ∷ []),
  )

  handle_ws_encrypted-origin :
      (r : StreamRelay F) (first_ok : Bool) (ms : List Message)
      → (handle_ws_encrypted r first_ok ms).0.origin_m3u8_url ≡ r.origin_m3u8_url
  unfolding handle_ws_encrypted add_client remove_client
  handle_ws_encrypted-origin r first_ok ms = ground (
    arith,
    send_all-origin ms (add_client r).0 (first_message (latest_m3u8 (add_client r).0) first_ok),
  )

  viewed-IsHlsEntry :
      (c : Config) (key : List ℕ) (r : StreamRelay F) (first_ok : Bool) (ms : List Message)
      → IsHlsEntry c key r
      → IsHlsEntry c key (handle_ws_encrypted r first_ok ms).0
  viewed-IsHlsEntry c key r first_ok ms i =
      let (count, maximum, admitted) = handle_ws_encrypted-clients r first_ok ms in
      record {
        own = handle_ws_encrypted-origin r first_ok ms ∙ i.own;
        maximum = maximum ∙ i.maximum;
        within = subst (λ n. n ≤ c.max_clients) (sym count) i.within;
      }

  fresh-IsHlsEntry :
      (c : Config) (key : List ℕ) (info : KeyInfo) → IsHlsEntry c key (new_hls_relay c key info)
  unfolding new_relay start
  fresh-IsHlsEntry c key info = record { own = refl; maximum = refl; within = omega arith }

  -- What a request for an HTTP-FLV relay leaves as it was.
  abbrev SameRest : AppState F → AppState F → Type 0
  SameRest s s' = (s'.config ≡ s.config) × (s'.relays ≡ s.relays)

  get_or_create_flv-rest :
      (s : AppState F) (key : List ℕ) (upstream : Option (List ℕ))
      → SameRest s (get_or_create_flv_relay s key upstream).0
  unfolding get_or_create_flv_relay
  get_or_create_flv-rest s key upstream = elim (Option-cases (get s.flv_relays key)) [
    | inl e ↦ rw e (refl, refl)
    | inr (p, e) ↦ rw e (refl, refl)
  ]

  after_headers-rest :
      (s : AppState F) (v : Visit) (endpoint : Bool) (o : Option Bool)
      → SameRest s (after_headers s v endpoint o).0
  after_headers-rest s v endpoint none = (refl, refl)
  after_headers-rest s v endpoint (some b) = elim (Bool-cases (endpoint && not b)) [
    | inl e ↦ rw e (refl, refl)
    | inr e ↦ rw e (elim (Bool-cases (is_nil (parse_stream_key_from_url v.request_line))) [
      | inl f ↦ rw f (refl, refl)
      | inr f ↦
          rw f (get_or_create_flv-rest s (parse_stream_key_from_url v.request_line) v.upstream)
    ])
  ]

  -- A state whose table of HTTP-FLV relays is as it should be, and whose rest is as it was.
  rejoined :
      (c : Config) (s s' : AppState F)
      → IsServed c s
      → SameRest s s'
      → IsTable c.max_clients s'.flv_relays
      → IsServed c s'
  rejoined c s s' i same t = record {
    config = same.0 ∙ i.config;
    flv = t;
    hls = subst (AreEntries (IsHlsEntry c)) (sym same.1) i.hls;
  }

  limit_of : (c : Config) (s : AppState F) → IsServed c s → s.config.max_clients ≡ c.max_clients
  limit_of c s i = ap (λ (d : Config). d.max_clients) i.config

  visit_flv-IsServed :
      (c : Config) (n : ℕ) (s : AppState F) (v : Visit)
      → IsServed c s
      → IsServed c (visit_flv n s v).0
  unfolding visit_flv
  visit_flv-IsServed c n s v i =
      rejoined c s _ i (after_headers-rest s v _ _)
        (after_headers-IsKept c.max_clients s v _ _ (limit_of c s i, i.flv)).1

  module _ {E : Type 0} (c : Config) where
    serve_ws_flv-IsServed :
        (s : AppState F) (key : List ℕ) (w : Socket E)
        → IsServed c s
        → IsServed c (serve_ws_flv s key w).0
    unfolding serve_ws_flv IsGiven
    serve_ws_flv-IsServed s key w i =
        let limit : ℕ = s.config.max_clients in
        let (m, t, e) =
          get_or_create-IsGiven s key w.upstream
            (subst (λ n. IsTable n s.flv_relays) (sym (limit_of c s i)) i.flv) in
        let (s', p) = get_or_create_flv_relay s key w.upstream in
        let q : FlvPuller = record p {
          viewers = (handle_ws_flv p.viewers w.startup w.network).0;
        } in
        rejoined c s (record s' { flv_relays = put s'.flv_relays key q }) i
          (get_or_create_flv-rest s key w.upstream)
          (subst (λ n. IsTable n (put s'.flv_relays key q)) (limit_of c s i)
            (put-AreEntries (IsEntry limit) s'.flv_relays key q t
              (viewed-IsEntry limit key p w.startup w.network e)))

    -- The relay that a viewer of the encrypted stream is given.
    IsHlsGiven : List ℕ → AppState F × Result E (StreamRelay F) → Type 0
    IsHlsGiven key (s, ok r) = IsServed c s × IsHlsEntry c key r
    IsHlsGiven key (s, err e) = IsServed c s

    get_or_create_relay-IsHlsGiven :
        (s : AppState F) (key : List ℕ) (fresh : Result E KeyInfo)
        → IsServed c s
        → IsHlsGiven key (get_or_create_relay s key fresh)
    unfolding get_or_create_relay IsHlsGiven
    get_or_create_relay-IsHlsGiven s key (err e) i = elim (Option-cases (get s.relays key)) [
      | inl g ↦ rw g i
      | inr (r, g) ↦ rw g (i, get-AreEntries (IsHlsEntry c) s.relays key r i.hls g)
    ]
    get_or_create_relay-IsHlsGiven s key (ok info) i = elim (Option-cases (get s.relays key)) [
      | inr (r, g) ↦ rw g (i, get-AreEntries (IsHlsEntry c) s.relays key r i.hls g)
      | inl g ↦
          let fresh : IsHlsEntry c key (new_hls_relay s.config key info) =
            subst (λ d. IsHlsEntry c key (new_hls_relay d key info)) (sym i.config)
              (fresh-IsHlsEntry c key info) in
          rw g (record { config = i.config; flv = i.flv; hls = (fresh, g, i.hls) }, fresh)
    ]

    with_relay-IsServed :
        (key : List ℕ) (w : Socket E) (o : AppState F × Result E (StreamRelay F))
        → IsHlsGiven key o
        → IsServed c (with_relay key w o).0
    unfolding with_relay IsHlsGiven
    with_relay-IsServed key w (s, err e) i = i
    with_relay-IsServed key w (s, ok r) i = record {
      config = (i.0).config;
      flv = (i.0).flv;
      hls =
          put-AreEntries (IsHlsEntry c) s.relays key (handle_ws_encrypted r w.first_ok w.messages).0
            (i.0).hls (viewed-IsHlsEntry c key r w.first_ok w.messages i.1);
    }

    route_socket-IsServed :
        (s : AppState F) (w : Socket E) (r : WsRoute)
        → IsServed c s
        → IsServed c (route_socket s w r).0
    unfolding route_socket serve_ws_encrypted
    route_socket-IsServed s w closed i = i
    route_socket-IsServed s w failed i = i
    route_socket-IsServed s w missing_stream_key i = i
    route_socket-IsServed s w (flv_mode key) i = serve_ws_flv-IsServed s key w i
    route_socket-IsServed s w (encrypted_mode key) i =
        with_relay-IsServed key w (get_or_create_relay s key w.fresh_key)
          (get_or_create_relay-IsHlsGiven s key w.fresh_key i)

    by_kind-IsServed :
        (n : ℕ) (lib : Library) (s : AppState F) (d : Connection E) (k : Kind)
        → IsServed c s
        → IsServed c (by_kind n lib s d k).0
    unfolding by_kind handle_websocket
    by_kind-IsServed n lib s d websocket i = elim (Bool-cases (d.socket).accepted) [
      | inl e ↦ simp e (route_socket-IsServed s d.socket (ws_route (d.socket).handshake) i)
      | inr e ↦ simp e i
    ]
    by_kind-IsServed n lib s d http_flv i = visit_flv-IsServed c n s d.visit i
    by_kind-IsServed n lib s d plain_http i = i

    pub handle_connection-IsServed :
        (n : ℕ) (lib : Library) (s : AppState F) (d : Connection E)
        → IsServed c s
        → IsServed c (handle_connection n lib s d).0
    unfolding handle_connection peeked_at
    handle_connection-IsServed n lib s d i = elim (Option-cases d.peeked) [
      | inl e ↦ rw e i
      | inr (bytes, e) ↦ rw e (by_kind-IsServed n lib s d (connection_kind bytes) i)
    ]

    connections-IsServed :
        (n : ℕ) (lib : Library) (ds : List (Connection E)) (s : AppState F)
        → IsServed c s
        → IsServed c (handle_all n lib s ds)
    unfolding handle_all
    connections-IsServed n lib [] s i = i
    connections-IsServed n lib (d ∷ ds) s i =
        let next = handle_connection-IsServed n lib s d i in
        elim (Bool-cases (connection_panics n s d)) [
          | inl e ↦ rw (handle_all, e) next
          | inr e ↦
              rw (handle_all, e)
                (connections-IsServed n lib ds (handle_connection n lib s d).0 next)
        ]

-- Whatever connections come, one after the other and of every kind (HTTP-FLV, both modes of
-- WebSocket, plain HTTP), up to one that ends the agent by a log line that panics, to an agent that
-- starts without relays: the settings stay, every stream has at most one relay of each kind, this
-- relay is the stream's own, and it counts at most as many viewers as the settings allow.
pub handle_all-IsServed :
    {F E : Type 0} (n : ℕ) (lib : Library) (s : AppState F) (ds : List (Connection E))
    → s.flv_relays ≡ []
    → s.relays ≡ []
    → IsServed s.config (handle_all n lib s ds)
handle_all-IsServed n lib s ds no_flv no_hls = connections-IsServed s.config n lib ds s (record {
  config = refl;
  flv = subst (IsTable s.config.max_clients) (sym no_flv) tt;
  hls = subst (AreEntries (IsHlsEntry s.config)) (sym no_hls) tt;
})
