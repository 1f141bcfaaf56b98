-- ===== src/Server/Tables.antt =====
-- The table of HTTP-FLV relays that the connections of an agent share.
use live_cdn.Common.{
  ℕ, ◌≤◌, ◌≡◌, ◌∙◌, refl, sym, subst, Bool, false, ◌&&◌, not, Option, none, some, List, is_nil,
  same, same_refl, arith, Bool-cases, Option-cases, inl, inr,
}
use live_cdn.Config.{Config}
use live_cdn.Viewer.{handle_http_flv}
use live_cdn.Viewer.Clients.{handle_http_flv-limit}
use live_cdn.Server.{
  AppState, FlvPuller, get, new_flv_relay, with_backup, get_or_create_flv_relay,
  parse_stream_key_from_url,
}
use live_cdn.Server.Entries.{AreEntries, get-AreEntries, put-AreEntries}
use live_cdn.Server.Request.{put, Visit, after_headers, serve_visit}

-- The relay of a stream in the table of an agent with this limit of viewers.
pub record IsEntry (limit : ℕ) (key : List ℕ) (p : FlvPuller) : Type 0 where
  pub own : p.stream_key ≡ key
  pub maximum : (p.viewers).max_clients ≡ limit
  pub within : (p.viewers).client_count ≤ limit

-- Every stream has one relay, which is its own.
abbrev pub IsTable : ℕ → List (List ℕ × FlvPuller) → Type 0
IsTable limit = AreEntries (IsEntry limit)

fresh-IsEntry :
    (c : Config) (key : List ℕ) (upstream : Option (List ℕ))
    → IsEntry c.max_clients key (new_flv_relay c key upstream)
unfolding with_backup
fresh-IsEntry c key upstream = record { own = refl; maximum = refl; within = omega arith }

-- The state after a request for a relay, and the relay.
unfoldable pub IsGiven : {F : Type 0} → List ℕ → ℕ → AppState F × FlvPuller → Type 0
IsGiven key limit (s, p) =
    (s.config.max_clients ≡ limit) × IsTable limit s.flv_relays × IsEntry limit key p

pub get_or_create-IsGiven :
    {F : Type 0} (s : AppState F) (key : List ℕ) (upstream : Option (List ℕ))
    → IsTable s.config.max_clients s.flv_relays
    → IsGiven key s.config.max_clients (get_or_create_flv_relay s key upstream)
unfolding get_or_create_flv_relay IsGiven
get_or_create-IsGiven s key upstream i = elim (Option-cases (get s.flv_relays key)) [
  | inl e ↦
      rw e (refl, (fresh-IsEntry s.config key upstream, e, i), fresh-IsEntry s.config key upstream)
  | inr (p, e) ↦
      rw e (refl, i, get-AreEntries (IsEntry s.config.max_clients) s.flv_relays key p i e)
]

-- The table, and the limit that it keeps.
abbrev pub IsKept : {F : Type 0} → ℕ → AppState F → Type 0
IsKept limit s = (s.config.max_clients ≡ limit) × IsTable limit s.flv_relays

viewed-IsEntry :
    (limit : ℕ) (key : List ℕ) (p : FlvPuller) (v : Visit)
    → IsEntry limit key p
    → IsEntry limit key (record p { viewers = (handle_http_flv p.viewers v.startup v.network).0 })
viewed-IsEntry limit key p v i =
    let (count, maximum) =
      handle_http_flv-limit p.viewers v.startup v.network
        (subst (λ m. (p.viewers).client_count ≤ m) (sym i.maximum) i.within) in
    record {
      own = i.own;
      maximum = maximum ∙ i.maximum;
      within =
          subst (λ m. ((handle_http_flv p.viewers v.startup v.network).0).client_count ≤ m)
            i.maximum count;
    }

module _ {F : Type 0} where
  serve_visit-IsKept :
      (limit : ℕ) (s : AppState F) (key : List ℕ) (b : Bool) (v : Visit)
      → IsKept limit s
      → IsKept limit (serve_visit s key b v).0
  unfolding IsGiven
  serve_visit-IsKept limit s key b v i =
      let (m, t, e) =
        get_or_create-IsGiven s key v.upstream
          (subst (λ n. IsTable n s.flv_relays) (sym i.0) i.1) in
      let (s', p) = get_or_create_flv_relay s key v.upstream in
      let w : FlvPuller = record p {
        viewers = (handle_http_flv p.viewers v.startup v.network).0;
      } in
      (
        m ∙ i.0,
        subst (λ n. IsTable n (put s'.flv_relays key w)) i.0
            (put-AreEntries (IsEntry s.config.max_clients) s'.flv_relays key w t
              (viewed-IsEntry s.config.max_clients key p v e)),
      )

  pub after_headers-IsKept :
      (limit : ℕ) (s : AppState F) (v : Visit) (endpoint : Bool) (o : Option Bool)
      → IsKept limit s
      → IsKept limit (after_headers s v endpoint o).0
  after_headers-IsKept limit s v endpoint none i = i
  after_headers-IsKept limit s v endpoint (some b) i = elim (Bool-cases (endpoint && not b)) [
    | inl e ↦ rw e i
    | inr e ↦ rw e (elim (Bool-cases (is_nil (parse_stream_key_from_url v.request_line))) [
      | inl f ↦ rw f i
      | inr f ↦ rw f (serve_visit-IsKept limit s (parse_stream_key_from_url v.request_line) b v i)
    ])
  ]

-- A stream that has been asked for once keeps its relay: the next request for it gets the same one,
-- whatever the upstream is by then, and changes nothing; the other streams' relays stay as they were.
pub get_or_create_flv_relay-again :
    {F : Type 0} (s : AppState F) (key : List ℕ) (upstream later : Option (List ℕ))
    → (get_or_create_flv_relay (get_or_create_flv_relay s key upstream).0 key later
        ≡ get_or_create_flv_relay s key upstream)
      × ((other : List ℕ)
          → same key other ≡ false
          → get (get_or_create_flv_relay s key upstream).0.flv_relays other
            ≡ get s.flv_relays other)
unfolding get_or_create_flv_relay
get_or_create_flv_relay-again s key upstream later = elim (Option-cases (get s.flv_relays key)) [
  | inl e ↦ rw e (rw (same_refl key) refl, λ other h. rw h refl)
  | inr (p, e) ↦ rw e (rw e refl, λ other h. refl)
]
