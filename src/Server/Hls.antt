-- ===== src/Server/Hls.antt =====
-- The playlist of a stream over HTTP.
use live_cdn.Common.{
  ℕ, ◌≡◌, ◌∙◌, refl, sym, ap, Bool, true, false, Option, none, some, List, [], ◌∷◌, ◌++◌,
  if◌then◌else◌, is_nil, same, codes, ends_with, split_by, split_by-append, split_by-none_of,
  none_of, ◌==◌, subst, All, ◌⊎◌, inl, inr,
}
use live_cdn.StreamRelay.{StreamRelay, CachedSegment, SegType, m3u8, ts, newest, latest_m3u8}
use live_cdn.Disguise.{is_disguise_path, serve_disguise, Response}
use live_cdn.Server.{AppState, get}
use live_cdn.Server.Http.{
  Library, Method, parts, parts_response, relay_response, undisguised, disguised, handle_hls,
  handle_http_request,
}

-- A part of a path.
abbrev pub has_no_slash : List ℕ → Bool
has_no_slash s = none_of (λ c. c == 47) s

seg_type_cases : (t : SegType) → (t ≡ m3u8) ⊎ (t ≡ ts)
seg_type_cases m3u8 = inl refl
seg_type_cases ts = inr refl

module _ {F : Type 0} where
  abbrev IsTs : CachedSegment F → Type 0
  IsTs c = c.seg_type ≡ ts

  -- A segment of the cache with its place: it is a playlist, and none comes after it.
  pub record IsLast (segments : List (CachedSegment F)) (c : CachedSegment F) : Type 0 where
    pub front : List (CachedSegment F)
    pub back : List (CachedSegment F)
    pub whole : segments ≡ front ++ c ∷ back
    pub playlist : c.seg_type ≡ m3u8
    pub none_later : All IsTs back

  -- What a client sees of the answer, by the cache of the stream's relay, if there is one: 404 without
  -- a relay, 503 without a playlist, and else 200 and the last playlist.
  pub IsAnswer : Library → Option (StreamRelay F) → Response → Type 0
  IsAnswer lib none r = (r.status ≡ 404) × (r.body ≡ codes "Stream not found")
  IsAnswer lib (some s) r =
      (All IsTs s.segments × (r.status ≡ 503) × (r.body ≡ codes "No data yet"))
      ⊎ ((c : CachedSegment F) × IsLast s.segments c
          × (r.status ≡ 200)
          × (r.body ≡ lib.base64_encode c.data_bytes))

  newest-IsLast :
      (cs : List (CachedSegment F))
      → ((newest cs ≡ none) × All IsTs cs)
        ⊎ ((c : CachedSegment F) × IsLast cs c × (newest cs ≡ some c.data_bytes))
  newest-IsLast [] = inl (refl, tt)
  newest-IsLast (c ∷ cs) = elim (newest-IsLast cs) [
    | inr (d, last, e) ↦ inr (
      d,
      record {
        front = c ∷ last.front;
        back = last.back;
        whole = ap (◌∷◌ c) last.whole;
        playlist = last.playlist;
        none_later = last.none_later;
      },
      rw e refl,
    )
    | inl (e, others) ↦ elim (seg_type_cases c.seg_type) [
      | inl p ↦ inr (
        c,
        record { front = []; back = cs; whole = refl; playlist = p; none_later = others },
        rw e (simp p refl),
      )
      | inr t ↦ inl (rw e (simp t refl), (t, others))
    ]
  ]

abbrev pub playlist_path : List ℕ → List ℕ → List ℕ
playlist_path stream_key filename = codes "/live/" ++ (stream_key ++ 47 ∷ filename)

parts-playlist_path :
    (stream_key filename : List ℕ)
    → is_nil stream_key ≡ false
    → has_no_slash stream_key ≡ true
    → is_nil filename ≡ false
    → has_no_slash filename ≡ true
    → parts (playlist_path stream_key filename) ≡ codes "live" ∷ stream_key ∷ filename ∷ []
unfolding split_by
parts-playlist_path stream_key filename n k m l =
    rw
      (
        split_by-append (λ c. c == 47) stream_key filename 47 refl k,
        split_by-none_of (λ c. c == 47) filename l,
        n,
        m,
      )
      refl

not_nil_m3u8 : (s : List ℕ) → ends_with s (codes ".m3u8") ≡ true → is_nil s ≡ false
not_nil_m3u8 [] h = sym h
not_nil_m3u8 (c ∷ s) h = refl

disguised_or_not : (b : Bool) (r : Response) → (if b then disguised none r else r) ≡ r
disguised_or_not true r = refl
disguised_or_not false r = refl

relay_response-IsAnswer :
    {F : Type 0} (lib : Library) (filename : List ℕ) (o : Option (StreamRelay F))
    → ends_with filename (codes ".m3u8") ≡ true
    → IsAnswer lib o (relay_response lib filename o)
unfolding IsAnswer latest_m3u8
relay_response-IsAnswer lib filename none e = (refl, refl)
relay_response-IsAnswer lib filename (some s) e = rw e (elim (newest-IsLast s.segments) [
  | inl (f, others) ↦ inl (others, rw f refl, rw f refl)
  | inr (c, last, f) ↦ inr (c, last, rw f refl, rw f refl)
])

-- A request for a file that ends in `.m3u8` of a stream, with a key and a name that have no slash,
-- and at a path that is not the one for WebSockets: whatever the method, the answer is 404 if the
-- stream has no relay, 503 if the relay's cache has no playlist, and else 200 with the base64 text of
-- the last playlist of the cache, the one that no other playlist comes after.
pub handle_http_request-playlist :
    {F : Type 0} (lib : Library) (s : AppState F) (method : Method) (stream_key filename : List ℕ)
    → is_nil stream_key ≡ false
    → has_no_slash stream_key ≡ true
    → has_no_slash filename ≡ true
    → ends_with filename (codes ".m3u8") ≡ true
    → same (playlist_path stream_key filename) s.config.ws_path ≡ false
    → IsAnswer lib
        (get s.relays stream_key)
        (handle_http_request lib s method (playlist_path stream_key filename))
unfolding handle_http_request handle_hls serve_disguise
handle_http_request-playlist lib s method stream_key filename n k l e w =
    let path : List ℕ = playlist_path stream_key filename in
    let relay = get s.relays stream_key in
    subst (IsAnswer lib relay)
      (sym (
        disguised_or_not (is_disguise_path path) (undisguised lib s method path)
        ∙ (rw w refl)
        ∙ ap (parts_response lib s)
            (parts-playlist_path stream_key filename n k (not_nil_m3u8 filename e) l)))
      (relay_response-IsAnswer lib filename relay e)
