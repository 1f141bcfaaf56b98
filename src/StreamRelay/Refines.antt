-- ===== src/StreamRelay/Refines.antt =====
-- The viewers of the m3u8 relay read what the plain relay passes on.
use live_cdn.Common.{
  ℕ, suc, ◌≡◌, ◌∙◌, refl, sym, ap, subst, Option, none, some, List, [], ◌∷◌, map, length,
  Bool-cases, Option-cases, some_injective, inl, inr, Result, ok, All, ◌==◌,
}
use live_cdn.Crypto.{Ring, KeyInfo, CryptoError, new_stream, next_seq}
use live_cdn.Crypto.Chunks.{IsAead, Run, decrypt_all}
use live_cdn.Protocol.{Frame, encode}
use live_cdn.Playlist.{Float, M3u8Info, M3u8Segment, parse_m3u8}
use live_cdn.StreamRelay.{
  StreamRelay, Fetch, Round, Library, new_relay, contains_key, remember, cache_segment,
  broadcast_data, store_segment, fetched_segment, pull_segment, pull_segments, store_playlist,
  parsed_playlist, fetched_playlist, pull_round, pull_all,
}
use live_cdn.StreamRelay.Plain.{
  Plain, new_plain, pass_on, plain_fetched, plain_segment, plain_segments, plain_parsed,
  plain_playlist, plain_all,
}
use live_cdn.StreamRelay.Step.{IsSealing, encrypt_total, counts, IsInStep, IsInStep-next}

record IsRefined {F : Type 0} (R : Ring) (k : KeyInfo) (url : List ℕ) (s : StreamRelay F)
    (p : Plain) : Type 0 where
  step : IsInStep R k s.broadcast s.encryptor s.seq_counter p.log
  hash : s.last_m3u8_hash ≡ p.seen_hash
  seen : s.fetched_urls ≡ p.seen
  origin : s.origin_m3u8_url ≡ url

abbrev pub IsNoncedFetch : Fetch → Type 0
IsNoncedFetch f = length f.nonce ≡ 12

-- The nonces have 12 bytes.
abbrev pub IsNoncedRound : Round → Type 0
IsNoncedRound r = IsNoncedFetch r.playlist × ((i : ℕ) → IsNoncedFetch (r.files i))

module _ {F : Type 0} (fl : Float F) (R : Ring) (lib : Library) (k : KeyInfo) (url : List ℕ)
    (aead : IsAead R) (sealing : IsSealing R k) where
  IsRefined-fetched :
      (s : StreamRelay F) (p : Plain) (seg : M3u8Segment F) (body : Option (List ℕ))
      (nonce : List ℕ) (t : ℕ)
      → length nonce ≡ 12
      → IsRefined R k url s p
      → IsRefined R k url
          (fetched_segment fl R lib s seg body nonce t)
          (plain_fetched fl lib url p seg body)
  unfolding cache_segment broadcast_data
  IsRefined-fetched s p seg none nonce t l i = i
  IsRefined-fetched s p seg (some body) nonce t l i =
      let (d, e) = encrypt_total R k s.encryptor nonce body sealing (i.step).key in
      subst
        (λ x.
          IsRefined R k url (store_segment fl R lib s seg t x)
            (plain_fetched fl lib url p seg (some body)))
        (sym e)
        (record {
          step =
              IsInStep-next R k s.broadcast s.encryptor s.seq_counter t p.log nonce body d aead l
                i.step e;
          hash = i.hash;
          seen = ap (λ m. remember lib m seg.url seg.seq) i.seen;
          origin = i.origin;
        })

  IsRefined-segment :
      (s : StreamRelay F) (p : Plain) (seg : M3u8Segment F) (f : Fetch)
      → IsNoncedFetch f
      → IsRefined R k url s p
      → IsRefined R k url (pull_segment fl R lib s seg f) (plain_segment fl lib url p seg f.body)
  unfolding pull_segment
  IsRefined-segment s p seg f l i = elim (Bool-cases (contains_key s.fetched_urls seg.url)) [
    | inl e ↦ rw (e, sym (ap (λ m. contains_key m seg.url) i.seen) ∙ e) i
    | inr e ↦
        rw (e, sym (ap (λ m. contains_key m seg.url) i.seen) ∙ e)
          (IsRefined-fetched s p seg f.body f.nonce f.origin_ts l i)
  ]

  IsRefined-segments :
      (s : StreamRelay F) (p : Plain) (segs : List (M3u8Segment F)) (files : ℕ → Fetch) (n : ℕ)
      → ((i : ℕ) → IsNoncedFetch (files i))
      → IsRefined R k url s p
      → IsRefined R k url
          (pull_segments fl R lib s segs files n)
          (plain_segments fl lib url p segs files n)
  unfolding pull_segments
  IsRefined-segments s p [] files n l i = i
  IsRefined-segments s p (seg ∷ segs) files n l i =
      IsRefined-segments (pull_segment fl R lib s seg (files n))
        (plain_segment fl lib url p seg (files n).body) segs files (suc n) l
        (IsRefined-segment s p seg (files n) (l n) i)

  IsRefined-parsed :
      (s s' : StreamRelay F) (p : Plain) (o : Option (M3u8Info F)) (body : List ℕ) (r : Round)
      → IsNoncedRound r
      → IsRefined R k url s p
      → parsed_playlist fl R lib s o body r ≡ some s'
      → (q : Plain) × (plain_parsed fl lib url p o body r ≡ some q) × IsRefined R k url s' q
  unfolding cache_segment broadcast_data
  IsRefined-parsed s s' p none body r l i h = absurd cc
  IsRefined-parsed s s' p (some info) body r l i h =
      let (d, e) = encrypt_total R k s.encryptor (r.playlist).nonce body sealing (i.step).key in
      let whole : store_playlist fl R lib s info r (next_seq s.encryptor, ok d) ≡ s' =
        ap (store_playlist fl R lib s info r) (sym e) ∙ some_injective h in
      (
        plain_segments fl lib url (pass_on p body) info.segments r.files 0,
        refl,
        subst
            (λ x.
              IsRefined R k url x
                (plain_segments fl lib url (pass_on p body) info.segments r.files 0))
            whole
            (IsRefined-segments _ (pass_on p body) info.segments r.files 0 l.1 (record {
              step =
                  IsInStep-next R k s.broadcast s.encryptor s.seq_counter (r.playlist).origin_ts
                    p.log (r.playlist).nonce body d aead l.0 i.step e;
              hash = i.hash;
              seen = i.seen;
              origin = i.origin;
            })),
      )

  IsRefined-playlist :
      (s s' : StreamRelay F) (p : Plain) (body : Option (List ℕ)) (r : Round)
      → IsNoncedRound r
      → IsRefined R k url s p
      → fetched_playlist fl R lib s body r ≡ some s'
      → (q : Plain) × (plain_playlist fl lib url p body r ≡ some q) × IsRefined R k url s' q
  IsRefined-playlist s s' p none r l i =
      λ h. (p, refl, subst (λ x. IsRefined R k url x p) (some_injective h) i)
  IsRefined-playlist s s' p (some body) r l i =
      let same_hash = ap (λ n. lib.hash body == n) (sym i.hash) in
      let same_info = ap (λ u. parse_m3u8 fl (lib.utf8 body) u) i.origin in
      elim (Bool-cases (lib.hash body == s.last_m3u8_hash)) [
        | inl e ↦
            rw (e, same_hash ∙ e)
              (λ h. (p, refl, subst (λ x. IsRefined R k url x p) (some_injective h) i))
        | inr e ↦
            rw (e, same_hash ∙ e, same_info)
              (IsRefined-parsed (record s { last_m3u8_hash = lib.hash body }) s'
                (record p { seen_hash = lib.hash body }) (parse_m3u8 fl (lib.utf8 body) url) body r
                l (record { step = i.step; hash = refl; seen = i.seen; origin = i.origin }))
      ]

  IsRefined-pull_all :
      (rs : List Round) (s s' : StreamRelay F) (p : Plain)
      → All IsNoncedRound rs
      → IsRefined R k url s p
      → pull_all fl R lib s rs ≡ some s'
      → (q : Plain) × (plain_all fl lib url p rs ≡ some q) × IsRefined R k url s' q
  unfolding pull_all pull_round plain_all
  IsRefined-pull_all [] s s' p l i =
      λ h. (p, refl, subst (λ x. IsRefined R k url x p) (some_injective h) i)
  IsRefined-pull_all (r ∷ rs) s s' p l i = elim (Option-cases (pull_round fl R lib s r)) [
    | inl e ↦ rw (pull_all, e) (λ h. absurd cc)
    | inr (m, e) ↦
        let (q, f, j) = IsRefined-playlist s m p (r.playlist).body r l.0 i e in
        rw (pull_all, e, plain_all, f) (IsRefined-pull_all rs m s' q l.1 j)
  ]

-- What a viewer reads who decrypts the payloads of the frames, in order, from the first on.
abbrev pub viewed : Ring → KeyInfo → List Frame → List (Result CryptoError (List ℕ))
viewed R k frames = (decrypt_all R (new_stream k) (map (λ f. f.payload) frames)).1

-- With a cipher that seals every chunk and opens what it has sealed, and nonces of 12 bytes, whatever
-- the network answers and as long as the relay does not panic: the broadcast is the encoding of
-- frames that are numbered one after the other from 0, and a viewer who decrypts their payloads reads,
-- in order and with no error, exactly what the relay without encryption, cache and frames passes on.
pub pull_all-refines :
    {F : Type 0} (fl : Float F) (R : Ring) (lib : Library) (url : List ℕ) (k : KeyInfo)
    (max_clients max_segments : ℕ) (rs : List Round) (s : StreamRelay F)
    → IsAead R
    → IsSealing R k
    → All IsNoncedRound rs
    → pull_all fl R lib (new_relay url k max_clients max_segments) rs ≡ some s
    → (p : Plain) × (plain_all fl lib url new_plain rs ≡ some p)
      × (frames : List Frame) × (s.broadcast ≡ map encode frames)
      × (map (λ f. f.seq) frames ≡ counts (length frames))
      × (viewed R k frames ≡ map ok p.log)
unfolding new_relay decrypt_all
pull_all-refines fl R lib url k max_clients max_segments rs s aead sealing l h =
    let start : IsInStep R k [] (new_stream k) 0 [] = record {
      frames = [];
      encoded = refl;
      numbers = refl;
      counter = refl;
      chunk = refl;
      key = refl;
      read = refl;
    } in
    let (p, e, i) =
      IsRefined-pull_all fl R lib k url aead sealing rs _ s new_plain l
        (record { step = start; hash = refl; seen = refl; origin = refl }) h in
    let j = i.step in (p, e, j.frames, j.encoded, j.numbers, ap (λ (r : Run). r.1) j.read)
