-- ===== src/StreamRelay/Bounds.antt =====
-- The memory of a relay that pulls for any time.
use live_cdn.Common.{
  ℕ, suc, ◌+◌, ◌≤◌, ◌<◌, ◌≡◌, refl, subst, Option, none, some, List, [], ◌∷◌, ◌++◌, ltb, ltb→lt,
  ltb→le, length, Bool-cases, Option-cases, some_injective, inl, inr, true, same, same_equal,
  same_refl, contains, take, All, Result, ok, err, arith, ◌==◌,
}
use live_cdn.Crypto.{Ring, Stream, KeyInfo, CryptoError, encrypt}
use live_cdn.Playlist.{Float, M3u8Info, M3u8Segment}
use live_cdn.StreamRelay.{
  StreamRelay, CachedSegment, Fetch, Round, Library, new_relay, trim_front, contains_key,
  insert_key, remove_keys, remember, cache_segment, broadcast_data, store_segment, fetched_segment,
  pull_segment, pull_segments, store_playlist, parsed_playlist, fetched_playlist, pull_round,
  pull_all,
}

length-trim_front : {A : Type 0} (n : ℕ) (xs : List A) → length (trim_front n xs) ≤ n
unfolding trim_front
length-trim_front n [] = omega arith
length-trim_front n (x ∷ xs) = ground (arith, length-trim_front n xs)

length-insert_key :
    (m : List (List ℕ × ℕ)) (url : List ℕ) (seq : ℕ) → length (insert_key m url seq) ≤ length m + 1
length-insert_key [] url seq = omega arith
length-insert_key ((u, n) ∷ us) url seq = ground (arith, length-insert_key us url seq)

-- What the library documents of the order: as many keys as the map has entries, each of them a key of
-- the map.
pub record IsKeyOrder (lib : Library) : Type 0 where
  pub count : (m : List (List ℕ × ℕ)) → length (lib.key_order m) ≡ length m
  pub known : (m : List (List ℕ × ℕ)) → All (λ k. contains_key m k ≡ true) (lib.key_order m)

length-remove_keys :
    (m : List (List ℕ × ℕ)) (urls : List (List ℕ)) → length (remove_keys m urls) ≤ length m
length-remove_keys [] urls = omega arith
length-remove_keys ((u, n) ∷ us) urls = ground (arith, length-remove_keys us urls)

-- A map is smaller without one of its keys, whatever else goes.
length-remove_keys-known :
    (m : List (List ℕ × ℕ)) (key : List ℕ) (urls : List (List ℕ))
    → contains_key m key ≡ true
    → length (remove_keys m (key ∷ urls)) < length m
length-remove_keys-known [] key urls = λ h. absurd cc
length-remove_keys-known ((u, n) ∷ us) key urls = elim (Bool-cases (same u key)) [
  | inl e ↦
      rw (same_equal u key e, same_refl key)
        (λ h. omega (arith, length-remove_keys us (key ∷ urls)))
  | inr e ↦ rw e (λ h. elim (Bool-cases (contains (key ∷ urls) u)) [
    | inl f ↦ rw f (omega (arith, length-remove_keys-known us key urls h))
    | inr f ↦ rw f (omega (arith, length-remove_keys-known us key urls h))
  ])
]

-- The first 20 keys go: at least one entry does.
length-remove_keys-first :
    (m : List (List ℕ × ℕ)) (order : List (List ℕ))
    → length order ≡ length m
    → All (λ k. contains_key m k ≡ true) order
    → 0 < length m
    → length (remove_keys m (take 20 order)) < length m
length-remove_keys-first m [] count known some_entry = absurd (omega arith)
length-remove_keys-first m (k ∷ ks) count known some_entry =
    length-remove_keys-known m k (take 19 ks) known.0

length-remember :
    (lib : Library) (m : List (List ℕ × ℕ)) (url : List ℕ) (seq : ℕ)
    → IsKeyOrder lib
    → length m ≤ 100
    → length (remember lib m url seq) ≤ 100
unfolding remember
length-remember lib m url seq ordered h =
    let new = length-insert_key m url seq in
    let m' : List (List ℕ × ℕ) = insert_key m url seq in
    elim (Bool-cases (ltb 100 (length (insert_key m url seq)))) [
      | inl e ↦ rw e (
          omega (
            arith,
            length-remove_keys-first m' (lib.key_order m') (ordered.count m') (ordered.known m')
                (omega (arith, ltb→lt _ _ e)),
          ))
      | inr e ↦ rw e (ltb→le _ _ e)
    ]

pub record IsBounded {F : Type 0} (n : ℕ) (s : StreamRelay F) : Type 0 where
  pub limit : s.max_segments ≡ n
  pub cache : length s.segments ≤ n
  pub known : length s.fetched_urls ≤ 100

IsBounded-cache :
    {F : Type 0} (n : ℕ) (s : StreamRelay F) (c : CachedSegment F)
    → IsBounded n s
    → IsBounded n (cache_segment s c)
unfolding cache_segment
IsBounded-cache n s c b = record {
  limit = b.limit;
  cache =
      subst (λ m. length (trim_front s.max_segments (s.segments ++ c ∷ [])) ≤ m) b.limit
        (length-trim_front s.max_segments (s.segments ++ c ∷ []));
  known = b.known;
}

IsBounded-broadcast :
    {F : Type 0} (n : ℕ) (s : StreamRelay F) (t : ℕ) (d : List ℕ)
    → IsBounded n s
    → IsBounded n (broadcast_data s t d)
unfolding broadcast_data
IsBounded-broadcast n s t d b = record { limit = b.limit; cache = b.cache; known = b.known }

module _ {F : Type 0} (fl : Float F) (R : Ring) (lib : Library) (ordered : IsKeyOrder lib)
    (n : ℕ) where
  IsBounded-store :
      (s : StreamRelay F) (seg : M3u8Segment F) (t : ℕ) (r : Stream × Result CryptoError (List ℕ))
      → IsBounded n s
      → IsBounded n (store_segment fl R lib s seg t r)
  IsBounded-store s seg t (e, err x) b = record {
    limit = b.limit;
    cache = b.cache;
    known = b.known;
  }
  IsBounded-store s seg t (e, ok d) b =
      let c =
        IsBounded-cache n (record s { encryptor = e }) _
          (record { limit = b.limit; cache = b.cache; known = b.known }) in
      IsBounded-broadcast n _ t d (record {
        limit = c.limit;
        cache = c.cache;
        known = length-remember lib _ seg.url seg.seq ordered c.known;
      })

  IsBounded-fetched :
      (s : StreamRelay F) (seg : M3u8Segment F) (body : Option (List ℕ)) (nonce : List ℕ) (t : ℕ)
      → IsBounded n s
      → IsBounded n (fetched_segment fl R lib s seg body nonce t)
  IsBounded-fetched s seg none nonce t b = b
  IsBounded-fetched s seg (some body) nonce t b =
      IsBounded-store s seg t (encrypt R s.encryptor nonce body) b

  IsBounded-segment :
      (s : StreamRelay F) (seg : M3u8Segment F) (f : Fetch)
      → IsBounded n s
      → IsBounded n (pull_segment fl R lib s seg f)
  unfolding pull_segment
  IsBounded-segment s seg f b = elim (Bool-cases (contains_key s.fetched_urls seg.url)) [
    | inl e ↦ rw e b
    | inr e ↦ rw e (IsBounded-fetched s seg f.body f.nonce f.origin_ts b)
  ]

  IsBounded-segments :
      (s : StreamRelay F) (segs : List (M3u8Segment F)) (files : ℕ → Fetch) (i : ℕ)
      → IsBounded n s
      → IsBounded n (pull_segments fl R lib s segs files i)
  unfolding pull_segments
  IsBounded-segments s [] files i b = b
  IsBounded-segments s (seg ∷ segs) files i b =
      IsBounded-segments (pull_segment fl R lib s seg (files i)) segs files (suc i)
        (IsBounded-segment s seg (files i) b)

  IsBounded-playlist :
      (s : StreamRelay F) (info : M3u8Info F) (r : Round) (x : Stream × Result CryptoError (List ℕ))
      → IsBounded n s
      → IsBounded n (store_playlist fl R lib s info r x)
  IsBounded-playlist s info r (e, err x) b = record {
    limit = b.limit;
    cache = b.cache;
    known = b.known;
  }
  IsBounded-playlist s info r (e, ok d) b = IsBounded-segments _ info.segments r.files 0 (
      IsBounded-broadcast n _ (r.playlist).origin_ts d (
        IsBounded-cache n (record s { encryptor = e }) _
          (record { limit = b.limit; cache = b.cache; known = b.known })))

  IsBounded-parsed :
      (s s' : StreamRelay F) (o : Option (M3u8Info F)) (body : List ℕ) (r : Round)
      → IsBounded n s
      → parsed_playlist fl R lib s o body r ≡ some s'
      → IsBounded n s'
  IsBounded-parsed s s' none body r b h = absurd cc
  IsBounded-parsed s s' (some info) body r b h =
      subst (IsBounded n) (some_injective h)
        (IsBounded-playlist s info r (encrypt R s.encryptor (r.playlist).nonce body) b)

  IsBounded-round :
      (s s' : StreamRelay F) (body : Option (List ℕ)) (r : Round)
      → IsBounded n s
      → fetched_playlist fl R lib s body r ≡ some s'
      → IsBounded n s'
  IsBounded-round s s' none r b = λ h. subst (IsBounded n) (some_injective h) b
  IsBounded-round s s' (some body) r b = elim (Bool-cases (lib.hash body == s.last_m3u8_hash)) [
    | inl e ↦ rw e (λ h. subst (IsBounded n) (some_injective h) b)
    | inr e ↦ rw e (
        IsBounded-parsed _ s' _ body r
          (record { limit = b.limit; cache = b.cache; known = b.known }))
  ]

  IsBounded-all :
      (rs : List Round) (s s' : StreamRelay F)
      → IsBounded n s
      → pull_all fl R lib s rs ≡ some s'
      → IsBounded n s'
  unfolding pull_all pull_round
  IsBounded-all [] s s' b = λ h. subst (IsBounded n) (some_injective h) b
  IsBounded-all (r ∷ rs) s s' b = elim (Option-cases (pull_round fl R lib s r)) [
    | inl e ↦ rw (pull_all, e) (λ h. absurd cc)
    | inr (m, e) ↦
        rw (pull_all, e) (IsBounded-all rs m s' (IsBounded-round s m (r.playlist).body r b e))
  ]

-- However long a new relay pulls, and whatever the network answers: it keeps at most as many
-- segments as it was made for, and at most 100 URLs, if the map of the URLs yields as many keys as it
-- has entries, each of them one of its keys.
pub pull_all-IsBounded :
    {F : Type 0} (fl : Float F) (R : Ring) (lib : Library) (url : List ℕ) (key_info : KeyInfo)
    (max_clients max_segments : ℕ) (rs : List Round) (s : StreamRelay F)
    → IsKeyOrder lib
    → pull_all fl R lib (new_relay url key_info max_clients max_segments) rs ≡ some s
    → (length s.segments ≤ max_segments) × (length s.fetched_urls ≤ 100)
unfolding new_relay
pull_all-IsBounded fl R lib url key_info max_clients max_segments rs s ordered h =
    let b =
      IsBounded-all fl R lib ordered max_segments rs _ s
        (record { limit = refl; cache = omega arith; known = omega arith }) h in
    (b.cache, b.known)
