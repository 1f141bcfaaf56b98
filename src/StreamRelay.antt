-- ===== src/StreamRelay.antt =====
-- The m3u8 relay of agent-rust/src/relay/mod.rs: the loop that pulls a playlist and its segments,
-- encrypts them, keeps the latest and broadcasts them as frames. What the network, the clock and the
-- source of nonces give to a round is its input; `created_at`, which is never read, is left out.
pub mod Bounds
pub mod Plain
pub mod Step
pub mod Refines
pub mod Task
mod Tests
use live_cdn.Common.{
  take, ℕ, zero, suc, ◌+◌, ◌-◌, ◌%◌, ◌^◌, Bool, true, false, ◌||◌, not, Option, none, some, List,
  [], ◌∷◌, ◌++◌, ltb, leb, ◌==◌, if◌then◌else◌, length, same, contains, keep, Result, ok, err,
}
use live_cdn.Crypto.{Ring, Stream, KeyInfo, CryptoError, new_stream, encrypt}
use live_cdn.Protocol.{data_frame, new_with_ts, encode}
use live_cdn.Playlist.{Float, M3u8Info, M3u8Segment, parse_m3u8}

pub data SegType : Type 0 where
  m3u8 ts : SegType

abbrev pub is_m3u8 : SegType → Bool
is_m3u8 m3u8 = true
is_m3u8 ts = false

pub record CachedSegment (F : Type 0) : Type 0 where
  pub seq : ℕ
  pub seg_type : SegType
  pub data_bytes : List ℕ
  pub duration : F

-- `fetched_urls` is a map from a URL to a number. `broadcast` is what has been sent to the channel,
-- `last_m3u8_hash` and `seq_counter` are the loop's variables.
pub record StreamRelay (F : Type 0) : Type 0 where
  pub origin_m3u8_url : List ℕ
  pub encryptor : Stream
  pub segments : List (CachedSegment F)
  pub max_segments : ℕ
  pub fetched_urls : List (List ℕ × ℕ)
  pub broadcast : List (List ℕ)
  pub client_count : ℕ
  pub max_clients : ℕ
  pub running : Bool
  pub bytes_sent : ℕ
  pub last_m3u8_hash : ℕ
  pub seq_counter : ℕ

unfoldable pub new_relay : {F : Type 0} → List ℕ → KeyInfo → ℕ → ℕ → StreamRelay F
new_relay origin_url key_info max_clients max_segments = record {
  origin_m3u8_url = origin_url;
  encryptor = new_stream key_info;
  segments = [];
  max_segments = max_segments;
  fetched_urls = [];
  broadcast = [];
  client_count = 0;
  max_clients = max_clients;
  running = false;
  bytes_sent = 0;
  last_m3u8_hash = 0;
  seq_counter = 0;
}

-- One answer of the network with the nonce and the time that go with it.
pub record Fetch : Type 0 where
  pub body : Option (List ℕ)
  pub nonce : List ℕ
  pub origin_ts : ℕ

-- The inputs of a round: the playlist, and a segment by its place in the playlist.
pub record Round : Type 0 where
  pub playlist : Fetch
  pub files : ℕ → Fetch

-- What the relay uses of the library: `from_utf8_lossy`, the hash of a byte slice, and the keys of a
-- map in the order in which it yields them.
pub record Library : Type 0 where
  pub utf8 : List ℕ → List ℕ
  pub hash : List ℕ → ℕ
  pub key_order : List (List ℕ × ℕ) → List (List ℕ)

-- `while segs.len() > max_segments { segs.remove(0); }`
unfoldable pub trim_front {ℓ} : {A : Type ℓ} → ℕ → List A → List A
trim_front n [] = []
trim_front n (x ∷ xs) =
    let rest = trim_front n xs in if ltb n (length (x ∷ xs)) then rest else x ∷ xs

abbrev pub contains_key : List (List ℕ × ℕ) → List ℕ → Bool
contains_key [] url = false
contains_key ((u, n) ∷ us) url = let rest = contains_key us url in same u url || rest

abbrev pub insert_key : List (List ℕ × ℕ) → List ℕ → ℕ → List (List ℕ × ℕ)
insert_key [] url seq = (url, seq) ∷ []
insert_key ((u, n) ∷ us) url seq =
    let rest = insert_key us url seq in if same u url then (u, seq) ∷ us else (u, n) ∷ rest

abbrev pub remove_keys : List (List ℕ × ℕ) → List (List ℕ) → List (List ℕ × ℕ)
remove_keys [] urls = []
remove_keys ((u, n) ∷ us) urls =
    let rest = remove_keys us urls in if contains urls u then rest else (u, n) ∷ rest

-- The relay has taken `url`; beyond 100 entries the first 20 keys go.
unfoldable pub remember : Library → List (List ℕ × ℕ) → List ℕ → ℕ → List (List ℕ × ℕ)
remember lib fetched url seq =
    let m = insert_key fetched url seq in
    if ltb 100 (length m) then remove_keys m (take 20 (lib.key_order m)) else m

module _ {F : Type 0} where
  unfoldable pub cache_segment : StreamRelay F → CachedSegment F → StreamRelay F
  cache_segment s c = record s { segments = trim_front s.max_segments (s.segments ++ c ∷ []) }

  unfoldable pub broadcast_data : StreamRelay F → ℕ → List ℕ → StreamRelay F
  broadcast_data s origin_ts d = record s {
    broadcast = s.broadcast ++ encode (new_with_ts data_frame s.seq_counter origin_ts d) ∷ [];
    seq_counter = (s.seq_counter + 1) % 2 ^ 32;
  }

module _ {F : Type 0} (fl : Float F) (R : Ring) (lib : Library) where
  -- The segment has been fetched and encrypted.
  abbrev pub store_segment :
      StreamRelay F → M3u8Segment F → ℕ → Stream × Result CryptoError (List ℕ) → StreamRelay F
  store_segment s seg origin_ts (e, err x) = record s { encryptor = e }
  store_segment s seg origin_ts (e, ok d) =
      let cached : CachedSegment F = record {
        seq = seg.seq;
        seg_type = ts;
        data_bytes = d;
        duration = seg.duration;
      } in
      let s' = cache_segment (record s { encryptor = e }) cached in
      broadcast_data (record s' { fetched_urls = remember lib s'.fetched_urls seg.url seg.seq })
        origin_ts d

  abbrev pub fetched_segment :
      StreamRelay F → M3u8Segment F → Option (List ℕ) → List ℕ → ℕ → StreamRelay F
  fetched_segment s seg none nonce origin_ts = s
  fetched_segment s seg (some body) nonce origin_ts =
      store_segment s seg origin_ts (encrypt R s.encryptor nonce body)

  -- The body of the loop over the segments.
  unfoldable pub pull_segment : StreamRelay F → M3u8Segment F → Fetch → StreamRelay F
  pull_segment s seg f =
      if contains_key s.fetched_urls seg.url
      then s
      else fetched_segment s seg f.body f.nonce f.origin_ts

  unfoldable pub pull_segments :
      StreamRelay F → List (M3u8Segment F) → (ℕ → Fetch) → ℕ → StreamRelay F
  pull_segments s [] files i = s
  pull_segments s (seg ∷ segs) files i =
      pull_segments (pull_segment s seg (files i)) segs files (suc i)

  -- The playlist has been encrypted: it is kept and sent, and its segments follow.
  abbrev pub store_playlist :
      StreamRelay F → M3u8Info F → Round → Stream × Result CryptoError (List ℕ) → StreamRelay F
  store_playlist s info r (e, err x) = record s { encryptor = e }
  store_playlist s info r (e, ok d) =
      let cached : CachedSegment F = record {
        seq = s.seq_counter;
        seg_type = m3u8;
        data_bytes = d;
        duration = fl.f0;
      } in
      let s' = cache_segment (record s { encryptor = e }) cached in
      pull_segments (broadcast_data s' (r.playlist).origin_ts d) info.segments r.files 0

  abbrev pub parsed_playlist :
      StreamRelay F → Option (M3u8Info F) → List ℕ → Round → Option (StreamRelay F)
  parsed_playlist s none body r = none
  parsed_playlist s (some info) body r =
      some (store_playlist s info r (encrypt R s.encryptor (r.playlist).nonce body))

  abbrev pub fetched_playlist : StreamRelay F → Option (List ℕ) → Round → Option (StreamRelay F)
  fetched_playlist s none r = some s
  fetched_playlist s (some body) r =
      if lib.hash body == s.last_m3u8_hash
      then some s
      else parsed_playlist (record s { last_m3u8_hash = lib.hash body })
          (parse_m3u8 fl (lib.utf8 body) s.origin_m3u8_url) body r

  -- One round of the loop, which is not stopped; `none` is a panic.
  unfoldable pub pull_round : StreamRelay F → Round → Option (StreamRelay F)
  pull_round s r = fetched_playlist s (r.playlist).body r

  unfoldable pub pull_all : StreamRelay F → List Round → Option (StreamRelay F)
  pull_all s [] = some s
  pull_all s (r ∷ rs) = elim (pull_round s r) [ none ↦ none | some s' ↦ pull_all s' rs ]

module _ {F : Type 0} where
  -- `start` and `stop`: a relay that runs is not started again. The task that is spawned has new
  -- variables; the cache, the URLs and the encryptor are the relay's and go on.
  unfoldable pub start : StreamRelay F → StreamRelay F × Bool
  start s =
      if s.running
      then (s, false)
      else (record s { running = true; last_m3u8_hash = 0; seq_counter = 0 }, true)

  unfoldable pub stop : StreamRelay F → StreamRelay F
  stop s = record s { running = false }

  unfoldable pub add_client : StreamRelay F → StreamRelay F × Bool
  add_client s =
      if leb s.max_clients s.client_count
      then (s, false)
      else (record s { client_count = s.client_count + 1 }, true)

  unfoldable pub remove_client : StreamRelay F → StreamRelay F
  remove_client s =
      if ltb 0 s.client_count then record s { client_count = s.client_count - 1 } else s

  unfoldable pub record_bytes_sent : StreamRelay F → ℕ → StreamRelay F
  record_bytes_sent s n = record s { bytes_sent = (s.bytes_sent + n) % 2 ^ 64 }

  -- The last playlist of the cache.
  abbrev pub newest : List (CachedSegment F) → Option (List ℕ)
  newest [] = none
  newest (c ∷ cs) =
      let rest = newest cs in
      elim rest [ some d ↦ some d | none ↦ if is_m3u8 c.seg_type then some c.data_bytes else none ]

  unfoldable pub latest_m3u8 : StreamRelay F → Option (List ℕ)
  latest_m3u8 s = newest s.segments
