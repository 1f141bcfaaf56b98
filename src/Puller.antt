-- ===== src/Puller.antt =====
-- agent-rust/src/relay/flv.rs: the loop of `pull_flv_stream`, which cuts the bytes of an HTTP-FLV
-- response into tags, broadcasts them and feeds the GOP cache. The time that the n-th tag is
-- stamped with is `clock n`.
pub mod Loop
pub mod Chunks
pub mod Aligned
pub mod Header
pub mod Reconnect
pub mod Fed
pub mod Task
mod Tests
use live_cdn.Common.{
  ℕ, zero, suc, ◌+◌, ◌*◌, ◌^◌, ◌%◌, Bool, true, false, ◌||◌, not, List, [], ◌∷◌, ◌++◌, ltb, ◌==◌,
  if◌then◌else◌, length, take, drop, byte_at, from_be32, bit_or, shl, ok, err,
}
use live_cdn.Flv.{FlvTagPacket, tag_try_from, flv_header_len, tag_header_len, prev_tag_size_len}
use live_cdn.Gop.{GopCache, add_tag}

-- The locals of the pull loop, with what has been broadcast and the shared cache.
pub record Pull : Type 0 where
  pub buffer : List ℕ
  pub flv_header_parsed : Bool
  pub tag_counter : ℕ
  pub sent : List FlvTagPacket
  pub cache : GopCache

-- How a round of the inner loop ends: `break`, `return Err`, or on to the next round.
pub data Round : Type 0 where
  waits : Round
  rejects : Round
  goes : Pull → Round

pub parse_header : Pull → Round
parse_header s =
    let b = s.buffer in
    let header_size = from_be32 0 (byte_at b 5) (byte_at b 6) (byte_at b 7) in
    let skip = header_size + prev_tag_size_len in
    if ltb (length b) flv_header_len
    then waits
    else if not (byte_at b 0 == 0x46) || not (byte_at b 1 == 0x4c) || not (byte_at b 2 == 0x56)
    then rejects
    else if ltb (length b) skip
    then waits
    else goes (record s { buffer = drop skip b; flv_header_parsed = true })

abbrev size_field : List ℕ → ℕ
size_field b = bit_or (bit_or (shl (byte_at b 1) 16) (shl (byte_at b 2) 8)) (byte_at b 3)

abbrev timestamp_field : List ℕ → ℕ
timestamp_field b =
    bit_or (bit_or (bit_or (shl (byte_at b 4) 16) (shl (byte_at b 5) 8)) (byte_at b 6))
      (shl (byte_at b 7) 24)

-- A packet is broadcast and fed to the cache.
emit : Pull → FlvTagPacket → List ℕ → Pull
emit s tag rest = record s {
  buffer = rest;
  tag_counter = (s.tag_counter + 1) % 2 ^ 64;
  sent = s.sent ++ tag ∷ [];
  cache = add_tag s.cache tag;
}

module _ (clock : ℕ → ℕ) where
  pub parse_tag : Pull → Round
  unfolding emit
  parse_tag s =
      let b = s.buffer in
      let total_tag_len = tag_header_len + size_field b + prev_tag_size_len in
      if ltb (length b) tag_header_len then waits else elim (tag_try_from (byte_at b 0)) [
        | err unknown ↦ goes (record s { buffer = drop tag_header_len b })
        | ok tag_type ↦
            if ltb (length b) total_tag_len
            then waits
            else goes (
                emit s
                  (record {
                    tag_type = tag_type;
                    timestamp_ms = timestamp_field b;
                    body = take (size_field b) (drop tag_header_len b);
                    origin_ts = clock s.tag_counter;
                  })
                  (drop total_tag_len b))
      ]

  pub round : Pull → Round
  round s = if s.flv_header_parsed then parse_tag s else parse_header s

-- What the inner loop leaves. `stuck` is no end of the loop in Rust: the fuel ran out.
pub data Parsed : Type 0 where
  waiting : Pull → Parsed
  rejected : Pull → Parsed
  stuck : Parsed

module _ (clock : ℕ → ℕ) where
  pub parse_loop : ℕ → Pull → Parsed
  parse_loop zero s = stuck
  parse_loop (suc fuel) s = elim (round clock s) [
    | waits ↦ waiting s
    | rejects ↦ rejected s
    | goes s' ↦ parse_loop fuel s'
  ]

  -- A round that goes on takes four bytes at least, so as many rounds as bytes, and one, are enough.
  pub parse_all : Pull → Parsed
  parse_all s = parse_loop (suc (length s.buffer)) s

  -- `buffer.extend_from_slice(&chunk)` and the inner loop.
  pub on_chunk : Pull → List ℕ → Parsed
  on_chunk s chunk = parse_all (record s { buffer = s.buffer ++ chunk })

-- What the response delivers: a chunk, with the running flag as it is read then, or an error.
pub data Arrival : Type 0 where
  chunk : Bool → List ℕ → Arrival
  broken : Bool → Arrival

pub data Ended : Type 0 where
  finished : Ended
  invalid_stream : Ended
  read_failed : Ended
  out_of_fuel : Ended

pub start_pull : GopCache → Pull
start_pull cache = record {
  buffer = [];
  flv_header_parsed = false;
  tag_counter = 0;
  sent = [];
  cache = cache;
}

module _ (clock : ℕ → ℕ) where
  -- The outer loop, over an open connection.
  pub pull_loop : Pull → List Arrival → Pull × Ended
  pull_loop s [] = (s, finished)
  pull_loop s (chunk running d ∷ as') = elim running [
    | false ↦ (s, finished)
    | true ↦ elim (on_chunk clock s d) [
      | waiting s' ↦ pull_loop s' as'
      | rejected s' ↦ (s', invalid_stream)
      | stuck ↦ (s, out_of_fuel)
    ]
  ]
  pull_loop s (broken running ∷ as') = if running then (s, read_failed) else (s, finished)
