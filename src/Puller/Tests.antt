-- ===== src/Puller/Tests.antt =====
-- The puller on a few bytes.
use live_cdn.Common.{◌≡◌, refl, [], ◌∷◌, ◌++◌, arith, true, map, ℕ}
use live_cdn.Flv.{audio, video, FlvTagPacket, IsPacket, build_flv_header}
use live_cdn.Gop.{GopCache, default_config, new_cache, add_all}
use live_cdn.Viewer.{wires}
use live_cdn.Puller.{
  Pull, chunk, round, waits, waiting, parse_all, parse_header, on_chunk, start_pull, pull_loop,
}
use live_cdn.Puller.Chunks.{seen, concat, pull_loop-chunks}
use live_cdn.Puller.Aligned.{stamped, parse_all-wires}
use live_cdn.Puller.Header.{on_chunk-build_flv_header}

abbrev clock : ℕ → ℕ
clock n = n

abbrev key : FlvTagPacket
key = record { tag_type = video; timestamp_ms = 0; body = 0x17 ∷ 1 ∷ []; origin_ts = 5 }

abbrev sound : FlvTagPacket
sound = record { tag_type = audio; timestamp_ms = 20; body = 0xaf ∷ 1 ∷ []; origin_ts = 6 }

key-IsPacket : IsPacket key
key-IsPacket = record {
  size_u24 = omega arith;
  ts_u32 = omega arith;
  bytes = (omega arith, (omega arith, tt));
}

sound-IsPacket : IsPacket sound
sound-IsPacket = record {
  size_u24 = omega arith;
  ts_u32 = omega arith;
  bytes = (omega arith, (omega arith, tt));
}

abbrev empty_cache : GopCache
empty_cache = new_cache default_config

-- A puller past the header, with two packets and one byte of a third.
abbrev aligned : Pull
aligned = record {
  buffer = wires (key ∷ sound ∷ []) ++ 9 ∷ [];
  flv_header_parsed = true;
  tag_counter = 0;
  sent = [];
  cache = empty_cache;
}

parse_all-wires_example :
    (s' : Pull) × (parse_all clock aligned ≡ waiting s')
    × (s'.buffer ≡ 9 ∷ [])
    × (s'.sent ≡ stamped clock 0 (key ∷ sound ∷ []))
    × (s'.cache ≡ add_all empty_cache (stamped clock 0 (key ∷ sound ∷ [])))
parse_all-wires_example =
    parse_all-wires clock aligned (key ∷ sound ∷ []) (9 ∷ []) (key-IsPacket, (sound-IsPacket, tt))
      refl refl (omega arith)

start-waits : round clock (start_pull empty_cache) ≡ waits
unfolding round parse_header start_pull
start-waits = refl

pull_loop-chunks_example :
    seen (
      pull_loop clock
        (start_pull empty_cache)
        (map (chunk true) (build_flv_header ∷ (9 ∷ []) ∷ wires (key ∷ []) ∷ [])))
    ≡ seen (
        pull_loop clock
          (start_pull empty_cache)
          (chunk true (concat (build_flv_header ∷ (9 ∷ []) ∷ wires (key ∷ []) ∷ [])) ∷ []))
pull_loop-chunks_example =
    pull_loop-chunks clock (start_pull empty_cache)
      (build_flv_header ∷ (9 ∷ []) ∷ wires (key ∷ []) ∷ []) start-waits

on_chunk-build_flv_header_example :
    on_chunk clock (start_pull empty_cache) (build_flv_header ++ 9 ∷ 0 ∷ 0 ∷ [])
    ≡ parse_all clock
        (record (start_pull empty_cache) { buffer = 0 ∷ []; flv_header_parsed = true })
on_chunk-build_flv_header_example =
    on_chunk-build_flv_header clock empty_cache (9 ∷ 0 ∷ 0 ∷ []) (omega arith)
