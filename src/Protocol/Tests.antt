-- ===== src/Protocol/Tests.antt =====
-- The frame protocol on concrete frames.
use live_cdn.Common.{
  zero, suc, ◌^◌, length-append, ℕ, ◌≡◌, refl, ◌++◌, List, [], ◌∷◌, some, arith, length, take, drop,
  replicate, map, ok, err,
}
use live_cdn.Protocol.{
  Frame, data_frame, heartbeat, IsFrame, encode, decode, new_decoder, heartbeat_frame,
  invalid_frame_type, payload_too_large,
}
use live_cdn.Protocol.Prefix.{Uses, decode-Uses, Extends, decode-Extends}
use live_cdn.Protocol.RoundTrip.{decode-encode}
use live_cdn.Protocol.Stream.{Call, feeds, decodes, run, fed, encodings, IsSendable, run_stream}
use live_cdn.Protocol.Stuck.{run_oversized}
use live_cdn.Protocol.Compat.{v2_wire, v2_frame, decode-v2_wire, v2_refused}

abbrev chunk : Frame
chunk = record {
  version = 3;
  frame_type = data_frame;
  flags = 1;
  seq = 70000;
  origin_ts = 1700000000000;
  payload = 10 ∷ 20 ∷ 30 ∷ [];
}

abbrev beat : Frame
beat = record {
  version = 3;
  frame_type = heartbeat;
  flags = 0;
  seq = 7;
  origin_ts = 0;
  payload = [];
}

beat-heartbeat_frame : heartbeat_frame 7 ≡ beat
unfolding heartbeat_frame
beat-heartbeat_frame = refl

chunk-IsFrame : IsFrame chunk
chunk-IsFrame = record {
  version_u8 = omega arith;
  flags_u8 = omega arith;
  seq_u32 = omega arith;
  ts_u64 = omega arith;
}

chunk-IsSendable : IsSendable chunk
chunk-IsSendable = record { frame = chunk-IsFrame; current = omega arith; small = omega arith }

beat-IsSendable : IsSendable beat
beat-IsSendable = record {
  frame = record {
    version_u8 = omega arith;
    flags_u8 = omega arith;
    seq_u32 = omega arith;
    ts_u64 = omega arith;
  };
  current = omega arith;
  small = omega arith;
}

decode-encode_example :
    decode (encode chunk ++ 0x48 ∷ []) ≡ ok (some (chunk, length (encode chunk)))
decode-encode_example = decode-encode chunk (0x48 ∷ []) chunk-IsFrame (omega arith) (omega arith)

encode-chunk_split : encode chunk ≡ take 10 (encode chunk) ++ drop 10 (encode chunk)
unfolding encode
encode-chunk_split = refl

back_length : length (drop 10 (encode chunk)) ≡ 14
unfolding encode
back_length = refl

-- Two frames, the first cut after ten bytes and asked for too early.
abbrev schedule : List Call
schedule =
    feeds (take 10 (encode chunk))
    ∷ decodes
    ∷ feeds (drop 10 (encode chunk) ++ encode beat)
    ∷ decodes
    ∷ []

fed-schedule : fed schedule ≡ encodings (chunk ∷ beat ∷ [])
unfolding encode
fed-schedule = refl

run_stream_example :
    run new_decoder (schedule ++ replicate 2 decodes)
    ≡ (record { buffer = [] }, map ok (chunk ∷ beat ∷ []))
run_stream_example =
    run_stream schedule (chunk ∷ beat ∷ []) 2 (chunk-IsSendable, (beat-IsSendable, tt)) fed-schedule
      (omega arith)

decode-Uses_example : Uses (encode chunk) (decode (encode chunk))
decode-Uses_example = decode-Uses (encode chunk)

decode-Extends_example : Extends (decode (encode chunk)) (decode (encode chunk ++ 1 ∷ []))
decode-Extends_example = decode-Extends (encode chunk) (1 ∷ [])

v2_data-IsFrame : IsFrame (v2_frame data_frame 0 7 99 (1 ∷ 2 ∷ []))
v2_data-IsFrame = record {
  version_u8 = omega arith;
  flags_u8 = omega arith;
  seq_u32 = omega arith;
  ts_u64 = omega arith;
}

decode-v2_wire_example :
    decode (v2_wire data_frame 0 7 99 (1 ∷ 2 ∷ []) ++ [])
    ≡ ok (some (v2_frame data_frame 0 7 99 (1 ∷ 2 ∷ []), 22))
decode-v2_wire_example =
    decode-v2_wire data_frame 0 7 99 (1 ∷ 2 ∷ []) [] (omega arith) v2_data-IsFrame (omega arith)
      (omega arith)

v2_refused_example : decode (v2_wire heartbeat 0 7 99 (1 ∷ []) ++ []) ≡ err (invalid_frame_type 0)
v2_refused_example = v2_refused heartbeat 7 99 (1 ∷ []) [] (omega arith) (omega arith)

-- A list of 2 ^ n zeros, and a frame with a payload of 1 MB and one byte.
zeros : ℕ → List ℕ
zeros zero = 0 ∷ []
zeros (suc n) = zeros n ++ zeros n

length-zeros : (n : ℕ) → length (zeros n) ≡ 2 ^ n
unfolding zeros
length-zeros zero = refl
length-zeros (suc n) = omega (arith, length-append (zeros n) (zeros n), length-zeros n)

abbrev segment : Frame
segment = record {
  version = 3;
  frame_type = data_frame;
  flags = 0;
  seq = 1;
  origin_ts = 99;
  payload = 0 ∷ zeros 20;
}

segment-IsFrame : IsFrame segment
segment-IsFrame = record {
  version_u8 = omega arith;
  flags_u8 = omega arith;
  seq_u32 = omega arith;
  ts_u64 = omega arith;
}

-- A frame that is fine, the one that is too large, and a call before and after a third.
run_oversized_example :
    run new_decoder (
      feeds (encodings (chunk ∷ []) ++ (encode segment ++ []))
      ∷ (replicate 1 decodes ++ (decodes ∷ feeds (encode beat) ∷ decodes ∷ [])))
    ≡ (
      record { buffer = (encode segment ++ []) ++ fed (feeds (encode beat) ∷ []) },
      ok chunk
          ∷ err (payload_too_large (length segment.payload))
          ∷ err (payload_too_large (length segment.payload))
          ∷ [],
    )
run_oversized_example =
    run_oversized (chunk ∷ []) segment [] (decodes ∷ feeds (encode beat) ∷ decodes ∷ [])
      (chunk-IsSendable, tt) segment-IsFrame (omega arith) (omega (arith, length-zeros 20))
      (omega (arith, length-zeros 20))
