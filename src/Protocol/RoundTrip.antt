-- ===== src/Protocol/RoundTrip.antt =====
-- What `encode` writes, `decode` reads.
use live_cdn.Common.{
  ℕ, ◌+◌, ◌%◌, ◌^◌, ◌≤◌, ◌<◌, ◌≡◌, refl, ap, Option, none, some, List, ◌++◌, arith, length,
  length-append, take-append, ok, err, from_be32-be32, from_be64-be64, le→ltb, lt→ltb, ◌∙◌, [],
  append-nil,
}
use live_cdn.Protocol.Prefix.{Extends, Uses, decode-Extends, decode-Uses}
use live_cdn.Protocol.{
  Decoded, FrameType, handshake, data_frame, heartbeat, close, key_update, wakeup, sleep, to_u8,
  Frame, IsFrame, encode, decode, finish, try_from, payload_too_large,
}

-- The codes of the frame types are read back.
pub try_from-to_u8 : (t : FrameType) → try_from (to_u8 t) ≡ ok t
unfolding try_from
try_from-to_u8 handshake = refl
try_from-to_u8 data_frame = refl
try_from-to_u8 heartbeat = refl
try_from-to_u8 close = refl
try_from-to_u8 key_update = refl
try_from-to_u8 wakeup = refl
try_from-to_u8 sleep = refl

pub length-encode : (f : Frame) → length (encode f) ≡ 21 + length f.payload
unfolding encode
length-encode f = omega arith

-- The header fields of an encoded frame, whatever follows.
decode_header :
    (f : Frame) (rest : List ℕ)
    → IsFrame f
    → 3 ≤ f.version
    → decode (encode f ++ rest)
      ≡ finish 21 f.version f.frame_type f.flags f.seq f.origin_ts
          (length f.payload % 2 ^ 32)
          (encode f ++ rest)
unfolding decode encode
decode_header f rest v new =
    rw
      (
        le→ltb (length (encode f ++ rest)) 21 (omega arith),
        le→ltb f.version 3 new,
        try_from-to_u8 f.frame_type,
        from_be32-be32 f.seq v.seq_u32,
        from_be64-be64 f.origin_ts v.ts_u64,
        from_be32-be32 (length f.payload % 2 ^ 32) (omega arith),
      )
      refl

-- The payload is cut out again.
finish-encode :
    (f : Frame) (rest : List ℕ)
    → length f.payload ≤ 2 ^ 20
    → finish 21 f.version f.frame_type f.flags f.seq f.origin_ts
        (length f.payload)
        (encode f ++ rest)
      ≡ ok (some (f, length (encode f)))
unfolding finish encode
finish-encode f rest small =
    rw
      (
        le→ltb (2 ^ 20) (length f.payload) small,
        le→ltb (length (encode f ++ rest)) (21 + length f.payload)
            (omega (arith, length-append f.payload rest)),
        take-append f.payload rest,
      )
      (ap (λ n. ok (some (f, n))) (omega arith))

-- A frame of version 3 or later, whose numbers fit their types and whose payload is 1 MB at most, is
-- read back whole from the front of whatever slice starts with its encoding, and exactly its
-- encoding is used.
pub decode-encode :
    (f : Frame) (rest : List ℕ)
    → IsFrame f
    → 3 ≤ f.version
    → length f.payload ≤ 2 ^ 20
    → decode (encode f ++ rest) ≡ ok (some (f, length (encode f)))
decode-encode f rest v new small =
    let m : length f.payload % 2 ^ 32 ≡ length f.payload = omega arith in
    decode_header f rest v new ∙ rw m (finish-encode f rest small)

-- `encode` does not check the size: a frame with a larger payload is written, and every receiver
-- answers that it is too large.
pub decode-encode_oversize :
    (f : Frame) (rest : List ℕ)
    → IsFrame f
    → 3 ≤ f.version
    → 2 ^ 20 < length f.payload
    → length f.payload < 2 ^ 32
    → decode (encode f ++ rest) ≡ err (payload_too_large (length f.payload))
unfolding finish
decode-encode_oversize f rest v new large fits =
    let m : length f.payload % 2 ^ 32 ≡ length f.payload = omega arith in
    decode_header f rest v new ∙ rw (m, finish, lt→ltb (2 ^ 20) (length f.payload) large) refl

-- A result that a longer slice turns into a frame with more bytes than there were is "incomplete".
incomplete :
    (r : Decoded (Option (Frame × ℕ))) (d : List ℕ) (f : Frame) (n : ℕ)
    → Uses d r
    → Extends r (ok (some (f, n)))
    → length d < n
    → r ≡ ok none
incomplete (ok none) d f n u x short = refl
incomplete (ok (some (g, m))) d f n u x short = ground arith
incomplete (err e) d f n u x short = cc

decode_whole :
    (f : Frame)
    → IsFrame f
    → 3 ≤ f.version
    → length f.payload ≤ 2 ^ 20
    → decode (encode f) ≡ ok (some (f, length (encode f)))
decode_whole f v new small = rw (append-nil (encode f)) at (decode-encode f [] v new small)

-- A proper prefix of the encoding of a frame of version 3 or later, whose numbers fit their types and
-- whose payload is 1 MB at most, is incomplete, never an error.
pub decode_incomplete :
    (f : Frame) (front back : List ℕ)
    → IsFrame f
    → 3 ≤ f.version
    → length f.payload ≤ 2 ^ 20
    → encode f ≡ front ++ back
    → 0 < length back
    → decode front ≡ ok none
decode_incomplete f front back v new small e more =
    incomplete (decode front) front f (length (encode f)) (decode-Uses front)
      (rw (← e, decode_whole f v new small) at (decode-Extends front back))
      (omega (arith, ap length e, length-append front back))
