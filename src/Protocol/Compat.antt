-- ===== src/Protocol/Compat.antt =====
-- Frames of protocol version 2, which `Frame::decode` is meant to accept beside version 3. The
-- layout is the one that its comment gives: no version byte, and a header of 20 bytes.
use live_cdn.Common.{
  ℕ, ◌+◌, ◌^◌, ◌≤◌, ◌<◌, ◌≡◌, refl, some, List, ◌∷◌, ◌++◌, arith, length, be32, be64,
  from_be32-be32, from_be64-be64, length-append, take-append, le→ltb, lt→ltb, ok, err, none, [],
}
use live_cdn.Protocol.{
  FrameType, to_u8, Frame, IsFrame, decode, decode_v2, finish, try_from, invalid_frame_type,
}
use live_cdn.Protocol.RoundTrip.{try_from-to_u8}

abbrev pub v2_wire : FrameType → ℕ → ℕ → ℕ → List ℕ → List ℕ
v2_wire t flags seq origin_ts payload =
    0x48 ∷ 0x54 ∷ to_u8 t ∷ flags ∷ be32 seq ++ be64 origin_ts ++ be32 (length payload) ++ payload

abbrev pub v2_frame : FrameType → ℕ → ℕ → ℕ → List ℕ → Frame
v2_frame t flags seq origin_ts payload = record {
  version = 2;
  frame_type = t;
  flags = flags;
  seq = seq;
  origin_ts = origin_ts;
  payload = payload;
}

module _ (t : FrameType) (flags seq origin_ts : ℕ) (payload rest : List ℕ) where
  decode_v2-v2_wire :
      IsFrame (v2_frame t flags seq origin_ts payload)
      → length payload ≤ 2 ^ 20
      → decode_v2 (v2_wire t flags seq origin_ts payload ++ rest)
        ≡ ok (some (v2_frame t flags seq origin_ts payload, 20 + length payload))
  unfolding decode_v2 finish
  decode_v2-v2_wire v small =
      rw
        (
          le→ltb (length (v2_wire t flags seq origin_ts payload ++ rest)) 20 (omega arith),
          try_from-to_u8 t,
          from_be32-be32 seq v.seq_u32,
          from_be64-be64 origin_ts v.ts_u64,
          from_be32-be32 (length payload) (omega arith),
          le→ltb (2 ^ 20) (length payload) small,
          le→ltb (length (v2_wire t flags seq origin_ts payload ++ rest)) (20 + length payload)
              (omega (arith, length-append payload rest)),
          take-append payload rest,
        )
        refl

  -- A handshake or data frame of version 2, whose numbers fit their types and whose payload is 1 MB at
  -- most, is read back, once 21 bytes are there.
  pub decode-v2_wire :
      to_u8 t < 3
      → IsFrame (v2_frame t flags seq origin_ts payload)
      → length payload ≤ 2 ^ 20
      → 1 ≤ length (payload ++ rest)
      → decode (v2_wire t flags seq origin_ts payload ++ rest)
        ≡ ok (some (v2_frame t flags seq origin_ts payload, 20 + length payload))
  unfolding decode
  decode-v2_wire old v small more =
      rw
        (
          le→ltb (length (v2_wire t flags seq origin_ts payload ++ rest)) 21 (omega arith),
          lt→ltb (to_u8 t) 3 old,
        )
        (decode_v2-v2_wire v small)

-- Every other frame of version 2 (heartbeat, close, key update, wake-up, sleep) with no flag set
-- is refused, once 21 bytes are there: its type code is taken for a version, and its flags for a
-- frame type.
pub v2_refused :
    (t : FrameType) (seq origin_ts : ℕ) (payload rest : List ℕ)
    → 3 ≤ to_u8 t
    → 1 ≤ length (payload ++ rest)
    → decode (v2_wire t 0 seq origin_ts payload ++ rest) ≡ err (invalid_frame_type 0)
unfolding decode try_from
v2_refused t seq origin_ts payload rest new more =
    rw
      (
        le→ltb (length (v2_wire t 0 seq origin_ts payload ++ rest)) 21 (omega arith),
        le→ltb (to_u8 t) 3 new,
      )
      refl

-- A whole handshake or data frame of version 2 with no payload has 20 bytes, and is taken for an
-- incomplete one.
v2_empty_waits :
    (t : FrameType) (flags seq origin_ts : ℕ) → decode (v2_wire t flags seq origin_ts []) ≡ ok none
unfolding decode
v2_empty_waits t flags seq origin_ts = refl
