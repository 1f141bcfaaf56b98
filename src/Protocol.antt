-- ===== src/Protocol.antt =====
-- agent-rust/src/protocol/mod.rs: the binary frame protocol. A byte slice is a list of numbers
-- below 256, a u8, u32 or u64 a number below its bound. `FrameDecoder` is its buffer.
pub mod Prefix
pub mod RoundTrip
pub mod Stream
pub mod Stuck
pub mod Compat
mod Messages
mod Tests
use live_cdn.Common.{
  ℕ, ◌+◌, ◌/◌, ◌%◌, ◌^◌, ◌≤◌, ◌<◌, Bool, ◌||◌, not, Option, none, some, List, [], ◌∷◌, ◌++◌, ltb,
  ◌==◌, if◌then◌else◌, length, take, drop, be32, be64, byte_at, u32_at, u64_at, All, IsByte, Result,
  ok, err, ◌>>=◌,
}

abbrev pub protocol_version : ℕ
protocol_version = 3

pub data FrameType : Type 0 where
  handshake data_frame heartbeat close key_update wakeup sleep : FrameType

-- `frame_type as u8`
abbrev pub to_u8 : FrameType → ℕ
to_u8 handshake = 0x01
to_u8 data_frame = 0x02
to_u8 heartbeat = 0x03
to_u8 close = 0x04
to_u8 key_update = 0x05
to_u8 wakeup = 0x06
to_u8 sleep = 0x07

pub data ProtocolError : Type 0 where
  invalid_magic : ℕ → ℕ → ProtocolError
  unsupported_version : ℕ → ℕ → ProtocolError
  invalid_frame_type : ℕ → ProtocolError
  payload_too_large : ℕ → ProtocolError
  incomplete_frame : ℕ → ℕ → ProtocolError

abbrev pub Decoded : Type 0 → Type 0
Decoded = Result ProtocolError

pub try_from : ℕ → Decoded FrameType
try_from v =
    if v == 0x01
    then ok handshake
    else if v == 0x02
    then ok data_frame
    else if v == 0x03
    then ok heartbeat
    else if v == 0x04
    then ok close
    else if v == 0x05
    then ok key_update
    else if v == 0x06
    then ok wakeup
    else if v == 0x07
    then ok sleep
    else err (invalid_frame_type v)

abbrev magic : List ℕ
magic = 0x48 ∷ 0x54 ∷ []

abbrev pub header_size : ℕ
header_size = 21

abbrev pub v2_header_size : ℕ
v2_header_size = 20

abbrev pub max_frame_size : ℕ
max_frame_size = 2 ^ 20

pub record Frame : Type 0 where
  pub version : ℕ
  pub frame_type : FrameType
  pub flags : ℕ
  pub seq : ℕ
  pub origin_ts : ℕ
  pub payload : List ℕ

unfoldable pub new_with_ts : FrameType → ℕ → ℕ → List ℕ → Frame
new_with_ts frame_type seq origin_ts payload = record {
  version = protocol_version;
  frame_type = frame_type;
  flags = 0;
  seq = seq;
  origin_ts = origin_ts;
  payload = payload;
}

pub new : FrameType → ℕ → List ℕ → Frame
new frame_type seq payload = record {
  version = protocol_version;
  frame_type = frame_type;
  flags = 0;
  seq = seq;
  origin_ts = 0;
  payload = payload;
}

pub encode : Frame → List ℕ
encode f =
    magic
    ++ f.version ∷ to_u8 f.frame_type ∷ f.flags ∷ be32 f.seq
    ++ be64 f.origin_ts
    ++ be32 (length f.payload % 2 ^ 32)
    ++ f.payload

-- `Frame::heartbeat` and `Frame::close`
pub heartbeat_frame : ℕ → Frame
unfolding new
heartbeat_frame seq = new heartbeat seq []

pub close_frame : List ℕ → Frame
unfolding new
close_frame reason = new close 0 reason

-- The end that both decoders share: the size limit, the completeness check and the payload's copy.
finish : ℕ → ℕ → FrameType → ℕ → ℕ → ℕ → ℕ → List ℕ → Decoded (Option (Frame × ℕ))
finish header version frame_type flags seq origin_ts payload_len d =
    if ltb max_frame_size payload_len
    then err (payload_too_large payload_len)
    else if ltb (length d) (header + payload_len)
    then ok none
    else ok (
        some (
          record {
            version = version;
            frame_type = frame_type;
            flags = flags;
            seq = seq;
            origin_ts = origin_ts;
            payload = take payload_len (drop header d);
          },
          header + payload_len,
        ))

pub decode_v2 : List ℕ → Decoded (Option (Frame × ℕ))
decode_v2 d =
    if ltb (length d) v2_header_size
    then ok none
    else (try_from (byte_at d 2) >>= λ frame_type.
        finish v2_header_size 2 frame_type (byte_at d 3) (u32_at d 4) (u64_at d 8) (u32_at d 16) d)

pub decode : List ℕ → Decoded (Option (Frame × ℕ))
decode d =
    if ltb (length d) header_size
    then ok none
    else if not (byte_at d 0 == 0x48) || not (byte_at d 1 == 0x54)
    then err (invalid_magic (byte_at d 0) (byte_at d 1))
    else if ltb (byte_at d 2) 3
    then decode_v2 d
    else (try_from (byte_at d 3) >>= λ frame_type.
        finish header_size (byte_at d 2) frame_type (byte_at d 4) (u32_at d 5) (u64_at d 9)
          (u32_at d 17) d)

-- The struct that keeps what a stream has delivered and no frame has used yet.
pub record FrameDecoder : Type 0 where
  pub buffer : List ℕ

pub new_decoder : FrameDecoder
new_decoder = record { buffer = [] }

pub feed : FrameDecoder → List ℕ → FrameDecoder
feed s d = record { buffer = s.buffer ++ d }

-- `FrameDecoder::decode`: an error or an incomplete frame leaves the buffer as it is.
pub next_frame : FrameDecoder → FrameDecoder × Decoded (Option Frame)
next_frame s = elim (decode s.buffer) [
  | ok none ↦ (s, ok none)
  | ok (some (frame, consumed)) ↦ (record { buffer = drop consumed s.buffer }, ok (some frame))
  | err e ↦ (s, err e)
]

pub buffer_len : FrameDecoder → ℕ
buffer_len s = length s.buffer

-- A value of the Rust type `Frame` that the writer makes: its integers fit their types.
pub record IsFrame (f : Frame) : Type 0 where
  pub version_u8 : f.version < 2 ^ 8
  pub flags_u8 : f.flags < 2 ^ 8
  pub seq_u32 : f.seq < 2 ^ 32
  pub ts_u64 : f.origin_ts < 2 ^ 64
