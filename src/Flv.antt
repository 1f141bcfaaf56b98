-- ===== src/Flv.antt =====
-- agent-rust/src/relay/flv.rs (constants, tag types, packets) and flv_output.rs (the FLV wire
-- format). The field `data` of a packet is `body` here.
pub mod Wire
use live_cdn.Common.{
  ℕ, ◌+◌, ◌/◌, ◌%◌, ◌^◌, ◌<◌, Bool, true, false, List, [], ◌∷◌, ◌++◌, ◌==◌, if◌then◌else◌, length,
  be32, byte, shr, Result, ok, err, All, IsByte,
}

abbrev pub flv_header_len : ℕ
flv_header_len = 9

abbrev pub tag_header_len : ℕ
tag_header_len = 11

abbrev pub prev_tag_size_len : ℕ
prev_tag_size_len = 4

pub data FlvTagType : Type 0 where
  audio video script : FlvTagType

-- `tag_type as u8`
abbrev pub tag_code : FlvTagType → ℕ
tag_code audio = 0x08
tag_code video = 0x09
tag_code script = 0x12

unfoldable pub tag_try_from : ℕ → Result ℕ FlvTagType
tag_try_from v =
    if v == 0x08
    then ok audio
    else if v == 0x09
    then ok video
    else if v == 0x12
    then ok script
    else err v

pub record FlvTagPacket : Type 0 where
  pub tag_type : FlvTagType
  pub timestamp_ms : ℕ
  pub body : List ℕ
  pub origin_ts : ℕ

-- 'FLV', version 1, flags (audio and video), the header's size, and the size of no previous tag.
unfoldable pub build_flv_header : List ℕ
build_flv_header = 0x46 ∷ 0x4c ∷ 0x56 ∷ 0x01 ∷ 0x05 ∷ be32 9 ++ be32 0

-- `u32` arithmetic wraps.
unfoldable pub build_flv_tag_wire : FlvTagPacket → List ℕ
build_flv_tag_wire tag =
    let data_size = length tag.body % 2 ^ 32 in
    let ts = tag.timestamp_ms in
    tag_code tag.tag_type
      ∷ byte (shr data_size 16)
      ∷ byte (shr data_size 8)
      ∷ byte data_size
      ∷ byte (shr ts 16)
      ∷ byte (shr ts 8)
      ∷ byte ts
      ∷ byte (shr ts 24)
      ∷ 0
      ∷ 0
      ∷ 0
      ∷ tag.body
    ++ be32 ((11 + data_size) % 2 ^ 32)

-- A packet that the format can carry: a 24-bit size, a 32-bit timestamp.
pub record IsPacket (tag : FlvTagPacket) : Type 0 where
  pub size_u24 : length tag.body < 2 ^ 24
  pub ts_u32 : tag.timestamp_ms < 2 ^ 32
  pub bytes : All IsByte tag.body
