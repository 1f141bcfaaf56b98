-- ===== src/Flv/Wire.antt =====
-- The size of the wire form of a packet, and the fields that are read back from it.
use live_cdn.Common.{
  ℕ, ◌+◌, ◌^◌, ◌<◌, ◌≡◌, refl, ◌∙◌, arith, length, byte, shr, shl, bit_or, or_three, or_four,
  length-append, ok,
}
use live_cdn.Flv.{
  FlvTagType, audio, video, script, FlvTagPacket, tag_code, tag_try_from, build_flv_tag_wire,
}

pub tag_try_from-tag_code : (t : FlvTagType) → tag_try_from (tag_code t) ≡ ok t
unfolding tag_try_from
tag_try_from-tag_code audio = refl
tag_try_from-tag_code video = refl
tag_try_from-tag_code script = refl

pub length-build_flv_tag_wire :
    (tag : FlvTagPacket) → length (build_flv_tag_wire tag) ≡ 15 + length tag.body
unfolding build_flv_tag_wire
length-build_flv_tag_wire tag = omega (arith, length-append tag.body)

-- Three bytes of a 24-bit size, and the four of a timestamp, whose top byte stands last.
pub read_size :
    (n : ℕ)
    → n < 2 ^ 24
    → bit_or (bit_or (shl (byte (shr n 16)) 16) (shl (byte (shr n 8)) 8)) (byte n) ≡ n
read_size n h =
    or_three (byte (shr n 16)) (byte (shr n 8)) (byte n) (omega arith) (omega arith) ∙ omega arith

pub read_timestamp :
    (n : ℕ)
    → n < 2 ^ 32
    → bit_or
        (bit_or (bit_or (shl (byte (shr n 16)) 16) (shl (byte (shr n 8)) 8)) (byte n))
        (shl (byte (shr n 24)) 24)
      ≡ n
read_timestamp n h =
    or_four (byte (shr n 16)) (byte (shr n 8)) (byte n) (byte (shr n 24)) (omega arith)
      (omega arith) (omega arith)
    ∙ omega arith
