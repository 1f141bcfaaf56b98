-- ===== src/Gop.antt =====
-- agent-rust/src/relay/gop_cache.rs: the cache of the last groups of pictures (GOPs) and of the
-- stream's headers, from which a new viewer is served at once. Counts are u64 or usize.
pub mod Shape
pub mod Groups
pub mod Startup
pub mod Served
mod Tests
use live_cdn.Common.{
  ℕ, suc, ◌+◌, ◌/◌, ◌%◌, ◌^◌, Bool, true, false, ◌&&◌, ◌||◌, not, Option, none, some, List, [], ◌∷◌,
  ◌++◌, ltb, ◌==◌, if◌then◌else◌, length, byte_at, bit_and, shr, is_nil, is_some,
}
use live_cdn.Flv.{FlvTagType, audio, video, script, FlvTagPacket}

pub data VideoFrameType : Type 0 where
  keyframe inter_frame seq_header other : VideoFrameType

pub data AudioFrameType : Type 0 where
  seq_header raw_data other : AudioFrameType

abbrev pub is_video : FlvTagType → Bool
is_video audio = false
is_video video = true
is_video script = false

abbrev pub is_audio : FlvTagType → Bool
is_audio audio = true
is_audio video = false
is_audio script = false

frame_kind : ℕ → VideoFrameType
frame_kind frame_type =
    if frame_type == 1
    then keyframe
    else if frame_type == 2
    then inter_frame
    else VideoFrameType.other

unfoldable pub parse_video_frame_type : FlvTagPacket → VideoFrameType
unfolding frame_kind
parse_video_frame_type tag =
    let first_byte = byte_at tag.body 0 in
    let frame_type = bit_and (shr first_byte 4) 0x0f in
    let codec_id = bit_and first_byte 0x0f in
    if not (is_video tag.tag_type) || is_nil tag.body
    then VideoFrameType.other
    else if codec_id == 7 || codec_id == 12
    then (if ltb (length tag.body) 2
        then VideoFrameType.other
        else if byte_at tag.body 1 == 0
        then VideoFrameType.seq_header
        else frame_kind frame_type)
    else frame_kind frame_type

unfoldable pub parse_audio_frame_type : FlvTagPacket → AudioFrameType
parse_audio_frame_type tag =
    let sound_format = bit_and (shr (byte_at tag.body 0) 4) 0x0f in
    if not (is_audio tag.tag_type) || is_nil tag.body
    then AudioFrameType.other
    else if sound_format == 10
    then (if ltb (length tag.body) 2
        then AudioFrameType.other
        else if byte_at tag.body 1 == 0
        then AudioFrameType.seq_header
        else raw_data)
    else AudioFrameType.other

-- The field `keyframe` is `key` here.
pub record Gop : Type 0 where
  pub key : FlvTagPacket
  pub frames : List FlvTagPacket

pub new_gop : FlvTagPacket → Gop
new_gop tag = record { key = tag; frames = [] }

abbrev pub all_tags : Gop → List FlvTagPacket
all_tags g = g.key ∷ g.frames

abbrev pub gop_len : Gop → ℕ
gop_len g = 1 + length g.frames

pub record GopCacheConfig : Type 0 where
  pub gop_count : ℕ
  pub max_frames_per_gop : ℕ

abbrev pub default_config : GopCacheConfig
default_config = record { gop_count = 2; max_frames_per_gop = 4096 }

pub record GopCache : Type 0 where
  pub config : GopCacheConfig
  pub gop_ring : List Gop
  pub current_gop : Option Gop
  pub metadata : Option FlvTagPacket
  pub video_seq_header : Option FlvTagPacket
  pub aac_seq_header : Option FlvTagPacket
  pub hit_count : ℕ
  pub total_tags : ℕ

unfoldable pub new_cache : GopCacheConfig → GopCache
new_cache config = record {
  config = config;
  gop_ring = [];
  current_gop = none;
  metadata = none;
  video_seq_header = none;
  aac_seq_header = none;
  hit_count = 0;
  total_tags = 0;
}

-- A frame before the first keyframe, and one beyond the limit, is dropped.
pub add_to_current_gop : GopCache → FlvTagPacket → GopCache
add_to_current_gop c tag = elim c.current_gop [
  | none ↦ c
  | some gop ↦
      if ltb (gop_len gop) c.config.max_frames_per_gop
      then record c { current_gop = some (record gop { frames = gop.frames ++ tag ∷ [] }) }
      else c
]

-- `while ring.len() > n { ring.pop_front(); }`
pub evict : {A : Type 0} → ℕ → List A → List A
evict n [] = []
evict n (g ∷ gs) = let rest = evict n gs in if ltb n (length (g ∷ gs)) then rest else g ∷ gs

pub finalize_current_gop : GopCache → GopCache
finalize_current_gop c = elim c.current_gop [
  | none ↦ c
  | some gop ↦ record c {
    current_gop = none;
    gop_ring = evict c.config.gop_count (c.gop_ring ++ gop ∷ []);
  }
]

-- The match of `add_tag` on the tag's type.
store : GopCache → FlvTagPacket → FlvTagType → GopCache
unfolding finalize_current_gop new_gop add_to_current_gop
store c tag script = record c { metadata = some tag }
store c tag audio = elim (parse_audio_frame_type tag) [
  | AudioFrameType.seq_header ↦ record c { aac_seq_header = some tag }
  | raw_data ↦ add_to_current_gop c tag
  | AudioFrameType.other ↦ add_to_current_gop c tag
]
store c tag video = elim (parse_video_frame_type tag) [
  | VideoFrameType.seq_header ↦ record c { video_seq_header = some tag }
  | keyframe ↦ record (finalize_current_gop c) { current_gop = some (new_gop tag) }
  | inter_frame ↦ add_to_current_gop c tag
  | VideoFrameType.other ↦ add_to_current_gop c tag
]

unfoldable pub add_tag : GopCache → FlvTagPacket → GopCache
unfolding store
add_tag c tag = store (record c { total_tags = (c.total_tags + 1) % 2 ^ 64 }) tag tag.tag_type

abbrev pub opt_list {ℓ} : {A : Type ℓ} → Option A → List A
opt_list none = []
opt_list (some a) = a ∷ []

-- `for gop in gops { for tag in gop.all_tags() { tags.push(tag) } }`
abbrev gop_tags : List Gop → List FlvTagPacket
gop_tags [] = []
gop_tags (g ∷ gs) = all_tags g ++ gop_tags gs

unfoldable pub get_startup_tags : GopCache → List FlvTagPacket
get_startup_tags c =
    opt_list c.metadata
    ++ (opt_list c.aac_seq_header
        ++ (opt_list c.video_seq_header
            ++ (gop_tags c.gop_ring ++ gop_tags (opt_list c.current_gop))))

pub is_empty : GopCache → Bool
is_empty c = is_nil c.gop_ring && is_nil (opt_list c.current_gop)

pub record GopCacheStats : Type 0 where
  pub cached_gops : ℕ
  pub cached_frames : ℕ
  pub has_metadata : Bool
  pub has_video_seq_header : Bool
  pub has_aac_seq_header : Bool
  pub total_tags : ℕ

abbrev sum_len : List Gop → ℕ
sum_len [] = 0
sum_len (g ∷ gs) = gop_len g + sum_len gs

pub stats : GopCache → GopCacheStats
stats c = record {
  cached_gops = length c.gop_ring;
  cached_frames = sum_len c.gop_ring + sum_len (opt_list c.current_gop);
  has_metadata = is_some c.metadata;
  has_video_seq_header = is_some c.video_seq_header;
  has_aac_seq_header = is_some c.aac_seq_header;
  total_tags = c.total_tags;
}

pub clear : GopCache → GopCache
clear c = record c {
  gop_ring = [];
  current_gop = none;
  metadata = none;
  video_seq_header = none;
  aac_seq_header = none;
}

-- The tags of a stream, one after the other.
unfoldable pub add_all : GopCache → List FlvTagPacket → GopCache
add_all c [] = c
add_all c (t ∷ ts) = add_all (add_tag c t) ts
