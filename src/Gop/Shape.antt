-- ===== src/Gop/Shape.antt =====
-- The kinds of tags that `add_tag` tells apart, and what it does on each kind.
use live_cdn.Common.{◌+◌, ◌%◌, ◌^◌, ◌≡◌, refl, some, arith}
use live_cdn.Flv.{FlvTagType, audio, video, script, FlvTagPacket}
use live_cdn.Gop.{
  VideoFrameType, AudioFrameType, keyframe, inter_frame, raw_data, parse_video_frame_type,
  parse_audio_frame_type, GopCache, new_gop, add_to_current_gop, finalize_current_gop, store,
  add_tag,
}

-- Where a tag goes: a header slot of its own, a new group, or the group that is being built.
pub data Place : Type 0 where
  as_metadata as_aac_header as_video_header starts_group joins_group : Place

abbrev place_audio : AudioFrameType → Place
place_audio AudioFrameType.seq_header = as_aac_header
place_audio raw_data = joins_group
place_audio AudioFrameType.other = joins_group

abbrev place_video : VideoFrameType → Place
place_video VideoFrameType.seq_header = as_video_header
place_video keyframe = starts_group
place_video inter_frame = joins_group
place_video VideoFrameType.other = joins_group

abbrev pub place_as : FlvTagPacket → FlvTagType → Place
place_as tag script = as_metadata
place_as tag audio = place_audio (parse_audio_frame_type tag)
place_as tag video = place_video (parse_video_frame_type tag)

unfoldable pub place : FlvTagPacket → Place
place tag = place_as tag tag.tag_type

unfoldable pub counted : GopCache → GopCache
counted c = record c { total_tags = (c.total_tags + 1) % 2 ^ 64 }

-- `add_tag` by the place of the tag.
unfoldable pub put : GopCache → FlvTagPacket → Place → GopCache
unfolding new_gop
put c tag as_metadata = record c { metadata = some tag }
put c tag as_aac_header = record c { aac_seq_header = some tag }
put c tag as_video_header = record c { video_seq_header = some tag }
put c tag starts_group = record (finalize_current_gop c) { current_gop = some (new_gop tag) }
put c tag joins_group = add_to_current_gop c tag

store-put :
    (c : GopCache) (tag : FlvTagPacket) (t : FlvTagType)
    → store c tag t ≡ put c tag (place_as tag t)
unfolding store put
store-put c tag script = refl
store-put c tag audio = ground arith
store-put c tag video = ground arith

pub add_tag-put :
    (c : GopCache) (tag : FlvTagPacket) → add_tag c tag ≡ put (counted c) tag (place tag)
unfolding add_tag counted place
add_tag-put c tag = store-put _ tag tag.tag_type
