-- ===== src/Gop/Tests.antt =====
-- The GOP cache on a short stream: headers, a lost frame, and three groups.
use live_cdn.Common.{◌≡◌, refl, ◌≤◌, List, [], ◌∷◌, length, All, ℕ}
use live_cdn.Flv.{FlvTagType, audio, video, script, FlvTagPacket}
use live_cdn.Gop.{
  GopCacheConfig, new_cache, add_all, get_startup_tags, parse_video_frame_type,
  parse_audio_frame_type, frame_kind,
}
use live_cdn.Gop.Groups.{cap, group_all, groups}
use live_cdn.Gop.Shape.{place}
use live_cdn.Gop.Startup.{startup_spec, get_startup_tags-add_all}
use live_cdn.Gop.Served.{IsGroup, kept, kept_shape}

abbrev packet : FlvTagType → List ℕ → ℕ → FlvTagPacket
packet t body ts = record { tag_type = t; timestamp_ms = ts; body = body; origin_ts = 0 }

abbrev key_at : ℕ → FlvTagPacket
key_at ts = packet video (0x17 ∷ 1 ∷ []) ts

abbrev inter_at : ℕ → FlvTagPacket
inter_at ts = packet video (0x27 ∷ 1 ∷ []) ts

abbrev two_frames : GopCacheConfig
two_frames = record { gop_count = 1; max_frames_per_gop = 2 }

-- Metadata, a frame that no keyframe precedes, the headers, and three groups.
abbrev stream : List FlvTagPacket
stream =
    packet script (2 ∷ []) 0
    ∷ inter_at 1
    ∷ packet audio (0xaf ∷ 0 ∷ []) 2
    ∷ packet video (0x17 ∷ 0 ∷ []) 3
    ∷ key_at 4
    ∷ inter_at 5
    ∷ key_at 6
    ∷ packet audio (0xaf ∷ 1 ∷ []) 7
    ∷ inter_at 8
    ∷ key_at 9
    ∷ []

-- The first group is gone, and the second has lost its third tag.
served :
    startup_spec two_frames stream
    ≡ packet script (2 ∷ []) 0
      ∷ packet audio (0xaf ∷ 0 ∷ []) 2
      ∷ packet video (0x17 ∷ 0 ∷ []) 3
      ∷ key_at 6
      ∷ packet audio (0xaf ∷ 1 ∷ []) 7
      ∷ key_at 9
      ∷ []
unfolding group_all groups place parse_video_frame_type parse_audio_frame_type frame_kind
served = refl

get_startup_tags-add_all_example :
    get_startup_tags (add_all (new_cache two_frames) stream) ≡ startup_spec two_frames stream
get_startup_tags-add_all_example = get_startup_tags-add_all two_frames stream

kept_shape_example :
    All IsGroup (kept (add_all (new_cache two_frames) stream))
    × All
        (λ (g : List FlvTagPacket). length g ≤ cap two_frames)
        (kept (add_all (new_cache two_frames) stream))
    × (length (add_all (new_cache two_frames) stream).gop_ring ≤ 1)
kept_shape_example = kept_shape two_frames stream
