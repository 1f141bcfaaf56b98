-- ===== src/Drop/Tests.antt =====
-- Packets that a viewer with some lag misses.
use live_cdn.Common.{◌≡◌, refl, true, false, [], ◌∷◌}
use live_cdn.Flv.{video, FlvTagPacket}
use live_cdn.Drop.{get_packet_priority, should_drop, default_policy}

abbrev inter : FlvTagPacket
inter = record { tag_type = video; timestamp_ms = 40; body = 0x27 ∷ 1 ∷ []; origin_ts = 0 }

abbrev key : FlvTagPacket
key = record { tag_type = video; timestamp_ms = 80; body = 0x17 ∷ 1 ∷ []; origin_ts = 0 }

inter_dropped : should_drop inter 1 default_policy ≡ true
unfolding should_drop get_packet_priority live_cdn.Gop.parse_video_frame_type
inter_dropped = refl

key_kept : should_drop key 1000 default_policy ≡ false
unfolding should_drop get_packet_priority live_cdn.Gop.parse_video_frame_type
key_kept = refl
