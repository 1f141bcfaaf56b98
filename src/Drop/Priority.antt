-- ===== src/Drop/Priority.antt =====
-- What is dropped, and when.
use live_cdn.Common.{ℕ, ◌<◌, ◌≡◌, ◌≢◌, ◌↔◌, ◌⊎◌, true, arith}
use live_cdn.Flv.{FlvTagType, audio, video, script, FlvTagPacket}
use live_cdn.Gop.Shape.{place, place_as, joins_group}
use live_cdn.Drop.{low, medium, high, DropPolicy, get_packet_priority, priority_as, should_drop}

priority_as-place_as :
    (tag : FlvTagPacket) (t : FlvTagType)
    → (priority_as tag t ≡ high) ↔ (place_as tag t ≢ joins_group)
unfolding priority_as
priority_as-place_as tag audio = ground arith
priority_as-place_as tag video = ground arith
priority_as-place_as tag script = ground arith

-- The packets of high priority are exactly those that the GOP cache takes for a header or for the
-- start of a group.
pub priority-place :
    (tag : FlvTagPacket) → (get_packet_priority tag ≡ high) ↔ (place tag ≢ joins_group)
unfolding get_packet_priority place
priority-place tag = priority_as-place_as tag tag.tag_type

-- A packet is dropped exactly when the viewer lags and the packet is an inter frame, or when audio
-- may be dropped, the lag is beyond the second threshold, and the packet is of medium priority.
pub should_drop_iff :
    (tag : FlvTagPacket) (lag : ℕ) (policy : DropPolicy)
    → (should_drop tag lag policy ≡ true) ↔ (
        (get_packet_priority tag ≡ low) × (0 < lag)
        ⊎ (get_packet_priority tag ≡ medium)
          × (policy.drop_audio_enabled ≡ true)
          × (policy.medium_pressure_threshold < lag))
unfolding should_drop
should_drop_iff tag lag policy = ground arith
