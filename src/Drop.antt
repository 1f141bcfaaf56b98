-- ===== src/Drop.antt =====
-- agent-rust/src/relay/packet_drop.rs: which packets a slow viewer misses. Counters are u64, the
-- count of consecutive drops a u32.
pub mod Priority
pub mod Stats
mod Tests
use live_cdn.Common.{ℕ, ◌+◌, ◌-◌, ◌%◌, ◌^◌, Bool, true, false, ◌&&◌, List, ltb, ◌==◌, if◌then◌else◌}
use live_cdn.Flv.{FlvTagType, audio, video, script, FlvTagPacket}
use live_cdn.Gop.{
  VideoFrameType, AudioFrameType, keyframe, inter_frame, raw_data, parse_video_frame_type,
  parse_audio_frame_type,
}

pub data PacketPriority : Type 0 where
  low medium high : PacketPriority

abbrev pub is_high : PacketPriority → Bool
is_high low = false
is_high medium = false
is_high high = true

pub record DropPolicy : Type 0 where
  pub light_pressure_threshold : ℕ
  pub medium_pressure_threshold : ℕ
  pub drop_audio_enabled : Bool

abbrev pub default_policy : DropPolicy
default_policy = record {
  light_pressure_threshold = 10;
  medium_pressure_threshold = 50;
  drop_audio_enabled = false;
}

abbrev video_priority : VideoFrameType → PacketPriority
video_priority VideoFrameType.seq_header = high
video_priority keyframe = high
video_priority inter_frame = low
video_priority VideoFrameType.other = medium

abbrev audio_priority : AudioFrameType → PacketPriority
audio_priority AudioFrameType.seq_header = high
audio_priority raw_data = medium
audio_priority AudioFrameType.other = medium

priority_as : FlvTagPacket → FlvTagType → PacketPriority
priority_as tag script = high
priority_as tag video = video_priority (parse_video_frame_type tag)
priority_as tag audio = audio_priority (parse_audio_frame_type tag)

unfoldable pub get_packet_priority : FlvTagPacket → PacketPriority
unfolding priority_as
get_packet_priority tag = priority_as tag tag.tag_type

-- The last match of `should_drop`.
drop_by : PacketPriority → ℕ → DropPolicy → Bool
drop_by low lag_count policy = ltb 0 lag_count
drop_by medium lag_count policy =
    policy.drop_audio_enabled && ltb policy.medium_pressure_threshold lag_count
drop_by high lag_count policy = false

unfoldable pub should_drop : FlvTagPacket → ℕ → DropPolicy → Bool
unfolding drop_by
should_drop tag lag_count policy =
    let priority = get_packet_priority tag in
    if is_high priority
    then false
    else if lag_count == 0
    then false
    else drop_by priority lag_count policy

pub record BackpressureTracker : Type 0 where
  pub lag_count : ℕ
  pub consecutive_drops : ℕ
  pub total_drops : ℕ
  pub total_packets : ℕ
  pub policy : DropPolicy

unfoldable pub new_tracker : DropPolicy → BackpressureTracker
new_tracker policy = record {
  lag_count = 0;
  consecutive_drops = 0;
  total_drops = 0;
  total_packets = 0;
  policy = policy;
}

unfoldable pub report_lag : BackpressureTracker → ℕ → BackpressureTracker
report_lag t lag = record t { lag_count = lag }

unfoldable pub relieve_pressure : BackpressureTracker → BackpressureTracker
relieve_pressure t = record t {
  lag_count = if ltb 0 t.lag_count then t.lag_count - 1 else t.lag_count;
  consecutive_drops = 0;
}

-- The method `should_drop`, which counts.
unfoldable pub decide : BackpressureTracker → FlvTagPacket → BackpressureTracker × Bool
decide t tag =
    let drop = should_drop tag t.lag_count t.policy in
    let seen = record t { total_packets = (t.total_packets + 1) % 2 ^ 64 } in
    if drop
    then (
      record seen {
        consecutive_drops = (t.consecutive_drops + 1) % 2 ^ 32;
        total_drops = (t.total_drops + 1) % 2 ^ 64;
      },
      drop,
    )
    else (record seen { consecutive_drops = 0 }, drop)

pub is_severe_pressure : BackpressureTracker → Bool
is_severe_pressure t = ltb t.policy.medium_pressure_threshold t.lag_count
