-- ===== src/Drop/Stats.antt =====
-- The statistics of the tracker: `drop_rate` and `stats` of agent-rust/src/relay/packet_drop.rs.
use live_cdn.Common.{
  ℕ, ◌+◌, ◌^◌, ◌≤◌, ◌<◌, ◌≡◌, Bool, List, [], ◌∷◌, if◌then◌else◌, ◌==◌, length, arith,
}
use live_cdn.Flv.{FlvTagPacket}
use live_cdn.Backoff.{F64}
use live_cdn.Drop.{BackpressureTracker, decide, is_severe_pressure}

pub record BackpressureStats (T : Type 0) : Type 0 where
  pub lag_count : ℕ
  pub consecutive_drops : ℕ
  pub total_drops : ℕ
  pub total_packets : ℕ
  pub drop_rate : T
  pub is_severe : Bool

module _ {T : Type 0} (F : F64 T) where
  unfoldable pub drop_rate : BackpressureTracker → T
  drop_rate t =
      if t.total_packets == 0
      then F.literal 0 0
      else F.div (F.from_u64 t.total_drops) (F.from_u64 t.total_packets)

  pub tracker_stats : BackpressureTracker → BackpressureStats T
  tracker_stats t = record {
    lag_count = t.lag_count;
    consecutive_drops = t.consecutive_drops;
    total_drops = t.total_drops;
    total_packets = t.total_packets;
    drop_rate = drop_rate t;
    is_severe = is_severe_pressure t;
  }

decide_all : BackpressureTracker → List FlvTagPacket → BackpressureTracker
decide_all t [] = t
decide_all t (tag ∷ tags) = decide_all (decide t tag).0 tags

-- Over any packets, while the count does not overflow, no more packets are counted as dropped than
-- have been seen, so that the rate is of a number to one that is not less.
decide_all-drops :
    (tags : List FlvTagPacket) (t : BackpressureTracker)
    → t.total_drops ≤ t.total_packets
    → t.total_packets + length tags < 2 ^ 64
    → ((decide_all t tags).total_drops ≤ (decide_all t tags).total_packets)
      × ((decide_all t tags).total_packets ≡ t.total_packets + length tags)
unfolding decide_all decide
decide_all-drops [] t h k = (h, omega arith)
decide_all-drops (tag ∷ tags) t h k = ground (arith, decide_all-drops tags (decide t tag).0)
