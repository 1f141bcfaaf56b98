-- ===== src/Viewer/Live/Tests.antt =====
-- One viewer over WebSocket. A keyframe is sent between the read of the cache and the subscription.
use live_cdn.Common.{ℕ, ◌+◌, ◌-◌, ◌≤◌, ◌≡◌, refl, true, none, List, [], ◌∷◌, ◌++◌, length}
use live_cdn.Flv.{video, FlvTagPacket}
use live_cdn.Gop.{GopCacheConfig, default_config, add_tag}
use live_cdn.Gop.Startup.{startup_spec}
use live_cdn.Viewer.{Relay, received, closed}
use live_cdn.Viewer.Live.{
  Watch, Phase, connecting, heading, reading, filling, subscribing, watching, Viewer, Live,
  new_live, Answer, advance, act, arrives, broadcasts, caches, acts, Reach, here, then_step,
}
use live_cdn.Viewer.Live.Counted.{is_open, has_failed, how_many, Reach-counted}
use live_cdn.Viewer.Live.Reached.{Reach-watched}

abbrev key : ℕ → FlvTagPacket
key n = record { tag_type = video; timestamp_ms = n; body = 0x17 ∷ 1 ∷ []; origin_ts = 0 }

abbrev inter : FlvTagPacket
inter = record { tag_type = video; timestamp_ms = 80; body = 0x27 ∷ 1 ∷ []; origin_ts = 0 }

abbrev relay : Relay
relay = record { client_count = 0; max_clients = 2; bytes_sent = 0 }

abbrev at : Phase → Viewer
at p = record { is_ws = true; phase = p }

abbrev yes_to : Answer
yes_to = record { write_ok = true; event = closed }

-- The viewer in `s` goes on, with this answer.
abbrev goes_on : Live → Phase → Answer → Live
goes_on s p a = act s [] (at p) [] a

abbrev shown : FlvTagPacket → Live → Live
shown t s = record s { sent = s.sent ++ t ∷ []; cache = add_tag s.cache t; pending = none }

abbrev begun : Live
begun = record (shown (key 0) (new_live relay default_config)) { viewers = at connecting ∷ [] }

abbrev reads : Live
reads = goes_on (goes_on (goes_on begun connecting yes_to) heading yes_to) reading yes_to

abbrev joins : Live
joins =
    goes_on (goes_on (shown (key 40) reads) (filling 1 (key 0 ∷ [])) yes_to)
      (subscribing 1 (key 0 ∷ [])) yes_to

abbrev at_loop : Watch
at_loop = record {
  startup = key 0 ∷ [];
  cached = 1;
  since = 2;
  next = 2;
  skipped = 0;
  tracker = live_cdn.Drop.new_tracker live_cdn.Drop.default_policy;
  written = [];
}

abbrev hears : Live
hears =
    goes_on (shown inter joins) (watching at_loop)
      (record { write_ok = true; event = received inter true })

-- The packet is broadcast, and then it is in the cache.
shown-Reach : {s t : Live} (p : FlvTagPacket) → t.pending ≡ none → Reach s t → Reach s (shown p t)
shown-Reach p free r = then_step (then_step r (broadcasts p free)) (caches p refl)

reads-Reach : Reach (new_live relay default_config) reads
unfolding act advance new_live live_cdn.Viewer.add_client
reads-Reach =
    then_step
      (then_step
        (then_step
          (shown-Reach {t = record (new_live relay default_config) { viewers = at connecting ∷ [] }}
            (key 0) refl (then_step here (arrives true)))
          (acts [] [] (at connecting) yes_to refl tt))
        (acts [] [] (at heading) yes_to refl tt))
      (acts [] [] (at reading) yes_to refl tt)

reads-viewers : reads.viewers ≡ at (filling 1 (key 0 ∷ [])) ∷ []
unfolding act advance new_live live_cdn.Viewer.add_client live_cdn.Gop.get_startup_tags
    live_cdn.Gop.add_tag live_cdn.Gop.new_cache live_cdn.Gop.parse_video_frame_type
reads-viewers = refl

hears-Reach : Reach (new_live relay default_config) hears
unfolding act advance new_live
hears-Reach =
    then_step
      (shown-Reach {t = joins} inter refl (
        then_step
          (then_step (shown-Reach {t = reads} (key 40) refl reads-Reach)
            (acts [] [] (at (filling 1 (key 0 ∷ []))) yes_to reads-viewers tt))
          (acts [] [] (at (subscribing 1 (key 0 ∷ []))) yes_to refl tt)))
      (acts [] [] (at (watching at_loop)) (record { write_ok = true; event = received inter true })
        refl refl)

-- The viewer has the first keyframe and the frame after the second one, which it does not get.
abbrev in_loop : Watch
in_loop = record {
  startup = key 0 ∷ [];
  cached = 1;
  since = 2;
  next = 3;
  skipped = 0;
  tracker = live_cdn.Drop.relieve_pressure (live_cdn.Drop.decide at_loop.tracker inter).0;
  written = inter ∷ [];
}

hears-viewers : hears.viewers ≡ at (watching in_loop) ∷ []
unfolding act advance new_live live_cdn.Viewer.serve_one live_cdn.Drop.decide
    live_cdn.Drop.should_drop live_cdn.Drop.get_packet_priority live_cdn.Gop.parse_video_frame_type
    live_cdn.Drop.new_tracker
hears-viewers = refl

Reach-watched_example :
    (front : List FlvTagPacket) × (missed : List FlvTagPacket) × (live : List FlvTagPacket)
    × (rest : List FlvTagPacket) × (hears.sent ≡ (front ++ (missed ++ live)) ++ rest)
    × (key 0 ∷ [] ≡ startup_spec default_config front)
    × (1 ≡ length front)
    × (2 ≡ length front + length missed)
    × (3 ≡ length (front ++ (missed ++ live)))
    × (◌≡◌ {A = ℕ} 0 0 → inter ∷ [] ≡ live)
Reach-watched_example =
    Reach-watched relay default_config [] [] (at (watching in_loop)) in_loop hears-Reach
      hears-viewers refl

Reach-counted_example :
    ((hears.relay).client_count
      ≡ how_many is_open hears.viewers + how_many has_failed hears.viewers)
    × ((hears.relay).client_count ≤ 2)
    × (how_many is_open hears.viewers ≤ 2 - how_many has_failed hears.viewers)
Reach-counted_example = Reach-counted relay default_config refl hears-Reach
