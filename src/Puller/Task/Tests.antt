-- ===== src/Puller/Task/Tests.antt =====
-- The pull task on short lives: connections that break, and one that ends.
use live_cdn.Common.{◌+◌, ◌≡◌, ◌≢◌, refl, true, [], ◌∷◌, none, some, length, arith, err}
use live_cdn.Flv.{FlvTagPacket, video, build_flv_header}
use live_cdn.Gop.{default_config, new_cache, get_startup_tags}
use live_cdn.Gop.Startup.{startup_spec}
use live_cdn.Viewer.{wires}
use live_cdn.Backoff.{base_secs}
use live_cdn.Backoff.Toy.{whole}
use live_cdn.Puller.{
  chunk, broken, start_pull, parse_header, parse_tag, emit, round, parse_loop, parse_all, on_chunk,
  pull_loop,
}
use live_cdn.Puller.Task.{
  Shared, Response, unreachable, answered, connect, read_chunk, no_end, pull_flv_stream, Turn,
  new_task, run_task, turn, after_pull, result_of,
}
use live_cdn.Puller.Task.Startup.{run_task-startup}
use live_cdn.Puller.Task.Losses.{IsLost, run_task_lost}
use live_cdn.Puller.Task.Ends.{pull_flv_stream-ends}

abbrev key : FlvTagPacket
key = record { tag_type = video; timestamp_ms = 0; body = 0x17 ∷ 1 ∷ []; origin_ts = 5 }

-- A response whose header has its size, 9, where the parser looks for it, then one packet, and an
-- error while reading.
abbrev live : Response
live = answered 200 (
    chunk true (0x46 ∷ 0x4c ∷ 0x56 ∷ 1 ∷ 5 ∷ 0 ∷ 0 ∷ 9 ∷ 0 ∷ 0 ∷ 0 ∷ [])
    ∷ chunk true (0 ∷ 0 ∷ wires (key ∷ []))
    ∷ broken true
    ∷ [])

abbrev breaks : Turn
breaks = record { running = true; clock = λ n. 100 + n; response = live; seed = 7 }

abbrev refuses : Turn
refuses = record { running = true; clock = λ n. n; response = unreachable; seed = 8 }

run_task-startup_example :
    let s =
      (run_task whole
        (new_task whole (1 ∷ []) none default_config)
        (breaks ∷ refuses ∷ breaks ∷ [])).shared in
    get_startup_tags s.cache ≡ startup_spec default_config s.sent
run_task-startup_example =
    run_task-startup whole (1 ∷ []) none default_config (breaks ∷ refuses ∷ breaks ∷ [])

abbrev nothing_sent : Shared
nothing_sent = record { sent = []; cache = new_cache default_config }

pull_flv_stream-ends_example : (pull_flv_stream (λ n. n) nothing_sent live).1 ≢ err no_end
pull_flv_stream-ends_example = pull_flv_stream-ends (λ n. n) nothing_sent live

refuses-IsLost : IsLost refuses
unfolding pull_flv_stream
refuses-IsLost = (refl, λ s. (connect, refl))

-- The packet arrives, and the connection is lost all the same.
breaks-IsLost : IsLost breaks
unfolding pull_flv_stream pull_loop on_chunk parse_all parse_loop round parse_header parse_tag emit
    start_pull result_of live_cdn.Flv.build_flv_tag_wire live_cdn.Flv.tag_try_from
breaks-IsLost = (refl, λ s. (read_chunk, refl))

broadcast_twice :
    length
      ((run_task whole
          (new_task whole (1 ∷ []) none default_config)
          (breaks ∷ refuses ∷ breaks ∷ [])).shared
        ).sent
    ≡ 2
unfolding run_task turn after_pull pull_flv_stream pull_loop on_chunk parse_all parse_loop round
    parse_header parse_tag emit start_pull new_task result_of live_cdn.Flv.build_flv_tag_wire
    live_cdn.Flv.tag_try_from
broadcast_twice = refl

run_task_lost_example :
    ((run_task whole
        (new_task whole (1 ∷ []) (some (2 ∷ [])) default_config)
        (breaks ∷ refuses ∷ breaks ∷ [])).urls
      ≡ (1 ∷ []) ∷ (2 ∷ []) ∷ (1 ∷ []) ∷ [])
    × ((run_task whole
          (new_task whole (1 ∷ []) none default_config)
          (breaks ∷ refuses ∷ breaks ∷ [])).urls
        ≡ (1 ∷ []) ∷ (1 ∷ []) ∷ (1 ∷ []) ∷ [])
    × (base_secs whole
          (run_task whole
            (new_task whole (1 ∷ []) (some (2 ∷ [])) default_config)
            (breaks ∷ refuses ∷ breaks ∷ [])).backoff
        ≡ 16)
run_task_lost_example =
    run_task_lost whole (1 ∷ []) (2 ∷ []) default_config (breaks ∷ refuses ∷ breaks ∷ [])
      (breaks-IsLost, (refuses-IsLost, (breaks-IsLost, tt))) (omega arith)
