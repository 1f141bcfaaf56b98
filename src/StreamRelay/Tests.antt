-- ===== src/StreamRelay/Tests.antt =====
-- Two rounds of a relay, with stand-ins for the ciphers and the hash.
use live_cdn.Common.{
  same, Bool-cases, inl, inr, true, ℕ, ◌+◌, ◌≡◌, ◌≤◌, refl, Option, none, some, List, [], ◌∷◌, map,
  codes, same_refl, length, replicate, All, ok, arith, true, false, parse_below, is_space, split_by,
  ◌^◌,
}
use live_cdn.Crypto.{encrypt, derive_chunk_key, key_len}
use live_cdn.Crypto.Toy.{toy, toy-IsAead, key_info, tag_of}
use live_cdn.Protocol.{Frame, encode}
use live_cdn.Playlist.{Float, parse_m3u8, parse_lines, parse_line, resolve_url}
use live_cdn.StreamRelay.{
  contains_key, StreamRelay, Fetch, Round, Library, new_relay, trim_front, remember, cache_segment,
  broadcast_data, pull_segment, pull_segments, pull_round, pull_all,
}
use live_cdn.Backoff.{new_backoff}
use live_cdn.Backoff.Toy.{whole}
use live_cdn.StreamRelay.Task.{Answer, answered, Reply, Turn, round_of, Task, fetch_url, run_task}
use live_cdn.StreamRelay.Task.Pulls.{relay_of, Counts, run_task-pull_all}
use live_cdn.StreamRelay.Bounds.{IsKeyOrder, pull_all-IsBounded}
use live_cdn.StreamRelay.Plain.{Plain, new_plain, plain_all}
use live_cdn.StreamRelay.Step.{IsSealing, counts}
use live_cdn.StreamRelay.Refines.{IsNoncedRound, viewed, pull_all-refines}

abbrev seconds : Float ℕ
seconds = record { f0 = 0; f2 = 2; parse_f64 = parse_below (2 ^ 53) }

abbrev sum : List ℕ → ℕ
sum [] = 0
sum (b ∷ bs) = b + sum bs

abbrev keys : List (List ℕ × ℕ) → List (List ℕ)
keys [] = []
keys ((u, n) ∷ us) = u ∷ keys us

abbrev library : Library
library = record { utf8 = λ d. d; hash = sum; key_order = keys }

abbrev fetch : List ℕ → Fetch
fetch d = record { body = some d; nonce = replicate 12 9; origin_ts = 5 }

abbrev first_round : Round
first_round = record {
  playlist = fetch (codes "#EXTINF:2,\na.ts\nb.ts\n");
  files = λ i. fetch (i ∷ []);
}

abbrev second_round : Round
second_round = record { playlist = fetch (codes "b.ts\nc.ts\n"); files = λ i. fetch (7 ∷ i ∷ []) }

abbrev rounds : List Round
rounds = first_round ∷ second_round ∷ second_round ∷ []

abbrev start_relay : StreamRelay ℕ
start_relay = new_relay (codes "http://o/s.m3u8") key_info 10 3

-- `b.ts` is taken once, and the repeated playlist is not passed on again.
abbrev passed_on : List (List ℕ)
passed_on =
    codes "#EXTINF:2,\na.ts\nb.ts\n"
    ∷ (0 ∷ [])
    ∷ (1 ∷ [])
    ∷ codes "b.ts\nc.ts\n"
    ∷ (7 ∷ 1 ∷ [])
    ∷ []

abbrev plain_log : Option Plain → List (List ℕ)
plain_log none = []
plain_log (some p) = p.log

plain_rounds :
    plain_log (plain_all seconds library (codes "http://o/s.m3u8") new_plain rounds) ≡ passed_on
unfolding plain_all parse_m3u8 parse_lines parse_line parse_below resolve_url is_space split_by
    remember
plain_rounds = refl

abbrev relay_after : Option (StreamRelay ℕ) → StreamRelay ℕ
relay_after none = start_relay
relay_after (some s) = s

abbrev end_relay : StreamRelay ℕ
end_relay = relay_after (pull_all seconds toy library start_relay rounds)

end_relay-pulled : pull_all seconds toy library start_relay rounds ≡ some end_relay
unfolding new_relay pull_all pull_round pull_segments pull_segment cache_segment broadcast_data
    trim_front remember parse_m3u8 parse_lines parse_line parse_below resolve_url is_space split_by
    encrypt derive_chunk_key key_len
end_relay-pulled = refl

length-keys : (m : List (List ℕ × ℕ)) → length (keys m) ≡ length m
length-keys [] = refl
length-keys ((u, n) ∷ us) = omega (arith, length-keys us)

All-weaken :
    (u : List ℕ) (n : ℕ) (us : List (List ℕ × ℕ)) (ks : List (List ℕ))
    → All (λ k. contains_key us k ≡ true) ks
    → All (λ k. contains_key ((u, n) ∷ us) k ≡ true) ks
All-weaken u n us [] h = tt
All-weaken u n us (k ∷ ks) h = (
  elim (Bool-cases (same u k)) [ inl e ↦ rw e refl | inr e ↦ rw e h.0 ],
  All-weaken u n us ks h.1,
)

keys-known : (m : List (List ℕ × ℕ)) → All (λ k. contains_key m k ≡ true) (keys m)
keys-known [] = tt
keys-known ((u, n) ∷ us) = (rw (same_refl u) refl, All-weaken u n us (keys us) (keys-known us))

library-IsKeyOrder : IsKeyOrder library
library-IsKeyOrder = record { count = length-keys; known = keys-known }

pull_all-IsBounded_example : (length end_relay.segments ≤ 3) × (length end_relay.fetched_urls ≤ 100)
pull_all-IsBounded_example =
    pull_all-IsBounded seconds toy library (codes "http://o/s.m3u8") key_info 10 3 rounds end_relay
      library-IsKeyOrder end_relay-pulled

toy-IsSealing : IsSealing toy key_info
toy-IsSealing = record { fits = λ seq. refl; seals = λ suite key nonce p. (p, tag_of key, refl) }

rounds-IsNonced : All IsNoncedRound rounds
rounds-IsNonced = ((refl, λ i. refl), ((refl, λ i. refl), ((refl, λ i. refl), tt)))

pull_all-refines_example :
    (p : Plain) × (plain_all seconds library (codes "http://o/s.m3u8") new_plain rounds ≡ some p)
    × (frames : List Frame) × (end_relay.broadcast ≡ map encode frames)
    × (map (λ f. f.seq) frames ≡ counts (length frames))
    × (viewed toy key_info frames ≡ map ok p.log)
pull_all-refines_example =
    pull_all-refines seconds toy library (codes "http://o/s.m3u8") key_info 10 3 rounds end_relay
      toy-IsAead toy-IsSealing rounds-IsNonced end_relay-pulled

abbrev reply : Answer → Reply
reply a = record { answer = a; nonce = replicate 12 9; origin_ts = 5 }

-- A round that fetches its playlist, and one that is refused.
abbrev fetches : Turn
fetches = record {
  running = true;
  playlist = reply (answered 200 (some (codes "#EXTINF:2,\na.ts\n")));
  files = λ i. reply (answered 200 (some (i ∷ [])));
  seed = 7;
}

abbrev refused : Turn
refused = record fetches { playlist = reply (answered 503 none) }

abbrev stops : Turn
stops = record fetches { running = false }

abbrev task : Task ℕ ℕ
task = record { relay = start_relay; backoff = new_backoff whole 2 60; waits = [] }

abbrev turns : List Turn
turns = fetches ∷ refused ∷ refused ∷ stops ∷ fetches ∷ []

run_task-pull_all_example :
    (relay_of (run_task seconds toy library whole task turns)
      ≡ pull_all seconds toy library start_relay (map round_of (fetches ∷ refused ∷ refused ∷ [])))
    × Counts 2 (run_task seconds toy library whole task turns)
unfolding new_backoff fetch_url
run_task-pull_all_example = run_task-pull_all seconds toy library whole turns task (omega arith)
