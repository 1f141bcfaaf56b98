-- ===== src/Viewer/Live.antt =====
-- A relay of agent-rust/src/relay/flv.rs while its puller and its viewers run at the same time. The
-- puller first broadcasts a packet and then feeds it to the cache; each viewer is at one of the
-- places where its handler in agent-rust/src/main.rs waits, over HTTP or over WebSocket. A step of
-- the system is one of them going on to its next such place.
pub mod Counted
pub mod Followed
pub mod Reached
mod Tests
use live_cdn.Common.{
  ℕ, ◌+◌, ◌-◌, ◌≤◌, ◌≡◌, Bool, true, false, Option, none, some, List, [], ◌∷◌, ◌++◌, if◌then◌else◌,
  length, get_elem?,
}
use live_cdn.Flv.{FlvTagPacket}
use live_cdn.Gop.{GopCache, GopCacheConfig, new_cache, add_tag, get_startup_tags, opt_list}
use live_cdn.Drop.{BackpressureTracker, default_policy, new_tracker}
use live_cdn.Viewer.{
  RecvEvent, received, lagged, closed, Relay, Loop, add_client, remove_client, record_bytes_sent,
  serve_one, wires,
}

-- A viewer in its send loop: what it got at the start, how many packets the cache had been fed with
-- when it was read, the viewer's place in the channel (the number of the packet at which it
-- subscribed, and of the next one), how many packets the channel has skipped for it, and what has
-- been written.
pub record Watch : Type 0 where
  pub startup : List FlvTagPacket
  pub cached : ℕ
  pub since : ℕ
  pub next : ℕ
  pub skipped : ℕ
  pub tracker : BackpressureTracker
  pub written : List FlvTagPacket

-- Before `add_client`, the response, the FLV header, `get_startup_tags`, the write of its tags,
-- `subscribe`, in the loop, before `remove_client`; and the three ends.
pub data Phase : Type 0 where
  connecting responding heading reading leaving : Phase
  filling : ℕ → List FlvTagPacket → Phase
  subscribing : ℕ → List FlvTagPacket → Phase
  watching : Watch → Phase
  turned_away failed left : Phase

pub record Viewer : Type 0 where
  pub is_ws : Bool
  pub phase : Phase

pub record Live : Type 0 where
  pub relay : Relay
  pub cache : GopCache
  pub pending : Option FlvTagPacket
  pub sent : List FlvTagPacket
  pub viewers : List Viewer

pub new_live : Relay → GopCacheConfig → Live
new_live relay config = record {
  relay = relay;
  cache = new_cache config;
  pending = none;
  sent = [];
  viewers = [];
}

-- What a write answers, and what the channel gives.
pub record Answer : Type 0 where
  pub write_ok : Bool
  pub event : RecvEvent

-- The place in the channel after `recv`.
pub moved : Watch → RecvEvent → Watch
moved w (received t ok) = record w { next = w.next + 1 }
moved w (lagged n) = record w { next = w.next + n; skipped = w.skipped + n }
moved w closed = w

-- The loop's round is over, and goes on or not.
pub served : Watch → Loop × Bool → Relay × Phase
served w (s, true) = (s.relay, watching (record w { tracker = s.tracker; written = s.written }))
served w (s, false) = (s.relay, leaving)

abbrev pub loop_of : Relay → Watch → Loop
loop_of r w = record { tracker = w.tracker; relay = r; written = w.written }

-- Nothing is written for a cache that has nothing.
abbrev pub filled : ℕ → List FlvTagPacket → Phase
filled n [] = subscribing n []
filled n (t ∷ ts) = filling n (t ∷ ts)

-- How many packets the cache has been fed with.
abbrev pub fed_so_far : Live → ℕ
fed_so_far s = length s.sent - length (opt_list s.pending)

-- What a viewer does next.
pub advance : Live → Bool → Phase → Answer → Relay × Phase
unfolding moved served
advance s is_ws connecting a =
    let (r, ok) = add_client s.relay in
    if ok then (r, (if is_ws then heading else responding)) else (r, turned_away)
advance s is_ws responding a = if a.write_ok then (s.relay, heading) else (s.relay, failed)
advance s is_ws heading a =
    if a.write_ok
    then (s.relay, reading)
    else if is_ws
    then (s.relay, leaving)
    else (s.relay, failed)
advance s is_ws reading a = (s.relay, filled (fed_so_far s) (get_startup_tags s.cache))
advance s is_ws (filling n ts) a =
    if a.write_ok
    then (record_bytes_sent s.relay (length (wires ts)), subscribing n ts)
    else (s.relay, leaving)
advance s is_ws (subscribing n ts) a = (
  s.relay,
  watching (record {
    startup = ts;
    cached = n;
    since = length s.sent;
    next = length s.sent;
    skipped = 0;
    tracker = new_tracker default_policy;
    written = [];
  }),
)
advance s is_ws (watching w) a = served (moved w a.event) (serve_one (loop_of s.relay w) a.event)
advance s is_ws leaving a = (remove_client s.relay, left)
advance s is_ws turned_away a = (s.relay, turned_away)
advance s is_ws failed a = (s.relay, failed)
advance s is_ws left a = (s.relay, left)

-- What tokio's broadcast channel promises: a receiver gets the packet at its place, or is told how
-- many of those that have been sent it has missed.
abbrev pub Heard : List FlvTagPacket → Phase → RecvEvent → Type 0
Heard sent (watching w) (received t ok) = get_elem? sent w.next ≡ some t
Heard sent (watching w) (lagged n) = w.next + n ≤ length sent
Heard sent (watching w) closed = Unit {0}
Heard sent other e = Unit {0}

-- The state after the viewer between `l` and `r` has gone on.
pub act : Live → List Viewer → Viewer → List Viewer → Answer → Live
act s l v r a =
    let (relay, phase) = advance s v.is_ws v.phase a in
    record s { relay = relay; viewers = l ++ record v { phase = phase } ∷ r }

pub data Step (s : Live) : Live → Type 0 where
  arrives :
      (is_ws : Bool)
      → Step s
          (record s { viewers = s.viewers ++ record { is_ws = is_ws; phase = connecting } ∷ [] })
  broadcasts :
      (t : FlvTagPacket)
      → s.pending ≡ none
      → Step s (record s { sent = s.sent ++ t ∷ []; pending = some t })
  caches :
      (t : FlvTagPacket)
      → s.pending ≡ some t
      → Step s (record s { cache = add_tag s.cache t; pending = none })
  acts :
      (l r : List Viewer) (v : Viewer) (a : Answer)
      → s.viewers ≡ l ++ v ∷ r
      → Heard s.sent v.phase a.event
      → Step s (act s l v r a)

pub data Reach (s : Live) : Live → Type 0 where
  here : Reach s s
  then_step : {t u : Live} → Reach s t → Step t u → Reach s u
