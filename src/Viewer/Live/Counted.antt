-- ===== src/Viewer/Live/Counted.antt =====
-- The count of viewers in every state that the puller and the viewers can reach together.
use live_cdn.Common.{
  ℕ, ◌+◌, ◌-◌, ◌≤◌, ◌≡◌, refl, ap, ◌∙◌, Bool, true, false, List, [], ◌∷◌, ◌++◌, arith,
}
use live_cdn.Flv.{FlvTagPacket}
use live_cdn.Gop.{GopCacheConfig, get_startup_tags}
use live_cdn.Viewer.{Relay, Loop, serve_one, add_client, remove_client, record_bytes_sent}
use live_cdn.Viewer.Clients.{SameClients, serve_one-clients}
use live_cdn.Viewer.Live.{
  Watch, Phase, connecting, responding, heading, reading, leaving, filling, subscribing, watching,
  turned_away, failed, left, Viewer, Live, new_live, Answer, moved, served, loop_of, filled,
  fed_so_far, advance, act, Step, arrives, broadcasts, caches, acts, Reach, here, then_step,
}

-- Whether a viewer is connected and has been counted, and whether it has failed.
abbrev pub is_open : Phase → ℕ
is_open connecting = 0
is_open turned_away = 0
is_open failed = 0
is_open left = 0
is_open responding = 1
is_open heading = 1
is_open reading = 1
is_open leaving = 1
is_open (filling n ts) = 1
is_open (subscribing n ts) = 1
is_open (watching w) = 1

abbrev pub has_failed : Phase → ℕ
has_failed failed = 1
has_failed other = 0

-- How many viewers there are of such a kind.
pub how_many : (Phase → ℕ) → List Viewer → ℕ
how_many w [] = 0
how_many w (v ∷ vs) = w v.phase + how_many w vs

how_many-append :
    (w : Phase → ℕ) (xs ys : List Viewer) → how_many w (xs ++ ys) ≡ how_many w xs + how_many w ys
unfolding how_many
how_many-append w [] ys = omega arith
how_many-append w (x ∷ xs) ys = omega (arith, how_many-append w xs ys)

-- The count that a viewer's step makes.
abbrev Counts : Relay → Phase → Relay × Phase → Type 0
Counts r p (r', q) =
    (r'.client_count + (is_open p + has_failed p) ≡ r.client_count + (is_open q + has_failed q))
    × (r'.max_clients ≡ r.max_clients)
    × (r'.client_count ≤ r.max_clients)

filled-open :
    (n : ℕ) (ts : List FlvTagPacket) → (is_open (filled n ts) ≡ 1) × (has_failed (filled n ts) ≡ 0)
filled-open n [] = (refl, refl)
filled-open n (t ∷ ts) = (refl, refl)

served-Counts :
    (r : Relay) (w v : Watch) (o : Loop × Bool)
    → SameClients (o.0).relay r
    → r.client_count ≤ r.max_clients
    → Counts r (watching v) (served w o)
unfolding served
served-Counts r w v (s, true) h fits = omega (arith, h)
served-Counts r w v (s, false) h fits = omega (arith, h)

advance-Counts :
    (s : Live) (is_ws : Bool) (p : Phase) (a : Answer)
    → is_open p + has_failed p ≤ (s.relay).client_count
    → (s.relay).client_count ≤ (s.relay).max_clients
    → Counts s.relay p (advance s is_ws p a)
unfolding advance add_client remove_client record_bytes_sent
advance-Counts s is_ws connecting a there fits = ground arith
advance-Counts s is_ws responding a there fits = ground arith
advance-Counts s is_ws heading a there fits = ground arith
advance-Counts s is_ws reading a there fits =
    omega (arith, filled-open (fed_so_far s) (get_startup_tags s.cache))
advance-Counts s is_ws (filling n ts) a there fits = ground arith
advance-Counts s is_ws (subscribing n ts) a there fits = omega arith
advance-Counts s is_ws (watching w) a there fits =
    served-Counts s.relay (moved w a.event) w (serve_one (loop_of s.relay w) a.event)
      (serve_one-clients (loop_of s.relay w) a.event) fits
advance-Counts s is_ws leaving a there fits = ground arith
advance-Counts s is_ws turned_away a there fits = omega arith
advance-Counts s is_ws failed a there fits = omega arith
advance-Counts s is_ws left a there fits = omega arith

-- The relay counts those who are connected, and those who have failed; and not more than it may.
pub record IsCounted (limit : ℕ) (s : Live) : Type 0 where
  pub counted : (s.relay).client_count ≡ how_many is_open s.viewers + how_many has_failed s.viewers
  pub maximum : (s.relay).max_clients ≡ limit
  pub within : (s.relay).client_count ≤ limit

act-IsCounted :
    (limit : ℕ) (s : Live) (l r : List Viewer) (v : Viewer) (a : Answer)
    → s.viewers ≡ l ++ v ∷ r
    → IsCounted limit s
    → IsCounted limit (act s l v r a)
unfolding act how_many
act-IsCounted limit s l r v a at_v c =
    let open_before = how_many-append is_open l (v ∷ r) in
    let failed_before = how_many-append has_failed l (v ∷ r) in
    let opens = ap (how_many is_open) at_v ∙ open_before in
    let fails = ap (how_many has_failed) at_v ∙ failed_before in
    let (relay, phase) = advance s v.is_ws v.phase a in
    let w : Viewer = record v { phase = phase } in
    let n =
      advance-Counts s v.is_ws v.phase a (omega (arith, c.counted, opens, fails))
        (omega (arith, c.maximum, c.within)) in
    record {
      counted = omega (
        arith,
        n,
        opens,
        fails,
        c.counted,
        how_many-append is_open l (w ∷ r),
        how_many-append has_failed l (w ∷ r),
      );
      maximum = n.1 ∙ c.maximum;
      within = omega (arith, n, c.maximum);
    }

Step-IsCounted : {limit : ℕ} {s t : Live} → Step s t → IsCounted limit s → IsCounted limit t
unfolding how_many
Step-IsCounted {limit} {s} (arrives is_ws) c =
    let v : Viewer = record { is_ws = is_ws; phase = connecting } in
    record {
      counted = omega (
        arith,
        c.counted,
        how_many-append is_open s.viewers (v ∷ []),
        how_many-append has_failed s.viewers (v ∷ []),
      );
      maximum = c.maximum;
      within = c.within;
    }
Step-IsCounted (broadcasts t free) c = record {
  counted = c.counted;
  maximum = c.maximum;
  within = c.within;
}
Step-IsCounted (caches t waits) c = record {
  counted = c.counted;
  maximum = c.maximum;
  within = c.within;
}
Step-IsCounted {limit} {s} (acts l r v a at_v heard) c = act-IsCounted limit s l r v a at_v c

Reach-IsCounted : {limit : ℕ} {s t : Live} → IsCounted limit s → Reach s t → IsCounted limit t
Reach-IsCounted c here = c
Reach-IsCounted c (then_step r st) = Step-IsCounted st (Reach-IsCounted c r)

-- In whatever order the puller and any number of viewers take their steps, over both protocols and
-- whatever the network answers, from a relay without viewers: the relay counts exactly the viewers
-- that are connected and those that have failed, who hung up before the stream; this is never more
-- than its limit, and each one who failed takes a place from the others for good.
pub Reach-counted :
    (relay : Relay) (config : GopCacheConfig) {s : Live}
    → relay.client_count ≡ 0
    → Reach (new_live relay config) s
    → ((s.relay).client_count ≡ how_many is_open s.viewers + how_many has_failed s.viewers)
      × ((s.relay).client_count ≤ relay.max_clients)
      × (how_many is_open s.viewers ≤ relay.max_clients - how_many has_failed s.viewers)
unfolding new_live how_many
Reach-counted relay config none_yet r =
    let c =
      Reach-IsCounted {limit = relay.max_clients}
        (record { counted = omega arith; maximum = refl; within = omega arith }) r in
    omega (arith, c.counted, c.within)
