-- ===== src/Viewer/Live/Reached.antt =====
-- What a viewer has, in every state that can be reached: from `Followed`, by induction on the steps.
use live_cdn.Common.{
  ℕ, ◌+◌, ◌≡◌, refl, ap, ◌∙◌, sym, subst, Bool, List, [], ◌∷◌, ◌++◌, append-nil, arith, length,
  length-append, All, All-append, All-right, All-left, inl, inr, Bool-cases,
}
use live_cdn.Flv.{FlvTagPacket}
use live_cdn.Gop.{GopCacheConfig, new_cache, add_tag, add_all, get_startup_tags, opt_list}
use live_cdn.Gop.Startup.{startup_spec, get_startup_tags-add_all, add_all-snoc}
use live_cdn.Drop.{new_tracker, default_policy}
use live_cdn.Viewer.{Relay}
use live_cdn.Viewer.Live.{
  Watch, Phase, connecting, responding, heading, reading, leaving, filling, subscribing, watching,
  turned_away, failed, left, Viewer, Live, new_live, Answer, filled, fed_so_far, advance, Heard,
  act, Step, arrives, broadcasts, caches, acts, Reach, here, then_step,
}
use live_cdn.Viewer.Live.Followed.{Opens, Watches, Follows, Follows-snoc, watching-Follows}

-- The cache holds what has been broadcast, but for a packet that is on its way into it; and every
-- viewer has of the stream what it should.
pub record IsFollowed (config : GopCacheConfig) (s : Live) : Type 0 where
  pub done : List FlvTagPacket
  pub stream : s.sent ≡ done ++ opt_list s.pending
  pub cached : s.cache ≡ add_all (new_cache config) done
  pub each : All (λ (v : Viewer). Follows config s.sent v.phase) s.viewers

module _ (config : GopCacheConfig) where
  filled-Follows :
      (sent : List FlvTagPacket) (n : ℕ) (ts : List FlvTagPacket)
      → Opens config sent n ts
      → Follows config sent (filled n ts)
  unfolding Follows
  filled-Follows sent n [] h = h
  filled-Follows sent n (t ∷ ts) h = h

  subscribed-Watches :
      (sent : List FlvTagPacket) (n : ℕ) (ts : List FlvTagPacket)
      → Opens config sent n ts
      → Watches config sent (record {
        startup = ts;
        cached = n;
        since = length sent;
        next = length sent;
        skipped = 0;
        tracker = new_tracker default_policy;
        written = [];
      })
  unfolding new_tracker
  subscribed-Watches sent n ts (front, rest, e, m, h) = record {
    front = front;
    missed = rest;
    live = [];
    rest = [];
    stream =
        e ∙ sym (append-nil (front ++ rest)) ∙ ap (λ x. (front ++ x) ++ []) (sym (append-nil rest));
    startup = h;
    cached = m;
    since = ap length e ∙ length-append front rest;
    next = ap length e ∙ ap (λ x. length (front ++ x)) (sym (append-nil rest));
    whole = λ z. (refl, refl);
  }

  advance-Follows :
      (s : Live) (is_ws : Bool) (p : Phase) (a : Answer)
      → IsFollowed config s
      → Follows config s.sent p
      → Heard s.sent p a.event
      → Follows config s.sent (advance s is_ws p a).1
  unfolding advance Follows
  advance-Follows s is_ws connecting a i h heard = ground arith
  advance-Follows s is_ws responding a i h heard = ground arith
  advance-Follows s is_ws heading a i h heard = ground arith
  advance-Follows s is_ws reading a i h heard =
      filled-Follows s.sent (fed_so_far s) (get_startup_tags s.cache) (
        i.done,
        opt_list s.pending,
        i.stream,
        omega (arith, ap length i.stream, length-append i.done (opt_list s.pending)),
        ap get_startup_tags i.cached ∙ get_startup_tags-add_all config i.done,
      )
  advance-Follows s is_ws (filling n ts) a i h heard = elim (Bool-cases a.write_ok) [
    | inl good ↦ rw good h
    | inr bad ↦ rw bad tt
  ]
  advance-Follows s is_ws (subscribing n ts) a i h heard = subscribed-Watches s.sent n ts h
  advance-Follows s is_ws (watching w) a i h heard =
      watching-Follows config s.sent s.relay w a.event h heard
  advance-Follows s is_ws leaving a i h heard = tt
  advance-Follows s is_ws turned_away a i h heard = tt
  advance-Follows s is_ws failed a i h heard = tt
  advance-Follows s is_ws left a i h heard = tt

  act-IsFollowed :
      (s : Live) (l r : List Viewer) (v : Viewer) (a : Answer)
      → s.viewers ≡ l ++ v ∷ r
      → Heard s.sent v.phase a.event
      → IsFollowed config s
      → IsFollowed config (act s l v r a)
  unfolding act
  act-IsFollowed s l r v a at_v heard i =
      let P : Viewer → Type 0 = λ u. Follows config s.sent u.phase in
      let each : All P (l ++ v ∷ r) = subst (All P) at_v i.each in
      let (mine, others) : P v × All P r = All-right P l (v ∷ r) each in
      record {
        done = i.done;
        stream = i.stream;
        cached = i.cached;
        each =
            All-append P l _ (All-left P l (v ∷ r) each)
              (advance-Follows s v.is_ws v.phase a i mine heard, others);
      }

  Follows-each :
      (sent : List FlvTagPacket) (t : FlvTagPacket) (vs : List Viewer)
      → All (λ (v : Viewer). Follows config sent v.phase) vs
      → All (λ (v : Viewer). Follows config (sent ++ t ∷ []) v.phase) vs
  Follows-each sent t [] h = tt
  Follows-each sent t (v ∷ vs) h =
      (Follows-snoc config sent t v.phase h.0, Follows-each sent t vs h.1)

  Step-IsFollowed : {s t : Live} → Step s t → IsFollowed config s → IsFollowed config t
  unfolding Follows
  Step-IsFollowed {s} (arrives is_ws) i = record {
    done = i.done;
    stream = i.stream;
    cached = i.cached;
    each = All-append (λ (v : Viewer). Follows config s.sent v.phase) s.viewers _ i.each (tt, tt);
  }
  Step-IsFollowed {s} (broadcasts t free) i = record {
    done = i.done;
    stream =
        ap (λ x. x ++ t ∷ []) (i.stream ∙ ap (λ p. i.done ++ opt_list p) free ∙ append-nil i.done);
    cached = i.cached;
    each = Follows-each s.sent t s.viewers i.each;
  }
  Step-IsFollowed {s} (caches t waits) i = record {
    done = i.done ++ t ∷ [];
    stream = i.stream ∙ ap (λ p. i.done ++ opt_list p) waits ∙ sym (append-nil (i.done ++ t ∷ []));
    cached = ap (λ c. add_tag c t) i.cached ∙ sym (add_all-snoc i.done (new_cache config) t);
    each = i.each;
  }
  Step-IsFollowed {s} (acts l r v a at_v heard) i = act-IsFollowed s l r v a at_v heard i

  Reach-IsFollowed : {s t : Live} → IsFollowed config s → Reach s t → IsFollowed config t
  Reach-IsFollowed i here = i
  Reach-IsFollowed i (then_step r st) = Step-IsFollowed st (Reach-IsFollowed i r)

-- In whatever order the puller and the viewers take their steps, with a channel that gives each
-- receiver the packets in order or says how many it has skipped (`Heard`): the stream so far is cut
-- in four for each viewer who is in the loop. The start-up data are exactly `startup_spec` of the
-- first part, which is all that the cache had been fed with when it was read; the second is what was
-- sent from then on until the viewer subscribed, and is lost to it; of the third, if the channel has
-- skipped nothing, every packet has been written, in order; the fourth is to come.
pub Reach-watched :
    (relay : Relay) (config : GopCacheConfig) {s : Live} (l r : List Viewer) (v : Viewer)
    (w : Watch)
    → Reach (new_live relay config) s
    → s.viewers ≡ l ++ v ∷ r
    → v.phase ≡ watching w
    → (front : List FlvTagPacket) × (missed : List FlvTagPacket) × (live : List FlvTagPacket)
      × (rest : List FlvTagPacket) × (s.sent ≡ (front ++ (missed ++ live)) ++ rest)
      × (w.startup ≡ startup_spec config front)
      × (w.cached ≡ length front)
      × (w.since ≡ length front + length missed)
      × (w.next ≡ length (front ++ (missed ++ live)))
      × (w.skipped ≡ 0 → w.written ≡ live)
unfolding new_live add_all Follows
Reach-watched relay config {s} l r v w reached at_v in_loop =
    let i =
      Reach-IsFollowed config {s = new_live relay config}
        (record { done = []; stream = refl; cached = refl; each = tt }) reached in
    let P : Viewer → Type 0 = λ u. Follows config s.sent u.phase in
    let mine : P v × All P r = All-right P l (v ∷ r) (subst (All P) at_v i.each) in
    let h : Watches config s.sent w = subst (Follows config s.sent) in_loop mine.0 in
    (
      h.front,
      h.missed,
      h.live,
      h.rest,
      h.stream,
      h.startup,
      h.cached,
      h.since,
      h.next,
      λ z. (h.whole z).0,
    )
