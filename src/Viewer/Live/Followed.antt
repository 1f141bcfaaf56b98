-- ===== src/Viewer/Live/Followed.antt =====
-- What each viewer has of the stream, in every state that the puller and the viewers can reach
-- together.
use live_cdn.Common.{
  ℕ, ◌+◌, ◌≤◌, ◌≡◌, refl, ap, ◌∙◌, sym, subst, inl, inr, Bool, true, false, some, List, [], ◌∷◌,
  ◌++◌, append-nil, append_assoc, arith, length, length-append, get_elem?, get_elem?-append,
  Bool-cases, take, drop, length-take, take-drop,
}
use live_cdn.Flv.{FlvTagPacket}
use live_cdn.Gop.{GopCacheConfig}
use live_cdn.Gop.Startup.{startup_spec}
use live_cdn.Drop.{decide, relieve_pressure, should_drop, report_lag}
use live_cdn.Viewer.{Relay, RecvEvent, received, lagged, closed, Loop, serve_one}
use live_cdn.Viewer.Live.{
  Watch, Phase, connecting, responding, heading, reading, leaving, filling, subscribing, watching,
  turned_away, failed, left, moved, served, loop_of, Heard,
}

module _ (config : GopCacheConfig) (sent : List FlvTagPacket) where
  -- A viewer's start-up data are those of the first part of the stream, of this length.
  abbrev pub Opens : ℕ → List FlvTagPacket → Type 0
  Opens n startup =
      (front : List FlvTagPacket) × (rest : List FlvTagPacket) × (sent ≡ front ++ rest)
      × (n ≡ length front)
      × (startup ≡ startup_spec config front)

  -- The stream from a viewer in its loop: the part that its start-up data are made of, what was sent
  -- before it subscribed, what the channel has gone through for it, and the rest. If the channel has
  -- skipped nothing, all of the third part is written.
  pub record Watches (w : Watch) : Type 0 where
    pub front : List FlvTagPacket
    pub missed : List FlvTagPacket
    pub live : List FlvTagPacket
    pub rest : List FlvTagPacket
    pub stream : sent ≡ (front ++ (missed ++ live)) ++ rest
    pub startup : w.startup ≡ startup_spec config front
    pub cached : w.cached ≡ length front
    pub since : w.since ≡ length front + length missed
    pub next : w.next ≡ length (front ++ (missed ++ live))
    pub whole : w.skipped ≡ 0 → (w.written ≡ live) × ((w.tracker).lag_count ≡ 0)

  unfoldable pub Follows : Phase → Type 0
  Follows (filling n ts) = Opens n ts
  Follows (subscribing n ts) = Opens n ts
  Follows (watching w) = Watches w
  Follows connecting = Unit {0}
  Follows responding = Unit {0}
  Follows heading = Unit {0}
  Follows reading = Unit {0}
  Follows leaving = Unit {0}
  Follows turned_away = Unit {0}
  Follows failed = Unit {0}
  Follows left = Unit {0}

-- One packet more changes nothing for those who are there.
pub Follows-snoc :
    (config : GopCacheConfig) (sent : List FlvTagPacket) (t : FlvTagPacket) (p : Phase)
    → Follows config sent p
    → Follows config (sent ++ t ∷ []) p
unfolding Follows
Follows-snoc config sent t (filling n ts) (front, rest, e, m, h) =
    (front, rest ++ t ∷ [], ap (λ x. x ++ t ∷ []) e ∙ append_assoc front rest (t ∷ []), m, h)
Follows-snoc config sent t (subscribing n ts) (front, rest, e, m, h) =
    (front, rest ++ t ∷ [], ap (λ x. x ++ t ∷ []) e ∙ append_assoc front rest (t ∷ []), m, h)
Follows-snoc config sent t (watching w) h = record {
  front = h.front;
  missed = h.missed;
  live = h.live;
  rest = h.rest ++ t ∷ [];
  stream =
      ap (λ x. x ++ t ∷ []) h.stream
      ∙ append_assoc (h.front ++ (h.missed ++ h.live)) h.rest (t ∷ []);
  startup = h.startup;
  cached = h.cached;
  since = h.since;
  next = h.next;
  whole = h.whole;
}
Follows-snoc config sent t connecting h = tt
Follows-snoc config sent t responding h = tt
Follows-snoc config sent t heading h = tt
Follows-snoc config sent t reading h = tt
Follows-snoc config sent t leaving h = tt
Follows-snoc config sent t turned_away h = tt
Follows-snoc config sent t failed h = tt
Follows-snoc config sent t left h = tt

-- The round of the loop on a packet, for a viewer without lag: it is written, or the write fails.
serve_one_flowing :
    (s : Loop) (t : FlvTagPacket) (ok : Bool)
    → (s.tracker).lag_count ≡ 0
    → (serve_one s (received t ok)).1 ≡ true
    → ((serve_one s (received t ok)).0.written ≡ s.written ++ t ∷ [])
      × ((serve_one s (received t ok)).0.tracker.lag_count ≡ 0)
unfolding serve_one decide should_drop relieve_pressure
serve_one_flowing s t ok calm goes_on = ground arith

abbrev lagging : Loop → ℕ → Loop
lagging s n = record s { tracker = report_lag s.tracker n }

serve_one-lagged : (s : Loop) (n : ℕ) → serve_one s (lagged n) ≡ (lagging s n, true)
unfolding serve_one
serve_one-lagged s n = refl

serve_one-closed : (s : Loop) → serve_one s closed ≡ (s, false)
unfolding serve_one
serve_one-closed s = refl

module _ (config : GopCacheConfig) (sent : List FlvTagPacket) where
  -- A packet at the viewer's place is the first one of the rest.
  hears :
      (w : Watch) (h : Watches config sent w) (t : FlvTagPacket)
      → get_elem? sent w.next ≡ some t
      → (rest : List FlvTagPacket) × (h.rest ≡ t ∷ rest)
  hears w h t e = get_elem?-append (h.front ++ (h.missed ++ h.live)) h.rest (
      subst (λ n. get_elem? ((h.front ++ (h.missed ++ h.live)) ++ h.rest) n ≡ some t) h.next
        (subst (λ x. get_elem? x w.next ≡ some t) h.stream e))

  -- The next packets of the rest are behind the viewer.
  passes :
      (w v : Watch) (h : Watches config sent w) (now rest : List FlvTagPacket)
      → h.rest ≡ now ++ rest
      → v.startup ≡ w.startup
      → v.cached ≡ w.cached
      → v.since ≡ w.since
      → v.next ≡ w.next + length now
      → (v.skipped ≡ 0 → (v.written ≡ h.live ++ now) × ((v.tracker).lag_count ≡ 0))
      → Watches config sent v
  passes w v h now rest e startup cached since next whole = record {
    front = h.front;
    missed = h.missed;
    live = h.live ++ now;
    rest = rest;
    stream = h.stream ∙ ap (λ x. (h.front ++ (h.missed ++ h.live)) ++ x) e ∙ simp append_assoc;
    startup = startup ∙ h.startup;
    cached = cached ∙ h.cached;
    since = since ∙ h.since;
    next = omega (
      arith,
      next,
      h.next,
      length-append h.front (h.missed ++ h.live),
      length-append h.missed h.live,
      length-append h.front (h.missed ++ (h.live ++ now)),
      length-append h.missed (h.live ++ now),
      length-append h.live now,
    );
    whole = whole;
  }

  served_on :
      (w : Watch) (o : Loop × Bool)
      → o.1 ≡ true
      → (served w o).1 ≡ watching (record w { tracker = o.0.tracker; written = o.0.written })
  unfolding served
  served_on w (s, true) e = refl
  served_on w (s, false) e = absurd cc

  served_off : (w : Watch) (o : Loop × Bool) → o.1 ≡ false → (served w o).1 ≡ leaving
  unfolding served
  served_off w (s, true) e = absurd cc
  served_off w (s, false) e = refl

  lagged-Watches :
      (w : Watch) (n : ℕ)
      → Watches config sent w
      → w.next + n ≤ length sent
      → Watches config sent (record w {
        next = w.next + n;
        skipped = w.skipped + n;
        tracker = report_lag w.tracker n;
      })
  unfolding report_lag
  lagged-Watches w n h heard =
      let v : Watch = record w {
        next = w.next + n;
        skipped = w.skipped + n;
        tracker = report_lag w.tracker n;
      } in
      let size : length (take n h.rest) ≡ n = omega (
        arith,
        length-take n h.rest,
        heard,
        h.next,
        ap length h.stream,
        length-append (h.front ++ (h.missed ++ h.live)) h.rest,
      ) in
      passes w v h (take n h.rest) (drop n h.rest) (sym (take-drop n h.rest)) refl refl refl
        (omega (arith, size))
        (λ z.
          let nothing : n ≡ 0 = omega (arith, z) in
          (
            subst (λ k. w.written ≡ h.live ++ take k h.rest) (sym nothing)
                ((h.whole (omega (arith, z))).0 ∙ sym (append-nil h.live)),
            nothing,
          ))

  -- A round of the loop.
  pub watching-Follows :
      (r : Relay) (w : Watch) (e : RecvEvent)
      → Watches config sent w
      → Heard sent (watching w) e
      → Follows config sent (served (moved w e) (serve_one (loop_of r w) e)).1
  unfolding Follows moved
  watching-Follows r w (received t ok) h heard =
      let o = serve_one (loop_of r w) (received t ok) in
      elim (Bool-cases o.1) [
        | inr off ↦ rw (served_off (moved w (received t ok)) o off) tt
        | inl on ↦
            let (rest, e) = hears w h t heard in
            rw (served_on (moved w (received t ok)) o on) (
              passes w
                (record w { next = w.next + 1; tracker = o.0.tracker; written = o.0.written }) h
                (t ∷ []) rest e refl refl refl refl
                (λ z.
                  let (written, calm) = h.whole z in
                  let (writes, still) = serve_one_flowing (loop_of r w) t ok calm on in
                  (writes ∙ ap (λ x. x ++ t ∷ []) written, still)))
      ]
  watching-Follows r w (lagged n) h heard = rw (serve_one-lagged (loop_of r w) n) (
      rw (served_on (moved w (lagged n)) (lagging (loop_of r w) n, true) refl)
        (lagged-Watches w n h heard))
  watching-Follows r w closed h heard =
      rw (serve_one-closed (loop_of r w)) (rw (served_off w (loop_of r w, false) refl) tt)
