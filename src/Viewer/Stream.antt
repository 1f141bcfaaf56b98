-- ===== src/Viewer/Stream.antt =====
-- Which packets of the stream reach a viewer.
use live_cdn.Common.{
  ℕ, ◌+◌, ◌-◌, ◌%◌, ◌^◌, ◌≤◌, ◌<◌, ◌≡◌, refl, sym, ap, ◌∙◌, Bool, true, false, List, [], ◌∷◌, ◌++◌,
  append_assoc, append-nil, arith, length, length-append, keep, All, ◌⊎◌, inl, inr, Bool-cases,
}
use mathlib.Core.Bool.{false≢true}
use live_cdn.Flv.{FlvTagPacket}
use live_cdn.Drop.{DropPolicy, should_drop, decide, relieve_pressure}
use live_cdn.Viewer.{RecvEvent, received, lagged, closed, Loop, serve_one, serve}
use live_cdn.Viewer.Heard.{delivered, tag_is_high, keep-append, IsHeard, lags, IsHeard-counts}

-- Every write succeeds, and the channel stays open.
abbrev IsHealthy : RecvEvent → Type 0
IsHealthy (received t b) = b ≡ true
IsHealthy (lagged n) = Unit {0}
IsHealthy closed = ⊥

abbrev pub AllHealthy : List RecvEvent → Type 0
AllHealthy = All IsHealthy

-- A dropped packet is not of high priority.
should_drop-low :
    (tag : FlvTagPacket) (lag : ℕ) (policy : DropPolicy)
    → should_drop tag lag policy ≡ true
    → tag_is_high tag ≡ false
unfolding should_drop
should_drop-low tag lag policy d = ground arith

-- The two ways in which a round with a packet goes on.
record Skips (s : Loop) (t : FlvTagPacket) (s' : Loop) : Type 0 where
  minor : tag_is_high t ≡ false
  written : s'.written ≡ s.written
  lag : s'.tracker.lag_count ≡ s.tracker.lag_count
  drops : s'.tracker.total_drops ≡ (s.tracker.total_drops + 1) % 2 ^ 64
  packets : s'.tracker.total_packets ≡ (s.tracker.total_packets + 1) % 2 ^ 64

record Writes (s : Loop) (t : FlvTagPacket) (s' : Loop) : Type 0 where
  written : s'.written ≡ s.written ++ t ∷ []
  lag : s'.tracker.lag_count ≡ s.tracker.lag_count - 1
  drops : s'.tracker.total_drops ≡ s.tracker.total_drops
  packets : s'.tracker.total_packets ≡ (s.tracker.total_packets + 1) % 2 ^ 64

serve_one_received :
    (s : Loop) (t : FlvTagPacket)
    → ((serve_one s (received t true)).1 ≡ true)
      × (Skips s t (serve_one s (received t true)).0 ⊎ Writes s t (serve_one s (received t true)).0)
unfolding serve_one decide relieve_pressure
serve_one_received s t = elim (Bool-cases (should_drop t s.tracker.lag_count s.tracker.policy)) [
  | inl d ↦ rw d (
    refl,
    inl (record {
      minor = should_drop-low t s.tracker.lag_count s.tracker.policy d;
      written = refl;
      lag = refl;
      drops = refl;
      packets = refl;
    }),
  )
  | inr k ↦
      rw k (refl, inr (record { written = refl; lag = ground arith; drops = refl; packets = refl }))
]

keep-snoc :
    (p : FlvTagPacket → Bool) (xs : List FlvTagPacket) (t : FlvTagPacket) (ys : List FlvTagPacket)
    → keep p (xs ++ t ∷ []) ++ keep p ys ≡ keep p xs ++ keep p (t ∷ ys)
keep-snoc p xs t ys =
    ap (λ k. k ++ keep p ys) (keep-append p xs (t ∷ []))
    ∙ append_assoc (keep p xs) (keep p (t ∷ [])) (keep p ys)
    ∙ ap (◌++◌ (keep p xs)) (sym (keep-append p (t ∷ []) ys))

serve_one_high :
    (s : Loop) (e : RecvEvent) (es : List RecvEvent)
    → IsHealthy e
    → ((serve_one s e).1 ≡ true)
      × (keep tag_is_high ((serve_one s e).0.written) ++ keep tag_is_high (delivered es)
          ≡ keep tag_is_high s.written ++ keep tag_is_high (delivered (e ∷ es)))
serve_one_high s (received t false) es h = absurd (false≢true h)
serve_one_high s (received t true) es h =
    let (more, way) = serve_one_received s t in
    (
      more,
      elim way [
        | inl skip ↦ rw (skip.written, skip.minor) refl
        | inr wrote ↦ rw wrote.written (keep-snoc tag_is_high s.written t (delivered es))
      ],
    )
serve_one_high s (lagged n) es h = unfold serve_one in (refl, refl)
serve_one_high s closed es h = elim h [ ]

-- The packets that the channel delivers are passed on.
serve_keeps_delivered :
    (es : List RecvEvent) (s : Loop)
    → AllHealthy es
    → keep tag_is_high (serve s es).written
      ≡ keep tag_is_high s.written ++ keep tag_is_high (delivered es)
unfolding serve
serve_keeps_delivered [] s h = sym (append-nil _)
serve_keeps_delivered (e ∷ es) s h =
    let (more, step) = serve_one_high s e es h.0 in
    rw more (serve_keeps_delivered es (serve_one s e).0 h.1 ∙ step)

-- While the connection holds, and whatever the lag: every packet of high priority (metadata, sequence
-- headers and keyframes) that the channel delivers to a viewer is written, in order. As many packets
-- of high priority are missing, of those that were sent, as stand among the packets that the channel
-- has dropped, which are, of all priorities, as many as the viewer was told it has lost.
pub serve_keeps_high :
    (es : List RecvEvent) (s : Loop) (sent lost : List FlvTagPacket)
    → AllHealthy es
    → IsHeard sent es lost
    → (keep tag_is_high (serve s es).written
        ≡ keep tag_is_high s.written ++ keep tag_is_high (delivered es))
      × (length (keep tag_is_high (serve s es).written) + length (keep tag_is_high lost)
          ≡ length (keep tag_is_high s.written) + length (keep tag_is_high sent))
      × (length lost ≡ lags es)
serve_keeps_high es s sent lost healthy heard =
    let kept = serve_keeps_delivered es s healthy in
    let (high, count) = IsHeard-counts es sent lost heard in
    (
      kept,
      omega (
        arith,
        ap length kept,
        high,
        length-append (keep tag_is_high s.written) (keep tag_is_high (delivered es)),
      ),
      count,
    )

abbrev pub flowing : List FlvTagPacket → List RecvEvent
flowing [] = []
flowing (t ∷ ts) = received t true ∷ flowing ts

-- Over packets that come with no new lag, while the count of packets does not overflow and is not
-- below that of the drops: the lag falls by one with each packet that is written,
-- and every packet is counted once, as written or as dropped.
pub serve_recovers :
    (ts : List FlvTagPacket) (s : Loop)
    → s.tracker.total_packets + length ts < 2 ^ 64
    → s.tracker.total_drops ≤ s.tracker.total_packets
    → let s' = serve s (flowing ts) in
      (s'.tracker.lag_count ≡ s.tracker.lag_count - (length s'.written - length s.written))
      × (length s.written ≤ length s'.written)
      × (s'.tracker.total_packets ≡ s.tracker.total_packets + length ts)
      × (s'.tracker.total_drops + length s'.written
          ≡ s.tracker.total_drops + length s.written + length ts)
unfolding serve
serve_recovers [] s fits few = omega arith
serve_recovers (t ∷ ts) s fits few =
    let (more, way) = serve_one_received s t in
    let s₁ : Loop = (serve_one s (received t true)).0 in
    rw more (elim way [
      | inl skip ↦
          omega (arith, serve_recovers ts s₁ (omega arith) (omega arith), ap length skip.written)
      | inr wrote ↦ omega (
        arith,
        serve_recovers ts s₁ (omega arith) (omega arith),
        ap length wrote.written,
        length-append s.written (t ∷ []),
      )
    ])
