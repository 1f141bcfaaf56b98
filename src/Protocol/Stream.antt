-- ===== src/Protocol/Stream.antt =====
-- The incremental decoder under any interleaving of arriving bytes and calls of `decode`.
use live_cdn.Common.{
  ℕ, zero, suc, ◌^◌, ◌≤◌, ◌<◌, ◌≡◌, refl, sym, ap, ◌∙◌, inl, inr, Option, none, some, List, [], ◌∷◌,
  ◌++◌, map, append-nil, append_assoc, arith, length, drop, drop-append, replicate, All,
  append_split, All-right, map-append, append-eq-nil, length-append, ok, err, Result,
}
use live_cdn.Protocol.{
  ProtocolError, Frame, IsFrame, encode, decode, FrameDecoder, new_decoder, feed, next_frame,
}
use live_cdn.Protocol.RoundTrip.{decode-encode, decode_incomplete}

-- What a user of the decoder does: hand over what has arrived, or ask for a frame.
pub data Call : Type 0 where
  feeds : List ℕ → Call
  decodes : Call

-- The frames and errors that the calls return, in order. "Incomplete" returns nothing.
abbrev returned : Result ProtocolError (Option Frame) → List (Result ProtocolError Frame)
returned (ok none) = []
returned (ok (some f)) = ok f ∷ []
returned (err e) = err e ∷ []

unfoldable pub run : FrameDecoder → List Call → FrameDecoder × List (Result ProtocolError Frame)
run s [] = (s, [])
run s (feeds d ∷ cs) = run (feed s d) cs
run s (decodes ∷ cs) =
    let (s', r) = next_frame s in let (t, out) = run s' cs in (t, returned r ++ out)

-- The bytes that a schedule hands over.
abbrev pub fed : List Call → List ℕ
fed [] = []
fed (feeds d ∷ cs) = d ++ fed cs
fed (decodes ∷ cs) = fed cs

abbrev pub encodings : List Frame → List ℕ
encodings [] = []
encodings (f ∷ fs) = encode f ++ encodings fs

-- A frame as the agent's `new` and `new_with_ts` make them, within the size limit.
pub record IsSendable (f : Frame) : Type 0 where
  pub frame : IsFrame f
  pub current : 3 ≤ f.version
  pub small : length f.payload ≤ 2 ^ 20

next_frame_takes :
    (s : FrameDecoder) (f : Frame) (n : ℕ)
    → decode s.buffer ≡ ok (some (f, n))
    → next_frame s ≡ (record { buffer = drop n s.buffer }, ok (some f))
unfolding next_frame
next_frame_takes s f n e = rw (e, next_frame)

-- One call of `decode`, when the stream goes on with the frame `f`.
pub next_frame_whole :
    (s : FrameDecoder) (f : Frame) (rest : List ℕ)
    → IsSendable f
    → s.buffer ≡ encode f ++ rest
    → next_frame s ≡ (record { buffer = rest }, ok (some f))
next_frame_whole s f rest w e =
    next_frame_takes s f (length (encode f))
      (ap decode e ∙ decode-encode f rest w.frame w.current w.small)
    ∙ ap (λ (b : List ℕ). (record { buffer = b }, ok (some f)))
        (ap (drop (length (encode f))) e ∙ drop-append (encode f) rest)

next_frame_waits : (s : FrameDecoder) → decode s.buffer ≡ ok none → next_frame s ≡ (s, ok none)
unfolding next_frame
next_frame_waits s e = rw (e, next_frame)

next_frame_empty : (s : FrameDecoder) → s.buffer ≡ [] → next_frame s ≡ (s, ok none)
unfolding decode
next_frame_empty s e = next_frame_waits s (ap decode e)

next_frame_part :
    (s : FrameDecoder) (f : Frame) (back : List ℕ)
    → IsSendable f
    → encode f ≡ s.buffer ++ back
    → 0 < length back
    → next_frame s ≡ (s, ok none)
next_frame_part s f back w e more =
    next_frame_waits s (decode_incomplete f s.buffer back w.frame w.current w.small e more)

-- The state in which a schedule ends: the first frames have been returned, and the buffer with
-- what is still to arrive holds the others.
abbrev pub Delivered :
    FrameDecoder × List (Result ProtocolError Frame) → List Frame → List ℕ → Type 0
Delivered (s, out) fs later =
    (done : List Frame) × (left : List Frame) × (fs ≡ done ++ left)
    × (out ≡ map ok done)
    × (s.buffer ++ later ≡ encodings left)

Delivered-run :
    (cs : List Call) (s : FrameDecoder) (fs : List Frame) (later : List ℕ)
    → All IsSendable fs
    → s.buffer ++ (fed cs ++ later) ≡ encodings fs
    → Delivered (run s cs) fs later
unfolding run feed
Delivered-run [] s fs later w e = ([], fs, refl, refl, e)
Delivered-run (feeds d ∷ cs) s fs later w e =
    Delivered-run cs (feed s d) fs later w (simp append_assoc (simp append_assoc at e))
Delivered-run (decodes ∷ cs) s [] later w e =
    rw (next_frame_empty s (append-eq-nil s.buffer _ e)) (Delivered-run cs s [] later tt e)
Delivered-run (decodes ∷ cs) s (f ∷ fs) later w e =
    elim (append_split s.buffer (fed cs ++ later) (encode f) (encodings fs) e) [
      | inl (back, p, q, more) ↦
          rw (next_frame_part s f back w.0 p more) (Delivered-run cs s (f ∷ fs) later w e)
      | inr (rest, p, q) ↦ rw (next_frame_whole s f rest w.0 p) (
          let (done, left, d, o, b) =
            Delivered-run cs (record { buffer = rest }) fs later w.1 (sym q) in
          (f ∷ done, left, ap (◌∷◌ f) d, ap (◌∷◌ (ok f)) o, b))
    ]

pub run-append :
    (cs ds : List Call) (s : FrameDecoder)
    → run s (cs ++ ds) ≡ ((run (run s cs).0 ds).0, (run s cs).1 ++ (run (run s cs).0 ds).1)
unfolding run
run-append [] ds s = refl
run-append (feeds d ∷ cs) ds s = run-append cs ds (feed s d)
run-append (decodes ∷ cs) ds s =
    let (s', r) = next_frame s in
    ap (λ (p : FrameDecoder × List (Result ProtocolError Frame)). (p.0, returned r ++ p.1))
      (run-append cs ds s')
    ∙ ap (λ (o : List (Result ProtocolError Frame)). ((run (run s' cs).0 ds).0, o))
        (sym (append_assoc (returned r) (run s' cs).1 (run (run s' cs).0 ds).1))

-- Calls of `decode` alone return the frames of a buffer that holds whole frames.
run_drain :
    (n : ℕ) (s : FrameDecoder) (fs : List Frame)
    → All IsSendable fs
    → s.buffer ≡ encodings fs
    → length fs ≤ n
    → run s (replicate n decodes) ≡ (record { buffer = [] }, map ok fs)
unfolding run
run_drain zero s [] w e h = ap (λ (b : List ℕ). (record { buffer = b }, [])) e
run_drain zero s (f ∷ fs) w e h = elim h [ ]
run_drain (suc n) s [] w e h = rw (next_frame_empty s e) (run_drain n s [] w e (omega arith))
run_drain (suc n) s (f ∷ fs) w e h = rw (next_frame_whole s f (encodings fs) w.0 e) (
    ap (λ (p : FrameDecoder × List (Result ProtocolError Frame)). (p.0, ok f ∷ p.1))
      (run_drain n (record { buffer = encodings fs }) fs w.1 refl (omega arith)))

-- Packets may cut the stream of encoded frames anywhere and calls of `decode` may come at any time:
-- every schedule that delivers the encodings of frames that an agent can send (`IsSendable`), with
-- a call of `decode` for each frame at its end, returns exactly these frames, in order and with no error, and leaves the buffer empty.
pub run_stream :
    (cs : List Call) (fs : List Frame) (n : ℕ)
    → All IsSendable fs
    → fed cs ≡ encodings fs
    → length fs ≤ n
    → run new_decoder (cs ++ replicate n decodes) ≡ (record { buffer = [] }, map ok fs)
unfolding new_decoder
run_stream cs fs n w e h =
    let (done, left, d, o, b) = Delivered-run cs new_decoder fs [] w (append-nil (fed cs) ∙ e) in
    let w' : All IsSendable left = All-right IsSendable done left (rw d at w) in
    run-append cs (replicate n decodes) new_decoder
    ∙ rw
        (
          o,
          run_drain n (run new_decoder cs).0 left w' (sym (append-nil _) ∙ b)
              (omega (arith, ap length d, length-append done left)),
          d,
          map-append ok done left,
        )
        refl
