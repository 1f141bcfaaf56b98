-- ===== src/Protocol/Stuck.antt =====
-- The incremental decoder of agent-rust/src/protocol/mod.rs behind an error.
use live_cdn.Common.{
  ℕ, ◌^◌, ◌≤◌, ◌<◌, ◌≡◌, refl, sym, ap, ◌∙◌, List, [], ◌∷◌, ◌++◌, map, append-nil, append_assoc,
  length, replicate, All, ok, err, Result, suc,
}
use live_cdn.Protocol.{
  ProtocolError, payload_too_large, Frame, IsFrame, encode, decode, FrameDecoder, new_decoder, feed,
  next_frame,
}
use live_cdn.Protocol.Prefix.{decode-Extends}
use live_cdn.Protocol.RoundTrip.{decode-encode_oversize}
use live_cdn.Protocol.Stream.{
  Call, feeds, decodes, run, run-append, fed, encodings, IsSendable, next_frame_whole,
}

-- How often a schedule asks for a frame.
abbrev pub asked : List Call → ℕ
asked [] = 0
asked (feeds d ∷ cs) = asked cs
asked (decodes ∷ cs) = suc (asked cs)

next_frame_fails :
    (s : FrameDecoder) (e : ProtocolError) → decode s.buffer ≡ err e → next_frame s ≡ (s, err e)
unfolding next_frame
next_frame_fails s e h = rw (h, next_frame)

decode_still_fails :
    (d more : List ℕ) (e : ProtocolError) → decode d ≡ err e → decode (d ++ more) ≡ err e
decode_still_fails d more e h = rw h at (decode-Extends d more)

-- Once the front of the buffer is an error, every call returns this error, and the buffer grows.
pub run_failed :
    (cs : List Call) (s : FrameDecoder) (e : ProtocolError)
    → decode s.buffer ≡ err e
    → run s cs ≡ (record { buffer = s.buffer ++ fed cs }, replicate (asked cs) (err e))
unfolding run feed
run_failed [] s e h = ap (λ (b : List ℕ). (record { buffer = b }, [])) (sym (append-nil s.buffer))
run_failed (feeds d ∷ cs) s e h =
    run_failed cs (feed s d) e (decode_still_fails s.buffer d e h)
    ∙ ap (λ (b : List ℕ). (record { buffer = b }, replicate (asked cs) (err e)))
        (append_assoc s.buffer d (fed cs))
run_failed (decodes ∷ cs) s e h = rw (next_frame_fails s e h) (
    ap (λ (p : FrameDecoder × List (Result ProtocolError Frame)). (p.0, err e ∷ p.1))
      (run_failed cs s e h))

-- The frames in front of the bytes `rest` are taken one by one.
run_front :
    (fs : List Frame) (rest : List ℕ) (s : FrameDecoder)
    → All IsSendable fs
    → s.buffer ≡ encodings fs ++ rest
    → run s (replicate (length fs) decodes) ≡ (record { buffer = rest }, map ok fs)
unfolding run
run_front [] rest s w h = ap (λ (b : List ℕ). (record { buffer = b }, [])) h
run_front (f ∷ fs) rest s w h =
    rw
      (next_frame_whole s f (encodings fs ++ rest) w.0
        (h ∙ append_assoc (encode f) (encodings fs) rest))
      (ap (λ (p : FrameDecoder × List (Result ProtocolError Frame)). (p.0, ok f ∷ p.1))
        (run_front fs rest (record { buffer = encodings fs ++ rest }) w.1 refl))

-- `encode` does not check the size of a payload. A frame of more than 1 MB (and less than 4 GB), of
-- version 3 or later and with numbers that fit their types, blocks the receiver for good: the
-- decoder returns the frames before it, and from then on, whatever bytes arrive and however often it
-- is called, it returns only that this payload is too large, and keeps every byte.
pub run_oversized :
    (fs : List Frame) (f : Frame) (rest : List ℕ) (cs : List Call)
    → All IsSendable fs
    → IsFrame f
    → 3 ≤ f.version
    → 2 ^ 20 < length f.payload
    → length f.payload < 2 ^ 32
    → run new_decoder
        (feeds (encodings fs ++ (encode f ++ rest)) ∷ (replicate (length fs) decodes ++ cs))
      ≡ (
        record { buffer = (encode f ++ rest) ++ fed cs },
        map ok fs ++ replicate (asked cs) (err (payload_too_large (length f.payload))),
      )
unfolding run feed new_decoder
run_oversized fs f rest cs w v new large fits =
    let b : List ℕ = encode f ++ rest in
    let s : FrameDecoder = record { buffer = encodings fs ++ b } in
    run-append (replicate (length fs) decodes) cs s
    ∙ rw
        (
          run_front fs b s w refl,
          run_failed cs (record { buffer = b }) (payload_too_large (length f.payload))
              (decode-encode_oversize f rest v new large fits),
        )
        refl
