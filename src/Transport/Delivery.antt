-- ===== src/Transport/Delivery.antt =====
-- Frames from one end of a WebSocket connection to the other.
use live_cdn.Common.{
  ℕ, zero, suc, ◌≡◌, ◌∙◌, refl, sym, ap, Bool, true, false, none, some, List, [], ◌∷◌, ◌++◌, map,
  append-nil, append_assoc, length, All, ok, err, ∷-injective, ∷-ne-nil,
}
use live_cdn.Protocol.{Frame, encode, decode}
use live_cdn.Protocol.RoundTrip.{decode-encode}
use live_cdn.Protocol.Stream.{IsSendable}
use live_cdn.Transport.{
  PlainWsConn, Message, binary, close_message, ping_message, other_message, broken, Received,
  not_connected, send_frame, receive, recv_frame,
}

abbrev pub payloads : List Message → List (List ℕ)
payloads [] = []
payloads (binary d ∷ ms) = d ∷ payloads ms
payloads (close_message ∷ ms) = payloads ms
payloads (ping_message ∷ ms) = payloads ms
payloads (other_message ∷ ms) = payloads ms
payloads (broken ∷ ms) = payloads ms

-- Nothing ends the connection.
abbrev pub is_open : List Message → Bool
is_open [] = true
is_open (binary d ∷ ms) = is_open ms
is_open (close_message ∷ ms) = false
is_open (ping_message ∷ ms) = is_open ms
is_open (other_message ∷ ms) = is_open ms
is_open (broken ∷ ms) = false

-- Frames sent one after the other, all of them taken by the network.
abbrev pub send_all : PlainWsConn → List Frame → PlainWsConn
send_all c [] = c
send_all c (f ∷ fs) = send_all (send_frame c f true).0 fs

-- The results of so many calls of `recv_frame`.
abbrev pub recv_times : ℕ → PlainWsConn → List Received
recv_times zero c = []
recv_times (suc n) c = let (c', r) = recv_frame c in r ∷ recv_times n c'

abbrev pub fresh : List Message → PlainWsConn
fresh ms = record { incoming = ms; outgoing = []; connected = true }

payloads-append : (ms ns : List Message) → payloads (ms ++ ns) ≡ payloads ms ++ payloads ns
payloads-append [] ns = refl
payloads-append (binary d ∷ ms) ns = ap (◌∷◌ d) (payloads-append ms ns)
payloads-append (close_message ∷ ms) ns = payloads-append ms ns
payloads-append (ping_message ∷ ms) ns = payloads-append ms ns
payloads-append (other_message ∷ ms) ns = payloads-append ms ns
payloads-append (broken ∷ ms) ns = payloads-append ms ns

send_all-payloads :
    (fs : List Frame) (ms ns : List Message)
    → payloads (send_all (record { incoming = ms; outgoing = ns; connected = true }) fs).outgoing
      ≡ payloads ns ++ map encode fs
unfolding send_frame
send_all-payloads [] ms ns = sym (append-nil (payloads ns))
send_all-payloads (f ∷ fs) ms ns =
    send_all-payloads fs ms (ns ++ binary (encode f) ∷ [])
    ∙ ap (λ ps. ps ++ map encode fs) (payloads-append ns (binary (encode f) ∷ []))
    ∙ append_assoc (payloads ns) (encode f ∷ []) (map encode fs)

receive_frame :
    (f : Frame) (d : List ℕ) (ms : List Message)
    → IsSendable f
    → d ≡ encode f
    → receive (binary d ∷ ms) ≡ (ms, true, ok (some f))
unfolding receive
receive_frame f d ms w e =
    let whole =
      ap decode (e ∙ sym (append-nil (encode f))) ∙ decode-encode f [] w.frame w.current w.small in
    rw (receive, whole) refl

recv_times-frames :
    (ms rest out : List Message) (fs : List Frame)
    → All IsSendable fs
    → payloads ms ≡ map encode fs
    → is_open ms ≡ true
    → recv_times
        (suc (suc (length fs)))
        (record { incoming = ms ++ close_message ∷ rest; outgoing = out; connected = true })
      ≡ map (λ f. ok (some f)) fs ++ ok none ∷ err not_connected ∷ []
unfolding recv_frame receive
recv_times-frames [] rest out [] w p o = refl
recv_times-frames [] rest out (f ∷ fs) w p o = absurd cc
recv_times-frames (binary d ∷ ms) rest out [] w p o = absurd (∷-ne-nil p)
recv_times-frames (binary d ∷ ms) rest out (f ∷ fs) w p o =
    rw (receive_frame f d (ms ++ close_message ∷ rest) w.0 (∷-injective p).0)
      (ap (◌∷◌ (ok (some f))) (recv_times-frames ms rest out fs w.1 (∷-injective p).1 o))
recv_times-frames (close_message ∷ ms) rest out fs w p o = absurd cc
recv_times-frames (ping_message ∷ ms) rest out fs w p o = recv_times-frames ms rest out fs w p o
recv_times-frames (other_message ∷ ms) rest out fs w p o = recv_times-frames ms rest out fs w p o
recv_times-frames (broken ∷ ms) rest out fs w p o = absurd cc

-- The frames that one end sends, if an agent can send them (`IsSendable`) and the network takes them,
-- arrive at the other end one by one and in order, whatever pings and texts come in between; behind
-- the close message the receiver gets no frame, and then the error that it is not connected.
pub recv_times-send_all :
    (fs : List Frame) (ms rest : List Message)
    → All IsSendable fs
    → payloads ms ≡ payloads (send_all (fresh []) fs).outgoing
    → is_open ms ≡ true
    → recv_times (suc (suc (length fs))) (fresh (ms ++ close_message ∷ rest))
      ≡ map (λ f. ok (some f)) fs ++ ok none ∷ err not_connected ∷ []
recv_times-send_all fs ms rest w p o =
    recv_times-frames ms rest [] fs w (p ∙ send_all-payloads fs [] []) o
