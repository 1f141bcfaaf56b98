-- ===== src/Transport.antt =====
-- agent-rust/src/transport/registry.rs: the kinds of transport, their registry, and the connection
-- over plain WebSockets. What the network delivers, and whether it takes a message, are inputs.
pub mod Delivery
mod Global
pub mod Registered
mod Tests
use live_cdn.Common.{
  ℕ, Bool, true, false, ◌||◌, not, Option, none, some, List, [], ◌∷◌, ◌++◌, map, if◌then◌else◌,
  codes, same, Result, ok, err,
}
use live_cdn.Protocol.{Frame, ProtocolError, encode, decode}

pub data TransportType : Type 0 where
  plain_ws reality hysteria2 grpc : TransportType

-- `to_string` by way of `Display`.
abbrev pub type_name : TransportType → List ℕ
type_name plain_ws = codes "plain-ws"
type_name reality = codes "reality"
type_name hysteria2 = codes "hysteria2"
type_name grpc = codes "grpc"

unfoldable pub from_str : List ℕ → Option TransportType
from_str s =
    if same s (codes "plain-ws") || same s (codes "ws")
    then some plain_ws
    else if same s (codes "reality")
    then some reality
    else if same s (codes "hysteria2")
    then some hysteria2
    else if same s (codes "grpc")
    then some grpc
    else none

-- The errors that the code makes; the library's own texts are left out.
pub data TransportError : Type 0 where
  connection_failed send_failed recv_failed not_connected : TransportError
  frame_refused : ProtocolError → TransportError
  unsupported_transport registration_failed : TransportType → TransportError

pub record TransportConfig : Type 0 where
  pub transport_type : TransportType
  pub address : List ℕ
  pub path : List ℕ
  pub tls_enabled : Bool

abbrev pub ws_url : TransportConfig → List ℕ
ws_url c =
    (if c.tls_enabled then codes "wss" else codes "ws") ++ (codes "://" ++ (c.address ++ c.path))

-- A factory of connections of type `C`.
pub record TransportFactory (C : Type 0) : Type 0 where
  pub transport_type : TransportType
  pub dial : TransportConfig → Result TransportError C

abbrev pub same_type : TransportType → TransportType → Bool
same_type plain_ws plain_ws = true
same_type reality reality = true
same_type hysteria2 hysteria2 = true
same_type grpc grpc = true
same_type _ _ = false

pub record TransportRegistry (C : Type 0) : Type 0 where
  pub factories : List (TransportFactory C)

abbrev pub factory_of :
    {C : Type 0} → List (TransportFactory C) → TransportType → Option (TransportFactory C)
factory_of [] t = none
factory_of (f ∷ fs) t =
    let rest = factory_of fs t in if same_type f.transport_type t then some f else rest

module _ {C : Type 0} where
  pub new_registry : TransportRegistry C
  new_registry = record { factories = [] }

  unfoldable pub register :
      TransportRegistry C
      → TransportFactory C
      → TransportRegistry C × Result TransportError (List ℕ)
  register r f = elim (factory_of r.factories f.transport_type) [
    | some g ↦ (r, err (registration_failed f.transport_type))
    | none ↦ (record { factories = f ∷ r.factories }, ok [])
  ]

  abbrev pub get_factory : TransportRegistry C → TransportType → Option (TransportFactory C)
  get_factory r t = factory_of r.factories t

  abbrev pub list_registered : TransportRegistry C → List TransportType
  list_registered r = map (λ f. f.transport_type) r.factories

  unfoldable pub dial : TransportRegistry C → TransportConfig → Result TransportError C
  dial r c = elim (get_factory r c.transport_type) [
    | none ↦ err (unsupported_transport c.transport_type)
    | some f ↦ f.dial c
  ]

-- A WebSocket message, or the error of receiving one.
pub data Message : Type 0 where
  binary : List ℕ → Message
  close_message ping_message other_message broken : Message

pub record PlainWsConn : Type 0 where
  pub incoming : List Message
  pub outgoing : List Message
  pub connected : Bool

-- `PlainWsConn::connect`, with what the library answers for the URL.
unfoldable pub connect :
    (List ℕ → Option (List Message)) → TransportConfig → Result TransportError PlainWsConn
connect network c = elim (network (ws_url c)) [
  | none ↦ err connection_failed
  | some incoming ↦ ok (record { incoming = incoming; outgoing = []; connected = true })
]

abbrev pub Sent : Type 0
Sent = Result TransportError (List ℕ)

unfoldable pub send_frame : PlainWsConn → Frame → Bool → PlainWsConn × Sent
send_frame c frame sent =
    if not c.connected
    then (c, err not_connected)
    else if sent
    then (record c { outgoing = c.outgoing ++ binary (encode frame) ∷ [] }, ok [])
    else (record c { connected = false }, err send_failed)

abbrev pub Received : Type 0
Received = Result TransportError (Option Frame)

-- The loop of `recv_frame`: what is left, whether the connection stands, and the result.
unfoldable pub receive : List Message → List Message × Bool × Received
receive [] = ([], false, ok none)
receive (binary d ∷ ms) = elim (decode d) [
  | ok none ↦ receive ms
  | ok (some (frame, used)) ↦ (ms, true, ok (some frame))
  | err e ↦ (ms, true, err (frame_refused e))
]
receive (close_message ∷ ms) = (ms, false, ok none)
receive (ping_message ∷ ms) = receive ms
receive (other_message ∷ ms) = receive ms
receive (broken ∷ ms) = (ms, false, err recv_failed)

unfoldable pub recv_frame : PlainWsConn → PlainWsConn × Received
recv_frame c =
    let (ms, connected, r) = receive c.incoming in
    if not c.connected
    then (c, err not_connected)
    else (record c { incoming = ms; connected = connected }, r)

-- Whether the close message is taken is ignored.
unfoldable pub close_conn : PlainWsConn → Bool → PlainWsConn
close_conn c sent = if not c.connected then c else record c {
  outgoing = if sent then c.outgoing ++ close_message ∷ [] else c.outgoing;
  connected = false;
}
