-- ===== src/Transport/Global.antt =====
-- The global registry of agent-rust/src/transport/registry.rs with its built-in factory, and the texts
-- of the errors. `OnceLock` runs the start once, so every caller sees the same registry.
use live_cdn.Common.{
  ℕ, ◌≡◌, refl, Option, List, ◌++◌, codes, Result, err, Bool-cases, inl, inr, if◌then◌else◌,
}
use live_cdn.Transport.{
  plain_ws, type_name, TransportError, connection_failed, send_failed, recv_failed, not_connected,
  frame_refused, unsupported_transport, registration_failed, TransportConfig, TransportFactory,
  same_type, TransportRegistry, new_registry, register, dial, Message, PlainWsConn, connect,
}
use live_cdn.Protocol.{ProtocolError}

-- `Display` of an error, where the texts of the network library and of the frame's error are given.
unfoldable error_text : (ProtocolError → List ℕ) → List ℕ → TransportError → List ℕ
error_text frame_text detail connection_failed = codes "connection failed: " ++ detail
error_text frame_text detail send_failed = codes "send failed: " ++ detail
error_text frame_text detail recv_failed = codes "recv failed: " ++ detail
error_text frame_text detail not_connected = codes "not connected"
error_text frame_text detail (frame_refused e) = codes "recv failed: frame decode: " ++ frame_text e
error_text frame_text detail (unsupported_transport t) =
    codes "unsupported transport: " ++ (type_name t ++ codes " not registered")
error_text frame_text detail (registration_failed t) =
    codes "registration failed: transport type " ++ (type_name t ++ codes " already registered")

module _ (network : List ℕ → Option (List Message)) where
  plain_ws_factory : TransportFactory PlainWsConn
  plain_ws_factory = record { transport_type = plain_ws; dial = connect network }

  -- The result of the registration is ignored.
  global_registry : TransportRegistry PlainWsConn
  unfolding plain_ws_factory
  global_registry = (register new_registry plain_ws_factory).0

  dial_transport : TransportConfig → Result TransportError PlainWsConn
  unfolding global_registry
  dial_transport c = dial global_registry c

  -- The agent speaks plain WebSockets; every other kind is refused before the network is asked.
  dial_transport-connect :
      (c : TransportConfig)
      → dial_transport c ≡ (
          if same_type plain_ws c.transport_type
          then connect network c
          else err (unsupported_transport c.transport_type))
  unfolding dial_transport dial register new_registry
  dial_transport-connect c = elim (Bool-cases (same_type plain_ws c.transport_type)) [
    | inl e ↦ rw e refl
    | inr e ↦ rw e refl
  ]
