-- ===== src/Server/Socket.antt =====
-- `handle_websocket_connection` and `handle_ws_encrypted_mode` of agent-rust/src/main.rs: the
-- handshake and the encrypted stream. JSON is a library's, so the handshake comes parsed.
use live_cdn.Common.{
  ℕ, ◌≡◌, refl, Bool, true, false, not, Option, none, some, List, [], ◌∷◌, ◌++◌, if◌then◌else◌,
  is_nil, same, codes, length, ltb, arith,
}
use live_cdn.Protocol.{data_frame, new, encode}
use live_cdn.StreamRelay.{StreamRelay, add_client, remove_client, record_bytes_sent, latest_m3u8}

-- The first message: none or an error, or a JSON value with its two fields as far as they are texts.
pub data Handshake : Type 0 where
  no_message bad_message : Handshake
  fields : Option (List ℕ) → Option (List ℕ) → Handshake

pub data WsRoute : Type 0 where
  closed failed missing_stream_key : WsRoute
  flv_mode encrypted_mode : List ℕ → WsRoute

abbrev text_or : List ℕ → Option (List ℕ) → List ℕ
text_or d none = d
text_or d (some s) = s

unfoldable pub ws_route : Handshake → WsRoute
ws_route no_message = closed
ws_route bad_message = failed
ws_route (fields key mode) =
    let stream_key = text_or [] key in
    if is_nil stream_key
    then missing_stream_key
    else if same (text_or (codes "encrypted") mode) (codes "flv")
    then flv_mode stream_key
    else encrypted_mode stream_key

-- A message of the broadcast, with what the connection answers when it is written.
pub record Message : Type 0 where
  pub data_bytes : List ℕ
  pub send_ok : Bool

-- The newest playlist, in a frame with the number 0.
abbrev pub first_message : Option (List ℕ) → Bool → List (List ℕ)
first_message none ok = []
first_message (some d) ok = if ok then encode (new data_frame 0 d) ∷ [] else []

module _ {F : Type 0} where
  -- The send task, up to its end or that of the connection's other task.
  unfoldable pub send_all :
      StreamRelay F → List Message → List (List ℕ) → StreamRelay F × List (List ℕ)
  send_all s [] written = (s, written)
  send_all s (m ∷ ms) written =
      let rest =
        send_all (record_bytes_sent s (length m.data_bytes)) ms (written ++ m.data_bytes ∷ []) in
      if m.send_ok then rest else (s, written)

  -- The relay, what the viewer has been sent, and whether it was taken in.
  unfoldable pub handle_ws_encrypted :
      StreamRelay F → Bool → List Message → StreamRelay F × List (List ℕ) × Bool
  handle_ws_encrypted s first_ok ms =
      let (s', admitted) = add_client s in
      if not admitted
      then (s', codes "{\"error\":\"max clients reached\"}" ∷ [], false)
      else let (t, written) = send_all s' ms (first_message (latest_m3u8 s') first_ok) in
        (remove_client t, written, true)

  send_all-clients :
      (ms : List Message) (s : StreamRelay F) (written : List (List ℕ))
      → ((send_all s ms written).0.client_count ≡ s.client_count)
        × ((send_all s ms written).0.max_clients ≡ s.max_clients)
  unfolding send_all record_bytes_sent
  send_all-clients [] s written = (refl, refl)
  send_all-clients (m ∷ ms) s written = ground (
    arith,
    send_all-clients ms (record_bytes_sent s (length m.data_bytes)) (written ++ m.data_bytes ∷ []),
  )

-- A viewer of the encrypted stream is taken in exactly while there is room, and however its
-- connection ends it leaves the count of viewers as it found it.
pub handle_ws_encrypted-clients :
    {F : Type 0} (s : StreamRelay F) (first_ok : Bool) (ms : List Message)
    → ((handle_ws_encrypted s first_ok ms).0.client_count ≡ s.client_count)
      × ((handle_ws_encrypted s first_ok ms).0.max_clients ≡ s.max_clients)
      × ((handle_ws_encrypted s first_ok ms).2 ≡ ltb s.client_count s.max_clients)
unfolding handle_ws_encrypted add_client remove_client
handle_ws_encrypted-clients s first_ok ms = ground (
  arith,
  send_all-clients ms (add_client s).0 (first_message (latest_m3u8 (add_client s).0) first_ok),
)
