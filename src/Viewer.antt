-- ===== src/Viewer.antt =====
-- The part of agent-rust/src/main.rs and flv.rs that serves one HTTP-FLV viewer: the admission, the
-- start-up data and the loop that passes the stream on, with the relay's count of viewers and of
-- bytes sent. What the network answers is part of the input.
pub mod Heard
pub mod Stream
pub mod Clients
pub mod Live
mod Tests
use live_cdn.Common.{
  not, ℕ, ◌+◌, ◌-◌, ◌%◌, ◌^◌, Bool, true, false, List, [], ◌∷◌, ◌++◌, ltb, leb, if◌then◌else◌,
  length,
}
use live_cdn.Flv.{FlvTagPacket, build_flv_header, build_flv_tag_wire}
use live_cdn.Drop.{
  BackpressureTracker, default_policy, new_tracker, report_lag, relieve_pressure, decide,
}

-- What `rx.recv()` returns, with what the write answers if it comes to one.
pub data RecvEvent : Type 0 where
  received : FlvTagPacket → Bool → RecvEvent
  lagged : ℕ → RecvEvent
  closed : RecvEvent

-- The fields of `FlvPuller` that viewers share.
pub record Relay : Type 0 where
  pub client_count : ℕ
  pub max_clients : ℕ
  pub bytes_sent : ℕ

unfoldable pub add_client : Relay → Relay × Bool
add_client r =
    if leb r.max_clients r.client_count
    then (r, false)
    else (record r { client_count = r.client_count + 1 }, true)

unfoldable pub remove_client : Relay → Relay
remove_client r = if ltb 0 r.client_count then record r { client_count = r.client_count - 1 } else r

unfoldable pub record_bytes_sent : Relay → ℕ → Relay
record_bytes_sent r n = record r { bytes_sent = (r.bytes_sent + n) % 2 ^ 64 }

-- The variables of the send loop, with the packets written so far.
pub record Loop : Type 0 where
  pub tracker : BackpressureTracker
  pub relay : Relay
  pub written : List FlvTagPacket

-- One round of the loop, and whether it goes on: `false` is a `break`.
unfoldable pub serve_one : Loop → RecvEvent → Loop × Bool
serve_one s (received tag write_ok) =
    let (t, drop) = decide s.tracker tag in
    if drop
    then (record s { tracker = t }, true)
    else if write_ok
    then (
      record {
        tracker = relieve_pressure t;
        relay = record_bytes_sent s.relay (length (build_flv_tag_wire tag));
        written = s.written ++ tag ∷ [];
      },
      true,
    )
    else (record s { tracker = t }, false)
serve_one s (lagged n) = (record s { tracker = report_lag s.tracker n }, true)
serve_one s closed = (s, false)

unfoldable pub serve : Loop → List RecvEvent → Loop
serve s [] = s
serve s (e ∷ es) =
    let (s', more) = serve_one s e in let rest = serve s' es in if more then rest else s'

-- The tags in the wire format, one behind the other.
abbrev pub wires : List FlvTagPacket → List ℕ
wires [] = []
wires (t ∷ ts) = build_flv_tag_wire t ++ wires ts

-- What the connection answers to the writes, and what the broadcast channel delivers.
pub record Network : Type 0 where
  pub response_ok : Bool
  pub flv_header_ok : Bool
  pub startup_ok : Bool
  pub events : List RecvEvent

-- `rejected`: the limit of viewers is reached. `failed`: the handler returned an error.
pub data Ending : Type 0 where
  rejected failed finished : Ending

abbrev start_loop : Relay → Loop
start_loop r = record { tracker = new_tracker default_policy; relay = r; written = [] }

-- The start-up write, the loop and the end, which both handlers have in common. A relay with an
-- empty cache skips the write.
stream_out : Relay → List FlvTagPacket → Network → Relay × Ending
stream_out r [] net = (remove_client (serve (start_loop r) net.events).relay, finished)
stream_out r (t ∷ ts) net =
    if net.startup_ok
    then (
      remove_client
          (serve (start_loop (record_bytes_sent r (length (wires (t ∷ ts))))) net.events).relay,
      finished,
    )
    else (remove_client r, finished)

-- `handle_http_flv_connection`, from the call of `add_client` on.
pub handle_http_flv : Relay → List FlvTagPacket → Network → Relay × Ending
unfolding stream_out
handle_http_flv r startup net =
    let (r', admitted) = add_client r in
    if not admitted
    then (r', rejected)
    else if not net.response_ok
    then (r', failed)
    else if not net.flv_header_ok
    then (r', failed)
    else stream_out r' startup net

-- `handle_ws_flv_mode`, from the call of `add_client` on. There is no HTTP response to write, and the
-- events are those that the send task sees before one of the connection's two tasks ends.
pub handle_ws_flv : Relay → List FlvTagPacket → Network → Relay × Ending
unfolding stream_out
handle_ws_flv r startup net =
    let (r', admitted) = add_client r in
    if not admitted
    then (r', rejected)
    else if not net.flv_header_ok
    then (remove_client r', finished)
    else stream_out r' startup net
