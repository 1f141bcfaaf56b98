-- ===== src/Viewer/Clients.antt =====
-- The count of viewers that a relay keeps, over whole connections.
use live_cdn.Common.{◌+◌, ◌-◌, ◌≤◌, ◌≡◌, refl, ◌≢◌, ◌⊎◌, All, false, List, [], ◌∷◌, arith, length}
use live_cdn.Flv.{FlvTagPacket}
use live_cdn.Viewer.{
  wires, RecvEvent, received, lagged, closed, Relay, Loop, Network, rejected, failed, finished,
  add_client, remove_client, record_bytes_sent, serve_one, serve, stream_out, start_loop,
  handle_http_flv, handle_ws_flv,
}

abbrev pub SameClients : Relay → Relay → Type 0
SameClients r s = (r.client_count ≡ s.client_count) × (r.max_clients ≡ s.max_clients)

pub serve_one-clients : (s : Loop) (e : RecvEvent) → SameClients (serve_one s e).0.relay s.relay
unfolding serve_one record_bytes_sent
serve_one-clients s (received tag b) = ground arith
serve_one-clients s (lagged n) = (refl, refl)
serve_one-clients s closed = (refl, refl)

serve-clients : (es : List RecvEvent) (s : Loop) → SameClients (serve s es).relay s.relay
unfolding serve
serve-clients [] s = (refl, refl)
serve-clients (e ∷ es) s = ground (arith, serve_one-clients s e, serve-clients es (serve_one s e).0)

stream_out-clients :
    (r : Relay) (startup : List FlvTagPacket) (net : Network)
    → ((stream_out r startup net).0.client_count ≡ r.client_count - 1)
      × ((stream_out r startup net).0.max_clients ≡ r.max_clients)
      × ((stream_out r startup net).1 ≡ finished)
unfolding stream_out remove_client record_bytes_sent
stream_out-clients r [] net = ground (arith, serve-clients net.events (start_loop r))
stream_out-clients r (t ∷ ts) net =
    ground
      (arith, serve-clients net.events (start_loop (record_bytes_sent r (length (wires (t ∷ ts))))))

-- A WebSocket viewer, however its connection ends, leaves the count of viewers as it found it.
pub handle_ws_flv-clients :
    (r : Relay) (startup : List FlvTagPacket) (net : Network)
    → SameClients (handle_ws_flv r startup net).0 r
unfolding handle_ws_flv add_client remove_client
handle_ws_flv-clients r startup net =
    ground (arith, stream_out-clients (record r { client_count = r.client_count + 1 }) startup net)

-- An HTTP viewer leaves the count of viewers as it found it, unless the handler returns an error; then
-- the count has grown by one, and nothing takes it back.
pub handle_http_flv-clients :
    (r : Relay) (startup : List FlvTagPacket) (net : Network)
    → let (r', end) = handle_http_flv r startup net in
      (end ≢ failed → SameClients r' r)
      × (end ≡ failed → (r'.client_count ≡ r.client_count + 1) × (r'.max_clients ≡ r.max_clients))
unfolding handle_http_flv add_client
handle_http_flv-clients r startup net =
    ground (arith, stream_out-clients (record r { client_count = r.client_count + 1 }) startup net)

-- Connections that come and go one after the other.
unfoldable pub visits : Relay → List Network → Relay
visits r [] = r
visits r (net ∷ nets) = visits (handle_http_flv r [] net).0 nets

failing-clients :
    (r : Relay) (net : Network)
    → net.response_ok ≡ false
    → ((handle_http_flv r [] net).0.max_clients ≡ r.max_clients)
      × (r.client_count ≤ (handle_http_flv r [] net).0.client_count)
      × ((r.max_clients ≤ r.client_count)
          ⊎ ((handle_http_flv r [] net).0.client_count ≡ r.client_count + 1))
unfolding handle_http_flv add_client
failing-clients r net bad = ground arith

visits_failing :
    (nets : List Network) (r : Relay)
    → All (λ (net : Network). net.response_ok ≡ false) nets
    → r.max_clients ≤ r.client_count + length nets
    → (visits r nets).max_clients ≤ (visits r nets).client_count
unfolding visits
visits_failing [] r bad h = omega arith
visits_failing (net ∷ nets) r bad h =
    visits_failing nets (handle_http_flv r [] net).0 bad.1
      (omega (arith, failing-clients r net bad.0))

-- Viewers that hang up before the response is written use the relay up: when there have been as
-- many of them as there are places left, every later viewer is turned away, over both protocols.
pub visits_locked_out :
    (r : Relay) (nets : List Network) (startup : List FlvTagPacket) (net : Network)
    → All (λ (gone : Network). gone.response_ok ≡ false) nets
    → r.max_clients ≤ r.client_count + length nets
    → ((handle_http_flv (visits r nets) startup net).1 ≡ rejected)
      × ((handle_ws_flv (visits r nets) startup net).1 ≡ rejected)
unfolding handle_http_flv handle_ws_flv add_client
visits_locked_out r nets startup net bad h = ground (arith, visits_failing nets r bad h)

pub handle_http_flv-limit :
    (r : Relay) (startup : List FlvTagPacket) (net : Network)
    → r.client_count ≤ r.max_clients
    → ((handle_http_flv r startup net).0.client_count ≤ r.max_clients)
      × ((handle_http_flv r startup net).0.max_clients ≡ r.max_clients)
unfolding handle_http_flv add_client
handle_http_flv-limit r startup net h =
    ground (arith, stream_out-clients (record r { client_count = r.client_count + 1 }) startup net)
