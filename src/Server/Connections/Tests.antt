-- ===== src/Server/Connections/Tests.antt =====
-- An agent and four connections: an HTTP-FLV viewer, one over WebSocket, one of the encrypted stream,
-- and a page.
use live_cdn.Common.{ℕ, refl, true, none, some, List, [], ◌∷◌, codes, ok}
use live_cdn.Config.{default_config}
use live_cdn.Crypto.Toy.{key_info}
use live_cdn.Viewer.{Network}
use live_cdn.Server.{AppState}
use live_cdn.Server.Request.{Visit}
use live_cdn.Server.Http.{Library, get_method}
use live_cdn.Server.Socket.{fields}
use live_cdn.Server.Connections.{Socket, Connection}
use live_cdn.Server.LogLines.{handle_all}
use live_cdn.Server.Connections.Kept.{IsServed, handle_all-IsServed}

abbrev library : Library
library = record { blog = codes "<html>"; base64_encode = λ d. d; json = λ h. [] }

abbrev idle : AppState ℕ
idle = record { config = default_config; relays = []; flv_relays = [] }

abbrev online : Network
online = record { response_ok = true; flv_header_ok = true; startup_ok = true; events = [] }

abbrev visit : Visit
visit = record {
  request_line = codes "GET /live/s1.flv HTTP/1.1\r\n";
  header_lines = codes "\r\n" ∷ [];
  upstream = none;
  startup = [];
  network = online;
}

abbrev socket : List ℕ → Socket ℕ
socket mode = record {
  accepted = true;
  handshake = fields (some (codes "s1")) (some mode);
  upstream = none;
  fresh_key = ok key_info;
  startup = [];
  network = online;
  first_ok = true;
  messages = record { data_bytes = 1 ∷ []; send_ok = true } ∷ [];
}

abbrev connection : List ℕ → List ℕ → Connection ℕ
connection peeked mode = record {
  peeked = some peeked;
  socket = socket mode;
  visit = visit;
  requests = (get_method, codes "/health") ∷ [];
}

abbrev connections : List (Connection ℕ)
connections =
    connection (codes "GET /live/s1.flv HTTP/1.1\r\n") []
    ∷ connection (codes "GET /ws HTTP/1.1\r\nUpgrade: websocket\r\n") (codes "flv")
    ∷ connection (codes "GET /ws HTTP/1.1\r\nUpgrade: websocket\r\n") (codes "encrypted")
    ∷ connection (codes "GET /health HTTP/1.1\r\n") []
    ∷ []

handle_all-IsServed_example : IsServed default_config (handle_all 9 library idle connections)
handle_all-IsServed_example = handle_all-IsServed 9 library idle connections refl refl
