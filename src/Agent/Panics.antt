-- ===== src/Agent/Panics.antt =====
-- What ends the agent: a log line that cuts a viewer's text.
use live_cdn.Common.{ℕ, ◌≡◌, true, false, some, List, codes, is_nil, cuts_char}
use live_cdn.Server.{websocket, connection_kind}
use live_cdn.Server.Socket.{fields}
use live_cdn.Server.Connections.{Connection}
use live_cdn.Server.Node.{Node}

-- A WebSocket connection of an FLV viewer whose key has a character over its eighth byte.
pub record HasCutKey {E : Type 0} (d : Connection E) : Type 0 where
  pub bytes : List ℕ
  pub key : List ℕ
  pub peeked : d.peeked ≡ some bytes
  pub kind : connection_kind bytes ≡ websocket
  pub accepted : (d.socket).accepted ≡ true
  pub handshake : (d.socket).handshake ≡ fields (some key) (some (codes "flv"))
  pub not_empty : is_nil key ≡ false
  pub cut : cuts_char 8 key ≡ true
