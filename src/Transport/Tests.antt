-- ===== src/Transport/Tests.antt =====
-- Two frames over a connection, between a ping and a text.
use live_cdn.Common.{◌≡◌, refl, true, none, some, List, [], ◌∷◌, ◌++◌, ok, err, arith, All, codes}
use live_cdn.Protocol.{Frame, heartbeat, data_frame, encode}
use live_cdn.Protocol.Stream.{IsSendable}
use live_cdn.Transport.{
  Message, TransportConfig, plain_ws, ws_url, binary, ping_message, other_message, close_message,
  not_connected, send_frame,
}
use live_cdn.Transport.Delivery.{fresh, recv_times, recv_times-send_all}

abbrev data_of : Frame
data_of = record {
  version = 3;
  frame_type = data_frame;
  flags = 0;
  seq = 1;
  origin_ts = 9;
  payload = 10 ∷ 20 ∷ [];
}

abbrev beat_of : Frame
beat_of = record {
  version = 3;
  frame_type = heartbeat;
  flags = 0;
  seq = 2;
  origin_ts = 0;
  payload = [];
}

abbrev frames : List Frame
frames = data_of ∷ beat_of ∷ []

data_of-IsSendable : IsSendable data_of
data_of-IsSendable = record {
  frame = record {
    version_u8 = omega arith;
    flags_u8 = omega arith;
    seq_u32 = omega arith;
    ts_u64 = omega arith;
  };
  current = omega arith;
  small = omega arith;
}

beat_of-IsSendable : IsSendable beat_of
beat_of-IsSendable = record {
  frame = record {
    version_u8 = omega arith;
    flags_u8 = omega arith;
    seq_u32 = omega arith;
    ts_u64 = omega arith;
  };
  current = omega arith;
  small = omega arith;
}

frames-IsSendable : All IsSendable frames
frames-IsSendable = (data_of-IsSendable, (beat_of-IsSendable, tt))

abbrev messages : List Message
messages = ping_message ∷ binary (encode data_of) ∷ other_message ∷ binary (encode beat_of) ∷ []

recv_times-send_all_example :
    recv_times 4 (fresh (messages ++ close_message ∷ []))
    ≡ ok (some data_of) ∷ ok (some beat_of) ∷ ok none ∷ err not_connected ∷ []
unfolding send_frame
recv_times-send_all_example = recv_times-send_all frames messages [] frames-IsSendable refl refl

abbrev config : TransportConfig
config = record {
  transport_type = plain_ws;
  address = codes "edge:9090";
  path = codes "/ws";
  tls_enabled = true;
}

secure_url : ws_url config ≡ codes "wss://edge:9090/ws"
secure_url = refl
