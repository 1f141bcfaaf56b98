-- ===== src/Lib.antt =====
-- The edge agent of the live CDN (agent-rust/): what it does to a stream on its way from the
-- upstream to the viewers, and the binary protocol it speaks. Numbers are natural numbers with the
-- wrap-around of the Rust types written out; a byte slice is a list of numbers.
--
-- Protocol.antt models agent-rust/src/protocol/mod.rs: the frame types (`try_from`),
-- `Frame::encode`, `Frame::decode` with its version-2 branch (`decode_v2`), and `FrameDecoder`
-- (`feed`, `next_frame` for its method `decode`). Protocol/Prefix.antt, RoundTrip.antt, Stream.antt
-- and Compat.antt are about slices and their prefixes, whole frames, the incremental decoder under
-- any schedule of calls, and frames of version 2; Protocol/Stuck.antt about the decoder behind an
-- error, and Protocol/Messages.antt has the messages that go through JSON.
--
-- Flv.antt models the packets and the serializer of agent-rust/src/relay/flv.rs and
-- agent-rust/src/relay/flv_output.rs. Puller.antt models `pull_flv_stream` of flv.rs, from the
-- first chunk on: `pull_loop` is the loop over the chunks, `parse_loop` the inner loop over the
-- buffer, and `round` one round of it, which is `parse_header` or `parse_tag`. Each tag is
-- broadcast (`sent`) and fed to the cache. The time that the n-th tag is stamped with is a
-- parameter. A round that goes on takes four bytes off the buffer at least, so the fuel of
-- `parse_all`, the length of the buffer and one, is enough (Puller/Loop.antt). Puller/Task.antt is
-- the whole request (`pull_flv_stream`) and the task that `FlvPuller::start` spawns (`run_task`),
-- with Puller/Reconnect.antt for the choice of the source; Puller/Task/Startup.antt, Losses.antt
-- and Ends.antt are about its cache, its reconnects and its end.
--
-- Gop.antt models agent-rust/src/relay/gop_cache.rs, with every operation of `GopCache`.
-- Gop/Groups.antt is its abstract view, the whole history cut into groups at the keyframes, and
-- Gop/Startup.antt relates the two. Drop.antt models agent-rust/src/relay/packet_drop.rs: the
-- priorities, `should_drop`, and the tracker, whose method of the same name is `decide`; its
-- statistics are in Drop/Stats.antt.
--
-- Viewer.antt models how agent-rust/src/main.rs serves a viewer, over HTTP (`handle_http_flv` for
-- handle_http_flv_connection) and over WebSocket (`handle_ws_flv` for handle_ws_flv_mode), both
-- from the admission on: the counts of flv.rs (`add_client`, `remove_client`), the start-up data of
-- the GOP cache, and the send loop `serve` with the tracker. What the writes answer and what the
-- broadcast channel delivers are inputs. Viewer/Heard.antt says how the channel turns what was sent
-- into what a viewer receives, and Viewer/Stream.antt what of it is written. Viewer/Live.antt is a
-- relay while its puller and any number of viewers run at the same time: a relation `Step` between
-- its states, with a step for each place where a handler waits (`advance`) and for the two
-- operations of the puller; Viewer/Live/Counted.antt and Reached.antt are about all the states that
-- can be reached.
--
-- Cascade.antt models agent-rust/src/relay/cascade_selector.rs: which upstream an agent pulls from.
-- Cascade/Score.antt is the choice among the candidates (`select_from_candidates`),
-- Cascade/Switch.antt the hysteresis and the switches (`update_mesh_map`, `report_upstream_fail`),
-- Cascade/Ping.antt the probes (`run_mesh_ping`). The floating-point numbers are a parameter,
-- `Float`; the time, the round trips and whether a lock is free are inputs. Cascade/Paths.antt,
-- Hysteresis.antt, Best.antt, Failure.antt and Pinged.antt are about loops, switches by the
-- controller, the choice, failures, and probes that reach nobody.
--
-- Crypto.antt models agent-rust/src/crypto/mod.rs: `encrypt` of StreamEncryptor and `decrypt` of
-- StreamDecryptor, which share the record `Stream`, the key of each chunk (`derive_chunk_key`), the
-- hexadecimal helpers and the token signer (`sign`, `verify`). The primitives of the ring library
-- are the parameter `Ring`, and `IsAead` is what ring documents of its ciphers; the random nonces
-- are inputs. Crypto/Chunks.antt is about the two ends of a stream, Crypto/Hex.antt about the
-- signatures' text; Crypto/Suites.antt has the names of the suites and new keys.
--
-- Playlist.antt models the playlist parser of agent-rust/src/relay/mod.rs (`parse_m3u8`,
-- `resolve_url`), StreamRelay.antt the m3u8 relay of the same file: a round of its pull loop
-- (`pull_round`), which encrypts what it has fetched, keeps it and broadcasts it as frames, and the
-- operations of StreamRelay. Numbers of type f64 are the parameter `Float`; what the network, the
-- clock and the source of nonces give to a round is its input, `Round`; the hash, the lossy
-- decoding and the order of a map's keys are `Library`. A panic is `none`. StreamRelay/Plain.antt
-- is the abstract view, a relay without encryption, cache and frames; StreamRelay/Step.antt and
-- Refines.antt relate the two, StreamRelay/Bounds.antt is about memory. StreamRelay/Task.antt is
-- the task that `start` spawns, with `fetch_url` and the waits, and StreamRelay/Task/Pulls.antt
-- relates it to the rounds.
--
-- Config.antt models agent-rust/src/config/mod.rs, the setting origin_flv_url under the name
-- `origin_flv_template`, since a method has the same name. Cli.antt models `parse_cli_args` of
-- main.rs, Disguise.antt agent-rust/src/disguise/mod.rs. Server.antt and its children model the
-- rest of main.rs: the kind of a connection and the tables of relays (Server.antt), the request of
-- an HTTP-FLV viewer (Server/Request.antt), the WebSocket handshake and the encrypted stream
-- (Server/Socket.antt), the HTTP responses (Server/Http.antt), registration and heartbeat
-- (Server/Heartbeat.antt), and a whole connection of any kind (`handle_connection`,
-- Server/Connections.antt). Server/LogLines.antt has the log lines that cut a key or a URL after
-- some of its bytes: where the cut falls within a character they panic, which ends the agent
-- (`connection_panics`). Server/Connections/Kept.antt is about the tables after any sequence of
-- connections, on top of Server/Entries.antt and Tables.antt, and Server/Pinged.antt about the mesh
-- ping of one agent at the server of another. Server/Node.antt is the agent with its selector:
-- connections, rounds of the heartbeat (`heartbeat_round`) and of the mesh ping in any order, of
-- which Server/Node/Sources.antt and Kept.antt say where the relays pull from, and Served.antt that
-- the tables stay as they should be. Agent.antt is `main`: the start, the loop over the connections
-- with the heartbeat and the mesh ping between them, and the shutdown, of which Agent/Stops.antt
-- says how it ends and what it leaves, and Agent/Panics.antt how a viewer can end it. Strings are
-- lists of code points, with the operations of Common/Text.antt. The loop over the header lines has
-- a number of rounds, since it need not end.
--
-- Transport.antt models agent-rust/src/transport/registry.rs, Updater.antt
-- agent-rust/src/updater/mod.rs with the files as a record of three, HealthCheck.antt
-- agent-rust/src/healthcheck/mod.rs, and Backoff.antt agent-rust/src/relay/backoff.rs, whose
-- numbers of type f64 are the parameter `F64`. Transport/Global.antt has the global registry and
-- the errors' texts, Transport/Delivery.antt is about frames from one end of a connection to the
-- other, Updater/Safe.antt about what an update leaves behind.
--
-- The parts meet in the packets: the puller makes them, the cache keeps them, the viewers get them
-- from the cache and the channel, and the serializer turns them back into the bytes that the puller
-- of the next agent reads. The m3u8 relay puts the encryption and the frame protocol together. The
-- server's table gives each stream its relay, with the settings' URLs, and runs Viewer's handlers
-- on the relay that all viewers of the stream share.
--
-- Not modelled: the HTTP client, sockets, tasks and timers, which are libraries and scheduling;
-- logging, except for the log lines that panic; and the Go controller. Tasks that run at the same
-- time are modelled for the viewers of one relay (Viewer/Live.antt); elsewhere a connection runs to
-- its end before the next one or a round of the heartbeat or the mesh ping, and the tasks of the
-- pullers and of the m3u8 relays are each modelled by themselves. The length of a wait is computed
-- and kept, but no clock runs.
pub mod Common
pub mod Protocol
pub mod Flv
pub mod Gop
pub mod Drop
pub mod Backoff
pub mod Cascade
pub mod Crypto
pub mod Cli
pub mod Config
pub mod Disguise
pub mod Server
pub mod Agent
pub mod Transport
pub mod Updater
pub mod HealthCheck
pub mod Viewer
pub mod Playlist
pub mod StreamRelay
pub mod Puller
