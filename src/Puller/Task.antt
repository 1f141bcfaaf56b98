-- ===== src/Puller/Task.antt =====
-- The pull task that `FlvPuller::start` of agent-rust/src/relay/flv.rs spawns: one request after the
-- other (`pull_flv_stream`), with the switches between the origin and the backup (Puller/Reconnect)
-- and the waits (Backoff). What the network answers, the running flag and the seeds are inputs.
pub mod Startup
pub mod Losses
pub mod Ends
mod Tests
use live_cdn.Common.{
  ℕ, Bool, true, false, not, Option, List, [], ◌∷◌, ◌++◌, if◌then◌else◌, is_success, Result, ok,
  err,
}
use live_cdn.Flv.{FlvTagPacket}
use live_cdn.Gop.{GopCache, GopCacheConfig, new_cache}
use live_cdn.Backoff.{F64, ExponentialBackoff, new_backoff, next_wait}
use live_cdn.Puller.{
  Pull, Arrival, Ended, finished, invalid_stream, read_failed, out_of_fuel, start_pull, pull_loop,
}
use live_cdn.Puller.Reconnect.{current_url, after_loss}

-- What all requests of a puller share: the broadcast channel, and the cache.
pub record Shared : Type 0 where
  pub sent : List FlvTagPacket
  pub cache : GopCache

-- The text of the error, as far as it tells one from another. `no_end` is none of them: the fuel of
-- the inner loop ran out.
pub data PullError : Type 0 where
  build_client connect not_flv read_chunk no_end : PullError
  http_status : ℕ → PullError

-- What comes of the request: a client that cannot be built, a failed connection, or the status with
-- what the body delivers.
pub data Response : Type 0 where
  unbuilt unreachable : Response
  answered : ℕ → List Arrival → Response

pub result_of : Ended → Result PullError (Unit {0})
result_of finished = ok tt
result_of invalid_stream = err not_flv
result_of read_failed = err read_chunk
result_of out_of_fuel = err no_end

pub pulled : Pull × Ended → Shared × Result PullError (Unit {0})
pulled (s, end) = (record { sent = s.sent; cache = s.cache }, result_of end)

-- The locals of a new request, over what is shared.
abbrev pub opened : Shared → Pull
opened s = record (start_pull s.cache) { sent = s.sent }

pub pull_flv_stream : (ℕ → ℕ) → Shared → Response → Shared × Result PullError (Unit {0})
unfolding pulled
pull_flv_stream clock s unbuilt = (s, err build_client)
pull_flv_stream clock s unreachable = (s, err connect)
pull_flv_stream clock s (answered status body) =
    if not (is_success status)
    then (s, err (http_status status))
    else pulled (pull_loop clock (opened s) body)

-- The inputs of one round of the task.
pub record Turn : Type 0 where
  pub running : Bool
  pub clock : ℕ → ℕ
  pub response : Response
  pub seed : ℕ

-- The task's variables, with the URLs that it has pulled from and the waits that it has made.
pub record Task (T : Type 0) : Type 0 where
  pub flv_url : List ℕ
  pub backup_flv_url : Option (List ℕ)
  pub using_backup : Bool
  pub backoff : ExponentialBackoff T
  pub shared : Shared
  pub urls : List (List ℕ)
  pub waits : List T

module _ {T : Type 0} (F : F64 T) where
  pub new_task : List ℕ → Option (List ℕ) → GopCacheConfig → Task T
  new_task flv_url backup_flv_url config = record {
    flv_url = flv_url;
    backup_flv_url = backup_flv_url;
    using_backup = false;
    backoff = new_backoff F (F.literal 2 0) (F.literal 60 0);
    shared = record { sent = []; cache = new_cache config };
    urls = [];
    waits = [];
  }

  -- What follows the request: the end of the task, or a wait.
  pub after_pull : Task T → ℕ → Shared × Result PullError (Unit {0}) → Task T × Bool
  after_pull t seed (shared, ok u) = (record t { shared = shared }, false)
  after_pull t seed (shared, err e) =
      let (backoff, seed', wait) = next_wait F t.backoff seed in
      (
        record t {
          shared = shared;
          using_backup = after_loss t.backup_flv_url t.using_backup;
          backoff = backoff;
          waits = t.waits ++ wait ∷ [];
        },
        true,
      )

  -- One round of the loop, and whether it goes on.
  pub turn : Task T → Turn → Task T × Bool
  unfolding after_pull
  turn t i =
      let url = current_url t.flv_url t.backup_flv_url t.using_backup in
      if not i.running
      then (t, false)
      else after_pull (record t { urls = t.urls ++ url ∷ [] }) i.seed
          (pull_flv_stream i.clock t.shared i.response)

  pub run_task : Task T → List Turn → Task T
  run_task t [] = t
  run_task t (i ∷ is) =
      let (t', more) = turn t i in let rest = run_task t' is in if more then rest else t'
