-- ===== src/Puller/Task/Startup.antt =====
-- The cache of a puller over all the requests of its task.
use live_cdn.Common.{
  ℕ, ◌≡◌, refl, ap, ◌∙◌, inl, inr, List, [], ◌∷◌, ◌++◌, Option, is_success, Result, ok, err,
  Bool-cases,
}
use live_cdn.Gop.{GopCacheConfig, GopCache, new_cache, get_startup_tags}
use live_cdn.Gop.Startup.{startup_spec, get_startup_tags-add_all}
use live_cdn.Backoff.{F64}
use live_cdn.Puller.{start_pull}
use live_cdn.Puller.Reconnect.{current_url}
use live_cdn.Puller.Fed.{IsFed, pull_loop-FedPull}
use live_cdn.Puller.Task.{
  Shared, Response, unbuilt, unreachable, answered, PullError, opened, pull_flv_stream, Turn, Task,
  new_task, after_pull, turn, run_task,
}

module _ (c : GopCache) where
  pull_flv_stream-IsFed :
      (clock : ℕ → ℕ) (s : Shared) (r : Response)
      → IsFed c s.sent s.cache
      → IsFed c (pull_flv_stream clock s r).0.sent (pull_flv_stream clock s r).0.cache
  unfolding pull_flv_stream start_pull
  pull_flv_stream-IsFed clock s unbuilt h = h
  pull_flv_stream-IsFed clock s unreachable h = h
  pull_flv_stream-IsFed clock s (answered status body) h = elim (Bool-cases (is_success status)) [
    | inl good ↦ rw good (pull_loop-FedPull c clock body (opened s) h)
    | inr bad ↦ rw bad h
  ]

  module _ {T : Type 0} (F : F64 T) where
    abbrev FedTask : Task T → Type 0
    FedTask t = IsFed c (t.shared).sent (t.shared).cache

    after_pull-FedTask :
        (t : Task T) (seed : ℕ) (r : Shared × Result PullError (Unit {0}))
        → IsFed c (r.0).sent (r.0).cache
        → FedTask (after_pull F t seed r).0
    unfolding after_pull
    after_pull-FedTask t seed (shared, ok u) h = h
    after_pull-FedTask t seed (shared, err e) h = h

    turn-FedTask : (t : Task T) (i : Turn) → FedTask t → FedTask (turn F t i).0
    unfolding turn
    turn-FedTask t i h = elim (Bool-cases i.running) [
      | inl on ↦ rw on (
          after_pull-FedTask
            (record t {
              urls = t.urls ++ current_url t.flv_url t.backup_flv_url t.using_backup ∷ [];
            })
            i.seed (pull_flv_stream i.clock t.shared i.response)
            (pull_flv_stream-IsFed i.clock t.shared i.response h))
      | inr off ↦ rw off h
    ]

    run_task-FedTask : (is : List Turn) (t : Task T) → FedTask t → FedTask (run_task F t is)
    unfolding run_task
    run_task-FedTask [] t h = h
    run_task-FedTask (i ∷ is) t h = elim (Bool-cases (turn F t i).1) [
      | inl on ↦ rw on (run_task-FedTask is (turn F t i).0 (turn-FedTask t i h))
      | inr off ↦ rw off (turn-FedTask t i h)
    ]

-- Whatever the upstreams send, however the network cuts it and however often the connection is lost
-- and made again: what a new viewer gets is `startup_spec` of all the packets that the pull task
-- has broadcast so far.
pub run_task-startup :
    {T : Type 0} (F : F64 T) (flv_url : List ℕ) (backup : Option (List ℕ)) (config : GopCacheConfig)
    (is : List Turn)
    → let s = (run_task F (new_task F flv_url backup config) is).shared in
      get_startup_tags s.cache ≡ startup_spec config s.sent
unfolding new_task live_cdn.Gop.add_all
run_task-startup F flv_url backup config is =
    let t : Task _ = run_task F (new_task F flv_url backup config) is in
    ap get_startup_tags
      (run_task-FedTask (new_cache config) F is (new_task F flv_url backup config) refl)
    ∙ get_startup_tags-add_all config (t.shared).sent
