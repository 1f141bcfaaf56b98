-- ===== src/Puller/Task/Losses.antt =====
-- What losses of the connection do to the pull task, however much each connection delivered first.
use live_cdn.Common.{
  ℕ, ◌+◌, ◌%◌, ◌^◌, ◌<◌, ◌≡◌, refl, ap, ◌∙◌, Bool, true, List, [], ◌∷◌, ◌++◌, none, some, arith,
  length, replicate, All, append-nil, append_assoc, sym, err, as_i32,
}
use live_cdn.Gop.{GopCacheConfig}
use live_cdn.Backoff.{F64, new_backoff, next_wait, base_secs}
use live_cdn.Backoff.Attempts.{base_secs-parts}
use live_cdn.Puller.Reconnect.{current_url, after_loss, lost, tried, alternating, tried-alternating}
use live_cdn.Puller.Task.{
  Shared, PullError, pull_flv_stream, Turn, Task, new_task, after_pull, turn, run_task,
}

-- The relay is not stopped, and the request ends with an error.
abbrev pub IsLost : Turn → Type 0
IsLost i =
    (i.running ≡ true)
    × ((s : Shared) → (e : PullError) × ((pull_flv_stream i.clock s i.response).1 ≡ err e))

module _ {T : Type 0} (F : F64 T) where
  -- What is settled when a round ends with a loss.
  abbrev AfterLoss : Task T → Task T × Bool → Type 0
  AfterLoss t (t', more) =
      (more ≡ true)
      × (t'.flv_url ≡ t.flv_url)
      × (t'.backup_flv_url ≡ t.backup_flv_url)
      × (t'.using_backup ≡ after_loss t.backup_flv_url t.using_backup)
      × (t'.urls ≡ t.urls ++ current_url t.flv_url t.backup_flv_url t.using_backup ∷ [])
      × ((t'.backoff).attempt ≡ ((t.backoff).attempt + 1) % 2 ^ 32)
      × ((t'.backoff).initial ≡ (t.backoff).initial)
      × ((t'.backoff).max_wait ≡ (t.backoff).max_wait)
      × ((t'.backoff).multiplier ≡ (t.backoff).multiplier)

  turn-AfterLoss : (t : Task T) (i : Turn) → IsLost i → AfterLoss t (turn F t i)
  unfolding turn after_pull next_wait
  turn-AfterLoss t i (on, fails) =
      let (e, h) = fails t.shared in
      rw (on, h, after_pull) (refl, refl, refl, refl, refl, refl, refl, refl, refl)

  run_task_goes :
      (t : Task T) (i : Turn) (is : List Turn)
      → (turn F t i).1 ≡ true
      → run_task F t (i ∷ is) ≡ run_task F (turn F t i).0 is
  unfolding run_task
  run_task_goes t i is on = rw on refl

  -- The URLs that the losses lead to, by the rule of the switches.
  run_task_lost-urls :
      (is : List Turn) (t : Task T)
      → All IsLost is
      → (run_task F t is).urls
        ≡ t.urls ++ tried t.flv_url t.backup_flv_url t.using_backup (replicate (length is) lost)
  unfolding run_task tried
  run_task_lost-urls [] t h = sym (append-nil t.urls)
  run_task_lost-urls (i ∷ is) t h =
      let (on, url, backup, using, urls, a, b, c, d) = turn-AfterLoss t i h.0 in
      let n : List _ = replicate (length is) lost in
      ap (λ (u : Task T). u.urls) (run_task_goes t i is on)
      ∙ run_task_lost-urls is (turn F t i).0 h.1
      ∙ rw (url, backup, using, urls)
          (append_assoc t.urls (current_url t.flv_url t.backup_flv_url t.using_backup ∷ [])
            (tried t.flv_url t.backup_flv_url (after_loss t.backup_flv_url t.using_backup) n))

  run_task_lost-backoff :
      (is : List Turn) (t : Task T)
      → All IsLost is
      → (t.backoff).attempt + length is < 2 ^ 32
      → let b = (run_task F t is).backoff in
        (b.attempt ≡ (t.backoff).attempt + length is)
        × (b.initial ≡ (t.backoff).initial)
        × (b.max_wait ≡ (t.backoff).max_wait)
        × (b.multiplier ≡ (t.backoff).multiplier)
  unfolding run_task
  run_task_lost-backoff [] t h fits = (omega arith, refl, refl, refl)
  run_task_lost-backoff (i ∷ is) t h fits =
      let (on, url, backup, using, urls, attempt, initial, max_wait, multiplier) =
        turn-AfterLoss t i h.0 in
      let now : ((t.backoff).attempt + 1) % 2 ^ 32 ≡ (t.backoff).attempt + 1 = omega arith in
      let (a, b, c, d) = run_task_lost-backoff is (turn F t i).0 h.1 (omega arith) in
      rw on (omega arith, b ∙ initial, c ∙ max_wait, d ∙ multiplier)

-- While the puller runs and every connection ends in an error, however many packets each of them
-- delivered first: the requests go to the origin and to the backup in turn, the first to the origin
-- (without a backup all of them go to the origin), and the next wait is set by the number of all
-- losses, as long as a u32 counts them: before its jitter it is 2 seconds times two to that number,
-- read as an i32 (from 2^31 losses on it is negative), or 60 seconds if that is less.
pub run_task_lost :
    {T : Type 0} (F : F64 T) (flv_url backup : List ℕ) (config : GopCacheConfig) (is : List Turn)
    → All IsLost is
    → length is < 2 ^ 32
    → ((run_task F (new_task F flv_url (some backup) config) is).urls
        ≡ alternating flv_url backup (length is))
      × ((run_task F (new_task F flv_url none config) is).urls ≡ replicate (length is) flv_url)
      × (base_secs F (run_task F (new_task F flv_url (some backup) config) is).backoff
          ≡ F.minimum
              (F.mul (F.literal 2 0) (F.powi (F.literal 2 0) (as_i32 (length is))))
              (F.literal 60 0))
unfolding new_task new_backoff
run_task_lost F flv_url backup config is h fits =
    let t : Task _ = new_task F flv_url (some backup) config in
    let (there, here) = tried-alternating flv_url backup (length is) in
    let (count, i, m, k) = run_task_lost-backoff F is t h (omega arith) in
    let none_first : 0 + length is ≡ length is = omega arith in
    (
      run_task_lost-urls F is t h ∙ there,
      run_task_lost-urls F is (new_task F flv_url none config) h ∙ here,
      base_secs-parts F _ (F.literal 2 0) (F.literal 60 0) (F.literal 2 0) (length is) i m k
          (count ∙ none_first),
    )
