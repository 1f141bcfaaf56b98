-- ===== src/StreamRelay/Task.antt =====
-- The task that `StreamRelay::start` of agent-rust/src/relay/mod.rs spawns: rounds of the pull loop
-- until the relay is stopped, with a wait after each playlist that cannot be fetched (`fetch_url`).
-- What the network answers, the running flag and the seeds are inputs.
pub mod Pulls
use live_cdn.Common.{
  ℕ, zero, suc, ◌+◌, ◌%◌, ◌^◌, ◌<◌, ◌≡◌, refl, ap, ◌∙◌, Bool, true, false, not, Option, none, some,
  List, [], ◌∷◌, ◌++◌, map, if◌then◌else◌, is_success, Result, ok, err, inl, inr, Bool-cases,
  Option-cases,
}
use live_cdn.Crypto.{Ring}
use live_cdn.Playlist.{Float}
use live_cdn.Backoff.{F64, ExponentialBackoff, next_wait, reset}
use live_cdn.StreamRelay.{StreamRelay, Fetch, Round, Library, pull_round, pull_all}

-- What a request meets: no permit of the semaphore, no answer, or a status and a body, if it can be
-- read.
pub data Answer : Type 0 where
  no_permit no_answer : Answer
  answered : ℕ → Option (List ℕ) → Answer

pub data FetchError : Type 0 where
  semaphore_closed http_error read_body : FetchError
  http_status : ℕ → FetchError

unfoldable pub read_all : Option (List ℕ) → Result FetchError (List ℕ)
read_all none = err read_body
read_all (some body) = ok body

unfoldable pub fetch_url : Answer → Result FetchError (List ℕ)
unfolding read_all
fetch_url no_permit = err semaphore_closed
fetch_url no_answer = err http_error
fetch_url (answered status body) =
    if not (is_success status) then err (http_status status) else read_all body

abbrev pub fetched : Result FetchError (List ℕ) → Option (List ℕ)
fetched (ok body) = some body
fetched (err e) = none

-- An answer with the nonce and the time that go with it.
pub record Reply : Type 0 where
  pub answer : Answer
  pub nonce : List ℕ
  pub origin_ts : ℕ

abbrev pub fetch_of : Reply → Fetch
fetch_of r = record {
  body = fetched (fetch_url r.answer);
  nonce = r.nonce;
  origin_ts = r.origin_ts;
}

-- The inputs of one round of the task.
pub record Turn : Type 0 where
  pub running : Bool
  pub playlist : Reply
  pub files : ℕ → Reply
  pub seed : ℕ

abbrev pub round_of : Turn → Round
round_of i = record { playlist = fetch_of i.playlist; files = λ k. fetch_of (i.files k) }

-- The relay and the task's backoff, with the waits that it has made.
pub record Task (F T : Type 0) : Type 0 where
  pub relay : StreamRelay F
  pub backoff : ExponentialBackoff T
  pub waits : List T

-- The relay is pulled, and the task goes on with it, unless the round panics.
pub with_relay : {F T : Type 0} → Task F T → Option (StreamRelay F) → Option (Task F T)
with_relay t none = none
with_relay t (some relay) = some (record t { relay = relay })

module _ {F T : Type 0} (fl : Float F) (R : Ring) (lib : Library) (G : F64 T) where
  pub after_fetch : Task F T → Turn → Result FetchError (List ℕ) → Option (Task F T)
  unfolding with_relay
  after_fetch t i (err e) =
      let (backoff, seed', wait) = next_wait G t.backoff i.seed in
      some (record t { backoff = backoff; waits = t.waits ++ wait ∷ [] })
  after_fetch t i (ok body) =
      with_relay (record t { backoff = reset t.backoff }) (pull_round fl R lib t.relay (round_of i))

  -- The rounds of the task; `none` is a panic.
  pub run_task : Task F T → List Turn → Option (Task F T)
  unfolding after_fetch
  run_task t [] = some t
  run_task t (i ∷ is) = elim i.running [
    | false ↦ some t
    | true ↦ elim (after_fetch t i (fetch_url i.playlist.answer)) [
      | none ↦ none
      | some t' ↦ run_task t' is
    ]
  ]

-- The rounds before the relay is stopped.
abbrev pub until_stop : List Turn → List Turn
until_stop [] = []
until_stop (i ∷ is) = let rest = until_stop is in if i.running then i ∷ rest else []

-- One failed fetch more, or none since the last success.
abbrev pub next_count : ℕ → Option (List ℕ) → ℕ
next_count n none = suc n
next_count n (some body) = 0

-- How many fetches of the playlist have failed since one succeeded, after so many before.
abbrev pub failures : ℕ → List Turn → ℕ
failures n [] = n
failures n (i ∷ is) = failures (next_count n (fetched (fetch_url i.playlist.answer))) is
