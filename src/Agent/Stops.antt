-- ===== src/Agent/Stops.antt =====
-- What the agent leaves when it is shut down.
use live_cdn.Common.{◌⊎◌, ◌||◌, ◌&&◌, if◌then◌else◌, ℕ, ◌≡◌, Bool, true, false, List, [], ◌∷◌}
use live_cdn.Config.{Config}
use live_cdn.StreamRelay.{StreamRelay}
use live_cdn.StreamRelay as StreamRelays
use live_cdn.Server.{AppState}
use live_cdn.Server.Http.{Library}
use live_cdn.Server.Entries.{AreEntries}
use live_cdn.Server.Tables.{IsEntry}
use live_cdn.Cascade.{Float}
use live_cdn.Server.Node.{Node, visited, take_input, input_panics}
use live_cdn.Server.Connections.Kept.{IsHlsEntry}
use live_cdn.Agent.{Task, Event, taken, over_ipv6, accept_failed, signal, Ended, panics, stopped}

module _ {F : Type 0} (c : Config) where
  -- Both tables are as they should be, and none of their relays runs.
  pub record IsShutDown (s : AppState F) : Type 0 where
    pub config : s.config ≡ c
    pub flv : AreEntries (λ k p. IsEntry c.max_clients k p × (p.running ≡ false)) s.flv_relays
    pub hls : AreEntries (λ k r. IsHlsEntry c k r × (r.running ≡ false)) s.relays

-- An event other than the signal.
abbrev pub IsOrdinary : {E C : Type 0} → Event E C → Type 0
IsOrdinary (taken i) = Unit {0}
IsOrdinary (over_ipv6 c) = Unit {0}
IsOrdinary accept_failed = Unit {0}
IsOrdinary signal = ⊥

-- The loop ends in this way.
abbrev pub ShutsDown : {F C : Type 0} → Config → List Task → Ended F C → Type 0
ShutsDown {F} {C} c tasks end = (s : Node F C) × (end ≡ stopped tasks s) × IsShutDown c s.app

-- Whether one of these events leads to a log line that panics.
module _ {F E : Type 0} (R : Float) (n : ℕ) (lib : Library) where
  abbrev pub meets_panic : Bool → Node F R.Carrier → List (Event E R.Carrier) → Bool
  meets_panic ipv6 s [] = false
  meets_panic ipv6 s (taken i ∷ es) =
      input_panics R n lib s i || meets_panic ipv6 (take_input R n lib s i).0 es
  meets_panic ipv6 s (over_ipv6 c ∷ es) =
      let s' = if ipv6 then (take_input R n lib s (visited c)).0 else s in
      (ipv6 && input_panics R n lib s (visited c)) || meets_panic ipv6 s' es
  meets_panic ipv6 s (accept_failed ∷ es) = meets_panic ipv6 s es
  meets_panic ipv6 s (signal ∷ es) = false

-- With a panic on the way the agent ends so, and without one it shuts down.
abbrev pub Ends : {F C : Type 0} → Config → List Task → Bool → Ended F C → Type 0
Ends c tasks panicked end =
    ((panicked ≡ true) × (end ≡ panics)) ⊎ ((panicked ≡ false) × ShutsDown c tasks end)
