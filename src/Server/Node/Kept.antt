-- ===== src/Server/Node/Kept.antt =====
-- Where the relays of an agent pull from, while its selector changes the upstream.
use live_cdn.Common.{
  Bool-cases, ℕ, ◌≡◌, ◌∙◌, refl, sym, ap, inl, inr, Option, none, some, List, [], ◌∷◌,
}
use live_cdn.Cascade.{Float, MeshMapResponse, current_upstream_url}
use live_cdn.Cascade.Score.{Locks}
use live_cdn.Server.{AppState, get, new_flv_relay}
use live_cdn.Server.Http.{Library}
use live_cdn.Server.Heartbeat.{Reaction, nothing, update_mesh, register, heartbeat_reaction}
use live_cdn.Server.Node.{
  Node, Input, visited, heartbeat, pinged, react, heartbeat_round, take_input, input_panics,
  take_all,
}
use live_cdn.Server.Node.Sources.{
  sources, sources-none, some_ne_none, Grows, handle_connection-Grows,
}

-- The answer to a heartbeat leaves the relays.
pub react-app :
    {F : Type 0} (R : Float) (s : Node F R.Carrier) (now : ℕ) (locks : Locks)
    (r : Reaction (MeshMapResponse R.Carrier))
    → (react R s now locks r).0.app ≡ s.app
unfolding react
react-app R s now locks nothing = refl
react-app R s now locks (update_mesh m) = refl
react-app R s now locks (register url payload) = refl

module _ {F E : Type 0} (R : Float) (n : ℕ) (lib : Library) where
  take_input-Grows :
      (s : Node F R.Carrier) (i : Input E R.Carrier)
      → Grows s.app.config
          (current_upstream_url s.selector)
          s.app.flv_relays
          (take_input R n lib s i).0.app.flv_relays
  unfolding Grows take_input heartbeat_round
  take_input-Grows s (visited c) =
      handle_connection-Grows n lib s.app c (current_upstream_url s.selector)
  take_input-Grows s (heartbeat now locks origins answer) = λ k. inl (
      ap (λ (a : AppState F). sources (get a.flv_relays k))
        (react-app R s now locks (heartbeat_reaction s.app.config answer)))
  take_input-Grows s (pinged now locks ping) = λ k. inl refl

  -- A stream that has a relay.
  take_all-sources :
      (is : List (Input E R.Carrier)) (s : Node F R.Carrier) (k : List ℕ)
      (u : List ℕ × Option (List ℕ))
      → sources (get s.app.flv_relays k) ≡ some u
      → sources (get (take_all R n lib s is).0.app.flv_relays k) ≡ some u
  unfolding take_all Grows
  take_all-sources [] s k u h = h
  take_all-sources (i ∷ is) s k u h =
      let next : sources (get (take_input R n lib s i).0.app.flv_relays k) ≡ some u =
        elim (take_input-Grows s i k) [
          | inl e ↦ e ∙ h
          | inr (e, f) ↦ absurd (some_ne_none u (sym h ∙ ap sources e))
        ] in
      elim (Bool-cases (input_panics R n lib s i)) [
        | inl e ↦ rw e next
        | inr e ↦ rw e (take_all-sources is (take_input R n lib s i).0 k u next)
      ]

-- A stream's relay keeps the two URLs that it was made with, the upstream that the selector had at
-- that moment (or the origin) and the settings' backup, through all that comes after it: connections,
-- heartbeats whose answers move the selector to another upstream, and mesh pings that do.
pub take_all-upstream :
    {F E : Type 0} (R : Float) (n : ℕ) (lib : Library) (s : Node F R.Carrier) (k : List ℕ)
    (i : Input E R.Carrier) (is : List (Input E R.Carrier))
    → get s.app.flv_relays k ≡ none
    → ¬ (get (take_input R n lib s i).0.app.flv_relays k ≡ none)
    → sources (get (take_all R n lib s (i ∷ is)).0.app.flv_relays k)
      ≡ sources (some (new_flv_relay s.app.config k (current_upstream_url s.selector)))
unfolding take_all Grows
take_all-upstream R n lib s k i is before after =
    let (s', sent) = take_input R n lib s i in
    let next : sources (get s'.app.flv_relays k)
        ≡ sources (some (new_flv_relay s.app.config k (current_upstream_url s.selector))) =
      elim (take_input-Grows R n lib s i k) [
        | inl e ↦ absurd (after (sources-none (get s'.app.flv_relays k) (e ∙ ap sources before)))
        | inr (e, f) ↦ f
      ] in
    elim (Bool-cases (input_panics R n lib s i)) [
      | inl e ↦ rw e next
      | inr e ↦ rw e (take_all-sources R n lib is s' k _ next)
    ]
