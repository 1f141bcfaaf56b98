-- ===== src/Updater/Safe.antt =====
-- What the self-update leaves behind.
use live_cdn.Common.{
  is_success, ℕ, ◌≡◌, inl, inr, refl, ap, ◌∙◌, Bool, true, false, ◌&&◌, Option, none, some, List,
  same, Bool-cases,
}
use live_cdn.Config.{Config}
use live_cdn.Updater.{
  Files, Network, System, VersionInfo, is_there, restored, removed, replaced, written, install,
  downloaded, informed, check_and_update, rollback, url_or_default,
}

-- How the running file, which was `d`, stands after an update that did or did not take place.
abbrev pub IsWhole : List ℕ → Network → Files × Bool → Type 0
IsWhole d net (f, false) = f.current ≡ some d
IsWhole d net (f, true) =
    (new : List ℕ) × (url : List ℕ) × (status : ℕ) × (net.download url ≡ some (status, some new))
    × (is_success status ≡ true)
    × (f.current ≡ some new)
    × ((rollback true true f).0.current ≡ some d)

rollback-current :
    (f : Files) (d : List ℕ) → f.backup ≡ some d → (rollback true true f).0.current ≡ some d
unfolding rollback
rollback-current f d e = rw (ap is_there e) e

removed-current : (ok : Bool) (f : Files) → (removed ok f).current ≡ f.current
removed-current true f = refl
removed-current false f = refl

restored-current :
    (ok : Bool) (f : Files) (d : List ℕ)
    → f.current ≡ some d
    → f.backup ≡ some d
    → (restored ok f).current ≡ some d
restored-current ok f d c b = elim (Bool-cases (is_there f.backup && ok)) [
  | inl e ↦ rw e b
  | inr e ↦ rw e c
]

module _ (d : List ℕ) (net : Network) (y : System) where
  replaced-IsWhole :
      (f : Files) (new url : List ℕ) (status : ℕ)
      → f.current ≡ some d
      → f.backup ≡ some d
      → f.fresh ≡ some new
      → net.download url ≡ some (status, some new)
      → is_success status ≡ true
      → IsWhole d net (replaced y f)
  replaced-IsWhole f new url status c b n e s = elim (Bool-cases y.permissions_ok) [
    | inl p ↦ rw p (elim (Bool-cases y.rename_ok) [
      | inl r ↦ rw r (new, url, status, e, s, n, rollback-current _ d b)
      | inr r ↦ rw r (
          removed-current y.remove_ok (restored y.restore_ok f)
          ∙ restored-current y.restore_ok f d c b)
    ])
    | inr p ↦ rw p (removed-current y.remove_ok f ∙ c)
  ]

  install-IsWhole :
      (f : Files) (new url : List ℕ) (status : ℕ)
      → y.copy_fails ≡ none
      → f.current ≡ some d
      → net.download url ≡ some (status, some new)
      → is_success status ≡ true
      → IsWhole d net (install y new f)
  unfolding install
  install-IsWhole f new url status k c e s = elim (Bool-cases y.has_exe_path) [
    | inl h ↦ rw (h, k) (put y.write_fails)
    | inr h ↦ rw h c
  ]
    where
      put :
          (o : Option (Option (List ℕ)))
          → IsWhole d net (written y o new (record f { backup = f.current }))
      put none = replaced-IsWhole _ new url status c c refl e s
      put (some left) = c

  downloaded-IsWhole :
      (f : Files) (url : List ℕ) (o : Option (ℕ × Option (List ℕ)))
      → y.copy_fails ≡ none
      → f.current ≡ some d
      → net.download url ≡ o
      → IsWhole d net (downloaded y o f)
  downloaded-IsWhole f url none k c e = c
  downloaded-IsWhole f url (some (status, none)) k c e = c
  downloaded-IsWhole f url (some (status, some body)) k c e =
      elim (Bool-cases (is_success status)) [
        | inl s ↦ rw s (install-IsWhole f body url status k c e s)
        | inr s ↦ rw s c
      ]

-- If the backup copy is made, then whatever the network answers and whatever else fails: an update
-- that reports failure leaves the running file as it was, and one that reports success puts in its
-- place the body of a download that succeeded, after which a rollback brings the old file back.
pub check_and_update-IsWhole :
    (c : Config) (agent_version : List ℕ) (net : Network) (y : System) (f : Files) (d : List ℕ)
    → y.copy_fails ≡ none
    → f.current ≡ some d
    → IsWhole d net (check_and_update c agent_version net y f)
unfolding check_and_update
check_and_update-IsWhole c agent_version net y f d k e = known net.version_info
  where
    known : (o : Option VersionInfo) → IsWhole d net (informed c agent_version net y o f)
    known none = e
    known (some info) = elim (Bool-cases (same info.version agent_version)) [
      | inl s ↦ rw s e
      | inr s ↦ rw s (downloaded-IsWhole d net y f (url_or_default c info.download_url) _ k e refl)
    ]

-- Without the copy it may end otherwise: what a failed copy has left behind takes the place of the
-- running file, if the rename fails as well.
pub install-broken :
    (y : System) (new left : List ℕ) (f : Files)
    → y.has_exe_path ≡ true
    → y.copy_fails ≡ some (some left)
    → y.write_fails ≡ none
    → y.permissions_ok ≡ true
    → y.rename_ok ≡ false
    → y.restore_ok ≡ true
    → (install y new f).0.current ≡ some left
unfolding install
install-broken y new left f a b w p r t =
    rw (a, b, w, p, r, t)
      (removed-current y.remove_ok
        (record f { current = some left; backup = none; fresh = some new }))
