-- ===== src/Puller/Reconnect.antt =====
-- The pull task of `FlvPuller::start` in agent-rust/src/relay/flv.rs: the choice between the origin
-- and the backup each time the connection is lost.
use live_cdn.Common.{
  ℕ, zero, suc, ◌≡◌, refl, ap, Bool, true, false, ◌&&◌, not, Option, none, some, List, [], ◌∷◌,
  is_some, if◌then◌else◌, replicate,
}

-- How an attempt ends, and that the relay is stopped before it.
pub data Attempt : Type 0 where
  stopped ended lost : Attempt

unfoldable pub current_url : List ℕ → Option (List ℕ) → Bool → List ℕ
current_url flv_url none using_backup = flv_url
current_url flv_url (some backup) using_backup = if using_backup then backup else flv_url

unfoldable pub after_loss : Option (List ℕ) → Bool → Bool
after_loss backup using_backup =
    if not using_backup && is_some backup
    then true
    else if using_backup
    then false
    else using_backup

-- The URLs that the task pulls from, one after the other.
unfoldable pub tried : List ℕ → Option (List ℕ) → Bool → List Attempt → List (List ℕ)
tried flv_url backup using_backup [] = []
tried flv_url backup using_backup (stopped ∷ rest) = []
tried flv_url backup using_backup (ended ∷ rest) = current_url flv_url backup using_backup ∷ []
tried flv_url backup using_backup (lost ∷ rest) =
    current_url flv_url backup using_backup
    ∷ tried flv_url backup (after_loss backup using_backup) rest

abbrev pub alternating : List ℕ → List ℕ → ℕ → List (List ℕ)
alternating a b zero = []
alternating a b (suc n) = a ∷ alternating b a n

tried_from :
    (flv_url backup : List ℕ) (using_backup : Bool) (n : ℕ)
    → tried flv_url (some backup) using_backup (replicate n lost)
      ≡ alternating
          (current_url flv_url (some backup) using_backup)
          (current_url flv_url (some backup) (not using_backup))
          n
unfolding tried after_loss current_url
tried_from flv_url backup using_backup zero = refl
tried_from flv_url backup true (suc n) = ap (◌∷◌ backup) (tried_from flv_url backup false n)
tried_from flv_url backup false (suc n) = ap (◌∷◌ flv_url) (tried_from flv_url backup true n)

-- However often the connection is lost, the attempts go to the origin and to the backup in turn, the
-- first to the origin; without a backup all of them go to the origin.
pub tried-alternating :
    (flv_url backup : List ℕ) (n : ℕ)
    → (tried flv_url (some backup) false (replicate n lost) ≡ alternating flv_url backup n)
      × (tried flv_url none false (replicate n lost) ≡ replicate n flv_url)
unfolding tried after_loss current_url
tried-alternating flv_url backup zero = (refl, refl)
tried-alternating flv_url backup (suc n) = (
  tried_from flv_url backup false (suc n),
  ap (◌∷◌ flv_url) (tried-alternating flv_url backup n).1,
)
