-- ===== src/Updater/Tests.antt =====
-- Updates that succeed and that fail.
use live_cdn.Common.{◌≡◌, refl, true, none, some, [], ◌∷◌, codes, same, if◌then◌else◌}
use live_cdn.Config.{default_config}
use live_cdn.Updater.{Files, Network, System, check_and_update, install}
use live_cdn.Updater.Safe.{IsWhole, check_and_update-IsWhole}

abbrev old_files : Files
old_files = record { current = some (1 ∷ []); backup = none; fresh = none }

abbrev network : Network
network = record {
  version_info = some (record { version = codes "2"; download_url = some (codes "http://c/new") });
  download = λ url. if same url (codes "http://c/new") then some (200, some (2 ∷ [])) else none;
}

abbrev working : System
working = record {
  has_exe_path = true;
  copy_fails = none;
  write_fails = none;
  permissions_ok = true;
  rename_ok = true;
  restore_ok = true;
  remove_ok = true;
}

updated :
    check_and_update default_config (codes "1") network working old_files
    ≡ (record { current = some (2 ∷ []); backup = some (1 ∷ []); fresh = none }, true)
unfolding check_and_update install
updated = refl

check_and_update-IsWhole_example :
    IsWhole (1 ∷ []) network (check_and_update default_config (codes "1") network working old_files)
check_and_update-IsWhole_example =
    check_and_update-IsWhole default_config (codes "1") network working old_files (1 ∷ []) refl refl
