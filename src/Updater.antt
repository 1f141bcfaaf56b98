-- ===== src/Updater.antt =====
-- agent-rust/src/updater/mod.rs: the self-update. The file system is what it holds at the three paths
-- that the update uses; what the network answers and which of the file operations fail are inputs.
pub mod Safe
mod Tests
use live_cdn.Common.{
  is_success, ℕ, Bool, true, false, not, ◌&&◌, Option, none, some, List, [], ◌∷◌, if◌then◌else◌,
  codes, same, leb, ltb,
}
use live_cdn.Config.{Config, controller_api_url}

-- The running file, `current_exe`, its copy with the extension `bak`, and the new one, `new`.
pub record Files : Type 0 where
  pub current : Option (List ℕ)
  pub backup : Option (List ℕ)
  pub fresh : Option (List ℕ)

pub record VersionInfo : Type 0 where
  pub version : List ℕ
  pub download_url : Option (List ℕ)

-- The answers of the controller: the version, and for a URL its status and body.
pub record Network : Type 0 where
  pub version_info : Option VersionInfo
  pub download : List ℕ → Option (ℕ × Option (List ℕ))

-- What the file operations answer. A copy or a write that fails leaves what it gives here behind;
-- nothing else is written to these paths meanwhile.
pub record System : Type 0 where
  pub has_exe_path : Bool
  pub copy_fails : Option (Option (List ℕ))
  pub write_fails : Option (Option (List ℕ))
  pub permissions_ok : Bool
  pub rename_ok : Bool
  pub restore_ok : Bool
  pub remove_ok : Bool

abbrev pub copied : Option (Option (List ℕ)) → Files → Files
copied none f = record f { backup = f.current }
copied (some left) f = record f { backup = left }

abbrev pub is_there : Option (List ℕ) → Bool
is_there none = false
is_there (some d) = true

-- `std::fs::rename` of the backup to the running file, if there is a backup.
abbrev pub restored : Bool → Files → Files
restored ok f =
    if is_there f.backup && ok then record f { current = f.backup; backup = none } else f

-- `std::fs::remove_file` of the new file, whose error is ignored.
abbrev pub removed : Bool → Files → Files
removed ok f = if ok then record f { fresh = none } else f

abbrev pub replaced : System → Files → Files × Bool
replaced y f =
    if not y.permissions_ok
    then (removed y.remove_ok f, false)
    else if y.rename_ok
    then (record f { current = f.fresh; fresh = none }, true)
    else (removed y.remove_ok (restored y.restore_ok f), false)

abbrev pub written : System → Option (Option (List ℕ)) → List ℕ → Files → Files × Bool
written y none new_binary f = replaced y (record f { fresh = some new_binary })
written y (some left) new_binary f = (record f { fresh = left }, false)

-- The replacement of the running file: the backup, the new file, its permissions, the rename.
unfoldable pub install : System → List ℕ → Files → Files × Bool
install y new_binary f =
    if not y.has_exe_path
    then (f, false)
    else written y y.write_fails new_binary (copied y.copy_fails f)

abbrev pub url_or_default : Config → Option (List ℕ) → List ℕ
url_or_default c none =
    controller_api_url c (codes "/downloads/livecdn-agent-x86_64-unknown-linux-musl")
url_or_default c (some url) = url

abbrev pub downloaded : System → Option (ℕ × Option (List ℕ)) → Files → Files × Bool
downloaded y none f = (f, false)
downloaded y (some (status, none)) f = (f, false)
downloaded y (some (status, some body)) f =
    if not (is_success status) then (f, false) else install y body f

abbrev pub informed : Config → List ℕ → Network → System → Option VersionInfo → Files → Files × Bool
informed c agent_version net y none f = (f, false)
informed c agent_version net y (some info) f =
    if same info.version agent_version
    then (f, false)
    else downloaded y (net.download (url_or_default c info.download_url)) f

unfoldable pub check_and_update : Config → List ℕ → Network → System → Files → Files × Bool
check_and_update c agent_version net y f = informed c agent_version net y net.version_info f

unfoldable pub rollback : Bool → Bool → Files → Files × Bool
rollback has_exe_path rename_ok f =
    if not has_exe_path
    then (f, false)
    else if not (is_there f.backup)
    then (f, false)
    else if not rename_ok
    then (f, false)
    else (record f { current = f.backup; backup = none }, true)
