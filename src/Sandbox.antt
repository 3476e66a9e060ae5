-- ===== src/Sandbox.antt =====
-- pkg/sandbox: the host paths that a session's container sees (mounts.go) and the checks of its
-- configuration (sandbox.go). What the code asks of the file system is a parameter, `System`, and so
-- are filepath.Join, filepath.Dir and filepath.Rel.
pub mod Checks
pub mod Writable
pub mod Extra
mod Tests
use monetdroid.Prelude.{
  Bool, true, false, not, ◌||◌, if◌then◌else◌, Option, none, some, List, [], ◌∷◌, ◌++◌, Text, codes,
  is_empty,
}
use monetdroid.Prelude.Maps.{Map, insert, get_or}
use monetdroid.Types.{text_before}
unfoldable pub use Checks.{validate, environment, is_within}
pub use Checks.{System, Config, Stat, SandboxError, Result, ok, err}

pub record Mount : Type 0 where
  pub source : Text
  pub read_only : Bool

abbrev pub bind : Text → Mount
bind p = record { source = p; read_only = false }

abbrev pub bind_ro : Text → Mount
bind_ro p = record { source = p; read_only = true }

abbrev pub nix_store : Text
nix_store = codes "/nix/store"

abbrev pub claude_container_path : Text
claude_container_path = codes "/usr/local/bin/claude"

-- A step that may fail, and the steps behind it.
abbrev pub on_ok {ℓ κ} : {A : Type ℓ} {B : Type κ} → Result A → (A → Result B) → Result B
on_ok (err e) f = err e
on_ok (ok a) f = f a

-- `exists`.
abbrev pub exists_at : Stat → Result Bool
exists_at Stat.missing = ok false
exists_at (Stat.unreadable e) = err (SandboxError.stat_failed e)
exists_at _ = ok true

abbrev pub add_if : Bool → Text → Map Mount → Map Mount
add_if b p m = if b then insert p (bind_ro p) m else m

-- The files of the home directory that exist.
unfoldable pub add_existing : System → List Text → Map Mount → Result (Map Mount)
unfolding insert
add_existing sys [] m = ok m
add_existing sys (p ∷ ps) m =
    on_ok (exists_at (sys.stat p)) (λ b. add_existing sys ps (add_if b p m))

unfoldable pub add_all_ro : List Text → Map Mount → Map Mount
unfolding insert
add_all_ro [] m = m
add_all_ro (p ∷ ps) m = add_all_ro ps (insert p (bind_ro p) m)

-- `os.MkdirAll`, and what follows if it succeeds.
abbrev pub with_dir : System → Text → Result (Map Mount) → Result (Map Mount)
with_dir sys p r = elim (sys.make_dir p) [
  | none ↦ r
  | some e ↦ err (SandboxError.make_dir_failed e)
]

-- The mounts that a caller asks for.
unfoldable pub add_extra : System → List Text → Map Mount → Result (Map Mount)
unfolding insert
add_extra sys [] m = ok m
add_extra sys (p ∷ ps) m = on_ok (exists_at (sys.stat p)) (λ b.
    if b then add_extra sys ps (insert p (bind_ro p) m) else err (SandboxError.no_extra_mount p))

abbrev pub claude_dir : System → Text → Text
claude_dir sys home = sys.join (home ∷ codes ".claude" ∷ [])

abbrev home_files : System → Text → List Text
home_files sys home =
    sys.join (home ∷ codes ".claude.json" ∷ [])
    ∷ sys.join (home ∷ codes ".gitconfig" ∷ [])
    ∷ sys.join (home ∷ codes ".ssh" ∷ codes "known_hosts" ∷ [])
    ∷ sys.join (home ∷ codes ".ssh" ∷ codes "config" ∷ [])
    ∷ []

abbrev pub work_mounts : System → Config → Map Mount
work_mounts sys cfg =
    let m = insert cfg.worktree (bind cfg.worktree) [] in
    if is_within sys cfg.worktree cfg.git_common_dir
    then m
    else insert cfg.git_common_dir (bind cfg.git_common_dir) m

abbrev pub session_mounts : Config → Text → Map Mount → Map Mount
session_mounts cfg dir m =
    let m1 = add_all_ro cfg.path_mounts m in
    let m2 =
      if is_empty cfg.bashstreamer_dir
      then m1
      else insert cfg.bashstreamer_dir (bind cfg.bashstreamer_dir) m1 in
    insert dir (bind_ro dir) m2

abbrev pub kb_mounts : System → Config → Map Mount → Result (Map Mount)
kb_mounts sys cfg m =
    if is_empty cfg.kb_dir
    then ok m
    else with_dir sys cfg.kb_dir (ok (insert cfg.kb_dir (bind cfg.kb_dir) m))

abbrev pub socket_mounts : System → Config → Bool → Map Mount → Map Mount
socket_mounts sys cfg ssh m =
    let d = sys.dir_of cfg.ssh_auth_sock in if ssh then insert d (bind d) m else m

abbrev pub store_mounts : System → Map Mount → Result (Map Mount)
store_mounts sys m =
    on_ok (exists_at (sys.stat nix_store)) (λ b.
      if b then ok (insert nix_store (bind_ro nix_store) m) else err SandboxError.no_nix_store)

-- The allowlist of the session with the home directory and the session directory.
unfoldable pub mounts : System → Config → Text → Text → Bool → Result (Map Mount)
unfolding insert add_existing add_all_ro add_extra is_empty
mounts sys cfg home dir ssh = with_dir sys (claude_dir sys home) (
    on_ok
      (add_existing sys (home_files sys home)
        (insert (claude_dir sys home) (bind (claude_dir sys home)) (work_mounts sys cfg)))
      λ m1. on_ok (kb_mounts sys cfg (session_mounts cfg dir m1)) λ m2.
        on_ok (store_mounts sys (socket_mounts sys cfg ssh m2)) λ m3.
          on_ok (add_extra sys cfg.extra_mounts m3)
            λ m4. ok (insert claude_container_path (bind_ro cfg.claude_binary_path) m4))

-- The destinations in the order of strings.
abbrev place_in : Text → List Text → List Text
place_in d [] = d ∷ []
place_in d (e ∷ es) = let later = e ∷ place_in d es in if text_before d e then d ∷ e ∷ es else later

abbrev sorted_keys : Map Mount → List Text
sorted_keys [] = []
sorted_keys ((d, _) ∷ m) = place_in d (sorted_keys m)

abbrev mount_spec : Map Mount → Text → Text
mount_spec m d =
    let mt = get_or d m (bind []) in
    codes "type=bind,source="
    ++ mt.source
    ++ codes ",destination="
    ++ d
    ++ (if mt.read_only then codes ",ro" else [])

abbrev specs : Map Mount → List Text → List Text
specs m [] = []
specs m (d ∷ ds) = codes "--mount" ∷ mount_spec m d ∷ specs m ds

unfoldable pub mount_args : Map Mount → List Text
unfolding get_or text_before
mount_args m = specs m (sorted_keys m)
