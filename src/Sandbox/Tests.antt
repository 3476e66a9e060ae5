-- ===== src/Sandbox/Tests.antt =====
-- A container of pkg/sandbox with one extra mount.
use monetdroid.Prelude.{
  ◌≡◌, refl, true, false, if◌then◌else◌, none, some, List, [], ◌∷◌, ◌++◌, Text, codes, same,
  is_empty,
}
use monetdroid.Prelude.Maps.{Map, lookup, insert, get_or}
use monetdroid.Types.{text_before}
use monetdroid.Sandbox.{
  System, Config, Stat, ok, Mount, bind, bind_ro, is_within, add_existing, add_all_ro, add_extra,
  mounts, mount_args, validate,
}
use monetdroid.Sandbox.Checks.{require_dir, require_file, first_error}
use monetdroid.Sandbox.Writable.{mounts-writable, is_listed, writable_paths}
use monetdroid.Sandbox.Extra.{mounts-extra, extra_mount}

abbrev join_all : List Text → Text
join_all [] = []
join_all (p ∷ []) = p
join_all (p ∷ q ∷ ps) = let rest = join_all (q ∷ ps) in p ++ codes "/" ++ rest

abbrev stat_of : Text → Stat
stat_of p =
    if same p (codes "/w")
    then Stat.directory
    else if same p (codes "/claude")
    then Stat.file
    else if same p (codes "/nix/store")
    then Stat.directory
    else if same p (codes "/kb")
    then Stat.directory
    else if same p (codes "/h/.gitconfig")
    then Stat.file
    else Stat.missing

abbrev host : System
host = record {
  stat = stat_of;
  make_dir = λ _. none;
  join = join_all;
  dir_of = λ _. codes "/run";
  rel = λ parent child. some (if same parent child then codes "." else codes "..");
}

abbrev config : Config
config = record {
  worktree = codes "/w";
  git_common_dir = codes "/w";
  cwd = codes "/w";
  claude_binary_path = codes "/claude";
  path_mounts = [];
  kb_dir = codes "/kb";
  bashstreamer_dir = [];
  executable_name = codes "claude";
  ssh_auth_sock = codes "/run/agent";
  extra_env = [];
  extra_mounts = codes "/kb" ∷ [];
}

abbrev mounted : Map Mount
mounted =
    (codes "/w", bind (codes "/w"))
    ∷ (codes "/h/.claude", bind (codes "/h/.claude"))
    ∷ (codes "/h/.gitconfig", bind_ro (codes "/h/.gitconfig"))
    ∷ (codes "/d", bind_ro (codes "/d"))
    ∷ (codes "/kb", bind_ro (codes "/kb"))
    ∷ (codes "/nix/store", bind_ro (codes "/nix/store"))
    ∷ (codes "/usr/local/bin/claude", bind_ro (codes "/claude"))
    ∷ []

accepted : validate host config ≡ none
unfolding validate is_empty require_dir require_file first_error is_within same
accepted = refl

two_mounts :
    mount_args ((codes "/b", bind (codes "/b")) ∷ (codes "/a", bind_ro (codes "/c")) ∷ [])
    ≡ codes "--mount"
      ∷ codes "type=bind,source=/c,destination=/a,ro"
      ∷ codes "--mount"
      ∷ codes "type=bind,source=/b,destination=/b"
      ∷ []
unfolding mount_args get_or text_before same
two_mounts = refl

mounted_lem : mounts host config (codes "/h") (codes "/d") false ≡ ok mounted
unfolding mounts insert add_existing add_all_ro add_extra is_empty is_within same
mounted_lem = refl

mounts-writable_example :
    (is_listed (codes "/h/.claude") (writable_paths host config (codes "/h")) ≡ true)
    × (codes "/h/.claude" ≡ codes "/h/.claude")
unfolding lookup same
mounts-writable_example =
    mounts-writable host config (codes "/h") (codes "/d") false mounted (codes "/h/.claude")
      (bind (codes "/h/.claude")) mounted_lem refl refl

mounts-extra_example : lookup (codes "/kb") mounted ≡ some (extra_mount config (codes "/kb"))
unfolding same
mounts-extra_example =
    mounts-extra host config (codes "/h") (codes "/d") false mounted (codes "/kb") mounted_lem refl
