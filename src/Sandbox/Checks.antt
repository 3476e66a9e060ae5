-- ===== src/Sandbox/Checks.antt =====
-- pkg/sandbox/sandbox.go: the configuration of a container, its checks and its environment.
use monetdroid.Prelude.{
  ◌==◌, Bool, true, false, not, ◌&&◌, ◌||◌, if◌then◌else◌, Option, none, some, List, [], ◌∷◌, ◌++◌,
  Text, codes, same, is_empty, has_prefix, any,
}

-- What `os.Stat` says of a path.
pub data Stat : Type 0 where
  missing directory file : Stat
  unreadable : Text → Stat

pub record System : Type 0 where
  pub stat : Text → Stat
  pub make_dir : Text → Option Text  -- the error of `os.MkdirAll`
  pub join : List Text → Text
  pub dir_of : Text → Text
  pub rel : Text → Text → Option Text

pub record Config : Type 0 where
  pub worktree : Text
  pub git_common_dir : Text
  pub cwd : Text
  pub claude_binary_path : Text
  pub path_mounts : List Text
  pub kb_dir : Text
  pub bashstreamer_dir : Text
  pub executable_name : Text
  pub ssh_auth_sock : Text
  pub extra_env : List Text
  pub extra_mounts : List Text

-- The errors, with the words that they name.
pub data SandboxError : Type 0 where
  is_required is_file is_directory not_found : Text → SandboxError
  not_absolute : Text → Text → SandboxError
  executable_path bad_env stat_failed make_dir_failed no_extra_mount : Text → SandboxError
  outside : Text → Text → SandboxError
  no_nix_store : SandboxError

pub data Result {ℓ} (A : Type ℓ) : Type ℓ where
  ok : A → Result A
  err : SandboxError → Result A

unfoldable pub is_within : System → Text → Text → Bool
unfolding same has_prefix
is_within sys parent child = elim (sys.rel parent child) [
  | none ↦ false
  | some rel ↦
      same rel (codes ".") || (not (same rel (codes "..")) && not (has_prefix (codes "../") rel))
]

abbrev is_abs : Text → Bool
is_abs p = has_prefix (codes "/") p

abbrev check_required : Text → Text → Option SandboxError
check_required name p =
    if is_empty p
    then some (is_required name)
    else if is_abs p
    then none
    else some (not_absolute name p)

abbrev check_optional : Text → Text → Option SandboxError
check_optional name p =
    if is_empty p then none else if is_abs p then none else some (not_absolute name p)

abbrev check_each : (Text → Option SandboxError) → List Text → Option SandboxError
check_each f [] = none
check_each f (p ∷ ps) = let later = check_each f ps in elim (f p) [ some e ↦ some e | none ↦ later ]

abbrev check_abs : Text → Text → Option SandboxError
check_abs name p = if is_abs p then none else some (not_absolute name p)

abbrev check_executable : Text → Option SandboxError
check_executable name =
    if is_empty name
    then some (is_required (codes "executable name"))
    else if any (λ c. c == b'/') name
    then some (executable_path name)
    else none

abbrev check_env : Text → Option SandboxError
check_env e = if any (λ c. c == b'=') e then none else some (bad_env e)

unfoldable pub require_dir : Stat → Text → Option SandboxError
require_dir directory name = none
require_dir file name = some (is_file name)
require_dir missing name = some (not_found name)
require_dir (unreadable e) name = some (stat_failed e)

unfoldable pub require_file : Stat → Text → Option SandboxError
require_file file name = none
require_file directory name = some (is_directory name)
require_file missing name = some (not_found name)
require_file (unreadable e) name = some (stat_failed e)

-- The first error of the checks.
unfoldable pub first_error : List (Option SandboxError) → Option SandboxError
first_error [] = none
first_error (some e ∷ cs) = some e
first_error (none ∷ cs) = first_error cs

unfoldable pub validate : System → Config → Option SandboxError
unfolding is_empty has_prefix require_dir require_file first_error is_within
validate sys cfg = first_error (
    check_required (codes "worktree") cfg.worktree
    ∷ check_required (codes "cwd") cfg.cwd
    ∷ check_required (codes "git common dir") cfg.git_common_dir
    ∷ check_required (codes "claude binary") cfg.claude_binary_path
    ∷ check_optional (codes "kb dir") cfg.kb_dir
    ∷ check_optional (codes "bashstreamer dir") cfg.bashstreamer_dir
    ∷ check_optional (codes "ssh agent socket") cfg.ssh_auth_sock
    ∷ check_each (check_abs (codes "path mount")) cfg.path_mounts
    ∷ check_executable cfg.executable_name
    ∷ check_each (check_abs (codes "extra mount")) cfg.extra_mounts
    ∷ check_each check_env cfg.extra_env
    ∷ require_dir (sys.stat cfg.worktree) (codes "worktree")
    ∷ require_dir (sys.stat cfg.git_common_dir) (codes "git common dir")
    ∷ (if is_empty cfg.bashstreamer_dir
        then none
        else require_dir (sys.stat cfg.bashstreamer_dir) (codes "bashstreamer dir"))
    ∷ (if is_within sys cfg.worktree cfg.cwd then none else some (outside cfg.cwd cfg.worktree))
    ∷ require_file (sys.stat cfg.claude_binary_path) (codes "claude binary")
    ∷ [])

unfoldable pub environment : Config → Text → Text → Bool → List Text
environment cfg home name ssh =
    (codes "HOME=" ++ home)
    ∷ (codes "USER=" ++ name)
    ∷ (codes "LOGNAME=" ++ name)
    ∷ codes "PATH=/usr/local/bin:/usr/bin:/bin"
    ∷ codes "LANG=C.UTF-8"
    ∷ codes "GIT_TERMINAL_PROMPT=0"
    ∷ codes "GIT_EDITOR=true"
    ∷ codes "SSL_CERT_FILE=/etc/ssl/certs/ca-certificates.crt"
    ∷ ((if ssh then (codes "SSH_AUTH_SOCK=" ++ cfg.ssh_auth_sock) ∷ [] else []) ++ cfg.extra_env)

-- `sshSocket`: whether the socket of the agent exists.
unfoldable pub ssh_socket : System → Text → Result Bool
unfolding is_empty has_prefix
ssh_socket sys p =
    if is_empty p
    then ok false
    else if is_abs p
    then elim (sys.stat p) [
      | missing ↦ ok false
      | directory ↦ ok true
      | file ↦ ok true
      | unreadable e ↦ err (stat_failed e)
    ]
    else err (not_absolute (codes "ssh agent socket") p)

-- The directory that a mount puts on the path of the container.
abbrev path_dir : System → Text → Result Text
path_dir sys p = elim (sys.stat p) [
  | missing ↦ err (not_found p)
  | directory ↦ ok p
  | file ↦ ok (sys.dir_of p)
  | unreadable e ↦ err (stat_failed e)
]

abbrev path_dirs_onto : System → List Text → List Text → Result (List Text)
path_dirs_onto sys [] dirs = ok (dirs ++ codes "/usr/local/bin" ∷ [])
path_dirs_onto sys (p ∷ ps) dirs = elim (path_dir sys p) [
  | err e ↦ err e
  | ok d ↦ path_dirs_onto sys ps (dirs ++ d ∷ [])
]

unfoldable pub path_dirs : System → List Text → Result (List Text)
path_dirs sys ps = path_dirs_onto sys ps []
