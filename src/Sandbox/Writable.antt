-- ===== src/Sandbox/Writable.antt =====
-- What a session's container may write to, pkg/sandbox/mounts.go.
use monetdroid.Prelude.{
  ◌≡◌, refl, ap, sym, ◌∙◌, Bool, true, false, if◌then◌else◌, some, List, [], ◌∷◌, Text, arith, any,
  is_empty, same, same_iff, same_refl, Bool-cases, Option-cases, inl, inr,
}
use mathlib.Core.Option.{some-injective}
use monetdroid.Prelude.Maps.{Map, lookup, insert, lookup-insert}
use monetdroid.Sandbox.{
  System, Config, SandboxError, Result, ok, err, Mount, bind, bind_ro, nix_store,
  claude_container_path, on_ok, exists_at, add_if, add_existing, add_all_ro, with_dir, add_extra,
  claude_dir, home_files, is_within, work_mounts, session_mounts, kb_mounts, socket_mounts,
  store_mounts, mounts,
}

-- The host paths that may be mounted for writing.
abbrev pub writable_paths : System → Config → Text → List Text
writable_paths sys cfg home =
    cfg.worktree
    ∷ cfg.git_common_dir
    ∷ claude_dir sys home
    ∷ cfg.bashstreamer_dir
    ∷ cfg.kb_dir
    ∷ sys.dir_of cfg.ssh_auth_sock
    ∷ []

abbrev pub is_listed : Text → List Text → Bool
is_listed p ps = any (same p) ps

-- What is mounted for writing is one of the paths, at its own place.
abbrev IsGuarded : List Text → Map Mount → Type 0
IsGuarded ps m =
    (p : Text) (mt : Mount)
    → lookup p m ≡ some mt
    → mt.read_only ≡ false
    → (is_listed p ps ≡ true) × (mt.source ≡ p)

insert-IsGuarded :
    (ps : List Text) (m : Map Mount) (d : Text) (v : Mount)
    → (v.read_only ≡ false → (is_listed d ps ≡ true) × (v.source ≡ d))
    → IsGuarded ps m
    → IsGuarded ps (insert d v m)
insert-IsGuarded ps m d v ok_v g p mt e w =
    let step = sym (lookup-insert d p v m) ∙ e in
    elim (Bool-cases (same d p)) [
      | inl here ↦
          let is_it : v ≡ mt = some-injective v mt (rw here at step) in
          rw (sym ((same_iff d p).0 here), sym is_it) (ok_v (ap (λ x. x.read_only) is_it ∙ w))
      | inr apart ↦ g p mt (rw apart at step) w
    ]

ro-IsGuarded :
    (ps : List Text) (m : Map Mount) (d s : Text)
    → IsGuarded ps m
    → IsGuarded ps (insert d (bind_ro s) m)
ro-IsGuarded ps m d s g = insert-IsGuarded ps m d (bind_ro s) (λ h. absurd (ground arith)) g

rw-IsGuarded :
    (ps : List Text) (m : Map Mount) (d : Text)
    → is_listed d ps ≡ true
    → IsGuarded ps m
    → IsGuarded ps (insert d (bind d) m)
rw-IsGuarded ps m d h g = insert-IsGuarded ps m d (bind d) (λ _. (h, refl)) g

-- A result holds a guarded map, if any.
unfoldable Guards : List Text → Result (Map Mount) → Type 0
Guards ps (ok m) = IsGuarded ps m
Guards ps (err e) = Unit

on_ok-Guards :
    (ps : List Text) (r : Result (Map Mount)) (f : Map Mount → Result (Map Mount))
    → Guards ps r
    → ((m : Map Mount) → IsGuarded ps m → Guards ps (f m))
    → Guards ps (on_ok r f)
unfolding Guards
on_ok-Guards ps (ok m) f g h = h m g
on_ok-Guards ps (err e) f g h = tt

with_dir-Guards :
    (ps : List Text) (sys : System) (d : Text) (r : Result (Map Mount))
    → Guards ps r
    → Guards ps (with_dir sys d r)
unfolding Guards
with_dir-Guards ps sys d r g = elim (Option-cases (sys.make_dir d)) [
  | inl e ↦ rw (with_dir, e) g
  | inr (x, e) ↦ rw (Guards, with_dir, e) tt
]

all_ro-IsGuarded :
    (ps : List Text) (ds : List Text) (m : Map Mount)
    → IsGuarded ps m
    → IsGuarded ps (add_all_ro ds m)
unfolding add_all_ro
all_ro-IsGuarded ps [] m g = g
all_ro-IsGuarded ps (d ∷ ds) m g =
    all_ro-IsGuarded ps ds (insert d (bind_ro d) m) (ro-IsGuarded ps m d d g)

add_if-IsGuarded :
    (ps : List Text) (b : Bool) (d : Text) (m : Map Mount)
    → IsGuarded ps m
    → IsGuarded ps (add_if b d m)
add_if-IsGuarded ps true d m g = ro-IsGuarded ps m d d g
add_if-IsGuarded ps false d m g = g

if-Guards :
    (ps : List Text) (b : Bool) (r s : Result (Map Mount))
    → Guards ps r
    → Guards ps s
    → Guards ps (if b then r else s)
if-Guards ps true r s g h = g
if-Guards ps false r s g h = h

test-Guards :
    (ps : List Text) (r : Result Bool) (f : Bool → Result (Map Mount))
    → ((b : Bool) → Guards ps (f b))
    → Guards ps (on_ok r f)
unfolding Guards
test-Guards ps (ok b) f h = h b
test-Guards ps (err e) f h = tt

add_existing-Guards :
    (ps : List Text) (sys : System) (ds : List Text) (m : Map Mount)
    → IsGuarded ps m
    → Guards ps (add_existing sys ds m)
unfolding add_existing
add_existing-Guards ps sys [] m g = unfold Guards in g
add_existing-Guards ps sys (d ∷ ds) m g =
    test-Guards ps (exists_at (sys.stat d)) (λ b. add_existing sys ds (add_if b d m))
      λ b. add_existing-Guards ps sys ds (add_if b d m) (add_if-IsGuarded ps b d m g)

add_extra-Guards :
    (ps : List Text) (sys : System) (ds : List Text) (m : Map Mount)
    → IsGuarded ps m
    → Guards ps (add_extra sys ds m)
unfolding add_extra
add_extra-Guards ps sys [] m g = unfold Guards in g
add_extra-Guards ps sys (d ∷ ds) m g =
    test-Guards ps (exists_at (sys.stat d))
      (λ b.
        if b
        then add_extra sys ds (insert d (bind_ro d) m)
        else err (SandboxError.no_extra_mount d))
      λ b.
        if-Guards ps b (add_extra sys ds (insert d (bind_ro d) m))
          (err (SandboxError.no_extra_mount d))
          (add_extra-Guards ps sys ds (insert d (bind_ro d) m) (ro-IsGuarded ps m d d g))
          (unfold Guards in tt)

module _ (sys : System) (cfg : Config) (home dir : Text) where
  abbrev ps : List Text
  ps = writable_paths sys cfg home

  work-IsGuarded : IsGuarded ps (work_mounts sys cfg)
  unfolding lookup insert
  work-IsGuarded =
      let first : IsGuarded ps (insert cfg.worktree (bind cfg.worktree) []) =
        rw-IsGuarded ps [] cfg.worktree (ground (arith, same_refl cfg.worktree))
          (λ p mt e w. absurd (ground arith)) in
      elim (Bool-cases (is_within sys cfg.worktree cfg.git_common_dir)) [
        | inl h ↦ rw h first
        | inr h ↦ rw h (
            rw-IsGuarded ps (insert cfg.worktree (bind cfg.worktree) []) cfg.git_common_dir
              (ground (arith, same_refl cfg.git_common_dir)) first)
      ]

  session-IsGuarded : (m : Map Mount) → IsGuarded ps m → IsGuarded ps (session_mounts cfg dir m)
  session-IsGuarded m g =
      let m1 = add_all_ro cfg.path_mounts m in
      let paths = all_ro-IsGuarded ps cfg.path_mounts m g in
      let stream = cfg.bashstreamer_dir in
      elim (Bool-cases (is_empty stream)) [
        | inl h ↦ rw h (ro-IsGuarded ps m1 dir dir paths)
        | inr h ↦ rw h (
            ro-IsGuarded ps (insert stream (bind stream) m1) dir dir
              (rw-IsGuarded ps m1 stream (ground (arith, same_refl stream)) paths))
      ]

  kb-Guards : (m : Map Mount) → IsGuarded ps m → Guards ps (kb_mounts sys cfg m)
  kb-Guards m g = elim (Bool-cases (is_empty cfg.kb_dir)) [
    | inl h ↦ rw h (unfold Guards in g)
    | inr h ↦ rw h (
        with_dir-Guards ps sys cfg.kb_dir (ok (insert cfg.kb_dir (bind cfg.kb_dir) m))
          (unfold Guards in rw-IsGuarded ps m cfg.kb_dir (ground (arith, same_refl cfg.kb_dir)) g))
  ]

  socket-IsGuarded :
      (ssh : Bool) (m : Map Mount) → IsGuarded ps m → IsGuarded ps (socket_mounts sys cfg ssh m)
  socket-IsGuarded true m g =
      rw-IsGuarded ps m (sys.dir_of cfg.ssh_auth_sock)
        (ground (arith, same_refl (sys.dir_of cfg.ssh_auth_sock))) g
  socket-IsGuarded false m g = g

  store-Guards : (m : Map Mount) → IsGuarded ps m → Guards ps (store_mounts sys m)
  store-Guards m g =
      let found = ok (insert nix_store (bind_ro nix_store) m) in
      let gone = err SandboxError.no_nix_store in
      test-Guards ps (exists_at (sys.stat nix_store)) (λ b. if b then found else gone)
        λ b.
          if-Guards ps b found gone (unfold Guards in ro-IsGuarded ps m nix_store nix_store g)
            (unfold Guards in tt)

  mounts-Guards : (ssh : Bool) → Guards ps (mounts sys cfg home dir ssh)
  unfolding mounts
  mounts-Guards ssh =
      let claude = claude_dir sys home in
      let home_map = insert claude (bind claude) (work_mounts sys cfg) in
      let kb : Map Mount → Result (Map Mount) =
        λ m1. kb_mounts sys cfg (session_mounts cfg dir m1) in
      let store : Map Mount → Result (Map Mount) =
        λ m2. store_mounts sys (socket_mounts sys cfg ssh m2) in
      let extra : Map Mount → Result (Map Mount) = λ m3. add_extra sys cfg.extra_mounts m3 in
      let last : Map Mount → Result (Map Mount) =
        λ m4. ok (insert claude_container_path (bind_ro cfg.claude_binary_path) m4) in
      with_dir-Guards ps sys claude
        (on_ok (add_existing sys (home_files sys home) home_map)
          λ m1. on_ok (kb m1) λ m2. on_ok (store m2) λ m3. on_ok (extra m3) last)
        (on_ok-Guards ps (add_existing sys (home_files sys home) home_map)
          (λ m1. on_ok (kb m1) λ m2. on_ok (store m2) λ m3. on_ok (extra m3) last)
          (add_existing-Guards ps sys (home_files sys home) home_map (
            rw-IsGuarded ps (work_mounts sys cfg) claude (ground (arith, same_refl claude))
              work-IsGuarded))
          λ m1 g1.
            on_ok-Guards ps (kb m1) (λ m2. on_ok (store m2) λ m3. on_ok (extra m3) last)
              (kb-Guards (session_mounts cfg dir m1) (session-IsGuarded m1 g1))
              λ m2 g2.
                on_ok-Guards ps (store m2) (λ m3. on_ok (extra m3) last)
                  (store-Guards (socket_mounts sys cfg ssh m2) (socket-IsGuarded ssh m2 g2))
                  λ m3 g3.
                    on_ok-Guards ps (extra m3) last (add_extra-Guards ps sys cfg.extra_mounts m3 g3)
                      λ m4 g4.
                        unfold Guards in
                        ro-IsGuarded ps m4 claude_container_path cfg.claude_binary_path g4)

-- Whatever is mounted for writing in a container is the worktree, the common directory of git, the
-- Claude directory of the home, the directory of the Bash streamer, the knowledge base or the
-- directory of the ssh socket, and it is mounted at its own path.
pub mounts-writable :
    (sys : System) (cfg : Config) (home dir : Text) (ssh : Bool) (m : Map Mount) (p : Text)
    (mt : Mount)
    → mounts sys cfg home dir ssh ≡ ok m
    → lookup p m ≡ some mt
    → mt.read_only ≡ false
    → (is_listed p (writable_paths sys cfg home) ≡ true) × (mt.source ≡ p)
unfolding Guards
mounts-writable sys cfg home dir ssh m p mt e =
    let g = mounts-Guards sys cfg home dir ssh in
    let h : Guards (writable_paths sys cfg home) (ok m) = rw e at g in h p mt
