-- ===== src/Sandbox/Extra.antt =====
-- The mounts that a caller of pkg/sandbox asks for, pkg/sandbox/mounts.go.
use monetdroid.Prelude.{
  ap, sym, ◌∙◌, ◌⊎◌, same_iff, same_refl, Bool-cases, ◌≡◌, refl, Bool, true, false, if◌then◌else◌,
  some, List, [], ◌∷◌, Text, arith, any, same, same_iff, Option-cases, inl, inr,
}
use monetdroid.Prelude.Maps.{Map, lookup, insert, lookup-insert}
use monetdroid.Sandbox.{
  System, Config, SandboxError, Result, ok, err, Mount, bind, bind_ro, claude_container_path, on_ok,
  exists_at, add_existing, with_dir, add_extra, claude_dir, home_files, work_mounts, session_mounts,
  kb_mounts, socket_mounts, store_mounts, mounts,
}

-- A result holds a map in which the path has the mount, if it holds any.
unfoldable Holds : Text → Mount → Result (Map Mount) → Type 0
Holds p v (ok m) = lookup p m ≡ some v
Holds p v (err e) = Unit

-- The mount at a path that the caller asks for. The path of the claude binary in the container is
-- the only one that the code mounts later.
abbrev pub extra_mount : Config → Text → Mount
extra_mount cfg p = bind_ro (if same claude_container_path p then cfg.claude_binary_path else p)

lookup-insert_own :
    (p d : Text) (m : Map Mount)
    → (lookup p m ≡ some (bind_ro p)) ⊎ (same p d ≡ true)
    → lookup p (insert d (bind_ro d) m) ≡ some (bind_ro p)
lookup-insert_own p d m (inl e) = elim (Bool-cases (same d p)) [
  | inl here ↦
      lookup-insert d p (bind_ro d) m ∙ rw here (ap (λ x. some (bind_ro x)) ((same_iff d p).0 here))
  | inr apart ↦ lookup-insert d p (bind_ro d) m ∙ rw apart e
]
lookup-insert_own p d m (inr e) =
    let at = (same_iff p d).0 e in lookup-insert d p (bind_ro d) m ∙ rw (sym at, same_refl p) refl

on_ok-Holds :
    {A : Type 0} (p : Text) (v : Mount) (r : Result A) (f : A → Result (Map Mount))
    → ((a : A) → Holds p v (f a))
    → Holds p v (on_ok r f)
unfolding Holds
on_ok-Holds p v (ok a) f h = h a
on_ok-Holds p v (err e) f h = tt

if-Holds :
    (p : Text) (v : Mount) (b : Bool) (r : Result (Map Mount)) (e : SandboxError)
    → Holds p v r
    → Holds p v (if b then r else err e)
unfolding Holds
if-Holds p v true r e h = h
if-Holds p v false r e h = tt

last-Holds :
    (cfg : Config) (p : Text) (r : Result (Map Mount))
    → Holds p (bind_ro p) r
    → Holds p
        (extra_mount cfg p)
        (on_ok r λ m. ok (insert claude_container_path (bind_ro cfg.claude_binary_path) m))
unfolding Holds
last-Holds cfg p (ok m) h =
    lookup-insert claude_container_path p (bind_ro cfg.claude_binary_path) m
    ∙ (elim (Bool-cases (same claude_container_path p)) [
      | inl here ↦ rw here refl
      | inr apart ↦ rw apart h
    ])
last-Holds cfg p (err e) h = tt

with_dir-Holds :
    (sys : System) (p : Text) (v : Mount) (d : Text) (r : Result (Map Mount))
    → Holds p v r
    → Holds p v (with_dir sys d r)
unfolding Holds
with_dir-Holds sys p v d r h = elim (Option-cases (sys.make_dir d)) [
  | inl e ↦ rw (with_dir, e) h
  | inr (x, e) ↦ rw (Holds, with_dir, e) tt
]

add_extra-Holds :
    (sys : System) (p : Text) (ds : List Text) (m : Map Mount)
    → (lookup p m ≡ some (bind_ro p)) ⊎ (any (same p) ds ≡ true)
    → Holds p (bind_ro p) (add_extra sys ds m)
unfolding add_extra
add_extra-Holds sys p [] m (inl e) = unfold Holds in e
add_extra-Holds sys p [] m (inr e) = absurd (ground arith)
add_extra-Holds sys p (d ∷ ds) m h =
    let m1 = insert d (bind_ro d) m in
    let f : Bool → Result (Map Mount) =
      λ b. if b then add_extra sys ds m1 else err (SandboxError.no_extra_mount d) in
    on_ok-Holds p (bind_ro p) (exists_at (sys.stat d)) f λ b.
      if-Holds p (bind_ro p) b (add_extra sys ds m1) (SandboxError.no_extra_mount d)
        (add_extra-Holds sys p ds m1 (next h))
  where
    next :
        (lookup p m ≡ some (bind_ro p)) ⊎ (any (same p) (d ∷ ds) ≡ true)
        → (lookup p (insert d (bind_ro d) m) ≡ some (bind_ro p)) ⊎ (any (same p) ds ≡ true)
    next (inl e) = inl (lookup-insert_own p d m (inl e))
    next (inr e) = elim (Bool-cases (same p d)) [
      | inl here ↦ inl (lookup-insert_own p d m (inr here))
      | inr apart ↦ inr (ground (arith, e, apart))
    ]

-- A path that the caller asks for is mounted at its own place, and only for reading, whatever the
-- standard mounts say of the path; the path of the claude binary in the container holds that
-- binary, also only for reading, even if the caller asks for the path.
pub mounts-extra :
    (sys : System) (cfg : Config) (home dir : Text) (ssh : Bool) (m : Map Mount) (p : Text)
    → mounts sys cfg home dir ssh ≡ ok m
    → any (same p) cfg.extra_mounts ≡ true
    → lookup p m ≡ some (extra_mount cfg p)
unfolding Holds mounts
mounts-extra sys cfg home dir ssh m p e asked =
    let claude = claude_dir sys home in
    let home_map = insert claude (bind claude) (work_mounts sys cfg) in
    let kb : Map Mount → Result (Map Mount) = λ m1. kb_mounts sys cfg (session_mounts cfg dir m1) in
    let store : Map Mount → Result (Map Mount) =
      λ m2. store_mounts sys (socket_mounts sys cfg ssh m2) in
    let extra : Map Mount → Result (Map Mount) = λ m3. add_extra sys cfg.extra_mounts m3 in
    let last : Map Mount → Result (Map Mount) =
      λ m4. ok (insert claude_container_path (bind_ro cfg.claude_binary_path) m4) in
    let v = extra_mount cfg p in
    let h : Holds p v (mounts sys cfg home dir ssh) =
      with_dir-Holds sys p v claude
        (on_ok (add_existing sys (home_files sys home) home_map)
          λ m1. on_ok (kb m1) λ m2. on_ok (store m2) λ m3. on_ok (extra m3) last)
        (on_ok-Holds p v (add_existing sys (home_files sys home) home_map)
          (λ m1. on_ok (kb m1) λ m2. on_ok (store m2) λ m3. on_ok (extra m3) last)
          λ m1.
            on_ok-Holds p v (kb m1) (λ m2. on_ok (store m2) λ m3. on_ok (extra m3) last)
              λ m2.
                on_ok-Holds p v (store m2) (λ m3. on_ok (extra m3) last)
                  λ m3.
                    last-Holds cfg p (extra m3)
                      (add_extra-Holds sys p cfg.extra_mounts m3 (inr asked))) in
    rw e at h
