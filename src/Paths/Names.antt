-- ===== src/Paths/Names.antt =====
-- Names of services, and the directories of their paths (src/service_path.c, src/fs.c).
use libipc_old.Prelude.{
  ℕ, ◌+◌, ◌-◌, ◌<◌, ◌≤◌, ◌≡◌, refl, true, Bool-cases, inl, inr, ◌↔◌, List, [], ◌∷◌, ◌++◌, none,
  some, ◌==◌, lt→ltb, arith, length, length-append, take-all, take-append,
}
use libipc_old.Errors.{ErrorCode, is_error}
use libipc_old.Types.{path_max}
use libipc_old.Env.{Env, MadeDir}
use libipc_old.Paths.{
  bufsiz, slash, last_slash, dirname_, joined_path, make_dir, mkdir_from, mkdir_p_, service_path,
}

last_slash-middle :
    (dir name : List ℕ)
    → last_slash name ≡ none
    → last_slash (dir ++ slash ∷ name) ≡ some (length dir)
unfolding last_slash
last_slash-middle [] name h = rw h refl
last_slash-middle (c ∷ dir) name h = rw (last_slash-middle dir name h) refl

pub dirname_-path :
    (dir name : List ℕ)
    → last_slash name ≡ none
    → length dir < bufsiz
    → dirname_ (dir ++ slash ∷ name) ≡ some dir
unfolding dirname_
dirname_-path dir name h small =
    rw
      (
        last_slash-middle dir name h,
        lt→ltb (length dir) bufsiz small,
        take-append (length dir) dir (slash ∷ name) refl,
      )
      refl

dirname_-joined :
    (dir name : List ℕ)
    → last_slash name ≡ none
    → length dir + length name + 1 ≤ path_max - 2
    → dirname_ (joined_path dir name) ≡ some dir
unfolding joined_path
dirname_-joined dir name h small =
    rw
      (
        take-all (path_max - 2) (dir ++ slash ∷ name)
            (omega (arith, length-append dir (slash ∷ name))),
        dirname_-path dir name h (omega arith),
      )
      refl

module _ {W : Type 0} (env : Env W) where
  -- The path of a service whose name has no slash and whose path is short enough: its directory is
  -- the run directory, that of the environment.
  pub service_path-dirname :
      (dir name : List ℕ) (w : W)
      → env.rundir w ≡ some dir
      → last_slash name ≡ none
      → length dir + length name + 1 ≤ path_max - 2
      → (path : List ℕ) × (service_path env true (some name) w ≡ (ErrorCode.no_error, some path))
        × (dirname_ path ≡ some dir)
  unfolding service_path
  service_path-dirname dir name w e h small =
      (joined_path dir name, rw e refl, dirname_-joined dir name h small)

  -- mkdir(2) refuses nothing.
  abbrev pub IsGenerous : Type 0
  IsGenerous = (path : List ℕ) (w : W) → ¬ ((env.mkdir path w).0 ≡ MadeDir.refused)

  make_dir-done :
      (path : List ℕ) (w : W) → IsGenerous → (make_dir env path w).0 ≡ ErrorCode.no_error
  unfolding make_dir
  make_dir-done path w g = ground (arith, g path w)

  mkdir_from-done :
      (done rest : List ℕ) (w : W)
      → IsGenerous
      → (mkdir_from env done rest w).0 ≡ ErrorCode.no_error
  unfolding mkdir_from is_error
  mkdir_from-done done [] w g = make_dir-done done w g
  mkdir_from-done done (c ∷ cs) w g = elim (Bool-cases (c == slash)) [
    | inl e ↦
        rw (mkdir_from, e, make_dir-done done w g)
          (mkdir_from-done (done ++ c ∷ []) cs (make_dir env done w).1 g)
    | inr e ↦ rw (mkdir_from, e) (mkdir_from-done (done ++ c ∷ []) cs w g)
  ]

  -- Where mkdir(2) refuses nothing, every path shorter than the buffer is made, and only these: a
  -- longer path is refused as too long and nothing is made.
  pub mkdir_p_success_iff :
      (path : List ℕ) (w : W)
      → IsGenerous
      → ((mkdir_p_ env path w).0 ≡ ErrorCode.no_error) ↔ (length path < bufsiz)
  unfolding mkdir_p_
  mkdir_p_success_iff [] w g = (λ e. omega arith, λ h. make_dir-done [] w g)
  mkdir_p_success_iff (c ∷ cs) w g = ground (arith, mkdir_from-done (c ∷ []) cs w g)
