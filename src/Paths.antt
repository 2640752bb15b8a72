-- ===== src/Paths.antt =====
-- Paths and directories: src/service_path.c and src/fs.c. A C string is its bytes before the NUL.
pub mod Names
use libipc_old.Prelude.{
  ℕ, zero, suc, ◌+◌, ◌-◌, Bool, true, false, not, List, [], ◌∷◌, ◌++◌, Option, none, some, ◌>>=◌,
  ltb, leb, ◌==◌, if◌then◌else◌, length, take,
}
use libipc_old.Errors.{ErrorCode, is_error}
use libipc_old.Types.{path_max}
use libipc_old.Env.{Env, Stat, MadeDir}

-- BUFSIZ of <stdio.h>, in the GNU C library.
abbrev pub bufsiz : ℕ
bufsiz = 8192

-- RUNDIR: "/run/ipc/"
abbrev pub default_rundir : List ℕ
default_rundir = 47 ∷ 114 ∷ 117 ∷ 110 ∷ 47 ∷ 105 ∷ 112 ∷ 99 ∷ 47 ∷ []

-- '/'
abbrev pub slash : ℕ
slash = 47

-- strrchr (path, '/'), as an index.
unfoldable pub last_slash : List ℕ → Option ℕ
last_slash [] = none
last_slash (c ∷ cs) = elim (last_slash cs) [
  | some i ↦ some (suc i)
  | none ↦ if c == slash then some 0 else none
]

-- The bytes before the last slash. Without a slash the length is computed from a null pointer, which
-- is a fault here.
unfoldable pub dirname_ : List ℕ → Option (List ℕ)
dirname_ path = last_slash path >>= λ i. if ltb i bufsiz then some (take i path) else none

unfoldable pub is_directory_ : Stat → Bool
is_directory_ status = status.is_dir

-- What is cut off at PATH_MAX - 2 bytes.
unfoldable pub joined_path : List ℕ → List ℕ → List ℕ
joined_path rundir sname = take (path_max - 2) (rundir ++ slash ∷ sname)

module _ {W : Type 0} (env : Env W) where
  unfoldable pub exists_ : List ℕ → W → Bool × Option Stat × W
  exists_ path w =
      let (status, w') = env.stat path w in
      elim status [ none ↦ (false, none, w') | some s ↦ (true, some s, w') ]

  unfoldable pub is_writable_ : Stat → W → Bool
  is_writable_ status w =
      if status.uid == env.uid w
      then status.user_writes
      else if status.gid == env.gid w
      then status.group_writes
      else status.other_writes

  -- mkdir(2); a directory that is there is no error.
  unfoldable pub make_dir : List ℕ → W → ErrorCode × W
  make_dir path w =
      let (answer, w') = env.mkdir path w in
      elim answer [
        | MadeDir.made ↦ (ErrorCode.no_error, w')
        | MadeDir.exists ↦ (ErrorCode.no_error, w')
        | MadeDir.refused ↦ (ErrorCode.mkdir_cannot_create_dir, w')
      ]

  -- The loop of `mkdir_p_`: `done` stands before the bytes left.
  unfoldable pub mkdir_from : List ℕ → List ℕ → W → ErrorCode × W
  mkdir_from done [] w = make_dir done w
  mkdir_from done (c ∷ cs) w = elim (c == slash) [
    | true ↦
        let (code, w') = make_dir done w in
        elim (is_error code) [ true ↦ (code, w') | false ↦ mkdir_from (done ++ c ∷ []) cs w' ]
    | false ↦ mkdir_from (done ++ c ∷ []) cs w
  ]

  -- The first byte is not looked at.
  unfoldable pub mkdir_p_ : List ℕ → W → ErrorCode × W
  mkdir_p_ [] w = make_dir [] w
  mkdir_p_ (c ∷ cs) w =
      if ltb (bufsiz - 1) (length (c ∷ cs))
      then (ErrorCode.mkdir_name_too_long, w)
      else mkdir_from (c ∷ []) cs w

  -- The tests on the directory's status.
  unfoldable pub check_directory : Stat → W → ErrorCode
  check_directory status w =
      if not (is_directory_ status)
      then ErrorCode.dir_setup_not_a_directory
      else if not (is_writable_ status w)
      then ErrorCode.dir_setup_directory_not_writable
      else ErrorCode.no_error

  unfoldable pub directory_setup_ : Option (List ℕ) → W → Option (ErrorCode × W)
  directory_setup_ none w = some (ErrorCode.directory_setup_path_param, w)
  directory_setup_ (some path) w = dirname_ path >>= λ dir.
      let (there, status, w') = exists_ dir w in
      elim status [ none ↦ some (mkdir_p_ dir w') | some s ↦ some (check_directory s w', w') ]

  -- The flag says that `path` is not NULL; the second part is what it becomes.
  unfoldable pub service_path : Bool → Option (List ℕ) → W → ErrorCode × Option (List ℕ)
  service_path false sname w = (ErrorCode.service_path_no_path, none)
  service_path true none w = (ErrorCode.service_path_no_service_name, none)
  service_path true (some sname) w = (
    ErrorCode.no_error,
    some (elim (env.rundir w) [
      | none ↦ joined_path default_rundir sname
      | some d ↦ joined_path d sname
    ]),
  )
