-- ===== src/Connecting/Serving.antt =====
-- What `usock_init` (src/usocket.c) and `ipc_server_init` (src/communication.c) do for a server.
use libipc_old.Prelude.{
  ℕ, ◌+◌, ◌-◌, ◌≤◌, ◌≡◌, refl, pos, ◌=ℤ◌, true, List, ◌∷◌, ◌++◌, none, some, ◌>>=◌, arith, length,
  length-append, take-all,
}
use libipc_old.Errors.{ErrorCode, is_error}
use libipc_old.Types.{
  ConnectionType, ConnectionInfo, PollFd, Ctx, Alloc, Site, path_max, zero_cinfo, zero_pollfd,
}
use libipc_old.Env.{Env, Stat}
use libipc_old.Context.Valid.{IsValid}
use libipc_old.Context.Addition.{extended, extended-IsValid, ipc_add-extended}
use libipc_old.Sockets.{usock_remove}
use libipc_old.Paths.{
  slash, last_slash, dirname_, is_directory_, is_writable_, check_directory, exists_,
  directory_setup_, joined_path, service_path,
}
use libipc_old.Paths.Names.{dirname_-path}
use libipc_old.Connecting.{
  sun_path_size, socket_name, listen_socket, usock_init, add_server, ipc_server_init,
}

-- The two cells of a server.
abbrev pub server_info : List ℕ → ConnectionInfo
server_info path = record zero_cinfo { type = ConnectionType.server; spath = some path }

abbrev pub server_cell : ℕ → PollFd
server_cell n = record zero_pollfd { fd = pos n; wants_in = true }

module _ {W : Type 0} (env : Env W) where
  -- A directory that is there and can be written.
  pub record IsReady (dir : List ℕ) (w w' : W) : Type 0 where
    pub status : Stat
    pub there : env.stat dir w ≡ (some status, w')
    pub directory : status.is_dir ≡ true
    pub writable : is_writable_ env status w' ≡ true

  directory_setup_-IsReady :
      (path dir : List ℕ) (w w' : W)
      → dirname_ path ≡ some dir
      → IsReady dir w w'
      → directory_setup_ env (some path) w ≡ some (ErrorCode.no_error, w')
  unfolding directory_setup_ exists_ check_directory is_directory_
  directory_setup_-IsReady path dir w w' e ready =
      ground (arith, ready.there, ready.directory, ready.writable)

  -- The system calls for a listening socket succeed.
  pub record Listens (n : ℕ) (path : List ℕ) (w w' : W) : Type 0 where
    pub opened : W
    pub bound : W
    pub socket : env.socket w ≡ (pos n, opened)
    pub bind : env.bind (pos n) path (usock_remove env (some path) opened).1 ≡ (true, bound)
    pub listen : env.listen (pos n) bound ≡ (true, w')

  usock_init-Listens :
      (path dir : List ℕ) (n : ℕ) (w w1 w2 : W)
      → length path ≤ sun_path_size
      → dirname_ path ≡ some dir
      → IsReady dir w w1
      → Listens n path w1 w2
      → usock_init env true (some path) w ≡ some (ErrorCode.no_error, some (pos n), w2)
  unfolding usock_init socket_name listen_socket is_error ◌=ℤ◌
  usock_init-Listens path dir n w w1 w2 short e ready l =
      ground (arith, directory_setup_-IsReady path dir w w1 e ready, l.socket, l.bind, l.listen)

  -- With memory, a name without a slash whose path fits in `sun_path`, a run directory that can be
  -- written, and system calls that succeed: the server's socket is added at the end of a valid
  -- context, with its path, and the context is valid again.
  pub ipc_server_init-serves :
      (mem : Alloc) (ctx : Ctx) (dir name : List ℕ) (n : ℕ) (w w1 w2 : W)
      → mem Site.cinfos ≡ true
      → mem Site.pollfd ≡ true
      → mem Site.server_path ≡ true
      → IsValid ctx
      → env.rundir w ≡ some dir
      → last_slash name ≡ none
      → length dir + length name + 1 ≤ sun_path_size
      → IsReady dir w w1
      → Listens n (dir ++ slash ∷ name) w1 w2
      → (ipc_server_init env mem (some ctx) (some name) w
          ≡ some (
            ErrorCode.no_error,
            some (extended ctx (server_info (dir ++ slash ∷ name)) (server_cell n)),
            w2,
          ))
        × IsValid (extended ctx (server_info (dir ++ slash ∷ name)) (server_cell n))
  unfolding ipc_server_init service_path joined_path add_server is_error
  ipc_server_init-serves mem ctx dir name n w w1 w2 a b c v here plain short ready l =
      let path : List ℕ = dir ++ slash ∷ name in
      let size : length path ≤ sun_path_size = omega (arith, length-append dir (slash ∷ name)) in
      let parent : dirname_ path ≡ some dir = dirname_-path dir name plain (omega arith) in
      (
        rw
            (
              here,
              take-all (path_max - 2) path (omega arith),
              c,
              usock_init-Listens path dir n w w1 w2 size parent ready l,
              ◌>>=◌,
              ipc_add-extended mem ctx (server_info path) (server_cell n) a b v.infos v.polled,
            )
            refl,
        extended-IsValid ctx (server_info path) (server_cell n) v,
      )
