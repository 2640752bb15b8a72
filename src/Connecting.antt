-- ===== src/Connecting.antt =====
-- Reaching a service: `usock_connect` and `usock_init` of src/usocket.c, and `ipc_server_init`,
-- `ipc_contact_ipcd`, `ipc_connection_` and the functions on top of it of src/communication.c.
pub mod Serving
pub mod Switched
use libipc_old.Prelude.{
  ℕ, zero, suc, ◌+◌, ◌-◌, ℤ, pos, ◌=ℤ◌, minus_one, is_nonpos, Bool, true, false, not, ◌&&◌, List,
  [], ◌∷◌, ◌++◌, Option, none, some, ◌>>=◌, ltb, leb, ◌==◌, if◌then◌else◌, length, take,
}
use libipc_old.Errors.{ErrorCode, is_error}
use libipc_old.Types.{
  ConnectionType, Message, Ctx, Alloc, Site, path_max, msg_type_network_lookup, zero_message,
  zero_cinfo, zero_pollfd,
}
use libipc_old.Env.{Env}
use libipc_old.Context.{ipc_add, ipc_add_fd_switched}
use libipc_old.Switching.{ipc_ctx_switching_add}
use libipc_old.Sockets.{usock_remove, usock_close, ipc_write_fd, ipc_read_fd}
use libipc_old.Paths.{bufsiz, directory_setup_, service_path}
use libipc_old.Relay.{ipc_receive_fd}

-- The bytes of `sun_path` in `struct sockaddr_un`, on Linux (unix(7)).
abbrev pub sun_path_size : ℕ
sun_path_size = 108

-- The copy into `sun_path`: past its end is a fault.
unfoldable pub socket_name : List ℕ → Option (List ℕ)
socket_name path = if ltb sun_path_size (length path) then none else some path

-- strncmp (s, prefix, strlen (prefix)) == 0
unfoldable pub starts_with : List ℕ → List ℕ → Bool
starts_with [] s = true
starts_with (c ∷ cs) [] = false
starts_with (c ∷ cs) (d ∷ ds) = (c == d) && starts_with cs ds

-- strstr (s, part) != NULL
unfoldable pub contains : List ℕ → List ℕ → Bool
contains part [] = starts_with part []
contains part (d ∷ ds) =
    let rest = contains part ds in if starts_with part (d ∷ ds) then true else rest

-- ';'
abbrev pub semicolon : ℕ
semicolon = 59

-- "network"
abbrev pub network_name : List ℕ
network_name = 110 ∷ 101 ∷ 116 ∷ 119 ∷ 111 ∷ 114 ∷ 107 ∷ []

-- The request for ipcd: the first BUFSIZ - 1 bytes of the service, a semicolon and IPC_NETWORK.
unfoldable pub lookup_message : List ℕ → List ℕ → Message
lookup_message sname network =
    let content = take (bufsiz - 1) (sname ++ semicolon ∷ network) in
    record zero_message {
      type = msg_type_network_lookup;
      user_type = msg_type_network_lookup;
      length = length content;
      payload = some content;
    }

-- Printing a payload with `%s` stays inside it: there is one, with a NUL byte.
unfoldable pub is_string : Option (List ℕ) → Bool
is_string none = false
is_string (some []) = false
is_string (some (c ∷ cs)) = if c == 0 then true else is_string (some cs)

module _ {W : Type 0} (env : Env W) where
  -- connect(2) on the new socket; the last part is what `*fd` becomes, if it is written.
  unfoldable pub connect_socket : ℤ → List ℕ → W → ErrorCode × Option ℤ × W
  connect_socket sfd name w =
      let (ok, w') = env.connect sfd name w in
      if ok then (ErrorCode.no_error, some sfd, w') else (ErrorCode.usock_connect_connect, none, w')

  -- The flag says that `fd` is not NULL.
  unfoldable pub usock_connect : Bool → Option (List ℕ) → W → Option (ErrorCode × Option ℤ × W)
  usock_connect false path w = some (ErrorCode.usock_connect_wrong_file_descriptor, none, w)
  usock_connect true none w = some (ErrorCode.usock_connect_empty_path, none, w)
  usock_connect true (some path) w =
      let (sfd, w1) = env.socket w in
      if sfd =ℤ minus_one
      then some (ErrorCode.usock_connect_socket, none, w1)
      else (socket_name (take path_max path) >>= λ name.
          directory_setup_ env (some path) w1 >>= λ (code, w2).
          if is_error code then some (code, none, w2) else some (connect_socket sfd name w2))

  -- bind(2) and listen(2) on the new socket, once an older file has been removed.
  unfoldable pub listen_socket : ℤ → List ℕ → List ℕ → W → ErrorCode × Option ℤ × W
  listen_socket sfd path name w =
      let (removed, w1) = usock_remove env (some path) w in
      let (bound, w2) = env.bind sfd name w1 in
      if bound
      then (let (listening, w3) = env.listen sfd w2 in
          if listening
          then (ErrorCode.no_error, some sfd, w3)
          else (ErrorCode.usock_init_listen, none, w3))
      else (ErrorCode.usock_init_bind, none, w2)

  unfoldable pub usock_init : Bool → Option (List ℕ) → W → Option (ErrorCode × Option ℤ × W)
  usock_init false path w = some (ErrorCode.usock_init_empty_file_descriptor, none, w)
  usock_init true none w = some (ErrorCode.usock_init_empty_path, none, w)
  usock_init true (some path) w = socket_name path >>= λ name.
      directory_setup_ env (some path) w >>= λ (code, w1).
      if is_error code
      then some (code, none, w1)
      else (let (sfd, w2) = env.socket w1 in
          if sfd =ℤ minus_one
          then some (ErrorCode.usock_init_wrong_file_descriptor, none, w2)
          else some (listen_socket sfd path name w2))

  -- The server once its socket is there. The path of `srv` is never longer than PATH_MAX.
  unfoldable pub add_server :
      Alloc → Option Ctx → List ℕ → ErrorCode × Option ℤ × W → Option (ErrorCode × Option Ctx × W)
  add_server mem ctx path (code, fd, w) =
      if is_error code
      then some (code, ctx, w)
      else (fd >>= λ sfd.
          ipc_add mem ctx
            (some (record zero_cinfo { type = ConnectionType.server; spath = some path }))
            (some (record zero_pollfd { fd = sfd; wants_in = true }))
          >>= λ (code', ctx'). some (code', ctx', w))

  unfoldable pub ipc_server_init :
      Alloc → Option Ctx → Option (List ℕ) → W → Option (ErrorCode × Option Ctx × W)
  ipc_server_init mem ctx none w = some (ErrorCode.server_init_no_server_name_param, ctx, w)
  ipc_server_init mem ctx (some sname) w = (service_path env true (some sname) w).1 >>= λ path.
      if mem Site.server_path
      then (usock_init true (some path) w >>= λ r. add_server mem ctx path r)
      else some (ErrorCode.server_init_malloc, ctx, w)

  -- Whether IPC_NETWORK names the service: at its start or behind a semicolon. The name is copied into
  -- a buffer of BUFSIZ bytes first; a name that fills it is a fault.
  unfoldable pub names_service : List ℕ → List ℕ → Option Bool
  names_service network sname =
      if leb bufsiz (length sname + 1)
      then none
      else some (if starts_with sname network then true else contains (semicolon ∷ sname) network)

  -- The answer of ipcd: a message of two bytes, and then the descriptor. Any other message is printed
  -- as a string. An error leaves the socket
  -- to ipcd open.
  unfoldable pub receive_answer : ℤ → ErrorCode × Option Message × W → Option (ErrorCode × ℤ × W)
  receive_answer ipcd_fd (code, m, w) =
      if is_error code
      then some (code, pos 0, w)
      else (m >>= λ msg.
          if not (msg.length == 2)
          then (if is_string msg.payload
              then (let (closed, w1) = usock_close env ipcd_fd w in
                  some (ErrorCode.closed_recipient, pos 0, w1))
              else none)
          else (let (code', fd, w1) = ipc_receive_fd env ipcd_fd true w in
              fd >>= λ pfd. some (
                if is_error code'
                then (code', pfd, w1)
                else (let (closed, w2) = usock_close env ipcd_fd w1 in (code', pfd, w2)))))

  -- The exchange with ipcd.
  unfoldable pub ask_ipcd :
      ℕ → Alloc → List ℕ → List ℕ → ErrorCode × Option ℤ × W → Option (ErrorCode × ℤ × W)
  ask_ipcd fuel mem sname network (code, fd, w) =
      if is_error code
      then some (code, pos 0, w)
      else (fd >>= λ ipcd_fd.
          ipc_write_fd env mem ipcd_fd (some (lookup_message sname network)) w >>= λ (sent, w1).
          if is_error sent
          then some (sent, pos 0, w1)
          else (ipc_read_fd env fuel mem ipcd_fd (some zero_message) w1 >>= λ r.
              receive_answer ipcd_fd r))

  -- `pfd` is not NULL; the second part is what it becomes.
  unfoldable pub ipc_contact_ipcd :
      ℕ → Alloc → Option (List ℕ) → W → Option (ErrorCode × Option ℤ × W)
  ipc_contact_ipcd fuel mem none w = some (ErrorCode.contact_ipcd_no_service_name_param, none, w)
  ipc_contact_ipcd fuel mem (some sname) w = elim (env.network w) [
    | none ↦ some (ErrorCode.no_error, some (pos 0), w)
    | some network ↦ names_service network sname >>= λ named.
        if named
        then (usock_connect true (service_path env true (some network_name) w).1 w >>= λ r.
            ask_ipcd fuel mem sname network r >>= λ (code, pfd, w'). some (code, some pfd, w'))
        else some (ErrorCode.no_error, some (pos 0), w)
  ]

  -- The connection itself, if ipcd did not provide it.
  unfoldable pub connect_service : List ℕ → Option ℤ × W → Option (ErrorCode × Option ℤ × W)
  connect_service sname (contacted, w) = contacted >>= λ pfd.
      if is_nonpos pfd
      then usock_connect true (service_path env true (some sname) w).1 w
      else some (ErrorCode.no_error, some pfd, w)

  -- The third part is what `*serverfd` becomes, if it is written; an error of `ipc_contact_ipcd`
  -- is only printed, which is a fault (see Errors).
  unfoldable pub ipc_connection_ :
      ℕ
      → Alloc
      → Option Ctx
      → Option (List ℕ)
      → ConnectionType
      → W
      → Option (ErrorCode × Option Ctx × Option ℤ × W)
  ipc_connection_ fuel mem none sname type w = some (ErrorCode.connection_no_ctx, none, none, w)
  ipc_connection_ fuel mem (some ctx) none type w =
      some (ErrorCode.connection_no_service_name, some ctx, none, w)
  ipc_connection_ fuel mem (some ctx) (some sname) type w =
      ipc_contact_ipcd fuel mem (some sname) w >>= λ (contact, pfd, w1).
      if is_error contact
      then none
      else (connect_service sname (pfd, w1) >>= λ (code, fd, w2).
          if is_error code
          then some (code, some ctx, none, w2)
          else (fd >>= λ sfd.
              ipc_add mem (some ctx) (some (record zero_cinfo { type = type }))
                (some (record zero_pollfd { fd = sfd; wants_in = true }))
              >>= λ (code', ctx').
                  some (code', ctx', if is_error code' then none else some sfd, w2)))

  unfoldable pub ipc_connection :
      ℕ → Alloc → Option Ctx → Option (List ℕ) → W → Option (ErrorCode × Option Ctx × Option ℤ × W)
  ipc_connection fuel mem ctx sname w = ipc_connection_ fuel mem ctx sname ConnectionType.ipc w

  -- The answers of `ipc_add_fd_switched` and `ipc_ctx_switching_add` are not looked at.
  unfoldable pub ipc_connection_switched :
      ℕ
      → Alloc
      → Option Ctx
      → Option (List ℕ)
      → ℤ
      → W
      → Option (ErrorCode × Option Ctx × Option ℤ × W)
  ipc_connection_switched fuel mem ctx sname clientfd w =
      ipc_connection_ fuel mem ctx sname ConnectionType.switched w >>= λ (code, ctx1, sfd, w').
      if is_error code
      then some (code, ctx1, none, w')
      else (sfd >>= λ server. ipc_add_fd_switched mem ctx1 clientfd >>= λ (added, ctx2).
          ctx2 >>= λ ctx3. ipc_ctx_switching_add mem ctx3 clientfd server >>= λ ctx4.
          some (code, some ctx4, some server, w'))
