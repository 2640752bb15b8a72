-- ===== src/Connecting/Switched.antt =====
-- What `ipc_connection_switched` (src/communication.c) leaves behind.
use libipc_old.Prelude.{
  ℕ, ◌≡◌, refl, sym, ap, ◌∙◌, minus_one, inl, inr, ℤ, ◌=ℤ◌, =ℤ_iff, true, false, Bool-cases, List,
  [], ◌∷◌, ◌++◌, Option, some, length, append_assoc, if◌then◌else◌,
}
use libipc_old.Errors.{ErrorCode, is_error}
use libipc_old.Types.{
  ConnectionType, ConnectionInfo, PollFd, Ctx, Alloc, Site, zero_cinfo, zero_pollfd,
}
use libipc_old.Env.{Env}
use libipc_old.Context.{ipc_add_fd_switched, ipc_add_fd_by_type}
use libipc_old.Context.Valid.{IsValid}
use libipc_old.Context.Addition.{extended, ipc_add-extended, extended-IsValid}
use libipc_old.Switching.{ipc_switching_get, ipc_ctx_switching_add}
use libipc_old.Switching.Pairs.{knows, ipc_switching_get-add}
use libipc_old.Connecting.{
  ipc_contact_ipcd, connect_service, ipc_connection_, ipc_connection_switched,
}

-- The cells of a switched connection.
abbrev pub switched_info : ConnectionInfo
switched_info = record zero_cinfo { type = ConnectionType.switched }

abbrev pub polled_fd : ℤ → PollFd
polled_fd fd = record zero_pollfd { fd = fd; wants_in = true }

-- Both ends are new connections of the context.
abbrev pub joined : Ctx → ℤ → ℤ → Ctx
joined ctx sfd clientfd =
    extended (extended ctx switched_info (polled_fd sfd)) switched_info (polled_fd clientfd)

same : (fd : ℤ) → (fd =ℤ fd) ≡ true
same fd = (=ℤ_iff fd fd).1 refl

other :
    (clientfd sfd : ℤ)
    → some (if clientfd =ℤ sfd then sfd else if sfd =ℤ sfd then clientfd else minus_one)
      ≡ some clientfd
other clientfd sfd = elim (Bool-cases (clientfd =ℤ sfd)) [
  | inl e ↦ rw e (ap some (sym ((=ℤ_iff clientfd sfd).0 e)))
  | inr e ↦ rw (e, same sfd) refl
]

module _ {W : Type 0} (env : Env W) where
  connected :
      (fuel : ℕ) (mem : Alloc) (ctx : Ctx) (sname : List ℕ) (sfd : ℤ) (code : ErrorCode)
      (pfd : Option ℤ) (w w1 w2 : W)
      → mem Site.cinfos ≡ true
      → mem Site.pollfd ≡ true
      → IsValid ctx
      → ipc_contact_ipcd env fuel mem (some sname) w ≡ some (ErrorCode.no_error, pfd, w1)
      → connect_service env sname (pfd, w1) ≡ some (code, some sfd, w2)
      → is_error code ≡ false
      → ipc_connection_ env fuel mem (some ctx) (some sname) ConnectionType.switched w
        ≡ some (ErrorCode.no_error, some (extended ctx switched_info (polled_fd sfd)), some sfd, w2)
  unfolding ipc_connection_ is_error
  connected fuel mem ctx sname sfd code pfd w w1 w2 a b v asked there ok =
      rw
        (
          asked,
          there,
          ok,
          ipc_add-extended mem ctx switched_info (polled_fd sfd) a b v.infos v.polled,
        )
        refl

  -- With memory, in a valid context with a valid table of pairs that has neither descriptor: when ipcd
  -- gives no error, and the service is reached, by ipcd or by its socket, its connection and the client's are added at the end
  -- of the context, which is valid again, and each of the two descriptors is the other's partner.
  pub ipc_connection_switched-paired :
      (fuel : ℕ) (mem : Alloc) (ctx : Ctx) (sname : List ℕ) (sfd clientfd : ℤ) (code : ErrorCode)
      (pfd : Option ℤ) (w w1 w2 : W)
      → mem Site.cinfos ≡ true
      → mem Site.pollfd ≡ true
      → mem Site.collection ≡ true
      → IsValid ctx
      → length ctx.switchdb.collection ≡ ctx.switchdb.size
      → knows ctx.switchdb.collection clientfd ≡ false
      → knows ctx.switchdb.collection sfd ≡ false
      → ipc_contact_ipcd env fuel mem (some sname) w ≡ some (ErrorCode.no_error, pfd, w1)
      → connect_service env sname (pfd, w1) ≡ some (code, some sfd, w2)
      → is_error code ≡ false
      → (ctx' : Ctx) × (ipc_connection_switched env fuel mem (some ctx) (some sname) clientfd w
          ≡ some (ErrorCode.no_error, some ctx', some sfd, w2))
        × IsValid ctx'
        × (ctx'.pollfd ≡ ctx.pollfd ++ (polled_fd sfd ∷ polled_fd clientfd ∷ []))
        × (ctx'.cinfos ≡ ctx.cinfos ++ (switched_info ∷ switched_info ∷ []))
        × (ipc_switching_get ctx'.switchdb clientfd ≡ some sfd)
        × (ipc_switching_get ctx'.switchdb sfd ≡ some clientfd)
  unfolding ipc_connection_switched ipc_add_fd_switched ipc_add_fd_by_type ipc_ctx_switching_add
      is_error
  ipc_connection_switched-paired fuel mem ctx sname sfd clientfd code pfd w w1 w2 a b d v v'
        new_client new_server asked there ok =
      let ctx1 = extended ctx switched_info (polled_fd sfd) in
      let v1 = extended-IsValid ctx switched_info (polled_fd sfd) v in
      let v2 = extended-IsValid ctx1 switched_info (polled_fd clientfd) v1 in
      let (db, added, valid, client) =
        ipc_switching_get-add mem ctx.switchdb clientfd sfd clientfd d v' in
      let (db', added', valid', server) =
        ipc_switching_get-add mem ctx.switchdb clientfd sfd sfd d v' in
      (
        record (joined ctx sfd clientfd) { switchdb = db },
        rw (connected fuel mem ctx sname sfd code pfd w w1 w2 a b v asked there ok) (
            rw (ipc_add-extended mem ctx1 switched_info (polled_fd clientfd) a b v1.infos v1.polled)
              (rw added refl)),
        record { infos = v2.infos; polled = v2.polled; queued = v2.queued; targeted = v2.targeted },
        append_assoc ctx.pollfd (polled_fd sfd ∷ []) (polled_fd clientfd ∷ []),
        append_assoc ctx.cinfos (switched_info ∷ []) (switched_info ∷ []),
        client ∙ rw (new_client, same clientfd) refl,
        (let one : db ≡ db' = cc in rw one (server ∙ rw (new_server) (other clientfd sfd))),
      )
