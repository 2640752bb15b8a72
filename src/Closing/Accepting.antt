-- ===== src/Closing/Accepting.antt =====
-- What `ipc_accept_add` (src/communication.c) does to a valid context.
use libipc_old.Prelude.{
  ℕ, ◌+◌, ◌-◌, ◌≡◌, refl, ◌∙◌, ℤ, pos, negsuc, is_nonneg, true, [], ◌∷◌, none, some, ◌>>=◌, arith,
  get_elem?, get_elem?-left, get_elem?-lt, get_elem?-middle, lt→leb,
}
use libipc_old.Errors.{ErrorCode, is_error}
use libipc_old.Types.{EventType, PollFd, Event, Ctx, Alloc, Site, zero_cinfo, zero_pollfd}
use libipc_old.Env.{Env}
use libipc_old.Context.Valid.{IsValid}
use libipc_old.Context.Addition.{
  extended, extended-IsValid, ipc_ctx_new_alloc-extended, write_cell-last,
}
use libipc_old.Sockets.{usock_accept}
use libipc_old.Closing.{event_set, accept_into, ipc_accept_add}

-- The cell of a new client.
abbrev pub client_cell : ℕ → PollFd
client_cell n = record zero_pollfd { fd = pos n; wants_in = true }

module _ {W : Type 0} (env : Env W) where
  accept_add-into :
      (mem : Alloc) (event : Event) (ctx : Ctx) (index : ℕ) (p : PollFd) (w : W)
      → mem Site.cinfos ≡ true
      → mem Site.pollfd ≡ true
      → IsValid ctx
      → get_elem? ctx.pollfd index ≡ some p
      → ipc_accept_add env mem event (some ctx) index w ≡ (
          accept_into env event (extended ctx zero_cinfo zero_pollfd) index w
          >>= λ (code, event', ctx', w'). some (code, event', some ctx', w'))
  unfolding ipc_accept_add
  accept_add-into mem event ctx index p w a b v at =
      rw
        (
          lt→leb ctx.size index (omega (arith, get_elem?-lt ctx.pollfd index at, v.polled)),
          ipc_ctx_new_alloc-extended mem ctx a b v.infos v.polled,
        )
        refl

  usock_accept-client :
      (fd : ℤ) (n : ℕ) (w w' : W)
      → env.accept fd w ≡ (pos n, w')
      → usock_accept env fd true w ≡ (ErrorCode.no_error, some (pos n), w')
  unfolding usock_accept is_nonneg
  usock_accept-client fd n w w' e = ground arith

  usock_accept-refused :
      (fd : ℤ) (n : ℕ) (w w' : W)
      → env.accept fd w ≡ (negsuc n, w')
      → usock_accept env fd true w ≡ (ErrorCode.usock_accept, some (negsuc n), w')
  unfolding usock_accept is_nonneg
  usock_accept-refused fd n w w' e = ground arith

  accept_into-client :
      (event : Event) (ctx : Ctx) (index n : ℕ) (p : PollFd) (w w' : W)
      → IsValid ctx
      → get_elem? ctx.pollfd index ≡ some p
      → env.accept p.fd w ≡ (pos n, w')
      → accept_into env event (extended ctx zero_cinfo zero_pollfd) index w
        ≡ some (
          ErrorCode.no_error,
          event_set EventType.connection ctx.size (pos n) none,
          extended ctx zero_cinfo (client_cell n),
          w',
        )
  unfolding accept_into is_error
  accept_into-client event ctx index n p w w' v at e =
      let last : ctx.size + 1 - 1 ≡ ctx.size = omega arith in
      rw
        (
          last,
          get_elem?-left ctx.pollfd (zero_pollfd ∷ []) index at,
          get_elem?-middle ctx.pollfd zero_pollfd [] ctx.size v.polled,
          usock_accept-client p.fd n w w' e,
          get_elem?-middle ctx.cinfos zero_cinfo [] ctx.size v.infos,
        )
        (rw
          (
            ◌>>=◌,
            write_cell-last ctx.pollfd zero_pollfd (record zero_pollfd { fd = pos n }) ctx.size
                v.polled,
            ◌>>=◌,
            write_cell-last ctx.pollfd (record zero_pollfd { fd = pos n }) (client_cell n) ctx.size
                v.polled,
            write_cell-last ctx.cinfos zero_cinfo zero_cinfo ctx.size v.infos,
          )
          refl)

  accept_into-refused :
      (event : Event) (ctx : Ctx) (index n : ℕ) (p : PollFd) (w w' : W)
      → IsValid ctx
      → get_elem? ctx.pollfd index ≡ some p
      → env.accept p.fd w ≡ (negsuc n, w')
      → accept_into env event (extended ctx zero_cinfo zero_pollfd) index w
        ≡ some (
          ErrorCode.usock_accept,
          event,
          extended ctx zero_cinfo (record zero_pollfd { fd = negsuc n }),
          w',
        )
  unfolding accept_into is_error
  accept_into-refused event ctx index n p w w' v at e =
      let last : ctx.size + 1 - 1 ≡ ctx.size = omega arith in
      rw
        (
          last,
          get_elem?-left ctx.pollfd (zero_pollfd ∷ []) index at,
          get_elem?-middle ctx.pollfd zero_pollfd [] ctx.size v.polled,
          usock_accept-refused p.fd n w w' e,
          write_cell-last ctx.pollfd zero_pollfd (record zero_pollfd { fd = negsuc n }) ctx.size
              v.polled,
        )
        refl

  -- With memory and a client, accepting on a connection of a valid context adds the client at the
  -- end, listened to and of the library's own kind, leaves a valid context, and the event tells
  -- of the connection, its index and its descriptor.
  pub ipc_accept_add-client :
      (mem : Alloc) (event : Event) (ctx : Ctx) (index n : ℕ) (p : PollFd) (w w' : W)
      → mem Site.cinfos ≡ true
      → mem Site.pollfd ≡ true
      → IsValid ctx
      → get_elem? ctx.pollfd index ≡ some p
      → env.accept p.fd w ≡ (pos n, w')
      → (ipc_accept_add env mem event (some ctx) index w
          ≡ some (
            ErrorCode.no_error,
            event_set EventType.connection ctx.size (pos n) none,
            some (extended ctx zero_cinfo (client_cell n)),
            w',
          ))
        × IsValid (extended ctx zero_cinfo (client_cell n))
  ipc_accept_add-client mem event ctx index n p w w' a b v at e = (
    accept_add-into mem event ctx index p w a b v at
        ∙ rw (accept_into-client event ctx index n p w w' v at e) refl,
    extended-IsValid ctx zero_cinfo (client_cell n) v,
  )

  -- When accept(2) fails, the context keeps a connection more than before: its descriptor is the
  -- negative number that accept(2) answered, and only the error code tells of it.
  pub ipc_accept_add-refused :
      (mem : Alloc) (event : Event) (ctx : Ctx) (index n : ℕ) (p : PollFd) (w w' : W)
      → mem Site.cinfos ≡ true
      → mem Site.pollfd ≡ true
      → IsValid ctx
      → get_elem? ctx.pollfd index ≡ some p
      → env.accept p.fd w ≡ (negsuc n, w')
      → ipc_accept_add env mem event (some ctx) index w
        ≡ some (
          ErrorCode.usock_accept,
          event,
          some (extended ctx zero_cinfo (record zero_pollfd { fd = negsuc n })),
          w',
        )
  ipc_accept_add-refused mem event ctx index n p w w' a b v at e =
      accept_add-into mem event ctx index p w a b v at
      ∙ rw (accept_into-refused event ctx index n p w w' v at e) refl
