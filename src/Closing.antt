-- ===== src/Closing.antt =====
-- Closing connections and accepting them: `ipc_close`, `ipc_close_all`, `ipc_accept_add` and
-- `ipc_read` of src/communication.c.
pub mod Accepting
pub mod Ending
use libipc_old.Prelude.{
  ℕ, zero, suc, ◌+◌, ◌-◌, ℤ, Bool, true, false, List, Option, none, some, ◌>>=◌, leb, if◌then◌else◌,
  get_elem?, set, write_cell,
}
use libipc_old.Errors.{ErrorCode, is_error}
use libipc_old.Types.{ConnectionType, EventType, Message, Event, Ctx, Alloc}
use libipc_old.Env.{Env}
use libipc_old.Tx.{ipc_remove_messages_for_fd}
use libipc_old.Context.{ipc_ctx_new_alloc}
use libipc_old.Sockets.{usock_close, usock_remove, usock_accept, ipc_read_fd}

unfoldable pub is_external : ConnectionType → Bool
is_external ConnectionType.external = true
is_external _ = false

unfoldable pub is_server : ConnectionType → Bool
is_server ConnectionType.server = true
is_server _ = false

unfoldable pub is_switched : ConnectionType → Bool
is_switched ConnectionType.switched = true
is_switched _ = false

-- IPC_EVENT_SET
abbrev pub event_set : EventType → ℕ → ℤ → Option Message → Event
event_set type index origin m = record { type = type; index = index; origin = origin; m = m }

module _ {W : Type 0} (env : Env W) where
  -- The close of a descriptor that the library handles.
  unfoldable pub close_own : ConnectionType → ℤ → W → ErrorCode × W
  close_own type fd w = if is_external type then (ErrorCode.no_error, w) else usock_close env fd w

  -- The socket's file, for a server.
  unfoldable pub remove_path : Ctx → ℕ → ErrorCode → W → Option (ErrorCode × Ctx × W)
  remove_path ctx index ret w = get_elem? ctx.cinfos index >>= λ info.
      if is_server info.type
      then (let (ret', w') = usock_remove env info.spath w in
          some
            (ret', record ctx { cinfos = set ctx.cinfos index (record info { spath = none }) }, w'))
      else some (ret, ctx, w)

  unfoldable pub ipc_close : Alloc → Option Ctx → ℕ → W → Option (ErrorCode × Option Ctx × W)
  ipc_close mem none index w = some (ErrorCode.close_no_ctx_param, none, w)
  ipc_close mem (some ctx) index w = get_elem? ctx.pollfd index >>= λ pfd.
      get_elem? ctx.cinfos index >>= λ info.
      let (ret, w') = close_own info.type pfd.fd w in
      ipc_remove_messages_for_fd mem ctx.tx pfd.fd >>= λ tx.
      if is_error ret
      then some (ret, some (record ctx { tx = tx }), w')
      else (remove_path (record ctx { tx = tx }) index ret w' >>= λ (ret', ctx', w'').
          some (ret', some ctx', w''))

  -- The loop of `ipc_close_all`; a failed close is only printed, which is a fault (see Errors).
  unfoldable pub close_from : Alloc → ℕ → ℕ → Ctx → W → Option (Ctx × W)
  close_from mem zero i ctx w = some (ctx, w)
  close_from mem (suc rounds) i ctx w = ipc_close mem (some ctx) i w >>= λ (code, closed, w').
      closed >>= λ ctx'. elim (is_error code) [
        | true ↦ none
        | false ↦ close_from mem rounds (i + 1) ctx' w'
      ]

  unfoldable pub ipc_close_all : Alloc → Option Ctx → W → Option (ErrorCode × Option Ctx × W)
  ipc_close_all mem none w = some (ErrorCode.close_all_no_ctx_param, none, w)
  ipc_close_all mem (some ctx) w =
      close_from mem ctx.size 0 ctx w >>= λ (ctx', w'). some (ErrorCode.no_error, some ctx', w')

  -- `ipc_accept_add` after its guards and its allocation, whose answer is not looked at. The answer of
  -- accept(2) is written to the new cell before it is tested.
  unfoldable pub accept_into : Event → Ctx → ℕ → W → Option (ErrorCode × Event × Ctx × W)
  accept_into event ctx index w = get_elem? ctx.pollfd index >>= λ listening.
      get_elem? ctx.pollfd (ctx.size - 1) >>= λ cell.
      let (code, accepted, w') = usock_accept env listening.fd true w in
      accepted >>= λ client.
      write_cell ctx.pollfd (ctx.size - 1) (record cell { fd = client }) >>= λ cells.
      if is_error code
      then some (code, event, record ctx { pollfd = cells }, w')
      else (write_cell cells (ctx.size - 1)
            (record cell { fd = client; wants_in = true; wants_out = false })
          >>= λ cells'. get_elem? ctx.cinfos (ctx.size - 1) >>= λ info.
              write_cell ctx.cinfos (ctx.size - 1) (record info { type = ConnectionType.ipc })
              >>= λ infos. some (
                ErrorCode.no_error,
                event_set EventType.connection (ctx.size - 1) client none,
                record ctx { cinfos = infos; pollfd = cells' },
                w',
              ))

  unfoldable pub ipc_accept_add :
      Alloc → Event → Option Ctx → ℕ → W → Option (ErrorCode × Event × Option Ctx × W)
  ipc_accept_add mem event none index w =
      some (ErrorCode.handle_new_connection_no_cinfos_param, event, none, w)
  ipc_accept_add mem event (some ctx) index w =
      if leb ctx.size index
      then some (ErrorCode.handle_new_connection_inconsistent_index, event, some ctx, w)
      else (ipc_ctx_new_alloc mem ctx >>= λ allocated.
          accept_into event allocated.1 index w >>= λ (code, event', ctx', w').
          some (code, event', some ctx', w'))

  unfoldable pub ipc_read :
      ℕ → Alloc → Ctx → ℕ → Option Message → W → Option (ErrorCode × Option Message × W)
  ipc_read fuel mem ctx index m w =
      get_elem? ctx.pollfd index >>= λ pfd. ipc_read_fd env fuel mem pfd.fd m w
