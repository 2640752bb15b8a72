-- ===== src/Relay/Passing.antt =====
-- What `fd_switching_read` and `fd_switching_write` (src/network.c) do for a switched pair.
use mathlib.Core.List.{Mem}
use libipc_old.Prelude.{
  ℕ, suc, ◌+◌, ◌<◌, ◌≤◌, ◌≡◌, refl, ◌∙◌, ℤ, true, false, List, ◌∷◌, ◌++◌, none, some, ◌>>=◌, ◌==◌,
  arith, length, get_elem?, get_elem?-some_of_lt, get_elem?-lt, write_cell, set, get_elem?-map,
  length-set, lt→ltb,
}
use libipc_old.Errors.{ErrorCode, is_error}
use libipc_old.Types.{
  ConnectionInfo, EventType, Ipccb, PollFd, Message, Event, Switching, Ctx, Alloc, Site,
  ipc_header_size, max_message_size, zero_message,
}
use libipc_old.Message.{be32}
use libipc_old.Message.Wire.{ipc_message_format_read-wire}
use libipc_old.Env.{Env, Received}
use libipc_old.Tx.{deep_copy}
use libipc_old.Context.Valid.{IsValid, fds}
use libipc_old.Context.Writing.{marked, queued, ipc_write-queued}
use libipc_old.Switching.{other_end, ipc_switching_record}
use libipc_old.Sockets.Receiving.{usock_recv-whole}
use libipc_old.Closing.{event_set}
use libipc_old.Relay.{
  input_of, parse_received, default_cb_in, call_in, after_read, fd_switching_read,
}

-- A message without a descriptor.
abbrev pub parcel : ℕ → ℕ → List ℕ → ℤ → Message
parcel t u bytes fd = record {
  type = t;
  user_type = u;
  fd = fd;
  length = length bytes;
  payload = some bytes;
}

write_cell-in {ℓ} :
    {A : Type ℓ} (xs : List A) (i : ℕ) (v : A)
    → i < length xs
    → write_cell xs i v ≡ some (set xs i v)
unfolding write_cell
write_cell-in xs i v h = rw (lt→ltb i (length xs) h) refl

module _ {W : Type 0} (env : Env W) where
  default_cb_in-whole :
      (fuel : ℕ) (mem : Alloc) (fd : ℤ) (t u : ℕ) (bytes : List ℕ) (w w' : W)
      → mem Site.payload ≡ true
      → ipc_header_size + length bytes ≤ max_message_size
      → env.recv fd max_message_size w ≡ (Received.got t (be32 (length bytes) ++ (u ∷ bytes)), w')
      → default_cb_in env (suc fuel) mem fd zero_message w
        ≡ some (Ipccb.no_error, parcel t u bytes zero_message.fd, false, w')
  unfolding default_cb_in parse_received is_error
  default_cb_in-whole fuel mem fd t u bytes w w' ok fits e =
      rw
        (
          usock_recv-whole env fuel fd t u bytes w w' (omega arith) e,
          ipc_message_format_read-wire mem zero_message t u bytes ok fits,
          lt→ltb 0 (ipc_header_size + length bytes) (omega arith),
        )
        refl

  fd-marked : (fd : ℤ) (p : PollFd) → (marked fd p).fd ≡ p.fd
  fd-marked fd p = ground arith

  -- The message goes into the list for the other end.
  after_read-queued :
      (mem : Alloc) (ctx : Ctx) (index : ℕ) (p : PollFd) (other : ℤ) (s : Switching)
      (m m' : Message)
      → mem Site.messages ≡ true
      → IsValid ctx
      → get_elem? ctx.pollfd index ≡ some p
      → Mem other (fds ctx.pollfd)
      → deep_copy mem (record m { fd = other }) ≡ some m'
      → (after_read env mem ctx index p.fd other s Ipccb.no_error m
          ≡ some (ErrorCode.no_error, event_set EventType.switch index p.fd none, queued ctx m'))
        × IsValid (queued ctx m')
  unfolding after_read
  after_read-queued mem ctx index p other s m m' ok v at there copy =
      let (run, valid) = ipc_write-queued mem ctx (record m { fd = other }) m' ok v there copy in
      (rw (run, get_elem?-map (marked m'.fd) ctx.pollfd index at, fd-marked m'.fd p) refl, valid)

  -- A message that arrives whole at an end of a pair without a callback of its own, in a valid
  -- context with memory: its copy waits for the other end, which then waits for room to write, the
  -- event tells of the switch, and the context is valid.
  pub fd_switching_read-relays :
      (fuel : ℕ) (mem : Alloc) (event : Event) (ctx : Ctx) (index i t u : ℕ) (bytes : List ℕ)
      (p : PollFd) (s : Switching) (m' : Message) (w w' : W)
      → mem Site.messages ≡ true
      → mem Site.payload ≡ true
      → IsValid ctx
      → 0 < ctx.switchdb.size
      → get_elem? ctx.pollfd index ≡ some p
      → ipc_switching_record ctx.switchdb p.fd ≡ some (some (i, s))
      → input_of p.fd s ≡ none
      → Mem (other_end p.fd s) (fds ctx.pollfd)
      → ipc_header_size + length bytes ≤ max_message_size
      → env.recv p.fd max_message_size w ≡ (Received.got t (be32 (length bytes) ++ (u ∷ bytes)), w')
      → deep_copy mem (parcel t u bytes (other_end p.fd s)) ≡ some m'
      → (info : ConnectionInfo) × (get_elem? ctx.cinfos index ≡ some info)
        × (fd_switching_read env (suc fuel) mem event ctx index w
            ≡ some (
              ErrorCode.no_error,
              event_set EventType.switch index p.fd none,
              queued
                  (record ctx {
                    cinfos = set ctx.cinfos index (record info { more_to_read = false });
                  })
                  m',
              w',
            ))
        × IsValid (
            queued
              (record ctx { cinfos = set ctx.cinfos index (record info { more_to_read = false }) })
              m')
  unfolding fd_switching_read call_in
  fd_switching_read-relays fuel mem event ctx index i t u bytes p s m' w w' ok ok' v some_pair at
        found plain there fits e copy =
      let small : index < length ctx.cinfos =
        omega (arith, get_elem?-lt ctx.pollfd index at, v.polled, v.infos) in
      let (info, at') = get_elem?-some_of_lt ctx.cinfos index small in
      let infos = set ctx.cinfos index (record info { more_to_read = false }) in
      let valid : IsValid (record ctx { cinfos = infos }) = record {
        infos = length-set ctx.cinfos index (record info { more_to_read = false }) ∙ v.infos;
        polled = v.polled;
        queued = v.queued;
        targeted = v.targeted;
      } in
      let (run, valid') =
        after_read-queued mem (record ctx { cinfos = infos }) index p (other_end p.fd s) s
          (parcel t u bytes zero_message.fd) m' ok valid at there copy in
      let pairs : (ctx.switchdb.size == 0) ≡ false = ground arith in
      (
        info,
        at',
        rw
            (
              pairs,
              at,
              found,
              ◌>>=◌,
              plain,
              default_cb_in-whole fuel mem p.fd t u bytes w w' ok' fits e,
              at',
              ◌>>=◌,
              write_cell-in ctx.cinfos index (record info { more_to_read = false }) small,
              run,
            )
            refl,
        valid',
      )
