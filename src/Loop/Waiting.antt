-- ===== src/Loop/Waiting.antt =====
-- What `handle_new_message` (src/communication.c) makes of a message and of the end of a connection.
use mathlib.Core.List.Perm
use libipc_old.Prelude.{
  inl, inr, Bool-cases, Perm, ℕ, suc, ◌+◌, ◌≤◌, ◌≡◌, refl, ap, ℤ, ◌=ℤ◌, true, false, List, [], ◌∷◌,
  ◌++◌, none, some, ◌>>=◌, arith, length, get_elem?, get_elem?-lt,
}
use libipc_old.Errors.{ErrorCode, is_error, is_closed_recipient}
use libipc_old.Types.{
  EventType, ConnectionInfo, PollFd, Message, Messages, Event, Ctx, Alloc, Site, ipc_header_size,
  max_message_size, zero_message,
}
use libipc_old.Message.{be32}
use libipc_old.Env.{Env, Received}
use libipc_old.Context.Valid.{IsValid}
use libipc_old.Context.Deletion.{Deleted, ipc_del-Deletes}
use libipc_old.Sockets.Delivery.{ipc_read_fd-receives, ipc_read_fd-closed}
use libipc_old.Closing.{
  event_set, is_external, is_server, close_own, remove_path, ipc_close, ipc_read,
}
use libipc_old.Tx.{ipc_remove_messages_for_fd}
use libipc_old.Tx.Removal.{
  others, others-perm, others-hit, others-miss, ipc_remove_messages_for_fd-others,
}
use libipc_old.Sockets.{usock_close}
use libipc_old.Closing.Ending.{others-mem}
use libipc_old.Loop.{drop_connection, after_read, handle_new_message}

others-twice : (fd : ℤ) (ms : List Message) → others fd (others fd ms) ≡ others fd ms
others-twice fd [] = refl
others-twice fd (m ∷ ms) = elim (Bool-cases (m.fd =ℤ fd)) [
  | inl e ↦ rw (others-hit fd m ms e) (others-twice fd ms)
  | inr e ↦
      rw (others-miss fd m ms e, others-miss fd m (others fd ms) e)
        (ap (◌∷◌ m) (others-twice fd ms))
]

module _ {W : Type 0} (env : Env W) where
  -- Closing the descriptor of a connection that is no server.
  close-own :
      (mem : Alloc) (ctx : Ctx) (index : ℕ) (p : PollFd) (info : ConnectionInfo) (tx : Messages)
      (w w' : W)
      → ipc_remove_messages_for_fd mem ctx.tx p.fd ≡ some tx
      → get_elem? ctx.pollfd index ≡ some p
      → get_elem? ctx.cinfos index ≡ some info
      → is_external info.type ≡ false
      → is_server info.type ≡ false
      → env.close p.fd w ≡ (true, w')
      → ipc_close env mem (some ctx) index w
        ≡ some (ErrorCode.no_error, some (record ctx { tx = tx }), w')
  unfolding ipc_close close_own usock_close remove_path is_error
  close-own mem ctx index p info tx w w' removed at at' own plain shut =
      rw (at, at', removed, own) (rw (usock_close, shut) (rw plain refl))

  -- Closing and then deleting it.
  pub drop_connection-Deleted :
      (mem : Alloc) (ctx : Ctx) (index : ℕ) (p : PollFd) (info : ConnectionInfo) (w w' : W)
      → mem Site.cinfos ≡ true
      → mem Site.pollfd ≡ true
      → mem Site.messages ≡ true
      → IsValid ctx
      → get_elem? ctx.pollfd index ≡ some p
      → get_elem? ctx.cinfos index ≡ some info
      → is_external info.type ≡ false
      → is_server info.type ≡ false
      → env.close p.fd w ≡ (true, w')
      → (ctx' : Ctx) × (drop_connection env mem ctx index w ≡ some (ctx', w'))
        × Deleted ctx info p ctx'
  unfolding drop_connection is_error
  drop_connection-Deleted mem ctx index p info w w' a b d v at at' own plain shut =
      let (tx, removed, valid, queue) =
        ipc_remove_messages_for_fd-others mem ctx.tx p.fd d v.queued in
      let between : Ctx = record ctx { tx = tx } in
      let still : IsValid between = record {
        infos = v.infos;
        polled = v.polled;
        queued = valid;
        targeted = λ m h. v.targeted m (others-mem p.fd ctx.tx.messages (Perm.subset queue m h));
      } in
      let (info1, p1, ctx', at1, at2, del, deleted) =
        ipc_del-Deletes mem between index a b d still
          (omega (arith, get_elem?-lt ctx.pollfd index at, v.polled)) in
      let same : p1 ≡ p = cc (at, at2) in
      let same' : info1 ≡ info = cc (at', at1) in
      (
        ctx',
        rw (close-own mem ctx index p info tx w w' removed at at' own plain shut) (rw del refl),
        again ctx between info p ctx' refl refl refl refl queue (rw (same, same') at deleted),
      )
    where
      again :
          (ctx between : Ctx) (info : ConnectionInfo) (p : PollFd) (ctx' : Ctx)
          → between.cinfos ≡ ctx.cinfos
          → between.pollfd ≡ ctx.pollfd
          → between.switchdb ≡ ctx.switchdb
          → between.size ≡ ctx.size
          → Perm between.tx.messages (others p.fd ctx.tx.messages)
          → Deleted between info p ctx'
          → Deleted ctx info p ctx'
      again ctx between info p ctx' e f g k queue del = record {
        valid = del.valid;
        rest = rw (e, f) at del.rest;
        queue =
            Perm.trans del.queue
              (rw (others-twice p.fd ctx.tx.messages) at (others-perm p.fd queue));
        pairs = rw g at del.pairs;
      }

  -- A message that arrives whole, with memory: the event carries it, with the descriptor that it came
  -- from, and the context stays as it was.
  pub handle_new_message-message :
      (fuel : ℕ) (mem : Alloc) (event : Event) (ctx : Ctx) (index t u : ℕ) (bytes : List ℕ)
      (p : PollFd) (w w' : W)
      → mem Site.event_message ≡ true
      → mem Site.payload ≡ true
      → ipc_header_size + length bytes ≤ max_message_size
      → get_elem? ctx.pollfd index ≡ some p
      → env.recv p.fd max_message_size w ≡ (Received.got t (be32 (length bytes) ++ (u ∷ bytes)), w')
      → handle_new_message env (suc fuel) mem event ctx index w
        ≡ some (
          ErrorCode.no_error,
          event_set EventType.message index p.fd (
              some (record {
                type = t;
                user_type = u;
                fd = p.fd;
                length = length bytes;
                payload = some bytes;
              })),
          ctx,
          w',
        )
  unfolding handle_new_message after_read ipc_read is_error
  handle_new_message-message fuel mem event ctx index t u bytes p w w' room ok fits at e =
      rw (room, at, ipc_read_fd-receives env fuel mem p.fd zero_message t u bytes w w' ok fits e)
        refl

  -- A peer that has closed, on a connection that is no server and that the library handles, with memory,
  -- in a valid context, when close(2) of its descriptor succeeds: that is the one call made after the
  -- end was read, the event tells of the disconnection, and the connection is deleted, with the messages
  -- that waited for it.
  pub handle_new_message-disconnected :
      (fuel : ℕ) (mem : Alloc) (event : Event) (ctx : Ctx) (index : ℕ) (p : PollFd)
      (info : ConnectionInfo) (w w' w'' : W)
      → mem Site.event_message ≡ true
      → mem Site.cinfos ≡ true
      → mem Site.pollfd ≡ true
      → mem Site.messages ≡ true
      → IsValid ctx
      → get_elem? ctx.pollfd index ≡ some p
      → get_elem? ctx.cinfos index ≡ some info
      → is_external info.type ≡ false
      → is_server info.type ≡ false
      → env.recv p.fd max_message_size w ≡ (Received.closed, w')
      → env.close p.fd w' ≡ (true, w'')
      → (ctx' : Ctx) × (handle_new_message env (suc fuel) mem event ctx index w
          ≡ some (ErrorCode.no_error, event_set EventType.disconnection index p.fd none, ctx', w''))
        × Deleted ctx info p ctx'
  unfolding handle_new_message after_read ipc_read is_error is_closed_recipient
  handle_new_message-disconnected fuel mem event ctx index p info w w' w'' room a b d v at at' own
        plain e shut =
      let (ctx', run, deleted) =
        drop_connection-Deleted mem ctx index p info w' w'' a b d v at at' own plain shut in
      (
        ctx',
        rw (room, at, ipc_read_fd-closed env fuel mem p.fd zero_message w w' e, ◌>>=◌, run) refl,
        deleted,
      )
