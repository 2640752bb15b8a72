-- ===== src/Board/Refining.antt =====
-- `ipc_add`, `ipc_del` and `ipc_write` (src/communication.c) do to the arrays what they promise of the
-- connections and of the messages.
use mathlib.Core.List.{Mem, map-append}
use mathlib.Core.List.Perm
use mathlib.Core.Quot
use libipc_old.Prelude.{
  ℕ, ◌<◌, ◌≡◌, refl, ap, subst, append-nil, removed-perm, front-nil, Bool-cases, ◌=ℤ◌, inl, inr,
  ◌∙◌, ℤ, true, List, [], ◌∷◌, ◌++◌, map, Perm, some, get_elem?, zip_cells,
}
use libipc_old.Errors.{ErrorCode}
use libipc_old.Types.{ConnectionType, ConnectionInfo, PollFd, Message, Ctx, Alloc, Site}
use libipc_old.Tx.{deep_copy}
use libipc_old.Context.{ipc_add, ipc_del, ipc_write}
use libipc_old.Context.Valid.{IsValid, connections, fds}
use libipc_old.Context.Addition.{ipc_add-IsValid}
use libipc_old.Context.Deletion.{ipc_del-Deletes}
use libipc_old.Context.Writing.{marked, queued, ipc_write-queued}
use libipc_old.Board.{Bag, of_list, insert, without, seen, view, join, post, Leaves}

snoc-insert {ℓ} :
    {A : Type ℓ} (xs : List A) (a : A) → of_list (xs ++ a ∷ []) ≡ insert a (of_list xs)
unfolding insert
snoc-insert xs a = Quot.sound (
    subst (λ l. Perm (xs ++ a ∷ []) (a ∷ l)) (ap (λ r. xs ++ r) front-nil ∙ append-nil xs)
      (removed-perm xs a []))

-- With memory, adding a connection to a valid context joins it, and the context stays valid.
pub ipc_add-join :
    (mem : Alloc) (ctx : Ctx) (p : ConnectionInfo) (pfd : PollFd)
    → mem Site.cinfos ≡ true
    → mem Site.pollfd ≡ true
    → IsValid ctx
    → (ctx' : Ctx) × (ipc_add mem (some ctx) (some p) (some pfd)
        ≡ some (ErrorCode.no_error, some ctx'))
      × IsValid ctx'
      × (view ctx' ≡ join p.type pfd.fd (view ctx))
unfolding view join
ipc_add-join mem ctx p pfd a b v =
    let (ctx', run, valid, more, same, pairs) = ipc_add-IsValid mem ctx p pfd a b v in
    (
      ctx',
      run,
      valid,
      rw (more, same, map-append seen (connections ctx) ((p, pfd) ∷ []))
          (ap
            (λ (j : Bag (ConnectionType × ℤ)). record {
              joined = j;
              outgoing = of_list ctx.tx.messages;
            })
            (snoc-insert (map seen (connections ctx)) (seen (p, pfd)))),
    )

-- With memory, `ipc_del` at an index of a valid context makes the connection there leave, with the
-- messages for its descriptor, and the context stays valid.
pub ipc_del-Leaves :
    (mem : Alloc) (ctx : Ctx) (index : ℕ)
    → mem Site.cinfos ≡ true
    → mem Site.pollfd ≡ true
    → mem Site.messages ≡ true
    → IsValid ctx
    → index < ctx.size
    → (info : ConnectionInfo) × (pfd : PollFd) × (ctx' : Ctx) × (get_elem? ctx.cinfos index
        ≡ some info)
      × (get_elem? ctx.pollfd index ≡ some pfd)
      × (ipc_del mem (some ctx) index ≡ some (ErrorCode.no_error, some ctx'))
      × IsValid ctx'
      × Leaves info.type pfd.fd (view ctx) (view ctx')
unfolding view insert without
ipc_del-Leaves mem ctx index a b c v h =
    let (info, pfd, ctx', at, at', run, d) = ipc_del-Deletes mem ctx index a b c v h in
    (
      info,
      pfd,
      ctx',
      at,
      at',
      run,
      d.valid,
      record { gone = Quot.sound (Perm.map seen d.rest); silent = Quot.sound d.queue },
    )

seen-marked :
    (fd : ℤ) (infos : List ConnectionInfo) (cells : List PollFd)
    → map seen (zip_cells infos (map (marked fd) cells)) ≡ map seen (zip_cells infos cells)
seen-marked fd [] cells = refl
seen-marked fd (c ∷ cs) [] = refl
seen-marked fd (c ∷ cs) (p ∷ ps) = elim (Bool-cases (p.fd =ℤ fd)) [
  | inl e ↦ rw e (ap (◌∷◌ (seen (c, p))) (seen-marked fd cs ps))
  | inr e ↦ rw e (ap (◌∷◌ (seen (c, p))) (seen-marked fd cs ps))
]

-- With memory, a message for a descriptor of a valid context, whose copy is `m'`, is posted, the
-- connections stay, and the context stays valid.
pub ipc_write-post :
    (mem : Alloc) (ctx : Ctx) (m m' : Message)
    → mem Site.messages ≡ true
    → IsValid ctx
    → Mem m.fd (fds ctx.pollfd)
    → deep_copy mem m ≡ some m'
    → (ctx' : Ctx) × (ipc_write mem ctx m ≡ some (ErrorCode.no_error, ctx'))
      × IsValid ctx'
      × (view ctx' ≡ post m' (view ctx))
unfolding view post
ipc_write-post mem ctx m m' ok v h e =
    let (run, valid) = ipc_write-queued mem ctx m m' ok v h e in
    (
      queued ctx m',
      run,
      valid,
      rw (seen-marked m'.fd ctx.cinfos ctx.pollfd) (
          ap
            (λ (o : Bag Message). record {
              joined = of_list (map seen (connections ctx));
              outgoing = o;
            })
            (snoc-insert ctx.tx.messages m')),
    )
