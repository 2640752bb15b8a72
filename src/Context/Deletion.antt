-- ===== src/Context/Deletion.antt =====
-- What `ipc_del` and `ipc_del_fd` (src/communication.c) do to a valid context.
use mathlib.Core.List.{mem-filter, mem-cons, not-mem-nil, mem-cons_self}
use mathlib.Core.List.Perm
use mathlib.Core.Logic.Or
use libipc_old.Prelude.{
  ◌⊎◌, inl, inr, ℕ, zero, suc, ◌+◌, ◌-◌, ◌<◌, ◌≡◌, refl, sym, ap, subst, =ℤ_iff, true, false, List,
  [], ◌∷◌, ◌++◌, Perm, none, some, arith, length, length-append, lt→leb, is_null, set-middle,
  get_elem?, get_elem?-middle, move_last-split, removed-perm, front, zip_cells, zip_cells-append,
  zip_cells-front, length-front, at_split_both, nil_of_length,
}
use libipc_old.Errors.{ErrorCode}
use libipc_old.Types.{
  ConnectionInfo, PollFd, Message, Messages, Switchings, Ctx, Alloc, Site, zero_ctx,
}
use libipc_old.Tx.Valid as Tx
use libipc_old.Tx.Removal.{others, ipc_remove_messages_for_fd-others}
use libipc_old.Context.{close_gap, delete_at, ipc_del, ipc_ctx_free}
use libipc_old.Context.Valid.{IsValid, IsTargeted, connections}

-- What a deletion of the connection `(info, pfd)` leaves.
pub record Deleted (ctx : Ctx) (info : ConnectionInfo) (pfd : PollFd) (ctx' : Ctx) : Type 0 where
  pub valid : IsValid ctx'
  pub rest : Perm (connections ctx) ((info, pfd) ∷ connections ctx')
  pub queue : Perm ctx'.tx.messages (others pfd.fd ctx.tx.messages)
  -- The pairs go with the last connection only.
  pub pairs :
      ((0 < ctx'.size) × (ctx'.switchdb ≡ ctx.switchdb))
      ⊎ ((ctx'.size ≡ 0) × (ctx'.switchdb ≡ zero_ctx.switchdb))

pub others-IsTargeted :
    (pfd : PollFd) (all rest : List PollFd) (ms : List Message)
    → IsTargeted all ms
    → Perm all (pfd ∷ rest)
    → IsTargeted rest (others pfd.fd ms)
others-IsTargeted pfd all rest ms t p m h =
    let (old, miss) = (mem-filter _).0 h in
    Or.elim squash₁ (mem-cons.0 (Perm.subset (Perm.map (λ (q : PollFd). q.fd) p) m.fd (t m old)))
      (λ e. absurd (cc ((=ℤ_iff m.fd pfd.fd).1 e, miss))) (λ r. r)

zip_cells-removed {ℓ κ} :
    {A : Type ℓ} {B : Type κ} (pre : List A) (x : A) (r : List A) (pre' : List B) (y : B)
    (r' : List B)
    → length pre ≡ length pre'
    → length r ≡ length r'
    → Perm
        (zip_cells (pre ++ (x ∷ r)) (pre' ++ (y ∷ r')))
        ((x, y) ∷ zip_cells (pre ++ front r) (pre' ++ front r'))
zip_cells-removed pre x r pre' y r' h k =
    rw
      (
        zip_cells-append pre (x ∷ r) pre' (y ∷ r') h,
        zip_cells-append pre (front r) pre' (front r') h,
        zip_cells-front r r' k,
      )
      (removed-perm (zip_cells pre pre') (x, y) (zip_cells r r'))

pub nil_of_untargeted : (ms : List Message) → IsTargeted [] ms → ms ≡ []
nil_of_untargeted [] t = refl
nil_of_untargeted (m ∷ ms) t = absurd (not-mem-nil (t m mem-cons_self))

abbrev context : List ConnectionInfo → List PollFd → Messages → Switchings → ℕ → Ctx
context infos pollfd tx db n = record {
  cinfos = infos;
  pollfd = pollfd;
  size = n;
  tx = tx;
  switchdb = db;
}

is_null-middle {ℓ} :
    {A : Type ℓ} (pre : List A) (x : A) (r : List A) → is_null (pre ++ (x ∷ r)) ≡ false
is_null-middle [] x r = refl
is_null-middle (p ∷ pre) x r = refl

-- Two arrays split at the same index, and what is left of them.
module _ (pre : List ConnectionInfo) (c : ConnectionInfo) (r : List ConnectionInfo)
    (pre' : List PollFd) (q : PollFd) (r' : List PollFd) (tx tx' : Messages) (db : Switchings)
    (before : length pre ≡ length pre') (behind : length r ≡ length r')
    (targeted : IsTargeted (pre' ++ (q ∷ r')) tx.messages) (valid : Tx.IsValid tx')
    (queue : Perm tx'.messages (others q.fd tx.messages)) where
  rest-IsTargeted : IsTargeted (pre' ++ front r') tx'.messages
  rest-IsTargeted m h =
      others-IsTargeted q (pre' ++ (q ∷ r')) (pre' ++ front r') tx.messages targeted
        (removed-perm pre' q r') m (Perm.subset queue m h)

  close_gap-Deleted :
      (mem : Alloc) (c' : ConnectionInfo) (n : ℕ)
      → mem Site.cinfos ≡ true
      → mem Site.pollfd ≡ true
      → length pre + length r ≡ n
      → (ctx' : Ctx) × (close_gap mem
            (context (pre ++ (c' ∷ r)) (pre' ++ (q ∷ r')) tx' db (suc n))
            (length pre)
            n
          ≡ some (ErrorCode.no_error, ctx'))
        × Deleted (context (pre ++ (c ∷ r)) (pre' ++ (q ∷ r')) tx db (suc n)) c q ctx'
  unfolding close_gap ipc_ctx_free
  close_gap-Deleted mem c' zero a b h =
      let no_infos : pre ++ front r ≡ [] =
        nil_of_length _ (omega (arith, length-append pre (front r), length-front r)) in
      let no_fds : pre' ++ front r' ≡ [] =
        nil_of_length _ (omega (arith, length-append pre' (front r'), length-front r')) in
      let no_messages : tx'.messages ≡ [] =
        nil_of_untargeted tx'.messages (rw no_fds at rest-IsTargeted) in
      (
        record {
          cinfos = [];
          pollfd = [];
          size = 0;
          tx = record tx' { messages = [] };
          switchdb = record { collection = []; size = 0 };
        },
        refl,
        record {
          valid = record {
            infos = refl;
            polled = refl;
            queued = omega (arith, ap length no_messages);
            targeted = λ m k. absurd (not-mem-nil k);
          };
          rest = rw no_infos at (zip_cells-removed pre c r pre' q r' before behind);
          queue = rw no_messages at queue;
          pairs = inr (refl, refl);
        },
      )
  close_gap-Deleted mem c' (suc n) a b h = (
    record {
      cinfos = pre ++ front r;
      pollfd = pre' ++ front r';
      size = suc n;
      tx = tx';
      switchdb = db;
    },
    rw (
      move_last-split pre c' r (length pre) (suc n) refl h,
      move_last-split pre' q r' (length pre) (suc n) (sym before) (omega arith),
      a,
      b,
    ),
    record {
      valid = record {
        infos = omega (arith, length-append pre (front r), length-front r);
        polled = omega (arith, length-append pre' (front r'), length-front r');
        queued = valid;
        targeted = rest-IsTargeted;
      };
      rest = zip_cells-removed pre c r pre' q r' before behind;
      queue = queue;
      pairs = inl (omega arith, refl);
    },
  )

-- That `ipc_del` at the index succeeds, and deletes the connection there.
abbrev pub Deletes : Alloc → Ctx → ℕ → Type 0
Deletes mem ctx index =
    (info : ConnectionInfo) × (pfd : PollFd) × (ctx' : Ctx) × (get_elem? ctx.cinfos index
      ≡ some info)
    × (get_elem? ctx.pollfd index ≡ some pfd)
    × (ipc_del mem (some ctx) index ≡ some (ErrorCode.no_error, some ctx'))
    × Deleted ctx info pfd ctx'

ipc_del-split :
    (mem : Alloc) (pre : List ConnectionInfo) (c : ConnectionInfo) (r : List ConnectionInfo)
    (pre' : List PollFd) (q : PollFd) (r' : List PollFd) (tx : Messages) (db : Switchings) (n : ℕ)
    → mem Site.cinfos ≡ true
    → mem Site.pollfd ≡ true
    → mem Site.messages ≡ true
    → length pre ≡ length pre'
    → length r ≡ length r'
    → length pre + length r ≡ n
    → IsValid (context (pre ++ (c ∷ r)) (pre' ++ (q ∷ r')) tx db (suc n))
    → Deletes mem (context (pre ++ (c ∷ r)) (pre' ++ (q ∷ r')) tx db (suc n)) (length pre)
unfolding ipc_del delete_at
ipc_del-split mem pre c r pre' q r' tx db n a b d before behind h v =
    let (tx', removed, valid, queue) = ipc_remove_messages_for_fd-others mem tx q.fd d v.queued in
    let (ctx', closed, done) =
      close_gap-Deleted pre c r pre' q r' tx tx' db before behind v.targeted valid queue mem
        (record c { spath = none }) n a b h in
    let last : suc n - 1 ≡ n = omega arith in
    (
      c,
      q,
      ctx',
      get_elem?-middle pre c r (length pre) refl,
      get_elem?-middle pre' q r' (length pre) (sym before),
      rw (
        is_null-middle pre c r,
        is_null-middle pre' q r',
        get_elem?-middle pre c r (length pre) refl,
        get_elem?-middle pre' q r' (length pre) (sym before),
        set-middle pre c (record c { spath = none }) r (length pre) refl,
        lt→leb (suc n) (length pre) (omega arith),
        removed,
        last,
        closed,
      ),
      done,
    )

-- With memory, `ipc_del` at an index of a valid context deletes the pair of cells there. The other
-- connections and the messages for other descriptors stay, in some order, the messages for the
-- descriptor go, the pairs stay, or go with the last connection, and the context is valid.
pub ipc_del-Deletes :
    (mem : Alloc) (ctx : Ctx) (index : ℕ)
    → mem Site.cinfos ≡ true
    → mem Site.pollfd ≡ true
    → mem Site.messages ≡ true
    → IsValid ctx
    → index < ctx.size
    → Deletes mem ctx index
ipc_del-Deletes mem ctx index a b d v h =
    at_split_both
      (λ l k i.
        IsValid (context l k ctx.tx ctx.switchdb ctx.size)
        → Deletes mem (context l k ctx.tx ctx.switchdb ctx.size) i)
      ctx.cinfos ctx.pollfd index (omega (arith, v.infos)) (omega (arith, v.infos, v.polled)) split
      v
  where
    split :
        (pre : List ConnectionInfo) (c : ConnectionInfo) (r : List ConnectionInfo)
        (pre' : List PollFd) (q : PollFd) (r' : List PollFd)
        → length pre ≡ length pre'
        → length r ≡ length r'
        → IsValid (context (pre ++ (c ∷ r)) (pre' ++ (q ∷ r')) ctx.tx ctx.switchdb ctx.size)
        → Deletes mem
            (context (pre ++ (c ∷ r)) (pre' ++ (q ∷ r')) ctx.tx ctx.switchdb ctx.size)
            (length pre)
    split pre c r pre' q r' before behind w =
        let size : ctx.size ≡ suc (length pre + length r) =
          omega (arith, w.infos, length-append pre (c ∷ r)) in
        subst
          (λ n.
            IsValid (context (pre ++ (c ∷ r)) (pre' ++ (q ∷ r')) ctx.tx ctx.switchdb n)
            → Deletes mem (context (pre ++ (c ∷ r)) (pre' ++ (q ∷ r')) ctx.tx ctx.switchdb n)
                (length pre))
          (sym size)
          (ipc_del-split mem pre c r pre' q r' ctx.tx ctx.switchdb (length pre + length r) a b d
            before behind refl)
          w
