-- ===== src/Relay/Callbacks.antt =====
-- `ipc_switching_callbacks_` (src/network.c), and what it makes of an end that can be written.
use libipc_old.Prelude.{
  ℕ, zero, suc, ◌+◌, ◌-◌, ◌≤◌, ◌<◌, ◌≡◌, refl, ap, ◌∙◌, inl, inr, ℤ, true, false, ◌==◌, List, [],
  ◌∷◌, Option, none, some, ◌>>=◌, arith, length, get_elem?, set, write_cell, ltb, lt→ltb,
  Bool-cases,
}
use libipc_old.Types.{PollFd, Message, Switching, Event, Ctx, Alloc}
use libipc_old.Env.{Env}
use libipc_old.Switching.{
  joins, find_switching, set_callbacks, ipc_switching_record, ipc_switching_callbacks,
  ipc_switching_callbacks_in,
}
use libipc_old.Relay.{input_of, output_of, next_message, call_out, fd_switching_write}

-- The record that a search finds, and where it is.
find_switching-set :
    (fd : ℤ) (n i k : ℕ) (cells : List Switching) (s s' : Switching)
    → find_switching fd n i cells ≡ some (some (k, s))
    → joins fd s' ≡ joins fd s
    → (i ≤ k)
      × (k < i + length cells)
      × (find_switching fd n i (set cells (k - i) s') ≡ some (some (k, s')))
unfolding find_switching
find_switching-set fd zero i k cells s s' e j = absurd (cc)
find_switching-set fd (suc n) i k [] s s' e j = absurd (cc)
find_switching-set fd (suc n) i k (c ∷ cells) s s' e j = elim (Bool-cases (joins fd c)) [
  | inl hit ↦
      let (same, same') = first (rw hit at e) in
      let joined : joins fd s' ≡ true = j ∙ rw same' at hit in
      let gap : k - i ≡ 0 = omega arith in
      (omega arith, omega arith, rw gap (rw joined (ap (λ m. some (some (m, s'))) same)))
  | inr miss ↦
      let (low, high, found) = find_switching-set fd n (i + 1) k cells s s' (rw miss at e) j in
      let gap : k - i ≡ suc (k - (i + 1)) = omega arith in
      (omega arith, omega arith, rw gap (rw miss found))
]
  where
    here : ℕ → Switching → Option (Option (ℕ × Switching))
    here m x = some (some (m, x))

    first : here i c ≡ here k s → (i ≡ k) × (c ≡ s)
    first h = (cc, cc)

joins-set_callbacks :
    (fd : ℤ) (cb_in cb_out : Option ℕ) (s : Switching)
    → joins fd (set_callbacks fd cb_in cb_out s) ≡ joins fd s
unfolding joins set_callbacks
joins-set_callbacks fd cb_in cb_out s = ground arith

callbacks-at :
    (fd : ℤ) (cb_in cb_out : Option ℕ) (s : Switching)
    → (input_of fd (set_callbacks fd cb_in cb_out s) ≡ cb_in)
      × (output_of fd (set_callbacks fd cb_in cb_out s) ≡ cb_out)
unfolding input_of output_of set_callbacks
callbacks-at fd cb_in cb_out s = (ground arith, ground arith)

-- The context once the callback is set.
with_callback :
    (ctx ctx' : Ctx) (fd : ℤ) (i n : ℕ) (s : Switching)
    → ipc_switching_record ctx.switchdb fd ≡ some (some (i, s))
    → ipc_switching_callbacks_in ctx fd (some n) ≡ some ctx'
    → (ctx'.pollfd ≡ ctx.pollfd)
      × (ctx'.tx ≡ ctx.tx)
      × (ctx'.switchdb.size ≡ ctx.switchdb.size)
      × (ipc_switching_record ctx'.switchdb fd ≡ some (some (i, set_callbacks fd (some n) none s)))
unfolding ipc_switching_callbacks_in ipc_switching_callbacks ipc_switching_record write_cell
with_callback ctx ctx' fd i n s found run =
    let new : Switching = set_callbacks fd (some n) none s in
    let (low, high, again) =
      find_switching-set fd ctx.switchdb.size 0 i ctx.switchdb.collection s new found
        (joins-set_callbacks fd (some n) none s) in
    let start : i - 0 ≡ i = omega arith in
    let inside : ltb i (length ctx.switchdb.collection) ≡ true =
      lt→ltb i (length ctx.switchdb.collection) (omega arith) in
    let made : some (record ctx {
      switchdb = record {
        collection = set ctx.switchdb.collection i new;
        size = ctx.switchdb.size;
      };
    })
        ≡ some ctx' =
      rw (found, inside) at run in
    of_made made (rw start at again) refl refl refl
  where
    of_made :
        {made : Ctx}
        → some made ≡ some ctx'
        → find_switching fd made.switchdb.size 0 made.switchdb.collection
          ≡ some (some (i, set_callbacks fd (some n) none s))
        → made.pollfd ≡ ctx.pollfd
        → made.tx ≡ ctx.tx
        → made.switchdb.size ≡ ctx.switchdb.size
        → (ctx'.pollfd ≡ ctx.pollfd)
          × (ctx'.tx ≡ ctx.tx)
          × (ctx'.switchdb.size ≡ ctx.switchdb.size)
          × (ipc_switching_record ctx'.switchdb fd
              ≡ some (some (i, set_callbacks fd (some n) none s)))
    of_made {made = made} e a b c d = let same : made ≡ ctx' = cc in rw (← same) (b, c, d, a)

module _ {W : Type 0} (env : Env W) where
  -- Once `ipc_switching_callbacks_` has set a callback for the input of an end of a pair, and none for its
  -- output, and that end can be written, `fd_switching_write` calls through a null pointer, whatever
  -- message waits for it.
  pub fd_switching_write-no_output :
      (mem : Alloc) (event : Event) (ctx ctx' : Ctx) (index i n : ℕ) (p : PollFd) (s : Switching)
      (next : Option (ℕ × Message)) (w : W)
      → 0 < ctx.switchdb.size
      → get_elem? ctx.pollfd index ≡ some p
      → next_message env ctx p.fd ≡ some next
      → ipc_switching_record ctx.switchdb p.fd ≡ some (some (i, s))
      → ipc_switching_callbacks_in ctx p.fd (some n) ≡ some ctx'
      → fd_switching_write env mem event ctx' index w ≡ none
  unfolding fd_switching_write call_out next_message
  fd_switching_write-no_output mem event ctx ctx' index i n p s next w some_pair at queue found
        set_in =
      let (cells, tx, size, again) = with_callback ctx ctx' p.fd i n s found set_in in
      let pairs : (ctx'.switchdb.size == 0) ≡ false = ground (arith, size) in
      let (inp, out) = callbacks-at p.fd (some n) none s in
      rw (pairs, cells, at, tx) (rw (queue, ◌>>=◌, again, ◌>>=◌, inp, out) refl)
