-- ===== src/Switching.antt =====
-- Pairs of switched descriptors (`struct ipc_switchings`): src/network.c, without the input and
-- output. Where the C code ends the process for lack of memory the model has a fault.
pub mod Pairs
pub mod Removal
pub mod Ends
use libipc_old.Prelude.{
  ℕ, zero, suc, ◌+◌, ◌-◌, ℤ, ◌=ℤ◌, minus_one, Bool, true, false, ◌||◌, List, [], ◌∷◌, Option, none,
  some, ◌>>=◌, ◌==◌, if◌then◌else◌, get_elem?, set, take, store_last, write_cell,
}
use libipc_old.Types.{Switching, Switchings, Ctx, Alloc, Site}

abbrev pub new_switching : ℤ → ℤ → Switching
new_switching orig dest = record {
  orig = orig;
  dest = dest;
  orig_in = none;
  orig_out = none;
  dest_in = none;
  dest_out = none;
}

unfoldable pub ipc_switching_add : Alloc → Switchings → ℤ → ℤ → Option Switchings
ipc_switching_add mem sw orig dest =
    if mem Site.collection
    then (store_last sw.collection sw.size (new_switching orig dest) >>= λ cells.
        some (record { collection = cells; size = sw.size + 1 }))
    else none

unfoldable pub ipc_ctx_switching_add : Alloc → Ctx → ℤ → ℤ → Option Ctx
ipc_ctx_switching_add mem ctx orig dest =
    ipc_switching_add mem ctx.switchdb orig dest >>= λ db. some (record ctx { switchdb = db })

-- `collection[i].orig == fd || collection[i].dest == fd`
unfoldable pub joins : ℤ → Switching → Bool
joins fd s = (s.orig =ℤ fd) || (s.dest =ℤ fd)

-- The end that is not `fd`.
unfoldable pub other_end : ℤ → Switching → ℤ
other_end fd s = if s.orig =ℤ fd then s.dest else s.orig

-- The loops that look for a descriptor's record, with `rounds` cells left from index `i` on.
unfoldable pub find_switching : ℤ → ℕ → ℕ → List Switching → Option (Option (ℕ × Switching))
find_switching fd zero i cells = some none
find_switching fd (suc rounds) i [] = none
find_switching fd (suc rounds) i (s ∷ ss) =
    if joins fd s then some (some (i, s)) else find_switching fd rounds (i + 1) ss

-- The removal of the record at an index, with `n + 1` records: only the two ends of the last record
-- are copied into it.
unfoldable pub remove_switching : Alloc → Switchings → ℕ → Switching → ℕ → Option Switchings
remove_switching mem sw i s n = get_elem? sw.collection n >>= λ last.
    write_cell sw.collection i (record s { orig = last.orig; dest = last.dest }) >>= λ cells.
    some (record {
      collection = if n == 0 then [] else if mem Site.collection then take n cells else [];
      size = n;
    })

-- The other end of the removed pair, or -1.
unfoldable pub ipc_switching_del : Alloc → Switchings → ℤ → Option (ℤ × Switchings)
ipc_switching_del mem sw fd = find_switching fd sw.size 0 sw.collection >>= λ found. elim found [
  | none ↦ some (minus_one, sw)
  | some (i, s) ↦ remove_switching mem sw i s (sw.size - 1) >>= λ sw'. some (other_end fd s, sw')
]

unfoldable pub ipc_ctx_switching_del : Alloc → Ctx → ℤ → Option (ℤ × Ctx)
ipc_ctx_switching_del mem ctx fd =
    ipc_switching_del mem ctx.switchdb fd >>= λ (ret, db). some (ret, record ctx { switchdb = db })

-- The record's index, the record, and whether the descriptor is its origin (the answer 0) or not
-- (the answer 1); no record is the answer -1.
unfoldable pub ipc_switching_record : Switchings → ℤ → Option (Option (ℕ × Switching))
ipc_switching_record sw fd = find_switching fd sw.size 0 sw.collection

unfoldable pub ipc_switching_get : Switchings → ℤ → Option ℤ
ipc_switching_get sw fd = find_switching fd sw.size 0 sw.collection >>= λ found. elim found [
  | none ↦ some minus_one
  | some (i, s) ↦ some (other_end fd s)
]

unfoldable pub set_callbacks : ℤ → Option ℕ → Option ℕ → Switching → Switching
set_callbacks fd cb_in cb_out s =
    if s.orig =ℤ fd
    then record s { orig_in = cb_in; orig_out = cb_out }
    else record s { dest_in = cb_in; dest_out = cb_out }

unfoldable pub ipc_switching_callbacks : Ctx → ℤ → Option ℕ → Option ℕ → Option Ctx
ipc_switching_callbacks ctx fd cb_in cb_out = ipc_switching_record ctx.switchdb fd >>= λ found.
    elim found [
      | none ↦ some ctx
      | some (i, s) ↦
          write_cell ctx.switchdb.collection i (set_callbacks fd cb_in cb_out s) >>= λ cells.
          some (record ctx { switchdb = record { collection = cells; size = ctx.switchdb.size } })
    ]

-- `ipc_switching_callbacks_`: no callback for output.
unfoldable pub ipc_switching_callbacks_in : Ctx → ℤ → Option ℕ → Option Ctx
ipc_switching_callbacks_in ctx fd cb_in = ipc_switching_callbacks ctx fd cb_in none
