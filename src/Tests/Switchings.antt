-- ===== src/Tests/Switchings.antt =====
-- Pairs of switched descriptors.
use libipc_old.Prelude.{◌≡◌, refl, ℤ, pos, ◌=ℤ◌, [], ◌∷◌, some}
use libipc_old.Types.{Switchings}
use libipc_old.Switching.{joins, other_end, ipc_switching_del}
use libipc_old.Switching.Pairs.{knows}
use libipc_old.Switching.Removal.{table, ipc_switching_del-moved}
use libipc_old.Switching.Ends.{Unpaired, ipc_switching_del-Unpaired}
use libipc_old.Tests.Inputs.{plenty, link, links}

-- The pair of 8 and 9 ends up with callback 1, which was set for descriptor 4.
ipc_switching_del-moved_example :
    ipc_switching_del plenty links (pos 4) ≡ some (pos 5, table (link 8 9 1 ∷ link 6 7 2 ∷ []))
unfolding joins ◌=ℤ◌ other_end knows
ipc_switching_del-moved_example =
    ipc_switching_del-moved plenty [] (link 4 5 1) (link 6 7 2 ∷ []) (link 8 9 3) (pos 4) refl refl
      refl

ipc_switching_del-Unpaired_example :
    (ret : ℤ) × (sw' : Switchings) × (ipc_switching_del plenty links (pos 7) ≡ some (ret, sw'))
    × Unpaired (pos 7) links.collection ret sw'
unfolding knows joins ◌=ℤ◌
ipc_switching_del-Unpaired_example = ipc_switching_del-Unpaired plenty links (pos 7) refl refl refl
