-- ===== src/Tests/Contexts.antt =====
-- Connections of a context.
use mathlib.Core.List.{Mem, mem-cons, not-mem-nil}
use mathlib.Core.HLevel.{⊥_prop}
use mathlib.Core.Logic.Or
use libipc_old.Prelude.{refl, pos, arith}
use libipc_old.Context.Valid.{fds}
use libipc_old.Context.Deletion.{Deletes, ipc_del-Deletes}
use libipc_old.Tests.Inputs.{plenty, two_clients, two_clients-IsValid}

ipc_del-Deletes_example : Deletes plenty two_clients 0
ipc_del-Deletes_example =
    ipc_del-Deletes plenty two_clients 0 refl refl refl two_clients-IsValid (omega arith)

not_polled : ¬ Mem (pos 9) (fds two_clients.pollfd)
not_polled h =
    Or.elim ⊥_prop (mem-cons.0 h) (λ e. cc)
      λ h. Or.elim ⊥_prop (mem-cons.0 h) (λ e. cc) λ h. not-mem-nil h
