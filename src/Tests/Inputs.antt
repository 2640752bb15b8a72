-- ===== src/Tests/Inputs.antt =====
-- Inputs that the tests share.
use libipc_old.Prelude.{
  ℕ, ◌≡◌, refl, pos, true, false, List, [], ◌∷◌, none, some, length, replicate, length-replicate,
}
use mathlib.Core.List.{Mem, mem-cons, mem-cons_self, mem-cons_of_mem, not-mem-nil}
use mathlib.Core.Logic.Or
use libipc_old.Types.{
  Message, Messages, PollFd, Switching, Switchings, Ctx, Alloc, zero_pollfd, zero_cinfo,
}
use libipc_old.Message.Wire.{Carries}
use libipc_old.Context.Valid.{IsValid}

-- Every allocation succeeds; none does.
abbrev pub plenty : Alloc
plenty site = true

abbrev pub nothing_left : Alloc
nothing_left site = false

-- "hi" for descriptor 4.
abbrev pub greeting : Message
greeting = record {
  type = 2;
  user_type = 7;
  fd = pos 4;
  length = 2;
  payload = some (104 ∷ 105 ∷ []);
}

pub greeting-Carries : Carries greeting (104 ∷ 105 ∷ [])
greeting-Carries = record { pointer = refl; counted = refl }

-- The bytes 1, 0, 2 for descriptor 5.
abbrev pub binary : Message
binary = record { type = 2; user_type = 0; fd = pos 5; length = 3; payload = some (1 ∷ 0 ∷ 2 ∷ []) }

pub binary-Carries : Carries binary (1 ∷ 0 ∷ 2 ∷ [])
binary-Carries = record { pointer = refl; counted = refl }

abbrev pub waiting : Messages
waiting = record { messages = greeting ∷ binary ∷ greeting ∷ []; size = 3 }

abbrev pub polled : ℕ → PollFd
polled n = record zero_pollfd { fd = pos n; wants_in = true }

abbrev pub two_clients : Ctx
two_clients = record {
  cinfos = zero_cinfo ∷ zero_cinfo ∷ [];
  pollfd = polled 4 ∷ polled 5 ∷ [];
  size = 2;
  tx = waiting;
  switchdb = record { collection = []; size = 0 };
}

in_two_clients : (m : Message) → Mem m waiting.messages → Mem m.fd (pos 4 ∷ pos 5 ∷ [])
in_two_clients m h =
    Or.elim squash₁ (mem-cons.0 h) (λ e. rw e mem-cons_self)
      λ h.
        Or.elim squash₁ (mem-cons.0 h) (λ e. rw e (mem-cons_of_mem (pos 4) mem-cons_self))
          λ h. Or.elim squash₁ (mem-cons.0 h) (λ e. rw e mem-cons_self) λ h. absurd (not-mem-nil h)

pub two_clients-IsValid : IsValid two_clients
two_clients-IsValid = record {
  infos = refl;
  polled = refl;
  queued = refl;
  targeted = in_two_clients;
}

abbrev pub link : ℕ → ℕ → ℕ → Switching
link a b c = record {
  orig = pos a;
  dest = pos b;
  orig_in = some c;
  orig_out = none;
  dest_in = none;
  dest_out = none;
}

abbrev pub links : Switchings
links = record { collection = link 4 5 1 ∷ link 6 7 2 ∷ link 8 9 3 ∷ []; size = 3 }

pub some_list : (n : ℕ) → (p : List ℕ) × (length p ≡ n)
some_list n = (replicate n 0, length-replicate n 0)
