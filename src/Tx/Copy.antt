-- ===== src/Tx/Copy.antt =====
-- The deep copy that `ipc_messages_add` (src/message.c) takes of a message: `strncpy` on a payload.
use libipc_old.Prelude.{
  ℕ, zero, suc, ◌<◌, ◌≡◌, refl, ◌∙◌, true, List, [], ◌∷◌, ◌++◌, some, arith, length, length-append,
  replicate, lt→ltb,
}
use libipc_old.Errors.{ErrorCode}
use libipc_old.Types.{Message, Messages, Alloc, Site}
use libipc_old.Message.Wire.{Carries}
use libipc_old.Tx.{strncpy, deep_copy, ipc_messages_add}
use libipc_old.Tx.Valid.{IsValid, of_list, ipc_messages_add_lem}

-- No byte is 0.
abbrev pub IsText : List ℕ → Type 0
IsText [] = Unit {0}
IsText (c ∷ cs) = (0 < c) × IsText cs

strncpy-text : (p : List ℕ) → IsText p → strncpy (length p) p ≡ some p
unfolding strncpy
strncpy-text [] t = refl
strncpy-text (zero ∷ p) t = absurd (omega arith)
strncpy-text (suc c ∷ p) t = rw (strncpy-text p t.1)

strncpy-nul :
    (a b : List ℕ)
    → IsText a
    → strncpy (length (a ++ (0 ∷ b))) (a ++ (0 ∷ b)) ≡ some (a ++ replicate (suc (length b)) 0)
unfolding strncpy
strncpy-nul [] b t = refl
strncpy-nul (zero ∷ a) b t = absurd (omega arith)
strncpy-nul (suc c ∷ a) b t = rw (strncpy-nul a b t.1)

deep_copy-strncpy :
    (mem : Alloc) (m : Message) (p q : List ℕ)
    → mem Site.payload ≡ true
    → Carries m p
    → 0 < length p
    → strncpy (length p) p ≡ some q
    → deep_copy mem m ≡ some (record m { payload = some q })
unfolding deep_copy
deep_copy-strncpy mem m p q ok c h e =
    rw (c.pointer, deep_copy, c.counted, lt→ltb 0 (length p) h, ok, e) (ground (arith, c.counted))

pub deep_copy-text :
    (mem : Alloc) (m : Message) (p : List ℕ)
    → mem Site.payload ≡ true
    → Carries m p
    → 0 < length p
    → IsText p
    → deep_copy mem m ≡ some m
deep_copy-text mem m p ok c h t =
    deep_copy-strncpy mem m p p ok c h (strncpy-text p t) ∙ ground (arith, c.pointer)

-- Queueing a message whose payload holds no NUL byte appends that very message.
pub ipc_messages_add-text :
    (mem : Alloc) (ms : Messages) (m : Message) (p : List ℕ)
    → mem Site.payload ≡ true
    → mem Site.messages ≡ true
    → IsValid ms
    → Carries m p
    → 0 < length p
    → IsText p
    → ipc_messages_add mem (some ms) (some m)
      ≡ some (ErrorCode.no_error, some (of_list (ms.messages ++ m ∷ [])))
ipc_messages_add-text mem ms m p ok ok' v c h t =
    ipc_messages_add_lem mem ms m m ok' v (deep_copy-text mem m p ok c h t)

-- A payload with a NUL byte is queued with its length, and with zeros for all that follows the
-- first NUL.
pub ipc_messages_add-nul :
    (mem : Alloc) (ms : Messages) (m : Message) (a b : List ℕ)
    → mem Site.payload ≡ true
    → mem Site.messages ≡ true
    → IsValid ms
    → Carries m (a ++ (0 ∷ b))
    → IsText a
    → ipc_messages_add mem (some ms) (some m)
      ≡ some (
        ErrorCode.no_error,
        some (
            of_list (
              ms.messages ++ record m { payload = some (a ++ replicate (suc (length b)) 0) } ∷ [])),
      )
ipc_messages_add-nul mem ms m a b ok ok' v c t = ipc_messages_add_lem mem ms m _ ok' v (
    deep_copy-strncpy mem m (a ++ (0 ∷ b)) _ ok c (omega (arith, length-append a (0 ∷ b)))
      (strncpy-nul a b t))
