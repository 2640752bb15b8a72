-- ===== src/Tx/Removal.antt =====
-- `ipc_remove_messages_for_fd` (src/communication.c) against a filter.
use mathlib.Core.Bool.{false≢true}
use mathlib.Core.List.Perm
use libipc_old.Prelude.{
  ℕ, zero, suc, ◌≡◌, refl, sym, ap, ◌∙◌, inl, inr, ℤ, ◌=ℤ◌, Bool, true, false, List, [], ◌∷◌, ◌++◌,
  Perm, filter, some, ◌>>=◌, arith, length, length-append, front, front-perm, length-front,
  get_elem?-middle, Bool-cases, append_assoc,
}
use libipc_old.Types.{Message, Messages, Alloc, Site}
use libipc_old.Tx.{remove_from, ipc_remove_messages_for_fd}
use libipc_old.Tx.Valid.{IsValid, of_list, eq_of_list, drop_message-split}

abbrev pub dec_false : (b : Bool) → Dec (b ≡ false)
dec_false true = no (λ h. false≢true (sym h))
dec_false false = yes refl

-- The messages that are not for `fd`, in order.
abbrev pub others : ℤ → List Message → List Message
others fd = filter (λ m. dec_false (m.fd =ℤ fd))

pub others-perm : (fd : ℤ) {xs ys : List Message} → Perm xs ys → Perm (others fd xs) (others fd ys)
others-perm fd = Perm.filter (λ m. dec_false (m.fd =ℤ fd))

pub others-hit :
    (fd : ℤ) (m : Message) (r : List Message)
    → (m.fd =ℤ fd) ≡ true
    → others fd (m ∷ r) ≡ others fd r
others-hit fd m r e = rw e

pub others-miss :
    (fd : ℤ) (m : Message) (r : List Message)
    → (m.fd =ℤ fd) ≡ false
    → others fd (m ∷ r) ≡ m ∷ others fd r
others-miss fd m r e = rw e

remove_from-hit :
    (mem : Alloc) (fd : ℤ) (n : ℕ) (pre : List Message) (m : Message) (r : List Message)
    → mem Site.messages ≡ true
    → (m.fd =ℤ fd) ≡ true
    → remove_from mem fd (suc n) (length pre) (of_list (pre ++ (m ∷ r)))
      ≡ remove_from mem fd n (length pre) (of_list (pre ++ front r))
unfolding remove_from
remove_from-hit mem fd n pre m r ok e =
    rw (get_elem?-middle pre m r (length pre) refl, ◌>>=◌, e, drop_message-split mem pre m r ok)

remove_from-miss :
    (mem : Alloc) (fd : ℤ) (n : ℕ) (pre : List Message) (m : Message) (r : List Message)
    → (m.fd =ℤ fd) ≡ false
    → remove_from mem fd (suc n) (length pre) (of_list (pre ++ (m ∷ r)))
      ≡ remove_from mem fd n (length (pre ++ m ∷ [])) (of_list ((pre ++ m ∷ []) ++ r))
unfolding remove_from
remove_from-miss mem fd n pre m r e =
    rw (
      get_elem?-middle pre m r (length pre) refl,
      ◌>>=◌,
      e,
      append_assoc,
      length-append pre (m ∷ []),
    )

-- The loop, started behind `pre` with the messages `r` left, keeps `pre` and the others of `r`.
remove_from_lem :
    (mem : Alloc) (fd : ℤ) (n : ℕ) (pre r : List Message)
    → mem Site.messages ≡ true
    → length r ≡ n
    → (out : List Message) × (remove_from mem fd n (length pre) (of_list (pre ++ r))
        ≡ some (of_list (pre ++ out)))
      × Perm out (others fd r)
unfolding remove_from
remove_from_lem mem fd zero pre [] ok h = ([], refl, Perm.refl [])
remove_from_lem mem fd zero pre (m ∷ r) ok h = absurd (omega arith)
remove_from_lem mem fd (suc n) pre [] ok h = absurd (omega arith)
remove_from_lem mem fd (suc n) pre (m ∷ r) ok h = elim (Bool-cases (m.fd =ℤ fd)) [
  | inl e ↦
      let (out, run, p) =
        remove_from_lem mem fd n pre (front r) ok (omega (arith, length-front r)) in
      (
        out,
        remove_from-hit mem fd n pre m r ok e ∙ run,
        rw (others-hit fd m r e) (Perm.trans p (others-perm fd (front-perm r))),
      )
  | inr e ↦
      let (out, run, p) = remove_from_lem mem fd n (pre ++ m ∷ []) r ok (omega arith) in
      (
        m ∷ out,
        remove_from-miss mem fd n pre m r e ∙ run ∙ rw append_assoc,
        rw (others-miss fd m r e) (Perm.cons m p),
      )
]

-- Removing a descriptor's messages from a valid list ends without a fault, and leaves exactly the
-- messages for other descriptors, each as often as before, in a valid list.
pub ipc_remove_messages_for_fd-others :
    (mem : Alloc) (tx : Messages) (fd : ℤ)
    → mem Site.messages ≡ true
    → IsValid tx
    → (tx' : Messages) × (ipc_remove_messages_for_fd mem tx fd ≡ some tx')
      × IsValid tx'
      × Perm tx'.messages (others fd tx.messages)
unfolding ipc_remove_messages_for_fd
ipc_remove_messages_for_fd-others mem tx fd ok v =
    let (out, run, p) = remove_from_lem mem fd tx.size [] tx.messages ok v in
    (of_list out, ap (λ t. remove_from mem fd tx.size 0 t) (eq_of_list tx v) ∙ run, refl, p)
