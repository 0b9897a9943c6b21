-- ===== src/Mailbox/Run/Order.antt =====
-- The order in which messages are handled.
use mathlib.Core.List.{Perm}
use mathlib.Core.List.Perm
use claim_automation_cloud.Prelude.{
  ℕ, ◌≤◌, inl, inr, List, [], ◌∷◌, leb, arith, Bool-cases, leb→le, All,
}
use claim_automation_cloud.Claim.Message.{Message}
use claim_automation_cloud.Mailbox.Run.{insert, sort_by_date}

-- Every message is at least as old as those behind it.
abbrev pub IsChronological : List Message → Type 0
IsChronological [] = Unit
IsChronological (m ∷ ms) =
    All (λ (n : Message). m.internal_date ≤ n.internal_date) ms × IsChronological ms

insert-perm : (m : Message) (ms : List Message) → Perm (insert m ms) (m ∷ ms)
unfolding insert
insert-perm m [] = Perm.refl (m ∷ [])
insert-perm m (n ∷ ns) = elim (Bool-cases (leb m.internal_date n.internal_date)) [
  | inl first ↦ rw first (Perm.refl (m ∷ n ∷ ns))
  | inr later ↦ rw later (Perm.trans (Perm.cons n (insert-perm m ns)) (Perm.swap m n ns))
]

All-insert :
    (d : ℕ) (m : Message) (ms : List Message)
    → d ≤ m.internal_date
    → All (λ (n : Message). d ≤ n.internal_date) ms
    → All (λ (n : Message). d ≤ n.internal_date) (insert m ms)
unfolding insert
All-insert d m [] h hs = (h, tt)
All-insert d m (n ∷ ns) h hs = elim (Bool-cases (leb m.internal_date n.internal_date)) [
  | inl first ↦ rw first (h, hs)
  | inr later ↦ rw later (hs.0, All-insert d m ns h hs.1)
]

All-older :
    (d e : ℕ) (ms : List Message)
    → d ≤ e
    → All (λ (n : Message). e ≤ n.internal_date) ms
    → All (λ (n : Message). d ≤ n.internal_date) ms
All-older d e [] h hs = tt
All-older d e (n ∷ ns) h hs = (omega (arith, hs.0), All-older d e ns h hs.1)

insert-IsChronological :
    (m : Message) (ms : List Message) → IsChronological ms → IsChronological (insert m ms)
unfolding insert
insert-IsChronological m [] h = (tt, tt)
insert-IsChronological m (n ∷ ns) h = elim (Bool-cases (leb m.internal_date n.internal_date)) [
  | inl first ↦
      rw first
        ((leb→le _ _ first, All-older m.internal_date n.internal_date ns (leb→le _ _ first) h.0), h)
  | inr later ↦
      rw later (
        All-insert n.internal_date m ns (ground (arith, later)) h.0,
        insert-IsChronological m ns h.1,
      )
]

-- Sorting loses no message, adds none and repeats none.
sort_by_date-perm : (ms : List Message) → Perm (sort_by_date ms) ms
unfolding sort_by_date
sort_by_date-perm [] = Perm.refl []
sort_by_date-perm (m ∷ ms) =
    Perm.trans (insert-perm m (sort_by_date ms)) (Perm.cons m (sort_by_date-perm ms))

-- The sorted messages are in chronological order.
pub sort_by_date-IsChronological : (ms : List Message) → IsChronological (sort_by_date ms)
unfolding sort_by_date
sort_by_date-IsChronological [] = tt
sort_by_date-IsChronological (m ∷ ms) =
    insert-IsChronological m (sort_by_date ms) (sort_by_date-IsChronological ms)

abbrev pub IsSortOf : List Message → List Message → Type 0
IsSortOf ns ms = Perm ns ms × IsChronological ns

-- Sorting loses no message, adds none and repeats none, and the result is in chronological order.
pub sort_by_date-IsSortOf : (ms : List Message) → IsSortOf (sort_by_date ms) ms
sort_by_date-IsSortOf ms = (sort_by_date-perm ms, sort_by_date-IsChronological ms)
