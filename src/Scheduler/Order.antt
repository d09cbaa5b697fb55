-- ===== src/Scheduler/Order.antt =====
-- `operator<` of PacketPriority.hpp as an order, and lemmas on the choice of the top.
use mathlib.Core.List.{Perm}
use mathlib.Core.List.Perm
use barren_engine.Common.{
  ◌≤◌, ◌<◌, ◌≡◌, refl, sym, subst, ◌⊎◌, inl, inr, true, false, List, [], ◌∷◌, All, arith,
  Bool-cases,
}
use native.Mathlib.Nat.{le_refl}
use barren_engine.Scheduler.{PrioritizedPacket, rank, less, extract_top}

-- `p` is to be sent no later than `q`: a lower rank, or the same rank and no later deadline.
abbrev pub Precedes : PrioritizedPacket → PrioritizedPacket → Type 0
Precedes p q =
    (rank p.metadata.priority < rank q.metadata.priority)
    ⊎ ((rank p.metadata.priority ≡ rank q.metadata.priority)
        × (p.metadata.deadline ≤ q.metadata.deadline))

less-Precedes : (p q : PrioritizedPacket) → less p q ≡ true → Precedes q p
unfolding less
less-Precedes p q h = ground arith

not-less-Precedes : (p q : PrioritizedPacket) → less p q ≡ false → Precedes p q
unfolding less
not-less-Precedes p q h = ground arith

Precedes-trans : (p q r : PrioritizedPacket) → Precedes p q → Precedes q r → Precedes p r
Precedes-trans p q r h k = ground arith

All-Precedes :
    (p q : PrioritizedPacket) (xs : List PrioritizedPacket)
    → Precedes p q
    → All (Precedes q) xs
    → All (Precedes p) xs
All-Precedes p q [] h k = tt
All-Precedes p q (x ∷ xs) h k = (Precedes-trans p q x h k.0, All-Precedes p q xs h k.1)

extract_top-less :
    (best p : PrioritizedPacket) (ps : List PrioritizedPacket)
    → less best p ≡ true
    → extract_top best (p ∷ ps) ≡ ((extract_top p ps).0, best ∷ (extract_top p ps).1)
unfolding extract_top
extract_top-less best p ps l = rw l

extract_top_not_less :
    (best p : PrioritizedPacket) (ps : List PrioritizedPacket)
    → less best p ≡ false
    → extract_top best (p ∷ ps) ≡ ((extract_top best ps).0, p ∷ (extract_top best ps).1)
unfolding extract_top
extract_top_not_less best p ps l = rw l

-- The top precedes the packet that the search started from, and all that are left.
abbrev Leads : PrioritizedPacket → PrioritizedPacket × List PrioritizedPacket → Type 0
Leads best (top, rest) = Precedes top best × All (Precedes top) rest

extract_top-Leads :
    (best : PrioritizedPacket) (ps : List PrioritizedPacket) → Leads best (extract_top best ps)
extract_top-Leads best [] = unfold extract_top in (inr (refl, le_refl _), tt)
extract_top-Leads best (p ∷ ps) = elim (Bool-cases (less best p)) [
  | inl l ↦
      let (h, k) = extract_top-Leads p ps in
      let before = Precedes-trans (extract_top p ps).0 p best h (less-Precedes best p l) in
      subst (Leads best) (sym (extract_top-less best p ps l)) (before, (before, k))
  | inr l ↦
      let (h, k) = extract_top-Leads best ps in
      let before = Precedes-trans (extract_top best ps).0 best p h (not-less-Precedes best p l) in
      subst (Leads best) (sym (extract_top_not_less best p ps l)) (h, (before, k))
]

pub extract_top_least :
    (p : PrioritizedPacket) (ps : List PrioritizedPacket)
    → let (top, rest) = extract_top p ps in All (Precedes top) (top ∷ rest)
extract_top_least p ps = (inr (refl, le_refl _), (extract_top-Leads p ps).1)

pub extract_top-perm :
    (best : PrioritizedPacket) (ps : List PrioritizedPacket)
    → let (top, rest) = extract_top best ps in Perm (best ∷ ps) (top ∷ rest)
unfolding extract_top
extract_top-perm best [] = Perm.refl (best ∷ [])
extract_top-perm best (p ∷ ps) = elim (Bool-cases (less best p)) [
  | inl l ↦
      rw l (
        Perm.trans (Perm.cons best (extract_top-perm p ps)) (Perm.swap (extract_top p ps).0 best _))
  | inr l ↦ rw l (
      Perm.trans (Perm.swap p best ps) (
        Perm.trans (Perm.cons p (extract_top-perm best ps))
          (Perm.swap (extract_top best ps).0 p _)))
]
