-- ===== src/Compaction/Order.antt =====
-- What `pop` takes from the heap: an entry of the smallest key, and no other.
use via_tabula.Base.{
  suc, length, ◌⊎◌, ◌≡◌, refl, ap, true, Bool-cases, none, some, [], ◌∷◌, All, inl, inr,
}
use mathlib.Core.List.{Perm}
use mathlib.Core.List.Perm
use via_tabula.Base.Bytes.{Bytes}
use via_tabula.Base.Order.{leb}
use via_tabula.Levels.Ranges.{leb_trans, leb_total}
use via_tabula.Compaction.Heap.{HeapEntry, BinaryHeap, pop, take_min}

-- No entry of the heap has a smaller key.
abbrev pub Least : Bytes → BinaryHeap → Type 0
Least key = All (λ (e : HeapEntry). leb key e.key ≡ true)

Least-trans : (a b : Bytes) (heap : BinaryHeap) → leb a b ≡ true → Least b heap → Least a heap
Least-trans a b [] h l = tt
Least-trans a b (e ∷ heap) h l = (leb_trans a b e.key h l.0, Least-trans a b heap h l.1)

-- The entry and what is left of the heap, in any order, are the entries that were there.
abbrev pub Takes : BinaryHeap → HeapEntry × BinaryHeap → Type 0
Takes heap (least, others) =
    Perm heap (least ∷ others) × Least least.key others × (length heap ≡ suc (length others))

take_min-Takes : (e : HeapEntry) (heap : BinaryHeap) → Takes (e ∷ heap) (take_min e heap)
unfolding take_min
take_min-Takes e [] = (Perm.rfl, tt, refl)
take_min-Takes e (d ∷ heap) =
    let (moved, smaller, size) = take_min-Takes d heap in
    elim (Bool-cases (leb e.key (take_min d heap).0.key)) [
      | inl le ↦ rw le (Perm.cons e moved, (le, Least-trans e.key _ _ le smaller), ap suc size)
      | inr gt ↦ rw gt (
        Perm.trans (Perm.cons e moved) (Perm.swap (take_min d heap).0 e (take_min d heap).1),
        (leb_total e.key (take_min d heap).0.key gt, smaller),
        ap suc size,
      )
    ]

-- `pop` takes an entry of the smallest key, leaves all others, and answers nothing only of an empty
-- heap.
pub pop-Takes :
    (heap : BinaryHeap)
    → ((heap ≡ []) × (pop heap ≡ none))
      ⊎ ((taken : HeapEntry × BinaryHeap) × (pop heap ≡ some taken) × Takes heap taken)
unfolding pop
pop-Takes [] = inl (refl, refl)
pop-Takes (e ∷ heap) = inr (take_min e heap, refl, take_min-Takes e heap)
