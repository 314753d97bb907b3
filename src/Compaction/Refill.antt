-- ===== src/Compaction/Refill.antt =====
-- `refill` pulls from every source whose head was taken, and then the heap has a head of each source
-- that has a record left.
use via_tabula.Base.{
  ℕ, ◌≤◌, ◌≡◌, ◌≢◌, ◌⊎◌, refl, ◌∙◌, Bool-cases, List, [], ◌∷◌, ◌++◌, length, inl, inr, arith, ◌==◌,
  All,
}
use via_tabula.Map.{Entries}
use via_tabula.Sstable.Reader.{SsTableIter}
use via_tabula.Compaction.Heap.{BinaryHeap}
use via_tabula.Compaction.Merge.{pull, refill}
use via_tabula.Compaction.Pulled.{held, rest, pull-Pulled}

-- The records that source `i` has still to give to the merge: the one in the heap, and the others.
unfoldable pub stream : ℕ → List SsTableIter → BinaryHeap → Entries
stream i iters heap = held i heap ++ rest i iters

abbrev pub Distinct : List ℕ → Type 0
Distinct [] = Unit
Distinct (i ∷ sources) = All (λ j. i ≢ j) sources × Distinct sources

-- Every source has at most one record in the heap, and only the given sources have none there though
-- they have records left.
abbrev pub Waits : List ℕ → List SsTableIter → BinaryHeap → Type 0
Waits sources iters heap =
    (j : ℕ)
    → (length (held j heap) ≤ 1) × (held j heap ≡ [] → All (λ i. i ≢ j) sources → rest j iters ≡ [])

same_or_not : (i j : ℕ) → (i ≡ j) ⊎ (i ≢ j)
same_or_not i j = elim (Bool-cases (i == j)) [
  | inl e ↦ inl (ground (arith, e))
  | inr ne ↦ inr (λ e. ground (arith, ne, e))
]

stream-pull :
    (i j : ℕ) (iters : List SsTableIter) (heap : BinaryHeap)
    → held i heap ≡ []
    → stream j (pull i iters heap).0 (pull i iters heap).1 ≡ stream j iters heap
unfolding stream
stream-pull i j iters heap empty =
    let p = pull-Pulled i iters heap in
    elim (same_or_not i j) [
      | inl e ↦ rw⁻¹ e (rw empty (p.whole empty))
      | inr ne ↦ rw (p.same_held j ne, p.same_rest j ne) refl
    ]

pull-Waits :
    (i : ℕ) (sources : List ℕ) (iters : List SsTableIter) (heap : BinaryHeap)
    → held i heap ≡ []
    → Waits (i ∷ sources) iters heap
    → Waits sources (pull i iters heap).0 (pull i iters heap).1
pull-Waits i sources iters heap empty w j =
    let p = pull-Pulled i iters heap in
    elim (same_or_not i j) [
      | inl e ↦ rw⁻¹ e (p.one empty, λ none_held others. p.over empty none_held)
      | inr ne ↦
          rw (p.same_held j ne, p.same_rest j ne)
            ((w j).0, λ none_held others. (w j).1 none_held (ne, others))
    ]

pull-empty :
    (i : ℕ) (sources : List ℕ) (iters : List SsTableIter) (heap : BinaryHeap)
    → All (λ j. i ≢ j) sources
    → All (λ j. held j heap ≡ []) sources
    → All (λ j. held j (pull i iters heap).1 ≡ []) sources
pull-empty i [] iters heap d a = tt
pull-empty i (j ∷ sources) iters heap d a =
    ((pull-Pulled i iters heap).same_held j d.0 ∙ a.0, pull-empty i sources iters heap d.1 a.1)

-- Refilling from sources that are distinct and have no record in the heap: no source loses a record,
-- and afterwards a source without a record in the heap has none left at all.
pub refill-Waits :
    (sources : List ℕ) (iters : List SsTableIter) (heap : BinaryHeap)
    → Distinct sources
    → All (λ i. held i heap ≡ []) sources
    → Waits sources iters heap
    → Waits [] (refill sources iters heap).0 (refill sources iters heap).1
      × ((j : ℕ)
          → stream j (refill sources iters heap).0 (refill sources iters heap).1
            ≡ stream j iters heap)
unfolding refill
refill-Waits [] iters heap d a w = (w, λ j. refl)
refill-Waits (i ∷ sources) iters heap d a w =
    let (ready, same) =
      refill-Waits sources (pull i iters heap).0 (pull i iters heap).1 d.1
        (pull-empty i sources iters heap d.0 a.1) (pull-Waits i sources iters heap a.0 w) in
    (ready, λ j. same j ∙ stream-pull i j iters heap a.0)
