-- ===== src/Compaction/Round.antt =====
-- One round of the merge: what it takes from the heap, and what it emits.
use via_tabula.Base.{
  ℕ, ◌≤◌, ◌≡◌, ◌⊎◌, refl, ◌∙◌, sym, ap, none, some, List, [], ◌∷◌, ◌++◌, map, All, length, inl, inr,
  arith,
}
use mathlib.Core.List.{Perm, Mem, mem-cons_self, mem-cons_of_mem}
use mathlib.Core.List.Perm
use via_tabula.Base.Bytes.{Bytes}
use via_tabula.Compaction.Heap.{HeapEntry, BinaryHeap}
use via_tabula.Compaction.Merge.{Best, refill, MergeState, merge_round}
use via_tabula.Compaction.Order.{pop-Takes}
use via_tabula.Compaction.Drain.{Beyond, source_of, Drained, drain-Drained}

-- What a round takes from the heap and emits: all entries of the smallest key, and the value of one
-- whose source is the lowest. `after` is the state that it leaves.
pub record Chooses (s : MergeState) (key value : Bytes) (after : MergeState) : Type 0 where
  pub taken : BinaryHeap
  pub left : BinaryHeap
  pub whole : Perm s.heap (taken ++ left)
  pub same : All (λ (e : HeapEntry). e.key ≡ key) taken
  pub beyond : Beyond key left
  pub chosen : HeapEntry
  pub from_taken : Mem chosen taken
  pub emitted : chosen.value ≡ value
  pub newest : All (λ (e : HeapEntry). chosen.source_index ≤ e.source_index) taken
  pub iters : after.iters ≡ (refill (map source_of taken) s.iters left).0
  pub heap : after.heap ≡ (refill (map source_of taken) s.iters left).1

choose :
    (s : MergeState) (first : HeapEntry) (others left : BinaryHeap) (best : Best)
    (after : MergeState)
    → Perm s.heap (first ∷ others)
    → Drained first.key
        (record {
          value = first.value;
          source = first.source_index;
          consumed = first.source_index ∷ [];
        })
        others
        best
        left
    → after ≡ record {
      iters = (refill best.consumed s.iters left).0;
      heap = (refill best.consumed s.iters left).1;
    }
    → Chooses s first.key best.value after
choose s first others left best after moved d e =
    let whole = Perm.trans moved (Perm.cons first d.moved) in
    let iters =
      ap (λ (a : MergeState). a.iters) e
      ∙ ap (λ (l : List ℕ). (refill l s.iters left).0) d.consumed in
    let heap =
      ap (λ (a : MergeState). a.heap) e
      ∙ ap (λ (l : List ℕ). (refill l s.iters left).1) d.consumed in
    elim d.chosen [
      | inl (from, value) ↦ record {
        taken = first ∷ d.popped;
        left = left;
        whole = whole;
        same = (refl, d.same);
        beyond = d.beyond;
        chosen = first;
        from_taken = mem-cons_self;
        emitted = sym value;
        newest = (omega arith, rw from at d.no_newer);
        iters = iters;
        heap = heap;
      }
      | inr (next, m, from, value) ↦ record {
        taken = first ∷ d.popped;
        left = left;
        whole = whole;
        same = (refl, d.same);
        beyond = d.beyond;
        chosen = next;
        from_taken = mem-cons_of_mem first m;
        emitted = sym value;
        newest = (omega (arith, from, d.from_start), rw from at d.no_newer);
        iters = iters;
        heap = heap;
      }
    ]

-- A round ends the merge only at an empty heap. Otherwise it takes exactly the entries of the
-- smallest key from the heap, emits that key with the value of the entry of the lowest source, and
-- pulls the next record of each source that it took from.
pub merge_round-Chooses :
    (s : MergeState)
    → ((s.heap ≡ []) × (merge_round s ≡ none))
      ⊎ ((key : Bytes) × (value : Bytes) × (after : MergeState) × (merge_round s
            ≡ some ((key, value), after))
          × Chooses s key value after)
unfolding merge_round
merge_round-Chooses s = elim (pop-Takes s.heap) [
  | inl (e, p) ↦ inl (e, rw (merge_round, p) refl)
  | inr ((first, others), p, (moved, smaller, size)) ↦ inr (
    first.key,
    _,
    _,
    rw (merge_round, p) refl,
    choose s first others _ _ _ moved
        (drain-Drained (length others) first.key _ others (omega arith) smaller) refl,
  )
]
