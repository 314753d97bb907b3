-- ===== src/Compaction/Drain.antt =====
-- The inner loop of the merge: what it takes from the heap, and the value that it chooses.
use via_tabula.Base.{
  ℕ, zero, suc, ◌≤◌, ◌≡◌, ◌⊎◌, refl, ◌∙◌, sym, ap, true, false, Bool-cases, List, [], ◌∷◌, ◌++◌,
  append_assoc, append-nil, map, All, ltb as lt_num, length, inl, inr, arith,
}
use mathlib.Core.Bool.{Bool-set}
use mathlib.Core.List.{
  Perm, Mem, not-mem-nil, mem-cons_self, mem-cons_of_mem, eq-or-mem_of_mem-cons,
}
use mathlib.Core.List.Perm
use mathlib.Core.Logic.Or
use via_tabula.Base.Bytes.{Bytes}
use via_tabula.Base.Order.{cmp_refl, leb, ltb, eqb, eq_of_eqb, eq_of_cmp, lt_trans, lt_of_gt}
use via_tabula.Compaction.Heap.{HeapEntry, BinaryHeap}
use via_tabula.Compaction.Merge.{Best, better, drain}
use via_tabula.Compaction.Order.{Least, pop-Takes}

-- All keys of the heap are larger.
abbrev pub Beyond : Bytes → BinaryHeap → Type 0
Beyond key heap = (e : HeapEntry) → Mem e heap → ltb key e.key ≡ true

Beyond-cons :
    (key : Bytes) (e : HeapEntry) (heap : BinaryHeap)
    → ltb key e.key ≡ true
    → Beyond key heap
    → Beyond key (e ∷ heap)
Beyond-cons key e heap h rest x m =
    Or.elim (Bool-set (ltb key x.key) true) (eq-or-mem_of_mem-cons m) (λ same. rw same h) (rest x)

Beyond-Least :
    (key low : Bytes) (heap : BinaryHeap) → ltb key low ≡ true → Least low heap → Beyond key heap
Beyond-Least key low [] h l = λ x m. absurd (not-mem-nil m)
Beyond-Least key low (e ∷ heap) h l =
    Beyond-cons key e heap
      (ground (arith, l.0, eq_of_cmp low e.key, lt_trans key low e.key, lt_of_gt low e.key))
      (Beyond-Least key low heap h l.1)

abbrev pub source_of : HeapEntry → ℕ
source_of e = e.source_index

better-consumed :
    (next : HeapEntry) (start : Best)
    → (better next start).consumed ≡ start.consumed ++ (next.source_index ∷ [])
unfolding better
better-consumed next start = elim (Bool-cases (lt_num next.source_index start.source)) [
  | inl lower ↦ rw lower refl
  | inr not_lower ↦ rw not_lower refl
]

-- What the inner loop leaves of a heap whose smallest key may be the current one.
pub record Drained (current : Bytes) (start : Best) (heap : BinaryHeap) (best : Best)
    (left : BinaryHeap) : Type 0 where
  pub popped : BinaryHeap
  pub moved : Perm heap (popped ++ left)
  pub same : All (λ (e : HeapEntry). e.key ≡ current) popped
  pub beyond : Beyond current left
  pub no_newer : All (λ (e : HeapEntry). best.source ≤ e.source_index) popped
  pub from_start : best.source ≤ start.source
  pub consumed : best.consumed ≡ start.consumed ++ map source_of popped
  pub chosen :
      ((best.source ≡ start.source) × (best.value ≡ start.value))
      ⊎ ((e : HeapEntry) × Mem e popped × (best.source ≡ e.source_index) × (best.value ≡ e.value))

stop :
    (current : Bytes) (start : Best) (heap : BinaryHeap)
    → Beyond current heap
    → Drained current start heap start heap
stop current start heap beyond = record {
  popped = [];
  moved = Perm.rfl;
  same = tt;
  beyond = beyond;
  no_newer = tt;
  from_start = omega arith;
  consumed = sym (append-nil start.consumed);
  chosen = inl (refl, refl);
}

-- `better` keeps the older choice, or takes the entry, whichever has the lower source.
better_cases :
    (next : HeapEntry) (start : Best)
    → (better next start).source ≤ next.source_index
      × (better next start).source ≤ start.source
      × ((((better next start).source ≡ start.source) × ((better next start).value ≡ start.value))
          ⊎ (((better next start).source ≡ next.source_index)
              × ((better next start).value ≡ next.value)))
unfolding better
better_cases next start = elim (Bool-cases (lt_num next.source_index start.source)) [
  | inl lower ↦ rw lower (omega arith, ground (arith, lower), inr (refl, refl))
  | inr not_lower ↦ rw not_lower (ground (arith, not_lower), omega arith, inl (refl, refl))
]

continue_with :
    (current : Bytes) (start : Best) (heap others left : BinaryHeap) (next : HeapEntry)
    (best : Best)
    → Perm heap (next ∷ others)
    → next.key ≡ current
    → Drained current (better next start) others best left
    → Drained current start heap best left
continue_with current start heap others left next best moved same d =
    let (low, low', choice) = better_cases next start in
    record {
      popped = next ∷ d.popped;
      moved = Perm.trans moved (Perm.cons next d.moved);
      same = (same, d.same);
      beyond = d.beyond;
      no_newer = (omega (arith, low, d.from_start), d.no_newer);
      from_start = omega (arith, low', d.from_start);
      consumed =
          d.consumed
          ∙ ap (λ (l : List ℕ). l ++ map source_of d.popped) (better-consumed next start)
          ∙ append_assoc start.consumed (next.source_index ∷ []) (map source_of d.popped);
      chosen = elim d.chosen [
        | inr (e, m, s, v) ↦ inr (e, mem-cons_of_mem next m, s, v)
        | inl (s, v) ↦ elim choice [
          | inl (s', v') ↦ inl (s ∙ s', v ∙ v')
          | inr (s', v') ↦ inr (next, mem-cons_self, s ∙ s', v ∙ v')
        ]
      ];
    }

Least-at :
    (key : Bytes) (heap : BinaryHeap) (e : HeapEntry)
    → Least key heap
    → Mem e heap
    → leb key e.key ≡ true
Least-at key [] e l m = absurd (not-mem-nil m)
Least-at key (d ∷ heap) e l m =
    Or.elim (Bool-set (leb key e.key) true) (eq-or-mem_of_mem-cons m) (λ same. rw same l.0)
      (Least-at key heap e l.1)

Beyond-empty : (key : Bytes) (heap : BinaryHeap) → length heap ≤ 0 → Beyond key heap
Beyond-empty key [] h = λ x m. absurd (not-mem-nil m)
Beyond-empty key (e ∷ heap) h = absurd (omega arith)

-- The loop stops at an entry of another key, and then all that are left have larger ones.
Beyond-stop :
    (key : Bytes) (heap others : BinaryHeap) (next : HeapEntry)
    → Least key heap
    → Perm heap (next ∷ others)
    → Least next.key others
    → eqb next.key key ≡ false
    → Beyond key heap
Beyond-stop key heap others next least moved smaller other =
    let there = Least-at key heap next least (Perm.subset (Perm.symm moved) next mem-cons_self) in
    let larger : ltb key next.key ≡ true = ground (arith, eq_of_cmp key next.key, cmp_refl key) in
    let beyond =
      Beyond-cons key next others larger (Beyond-Least key next.key others larger smaller) in
    λ x m. beyond x (Perm.subset moved x m)

pub drain-Drained :
    (fuel : ℕ) (current : Bytes) (start : Best) (heap : BinaryHeap)
    → length heap ≤ fuel
    → Least current heap
    → Drained current start heap (drain fuel current start heap).0 (drain fuel current start heap).1
unfolding drain
drain-Drained zero current start heap h least =
    stop current start heap (Beyond-empty current heap h)
drain-Drained (suc fuel) current start heap h least = elim (pop-Takes heap) [
  | inl (e, p) ↦ rw (drain, p) (stop current start heap (rw e (λ x m. absurd (not-mem-nil m))))
  | inr ((next, others), p, (moved, smaller, size)) ↦ elim (Bool-cases (eqb next.key current)) [
    | inl same ↦
        rw (drain, p, same)
          (continue_with current start heap others _ next _ moved (eq_of_eqb next.key current same)
            (drain-Drained fuel current (better next start) others (omega (arith, size))
              (rw (eq_of_eqb next.key current same) at smaller)))
    | inr other ↦
        rw (drain, p, other)
          (stop current start heap (Beyond-stop current heap others next least moved smaller other))
  ]
]
