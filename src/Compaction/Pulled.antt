-- ===== src/Compaction/Pulled.antt =====
-- `pull` moves a record from an iterator to the heap, and loses none.
use via_tabula.Base.{
  ℕ, ◌≤◌, ◌≡◌, ◌≢◌, refl, ◌∙◌, sym, ap, true, false, Option, none, some, Option-cases, List, [],
  ◌∷◌, ◌++◌, length, get_elem?, get_elem?-set, set, inl, inr, arith, ◌==◌, if◌then◌else◌,
}
use via_tabula.Base.Bytes.{Bytes}
use via_tabula.Map.{Entries}
use via_tabula.Sstable.Reader.{SsTableIter}
use via_tabula.Compaction.Heap.{BinaryHeap, push}
use via_tabula.Compaction.Merge.{collect, pull}
use via_tabula.Compaction.Streams.{collect-next}

-- The records of source `i` in the heap.
unfoldable pub held : ℕ → BinaryHeap → Entries
held i [] = []
held i (e ∷ heap) =
    let more = held i heap in if e.source_index == i then (e.key, e.value) ∷ more else more

unfoldable pub rest_of : Option SsTableIter → Entries
rest_of none = []
rest_of (some it) = collect it

-- What the iterator of source `i` has still to give.
unfoldable pub rest : ℕ → List SsTableIter → Entries
unfolding rest_of
rest i iters = rest_of (get_elem? iters i)

pub record Pulled (i : ℕ) (iters : List SsTableIter) (heap : BinaryHeap)
    (after : List SsTableIter × BinaryHeap) : Type 0 where
  pub same_rest : (j : ℕ) → i ≢ j → rest j after.0 ≡ rest j iters
  pub same_held : (j : ℕ) → i ≢ j → held j after.1 ≡ held j heap
  pub whole : held i heap ≡ [] → held i after.1 ++ rest i after.0 ≡ rest i iters
  pub one : held i heap ≡ [] → length (held i after.1) ≤ 1
  pub over : held i heap ≡ [] → held i after.1 ≡ [] → rest i after.0 ≡ []

nothing-Pulled :
    (i : ℕ) (iters : List SsTableIter) (heap : BinaryHeap)
    → rest i iters ≡ []
    → Pulled i iters heap (iters, heap)
nothing-Pulled i iters heap e = record {
  same_rest = λ j h. refl;
  same_held = λ j h. refl;
  whole = λ empty. rw empty refl;
  one = λ empty. rw empty (omega arith);
  over = λ empty empty'. e;
}

nonempty : {e : Bytes × Bytes} {es : Entries} → (e ∷ es) ≡ [] → ⊥
nonempty h = cc

self : (i : ℕ) → (i == i) ≡ true
self i = ground arith

differ : (i j : ℕ) → i ≢ j → (i == j) ≡ false
differ i j h = ground (arith, h)

held-push :
    (i j : ℕ) (key value : Bytes) (heap : BinaryHeap)
    → held j (push (record { key = key; value = value; source_index = i }) heap)
      ≡ (if i == j then (key, value) ∷ held j heap else held j heap)
unfolding held push
held-push i j key value heap = refl

record-Pulled :
    (i : ℕ) (iters : List SsTableIter) (heap : BinaryHeap) (it it' : SsTableIter)
    (key value : Bytes)
    → get_elem? iters i ≡ some it
    → collect it ≡ (key, value) ∷ collect it'
    → Pulled i iters heap
        (set iters i it', push (record { key = key; value = value; source_index = i }) heap)
unfolding rest rest_of
record-Pulled i iters heap it it' key value there e =
    let set_at = λ (j : ℕ). get_elem?-set iters i j it it' there in
    let set_here : get_elem? (set iters i it') i ≡ some it' = set_at i ∙ rw (self i) refl in
    let rest_at : rest i (set iters i it') ≡ collect it' = ap rest_of set_here in
    record {
      same_rest = λ j h.
          let other : get_elem? (set iters i it') j ≡ get_elem? iters j =
            set_at j ∙ rw (differ i j h) refl in
          ap rest_of other;
      same_held = λ j h. held-push i j key value heap ∙ rw (differ i j h) refl;
      whole = λ empty. rw (held-push, self i, empty, rest_at, there) (sym e);
      one = λ empty. rw (held-push, self i, empty) (omega arith);
      over = λ empty empty'.
          let there' : held i (push (record { key = key; value = value; source_index = i }) heap)
              ≡ (key, value) ∷ held i heap =
            held-push i i key value heap ∙ rw (self i) refl in
          absurd (nonempty (sym there' ∙ empty'));
    }

-- Pulling from a source moves its next record to the heap, if it has one: the records that the source
-- has to give stay the same in all, and those of the other sources are not touched.
pub pull-Pulled :
    (i : ℕ) (iters : List SsTableIter) (heap : BinaryHeap) → Pulled i iters heap (pull i iters heap)
unfolding pull rest rest_of
pull-Pulled i iters heap = elim (Option-cases (get_elem? iters i)) [
  | inl none_there ↦ rw (pull, none_there) (nothing-Pulled i iters heap (rw none_there refl))
  | inr (it, there) ↦ elim (collect-next it) [
    | inl (n, c) ↦ rw (pull, there, n) (nothing-Pulled i iters heap (rw there c))
    | inr ((key, value), it', n, c) ↦
        rw (pull, there, n) (record-Pulled i iters heap it it' key value there c)
  ]
]
