-- ===== src/Compaction/Initial.antt =====
-- The merge from the readers on: the heap is filled with the first record of each.
use via_tabula.Base.{
  ℕ, zero, suc, ◌+◌, ◌<◌, ◌≡◌, ◌≢◌, refl, ◌∙◌, sym, ap, List, [], ◌∷◌, length, arith, All, map,
}
use via_tabula.Base.Bytes.{Bytes}
use via_tabula.Map
use via_tabula.Map.{Entries, IsSorted}
use via_tabula.Sstable.Reader.{SsTableIter, SsTableReader, iter}
use via_tabula.Compaction.Heap.{BinaryHeap}
use via_tabula.Compaction.Merge.{
  MergeState, pull, fill, refill, initial_state, count_records, collect,
}
use via_tabula.Compaction.Pulled.{held, rest}
use via_tabula.Compaction.Refill.{Distinct, Waits, stream, refill-Waits}
use via_tabula.Compaction.Newest.{Latest, Latest-map, found_in}
use via_tabula.Compaction.Merged.{emitted, to_merge, left_in, to_merge-refill, get-emitted}

range : ℕ → ℕ → List ℕ
range zero i = []
range (suc n) i = i ∷ range n (suc i)

fill-refill :
    (n i : ℕ) (iters : List SsTableIter) (heap : BinaryHeap)
    → fill n i iters heap ≡ refill (range n i) iters heap
unfolding fill refill range
fill-refill zero i iters heap = refl
fill-refill (suc n) i iters heap = fill-refill n (suc i) (pull i iters heap).0 (pull i iters heap).1

range-All : (n low i : ℕ) → low < i → All (λ j. low ≢ j) (range n i)
unfolding range
range-All zero low i h = tt
range-All (suc n) low i h =
    (λ e. absurd (omega (arith, e, h)), range-All n low (suc i) (omega arith))

range-Distinct : (n i : ℕ) → Distinct (range n i)
unfolding range
range-Distinct zero i = tt
range-Distinct (suc n) i = (range-All n i (suc i) (omega arith), range-Distinct n (suc i))

nothing_in_heap : (sources : List ℕ) → All (λ i. held i [] ≡ []) sources
unfolding held
nothing_in_heap [] = tt
nothing_in_heap (i ∷ sources) = (refl, nothing_in_heap sources)

-- A source outside the range has no iterator.
rest_outside :
    (iters : List SsTableIter) (i j k : ℕ)
    → k ≡ i + j
    → All (λ n. n ≢ k) (range (length iters) i)
    → rest j iters ≡ []
unfolding rest range
rest_outside [] i j k e a = refl
rest_outside (it ∷ iters) i zero k e a = absurd (a.0 (omega (arith, e)))
rest_outside (it ∷ iters) i (suc j) k e a = rest_outside iters (suc i) j k (omega (arith, e)) a.1

start-Waits : (iters : List SsTableIter) → Waits (range (length iters) 0) iters []
unfolding held
start-Waits iters j = (omega arith, λ _ others. rest_outside iters 0 j j (omega arith) others)

length-map : (readers : List SsTableReader) → length (map iter readers) ≡ length readers
length-map [] = refl
length-map (r ∷ readers) = ap suc (length-map readers)

left_in-map : (readers : List SsTableReader) → left_in (map iter readers) ≡ count_records readers
unfolding left_in count_records
left_in-map [] = refl
left_in-map (r ∷ readers) = ap (λ (n : ℕ). length (collect (iter r)) + n) (left_in-map readers)

-- What the filled state has: a head of every source that has a record, and all records.
pub record Filled (readers : List SsTableReader) (s : MergeState) : Type 0 where
  pub ready : Waits [] s.iters s.heap
  pub streams : (j : ℕ) → stream j s.iters s.heap ≡ rest j (map iter readers)
  pub count : to_merge s.iters s.heap ≡ count_records readers

pub initial_state-Filled : (readers : List SsTableReader) → Filled readers (initial_state readers)
unfolding initial_state stream held to_merge
initial_state-Filled readers =
    let iters = map iter readers in
    let sources = range (length iters) 0 in
    let same : fill (length readers) 0 iters [] ≡ refill sources iters [] =
      ap (λ (n : ℕ). fill n 0 iters []) (sym (length-map readers))
      ∙ fill-refill (length iters) 0 iters [] in
    let (ready, streams) =
      refill-Waits sources iters [] (range-Distinct (length iters) 0) (nothing_in_heap sources)
        (start-Waits iters) in
    let start : to_merge iters [] ≡ count_records readers = omega (arith, left_in-map readers) in
    rw same (record {
      ready = ready;
      streams = streams;
      count = to_merge-refill sources iters [] ∙ start;
    })

-- Run for one round more than there are records, the merge of readers of sorted tables emits for
-- every key what the first reader that has the key has, a tombstone included, and nothing of a key
-- that no reader has.
pub merged-Latest :
    (readers : List SsTableReader) (q : Bytes)
    → ((j : ℕ) → IsSorted (rest j (map iter readers)))
    → Latest
        (λ j. Map.get (rest j (map iter readers)) q)
        (Map.get (emitted (suc (count_records readers)) (initial_state readers)) q)
merged-Latest readers q sorted =
    let s = initial_state readers in
    let filled = initial_state-Filled readers in
    Latest-map (found_in s q) (λ j. Map.get (rest j (map iter readers)) q)
      (λ j. ap (λ (es : Entries). Map.get es q) (sym (filled.streams j)))
      (get-emitted (suc (count_records readers)) s q filled.ready
        (λ j. rw (filled.streams j) (sorted j)) (omega (arith, filled.count)))
