-- ===== src/Compaction/Merge.antt =====
-- `merge_sstables`.
use via_tabula.Base.{
  ℕ, zero, suc, ◌+◌, ◌-◌, true, false, Option, none, some, List, [], ◌∷◌, ◌++◌, if◌then◌else◌, ltb,
  length, get_elem?, set, map, panic,
}
use via_tabula.Base.Bytes.{Bytes}
use via_tabula.Base.Order.{eqb}
use via_tabula.Types.{is_tombstone}
use via_tabula.Map.{Entries}
use via_tabula.Fs.{FilePath, Io, pure, convert, ◌>>=◌}
use via_tabula.Bloom.Arith.{Floats}
use via_tabula.Sstable.Writer.{SsTableError, io, SsTableWriter, new_writer, add, finish}
use via_tabula.Sstable.Reader.{SsTableReader, SsTableIter, iter, next}
use via_tabula.Compaction.Heap.{HeapEntry, BinaryHeap, push, pop}

-- `CompactionError::Io` and `CompactionError::EmptySsTable`
pub data CompactionError : Type 0 where
  io_failed empty_sstable : CompactionError

-- `From<SsTableError>`
abbrev pub from_sstable : SsTableError → CompactionError
from_sstable io = io_failed

-- What an iterator yields until it ends; no record is shorter than a byte.
unfoldable pub items : ℕ → SsTableIter → Entries
items zero it = []
items (suc fuel) it = elim (next it) [ none ↦ [] | some (e, it') ↦ e ∷ items fuel it' ]

unfoldable pub collect : SsTableIter → Entries
collect it = items (suc (it.data_end - it.pos)) it

-- The sum of the readers' record counts.
unfoldable pub count_records : List SsTableReader → ℕ
count_records [] = 0
count_records (r ∷ readers) = length (collect (iter r)) + count_records readers

-- One item of source `i`, if it has one, goes to the heap, and its iterator moves on.
unfoldable pub pull : ℕ → List SsTableIter → BinaryHeap → List SsTableIter × BinaryHeap
pull i iters heap = elim (get_elem? iters i) [
  | none ↦ (iters, heap)
  | some it ↦ elim (next it) [
    | none ↦ (iters, heap)
    | some ((key, value), it') ↦
        (set iters i it', push (record { key = key; value = value; source_index = i }) heap)
  ]
]

-- The loop that fills the heap first, over the `n` sources from `i` on.
unfoldable pub fill : ℕ → ℕ → List SsTableIter → BinaryHeap → List SsTableIter × BinaryHeap
fill zero i iters heap = (iters, heap)
fill (suc n) i iters heap = let (iters', heap') = pull i iters heap in fill n (suc i) iters' heap'

-- What the inner loop keeps for the current key: the best value and its source, and the sources
-- whose heads were taken.
pub record Best : Type 0 where
  pub value : Bytes
  pub source : ℕ
  pub consumed : List ℕ

unfoldable pub better : HeapEntry → Best → Best
better next best =
    let consumed = best.consumed ++ (next.source_index ∷ []) in
    if ltb next.source_index best.source
    then record { value = next.value; source = next.source_index; consumed = consumed }
    else record best { consumed = consumed }

-- `while let Some(next) = heap.peek()`: it ends at the first entry with another key.
unfoldable pub drain : ℕ → Bytes → Best → BinaryHeap → Best × BinaryHeap
drain zero current best heap = (best, heap)
drain (suc fuel) current best heap = elim (pop heap) [
  | none ↦ (best, heap)
  | some (next, others) ↦ elim (eqb next.key current) [
    | true ↦ drain fuel current (better next best) others
    | false ↦ (best, heap)
  ]
]

-- Every source whose head was taken is pulled again.
unfoldable pub refill : List ℕ → List SsTableIter → BinaryHeap → List SsTableIter × BinaryHeap
refill [] iters heap = (iters, heap)
refill (i ∷ sources) iters heap =
    let (iters', heap') = pull i iters heap in refill sources iters' heap'

pub record MergeState : Type 0 where
  pub iters : List SsTableIter
  pub heap : BinaryHeap

-- One round of the main loop up to the test for a tombstone: the current key, the value chosen for
-- it, and the state after it.
unfoldable pub merge_round : MergeState → Option ((Bytes × Bytes) × MergeState)
merge_round s = elim (pop s.heap) [
  | none ↦ none
  | some (first, heap) ↦
      let start : Best = record {
        value = first.value;
        source = first.source_index;
        consumed = first.source_index ∷ [];
      } in
      let (best, heap') = drain (length heap) first.key start heap in
      let (iters', heap'') = refill best.consumed s.iters heap' in
      some ((first.key, best.value), record { iters = iters'; heap = heap'' })
]

abbrev pub add_live : SsTableWriter → Bytes → Bytes → Io SsTableError SsTableWriter
add_live w key value = if is_tombstone value then pure w else add w key value

-- The main loop; every round takes a record, so `count_records` rounds and one more are enough.
unfoldable pub merge_loop : ℕ → MergeState → SsTableWriter → Io SsTableError SsTableWriter
merge_loop zero s w = λ world. (panic, world)
merge_loop (suc fuel) s w = elim (merge_round s) [
  | none ↦ pure w
  | some ((key, value), s') ↦ add_live w key value >>= merge_loop fuel s'
]

unfoldable pub initial_state : List SsTableReader → MergeState
initial_state readers =
    let (iters, heap) = fill (length readers) 0 (map iter readers) [] in
    record { iters = iters; heap = heap }

unfoldable pub merge_sstables :
    Floats → List SsTableReader → FilePath → Io CompactionError (Unit {0})
merge_sstables fl readers output_path = do
  let expected_keys = count_records readers
  w ← convert from_sstable (new_writer fl output_path expected_keys)
  w ← convert from_sstable (merge_loop (suc expected_keys) (initial_state readers) w)
  convert from_sstable (finish w)
