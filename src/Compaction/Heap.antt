-- ===== src/Compaction/Heap.antt =====
-- `HeapEntry` and its `BinaryHeap`. The heap is the list of its entries. `pop` takes an entry of the
-- smallest key, as the reversed `Ord` asks; which of several with that key, the order does not say.
use via_tabula.Base.{ℕ, Option, none, some, List, [], ◌∷◌, if◌then◌else◌}
use via_tabula.Base.Bytes.{Bytes}
use via_tabula.Base.Order.{leb}

pub record HeapEntry : Type 0 where
  pub key : Bytes
  pub value : Bytes
  pub source_index : ℕ

abbrev pub BinaryHeap : Type 0
BinaryHeap = List HeapEntry

unfoldable pub push : HeapEntry → BinaryHeap → BinaryHeap
push e heap = e ∷ heap

-- The smaller of `e` and the entries of the heap, and the others.
unfoldable pub take_min : HeapEntry → BinaryHeap → HeapEntry × BinaryHeap
take_min e [] = (e, [])
take_min e (d ∷ heap) =
    let (least, others) = take_min d heap in
    if leb e.key least.key then (e, least ∷ others) else (least, e ∷ others)

unfoldable pub pop : BinaryHeap → Option (HeapEntry × BinaryHeap)
pop [] = none
pop (e ∷ heap) = some (take_min e heap)
