-- ===== src/Compaction/Merged.antt =====
-- The whole merge: for every key it emits what the first source has that has it.
use via_tabula.Base.{
  ℕ, zero, suc, ◌+◌, ◌<◌, ◌≡◌, refl, ◌∙◌, ap, List, [], ◌∷◌, length, length-append, inl, inr, arith,
  none, some, get_elem?, set, map, Option-cases,
}
use mathlib.Core.Logic.{∥∥₁_elim}
use native.Mathlib.Nat.{ℕ_set}
use mathlib.Core.List.{Perm, Permᴰ, Mem, not-mem-nil}
use via_tabula.Base.Bytes.{Bytes}
use via_tabula.Map
use via_tabula.Map.{Entries, IsSorted}
use via_tabula.Sstable.Reader.{SsTableIter}
use via_tabula.Compaction.Heap.{HeapEntry, BinaryHeap, push}
use via_tabula.Compaction.Merge.{MergeState, merge_round, collect, pull, refill}
use via_tabula.Compaction.Pulled.{held}
use via_tabula.Compaction.Streams.{collect-next}
use via_tabula.Compaction.Drain.{source_of}
use via_tabula.Compaction.Round.{Chooses, merge_round-Chooses}
use via_tabula.Compaction.Refill.{Waits, stream}
use via_tabula.Compaction.Sources.{Chooses-stream}
use via_tabula.Compaction.Ahead.{Chooses-Above}
use via_tabula.Compaction.Newest.{Latest, nowhere, found_in, Chooses-Latest}

-- What the rounds of the merge emit, tombstones included.
unfoldable pub emitted : ℕ → MergeState → Entries
emitted zero s = []
emitted (suc fuel) s = elim (merge_round s) [ none ↦ [] | some (e, s') ↦ e ∷ emitted fuel s' ]

unfoldable pub left_in : List SsTableIter → ℕ
left_in [] = 0
left_in (it ∷ iters) = length (collect it) + left_in iters

-- The number of records that are still to be merged.
unfoldable pub to_merge : List SsTableIter → BinaryHeap → ℕ
unfolding left_in
to_merge iters heap = length heap + left_in iters

left_in-set :
    (iters : List SsTableIter) (i : ℕ) (it it' : SsTableIter)
    → get_elem? iters i ≡ some it
    → left_in (set iters i it') + length (collect it) ≡ left_in iters + length (collect it')
unfolding left_in
left_in-set [] i it it' e = cc
left_in-set (x ∷ iters) zero it it' e = ground (arith, e)
left_in-set (x ∷ iters) (suc i) it it' e = omega (arith, left_in-set iters i it it' e)

to_merge-pull :
    (i : ℕ) (iters : List SsTableIter) (heap : BinaryHeap)
    → to_merge (pull i iters heap).0 (pull i iters heap).1 ≡ to_merge iters heap
unfolding to_merge pull push
to_merge-pull i iters heap = elim (Option-cases (get_elem? iters i)) [
  | inl none_there ↦ rw (pull, none_there) refl
  | inr (it, there) ↦ elim (collect-next it) [
    | inl (n, c) ↦ rw (pull, there, n) refl
    | inr ((key, value), it', n, c) ↦
        rw (pull, there, n) (omega (arith, left_in-set iters i it it' there, ap length c))
  ]
]

pub to_merge-refill :
    (sources : List ℕ) (iters : List SsTableIter) (heap : BinaryHeap)
    → to_merge (refill sources iters heap).0 (refill sources iters heap).1 ≡ to_merge iters heap
unfolding refill
to_merge-refill [] iters heap = refl
to_merge-refill (i ∷ sources) iters heap =
    to_merge-refill sources (pull i iters heap).0 (pull i iters heap).1 ∙ to_merge-pull i iters heap

length-Permᴰ : {xs ys : BinaryHeap} → Permᴰ xs ys → length xs ≡ length ys
length-Permᴰ Permᴰ.nil = refl
length-Permᴰ (Permᴰ.cons e d) = ap suc (length-Permᴰ d)
length-Permᴰ (Permᴰ.swap e e') = refl
length-Permᴰ (Permᴰ.trans d d') = length-Permᴰ d ∙ length-Permᴰ d'

length-Perm : {xs ys : BinaryHeap} → Perm xs ys → length xs ≡ length ys
length-Perm p = ∥∥₁_elim p (ℕ_set _ _) length-Permᴰ

some_taken : (e : HeapEntry) (taken : BinaryHeap) → Mem e taken → 0 < length taken
some_taken e [] m = absurd (not-mem-nil m)
some_taken e (d ∷ taken) m = omega arith

-- Every round uses up a record.
pub to_merge-Chooses :
    (s after : MergeState) (key value : Bytes)
    → Chooses s key value after
    → to_merge after.iters after.heap < to_merge s.iters s.heap
to_merge-Chooses s after key value c =
    let fewer : to_merge after.iters after.heap ≡ to_merge s.iters c.left =
      rw (c.iters, c.heap) (to_merge-refill (map source_of c.taken) s.iters c.left) in
    less s.iters s.heap c.left
      (omega (
        arith,
        length-Perm c.whole,
        length-append c.taken c.left,
        some_taken c.chosen c.taken c.from_taken,
      ))
      fewer
  where
    less :
        (iters : List SsTableIter) (heap left : BinaryHeap) {n : ℕ}
        → length left < length heap
        → n ≡ to_merge iters left
        → n < to_merge iters heap
    less iters heap left h e = unfold to_merge in omega (arith, h, e)

-- An empty heap means that no source has a record left.
over :
    (s : MergeState) (j : ℕ) (q : Bytes)
    → Waits [] s.iters s.heap
    → s.heap ≡ []
    → found_in s q j ≡ none
unfolding stream held Map.get
over s j q w empty =
    let none_held : held j s.heap ≡ [] = rw empty refl in
    rw (stream, none_held, (w j).1 none_held tt) refl

-- The merge of an ordered state with sorted sources, run for more rounds than there are records:
-- for every key it emits what the first source that has the key has, and nothing of a key that no
-- source has.
pub get-emitted :
    (fuel : ℕ) (s : MergeState) (q : Bytes)
    → Waits [] s.iters s.heap
    → ((j : ℕ) → IsSorted (stream j s.iters s.heap))
    → to_merge s.iters s.heap < fuel
    → Latest (found_in s q) (Map.get (emitted fuel s) q)
unfolding emitted Map.get
get-emitted zero s q w sorted h = absurd (omega arith)
get-emitted (suc fuel) s q w sorted h = elim (merge_round-Chooses s) [
  | inl (empty, e) ↦ rw (emitted, e) (nowhere (λ j. over s j q w empty))
  | inr (key, value, after, e, c) ↦
      let (w', _) = Chooses-stream s after key value w c in
      rw (emitted, e)
        (Chooses-Latest s after key value q (emitted fuel after) w sorted c (
          get-emitted fuel after q w' (λ j. (Chooses-Above s after key value w sorted c j).2)
            (omega (arith, h, to_merge-Chooses s after key value c))))
]
