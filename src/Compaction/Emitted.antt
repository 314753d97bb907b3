-- ===== src/Compaction/Emitted.antt =====
-- The records that the merge emits are records of the sources, and their keys ascend.
use via_tabula.Base.{ℕ, zero, suc, [], ◌∷◌, ◌++◌, All, inl, inr, Bool-cases}
use via_tabula.Base.Bytes.{Bytes}
use via_tabula.Base.Order.{◌≺◌}
use via_tabula.Types.{is_tombstone}
use via_tabula.Map.{Entries, IsSorted}
use via_tabula.Memtable.{without_tombstones}
use via_tabula.Compaction.Merge.{MergeState}
use via_tabula.Compaction.Round.{Chooses, merge_round-Chooses}
use via_tabula.Compaction.Refill.{Waits, stream}
use via_tabula.Compaction.Sources.{Chooses-stream}
use via_tabula.Compaction.Pulled.{held}
use via_tabula.Compaction.Ahead.{Chooses-Above}
use via_tabula.Compaction.Newest.{taken_chosen}
use via_tabula.Compaction.Merged.{emitted}

-- The sources are sorted, and at most one record of each waits in the heap.
pub record InOrder (s : MergeState) : Type 0 where
  pub waits : Waits [] s.iters s.heap
  pub sorted : (j : ℕ) → IsSorted (stream j s.iters s.heap)

Chooses-InOrder :
    (s after : MergeState) (key value : Bytes)
    → InOrder s
    → Chooses s key value after
    → InOrder after
Chooses-InOrder s after key value o c = record {
  waits = (Chooses-stream s after key value o.waits c).0;
  sorted = λ j. (Chooses-Above s after key value o.waits o.sorted c j).2;
}

module _ (P : Bytes × Bytes → Type 0) where
  AllLeft : MergeState → Type 0
  AllLeft s = (j : ℕ) → All P (stream j s.iters s.heap)

  All-parts : (xs ys : Entries) → All P (xs ++ ys) → All P xs × All P ys
  All-parts [] ys a = (tt, a)
  All-parts (x ∷ xs) ys a = let (b, c) = All-parts xs ys a.1 in ((a.0, b), c)

  Chooses-All :
      (s after : MergeState) (key value : Bytes)
      → InOrder s
      → AllLeft s
      → Chooses s key value after
      → P (key, value) × AllLeft after
  unfolding AllLeft
  Chooses-All s after key value o a c =
      let (_, streams) = Chooses-stream s after key value o.waits c in
      let parts : (j : ℕ) → All P (held j c.taken) × All P (stream j after.iters after.heap) = λ j.
        All-parts (held j c.taken) (stream j after.iters after.heap) (rw (streams j) at (a j)) in
      let chosen : All P ((key, value) ∷ []) =
        rw (taken_chosen s after key value o.waits o.sorted c) at (parts c.chosen.source_index).0 in
      (chosen.0, λ j. (parts j).1)

  pub emitted-All :
      (fuel : ℕ) (s : MergeState)
      → InOrder s
      → ((j : ℕ) → All P (stream j s.iters s.heap))
      → All P (emitted fuel s)
  unfolding emitted AllLeft
  emitted-All zero s o a = tt
  emitted-All (suc fuel) s o a = elim (merge_round-Chooses s) [
    | inl (empty, e) ↦ rw (emitted, e) tt
    | inr (key, value, after, e, c) ↦
        let (here, later) = Chooses-All s after key value o a c in
        rw (emitted, e) (here, emitted-All fuel after (Chooses-InOrder s after key value o c) later)
  ]

  pub without_tombstones-All : (es : Entries) → All P es → All P (without_tombstones es)
  unfolding without_tombstones
  without_tombstones-All [] a = tt
  without_tombstones-All ((k, v) ∷ es) a = elim (Bool-cases (is_tombstone v)) [
    | inl dead ↦ rw dead (without_tombstones-All es a.1)
    | inr live ↦ rw live (a.0, without_tombstones-All es a.1)
  ]

pub emitted-IsSorted : (fuel : ℕ) (s : MergeState) → InOrder s → IsSorted (emitted fuel s)
unfolding emitted
emitted-IsSorted zero s o = tt
emitted-IsSorted (suc fuel) s o = elim (merge_round-Chooses s) [
  | inl (empty, e) ↦ rw (emitted, e) tt
  | inr (key, value, after, e, c) ↦
      let o' = Chooses-InOrder s after key value o c in
      rw (emitted, e)
        (
          emitted-All (λ r. key ≺ r.0) fuel after o'
              (λ j. (Chooses-Above s after key value o.waits o.sorted c j).1),
          emitted-IsSorted fuel after o',
        )
]
