-- ===== src/Compaction/Loop.antt =====
-- The main loop of the merge adds to the writer what the rounds emit, less the tombstones.
use via_tabula.Base.{
  ℕ, zero, suc, ◌<◌, ◌≡◌, refl, Bool-cases, inl, inr, arith, Outcome, ok, err, panic,
}
use via_tabula.Types.{is_tombstone}
use via_tabula.Fs.{World, Io, continue}
use via_tabula.Sstable.Writer.{SsTableError, SsTableWriter, add}
use via_tabula.Memtable.{add_all, without_tombstones}
use via_tabula.Compaction.Merge.{MergeState, merge_loop}
use via_tabula.Compaction.Round.{merge_round-Chooses}
use via_tabula.Compaction.Merged.{emitted, to_merge, to_merge-Chooses}

continue_same :
    (r : Outcome SsTableError SsTableWriter) (f g : SsTableWriter → Io SsTableError SsTableWriter)
    (world : World)
    → ((w : SsTableWriter) (v : World) → f w v ≡ g w v)
    → continue r f world ≡ continue r g world
continue_same (ok w) f g world h = h w world
continue_same (err e) f g world h = refl
continue_same panic f g world h = refl

-- With more rounds than there are records, the loop never runs out of them, and does to the writer
-- what adding the live records that the rounds emit does, in their order.
pub merge_loop-emitted :
    (fuel : ℕ) (s : MergeState) (w : SsTableWriter) (world : World)
    → to_merge s.iters s.heap < fuel
    → merge_loop fuel s w world ≡ add_all w (without_tombstones (emitted fuel s)) world
unfolding merge_loop emitted without_tombstones add_all
merge_loop-emitted zero s w world h = absurd (omega arith)
merge_loop-emitted (suc fuel) s w world h = elim (merge_round-Chooses s) [
  | inl (empty, e) ↦ rw (merge_loop, emitted, e) refl
  | inr (key, value, after, e, c) ↦
      let later : (w' : SsTableWriter) (v : World)
          → merge_loop fuel after w' v ≡ add_all w' (without_tombstones (emitted fuel after)) v =
        λ w' v.
          merge_loop-emitted fuel after w' v
            (omega (arith, h, to_merge-Chooses s after key value c)) in
      elim (Bool-cases (is_tombstone value)) [
        | inl dead ↦ rw (merge_loop, emitted, e) (rw (without_tombstones, dead) (later w world))
        | inr live ↦
            rw (merge_loop, emitted, e)
              (rw (without_tombstones, live)
                (continue_same (add w key value world).0 (merge_loop fuel after)
                  (λ w'. add_all w' (without_tombstones (emitted fuel after)))
                  (add w key value world).1 later))
      ]
]
