-- ===== src/Levels/Compact.antt =====
-- `LevelManager::compact`.
use via_tabula.Base.{Option, none, some, List, [], ◌∷◌, ◌++◌, Outcome, ok, err, panic}
use via_tabula.Fs.{FilePath, World, Exec, Io, pure, lift, ◌>>=◌, ◌>>◌, with_file_name, now}
use via_tabula.Bloom.Arith.{Floats}
use via_tabula.Sstable.Reader.{SsTableReader}
use via_tabula.Compaction.{CompactionError, merge_sstables}
use via_tabula.Levels.Name.{table_name}
use via_tabula.Levels.Manager.{LevelManager, Range, open_all, combined_range, split_l1, remove_all}

-- `.expect("l0_paths is non-empty, checked above")`
abbrev pub expect_range : Option Range → Outcome CompactionError Range
expect_range none = panic
expect_range (some range) = ok range

-- Up to the loop over L1: the L0 readers with their combined range.
unfoldable pub read_l0 : List FilePath → Io CompactionError (List SsTableReader × Range)
read_l0 l0_paths = do
  readers ← open_all l0_paths
  range ← lift (combined_range readers none)
  range ← lift (expect_range range)
  pure (readers, range)

-- From the loop over L1 on: the new list of L1 files. L0's readers come first.
unfoldable pub merge_into_l1 :
    Floats
    → FilePath
    → List FilePath
    → List SsTableReader × Range
    → List FilePath
    → Io CompactionError (List FilePath)
merge_into_l1 fl first l0_paths (l0_readers, l0_range) l1_paths = do
  split ←
      split_l1 l0_range l1_paths
        (record { overlapping_paths = []; overlapping_readers = []; untouched_paths = [] })
  unique_suffix ← now
  let output_path = with_file_name first (table_name b'1' unique_suffix)
  merge_sstables fl (l0_readers ++ split.overlapping_readers) output_path
  remove_all (l0_paths ++ split.overlapping_paths)
  pure (split.untouched_paths ++ (output_path ∷ []))

-- `&mut self`, together with the files.
abbrev pub Managed : Type 0
Managed = LevelManager × World

abbrev pub leave :
    List (List FilePath)
    → Outcome CompactionError (Unit {0})
    → World
    → Outcome CompactionError (Unit {0}) × Managed
leave levels r w = (r, (record { levels = levels }, w))

-- An early return leaves what `drain(..)` had emptied by then: L0, and from the loop over L1 on L1.
abbrev pub settle :
    List (List FilePath)
    → Outcome CompactionError (List FilePath) × World
    → Outcome CompactionError (Unit {0}) × Managed
settle rest (ok l1, w) = leave ([] ∷ l1 ∷ rest) (ok tt) w
settle rest (err e, w) = leave ([] ∷ [] ∷ rest) (err e) w
settle rest (panic, w) = leave ([] ∷ [] ∷ rest) panic w

abbrev pub after_l0 :
    Floats
    → FilePath
    → List FilePath
    → List FilePath
    → List (List FilePath)
    → Outcome CompactionError (List SsTableReader × Range) × World
    → Outcome CompactionError (Unit {0}) × Managed
after_l0 fl first l0 l1 rest (ok inputs, w) = settle rest (merge_into_l1 fl first l0 inputs l1 w)
after_l0 fl first l0 l1 rest (err e, w) = leave ([] ∷ l1 ∷ rest) (err e) w
after_l0 fl first l0 l1 rest (panic, w) = leave ([] ∷ l1 ∷ rest) panic w

unfoldable pub compact_levels :
    Floats
    → List FilePath
    → List FilePath
    → List (List FilePath)
    → World
    → Outcome CompactionError (Unit {0}) × Managed
compact_levels fl [] l1 rest w = leave ([] ∷ l1 ∷ rest) (ok tt) w
compact_levels fl (first ∷ others) l1 rest w =
    after_l0 fl first (first ∷ others) l1 rest (read_l0 (first ∷ others) w)

-- Levels are added until there are two.
unfoldable pub compact : Floats → Exec Managed CompactionError (Unit {0})
compact fl (lm, w) = elim lm.levels [
  | [] ↦ compact_levels fl [] [] [] w
  | l0 ∷ [] ↦ compact_levels fl l0 [] [] w
  | l0 ∷ l1 ∷ rest ↦ compact_levels fl l0 l1 rest w
]
