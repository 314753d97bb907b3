-- ===== src/Levels/Manager.antt =====
-- The levels, and `compact`.
use via_tabula.Base.{
  ℕ, zero, suc, ◌+◌, Bool, true, false, ◌&&◌, Option, none, some, List, [], ◌∷◌, ◌++◌,
  if◌then◌else◌, leb as le_num, length, Outcome, ok, err, panic,
}
use via_tabula.Base
use via_tabula.Base.Bytes.{Bytes}
use via_tabula.Base.Order.{leb}
use via_tabula.Map.{Entries}
use via_tabula.Fs.{FilePath, Io, pure, lift, convert, ◌>>=◌, remove_file}
use via_tabula.Sstable.Reader.{SsTableReader, iter, open_table}
use via_tabula.Compaction.{CompactionError, empty_sstable, from_sstable, collect}

pub record LevelManager : Type 0 where
  pub levels : List (List FilePath)

abbrev pub l0_compaction_threshold : ℕ
l0_compaction_threshold = 4

abbrev pub Range : Type 0
Range = Bytes × Bytes

abbrev pub last_key : Bytes → Entries → Bytes
last_key key [] = key
last_key key ((k, v) ∷ rest) = last_key k rest

unfoldable pub range_of : Entries → Outcome CompactionError Range
range_of [] = err empty_sstable
range_of ((k, v) ∷ rest) = ok (k, last_key k rest)

unfoldable pub key_range : SsTableReader → Outcome CompactionError Range
unfolding range_of
key_range reader = range_of (collect (iter reader))

unfoldable pub ranges_overlap : Range → Range → Bool
ranges_overlap (a_min, a_max) (b_min, b_max) = leb a_min b_max && leb b_min a_max

abbrev pub new_manager : LevelManager
new_manager = record { levels = [] }

-- Appends to L0, which is made if there is no level.
unfoldable pub add_l0_file : LevelManager → FilePath → LevelManager
add_l0_file lm path = elim lm.levels [
  | [] ↦ record { levels = (path ∷ []) ∷ [] }
  | l0 ∷ rest ↦ record { levels = (l0 ++ (path ∷ [])) ∷ rest }
]

unfoldable pub needs_compaction : LevelManager → Bool
needs_compaction lm = elim lm.levels [
  | [] ↦ false
  | l0 ∷ rest ↦ le_num l0_compaction_threshold (length l0)
]

-- `.map(|p| SsTableReader::open(p)).collect::<Result<Vec<_>, _>>()?`
unfoldable pub open_all : List FilePath → Io CompactionError (List SsTableReader)
open_all [] = pure []
open_all (p ∷ paths) = do
  reader ← convert from_sstable (open_table p)
  readers ← open_all paths
  pure (reader ∷ readers)

abbrev pub min_key : Bytes → Bytes → Bytes
min_key a b = if leb a b then a else b

abbrev pub max_key : Bytes → Bytes → Bytes
max_key a b = if leb a b then b else a

abbrev pub widen : Option Range → Range → Range
widen none range = range
widen (some (lo, hi)) (min, max) = (min_key lo min, max_key hi max)

-- The loop that combines the ranges of the L0 files.
unfoldable pub combined_range :
    List SsTableReader → Option Range → Outcome CompactionError (Option Range)
combined_range [] range = ok range
combined_range (r ∷ readers) range =
    Base.◌>>=◌ (key_range r) (λ own. combined_range readers (some (widen range own)))

pub record Split : Type 0 where
  pub overlapping_paths : List FilePath
  pub overlapping_readers : List SsTableReader
  pub untouched_paths : List FilePath

-- The loop over L1. It stops at the first file that cannot be read or holds no record.
unfoldable pub split_l1 : Range → List FilePath → Split → Io CompactionError Split
split_l1 l0_range [] split = pure split
split_l1 l0_range (path ∷ paths) split = do
  reader ← convert from_sstable (open_table path)
  l1_range ← lift (key_range reader)
  split_l1 l0_range paths (
      if ranges_overlap l0_range l1_range
      then record split {
        overlapping_paths = split.overlapping_paths ++ (path ∷ []);
        overlapping_readers = split.overlapping_readers ++ (reader ∷ []);
      }
      else record split { untouched_paths = split.untouched_paths ++ (path ∷ []) })

-- `fs::remove_file(path).ok()` for each path
unfoldable pub remove_all {ℓ} : {E : Type ℓ} → List FilePath → Io E (Unit {0})
remove_all [] w = (ok tt, w)
remove_all (p ∷ paths) w = let (_, w') = remove_file p w in remove_all paths w'
