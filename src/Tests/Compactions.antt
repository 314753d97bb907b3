-- ===== src/Tests/Compactions.antt =====
-- The theorem on `compact` at a concrete folder.
use via_tabula.Base.{
  ◌^◌, ◌<◌, ◌≡◌, ◌≢◌, refl, ◌∙◌, sym, true, false, some, List, [], ◌∷◌, ◌++◌, length, ok, arith,
  Outcome,
}
use via_tabula.Base.Order.{cmp}
use via_tabula.Fs.{
  FilePath, World, contents, same_path, same_path_refl, join, with_file_name, with_extension,
  file_stem,
}
use via_tabula.Map.{Entries}
use via_tabula.Fs.Post.{Post}
use via_tabula.Sstable.Writer.{SsTableError, tmp_of}
use via_tabula.Sstable.Reader.{SsTableReader}
use via_tabula.Sstable.Layout.{records}
use via_tabula.Sstable.Lookup.{Holds, reader_of}
use via_tabula.Base.Bytes.{to_le_bytes, from_le_bytes}
use via_tabula.Sstable.Writer.{record_bytes}
use via_tabula.Sstable.Whole.{Failed, TableAt-file_of, open_table-file_of, file_of}
use via_tabula.Compaction.Whole.{merged}
use via_tabula.Levels.{Managed, Range, compact, table_name}
use via_tabula.Levels.Inputs.{
  IsSource, Opened, no_files, file, Parts, no_more, meets, apart, IsOpened,
}
use via_tabula.Levels.Compacted.{CompactedTo, output_name, compact-CompactedTo}
use via_tabula.Bloom.{to_bytes}
use via_tabula.Types.{is_tombstone}
use via_tabula.Sstable.Writer.{index_len}
use via_tabula.Sstable.Reader.{iter, next, read_record, read_exact}
use via_tabula.Memtable.{without_tombstones}
use via_tabula.Compaction.{
  initial_state, count_records, fill, pull, merge_round, pop, push, drain, take_min, better,
  collect, items, refill,
}
use via_tabula.Compaction.Merged.{emitted}
use via_tabula.Sstable.Layout.{image, index_bytes, sparse_index, footer}
use via_tabula.Tests.Tables.{
  hundredths, hundredths-FloatLaws, key, three, full, three-Holds, three_small,
}
use via_tabula.Tests.Merges.{newer, merged_small}

abbrev newer_path : FilePath
newer_path = join (b'd' ∷ []) (key b'1')

abbrev three_path : FilePath
three_path = join (b'd' ∷ []) (key b'2')

-- A table of L1, with the last key of L0.
abbrev old : Entries
old = (key b'c', 4 ∷ []) ∷ []

abbrev old_path : FilePath
old_path = join (b'd' ∷ []) (key b'3')

-- The first of the calls of the merge fails.
abbrev folder : World
folder = record {
  files =
      (newer_path, file_of newer full)
      ∷ (three_path, file_of three full)
      ∷ (old_path, file_of old full)
      ∷ [];
  faults = some 0 ∷ [];
  clock = 7 ∷ [];
}

newer-Holds : Holds newer full
newer-Holds = record {
  sorted = (tt, tt);
  fits = ((omega arith, omega arith), tt);
  valid = three-Holds.valid;
  known = (three-Holds.known.0, tt);
}

old-Holds : Holds old full
old-Holds = record {
  sorted = (tt, tt);
  fits = ((omega arith, omega arith), tt);
  valid = three-Holds.valid;
  known = (three-Holds.known.1.1.0, tt);
}

old_small : length (records old) < 2 ^ 62
unfolding records record_bytes to_le_bytes
old_small = omega arith

old_there : contents folder.files old_path ≡ some (file_of old full)
unfolding contents same_path cmp join
old_there = refl

newer_small : length (records newer) < 2 ^ 62
unfolding records record_bytes to_le_bytes
newer_small = omega arith

there : contents folder.files newer_path ≡ some (file_of newer full)
unfolding contents same_path cmp join
there = refl

three_there : contents folder.files three_path ≡ some (file_of three full)
unfolding contents same_path cmp join
three_there = refl

newer-IsSource : IsSource folder newer_path
newer-IsSource = record {
  entries = newer;
  filled = omega arith;
  sorted = newer-Holds.sorted;
  fits = newer-Holds.fits;
  table =
      TableAt-file_of newer newer_path folder full newer-Holds (omega arith) (omega arith)
        newer_small there;
}

three-IsSource : IsSource folder three_path
three-IsSource = record {
  entries = three;
  filled = omega arith;
  sorted = three-Holds.sorted;
  fits = three-Holds.fits;
  table =
      TableAt-file_of three three_path folder full three-Holds (omega arith) (omega arith)
        three_small three_there;
}

old-IsSource : IsSource folder old_path
old-IsSource = record {
  entries = old;
  filled = omega arith;
  sorted = old-Holds.sorted;
  fits = old-Holds.fits;
  table =
      TableAt-file_of old old_path folder full old-Holds (omega arith) (omega arith) old_small
        old_there;
}

abbrev out : FilePath
out = output_name newer_path folder

names :
    (same_path (tmp_of out) out ≡ false)
    × (same_path out newer_path ≡ false)
    × (same_path out three_path ≡ false)
    × (same_path out old_path ≡ false)
unfolding same_path cmp with_extension file_stem with_file_name table_name join
names = (refl, refl, refl, refl)

differ : (p q : FilePath) → same_path p q ≡ false → p ≢ q
differ p q h e =
    let same : same_path p q ≡ true = rw e (same_path_refl q) in ground (arith, same, h)

same_reader :
    {r r' : SsTableReader}
    → ◌≡◌ {A = Outcome SsTableError SsTableReader × World} (ok r, folder) (ok r', folder)
    → r ≡ r'
same_reader e = cc

-- The three tables, the one of L1 last.
all_readers : List SsTableReader
all_readers = reader_of newer full ∷ reader_of three full ∷ reader_of old full ∷ []

merged_is : merged all_readers ≡ (key b'a', 9 ∷ []) ∷ (key b'c', 3 ∷ []) ∷ []
unfolding all_readers emitted without_tombstones initial_state count_records fill pull merge_round
    records record_bytes pop next iter to_le_bytes read_record read_exact image to_bytes index_bytes
    sparse_index footer from_le_bytes push is_tombstone cmp drain take_min better collect items
    refill index_len
merged_is = refl

all_small : length (records (merged all_readers)) < 2 ^ 62
unfolding records record_bytes to_le_bytes
all_small = rw merged_is (omega arith)

newer_reader : (r : SsTableReader) → IsOpened folder newer_path r → r ≡ reader_of newer full
newer_reader r o = same_reader (
    sym o.opens
    ∙ open_table-file_of newer newer_path folder full newer-Holds (omega arith) (omega arith)
        newer_small there)

three_reader : (r : SsTableReader) → IsOpened folder three_path r → r ≡ reader_of three full
three_reader r o = same_reader (
    sym o.opens
    ∙ open_table-file_of three three_path folder full three-Holds (omega arith) (omega arith)
        three_small three_there)

old_reader : (r : SsTableReader) → IsOpened folder old_path r → r ≡ reader_of old full
old_reader r o = same_reader (
    sym o.opens
    ∙ open_table-file_of old old_path folder full old-Holds (omega arith) (omega arith) old_small
        old_there)

small :
    (range : Range) (over un : List FilePath) (rs0 rs : List SsTableReader)
    → Opened folder (newer_path ∷ three_path ∷ []) rs0
    → Opened folder over rs
    → Parts folder range (old_path ∷ []) over un
    → length (records (merged (rs0 ++ rs))) < 2 ^ 62
unfolding all_readers
small range over un rs0 rs (file p r ps rs' o (file p' r' ps' rs'' o' no_files)) no_files
      (apart q l1 over' un' r3 own e k d no_more) =
    rw (newer_reader r o, three_reader r' o') merged_small
small range over un rs0 rs (file p r ps rs' o (file p' r' ps' rs'' o' no_files))
      (file q r'' qs rs3 o'' no_files) (meets q' l1 over' un' r3 own e k d no_more) =
    rw (newer_reader r o, three_reader r' o', old_reader r'' o'') all_small
small range _ _ _ _ (file _ r _ _ o (file _ r' _ _ o' no_files)) (file q r'' _ _ o'' no_files)
      (apart _ _ _ un' r3 own e k d more) =
    elim more [ ]
small range _ _ _ _ (file _ r _ _ o (file _ r' _ _ o' no_files))
      (file q r'' _ _ o'' (file _ _ _ _ _ _)) (apart _ _ _ un' r3 own e k d more) =
    elim more [ ]
small range _ _ _ _ (file _ r _ _ o (file _ r' _ _ o' no_files))
      (file q r'' _ _ o'' (file _ _ _ _ _ _)) (meets _ _ _ un' r3 own e k d more) =
    elim more [ ]

compact-CompactedTo_example :
    Post
      (λ _ (e : Managed).
        (l1' : List FilePath) × (e.0.levels ≡ [] ∷ l1' ∷ [])
        × CompactedTo (newer_path ∷ three_path ∷ []) (old_path ∷ []) out folder l1' e.1)
      (λ (e : Managed). (e.0.levels ≡ [] ∷ [] ∷ []) × Failed out folder e.1)
      (compact hundredths
        (record { levels = (newer_path ∷ three_path ∷ []) ∷ (old_path ∷ []) ∷ [] }, folder))
compact-CompactedTo_example =
    compact-CompactedTo hundredths hundredths-FloatLaws newer_path (three_path ∷ []) (old_path ∷ [])
      [] folder (differ (tmp_of out) out names.0)
      (differ out newer_path names.1, (differ out three_path names.2, tt))
      (differ out old_path names.3, tt) (newer-IsSource, (three-IsSource, tt)) (old-IsSource, tt)
      small
