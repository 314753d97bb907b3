-- ===== src/Compaction/Whole.antt =====
-- `merge_sstables` from the readers to the file that it leaves.
use via_tabula.Base.{ℕ, suc, ◌^◌, ◌<◌, ◌≡◌, ◌≢◌, true, Option, List, [], length, All, arith, map}
use via_tabula.Base.Bytes.{Bytes}
use via_tabula.Types.{hide_tombstone}
use via_tabula.Map
use via_tabula.Map.{Entries, IsSorted}
use via_tabula.Fs.{FilePath, World, contents}
use via_tabula.Fs.Post.{Post, Post-bind, Post-imp, Post-map_err}
use via_tabula.Bloom.{new_filter}
use via_tabula.Bloom.Arith.{Floats}
use via_tabula.Bloom.Create.{FloatLaws}
use via_tabula.Sstable.Writer.{SsTableWriter, tmp_of}
use via_tabula.Sstable.Reader.{SsTableReader, iter}
use via_tabula.Sstable.Layout.{FitsRecord, records, sparse_index}
use via_tabula.Sstable.Build.{Built, add_all-Built}
use via_tabula.Sstable.Finish.{Stored, finish-Stored}
use via_tabula.Sstable.Whole.{
  Failed, new_writer-Building, file_of, Prepared, prepare, TableAt, TableAt-file_of,
}
use via_tabula.Memtable.{add_all, without_tombstones}
use via_tabula.Memtable.Table.{get-without_tombstones, without_tombstones-IsSorted}
use via_tabula.Compaction.Merge.{
  initial_state, count_records, from_sstable, merge_loop, merge_sstables,
}
use via_tabula.Compaction.Pulled.{rest}
use via_tabula.Compaction.Newest.{Latest}
use via_tabula.Compaction.Merged.{emitted}
use via_tabula.Compaction.Initial.{initial_state-Filled, merged-Latest}
use via_tabula.Compaction.Loop.{merge_loop-emitted}
use via_tabula.Compaction.Emitted.{InOrder, emitted-All, emitted-IsSorted, without_tombstones-All}

-- The records of reader `j`, in the order of its file; none where there is no such reader.
abbrev pub records_of : List SsTableReader → ℕ → Entries
records_of readers j = rest j (map iter readers)

-- All that the rounds emit, and what of it the writer gets.
abbrev rounds : List SsTableReader → Entries
rounds readers = emitted (suc (count_records readers)) (initial_state readers)

abbrev pub merged : List SsTableReader → Entries
merged readers = without_tombstones (rounds readers)

initial_state-InOrder :
    (readers : List SsTableReader)
    → ((j : ℕ) → IsSorted (records_of readers j))
    → InOrder (initial_state readers)
initial_state-InOrder readers sorted =
    let f = initial_state-Filled readers in
    record { waits = f.ready; sorted = λ j. rw (f.streams j) (sorted j) }

merged-IsSorted :
    (readers : List SsTableReader)
    → ((j : ℕ) → IsSorted (records_of readers j))
    → IsSorted (merged readers)
merged-IsSorted readers sorted =
    without_tombstones-IsSorted (rounds readers)
      (emitted-IsSorted _ _ (initial_state-InOrder readers sorted))

merged-All :
    (P : Bytes × Bytes → Type 0) (readers : List SsTableReader)
    → ((j : ℕ) → IsSorted (records_of readers j))
    → ((j : ℕ) → All P (records_of readers j))
    → All P (merged readers)
merged-All P readers sorted all =
    let f = initial_state-Filled readers in
    without_tombstones-All P (rounds readers)
      (emitted-All P _ _ (initial_state-InOrder readers sorted) (λ j. rw (f.streams j) (all j)))

-- What adding the merged records establishes, the main loop does.
as_added :
    {Good : SsTableWriter → World → Type 0} {Bad : World → Type 0} (readers : List SsTableReader)
    (sw : SsTableWriter) (w : World)
    → Post Good Bad (add_all sw (merged readers) w)
    → Post Good Bad (merge_loop (suc (count_records readers)) (initial_state readers) sw w)
as_added readers sw w h =
    let filled = initial_state-Filled readers in
    rw
      (merge_loop-emitted (suc (count_records readers)) (initial_state readers) sw w
        (omega (arith, filled.count)))
      h

merge_sstables-Stored :
    (fl : Floats) (readers : List SsTableReader) (path : FilePath) (w : World)
    → tmp_of path ≢ path
    → (p : Prepared fl (count_records readers) (merged readers))
    → Post
        (λ _.
          Stored path
            (tmp_of path)
            (contents w.files)
            (w.faults ≡ [])
            (file_of (merged readers) p.filter))
        (Failed path w)
        (merge_sstables fl readers path w)
unfolding merge_sstables Built
merge_sstables-Stored fl readers path w apart p =
    let tmp = tmp_of path in
    let old = contents w.files in
    let Q = w.faults ≡ [] in
    let n = count_records readers in
    let es = merged readers in
    Post-bind _ (Post-map_err from_sstable (new_writer-Building fl path n w)) (λ sw w1 b.
      Post-bind _
        (Post-map_err from_sstable (
          as_added readers sw w1 (
            add_all-Built path tmp old Q es [] [] 0 (new_filter fl n fl.one_percent) p.filter sw w1
              apart p.start p.filled b)))
        (λ sw' w2 (since, b'). Post-map_err from_sstable (
          finish-Stored path tmp old Q (records es) (sparse_index 0 0 true es) since p.filter sw' w2
            apart b')))

-- What a merge has done once it returned: the file of that name is a sorted table that has for every
-- key what the first reader with a record of the key has, unless that is a tombstone; all other files
-- except the temporary one are as they were, and there are no faults where there were none.
pub record MergedTo (readers : List SsTableReader) (path : FilePath) (w w' : World) : Type 0 where
  pub entries : Entries
  pub sorted : IsSorted entries
  pub table : TableAt entries path w'
  pub newest :
      (q : Bytes)
      → (o : Option Bytes) × Latest (λ j. Map.get (records_of readers j) q) o
        × (Map.get entries q ≡ hide_tombstone o)
  pub kept : (q : FilePath) → q ≢ tmp_of path → q ≢ path → contents w'.files q ≡ contents w.files q
  pub quiet : w.faults ≡ [] → w'.faults ≡ []

-- Merging tables that are sorted and have lengths that fit a file, into a table that fits a file, under
-- a name that is not its own temporary name, whatever calls of the file system fail: either it
-- returns, and then the file of that name opens as a sorted table that answers every lookup with the
-- newest record of the sources, the first reader being the newest, and with nothing where that
-- is a tombstone or no source has the key; or it errs, and then some call had failed and every file
-- except the temporary one is as it was. It does not panic, and its loop ends.
pub merge_sstables-Merged :
    (fl : Floats) (laws : FloatLaws fl) (readers : List SsTableReader) (path : FilePath) (w : World)
    → tmp_of path ≢ path
    → ((j : ℕ) → IsSorted (records_of readers j))
    → ((j : ℕ) → All FitsRecord (records_of readers j))
    → length (records (merged readers)) < 2 ^ 62
    → Post (λ _. MergedTo readers path w) (Failed path w) (merge_sstables fl readers path w)
merge_sstables-Merged fl laws readers path w apart sorted fits small =
    let es = merged readers in
    let ascend = merged-IsSorted readers sorted in
    let p =
      prepare fl laws (count_records readers) es ascend
        (merged-All FitsRecord readers sorted fits) in
    Post-imp (merge_sstables-Stored fl readers path w apart p) (λ _ w' s. record {
      entries = es;
      sorted = ascend;
      table = TableAt-file_of es path w' p.filter p.holds p.k_fits p.m_fits small s.holds;
      newest = λ q. (
        Map.get (rounds readers) q,
        merged-Latest readers q sorted,
        get-without_tombstones (rounds readers) q
            (emitted-IsSorted _ _ (initial_state-InOrder readers sorted)),
      );
      kept = s.kept;
      quiet = s.quiet;
    })
