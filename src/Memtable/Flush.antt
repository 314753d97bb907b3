-- ===== src/Memtable/Flush.antt =====
-- `MemTable::flush` on a file system where any call may fail, and the table read back.
use via_tabula.Base.{◌^◌, ◌<◌, ◌≡◌, ◌≢◌, refl, true, [], length, All}
use via_tabula.Map.{IsSorted}
use via_tabula.Fs.{FilePath, World, contents}
use via_tabula.Fs.Post.{Post, returns, Post-bind, Post-imp}
use via_tabula.Bloom.{new_filter}
use via_tabula.Bloom.Arith.{Floats}
use via_tabula.Bloom.Create.{FloatLaws}
use via_tabula.Sstable.Writer.{tmp_of}
use via_tabula.Sstable.Layout.{FitsRecord, records, sparse_index}
use via_tabula.Sstable.Build.{Built, add_all-Built}
use via_tabula.Sstable.Finish.{Stored, finish-Stored}
use via_tabula.Sstable.Whole.{
  Failed, new_writer-Building, file_of, Prepared, prepare, TableAt, TableAt-file_of,
}
use via_tabula.Memtable.{MemTable, flush}

flush-Stored :
    (fl : Floats) (t : MemTable) (path : FilePath) (w : World)
    → tmp_of path ≢ path
    → (p : Prepared fl (length t.entries) t.entries)
    → Post
        (λ q w'.
          (q ≡ path)
          × Stored path
              (tmp_of path)
              (contents w.files)
              (w.faults ≡ [])
              (file_of t.entries p.filter)
              w')
        (Failed path w)
        (flush fl t path w)
unfolding flush Built
flush-Stored fl t path w apart p =
    let tmp = tmp_of path in
    let old = contents w.files in
    let Q = w.faults ≡ [] in
    Post-bind _ (new_writer-Building fl path (length t.entries) w) (λ sw w1 b.
      Post-bind _
        (add_all-Built path tmp old Q t.entries [] [] 0
          (new_filter fl (length t.entries) fl.one_percent) p.filter sw w1 apart p.start p.filled b)
        (λ sw' w2 (since, b').
          Post-bind _
            (finish-Stored path tmp old Q (records t.entries) (sparse_index 0 0 true t.entries)
              since p.filter sw' w2 apart b')
            (λ _ w3 s. returns _ _ (refl, s))))

-- What a flush has done once it returned: the table is in the file, all other files except the
-- temporary one are as they were, and there are no faults where there were none.
pub record Flushed (t : MemTable) (path : FilePath) (w w' : World) : Type 0 where
  pub table : TableAt t.entries path w'
  pub kept : (q : FilePath) → q ≢ tmp_of path → q ≢ path → contents w'.files q ≡ contents w.files q
  pub quiet : w.faults ≡ [] → w'.faults ≡ []

-- Flushing a table whose keys ascend and whose lengths fit a file, to a name that is not its own
-- temporary name, whatever calls of the file system fail: either it returns the name, and then the
-- file of that name opens and answers every lookup, and its full iteration, as the table does, and
-- all other files except the temporary one are as they were; or it errs, and then some call had
-- failed and every file except the temporary one is as it was. It does not panic.
pub flush-Serves :
    (fl : Floats) (laws : FloatLaws fl) (t : MemTable) (path : FilePath) (w : World)
    → tmp_of path ≢ path
    → IsSorted t.entries
    → All FitsRecord t.entries
    → length (records t.entries) < 2 ^ 62
    → Post (λ p w'. (p ≡ path) × Flushed t path w w') (Failed path w) (flush fl t path w)
flush-Serves fl laws t path w apart sorted fits small =
    let p = prepare fl laws (length t.entries) t.entries sorted fits in
    Post-imp (flush-Stored fl t path w apart p) (λ q w' (e, s). (
      e,
      record {
        table = TableAt-file_of t.entries path w' p.filter p.holds p.k_fits p.m_fits small s.holds;
        kept = s.kept;
        quiet = s.quiet;
      },
    ))
