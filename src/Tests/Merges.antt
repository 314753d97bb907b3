-- ===== src/Tests/Merges.antt =====
-- The theorems on the merge at two concrete readers.
use via_tabula.Base.{refl, All, length, ◌^◌, ℕ, zero, suc, ◌<◌, ◌≡◌, List, [], ◌∷◌, arith, map}
use via_tabula.Base.Bytes.{to_le_bytes, from_le_bytes}
use via_tabula.Bloom.{to_bytes}
use via_tabula.Types.{is_tombstone}
use via_tabula.Base.Order.{cmp}
use via_tabula.Map
use via_tabula.Map.{Entries, IsSorted}
use via_tabula.Sstable.Writer.{SsTableWriter, index_len}
use via_tabula.Sstable.Reader.{SsTableReader, iter, next, read_record, read_exact}
use via_tabula.Sstable.Lookup.{reader_of, collect-reader_of}
use via_tabula.Memtable.{add_all, without_tombstones}
use via_tabula.Compaction.{
  MergeState, initial_state, count_records, merge_loop, fill, pull, merge_round, merge_sstables,
  pop, push, drain, take_min, better, collect, items, refill,
}
use via_tabula.Compaction.Pulled.{rest, rest_of}
use via_tabula.Compaction.Newest.{Latest}
use via_tabula.Compaction.Merged.{emitted, to_merge}
use via_tabula.Compaction.Initial.{initial_state-Filled, merged-Latest}
use via_tabula.Fs.Post.{Post}
use via_tabula.Sstable.Layout.{FitsRecord, records, image, index_bytes, sparse_index, footer}
use via_tabula.Sstable.Writer.{record_bytes}
use via_tabula.Sstable.Whole.{Failed}
use via_tabula.Compaction.Whole.{merged, MergedTo, merge_sstables-Merged}
use via_tabula.Compaction.Loop.{merge_loop-emitted}
use via_tabula.Tests.Tables.{
  key, three, full, three-IsSorted, three-Holds, disk, here, apart, hundredths,
  hundredths-FloatLaws,
}

-- The newer table has another value for a.
abbrev pub newer : Entries
newer = (key b'a', 9 ∷ []) ∷ []

abbrev pub readers : List SsTableReader
readers = reader_of newer full ∷ reader_of three full ∷ []

readers-IsSorted : (j : ℕ) → IsSorted (rest j (map iter readers))
unfolding rest rest_of
readers-IsSorted zero = rw (collect-reader_of newer full ((omega arith, omega arith), tt)) (tt, tt)
readers-IsSorted (suc zero) = rw (collect-reader_of three full three-Holds.fits) three-IsSorted
readers-IsSorted (suc (suc j)) = tt

merged-Latest_example :
    Latest
      (λ j. Map.get (rest j (map iter readers)) (key b'a'))
      (Map.get (emitted (suc (count_records readers)) (initial_state readers)) (key b'a'))
merged-Latest_example = merged-Latest readers (key b'a') readers-IsSorted

abbrev start : MergeState
start = initial_state readers

enough : to_merge start.iters start.heap < suc (count_records readers)
enough = let filled = initial_state-Filled readers in omega (arith, filled.count)

abbrev writer : SsTableWriter
writer = record {
  writer = record { file = here; buffer = []; capacity = 64 };
  index = [];
  bytes_since_last_index = 0;
  offset = 0;
  filter = full;
  record_buf = [];
  final_path = here;
  tmp_path = here;
}

merge_loop-emitted_example :
    merge_loop (suc (count_records readers)) start writer disk
    ≡ add_all writer (without_tombstones (emitted (suc (count_records readers)) start)) disk
merge_loop-emitted_example =
    merge_loop-emitted (suc (count_records readers)) start writer disk enough

readers-fit : (j : ℕ) → All FitsRecord (rest j (map iter readers))
unfolding rest rest_of
readers-fit zero =
    rw (collect-reader_of newer full ((omega arith, omega arith), tt))
      ((omega arith, omega arith), tt)
readers-fit (suc zero) = rw (collect-reader_of three full three-Holds.fits) three-Holds.fits
readers-fit (suc (suc j)) = tt

merged_is : merged readers ≡ (key b'a', 9 ∷ []) ∷ (key b'c', 3 ∷ []) ∷ []
unfolding emitted without_tombstones initial_state count_records fill pull merge_round records
    record_bytes pop next iter to_le_bytes read_record read_exact image to_bytes index_bytes
    sparse_index footer from_le_bytes push is_tombstone cmp drain take_min better collect items
    refill index_len
merged_is = refl

pub merged_small : length (records (merged readers)) < 2 ^ 62
unfolding records record_bytes to_le_bytes
merged_small = rw merged_is (omega arith)

merge_sstables-Merged_example :
    Post
      (λ _. MergedTo readers here disk)
      (Failed here disk)
      (merge_sstables hundredths readers here disk)
merge_sstables-Merged_example =
    merge_sstables-Merged hundredths hundredths-FloatLaws readers here disk apart readers-IsSorted
      readers-fit merged_small
