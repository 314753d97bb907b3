-- ===== src/Tests/Tables.antt =====
-- The theorems on SSTables and on flushing at a concrete table.
use via_tabula.Base.{
  ◌⊎◌, ℕ, zero, suc, ◌+◌, ◌*◌, ◌/◌, ◌%◌, ◌^◌, ◌<◌, ◌≡◌, ◌≢◌, refl, true, false, none, some, [], ◌∷◌,
  inr, length, replicate, ok, arith,
}
use via_tabula.Base.Bytes.{Bytes, to_le_bytes}
use via_tabula.Base.Order.{cmp}
use via_tabula.Map
use via_tabula.Map.{Entries, IsSorted}
use via_tabula.Types.{tombstone}
use via_tabula.Fs.{FilePath, World, same_path, same_path_refl, with_extension, file_stem}
use via_tabula.Fs.Post.{Post}
use via_tabula.Bloom.{
  BloomFilter, insert, insert_loop, set_bit, fnv_1a, djb2, position, may_contain, may_contain_loop,
  get_bit,
}
use via_tabula.Bloom.Arith.{Floats}
use via_tabula.Bloom.Create.{FloatLaws}
use via_tabula.Bloom.Insert.{insert_all}
use via_tabula.Sstable.Writer.{SsTableError, tmp_of, record_bytes}
use via_tabula.Sstable.Reader.{open_bytes, get_raw, iter}
use via_tabula.Sstable.Layout.{records, sparse_index, image}
use via_tabula.Sstable.Lookup.{Holds, reader_of, get_raw-reader_of, collect-reader_of}
use via_tabula.Compaction.{collect, MergeState, merge_round}
use via_tabula.Compaction.Round.{Chooses, merge_round-Chooses}
use via_tabula.Sstable.Open.{open_bytes-image}
use via_tabula.Sstable.Size.{image-FitsFile}
use via_tabula.Memtable.{MemTable, flush}
use via_tabula.Memtable.Flush.{Flushed, flush-Serves}
use via_tabula.Sstable.Whole.{Failed}

abbrev pub key : ℕ → Bytes
key n = n ∷ []

-- The keys a, b and c, of which b is deleted.
abbrev pub three : Entries
three = (key b'a', 1 ∷ []) ∷ (key b'b', tombstone) ∷ (key b'c', 3 ∷ []) ∷ []

pub three-IsSorted : IsSorted three
unfolding cmp
three-IsSorted = ((refl, (refl, tt)), ((refl, tt), (tt, tt)))

abbrev blank : BloomFilter
blank = record { bits = replicate 4 0; k = 7; m = 30 }

abbrev pub full : BloomFilter
full = record { bits = 73 ∷ 88 ∷ 77 ∷ 7 ∷ []; k = 7; m = 30 }

insert_all_run : insert_all {E = SsTableError} blank (key b'a' ∷ key b'b' ∷ key b'c' ∷ []) ≡ ok full
unfolding insert insert_all insert_loop set_bit fnv_1a djb2 position
insert_all_run = refl

pub three-Holds : Holds three full
unfolding may_contain may_contain_loop get_bit fnv_1a djb2 position
three-Holds = record {
  sorted = three-IsSorted;
  fits =
      ((omega arith, omega arith), ((omega arith, omega arith), ((omega arith, omega arith), tt)));
  valid = record {
    sized = refl;
    bytes = (omega arith, (omega arith, (omega arith, (omega arith, tt))));
    some_bit = inr (omega arith);
  };
  known = (refl, (refl, (refl, tt)));
}

get_raw-reader_of_example :
    get_raw (reader_of three full) (key b'b') ≡ ok (Map.get three (key b'b'))
get_raw-reader_of_example = get_raw-reader_of three full (key b'b') three-Holds

collect-reader_of_example : collect (iter (reader_of three full)) ≡ three
collect-reader_of_example = collect-reader_of three full three-Holds.fits

-- Numbers of hundredths, without a sign.
abbrev quotient : ℕ → ℕ → ℕ
quotient zero b = 0
quotient (suc a) b = suc a * 100 / b

abbrev pub hundredths : Floats
hundredths = record {
  F = ℕ;
  of_usize = λ n. n * 100;
  neg = λ x. x;
  mul = λ a b. a * b / 100;
  div = quotient;
  ln = λ x. 460;
  ln_2 = 69;
  powi = λ x n. x * x / 100;
  ceil_usize = λ x. (x + 99) / 100 % 2 ^ 64;
  round_usize = λ x. (x + 50) / 100 % 2 ^ 64;
  one_percent = 1;
}

pub hundredths-FloatLaws : FloatLaws hundredths
hundredths-FloatLaws = record {
  ceil_small = λ x. omega arith;
  round_small = λ x. omega arith;
  round_zero = λ x. refl;
}

abbrev pub memtable : MemTable
memtable = record { entries = three }

abbrev pub here : FilePath
here = record { parent = []; file_name = b'1' ∷ b'.' ∷ b's' ∷ b's' ∷ b't' ∷ [] }

-- An old file of that name, and a disk whose second write fails after five bytes.
abbrev pub disk : World
disk = record { files = (here, 9 ∷ []) ∷ []; faults = none ∷ some 5 ∷ []; clock = [] }

other_name : same_path (tmp_of here) here ≡ false
unfolding same_path cmp with_extension file_stem
other_name = refl

pub apart : tmp_of here ≢ here
apart e =
    let same : same_path (tmp_of here) here ≡ true = rw e (same_path_refl here) in
    ground (arith, same, other_name)

pub three_small : length (records three) < 2 ^ 62
unfolding records record_bytes to_le_bytes
three_small = omega arith

flush-Serves_example :
    Post
      (λ p w'. (p ≡ here) × Flushed memtable here disk w')
      (Failed here disk)
      (flush hundredths memtable here disk)
flush-Serves_example =
    flush-Serves hundredths hundredths-FloatLaws memtable here disk apart three-IsSorted
      three-Holds.fits three_small

-- Two sources hold a, of which source 0 is kept.
abbrev pub heads : MergeState
heads = record {
  iters = [];
  heap =
      record { key = key b'b'; value = 1 ∷ []; source_index = 0 }
      ∷ record { key = key b'a'; value = 2 ∷ []; source_index = 2 }
      ∷ record { key = key b'a'; value = 3 ∷ []; source_index = 1 }
      ∷ [];
}

merge_round-Chooses_example :
    ((heads.heap ≡ []) × (merge_round heads ≡ none))
    ⊎ ((k : Bytes) × (value : Bytes) × (after : MergeState) × (merge_round heads
          ≡ some ((k, value), after))
        × Chooses heads k value after)
merge_round-Chooses_example = merge_round-Chooses heads

open_bytes-image_example :
    open_bytes (image (records three) full (sparse_index 0 0 true three))
    ≡ ok (reader_of three full)
open_bytes-image_example = open_bytes-image (records three) full (sparse_index 0 0 true three) (
    image-FitsFile three full three-Holds.valid (omega arith) (omega arith) three-Holds.fits
      three_small)
