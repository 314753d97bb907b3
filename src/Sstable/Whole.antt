-- ===== src/Sstable/Whole.antt =====
-- A table written from first to last, by `SsTableWriter::new`, `add` and `finish`, and read back.
use via_tabula.Base.{
  ℕ, ◌^◌, ◌<◌, ◌≡◌, refl, ◌∙◌, sym, ap, true, Option, none, some, [], ◌∷◌, length, All, Outcome, ok,
  err, arith,
}
use via_tabula.Base.Bytes.{Bytes}
use via_tabula.Map
use via_tabula.Map.{Entries, IsSorted}
use via_tabula.Fs.{
  no_fault, FilePath, World, contents, contents-put, contents-put_other, same_path_refl, create,
  later_faults, read,
}
use via_tabula.Fs.Post.{Post, returns, Post-bind, Post-map_err, Post-attempt}
use via_tabula.Bloom.{BloomFilter, IsFilter, may_contain, new_filter}
use via_tabula.Bloom.Arith.{Floats}
use via_tabula.Bloom.Create.{FloatLaws, new_filter-IsFilter}
use via_tabula.Bloom.Insert.{insert_all, insert_all_keeps, may_contain-insert_all}
use via_tabula.Sstable.Writer.{SsTableError, io, new_writer, tmp_of, writer_buffer_capacity}
use via_tabula.Sstable.Reader.{SsTableReader, open_bytes, open_table, get_raw, iter}
use via_tabula.Sstable.Layout.{FitsRecord, records, sparse_index, image}
use via_tabula.Sstable.Stream.{Streaming, Unchanged}
use via_tabula.Sstable.Build.{Building, keys_of, ok_inj}
use via_tabula.Sstable.Size.{image-FitsFile}
use via_tabula.Sstable.Open.{open_bytes-image}
use via_tabula.Sstable.Lookup.{Holds, reader_of, get_raw-reader_of, collect-reader_of}
use via_tabula.Compaction.{collect}

-- After a failure, of a writer to this name that began in this world.
abbrev pub Failed : FilePath → World → World → Type 0
Failed path w = Unchanged path (tmp_of path) (contents w.files) (w.faults ≡ [])

pub new_writer-Building :
    (fl : Floats) (path : FilePath) (n : ℕ) (w : World)
    → Post
        (Building path
          (tmp_of path)
          (contents w.files)
          (w.faults ≡ [])
          []
          []
          0
          (new_filter fl n fl.one_percent))
        (Failed path w)
        (new_writer fl path n w)
unfolding new_writer create
new_writer-Building fl path n w =
    let tmp = tmp_of path in
    Post-bind _
      (Post-map_err (λ _. io)
        (Post-attempt
          {Good = λ _.
            Streaming path tmp (contents w.files) (w.faults ≡ []) []
              (record { file = tmp; buffer = []; capacity = writer_buffer_capacity })}
          _ _ w
          (λ fine. record {
            to_tmp = refl;
            front = [];
            there = rw (contents-put, same_path_refl tmp) refl;
            all = refl;
            kept = λ q other. contents-put_other tmp q [] w.files other;
            quiet = λ q. ap later_faults q;
            room = omega arith;
          })
          (λ k fault. record { kept = λ q other. refl; noisy = λ q. no_fault w.faults k q fault })))
      (λ _ w' s. returns _ _ (record {
        stream = s;
        offset = refl;
        index = refl;
        recent = refl;
        filter = refl;
        temporary = refl;
        final = refl;
      }))

-- What the final name holds in the end.
abbrev pub file_of : Entries → BloomFilter → Bytes
file_of es f = image (records es) f (sparse_index 0 0 true es)

known_entries :
    (f : BloomFilter) (all : Entries)
    → All (λ key. may_contain {E = SsTableError} f key ≡ ok true) (keys_of all)
    → All (λ e. may_contain {E = SsTableError} f e.0 ≡ ok true) all
known_entries f [] h = tt
known_entries f ((key, value) ∷ all) h = (h.0, known_entries f all h.1)

-- The filter that a writer made for `n` keys has after all keys of the table.
pub record Prepared (fl : Floats) (n : ℕ) (es : Entries) : Type 0 where
  pub filter : BloomFilter
  pub start : IsFilter (new_filter fl n fl.one_percent)
  pub filled :
      insert_all {E = SsTableError} (new_filter fl n fl.one_percent) (keys_of es) ≡ ok filter
  pub holds : Holds es filter
  pub k_fits : filter.k < 2 ^ 64
  pub m_fits : filter.m < 2 ^ 64

pub prepare :
    (fl : Floats) (laws : FloatLaws fl) (n : ℕ) (es : Entries)
    → IsSorted es
    → All FitsRecord es
    → Prepared fl n es
prepare fl laws n es sorted fits =
    let new = new_filter fl n fl.one_percent in
    let keys = keys_of es in
    let (valid, hk, hm) = new_filter-IsFilter fl laws n fl.one_percent in
    let (f, filled, valid', ek, em, _) = insert_all_keeps {E = SsTableError} new keys valid in
    let (g, filled', _, known) = may_contain-insert_all {E = SsTableError} new keys valid in
    let same : g ≡ f = ok_inj (sym filled' ∙ filled) in
    record {
      filter = f;
      start = valid;
      filled = filled;
      holds = record {
        sorted = sorted;
        fits = fits;
        valid = valid';
        known = known_entries f es (rw same at known);
      };
      k_fits = omega (arith, ek, hk);
      m_fits = omega (arith, em, hm);
    }

-- The file opens, and its reader answers as the table does: point lookups and the full iteration.
pub record TableAt (es : Entries) (path : FilePath) (w : World) : Type 0 where
  pub reader : SsTableReader
  pub opens : open_table path w ≡ (ok reader, w)
  pub lookups : (key : Bytes) → get_raw reader key ≡ ok (Map.get es key)
  pub whole : collect (iter reader) ≡ es

pub open_table-file_of :
    (es : Entries) (path : FilePath) (w : World) (f : BloomFilter)
    → Holds es f
    → f.k < 2 ^ 64
    → f.m < 2 ^ 64
    → length (records es) < 2 ^ 62
    → contents w.files path ≡ some (file_of es f)
    → open_table path w ≡ (ok (reader_of es f), w)
unfolding open_table read
open_table-file_of es path w f holds hk hm small there =
    rw (open_table, read, there)
      (ap (λ r. (r, w))
        (open_bytes-image (records es) f (sparse_index 0 0 true es)
          (image-FitsFile es f holds.valid hk hm holds.fits small)))

pub TableAt-file_of :
    (es : Entries) (path : FilePath) (w : World) (f : BloomFilter)
    → Holds es f
    → f.k < 2 ^ 64
    → f.m < 2 ^ 64
    → length (records es) < 2 ^ 62
    → contents w.files path ≡ some (file_of es f)
    → TableAt es path w
TableAt-file_of es path w f holds hk hm small there = record {
  reader = reader_of es f;
  opens = open_table-file_of es path w f holds hk hm small there;
  lookups = λ key. get_raw-reader_of es f key holds;
  whole = collect-reader_of es f holds.fits;
}

opened : Option Bytes → Outcome SsTableError SsTableReader
opened none = err io
opened (some bytes) = open_bytes bytes

open_table-opened :
    (path : FilePath) (w : World) (o : Option Bytes)
    → contents w.files path ≡ o
    → open_table path w ≡ (opened o, w)
unfolding open_table read opened
open_table-opened path w none e = rw (open_table, read, e) refl
open_table-opened path w (some bytes) e = rw (open_table, read, e) refl

-- Opening a table depends on its own file only, and changes none.
pub open_table-kept :
    (path : FilePath) (w w' : World)
    → contents w'.files path ≡ contents w.files path
    → open_table path w' ≡ ((open_table path w).0, w')
open_table-kept path w w' same =
    open_table-opened path w' (contents w.files path) same
    ∙ ap (λ (r : Outcome SsTableError SsTableReader × World). (r.0, w'))
        (sym (open_table-opened path w (contents w.files path) refl))

pub TableAt-kept :
    (es : Entries) (path : FilePath) (w w' : World)
    → contents w'.files path ≡ contents w.files path
    → TableAt es path w
    → TableAt es path w'
TableAt-kept es path w w' same t = record {
  reader = t.reader;
  opens =
      open_table-kept path w w' same
      ∙ ap (λ (r : Outcome SsTableError SsTableReader × World). (r.0, w')) t.opens;
  lookups = t.lookups;
  whole = t.whole;
}
