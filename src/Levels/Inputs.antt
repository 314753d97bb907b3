-- ===== src/Levels/Inputs.antt =====
-- What `compact` reads before it merges: the tables of L0 and of L1, and their key ranges.
use via_tabula.Base.{
  ◌<◌, ◌≡◌, refl, ◌∙◌, ap, true, none, some, List, [], ◌∷◌, ◌++◌, append_assoc, append-nil, length,
  All, ok, inl, inr, arith,
}
use via_tabula.Base.Bytes.{Bytes}
use via_tabula.Base.Order.{leb}
use via_tabula.Map.{Entries, IsSorted}
use via_tabula.Fs.{FilePath, World}
use via_tabula.Sstable.Reader.{SsTableReader, open_table, iter}
use via_tabula.Sstable.Layout.{FitsRecord}
use via_tabula.Sstable.Whole.{TableAt}
use via_tabula.Compaction.{collect}
use via_tabula.Levels.Manager.{
  Range, Split, range_of, key_range, last_key, open_all, widen, combined_range, split_l1,
}
use via_tabula.Levels.Compact.{read_l0}
use via_tabula.Levels.Ranges.{Within, ranges_overlap_exact}
use via_tabula.Levels.Span.{IsSpan, IsSpan-ordered, key_range-IsSpan, all_records, widen-IsSpan}

-- A file that holds a sorted table with a record at least.
pub record IsSource (w : World) (p : FilePath) : Type 0 where
  pub entries : Entries
  pub filled : 0 < length entries
  pub sorted : IsSorted entries
  pub fits : All FitsRecord entries
  pub table : TableAt entries p w

-- What is known of a reader of such a file.
pub record IsOpened (w : World) (p : FilePath) (r : SsTableReader) : Type 0 where
  pub opens : open_table p w ≡ (ok r, w)
  pub filled : 0 < length (collect (iter r))
  pub sorted : IsSorted (collect (iter r))
  pub fits : All FitsRecord (collect (iter r))

-- Files with their readers, in the same order.
pub data Opened (w : World) : List FilePath → List SsTableReader → Type 0 where
  no_files : Opened w [] []
  file :
      (p : FilePath) (r : SsTableReader) (ps : List FilePath) (rs : List SsTableReader)
      → IsOpened w p r
      → Opened w ps rs
      → Opened w (p ∷ ps) (r ∷ rs)

IsSource-IsOpened : (w : World) (p : FilePath) (s : IsSource w p) → IsOpened w p s.table.reader
IsSource-IsOpened w p s = record {
  opens = s.table.opens;
  filled = rw s.table.whole s.filled;
  sorted = rw s.table.whole s.sorted;
  fits = rw s.table.whole s.fits;
}

open_all-Opened :
    (w : World) (paths : List FilePath)
    → All (IsSource w) paths
    → (readers : List SsTableReader) × (open_all paths w ≡ (ok readers, w)) × Opened w paths readers
unfolding open_all
open_all-Opened w [] a = ([], refl, no_files)
open_all-Opened w (p ∷ paths) (s, a) =
    let (readers, e, o) = open_all-Opened w paths a in
    (
      s.table.reader ∷ readers,
      rw (open_all, s.table.opens, e) refl,
      file p s.table.reader paths readers (IsSource-IsOpened w p s) o,
    )

range_of-filled : (es : Entries) → 0 < length es → (range : Range) × (range_of es ≡ ok range)
unfolding range_of
range_of-filled [] h = absurd (omega (arith, h))
range_of-filled ((k, v) ∷ es) h = ((k, last_key k es), refl)

key_range-IsOpened :
    (w : World) (p : FilePath) (r : SsTableReader)
    → IsOpened w p r
    → (range : Range) × (key_range r ≡ ok range) × IsSpan range (collect (iter r))
unfolding key_range
key_range-IsOpened w p r o =
    let (range, e) = range_of-filled (collect (iter r)) o.filled in
    (range, e, key_range-IsSpan r range o.sorted e)

-- Each of the readers has a range, so the loop over them comes to its end: with the range of the keys
-- of all tables, those before them included.
combined_range-IsSpan :
    (w : World) (paths : List FilePath) (readers : List SsTableReader) (range : Range)
    (es : Entries)
    → Opened w paths readers
    → IsSpan range es
    → (wide : Range) × (combined_range readers (some range) ≡ ok (some wide))
      × IsSpan wide (es ++ all_records readers)
unfolding combined_range
combined_range-IsSpan w paths readers range es no_files span =
    (range, refl, rw (append-nil es) span)
combined_range-IsSpan w paths readers range es (file p r ps rs opened more) span =
    let (own, e, own_span) = key_range-IsOpened w p r opened in
    let (wide, e', wide_span) =
      combined_range-IsSpan w ps rs (widen (some range) own) (es ++ collect (iter r)) more
        (widen-IsSpan range own es (collect (iter r)) span own_span) in
    (
      wide,
      rw (combined_range, e) e',
      rw (append_assoc es (collect (iter r)) (all_records rs)) at wide_span,
    )

-- The loop from its start, where there is no range yet.
combined_range-Opened :
    (w : World) (first : FilePath) (others : List FilePath) (readers : List SsTableReader)
    → Opened w (first ∷ others) readers
    → (range : Range) × (combined_range readers none ≡ ok (some range))
      × IsSpan range (all_records readers)
unfolding combined_range
combined_range-Opened w first others readers (file p r ps rs opened more) =
    let (own, e, span) = key_range-IsOpened w p r opened in
    let (wide, e', wide_span) = combined_range-IsSpan w ps rs own (collect (iter r)) more span in
    (wide, rw (combined_range, e) e', wide_span)

-- L0 with a file at least is read to its end.
pub read_l0-Opened :
    (w : World) (first : FilePath) (others : List FilePath)
    → All (IsSource w) (first ∷ others)
    → (readers : List SsTableReader) × (range : Range) × (read_l0 (first ∷ others) w
        ≡ (ok (readers, range), w))
      × IsSpan range (all_records readers)
      × Opened w (first ∷ others) readers
unfolding read_l0
read_l0-Opened w first others sources =
    let (readers, e, opened) = open_all-Opened w (first ∷ others) sources in
    let (range, e', span) = combined_range-Opened w first others readers opened in
    (readers, range, rw (read_l0, e, e') refl, span, opened)

-- Some key lies in both ranges, its ends included.
abbrev pub Meet : Range → Range → Type 0
Meet a b = (key : Bytes) × Within key a × Within key b

-- The files of L1 in two parts, each in the order of L1: those whose range, from their smallest to
-- their largest key, has a key in common with the given one, and those whose range has none.
pub data Parts (w : World) (range : Range)
    : List FilePath → List FilePath → List FilePath → Type 0 where
  no_more : Parts w range [] [] []
  meets :
      (p : FilePath) (l1 over un : List FilePath) (r : SsTableReader) (own : Range)
      → open_table p w ≡ (ok r, w)
      → IsSpan own (collect (iter r))
      → Meet range own
      → Parts w range l1 over un
      → Parts w range (p ∷ l1) (p ∷ over) un
  apart :
      (p : FilePath) (l1 over un : List FilePath) (r : SsTableReader) (own : Range)
      → open_table p w ≡ (ok r, w)
      → IsSpan own (collect (iter r))
      → ¬ Meet range own
      → Parts w range l1 over un
      → Parts w range (p ∷ l1) over (p ∷ un)

-- What the loop over L1 makes of the lists that it has so far.
abbrev grown : Split → List FilePath → List SsTableReader → List FilePath → Split
grown split over rs un = record {
  overlapping_paths = split.overlapping_paths ++ over;
  overlapping_readers = split.overlapping_readers ++ rs;
  untouched_paths = split.untouched_paths ++ un;
}

abbrev with_overlap : Split → FilePath → SsTableReader → Split
with_overlap split p r = record split {
  overlapping_paths = split.overlapping_paths ++ (p ∷ []);
  overlapping_readers = split.overlapping_readers ++ (r ∷ []);
}

abbrev with_untouched : Split → FilePath → Split
with_untouched split p = record split { untouched_paths = split.untouched_paths ++ (p ∷ []) }

grown_overlap :
    (split : Split) (p : FilePath) (r : SsTableReader) (over : List FilePath)
    (rs : List SsTableReader) (un : List FilePath)
    → grown (with_overlap split p r) over rs un ≡ grown split (p ∷ over) (r ∷ rs) un
grown_overlap split p r over rs un =
    rw
      (
        append_assoc split.overlapping_paths (p ∷ []) over,
        append_assoc split.overlapping_readers (r ∷ []) rs,
      )
      refl

grown_untouched :
    (split : Split) (p : FilePath) (over : List FilePath) (rs : List SsTableReader)
    (un : List FilePath)
    → grown (with_untouched split p) over rs un ≡ grown split over rs (p ∷ un)
grown_untouched split p over rs un = rw (append_assoc split.untouched_paths (p ∷ []) un) refl

pub split_l1-Parts :
    (w : World) (range : Range) (l1 : List FilePath) (split : Split)
    → leb range.0 range.1 ≡ true
    → All (IsSource w) l1
    → (over : List FilePath) × (rs : List SsTableReader) × (un : List FilePath) × (split_l1 range l1
          split w
        ≡ (ok (grown split over rs un), w))
      × Opened w over rs
      × Parts w range l1 over un
unfolding split_l1
split_l1-Parts w range [] split ordered a = (
  [],
  [],
  [],
  rw
      (
        append-nil split.overlapping_paths,
        append-nil split.overlapping_readers,
        append-nil split.untouched_paths,
      )
      refl,
  no_files,
  no_more,
)
split_l1-Parts w range (p ∷ l1) split ordered (s, a) =
    let r = s.table.reader in
    let opened = IsSource-IsOpened w p s in
    let (own, e, span) = key_range-IsOpened w p r opened in
    elim (ranges_overlap_exact range own ordered (IsSpan-ordered own (collect (iter r)) span)) [
      | inl (meet, key, in_l0, in_own) ↦
          let (over, rs, un, e', o, parts) =
            split_l1-Parts w range l1 (with_overlap split p r) ordered a in
          (
            p ∷ over,
            r ∷ rs,
            un,
            rw (split_l1, s.table.opens, e, meet)
                (e' ∙ ap (λ (x : Split). (ok x, w)) (grown_overlap split p r over rs un)),
            file p r over rs opened o,
            meets p l1 over un r own s.table.opens span (key, in_l0, in_own) parts,
          )
      | inr (clear, none_common) ↦
          let (over, rs, un, e', o, parts) =
            split_l1-Parts w range l1 (with_untouched split p) ordered a in
          (
            over,
            rs,
            p ∷ un,
            rw (split_l1, s.table.opens, e, clear)
                (e' ∙ ap (λ (x : Split). (ok x, w)) (grown_untouched split p over rs un)),
            o,
            apart p l1 over un r own s.table.opens span
                (λ (key, in_l0, in_own). none_common key (in_l0, in_own)) parts,
          )
    ]
