-- ===== src/Levels/Compacted.antt =====
-- `compact` from the lists of files to the lists and files that it leaves.
use via_tabula.Base.{
  ℕ, zero, suc, ◌^◌, ◌<◌, ◌≡◌, ◌≢◌, refl, ◌∙◌, Option, Option-cases, List, [], ◌∷◌, ◌++◌, length,
  All, All-append, Outcome, ok, inl, inr,
}
use via_tabula.Base.Bytes.{Bytes}
use via_tabula.Types.{hide_tombstone}
use via_tabula.Map
use via_tabula.Map.{Entries, IsSorted}
use via_tabula.Fs.{
  FilePath, World, contents, contents-without_other, remove_file, attempt, next_fault,
  with_file_name, reading, now_reads, pure, ◌>>=◌,
}
use via_tabula.Fs.Post.{Post, returns, fails, Post-bind, Post-imp-bad}
use via_tabula.Bloom.Arith.{Floats}
use via_tabula.Bloom.Create.{FloatLaws}
use via_tabula.Sstable.Writer.{tmp_of}
use via_tabula.Sstable.Reader.{SsTableReader}
use via_tabula.Sstable.Layout.{FitsRecord, records}
use via_tabula.Sstable.Whole.{Failed, TableAt, TableAt-kept}
use via_tabula.Compaction.{CompactionError, merge_sstables}
use via_tabula.Compaction.Pulled.{rest, rest_of}
use via_tabula.Compaction.Whole.{records_of, merged, merge_sstables-Merged}
use via_tabula.Compaction.Newest.{Latest}
use via_tabula.Levels.Name.{table_name}
use via_tabula.Levels.Manager.{Range, Split, remove_all}
use via_tabula.Levels.Span.{IsSpan, IsSpan-ordered, all_records}
use via_tabula.Levels.Compact.{compact, merge_into_l1, compact_levels, Managed, settle}
use via_tabula.Levels.Inputs.{
  IsSource, Opened, no_files, file, read_l0-Opened, Parts, no_more, meets, apart, split_l1-Parts,
}

remove_file-kept :
    (p q : FilePath) (w : World) → q ≢ p → contents (remove_file p w).1.files q ≡ contents w.files q
unfolding remove_file attempt
remove_file-kept p q w n = elim (Option-cases (next_fault w.faults)) [
  | inl e ↦ rw (remove_file, attempt, e) (contents-without_other p q w.files n)
  | inr (k, e) ↦ rw (remove_file, attempt, e) refl
]

-- Removing files never fails, and leaves all others.
remove_all-kept :
    (paths : List FilePath) (w : World)
    → (w' : World) × (remove_all {E = CompactionError} paths w ≡ (ok tt, w'))
      × ((q : FilePath) → All (λ p. q ≢ p) paths → contents w'.files q ≡ contents w.files q)
unfolding remove_all
remove_all-kept [] w = (w, refl, λ q n. refl)
remove_all-kept (p ∷ paths) w =
    let (w', e, kept) = remove_all-kept paths (remove_file p w).1 in
    (w', e, λ q n. kept q n.1 ∙ remove_file-kept p q w n.0)

Opened-append :
    (w : World) (ps qs : List FilePath) (rs ss : List SsTableReader)
    → Opened w ps rs
    → Opened w qs ss
    → Opened w (ps ++ qs) (rs ++ ss)
Opened-append w ps qs rs ss no_files b = b
Opened-append w ps qs rs ss (file p r ps' rs' o a) b =
    file p r (ps' ++ qs) (rs' ++ ss) o (Opened-append w ps' qs rs' ss a b)

Opened-IsSorted :
    (w : World) (ps : List FilePath) (rs : List SsTableReader)
    → Opened w ps rs
    → (j : ℕ) → IsSorted (records_of rs j)
unfolding rest rest_of
Opened-IsSorted w ps rs no_files j = tt
Opened-IsSorted w ps rs (file p r ps' rs' o a) zero = o.sorted
Opened-IsSorted w ps rs (file p r ps' rs' o a) (suc j) = Opened-IsSorted w ps' rs' a j

Opened-fits :
    (w : World) (ps : List FilePath) (rs : List SsTableReader)
    → Opened w ps rs
    → (j : ℕ) → All FitsRecord (records_of rs j)
unfolding rest rest_of
Opened-fits w ps rs no_files j = tt
Opened-fits w ps rs (file p r ps' rs' o a) zero = o.fits
Opened-fits w ps rs (file p r ps' rs' o a) (suc j) = Opened-fits w ps' rs' a j

-- The files that are merged are files of L1.
Parts-All :
    (P : FilePath → Type 0) (w : World) (range : Range) (l1 over un : List FilePath)
    → Parts w range l1 over un
    → All P l1
    → All P over
Parts-All P w range l1 over un no_more a = tt
Parts-All P w range l1 over un (meets p l1' over' un' r own e k d more) a =
    (a.0, Parts-All P w range l1' over' un' more a.1)
Parts-All P w range l1 over un (apart p l1' over' un' r own e k d more) a =
    Parts-All P w range l1' over' un' more a.1

-- What a compaction of L0 into L1 has done. The range goes from the smallest to the largest key of all
-- tables of L0. The files of L1 whose own range has no key in common with it stay, all others are
-- merged with L0 into one table, and the files of no other name than theirs have changed.
pub record CompactedTo (l0 l1 : List FilePath) (out : FilePath) (w : World) (l1' : List FilePath)
    (w' : World) : Type 0 where
  pub l0_readers : List SsTableReader
  pub l1_readers : List SsTableReader
  pub overlapping : List FilePath
  pub untouched : List FilePath
  pub range : Range
  pub span : IsSpan range (all_records l0_readers)
  pub l0_opened : Opened w l0 l0_readers
  pub l1_opened : Opened w overlapping l1_readers
  pub parts : Parts w range l1 overlapping untouched
  pub new_l1 : l1' ≡ untouched ++ (out ∷ [])
  pub entries : Entries
  pub sorted : IsSorted entries
  pub table : TableAt entries out w'
  pub newest :
      (q : Bytes)
      → (o : Option Bytes) × Latest (λ j. Map.get (records_of (l0_readers ++ l1_readers) j) q) o
        × (Map.get entries q ≡ hide_tombstone o)
  pub kept :
      (q : FilePath)
      → q ≢ tmp_of out
      → q ≢ out
      → All (λ p. q ≢ p) (l0 ++ overlapping)
      → contents w'.files q ≡ contents w.files q

-- The name of the new file.
abbrev pub output_name : FilePath → World → FilePath
output_name first w = with_file_name first (table_name b'1' (reading w.clock))

module _ (fl : Floats) (laws : FloatLaws fl) (l0 l1 : List FilePath) (out : FilePath) (w : World)
    (apart_tmp : tmp_of out ≢ out) (new : All (λ p. out ≢ p) l0)
    (new1 : All (λ p. out ≢ p) l1) where
  merged-CompactedTo :
      (later : List ℕ) (rs0 rs : List SsTableReader) (range : Range) (over un : List FilePath)
      → IsSpan range (all_records rs0)
      → Opened w l0 rs0
      → Opened w over rs
      → Parts w range l1 over un
      → length (records (merged (rs0 ++ rs))) < 2 ^ 62
      → Post (CompactedTo l0 l1 out w) (Failed out w) (
          (merge_sstables fl (rs0 ++ rs) out >>= λ _.
          remove_all (l0 ++ over) >>= λ _. pure (un ++ (out ∷ [])))
            (record w { clock = later }))
  merged-CompactedTo later rs0 rs range over un span o0 o1 parts small =
      let w1 = record w { clock = later } in
      let opened = Opened-append w l0 over rs0 rs o0 o1 in
      Post-bind _
        (Post-imp-bad {Bad = Failed out w1} (λ w2 b. record { kept = b.kept; noisy = b.noisy })
          (merge_sstables-Merged fl laws (rs0 ++ rs) out w1 apart_tmp
            (Opened-IsSorted w (l0 ++ over) (rs0 ++ rs) opened)
            (Opened-fits w (l0 ++ over) (rs0 ++ rs) opened) small))
        (λ _ w2 m.
          let (w3, e, kept) = remove_all-kept (l0 ++ over) w2 in
          let away =
            All-append (λ p. out ≢ p) l0 over new
              (Parts-All (λ p. out ≢ p) w range l1 over un parts new1) in
          rw e (
            returns _ _ (record {
              l0_readers = rs0;
              l1_readers = rs;
              overlapping = over;
              untouched = un;
              range = range;
              span = span;
              l0_opened = o0;
              l1_opened = o1;
              parts = parts;
              new_l1 = refl;
              entries = m.entries;
              sorted = m.sorted;
              table = TableAt-kept m.entries out w2 w3 (kept out away) m.table;
              newest = m.newest;
              kept = λ q n n' n''. kept q n'' ∙ m.kept q n n';
            })))

  -- The hypothesis is on whatever files of L1 there are to be merged.
  merge_into_l1-CompactedTo :
      (first : FilePath) (rs0 : List SsTableReader) (range : Range)
      → with_file_name first (table_name b'1' (reading w.clock)) ≡ out
      → IsSpan range (all_records rs0)
      → Opened w l0 rs0
      → All (IsSource w) l1
      → ((over un : List FilePath) (rs : List SsTableReader)
          → Opened w over rs
          → Parts w range l1 over un
          → length (records (merged (rs0 ++ rs))) < 2 ^ 62)
      → Post (CompactedTo l0 l1 out w) (Failed out w) (merge_into_l1 fl first l0 (rs0, range) l1 w)
  unfolding merge_into_l1
  merge_into_l1-CompactedTo first rs0 range name span o0 sources small =
      let start : Split = record {
        overlapping_paths = [];
        overlapping_readers = [];
        untouched_paths = [];
      } in
      let (over, rs, un, e, o1, parts) =
        split_l1-Parts w range l1 start (IsSpan-ordered range (all_records rs0) span) sources in
      let (later, e') = now_reads {E = CompactionError} w in
      rw (merge_into_l1, e)
        (rw (e', name)
          (merged-CompactedTo later rs0 rs range over un span o0 o1 parts
            (small over un rs o1 parts)))

settle-Post :
    {Good : List FilePath → World → Type 0} {Bad : World → Type 0} (rest : List (List FilePath))
    {r : Outcome CompactionError (List FilePath) × World}
    → Post Good Bad r
    → Post
        (λ _ (e : Managed). (l1 : List FilePath) × (e.0.levels ≡ [] ∷ l1 ∷ rest) × Good l1 e.1)
        (λ (e : Managed). (e.0.levels ≡ [] ∷ [] ∷ rest) × Bad e.1)
        (settle rest r)
settle-Post rest (returns l1 w g) = returns tt _ (l1, refl, g)
settle-Post rest (fails x w b) = fails x _ (refl, b)

-- Compacting where L0 has files, and all files of L0 and L1 hold sorted tables with a record at
-- least, into a table that fits a file, under a name that is no file's of either and not its own
-- temporary name: `compact` errs only where a call of the merge failed. Where it returns, L0 is
-- empty, and L1 has those of its files whose range of keys has no key in common with the range of
-- L0's keys, in their order, then the new file; a range goes from the smallest key to the largest.
-- The new file is a sorted table that has for every key the record of the first of the merged
-- files that has one, L0's files in their order and then the other files of L1, unless that is a
-- tombstone. No other file has changed but those that were merged and the temporary one. Where it
-- errs, no file but the temporary one has changed, but L0 and L1 are both empty lists then. It
-- does not panic.
pub compact-CompactedTo :
    (fl : Floats) (laws : FloatLaws fl) (first : FilePath) (others l1 : List FilePath)
    (rest : List (List FilePath)) (w : World)
    → tmp_of (output_name first w) ≢ output_name first w
    → All (λ p. output_name first w ≢ p) (first ∷ others)
    → All (λ p. output_name first w ≢ p) l1
    → All (IsSource w) (first ∷ others)
    → All (IsSource w) l1
    → ((range : Range) (over un : List FilePath) (rs0 rs : List SsTableReader)
        → Opened w (first ∷ others) rs0
        → Opened w over rs
        → Parts w range l1 over un
        → length (records (merged (rs0 ++ rs))) < 2 ^ 62)
    → Post
        (λ _ (e : Managed).
          (l1' : List FilePath) × (e.0.levels ≡ [] ∷ l1' ∷ rest)
          × CompactedTo (first ∷ others) l1 (output_name first w) w l1' e.1)
        (λ (e : Managed). (e.0.levels ≡ [] ∷ [] ∷ rest) × Failed (output_name first w) w e.1)
        (compact fl (record { levels = (first ∷ others) ∷ l1 ∷ rest }, w))
unfolding compact compact_levels
compact-CompactedTo fl laws first others l1 rest w apart_tmp new new1 sources sources1 small =
    let (rs0, range, e, span, o0) = read_l0-Opened w first others sources in
    rw (compact, compact_levels, e)
      (settle-Post rest (
        merge_into_l1-CompactedTo fl laws (first ∷ others) l1 (output_name first w) w apart_tmp new
          new1 first rs0 range refl span o0 sources1
          (λ over un rs o parts. small range over un rs0 rs o0 o parts)))
