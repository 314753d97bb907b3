-- ===== src/Lsm/Flushed.antt =====
-- `flush_memtable` on an engine whose tables can be read: no read changes, and a failure leaves the
-- engine sound.
use via_tabula.Base.{
  ℕ, ◌^◌, ◌≤◌, ◌<◌, ◌≡◌, ◌≢◌, refl, ◌∙◌, sym, Option, Option-cases, List, [], ◌∷◌, ◌++◌, length,
  All, ok, inl, inr,
}
use via_tabula.Base.Bytes.{Bytes}
use via_tabula.Types.{hide_tombstone}
use via_tabula.Map
use via_tabula.Map.{Entries, IsSorted}
use via_tabula.Fs.{FilePath, World, join}
use via_tabula.Fs.Frame.{OnlyAt}
use via_tabula.Fs.Post.{Post, returns, Post-bind, Post-imp-bad, Post-map_err}
use via_tabula.Bloom.Arith.{Floats}
use via_tabula.Bloom.Create.{FloatLaws}
use via_tabula.Wal.Frame.{truncate-OnlyAt}
use via_tabula.Sstable.Layout.{FitsRecord, records}
use via_tabula.Sstable.Whole.{TableAt, TableAt-kept}
use via_tabula.Memtable
use via_tabula.Memtable.{MemTable, size_bytes}
use via_tabula.Memtable.Flush.{flush-Serves}
use via_tabula.Levels.{LevelManager, add_l0_file, table_name}
use via_tabula.Lsm.Engine.{Engine, Lsm, find_on_disk, flush_to, from_sstable, from_wal}
use via_tabula.Lsm.Recovery.{wal_path}
use via_tabula.Lsm.Names.{tmp_ne_table, wal_ne_table}
use via_tabula.Lsm.Found.{SameIn, find_on_disk_added}
use via_tabula.Lsm.Outside.{Post-outside}
use via_tabula.Lsm.Sound.{
  IsTable, AreTables, IsSound, AreTables-kept, zip_levels, same_by_write, first_of, get_first,
  disk-total, SameReads,
}

-- The state between the change of the MemTable and the flush: the MemTable may have reached the
-- threshold, and is one that a file can hold.
pub record IsLoaded (e : Engine) : Type 0 where
  pub log : e.0.wal.file ≡ wal_path e.0.dir
  pub sorted : IsSorted e.0.mem.entries
  pub fits : All FitsRecord e.0.mem.entries
  pub small : length (records e.0.mem.entries) < 2 ^ 62
  pub positive : 0 < e.0.flush_threshold
  pub bounded : e.0.flush_threshold ≤ 2 ^ 50
  pub tables : AreTables e.0.dir e.1 e.0.levels.levels

-- No table has this name yet.
abbrev pub IsFresh : FilePath → Lsm → Type 0
IsFresh path l = All (All (λ p. p ≢ path)) l.levels.levels

All-snoc {κ} :
    (P : FilePath → Type κ) (xs : List FilePath) (x : FilePath)
    → All P xs
    → P x
    → All P (xs ++ (x ∷ []))
All-snoc P [] x a p = (p, tt)
All-snoc P (y ∷ xs) x a p = (a.0, All-snoc P xs x a.1 p)

AreTables-added :
    (dir : Bytes) (w : World) (levels : List (List FilePath)) (path : FilePath)
    → AreTables dir w levels
    → IsTable dir w path
    → AreTables dir w (add_l0_file (record { levels = levels }) path).levels
unfolding add_l0_file
AreTables-added dir w [] path a t = ((t, tt), tt)
AreTables-added dir w (l0 ∷ rest) path a t = (All-snoc (IsTable dir w) l0 path a.0 t, a.1)

-- The engine with an empty MemTable is sound.
emptied-IsSound :
    (l : Lsm) (w w' : World) (levels : LevelManager)
    → IsLoaded (l, w)
    → AreTables l.dir w' levels.levels
    → IsSound (record l { mem = Memtable.empty; levels = levels }, w')
unfolding size_bytes
emptied-IsSound l w w' levels h tables = record {
  log = h.log;
  sorted = tt;
  fits = tt;
  below = h.positive;
  bounded = h.bounded;
  tables = tables;
}

find_added :
    (lm : LevelManager) (w : World) (q : Bytes) (es : Entries) (path : FilePath) (v : Option Bytes)
    → TableAt es path w
    → find_on_disk lm.levels q w ≡ (ok v, w)
    → find_on_disk (add_l0_file lm path).levels q w ≡ (ok (first_of (Map.get es q) v), w)
find_added lm w q es path v t e =
    find_on_disk_added es path q w t lm.levels
    ∙ elim (Option-cases (Map.get es q)) [ inl n ↦ rw n e | inr (x, there) ↦ rw there refl ]

abbrev after_flush : Lsm → FilePath → Lsm
after_flush l path = record l { mem = Memtable.empty; levels = add_l0_file l.levels path }

-- What was in the MemTable is in the new table.
after_flush-reads :
    (l : Lsm) (w w' : World) (path : FilePath)
    → AreTables l.dir w l.levels.levels
    → TableAt l.mem.entries path w'
    → All (All (SameIn w w')) l.levels.levels
    → SameReads (l, w) (after_flush l path, w')
unfolding Memtable.get Map.get
after_flush-reads l w w' path tables t same q =
    let (v, here, later) = disk-total l.dir w l.levels.levels q tables in
    (
      hide_tombstone (first_of (Memtable.get l.mem q) v),
      get_first l w q v here,
      get_first (after_flush l path) w' q (first_of (Memtable.get l.mem q) v)
          (find_added l.levels w' q l.mem.entries path v t (later w' same)),
    )

module _ (fl : Floats) (laws : FloatLaws fl) (l : Lsm) (w : World) (n : ℕ) (h : IsLoaded (l, w))
    (fresh : IsFresh (join l.dir (table_name b'0' n)) l) where
  abbrev Good : Unit {0} → Engine → Type 0
  Good _ e = IsSound e × SameReads (l, w) e

  abbrev Bad : Engine → Type 0
  Bad e = IsSound e × ¬ (w.faults ≡ [])

  -- The MemTable was swapped for an empty one, and the files of the levels are as they were.
  swapped-IsSound :
      (l' : Lsm) (w' : World)
      → l' ≡ record l { mem = Memtable.empty }
      → All (All (SameIn w w')) l.levels.levels
      → IsSound (l', w')
  swapped-IsSound l' w' e same =
      rw e (
        emptied-IsSound l w w' l.levels h (AreTables-kept l.dir w w' l.levels.levels h.tables same))

  -- Truncating the log after that leaves them too.
  log_kept :
      (w1 w2 : World)
      → All (All (SameIn w w1)) l.levels.levels
      → OnlyAt l.wal.file w1 w2
      → All (All (SameIn w w2)) l.levels.levels
  log_kept w1 w2 same only =
      zip_levels {P = IsTable l.dir w} {Q = SameIn w w1} {R = SameIn w w2}
        (λ p t s.
          only.same p (λ e. wal_ne_table l.dir t.level t.suffix (sym h.log ∙ sym e ∙ t.name)) ∙ s)
        l.levels.levels h.tables same

  table_kept :
      (w1 w2 : World)
      → TableAt l.mem.entries (join l.dir (table_name b'0' n)) w1
      → OnlyAt l.wal.file w1 w2
      → TableAt l.mem.entries (join l.dir (table_name b'0' n)) w2
  table_kept w1 w2 table only =
      TableAt-kept l.mem.entries (join l.dir (table_name b'0' n)) w1 w2
        (only.same (join l.dir (table_name b'0' n))
          (λ e. wal_ne_table l.dir b'0' n (sym h.log ∙ sym e)))
        table

  IsTable-added :
      (w2 : World)
      → TableAt l.mem.entries (join l.dir (table_name b'0' n)) w2
      → IsTable l.dir w2 (join l.dir (table_name b'0' n))
  IsTable-added w2 table = record {
    level = b'0';
    suffix = n;
    name = refl;
    entries = l.mem.entries;
    sorted = h.sorted;
    fits = h.fits;
    table = table;
  }

  added-Good :
      (l' : Lsm) (w1 w2 : World)
      → l' ≡ record l { mem = Memtable.empty }
      → All (All (SameIn w w1)) l.levels.levels
      → TableAt l.mem.entries (join l.dir (table_name b'0' n)) w1
      → OnlyAt l.wal.file w1 w2
      → let e' : Engine =
          (record l' { levels = add_l0_file l'.levels (join l.dir (table_name b'0' n)) }, w2) in
        IsSound e' × SameReads (l, w) e'
  added-Good l' w1 w2 e same table only =
      let path = join l.dir (table_name b'0' n) in
      let same' = log_kept w1 w2 same only in
      let new = table_kept w1 w2 table only in
      let tables = AreTables-kept l.dir w w2 l.levels.levels h.tables same' in
      rw e (
        emptied-IsSound l w w2 (add_l0_file l.levels path) h
            (AreTables-added l.dir w2 l.levels.levels path tables (IsTable-added w2 new)),
        after_flush-reads l w w2 path h.tables new same',
      )

  pub flush_to-IsSound : Post Good Bad (flush_to fl (join l.dir (table_name b'0' n)) (l, w))
  unfolding flush_to
  flush_to-IsSound =
      let path = join l.dir (table_name b'0' n) in
      let swapped = record l { mem = Memtable.empty } in
      let levels = l.levels.levels in
      Post-bind _
        (Post-map_err from_sstable (
          Post-imp-bad
            (λ (e1 : Engine) (same1, failed). (
              swapped-IsSound e1.0 e1.1 same1 (
                  same_by_write l.dir w e1.1 path levels h.tables fresh (λ q n _. failed.kept q n)),
              failed.noisy,
            ))
            (Post-outside swapped (
              flush-Serves fl laws l.mem path w (tmp_ne_table path l.dir b'0' n) h.sorted h.fits
                h.small))))
        (λ p e1 (same1, (_, done)).
          let kept1 = same_by_write l.dir w e1.1 path levels h.tables fresh done.kept in
          Post-bind _
            (Post-map_err from_wal (
              Post-imp-bad
                (λ (e2 : Engine) (same2, (only, noisy)). (
                  swapped-IsSound e2.0 e2.1 (same2 ∙ same1) (log_kept e1.1 e2.1 kept1 only),
                  λ q. noisy (done.quiet q),
                ))
                (Post-outside e1.0 (truncate-OnlyAt l.wal e1.1))))
            (λ _ e2 (same2, (only, _)).
              returns _ _ (added-Good e2.0 e1.1 e2.1 (same2 ∙ same1) kept1 done.table only)))
