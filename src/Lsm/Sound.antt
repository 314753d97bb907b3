-- ===== src/Lsm/Sound.antt =====
-- The invariant of the engine, and what a read of a sound engine gives.
use via_tabula.Base.{
  ℕ, ◌^◌, ◌≤◌, ◌<◌, ◌≡◌, ◌≢◌, refl, ◌∙◌, sym, Option, none, some, Option-cases, List, All, All-zip,
  ok, inl, inr,
}
use via_tabula.Base.Bytes.{Bytes}
use via_tabula.Types.{hide_tombstone}
use via_tabula.Map.{Entries, IsSorted}
use via_tabula.Fs.{FilePath, World, contents, join, ◌>>=◌, continue, convert}
use via_tabula.Fs.Frame.{OnlyAt}
use via_tabula.Sstable.Writer.{tmp_of}
use via_tabula.Sstable.Layout.{FitsRecord}
use via_tabula.Sstable.Whole.{TableAt, TableAt-kept}
use via_tabula.Memtable
use via_tabula.Memtable.{size_bytes}
use via_tabula.Levels.{table_name}
use via_tabula.Lsm.Engine.{Engine, Lsm, get, find_on_disk, this, outside}
use via_tabula.Lsm.Recovery.{wal_path}
use via_tabula.Lsm.Names.{tmp_ne_table, wal_ne_table}
use via_tabula.Lsm.Found.{SameIn, IsRead, get_in_memory, find_on_disk-total}

-- A file with a name that the engine gives, that holds a sorted table.
pub record IsTable (dir : Bytes) (w : World) (p : FilePath) : Type 0 where
  pub level : ℕ
  pub suffix : ℕ
  pub name : p ≡ join dir (table_name level suffix)
  pub entries : Entries
  pub sorted : IsSorted entries
  pub fits : All FitsRecord entries
  pub table : TableAt entries p w

abbrev pub AreTables : Bytes → World → List (List FilePath) → Type 0
AreTables dir w levels = All (All (IsTable dir w)) levels

-- The state between calls: the log is the folder's, the MemTable is a table that is still below the
-- threshold, and every file of the levels is a table.
pub record IsSound (e : Engine) : Type 0 where
  pub log : e.0.wal.file ≡ wal_path e.0.dir
  pub sorted : IsSorted e.0.mem.entries
  pub fits : All FitsRecord e.0.mem.entries
  pub below : size_bytes e.0.mem < e.0.flush_threshold
  pub bounded : e.0.flush_threshold ≤ 2 ^ 50
  pub tables : AreTables e.0.dir e.1 e.0.levels.levels

module _ {κ μ ν} {P : FilePath → Type κ} {Q : FilePath → Type μ} {R : FilePath → Type ν}
    (f : (p : FilePath) → P p → Q p → R p) where
  pub zip_levels :
      (levels : List (List FilePath)) → All (All P) levels → All (All Q) levels → All (All R) levels
  zip_levels = All-zip (All-zip f)

module _ (dir : Bytes) (w : World) where
  pub AreTables-kept :
      (w' : World) (levels : List (List FilePath))
      → AreTables dir w levels
      → All (All (SameIn w w')) levels
      → AreTables dir w' levels
  AreTables-kept w' levels =
      zip_levels
        (λ p t same. record {
          level = t.level;
          suffix = t.suffix;
          name = t.name;
          entries = t.entries;
          sorted = t.sorted;
          fits = t.fits;
          table = TableAt-kept t.entries p w w' same t.table;
        })
        levels

  -- What changes the log only leaves the tables.
  pub same_by_log :
      (w' : World) (levels : List (List FilePath))
      → AreTables dir w levels
      → OnlyAt (wal_path dir) w w'
      → All (All (SameIn w w')) levels
  same_by_log w' levels tables same =
      zip_levels {P = IsTable dir w} {Q = IsTable dir w} {R = SameIn w w'}
        (λ p t _. same.same p (λ e. wal_ne_table dir t.level t.suffix (sym e ∙ t.name))) levels
        tables tables

  -- What changes one file, that is no table yet, and its temporary file leaves the tables.
  pub same_by_write :
      (w' : World) (path : FilePath) (levels : List (List FilePath))
      → AreTables dir w levels
      → All (All (λ p. p ≢ path)) levels
      → ((q : FilePath) → q ≢ tmp_of path → q ≢ path → contents w'.files q ≡ contents w.files q)
      → All (All (SameIn w w')) levels
  same_by_write w' path levels tables fresh same =
      zip_levels {P = IsTable dir w} {Q = λ p. p ≢ path} {R = SameIn w w'}
        (λ p t new. same p (λ e. tmp_ne_table path dir t.level t.suffix (sym e ∙ t.name)) new)
        levels tables fresh

-- The first of the two that is there.
abbrev pub first_of : Option Bytes → Option Bytes → Option Bytes
first_of (some v) o = some v
first_of none o = o

-- The MemTable answers before the tables do.
pub get_first :
    (l : Lsm) (w : World) (q : Bytes) (v : Option Bytes)
    → find_on_disk l.levels.levels q w ≡ (ok v, w)
    → get q (l, w) ≡ (ok (hide_tombstone (first_of (Memtable.get l.mem q) v)), (l, w))
unfolding get
get_first l w q v disk = elim (Option-cases (Memtable.get l.mem q)) [
  | inl e ↦ rw (get, ◌>>=◌, continue, this, e, convert, outside, disk) refl
  | inr (x, e) ↦ rw e (get_in_memory l w q x e)
]

-- The tables answer, and the answer is the same as long as they are.
pub disk-total :
    (dir : Bytes) (w : World) (levels : List (List FilePath)) (q : Bytes)
    → AreTables dir w levels
    → (v : Option Bytes) × (find_on_disk levels q w ≡ (ok v, w))
      × ((w' : World) → All (All (SameIn w w')) levels → find_on_disk levels q w' ≡ (ok v, w'))
disk-total dir w levels q tables =
    let (v, answer) = find_on_disk-total levels q w (
      zip_levels {P = IsTable dir w} {Q = IsTable dir w} {R = IsRead w}
        (λ p t _. (t.entries, t.table)) levels tables tables) in
    let here =
      zip_levels {P = IsTable dir w} {Q = IsTable dir w} {R = SameIn w w} (λ p _ _. refl) levels
        tables tables in
    (v, answer w here, answer)

-- Every read gives the same in both states, and leaves the state.
abbrev pub SameReads : Engine → Engine → Type 0
SameReads e e' = (q : Bytes) → (v : Option Bytes) × (get q e ≡ (ok v, e)) × (get q e' ≡ (ok v, e'))
