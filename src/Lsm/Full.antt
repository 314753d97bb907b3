-- ===== src/Lsm/Full.antt =====
-- `flush_if_full`: the flush where the MemTable has reached the threshold, whatever the clock says.
use via_tabula.Base.{
  ℕ, ◌≡◌, refl, ◌∙◌, sym, Bool-cases, leb, Option, List, [], ◌∷◌, All, Outcome, ok, inl, inr, arith,
}
use via_tabula.Base.Bytes.{Bytes}
use via_tabula.Types.{hide_tombstone}
use via_tabula.Fs.{reading, FilePath, World, join, now, ◌>>=◌, continue}
use via_tabula.Fs.Post.{Post, returns, Post-imp}
use via_tabula.Bloom.Arith.{Floats}
use via_tabula.Bloom.Create.{FloatLaws}
use via_tabula.Memtable
use via_tabula.Memtable.{MemTable, size_bytes}
use via_tabula.Levels.{table_name}
use via_tabula.Lsm.Engine.{
  Engine, Lsm, LsmError, flush_to, get, flush_memtable, flush_if_full, next_sstable_path, this,
}
use via_tabula.Lsm.Found.{SameIn}
use via_tabula.Lsm.Sound.{
  AreTables, zip_levels, IsSound, IsTable, AreTables-kept, first_of, get_first, disk-total,
  SameReads,
}
use via_tabula.Lsm.Flushed.{IsLoaded, IsFresh, flush_to-IsSound}

pub same_value :
    {v u : Option Bytes} {e e' : Engine}
    → ◌≡◌ {A = Outcome LsmError (Option Bytes) × Engine} (ok v, e) (ok u, e')
    → v ≡ u
same_value h = cc

-- Reads do not depend on the clock, the faults or the log.
SameReads-files :
    (l : Lsm) (w w' : World)
    → AreTables l.dir w l.levels.levels
    → All (All (SameIn w w')) l.levels.levels
    → SameReads (l, w) (l, w')
SameReads-files l w w' tables same q =
    let (v, here, later) = disk-total l.dir w l.levels.levels q tables in
    (
      hide_tombstone (first_of (Memtable.get l.mem q) v),
      get_first l w q v here,
      get_first l w' q v (later w' same),
    )

SameReads-trans : (e e' e'' : Engine) → SameReads e e' → SameReads e' e'' → SameReads e e''
SameReads-trans e e' e'' a b q =
    let (v, h, g) = a q in
    let (u, g', k) = b q in let same : v ≡ u = same_value (sym g ∙ g') in (u, rw⁻¹ same h, k)

-- The name that the next flush gives to its file.
abbrev pub next_name : Lsm → World → FilePath
next_name l w = join l.dir (table_name b'0' (reading w.clock))

IsLoaded-files :
    (l : Lsm) (w w' : World)
    → All (All (SameIn w w')) l.levels.levels
    → IsLoaded (l, w)
    → IsLoaded (l, w')
IsLoaded-files l w w' same h = record {
  log = h.log;
  sorted = h.sorted;
  fits = h.fits;
  small = h.small;
  positive = h.positive;
  bounded = h.bounded;
  tables = AreTables-kept l.dir w w' l.levels.levels h.tables same;
}

-- Nothing but the clock has changed.
same_files :
    (dir : Bytes) (w : World) (clock : List ℕ) (levels : List (List FilePath))
    → AreTables dir w levels
    → All (All (SameIn w (record w { clock = clock }))) levels
same_files dir w clock levels tables =
    zip_levels {P = IsTable dir w} {Q = IsTable dir w} {R = SameIn w (record w { clock = clock })}
      (λ p _ _. refl) levels tables tables

unfoldable pub Settles : Engine → Unit {0} → Engine → Type 0
Settles e _ e' = IsSound e' × SameReads e e'

unfoldable pub Stops : Engine → Engine → Type 0
Stops e e' = IsSound e' × ¬ (e.1.faults ≡ [])

module _ (fl : Floats) (laws : FloatLaws fl) where
  flush_to-clock :
      (l : Lsm) (w : World) (n : ℕ) (clock : List ℕ)
      → IsLoaded (l, w)
      → IsFresh (join l.dir (table_name b'0' n)) l
      → Post
          (Settles (l, w))
          (Stops (l, w))
          (flush_to fl (join l.dir (table_name b'0' n)) (l, record w { clock = clock }))
  unfolding Settles Stops
  flush_to-clock l w n clock h fresh =
      let w' = record w { clock = clock } in
      let same = same_files l.dir w clock l.levels.levels h.tables in
      Post-imp (flush_to-IsSound fl laws l w' n (IsLoaded-files l w w' same h) fresh)
        (λ _ e (sound, reads).
          (sound, SameReads-trans (l, w) (l, w') e (SameReads-files l w w' h.tables same) reads))

  flush_memtable-clock :
      (l : Lsm) (w : World) (clock : List ℕ)
      → IsLoaded (l, w)
      → IsFresh (join l.dir (table_name b'0' (reading clock))) l
      → Post (Settles (l, w)) (Stops (l, w)) (flush_memtable fl (l, record w { clock = clock }))
  unfolding flush_memtable next_sstable_path now
  flush_memtable-clock l w [] h fresh = flush_to-clock l w 0 [] h fresh
  flush_memtable-clock l w (t ∷ later) h fresh = flush_to-clock l w t later h fresh

  pub flush_if_full-Settles :
      (l : Lsm) (w : World)
      → IsLoaded (l, w)
      → IsFresh (next_name l w) l
      → Post (Settles (l, w)) (Stops (l, w)) (flush_if_full fl (l, w))
  unfolding flush_if_full Settles
  flush_if_full-Settles l w h fresh = elim (Bool-cases (leb l.flush_threshold (size_bytes l.mem))) [
    | inl full ↦
        rw (flush_if_full, ◌>>=◌, continue, this, full) (flush_memtable-clock l w w.clock h fresh)
    | inr fits ↦
        rw (flush_if_full, ◌>>=◌, continue, this, fits)
          (returns tt (l, w)
            (
              record {
                log = h.log;
                sorted = h.sorted;
                fits = h.fits;
                below = ground (arith, fits);
                bounded = h.bounded;
                tables = h.tables;
              },
              SameReads-files l w w h.tables (same_files l.dir w w.clock l.levels.levels h.tables),
            ))
  ]

-- Every read of a sound engine has an answer, and leaves the engine.
pub IsSound-reads :
    (e : Engine) → IsSound e → (q : Bytes) → (v : Option Bytes) × (get q e ≡ (ok v, e))
IsSound-reads e h q =
    let (v, before, after) =
      SameReads-files e.0 e.1 e.1 h.tables
        (same_files e.0.dir e.1 e.1.clock e.0.levels.levels h.tables) q in
    (v, before)
