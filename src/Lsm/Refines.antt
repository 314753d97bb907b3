-- ===== src/Lsm/Refines.antt =====
-- `Lsm::set` and `Lsm::delete` keep the invariant, and change what reads give at their key only.
use via_tabula.Base.{
  ◌^◌, ◌<◌, ◌≡◌, refl, ◌∙◌, sym, Bool-cases, false, if◌then◌else◌, Option, none, some, [], length,
  All, ok, inl, inr, arith,
}
use via_tabula.Base.Bytes.{Bytes}
use via_tabula.Base.Order.{cmp, eqb}
use via_tabula.Types.{hide_tombstone, is_tombstone, tombstone}
use via_tabula.Fs.{World, convert}
use via_tabula.Fs.Frame.{OnlyAt, Returned}
use via_tabula.Fs.Post.{Post, Post-bind, Post-imp, Post-imp-bad, Post-map_err}
use via_tabula.Bloom.Arith.{Floats}
use via_tabula.Bloom.Create.{FloatLaws}
use via_tabula.Wal.{WalEntry, put, append}
use via_tabula.Wal.Frame.{append-OnlyAt}
use via_tabula.Sstable.Layout.{FitsRecord}
use via_tabula.Memtable
use via_tabula.Memtable.{MemTable, size_bytes}
use via_tabula.Memtable.Bounds.{set-fits}
use via_tabula.Memtable.Table
use via_tabula.Lsm.Engine.{Engine, Lsm, outside, get, set, delete, flush_if_full, from_wal}
use via_tabula.Lsm.Found.{SameIn}
use via_tabula.Lsm.Outside.{Post-outside}
use via_tabula.Lsm.Sound.{
  IsSound, AreTables-kept, same_by_log, first_of, get_first, disk-total, SameReads,
}
use via_tabula.Lsm.Full.{same_value, next_name, Settles, Stops, flush_if_full-Settles}
use via_tabula.Lsm.Flushed.{IsLoaded, IsFresh}

-- Every read of the key gives this, and every other read gives what it gave.
abbrev pub Wrote : Bytes → Option Bytes → Engine → Engine → Type 0
Wrote key o e e' =
    (q : Bytes)
    → (v : Option Bytes) × (get q e ≡ (ok v, e))
      × (get q e' ≡ (ok (if eqb key q then o else v), e'))

hidden : hide_tombstone (some tombstone) ≡ none
unfolding hide_tombstone is_tombstone cmp
hidden = refl

written_value :
    (t : MemTable) (key value q : Bytes) (o : Option Bytes)
    → hide_tombstone (first_of (Memtable.get (Memtable.set t key value) q) o) ≡ (
        if eqb key q
        then hide_tombstone (some value)
        else hide_tombstone (first_of (Memtable.get t q) o))
written_value t key value q o = elim (Bool-cases (eqb key q)) [
  | inl e ↦ rw (Table.get-set, e) refl
  | inr e ↦ rw (Table.get-set, e) refl
]

-- The engine after the append and the change of the MemTable.
IsLoaded-set :
    (l : Lsm) (w w1 : World) (key value : Bytes)
    → IsSound (l, w)
    → FitsRecord (key, value)
    → All (All (SameIn w w1)) l.levels.levels
    → IsLoaded (record l { mem = Memtable.set l.mem key value }, w1)
IsLoaded-set l w w1 key value h fits same =
    let (fits', small, sorted) =
      set-fits l.mem key value l.flush_threshold h.sorted h.fits fits h.below h.bounded in
    record {
      log = h.log;
      sorted = sorted;
      fits = fits';
      small = small;
      positive = omega (arith, h.below);
      bounded = h.bounded;
      tables = AreTables-kept l.dir w w1 l.levels.levels h.tables same;
    }

Wrote-set :
    (l : Lsm) (w w1 : World) (key value : Bytes) (e : Engine)
    → IsSound (l, w)
    → All (All (SameIn w w1)) l.levels.levels
    → SameReads (record l { mem = Memtable.set l.mem key value }, w1) e
    → Wrote key (hide_tombstone (some value)) (l, w) e
Wrote-set l w w1 key value e h same reads q =
    let (o, here, later) = disk-total l.dir w l.levels.levels q h.tables in
    let l' = record l { mem = Memtable.set l.mem key value } in
    let (v, before, after) = reads q in
    let value_is : v ≡ (
        if eqb key q
        then hide_tombstone (some value)
        else hide_tombstone (first_of (Memtable.get l.mem q) o)) =
      same_value (sym before ∙ get_first l' w1 q o (later w1 same))
      ∙ written_value l.mem key value q o in
    (
      hide_tombstone (first_of (Memtable.get l.mem q) o),
      get_first l w q o here,
      rw⁻¹ value_is after,
    )

IsSound-logged :
    (l : Lsm) (w : World) (e : Engine)
    → IsSound (l, w)
    → e.0 ≡ l
    → OnlyAt l.wal.file w e.1
    → IsSound e
IsSound-logged l w e h same only =
    let tables = same_by_log l.dir w e.1 l.levels.levels h.tables (rw h.log at only) in
    let here : IsSound (l, e.1) = record {
      log = h.log;
      sorted = h.sorted;
      fits = h.fits;
      below = h.below;
      bounded = h.bounded;
      tables = AreTables-kept l.dir w e.1 l.levels.levels h.tables tables;
    } in
    rw same here

module _ (fl : Floats) (laws : FloatLaws fl) where
  -- What `set` and `delete` do after the append.
  write-Wrote :
      (l : Lsm) (w w1 : World) (key value : Bytes)
      → IsSound (l, w)
      → OnlyAt l.wal.file w w1
      → (w.faults ≡ [] → w1.faults ≡ [])
      → FitsRecord (key, value)
      → IsFresh (next_name l w) l
      → Post
          (λ _ e. IsSound e × Wrote key (hide_tombstone (some value)) (l, w) e)
          (λ e. IsSound e × ¬ (w.faults ≡ []))
          (flush_if_full fl (record l { mem = Memtable.set l.mem key value }, w1))
  unfolding Settles Stops
  write-Wrote l w w1 key value h only quiet fits fresh =
      let l' = record l { mem = Memtable.set l.mem key value } in
      let same = same_by_log l.dir w w1 l.levels.levels h.tables (rw h.log at only) in
      Post-imp-bad (λ e (s, noisy). (s, λ q. noisy (quiet q)))
        (Post-imp
          (flush_if_full-Settles fl laws l' w1 (IsLoaded-set l w w1 key value h fits same)
            (rw only.clock fresh))
          (λ _ e (s, reads). (s, Wrote-set l w w1 key value e h same reads)))

  -- The append: the log alone has changed.
  append-Post :
      (l : Lsm) (w : World) (entry : WalEntry)
      → IsSound (l, w)
      → Post
          (λ _ (e : Engine). (e.0 ≡ l) × Returned l.wal.file w e.1)
          (λ (e : Engine). IsSound e × ¬ (w.faults ≡ []))
          (convert from_wal (outside (append l.wal entry false)) (l, w))
  append-Post l w entry h = Post-map_err from_wal (
      Post-imp-bad (λ e (same, (only, noisy)). (IsSound-logged l w e h same only, noisy))
        (Post-outside l (append-OnlyAt l.wal entry false w)))

  -- A `set` on a sound engine of a key and a value whose lengths fit a record, where no table has the
  -- name that the coming reading of the clock gives, whatever calls of the file system fail: either it
  -- returns, and then reads of the key give the value, or nothing if that is the tombstone, and all
  -- other reads give what they gave; or it errs, and then some call had failed. The engine is sound
  -- after either: its MemTable ascends and is below the threshold, and all of its tables can be read.
  -- It does not panic.
  pub set-IsSound :
      (l : Lsm) (w : World) (key value : Bytes)
      → IsSound (l, w)
      → FitsRecord (key, value)
      → IsFresh (next_name l w) l
      → Post
          (λ _ e. IsSound e × Wrote key (hide_tombstone (some value)) (l, w) e)
          (λ e. IsSound e × ¬ (w.faults ≡ []))
          (set fl key value (l, w))
  unfolding set
  set-IsSound l w key value h fits fresh =
      Post-bind _ (append-Post l w (put key value) h) (λ _ e (same, (only, quiet)).
        rw same (write-Wrote l w e.1 key value h only quiet fits fresh))

  -- A `delete` does so too: after it returned, reads of the key give nothing, and all other reads give
  -- what they gave; after an error some call had failed; the engine is sound after either, and it does
  -- not panic. The engine was sound, the key fits a record, and no table has the name that the coming
  -- reading of the clock gives.
  pub delete-IsSound :
      (l : Lsm) (w : World) (key : Bytes)
      → IsSound (l, w)
      → length key < 2 ^ 32
      → IsFresh (next_name l w) l
      → Post
          (λ _ e. IsSound e × Wrote key none (l, w) e)
          (λ e. IsSound e × ¬ (w.faults ≡ []))
          (delete fl key (l, w))
  unfolding delete Memtable.delete Memtable.set
  delete-IsSound l w key h fits fresh =
      Post-bind _ (append-Post l w (WalEntry.delete key) h) (λ _ e (same, (only, quiet)).
        rw (same, ← hidden)
          (write-Wrote l w e.1 key tombstone h only quiet (fits, omega arith) fresh))
