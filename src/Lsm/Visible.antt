-- ===== src/Lsm/Visible.antt =====
-- A write is visible to `Lsm::get` once it returned, also where it made the MemTable an SSTable.
use via_tabula.Base.{
  ℕ, ◌^◌, ◌<◌, ◌≡◌, refl, ◌∙◌, sym, ap, false, Bool-cases, none, some, List, [], ◌∷◌, leb, length,
  All, ok, inl, inr,
}
use via_tabula.Base.Bytes.{Bytes}
use via_tabula.Types.{hide_tombstone, is_tombstone, tombstone}
use via_tabula.Map.{IsSorted}
use via_tabula.Fs.{World, join, ◌>>=◌, continue, convert, now}
use via_tabula.Fs.Post.{Post, returns, Post-bind, Post-imp, Post-imp-bad, Post-map_err}
use via_tabula.Bloom.Arith.{Floats}
use via_tabula.Bloom.Create.{FloatLaws}
use via_tabula.Wal.{WalEntry, put, append}
use via_tabula.Wal.Frame.{append-OnlyAt, truncate-OnlyAt}
use via_tabula.Sstable.Whole.{TableAt-kept}
use via_tabula.Sstable.Layout.{FitsRecord, records}
use via_tabula.Memtable
use via_tabula.Memtable.{MemTable, size_bytes, flush}
use via_tabula.Memtable.Flush.{flush-Serves}
use via_tabula.Memtable.Table
use via_tabula.Base.Order.{cmp, eqb_refl}
use via_tabula.Levels.{add_l0_file, table_name}
use via_tabula.Lsm.Engine.{
  Lsm, Engine, get, flush_to, flush_memtable, flush_if_full, next_sstable_path, from_sstable,
  from_wal, this, set, delete, outside,
}
use via_tabula.Lsm.Recovery.{wal_path}
use via_tabula.Lsm.Names.{tmp_ne_table, wal_ne_table}
use via_tabula.Lsm.Outside.{Post-outside}
use via_tabula.Lsm.Found.{get_flushed, get_in_memory}

-- The log's file is not one of the tables, and the table to write is one that a file can hold.
pub record IsReady (l : Lsm) : Type 0 where
  pub log : l.wal.file ≡ wal_path l.dir
  pub sorted : IsSorted l.mem.entries
  pub fits : All FitsRecord l.mem.entries
  pub small : length (records l.mem.entries) < 2 ^ 62

Visible : Bytes → Bytes → Engine → Type 0
Visible key value e = get key e ≡ (ok (hide_tombstone (some value)), e)

flush_to-Visible :
    (fl : Floats) (laws : FloatLaws fl) (l : Lsm) (w : World) (n : ℕ) (key value : Bytes)
    → IsReady l
    → Memtable.get l.mem key ≡ some value
    → Post
        (λ _. Visible key value)
        (λ _. ¬ (w.faults ≡ []))
        (flush_to fl (join l.dir (table_name b'0' n)) (l, w))
unfolding flush_to Visible Memtable.get
flush_to-Visible fl laws l w n key value ready there =
    let path = join l.dir (table_name b'0' n) in
    let swapped = record l { mem = Memtable.empty } in
    Post-bind _
      (Post-map_err from_sstable (
        Post-imp-bad (λ _ b. b.1.noisy)
          (Post-outside swapped (
            flush-Serves fl laws l.mem path w (tmp_ne_table path l.dir b'0' n) ready.sorted
              ready.fits ready.small))))
      (λ p e1 (same1, (_, done)).
        Post-bind _
          (Post-map_err from_wal (
            Post-imp-bad (λ _ b q. b.1.1 (done.quiet q))
              (Post-outside e1.0 (truncate-OnlyAt l.wal e1.1))))
          (λ _ e2 (same2, kept). returns _ _ (
            get_flushed l.mem.entries path key e2.1
              (TableAt-kept l.mem.entries path e1.1 e2.1
                (kept.0.same path (λ q. wal_ne_table l.dir b'0' n (sym ready.log ∙ sym q)))
                done.table)
              (record e2.0 { levels = add_l0_file e2.0.levels path }) e2.0.levels value there
              (ap (λ (a : Lsm). a.mem) (same2 ∙ same1)) refl)))

-- Whatever the next reading of the clock is.
flush_memtable-clock :
    (fl : Floats) (laws : FloatLaws fl) (l : Lsm) (w : World) (clock : List ℕ) (key value : Bytes)
    → IsReady l
    → Memtable.get l.mem key ≡ some value
    → Post
        (λ _. Visible key value)
        (λ _. ¬ (w.faults ≡ []))
        (flush_memtable fl (l, record w { clock = clock }))
unfolding flush_memtable next_sstable_path now
flush_memtable-clock fl laws l w [] key value ready there =
    flush_to-Visible fl laws l (record w { clock = [] }) 0 key value ready there
flush_memtable-clock fl laws l w (t ∷ later) key value ready there =
    flush_to-Visible fl laws l (record w { clock = later }) t key value ready there

flush_if_full-Visible :
    (fl : Floats) (laws : FloatLaws fl) (l : Lsm) (w : World) (key value : Bytes)
    → IsReady l
    → Memtable.get l.mem key ≡ some value
    → Post (λ _. Visible key value) (λ _. ¬ (w.faults ≡ [])) (flush_if_full fl (l, w))
unfolding flush_if_full Visible
flush_if_full-Visible fl laws l w key value ready there =
    elim (Bool-cases (leb l.flush_threshold (size_bytes l.mem))) [
      | inl full ↦
          rw (flush_if_full, ◌>>=◌, continue, this, full)
            (flush_memtable-clock fl laws l w w.clock key value ready there)
      | inr fits ↦
          rw (flush_if_full, ◌>>=◌, continue, this, fits)
            (returns tt (l, w) (get_in_memory l w key value there))
    ]

write-log :
    (l : Lsm) (entry : WalEntry) (w : World)
    → Post
        (λ _ (e : Engine). (e.0 ≡ l) × (w.faults ≡ [] → e.1.faults ≡ []))
        (λ _. ¬ (w.faults ≡ []))
        (convert from_wal (outside (append l.wal entry false)) (l, w))
write-log l entry w = Post-map_err from_wal (
    Post-imp-bad (λ _ b. b.1.1)
      (Post-outside l (Post-imp (append-OnlyAt l.wal entry false w) (λ _ _ r. r.1))))

-- What `set` and `delete` do: the log, the MemTable, and the flush where it is due.
write-Visible :
    (fl : Floats) (laws : FloatLaws fl) (l : Lsm) (w : World) (key value : Bytes) (w' : World)
    (mem : MemTable)
    → IsReady (record l { mem = mem })
    → Memtable.get mem key ≡ some value
    → (w.faults ≡ [] → w'.faults ≡ [])
    → Post
        (λ _. Visible key value)
        (λ _. ¬ (w.faults ≡ []))
        (flush_if_full fl (record l { mem = mem }, w'))
write-Visible fl laws l w key value w' mem ready there quiet =
    Post-imp-bad (λ _ b q. b (quiet q))
      (flush_if_full-Visible fl laws (record l { mem = mem }) w' key value ready there)

-- After `set` returned, `get` of the key gives the value, whether the write stayed in the MemTable or
-- made it an SSTable; a value that is the tombstone reads as nothing. `set` errs only where a call
-- of the file system failed, and it does not panic. The hypotheses: the MemTable that the write
-- makes is one that a file can hold, with its keys in order, and the log has the name that `open`
-- gives it.
pub get-set :
    (fl : Floats) (laws : FloatLaws fl) (l : Lsm) (w : World) (key value : Bytes)
    → IsReady (record l { mem = Memtable.set l.mem key value })
    → Post
        (λ _ e. get key e ≡ (ok (hide_tombstone (some value)), e))
        (λ _. ¬ (w.faults ≡ []))
        (set fl key value (l, w))
unfolding set Visible
get-set fl laws l w key value ready =
    Post-bind _ (write-log l (put key value) w) (λ _ e (same, quiet).
      write-Visible fl laws e.0 w key value e.1 (Memtable.set l.mem key value) (rw same ready)
        (rw (Table.get-set, eqb_refl key) refl) quiet)

-- After `delete` returned, `get` of the key gives nothing, also where the delete made the MemTable an
-- SSTable and older tables have the key. `delete` errs only where a call of the file system
-- failed, and it does not panic. The hypotheses: the MemTable that it makes is one that a file
-- can hold, with its keys in order, and the log has the name that `open` gives it.
pub get-delete :
    (fl : Floats) (laws : FloatLaws fl) (l : Lsm) (w : World) (key : Bytes)
    → IsReady (record l { mem = Memtable.delete l.mem key })
    → Post (λ _ e. get key e ≡ (ok none, e)) (λ _. ¬ (w.faults ≡ [])) (delete fl key (l, w))
unfolding delete Visible hide_tombstone is_tombstone cmp
get-delete fl laws l w key ready =
    Post-bind _ (write-log l (WalEntry.delete key) w) (λ _ e (same, quiet).
      write-Visible fl laws e.0 w key tombstone e.1 (Memtable.delete l.mem key) (rw same ready)
        (rw (Table.get-delete, eqb_refl key) refl) quiet)
