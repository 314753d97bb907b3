-- ===== src/Lsm/Threads/Lost.antt =====
-- A flush between the append of a write and its change of the MemTable.
use via_tabula.Base.{
  ℕ, ◌+◌, ◌<◌, ◌≡◌, refl, ◌∙◌, sym, ap, true, false, leb, some, [], ◌∷◌, length, Outcome, ok, arith,
  get_elem?,
}
use via_tabula.Base.Bytes.{Bytes}
use via_tabula.Map.{insert}
use via_tabula.Fs.{FilePath, World, contents, read, join, reading, now, now_reads}
use via_tabula.Fs.Post.{Post-sure}
use via_tabula.Fs.Frame.{OnlyAt}
use via_tabula.Fs.Partial.{OnOk, gave, erred, panicked}
use via_tabula.Bloom.Arith.{Floats}
use via_tabula.Bloom.Create.{FloatLaws}
use via_tabula.Wal.{
  Wal, WalError, WalEntry, put, append, truncate, replay, replay_all, replay_bytes,
}
use via_tabula.Wal.Frame.{append-OnlyAt, truncate-OnlyAt}
use via_tabula.Sstable.Layout.{FitsRecord}
use via_tabula.Sstable.Whole.{TableAt, TableAt-kept}
use via_tabula.Memtable
use via_tabula.Memtable.{MemTable, size_bytes, flush}
use via_tabula.Memtable.Flush.{flush-Serves}
use via_tabula.Memtable.Bounds.{set-fits}
use via_tabula.Levels.{table_name}
use via_tabula.Lsm.Engine.{Engine, Lsm, LsmError, next_sstable_path}
use via_tabula.Lsm.Names.{tmp_ne_table, wal_ne_table}
use via_tabula.Lsm.Sound.{IsSound}
use via_tabula.Lsm.Recovery.{apply_entry}
use via_tabula.Lsm.Logged.{truncate-empties}
use via_tabula.Lsm.Threads.{
  Pc, Mutex, free, held_by, wants_log, has_log, at_mem, at_name, wants_flush, at_swap, at_flush,
  at_truncate, at_add, returned, advance,
}
use via_tabula.Lsm.Threads.System.{System, Steps, here, more, thread, at_top, alive}

replay-empty :
    (file : FilePath) (w : World) → contents w.files file ≡ some [] → replay file w ≡ (ok [], w)
unfolding replay read replay_all replay_bytes
replay-empty file w empty = rw (read, empty) refl

-- Two threads, and the background thread at the top of its loop.
abbrev pub two : Pc → Pc → Mutex → Engine → System
two p q log e = record {
  shared = record { log = log; levels_poisoned = false; engine = e };
  threads = p ∷ q ∷ [];
  background = at_top;
  shutdown = false;
  dropping = alive;
}

module _ (fl : Floats) (s : System) where
  first_goes :
      (p p' q : Pc) (log log' : Mutex) (e e' : Engine)
      → Steps fl s (two p q log e)
      → advance fl 0 p (two p q log e).shared ≡ some (p', (two p' q log' e').shared)
      → Steps fl s (two p' q log' e')
  first_goes p p' q log log' e e' before step =
      more _ _ before (thread 0 p p' (two p' q log' e').shared refl step)

  second_goes :
      (p q q' : Pc) (log log' : Mutex) (e e' : Engine)
      → Steps fl s (two p q log e)
      → advance fl 1 q (two p q log e).shared ≡ some (q', (two p q' log' e').shared)
      → Steps fl s (two p q' log' e')
  second_goes p q q' log log' e e' before step =
      more _ _ before (thread 1 q q' (two p q' log' e').shared refl step)

-- What the two threads have done: the call of the first has returned, and the MemTable has its entry
-- alone; the table in the new file is the one from before that entry; and the log is empty.
pub record Lost (l : Lsm) (old : MemTable) (key value : Bytes) (path : FilePath) (s : System)
    : Type 0 where
  pub acknowledged : get_elem? s.threads 0 ≡ some (returned (ok tt))
  pub mem : s.shared.engine.0.mem ≡ Memtable.set Memtable.empty key value
  pub table : TableAt old.entries path s.shared.engine.1
  pub log : replay l.wal.file s.shared.engine.1 ≡ (ok [], s.shared.engine.1)

append-sure :
    (wal : Wal) (entry : WalEntry) (w : World)
    → w.faults ≡ []
    → (w' : World) × (append wal entry false w ≡ (ok tt, w')) × (w'.faults ≡ [])
append-sure wal entry w quiet =
    let (_, w', e, (only, still)) =
      Post-sure (append-OnlyAt wal entry false w) (λ _ b. b.1 quiet) in
    (w', e, still quiet)

OnOk-ok :
    {P : World → Type 0} {r : Outcome WalError (Unit {0}) × World} (w : World)
    → OnOk (λ _. P) r
    → r ≡ (ok tt, w)
    → P w
OnOk-ok {P} w (gave a s g) same =
    rw (ap (λ (x : Outcome WalError (Unit {0}) × World). x.1) same) at g
OnOk-ok w (erred e s) same = absurd cc
OnOk-ok w (panicked s) same = absurd cc

truncate-sure :
    (wal : Wal) (w : World)
    → w.faults ≡ []
    → (w' : World) × (truncate wal w ≡ (ok tt, w'))
      × OnlyAt wal.file w w'
      × (contents w'.files wal.file ≡ some [])
truncate-sure wal w quiet =
    let (_, w', e, (only, _)) = Post-sure (truncate-OnlyAt wal w) (λ _ b. b.1 quiet) in
    (w', e, only, OnOk-ok w' (truncate-empties wal w) e)

module _ (fl : Floats) (i : ℕ) (l : Lsm) (w w' : World) (log : Mutex) where
  append_advances :
      (entry : WalEntry) (p q : Pc)
      → append l.wal entry false w ≡ (ok tt, w')
      → advance fl i (has_log entry) (two p q log (l, w)).shared
        ≡ some (at_mem entry, (two p q free (l, w')).shared)
  unfolding advance
  append_advances entry p q e = rw e refl

  name_advances :
      (n : ℕ) (p q : Pc)
      → now {E = LsmError} w ≡ (ok n, w')
      → advance fl i at_name (two p q log (l, w)).shared
        ≡ some (wants_flush (join l.dir (table_name b'0' n)), (two p q log (l, w')).shared)
  unfolding advance next_sstable_path
  name_advances n p q e = rw e refl

  truncate_advances :
      (path : FilePath) (p q : Pc)
      → truncate l.wal w ≡ (ok tt, w')
      → advance fl i (at_truncate path) (two p q log (l, w)).shared
        ≡ some (at_add path, (two p q free (l, w')).shared)
  unfolding advance
  truncate_advances path p q e = rw e refl

  flush_advances :
      (path path' : FilePath) (mem : MemTable) (p q : Pc)
      → flush fl mem path w ≡ (ok path', w')
      → advance fl i (at_flush path mem) (two p q log (l, w)).shared
        ≡ some (at_truncate path, (two p q log (l, w')).shared)
  unfolding advance
  flush_advances path path' mem p q e = rw e refl

mem_fills :
    (fl : Floats) (i : ℕ) (key value : Bytes) (l : Lsm) (w : World) (log : Mutex) (p q : Pc)
    → leb l.flush_threshold (size_bytes (Memtable.set l.mem key value)) ≡ true
    → advance fl i (at_mem (put key value)) (two p q log (l, w)).shared
      ≡ some (at_name, (two p q log (record l { mem = Memtable.set l.mem key value }, w)).shared)
unfolding advance apply_entry
mem_fills fl i key value l w log p q full = rw full refl

-- One record alone is below the threshold.
mem_returns :
    (fl : Floats) (i : ℕ) (key value : Bytes) (l : Lsm) (w : World) (log : Mutex) (p q : Pc)
    → l.mem ≡ Memtable.empty
    → length key + length value < l.flush_threshold
    → advance fl i (at_mem (put key value)) (two p q log (l, w)).shared
      ≡ some (
        returned (ok tt),
        (two p q log (record l { mem = Memtable.set Memtable.empty key value }, w)).shared,
      )
unfolding advance apply_entry size_bytes Memtable.set insert
mem_returns fl i key value l w log p q none_left small =
    let low : leb l.flush_threshold (length key + length value + 0) ≡ false =
      ground (arith, small) in
    rw (none_left, low) refl

module _ (fl : Floats) (laws : FloatLaws fl) (key value key' value' : Bytes) (l : Lsm) (w : World)
    (h : IsSound (l, w)) (quiet : w.faults ≡ []) (fits : FitsRecord (key', value')) where
  abbrev loaded : Lsm
  loaded = record l { mem = Memtable.set l.mem key' value' }

  abbrev start : System
  start = two (wants_log (put key value)) (wants_log (put key' value')) free (l, w)

  -- The second thread fills the MemTable and takes a name for the table; then the first appends.
  both_logged :
      leb l.flush_threshold (size_bytes loaded.mem) ≡ true
      → (n : ℕ) × (w' : World) × (w'.faults ≡ [])
        × Steps fl start (
            two
              (at_mem (put key value))
              (wants_flush (join l.dir (table_name b'0' n)))
              free
              (loaded, w'))
  unfolding advance
  both_logged full =
      let a = put key value in
      let b = put key' value' in
      let (w1, e1, quiet1) = append-sure l.wal b w quiet in
      let (later, e2) = now_reads {E = LsmError} w1 in
      let w2 : World = record w1 { clock = later } in
      let (w3, e3, quiet3) = append-sure l.wal a w2 quiet1 in
      let n = reading w1.clock in
      let named = wants_flush (join l.dir (table_name b'0' n)) in
      let s1 =
        second_goes fl start (wants_log a) (wants_log b) (has_log b) free (held_by 1) (l, w) (l, w)
          here refl in
      let s2 =
        second_goes fl start (wants_log a) (has_log b) (at_mem b) (held_by 1) free (l, w) (l, w1) s1
          (append_advances fl 1 l w w1 (held_by 1) b (wants_log a) (has_log b) e1) in
      let s3 =
        second_goes fl start _ _ _ _ _ _ _ s2
          (mem_fills fl 1 key' value' l w1 free (wants_log a) (at_mem b) full) in
      let s4 =
        second_goes fl start _ _ _ _ _ _ _ s3
          (name_advances fl 1 loaded w1 w2 free n (wants_log a) at_name e2) in
      let s5 =
        first_goes fl start (wants_log a) (has_log a) named free (held_by 0) (loaded, w2)
          (loaded, w2) s4 refl in
      let s6 =
        first_goes fl start _ _ _ _ _ _ _ s5
          (append_advances fl 0 loaded w2 w3 (held_by 0) a (has_log a) named e3) in
      (n, w3, quiet3, s6)

  -- The second thread swaps the MemTable, writes the table and truncates the log; then the first
  -- changes the MemTable.
  flushed_between :
      (n : ℕ) (w' : World)
      → w'.faults ≡ []
      → length key + length value < l.flush_threshold
      → Steps fl start (
          two
            (at_mem (put key value))
            (wants_flush (join l.dir (table_name b'0' n)))
            free
            (loaded, w'))
      → (s : System) × Steps fl start s
        × Lost l loaded.mem key value (join l.dir (table_name b'0' n)) s
  unfolding advance
  flushed_between n w3 quiet3 small before =
      let a = put key value in
      let path = join l.dir (table_name b'0' n) in
      let swapped : Lsm = record l { mem = Memtable.empty } in
      let (fits', size, sorted) =
        set-fits l.mem key' value' l.flush_threshold h.sorted h.fits fits h.below h.bounded in
      let (path', w4, e4, (_, done)) =
        Post-sure
          (flush-Serves fl laws loaded.mem path w3 (tmp_ne_table path l.dir b'0' n) sorted fits'
            size)
          (λ _ b. b.noisy quiet3) in
      let (w5, e5, only, empty) = truncate-sure l.wal w4 (done.quiet quiet3) in
      let s1 =
        second_goes fl start (at_mem a) (wants_flush path) (at_swap path) free (held_by 1)
          (loaded, w3) (loaded, w3) before refl in
      let s2 =
        second_goes fl start (at_mem a) (at_swap path) (at_flush path loaded.mem) (held_by 1)
          (held_by 1) (loaded, w3) (swapped, w3) s1 refl in
      let s3 = second_goes fl start _ _ _ _ _ _ _ s2 (
        flush_advances fl 1 swapped w3 w4 (held_by 1) path path' loaded.mem (at_mem a)
          (at_flush path loaded.mem) e4) in
      let s4 =
        second_goes fl start _ _ _ _ _ _ _ s3 (
          truncate_advances fl 1 swapped w4 w5 (held_by 1) path (at_mem a) (at_truncate path) e5) in
      let s5 =
        first_goes fl start _ _ _ _ _ _ _ s4
          (mem_returns fl 0 key value swapped w5 free (at_mem a) (at_add path) refl small) in
      (
        two (returned (ok tt)) (at_add path) free
            (record l { mem = Memtable.set Memtable.empty key value }, w5),
        s5,
        record {
          acknowledged = refl;
          mem = refl;
          table =
              TableAt-kept loaded.mem.entries path w4 w5
                (only.same path (λ e. wal_ne_table l.dir b'0' n (sym h.log ∙ sym e))) done.table;
          log = replay-empty l.wal.file w5 empty;
        },
      )

-- An acknowledged write can be missing from the disk. On a sound engine whose calls of the file system
-- do not fail, let one thread begin a set of a record that is below the flush threshold on its own, and
-- another thread a set that brings the MemTable to it, of a record that fits a file. Then steps of the
-- two lead to a state where the first set has returned without error and the MemTable holds its record
-- alone, while a replay of the log gives no entry, and the new table is the MemTable from before that
-- record.
pub set-Lost :
    (fl : Floats) (laws : FloatLaws fl) (key value key' value' : Bytes) (l : Lsm) (w : World)
    → IsSound (l, w)
    → w.faults ≡ []
    → FitsRecord (key', value')
    → length key + length value < l.flush_threshold
    → leb l.flush_threshold (size_bytes (Memtable.set l.mem key' value')) ≡ true
    → (path : FilePath) × (s : System) × Steps fl
        (two (wants_log (put key value)) (wants_log (put key' value')) free (l, w))
        s
      × Lost l (Memtable.set l.mem key' value') key value path s
set-Lost fl laws key value key' value' l w h quiet fits small full =
    let (n, w', quiet', before) = both_logged fl laws key value key' value' l w h quiet fits full in
    let (s, steps, lost) =
      flushed_between fl laws key value key' value' l w h quiet fits n w' quiet' small before in
    (join l.dir (table_name b'0' n), s, steps, lost)
