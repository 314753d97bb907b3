-- ===== src/Lsm/Threads/Alone.antt =====
-- A thread that runs a call on its own does what the method does.
use via_tabula.Base.{
  ℕ, zero, suc, Bool, true, false, if◌then◌else◌, none, some, List, [], ◌∷◌, leb, ◌≡◌, refl,
  Outcome, ok, err, panic, map_err,
}
use via_tabula.Fs.{FilePath, World, Exec, continue, convert, now, pure, ◌>>=◌}
use via_tabula.Bloom.Arith.{Floats}
use via_tabula.Wal.{WalEntry, WalError, put, append, truncate}
use via_tabula.Memtable
use via_tabula.Memtable.{MemTable, size_bytes, flush}
use via_tabula.Sstable.Writer.{SsTableError}
use via_tabula.Levels.{add_l0_file}
use via_tabula.Lsm.Engine.{
  Engine, Lsm, LsmError, this, assign_levels, from_wal, from_sstable, flush_to, flush_memtable,
  flush_if_full, next_sstable_path, set, delete, outside,
}
use via_tabula.Lsm.Steps.{call}
use via_tabula.Lsm.Recovery.{apply_entry}
use via_tabula.Lsm.Threads.{
  Pc, Mutex, Shared, free, held_by, at_name, wants_log, at_mem, wants_flush, at_truncate, at_add,
  returned, advance, after, release, keep_or_release,
}

-- The steps of thread `i` while it can take any, at most so many.
unfoldable pub run : Floats → ℕ → ℕ → Pc → Shared → Pc × Shared
run fl zero i pc s = (pc, s)
run fl (suc n) i pc s = elim (advance fl i pc s) [
  | none ↦ (pc, s)
  | some (pc', s') ↦ run fl n i pc' s'
]

abbrev pub shared : Mutex → Engine → Shared
shared log e = record { log = log; levels_poisoned = false; engine = e }

-- The thread returned what the method returns, and left the engine as it does.
abbrev pub Agrees : Pc × Shared → Outcome LsmError (Unit {0}) × Engine → Type 0
Agrees (pc, s) (r, e) = (pc ≡ returned r) × (s.engine ≡ e)

module _ (fl : Floats) (i : ℕ) (path : FilePath) (l : Lsm) where
  abbrev add_to_l0 : Exec Engine LsmError (Unit {0})
  add_to_l0 = this >>= λ l'. assign_levels (add_l0_file l'.levels path)

  truncated-Agrees :
      (m : Outcome WalError (Unit {0}) × World)
      → Agrees
          (run fl 1 i (after m.0 (at_add path)) (shared (release m.0) (l, m.1)))
          (continue (map_err from_wal m.0) (λ _. add_to_l0) (l, m.1))
  unfolding run advance
  truncated-Agrees (ok u, w) = (refl, refl)
  truncated-Agrees (err e, w) = (refl, refl)
  truncated-Agrees (panic, w) = (refl, refl)

  flushed-Agrees :
      (m : Outcome SsTableError FilePath × World)
      → Agrees
          (run fl 2 i
            (after m.0 (at_truncate path))
            (shared (keep_or_release m.0 (held_by i)) (l, m.1)))
          (continue
            (map_err from_sstable m.0)
            (λ _. convert from_wal (outside (truncate l.wal)) >>= λ _. add_to_l0)
            (l, m.1))
  unfolding run advance
  flushed-Agrees (ok u, w) = truncated-Agrees (truncate l.wal w)
  flushed-Agrees (err e, w) = (refl, refl)
  flushed-Agrees (panic, w) = (refl, refl)

flush_to-Agrees :
    (fl : Floats) (i : ℕ) (path : FilePath) (l : Lsm) (w : World)
    → Agrees (run fl 5 i (wants_flush path) (shared free (l, w))) (flush_to fl path (l, w))
unfolding run advance flush_to
flush_to-Agrees fl i path l w =
    flushed-Agrees fl i path (record l { mem = Memtable.empty }) (flush fl l.mem path w)

flush_memtable-Agrees :
    (fl : Floats) (i : ℕ) (l : Lsm) (w : World) (clock : List ℕ)
    → Agrees
        (run fl 6 i at_name (shared free (l, record w { clock = clock })))
        (flush_memtable fl (l, record w { clock = clock }))
unfolding run advance flush_memtable next_sstable_path now
flush_memtable-Agrees fl i l w [] = flush_to-Agrees fl i _ l _
flush_memtable-Agrees fl i l w (t ∷ later) = flush_to-Agrees fl i _ l _

due-Agrees :
    (fl : Floats) (i : ℕ) (l : Lsm) (w : World) (due : Bool)
    → Agrees
        (run fl 6 i (if due then at_name else returned (ok tt)) (shared free (l, w)))
        ((if due then flush_memtable fl else pure tt) (l, w))
unfolding run advance
due-Agrees fl i l w true = flush_memtable-Agrees fl i l w w.clock
due-Agrees fl i l w false = (refl, refl)

mem-Agrees :
    (fl : Floats) (i : ℕ) (entry : WalEntry) (l : Lsm) (w : World)
    → Agrees
        (run fl 7 i (at_mem entry) (shared free (l, w)))
        (flush_if_full fl (record l { mem = apply_entry l.mem entry }, w))
unfolding run advance flush_if_full
mem-Agrees fl i entry l w =
    let l' = record l { mem = apply_entry l.mem entry } in
    due-Agrees fl i l' w (leb l.flush_threshold (size_bytes l'.mem))

logged-Agrees :
    (fl : Floats) (i : ℕ) (entry : WalEntry) (l : Lsm) (m : Outcome WalError (Unit {0}) × World)
    → Agrees (run fl 7 i (after m.0 (at_mem entry)) (shared (release m.0) (l, m.1))) (
        continue
          (map_err from_wal m.0)
          (λ _ (e : Engine). flush_if_full fl (record (e.0) { mem = apply_entry l.mem entry }, e.1))
          (l, m.1))
unfolding run advance
logged-Agrees fl i entry l (ok u, w) = mem-Agrees fl i entry l w
logged-Agrees fl i entry l (err e, w) = (refl, refl)
logged-Agrees fl i entry l (panic, w) = (refl, refl)

-- A thread that runs `set` or `delete` while no other takes a step, from where the log's lock is free
-- and no panic has poisoned the levels, does so in nine steps at most, and returns what the method as
-- one piece returns, errors and panics included, with the same fields and files.
pub run-call :
    (fl : Floats) (i : ℕ) (entry : WalEntry) (e : Engine)
    → Agrees (run fl 9 i (wants_log entry) (shared free e)) (call fl entry e)
unfolding run advance set delete call apply_entry
run-call fl i (put key value) (l, w) =
    logged-Agrees fl i (put key value) l (append l.wal (put key value) false w)
run-call fl i (WalEntry.delete key) (l, w) =
    logged-Agrees fl i (WalEntry.delete key) l (append l.wal (WalEntry.delete key) false w)
