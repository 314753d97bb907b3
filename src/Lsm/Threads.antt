-- ===== src/Lsm/Threads.antt =====
-- The methods of `Lsm` as threads run them at the same time. A call is a sequence of steps; a step is
-- what a thread does under one lock, or one call on the files under the log's lock.
pub mod System
pub mod Fair
pub mod Exclusive
pub mod Rank
pub mod Alone
pub mod Returns
pub mod Drop
pub mod Lost
use via_tabula.Base.{
  ℕ, Bool, true, false, Option, none, some, List, [], ◌∷◌, if◌then◌else◌, leb, ◌==◌, get_elem?,
  Outcome, ok, err, panic, ◌≡◌,
}
use via_tabula.Base
use via_tabula.Base.Bytes.{Bytes}
use via_tabula.Types.{hide_tombstone}
use via_tabula.Fs.{FilePath, World}
use via_tabula.Bloom.Arith.{Floats}
use via_tabula.Wal.{WalEntry, WalError, append, truncate}
use via_tabula.Memtable
use via_tabula.Memtable.{MemTable, size_bytes, flush}
use via_tabula.Sstable.Writer.{SsTableError}
use via_tabula.Levels.{add_l0_file}
use via_tabula.Lsm.Engine.{Engine, Lsm, LsmError, io_failed, next_sstable_path, find_on_disk}
use via_tabula.Lsm.Recovery.{apply_entry}

-- `Mutex<Wal>`; a panic of the thread that holds it poisons it.
pub data Mutex : Type 0 where
  free poisoned : Mutex
  held_by : ℕ → Mutex

-- Where a thread is. `set` and `delete` go from `wants_log` to `at_mem`; `flush_memtable` from
-- `at_name` to `at_add`; `get` from `at_read` to `at_levels`.
pub data Pc : Type 0 where
  idle at_name : Pc
  wants_log has_log at_mem : WalEntry → Pc
  wants_flush at_swap at_truncate at_add : FilePath → Pc
  at_flush : FilePath → MemTable → Pc
  at_read at_levels : Bytes → Pc
  returned : Outcome LsmError (Unit {0}) → Pc
  answered : Outcome LsmError (Option Bytes) → Pc

-- What the threads share: the log's lock, whether a panic has poisoned the lock of the levels, the
-- fields, and the files.
pub record Shared : Type 0 where
  pub log : Mutex
  pub levels_poisoned : Bool
  pub engine : Engine

-- The lock after the thread that held it left its block, and where the thread goes on.
abbrev pub release {ℓ κ} : {E : Type ℓ} {A : Type κ} → Outcome E A → Mutex
release (ok a) = free
release (err e) = free
release panic = poisoned

-- `?` on the result of a call on the files
abbrev pub after {ℓ κ} : {E : Type ℓ} {A : Type κ} → Outcome E A → Pc → Pc
after (ok a) next = next
after (err e) next = returned (err io_failed)
after panic next = returned panic

-- `self.wal.lock().unwrap()`
abbrev pub lock_log : ℕ → Pc → Shared → Option (Pc × Shared)
lock_log i next s = elim s.log [
  | free ↦ some (next, record s { log = held_by i })
  | poisoned ↦ some (returned panic, s)
  | held_by j ↦ none
]

abbrev pub with_files : Shared → Mutex → World → Shared
with_files s log w = record s { log = log; engine = (s.engine.0, w) }

-- `wal.append(..)`, at the end of the block that holds the lock
abbrev pub append_step : WalEntry → Shared → Pc × Shared
append_step entry s =
    let (r, w) = append s.engine.0.wal entry false s.engine.1 in
    (after r (at_mem entry), with_files s (release r) w)

-- The block that holds the MemTable's lock
abbrev pub mem_step : WalEntry → Shared → Pc × Shared
mem_step entry s =
    let (l, w) = s.engine in
    let mem = apply_entry l.mem entry in
    (
      if leb l.flush_threshold (size_bytes mem) then at_name else returned (ok tt),
      record s { engine = (record l { mem = mem }, w) },
    )

-- `flush_memtable` after `next_sstable_path`
abbrev pub after_name : Outcome LsmError FilePath → Pc
after_name (ok path) = wants_flush path
after_name (err e) = returned (err e)
after_name panic = returned panic

abbrev pub name_step : Shared → Pc × Shared
name_step s = let (r, e) = next_sstable_path s.engine in (after_name r, record s { engine = e })

-- `std::mem::replace(&mut *mem, MemTable::new())`
abbrev pub swap_step : FilePath → Shared → Pc × Shared
swap_step path s =
    let (l, w) = s.engine in
    (at_flush path l.mem, record s { engine = (record l { mem = Memtable.empty }, w) })

-- `old_mem.flush(&path)?`; on an error the lock goes with the guard
abbrev pub keep_or_release {ℓ κ} : {E : Type ℓ} {A : Type κ} → Outcome E A → Mutex → Mutex
keep_or_release (ok a) log = log
keep_or_release (err e) log = free
keep_or_release panic log = poisoned

abbrev pub flush_step : Floats → FilePath → MemTable → Shared → Pc × Shared
flush_step fl path old_mem s =
    let (r, w) = flush fl old_mem path s.engine.1 in
    (after r (at_truncate path), with_files s (keep_or_release r s.log) w)

-- `wal.truncate()?` and `drop(wal)`
abbrev pub truncate_step : FilePath → Shared → Pc × Shared
truncate_step path s =
    let (r, w) = truncate s.engine.0.wal s.engine.1 in
    (after r (at_add path), with_files s (release r) w)

-- `self.levels.write().unwrap().add_l0_file(path)`
abbrev pub add_step : FilePath → Shared → Pc × Shared
add_step path s =
    let (l, w) = s.engine in
    if s.levels_poisoned then (returned panic, s) else (
      returned (ok tt),
      record s { engine = (record l { levels = add_l0_file l.levels path }, w) },
    )

-- `get` after its look at the MemTable
abbrev pub after_read : Bytes → Option Bytes → Pc
after_read key (some value) = answered (ok (hide_tombstone (some value)))
after_read key none = at_levels key

abbrev pub read_step : Bytes → Shared → Pc × Shared
read_step key s = (after_read key (Memtable.get s.engine.0.mem key), s)

abbrev pub answer : Outcome SsTableError (Option Bytes) → Outcome LsmError (Option Bytes)
answer (ok value) = ok (hide_tombstone value)
answer (err e) = err io_failed
answer panic = panic

abbrev pub levels_step : Bytes → Shared → Pc × Shared
levels_step key s =
    if s.levels_poisoned
    then (answered panic, s)
    else (let (r, w) = find_on_disk s.engine.0.levels.levels key s.engine.1 in
        (answered (answer r), with_files s s.log w))

-- The next step of thread `i`; `none` where it waits for the log's lock, and where it runs no call.
unfoldable pub advance : Floats → ℕ → Pc → Shared → Option (Pc × Shared)
advance fl i idle s = none
advance fl i (returned r) s = none
advance fl i (answered r) s = none
advance fl i (wants_log entry) s = lock_log i (has_log entry) s
advance fl i (has_log entry) s = some (append_step entry s)
advance fl i (at_mem entry) s = some (mem_step entry s)
advance fl i at_name s = some (name_step s)
advance fl i (wants_flush path) s = lock_log i (at_swap path) s
advance fl i (at_swap path) s = some (swap_step path s)
advance fl i (at_flush path old_mem) s = some (flush_step fl path old_mem s)
advance fl i (at_truncate path) s = some (truncate_step path s)
advance fl i (at_add path) s = some (add_step path s)
advance fl i (at_read key) s = some (read_step key s)
advance fl i (at_levels key) s = some (levels_step key s)
