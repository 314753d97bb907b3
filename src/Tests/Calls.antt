-- ===== src/Tests/Calls.antt =====
-- The theorems on sequences of calls at a concrete engine.
use via_tabula.Base.{◌≡◌, refl, none, some, List, [], ◌∷◌, ok, arith, ◌≤◌, ◌*◌, ◌+◌, length}
use via_tabula.Base.Order.{cmp}
use via_tabula.Types.{hide_tombstone}
use via_tabula.Fs.{World, write_all, attempt}
use via_tabula.Fs.Post.{Post}
use via_tabula.Wal.{WalEntry, put, append}
use via_tabula.Sstable.Layout.{records}
use via_tabula.Map
use via_tabula.Memtable
use via_tabula.Memtable.{size_bytes}
use via_tabula.Memtable.Bounds.{records-size_bytes}
use via_tabula.Lsm.{Lsm, get, set, delete, find_on_disk, find_in_levels, find_in, flush_if_full}
use via_tabula.Lsm.Sound.{IsSound}
use via_tabula.Lsm.Flushed.{IsFresh}
use via_tabula.Lsm.Full.{next_name}
use via_tabula.Lsm.Refines.{Wrote, set-IsSound, delete-IsSound}
use via_tabula.Lsm.Steps.{
  Reaches, start, write, look, Writes, done, next, call, StandsFor, all_written, Reaches-IsSound,
  Writes-StandsFor,
}
use via_tabula.Tests.Tables.{hundredths, hundredths-FloatLaws, key, memtable, three-IsSorted}
use via_tabula.Base.Bytes.{Bytes}
use via_tabula.Lsm.{open_lsm, apply_all}
use via_tabula.Fs.{contents, same_path, join}
use via_tabula.Wal.Replay.{encodes}
use via_tabula.Lsm.Logged.{IsLogged, Writes-reopened}
use via_tabula.Tests.Engines.{log}

records-size_bytes_example : length (records memtable.entries) ≤ 9 * size_bytes memtable + 8
records-size_bytes_example = records-size_bytes memtable three-IsSorted

-- A new engine that makes a table of every two bytes, on a disk whose third call fails.
abbrev pub new_engine : Lsm
new_engine = record {
  dir = b'd' ∷ [];
  mem = Memtable.empty;
  wal = log;
  levels = record { levels = [] ∷ [] ∷ [] };
  flush_threshold = 2;
}

abbrev pub new_world : World
new_world = record {
  files = (log.file, []) ∷ [];
  faults = none ∷ none ∷ some 3 ∷ [];
  clock = 7 ∷ 9 ∷ [];
}

new-IsSound : IsSound (new_engine, new_world)
unfolding size_bytes
new-IsSound = record {
  log = refl;
  sorted = tt;
  fits = tt;
  below = omega arith;
  bounded = omega arith;
  tables = (tt, (tt, tt));
}

set-IsSound_example :
    Post
      (λ _ e.
        IsSound e × Wrote (key b'a') (hide_tombstone (some (1 ∷ []))) (new_engine, new_world) e)
      (λ e. IsSound e × ¬ (new_world.faults ≡ []))
      (set hundredths (key b'a') (1 ∷ []) (new_engine, new_world))
set-IsSound_example =
    set-IsSound hundredths hundredths-FloatLaws new_engine new_world (key b'a') (1 ∷ []) new-IsSound
      (omega arith, omega arith) (tt, (tt, tt))

delete-IsSound_example :
    Post
      (λ _ e. IsSound e × Wrote (key b'a') none (new_engine, new_world) e)
      (λ e. IsSound e × ¬ (new_world.faults ≡ []))
      (delete hundredths (key b'a') (new_engine, new_world))
delete-IsSound_example =
    delete-IsSound hundredths hundredths-FloatLaws new_engine new_world (key b'a') new-IsSound
      (omega arith) (tt, (tt, tt))

-- A write that makes a table and fails at it, and a read.
abbrev after_calls : Lsm × World
after_calls =
    (get (key b'a') (call hundredths (put (key b'a') (1 ∷ [])) (new_engine, new_world)).1).1

calls : Reaches hundredths (new_engine, new_world) after_calls
calls = look (key b'a') (call hundredths (put (key b'a') (1 ∷ [])) (new_engine, new_world)).1 (
    write (put (key b'a') (1 ∷ [])) (new_engine, new_world) start (omega arith, omega arith)
      (tt, (tt, tt)))

Reaches-IsSound_example : IsSound after_calls
Reaches-IsSound_example =
    Reaches-IsSound hundredths hundredths-FloatLaws (new_engine, new_world) after_calls new-IsSound
      calls

abbrev wide : Lsm
wide = record new_engine { flush_threshold = 100 }

wide-IsSound : IsSound (wide, new_world)
unfolding size_bytes
wide-IsSound = record {
  log = refl;
  sorted = tt;
  fits = tt;
  below = omega arith;
  bounded = omega arith;
  tables = (tt, (tt, tt));
}

wide-StandsFor : StandsFor (wide, new_world) (λ _. none)
unfolding get Memtable.get Map.get find_on_disk find_in_levels find_in hide_tombstone
wide-StandsFor q = refl

abbrev entries : List WalEntry
entries = put (key b'a') (1 ∷ []) ∷ WalEntry.delete (key b'a') ∷ []

-- The engine after the first write, and after both.
abbrev first : Lsm × World
first = (call hundredths (put (key b'a') (1 ∷ [])) (wide, new_world)).1

abbrev both : Lsm × World
both = (call hundredths (WalEntry.delete (key b'a')) first).1

first_returns : call hundredths (put (key b'a') (1 ∷ [])) (wide, new_world) ≡ (ok tt, first)
unfolding call set append write_all attempt flush_if_full size_bytes Memtable.set Map.insert
first_returns = refl

second_returns : call hundredths (WalEntry.delete (key b'a')) first ≡ (ok tt, both)
unfolding call set delete append write_all attempt flush_if_full size_bytes Memtable.set
    Memtable.delete Map.insert cmp
second_returns = refl

first-IsFresh : IsFresh (next_name first.0 first.1) first.0
unfolding call set append write_all attempt flush_if_full size_bytes Memtable.set Map.insert
first-IsFresh = (tt, (tt, tt))

writes : Writes hundredths (wide, new_world) entries both
writes =
    next _ _ _ first _ (omega arith, omega arith) (tt, (tt, tt)) first_returns
      (next _ _ _ both _ (omega arith) first-IsFresh second_returns (done both))

Writes-StandsFor_example : IsSound both × StandsFor both (all_written entries (λ _. none))
Writes-StandsFor_example =
    Writes-StandsFor hundredths hundredths-FloatLaws (wide, new_world) both entries (λ _. none)
      wide-IsSound wide-StandsFor writes

wide-IsLogged : IsLogged (wide, new_world)
unfolding contents same_path cmp join apply_all encodes
wide-IsLogged = record {
  file = refl;
  entries = [];
  log = record { bytes = refl; fits = tt };
  mem = refl;
}

Writes-reopened_example :
    Post
      (λ l _. (q : Bytes) → Memtable.get l.mem q ≡ Memtable.get both.0.mem q)
      (λ _. ¬ (both.1.faults ≡ []))
      (open_lsm both.0.dir both.1)
Writes-reopened_example =
    Writes-reopened hundredths (wide, new_world) both entries wide-IsLogged writes
