-- ===== src/Tests/Threads.antt =====
-- The theorems on threads at a concrete system.
use via_tabula.Base.{
  ℕ, zero, suc, ◌+◌, ◌≤◌, ◌≡◌, refl, true, false, some, List, [], ◌∷◌, arith, All, get_elem?, set,
  leb,
}
use via_tabula.Map
use via_tabula.Memtable
use via_tabula.Memtable.{size_bytes}
use via_tabula.Fs.{FilePath, World, write_all, attempt}
use via_tabula.Wal.{WalEntry, put, append}
use via_tabula.Lsm.Threads.Lost.{two, Lost, set-Lost}
use via_tabula.Lsm.Sound.{IsSound}
use via_tabula.Lsm.Steps.{call}
use via_tabula.Lsm.Threads.{
  Pc, Shared, free, held_by, idle, wants_log, has_log, at_mem, advance, append_step,
}
use via_tabula.Lsm.Threads.System.{
  System, Steps, here, more, background, background_step, at_top, asleep, ended, alive, joining,
  dropped, is_resting,
}
use via_tabula.Lsm.Threads.Fair.{holds, owns}
use via_tabula.Lsm.Threads.Exclusive.{some_inj, IsExclusive, Steps-exclusive}
use via_tabula.Lsm.Threads.Returns.{Turns, stay, turn, beside, total, calls_return, Turns-total}
use via_tabula.Lsm.Threads.Drop.{drop_returns}
use via_tabula.Lsm.Threads.Alone.{run, shared, Agrees, run-call}
use via_tabula.Tests.Tables.{hundredths, hundredths-FloatLaws, key}
use via_tabula.Tests.Calls.{new_engine, new_world}

abbrev entry : WalEntry
entry = put (key b'a') (1 ∷ [])

-- Thread 0 is in its block, thread 1 waits for it, and thread 2 runs no call.
abbrev threads : List Pc
threads = has_log entry ∷ wants_log entry ∷ idle ∷ []

abbrev now_shared : Shared
now_shared = shared (held_by 0) (new_engine, new_world)

abbrev system : System
system = record {
  shared = now_shared;
  threads = threads;
  background = at_top;
  shutdown = false;
  dropping = alive;
}

abbrev slept : System
slept = record system { background = asleep }

system-owner : (i : ℕ) (pc : Pc) → get_elem? threads i ≡ some pc → holds pc ≡ owns (held_by 0) i
unfolding holds owns
system-owner zero pc e = let same : has_log entry ≡ pc = some_inj e in rw⁻¹ same refl
system-owner (suc zero) pc e = let same : wants_log entry ≡ pc = some_inj e in rw⁻¹ same refl
system-owner (suc (suc zero)) pc e = let same : idle ≡ pc = some_inj e in rw⁻¹ same refl
system-owner (suc (suc (suc i))) pc e = cc

system-there : (i : ℕ) → owns (held_by 0) i ≡ true → (pc : Pc) × (get_elem? threads i ≡ some pc)
unfolding owns
system-there zero e = (_, refl)
system-there (suc i) e = ground (arith, e)

system-IsExclusive : IsExclusive system
system-IsExclusive = record { owner = system-owner; there = system-there }

sleeps : background_step hundredths false at_top now_shared ≡ some (asleep, now_shared)
unfolding background_step
sleeps = refl

steps : Steps hundredths system slept
steps = more system slept here (background asleep now_shared sleeps)

inside : holds (has_log entry) ≡ true
unfolding holds
inside = refl

Steps-exclusive_example : ◌≡◌ {A = ℕ} 0 0
Steps-exclusive_example =
    Steps-exclusive hundredths system slept 0 0 (has_log entry) (has_log entry) system-IsExclusive
      steps refl refl inside inside

calls_return_example :
    (n : ℕ) × (s' : System) × Turns hundredths system n s'
    × All (λ pc. is_resting pc ≡ true) s'.threads
calls_return_example = calls_return hundredths system system-IsExclusive

-- Thread 0 appends its entry, after the background thread fell asleep.
abbrev appended : Shared
appended = (append_step entry now_shared).1

appends : advance hundredths 0 (has_log entry) now_shared ≡ some (at_mem entry, appended)
unfolding advance append write_all attempt
appends = refl

abbrev turned : System
turned = record slept { threads = set threads 0 (at_mem entry); shared = appended }

turns : Turns hundredths system 1 turned
turns =
    turn 0 0 slept (has_log entry) (at_mem entry) appended
      (beside 0 system asleep now_shared stay sleeps) refl appends

Turns-total_example : 1 + total turned.threads ≤ total system.threads
Turns-total_example = Turns-total hundredths system turned 1 turns

abbrev closing : System
closing = record system { threads = []; shutdown = true; dropping = joining }

drop_returns_example :
    (s' : System) × Steps hundredths closing s' × (s'.background ≡ ended) × (s'.dropping ≡ dropped)
drop_returns_example = drop_returns hundredths closing refl refl

run-call_example :
    Agrees
      (run hundredths 9 4 (wants_log entry) (shared free (new_engine, new_world)))
      (call hundredths entry (new_engine, new_world))
run-call_example = run-call hundredths 4 entry (new_engine, new_world)

-- Calls of the file system do not fail.
abbrev quiet_world : World
quiet_world = record new_world { faults = [] }

quiet-IsSound : IsSound (new_engine, quiet_world)
unfolding size_bytes
quiet-IsSound = record {
  log = refl;
  sorted = tt;
  fits = tt;
  below = omega arith;
  bounded = omega arith;
  tables = (tt, (tt, tt));
}

-- One byte is below the threshold of two, and the other record brings an empty MemTable to it.
fills :
    leb new_engine.flush_threshold (size_bytes (Memtable.set Memtable.empty (key b'b') (1 ∷ [])))
    ≡ true
unfolding size_bytes Memtable.set Map.insert
fills = refl

set-Lost_example :
    (path : FilePath) × (s : System) × Steps hundredths
      (two
        (wants_log (put (key b'a') []))
        (wants_log (put (key b'b') (1 ∷ [])))
        free
        (new_engine, quiet_world))
      s
    × Lost new_engine (Memtable.set Memtable.empty (key b'b') (1 ∷ [])) (key b'a') [] path s
set-Lost_example =
    set-Lost hundredths hundredths-FloatLaws (key b'a') [] (key b'b') (1 ∷ []) new_engine
      quiet_world quiet-IsSound refl (omega arith, omega arith) (omega arith) fills
