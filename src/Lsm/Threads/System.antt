-- ===== src/Lsm/Threads/System.antt =====
-- All threads together: the callers of the methods, the background thread of `Lsm::open`, and `Drop`.
use via_tabula.Base.{
  ℕ, Bool, true, false, Option, none, some, List, if◌then◌else◌, get_elem?, set, Outcome, ok, err,
  panic, ◌≡◌, All,
}
use via_tabula.Fs.{World}
use via_tabula.Bloom.Arith.{Floats}
use via_tabula.Levels.{LevelManager, needs_compaction, compact}
use via_tabula.Compaction.{CompactionError}
use via_tabula.Lsm.Threads.{Pc, Shared, idle, wants_log, at_read, returned, answered, advance}

-- Where the background thread is in its loop; a panic ends it too.
pub data Background : Type 0 where
  at_top asleep at_check at_compact ended : Background

-- After `compact`; an error is only printed.
abbrev pub compacted :
    Shared → Outcome CompactionError (Unit {0}) → LevelManager × World → Background × Shared
compacted s (ok _) (levels, w) =
    (at_top, record s { engine = (record (s.engine.0) { levels = levels }, w) })
compacted s (err e) (levels, w) =
    (at_top, record s { engine = (record (s.engine.0) { levels = levels }, w) })
compacted s panic (levels, w) = (
  ended,
  record s { engine = (record (s.engine.0) { levels = levels }, w); levels_poisoned = true },
)

-- One round of the loop: the test of `shutdown`, the sleep, the test of the levels, the compaction.
unfoldable pub background_step : Floats → Bool → Background → Shared → Option (Background × Shared)
background_step fl shutdown at_top s = some (if shutdown then ended else asleep, s)
background_step fl shutdown asleep s = some (at_check, s)
background_step fl shutdown at_check s = some (
  if s.levels_poisoned
      then ended
      else (if needs_compaction s.engine.0.levels then at_compact else at_top),
  s,
)
background_step fl shutdown at_compact s =
    let (r, e) = compact fl (s.engine.0.levels, s.engine.1) in
    let done = compacted s r e in some (if s.levels_poisoned then (ended, s) else done)
background_step fl shutdown ended s = none

-- `Drop` of the engine: before, in `join`, and after it.
pub data Dropping : Type 0 where
  alive joining dropped : Dropping

pub record System : Type 0 where
  pub shared : Shared
  pub threads : List Pc
  pub background : Background
  pub shutdown : Bool
  pub dropping : Dropping

-- A thread that runs no call.
unfoldable pub is_resting : Pc → Bool
is_resting idle = true
is_resting (returned r) = true
is_resting (answered r) = true
is_resting _ = false

-- Where a call begins.
unfoldable pub is_entry : Pc → Bool
is_entry (wants_log entry) = true
is_entry (at_read key) = true
is_entry _ = false

-- A step of the system. The engine is dropped when no thread runs a call of it.
pub data Step (fl : Floats) (s : System) : System → Type 0 where
  call :
      (i : ℕ) (pc pc' : Pc)
      → s.dropping ≡ alive
      → get_elem? s.threads i ≡ some pc
      → is_resting pc ≡ true
      → is_entry pc' ≡ true
      → Step fl s (record s { threads = set s.threads i pc' })
  thread :
      (i : ℕ) (pc pc' : Pc) (shared' : Shared)
      → get_elem? s.threads i ≡ some pc
      → advance fl i pc s.shared ≡ some (pc', shared')
      → Step fl s (record s { threads = set s.threads i pc'; shared = shared' })
  background :
      (b : Background) (shared' : Shared)
      → background_step fl s.shutdown s.background s.shared ≡ some (b, shared')
      → Step fl s (record s { background = b; shared = shared' })
  shut_down :
      s.dropping ≡ alive
      → All (λ pc. is_resting pc ≡ true) s.threads
      → Step fl s (record s { shutdown = true; dropping = joining })
  join : s.dropping ≡ joining → s.background ≡ ended → Step fl s (record s { dropping = dropped })

pub data Steps (fl : Floats) (s : System) : System → Type 0 where
  here : Steps fl s s
  more : (s' s'' : System) → Steps fl s s' → Step fl s' s'' → Steps fl s s''
