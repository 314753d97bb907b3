-- ===== src/Tests/Engines.antt =====
-- The theorems on the log file and on the engine at a concrete folder.
use via_tabula.Base.{◌⊎◌, ◌++◌, false, ◌≡◌, refl, true, none, some, [], ◌∷◌, ok, arith}
use via_tabula.Base.Bytes.{Bytes, to_le_bytes}
use via_tabula.Base.Order.{cmp}
use via_tabula.Types.{hide_tombstone}
use via_tabula.Fs.{World, contents, same_path, join}
use via_tabula.Fs.Post.{Post}
use via_tabula.Wal.{Wal, WalEntry, put, append, decode, decode_body, decode_delete, error}
use via_tabula.Wal.Replay.{encodes, Stops, at_error}
use via_tabula.Wal.Durable.{IsLog, Recovers, append-Recovers}
use via_tabula.Map
use via_tabula.Sstable.Writer.{record_bytes}
use via_tabula.Sstable.Layout.{records}
use via_tabula.Memtable
use via_tabula.Lsm.{Lsm, open_lsm, get, set, delete, wal_path}
use via_tabula.Lsm.Visible.{IsReady, get-set, get-delete}
use via_tabula.Lsm.Recovered.{Recovered, open_lsm-Recovered}
use via_tabula.Levels.{Range, ranges_overlap}
use via_tabula.Levels.Ranges.{Within, ranges_overlap_exact}
use via_tabula.Tests.Tables.{hundredths, hundredths-FloatLaws, key, memtable}

abbrev entry : WalEntry
entry = put (key b'a') (1 ∷ [])

abbrev pub log : Wal
log = record { file = wal_path (b'd' ∷ []) }

-- A log of one entry, on a disk whose next write fails after three bytes.
abbrev logged : World
logged = record {
  files = (log.file, encodes (entry ∷ [])) ∷ [];
  faults = some 3 ∷ [];
  clock = 7 ∷ [];
}

logged-IsLog : IsLog log (entry ∷ []) logged
unfolding contents same_path cmp join
logged-IsLog = record { bytes = refl; fits = ((omega arith, omega arith), tt) }

append-Recovers_example :
    Post
      (λ _ w'. IsLog log (entry ∷ entry ∷ []) w')
      (Recovers log (entry ∷ []) entry)
      (append log entry true logged)
append-Recovers_example =
    append-Recovers log (entry ∷ []) entry (omega arith, omega arith) logged true logged-IsLog

-- Every write makes an SSTable.
abbrev engine : Lsm
engine = record {
  dir = b'd' ∷ [];
  mem = memtable;
  wal = log;
  levels = record { levels = [] };
  flush_threshold = 1;
}

set-IsReady : IsReady (record engine { mem = Memtable.set engine.mem (key b'c') (5 ∷ []) })
unfolding Memtable.set Map.insert cmp records record_bytes to_le_bytes
set-IsReady = record {
  log = refl;
  sorted = ((refl, (refl, tt)), ((refl, tt), (tt, tt)));
  fits =
      ((omega arith, omega arith), ((omega arith, omega arith), ((omega arith, omega arith), tt)));
  small = omega arith;
}

delete-IsReady : IsReady (record engine { mem = Memtable.delete engine.mem (key b'c') })
unfolding Memtable.delete Map.insert cmp records record_bytes to_le_bytes
delete-IsReady = record {
  log = refl;
  sorted = ((refl, (refl, tt)), ((refl, tt), (tt, tt)));
  fits =
      ((omega arith, omega arith), ((omega arith, omega arith), ((omega arith, omega arith), tt)));
  small = omega arith;
}

get-set_example :
    Post
      (λ _ e. get (key b'c') e ≡ (ok (hide_tombstone (some (5 ∷ []))), e))
      (λ _. ¬ (logged.faults ≡ []))
      (set hundredths (key b'c') (5 ∷ []) (engine, logged))
get-set_example =
    get-set hundredths hundredths-FloatLaws engine logged (key b'c') (5 ∷ []) set-IsReady

get-delete_example :
    Post
      (λ _ e. get (key b'c') e ≡ (ok none, e))
      (λ _. ¬ (logged.faults ≡ []))
      (delete hundredths (key b'c') (engine, logged))
get-delete_example =
    get-delete hundredths hundredths-FloatLaws engine logged (key b'c') delete-IsReady

-- The front of an entry that was not written to its end.
abbrev torn_tail : Bytes
torn_tail = 1 ∷ 2 ∷ 0 ∷ []

torn_tail-Stops : Stops torn_tail
unfolding decode decode_body decode_delete
torn_tail-Stops = at_error error refl

abbrev crashed : World
crashed = record {
  files = (log.file, encodes (entry ∷ []) ++ torn_tail) ∷ [];
  faults = none ∷ [];
  clock = [];
}

crashed_log :
    contents crashed.files (wal_path (b'd' ∷ [])) ≡ some (encodes (entry ∷ []) ++ torn_tail)
unfolding contents same_path cmp join
crashed_log = refl

open_lsm-Recovered_example :
    Post
      (λ l _. Recovered (b'd' ∷ []) (entry ∷ []) l)
      (λ _. ¬ (crashed.faults ≡ []))
      (open_lsm (b'd' ∷ []) crashed)
open_lsm-Recovered_example =
    open_lsm-Recovered (b'd' ∷ []) crashed (entry ∷ []) torn_tail ((omega arith, omega arith), tt)
      torn_tail-Stops crashed_log

abbrev a_to_c : Range
a_to_c = (key b'a', key b'c')

abbrev b_to_d : Range
b_to_d = (key b'b', key b'd')

ranges_overlap_exact_example :
    ((ranges_overlap a_to_c b_to_d ≡ true) × (k : Bytes) × Within k a_to_c × Within k b_to_d)
    ⊎ ((ranges_overlap a_to_c b_to_d ≡ false)
        × ((k : Bytes) → ¬ (Within k a_to_c × Within k b_to_d)))
unfolding cmp
ranges_overlap_exact_example = ranges_overlap_exact a_to_c b_to_d refl refl
