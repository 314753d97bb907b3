-- ===== src/Wal/File.antt =====
-- `Wal`: the log file, and `Wal::replay`.
use via_tabula.Base.{
  ℕ, zero, suc, Bool, Option, none, some, List, [], ◌∷◌, ◌++◌, if◌then◌else◌, length, drop, ok, err,
  panic,
}
use via_tabula.Base.Bytes.{Bytes}
use via_tabula.Fs.{FilePath, Io, pure, or_err, ◌>>=◌, ◌>>◌, open_append, write_all, touch, read}
use via_tabula.Fs.{set_len_zero}
use via_tabula.Wal.Entry.{WalEntry, WalError, error, encode, decode}

-- The open file is known by its path.
pub record Wal : Type 0 where
  pub file : FilePath

unfoldable pub open_wal : FilePath → Io WalError Wal
open_wal path = do or_err (open_append path) error; pure (record { file = path })

-- `set_len(0)`, then a `seek` that has no effect on an append-mode file
unfoldable pub truncate : Wal → Io WalError (Unit {0})
truncate wal = do or_err (set_len_zero wal.file) error; or_err touch error; pure tt

unfoldable pub append : Wal → WalEntry → Bool → Io WalError (Unit {0})
append wal entry sync = do
  or_err (write_all wal.file (encode entry)) error
  if sync then or_err touch error else pure tt

-- The loop of `replay` over the bytes from the cursor on. `none` means that the fuel ran out.
unfoldable pub replay_bytes : ℕ → Bytes → List WalEntry → Option (List WalEntry)
replay_bytes zero bytes entries = none
replay_bytes (suc fuel) [] entries = some entries
replay_bytes (suc fuel) (b ∷ bs) entries = elim (decode (b ∷ bs)) [
  | ok (entry, consumed) ↦ replay_bytes fuel (drop consumed (b ∷ bs)) (entries ++ (entry ∷ []))
  | err _ ↦ some entries
  | panic ↦ none
]

-- Every entry takes a byte at least, so one more round than there are bytes is enough.
unfoldable pub replay_all : Bytes → Option (List WalEntry)
replay_all bytes = replay_bytes (suc (length bytes)) bytes []

unfoldable pub replay : FilePath → Io WalError (List WalEntry)
replay path = do
  bytes ← or_err (read path) error
  elim (replay_all bytes) [ some entries ↦ pure entries | none ↦ λ w. (panic, w) ]
