-- ===== src/Types.antt =====
-- src/types.rs: the tombstone sentinel.
use via_tabula.Base.{Bool, ◌∷◌, [], Option, none, some, if◌then◌else◌}
use via_tabula.Base.Bytes.{Bytes}
use via_tabula.Base.Order.{eqb}

-- `b"__TOMBSTONE__"`
abbrev pub tombstone : Bytes
tombstone =
    b'_' ∷ b'_' ∷ b'T' ∷ b'O' ∷ b'M' ∷ b'B' ∷ b'S' ∷ b'T' ∷ b'O' ∷ b'N' ∷ b'E' ∷ b'_' ∷ b'_' ∷ []

unfoldable pub is_tombstone : Bytes → Bool
is_tombstone value = eqb value tombstone

-- What a reader is shown of a record: nothing, if it is a deletion.
unfoldable pub hide_tombstone : Option Bytes → Option Bytes
hide_tombstone none = none
hide_tombstone (some value) = if is_tombstone value then none else some value
