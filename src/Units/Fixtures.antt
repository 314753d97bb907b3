-- ===== src/Units/Fixtures.antt =====
-- What the unit tests that use files share.
use via_tabula.Base.{
  Bool, true, false, ◌&&◌, ◌||◌, Option, none, some, [], ◌∷◌, length, take, ok, err, panic,
}
use via_tabula.Base.Bytes.{Bytes}
use via_tabula.Base.Order.{eqb}
use via_tabula.Map.{Entries}
use via_tabula.Fs.{Io}

-- What a test says, on a disk with no file and no fault. An error or a panic fails it.
unfoldable pub passes {ℓ} : {E : Type ℓ} → Io E Bool → Bool
passes test = elim (test (record { files = []; faults = []; clock = [] })).0 [
  | ok b ↦ b
  | err e ↦ false
  | panic ↦ false
]

-- `assert_eq!` of what was found with `Some` of a value, or with `None`.
unfoldable pub same_option : Option Bytes → Option Bytes → Bool
same_option none none = true
same_option none (some b) = false
same_option (some a) none = false
same_option (some a) (some b) = eqb a b

unfoldable pub same_pairs : Entries → Entries → Bool
same_pairs [] [] = true
same_pairs [] (e ∷ es) = false
same_pairs (e ∷ es) [] = false
same_pairs ((k, v) ∷ es) ((k', v') ∷ es') = eqb k k' && eqb v v' && same_pairs es es'

-- `bytes.windows(part.len()).any(|w| w == part)`
unfoldable pub any_window : Bytes → Bytes → Bool
any_window part [] = eqb [] part
any_window part (b ∷ bytes) = eqb (take (length part) (b ∷ bytes)) part || any_window part bytes

-- `path.exists()`
unfoldable pub is_there : Option Bytes → Bool
is_there none = false
is_there (some c) = true
