-- ===== src/Map.antt =====
-- `BTreeMap<Vec<u8>, Vec<u8>>` of the standard library: the entries in key order. Every table of
-- the program is such a list of entries: the MemTable's map, and the records of an SSTable.
pub mod Order
pub mod Lookup
use via_tabula.Base.{
  ◌≡◌, Option, none, some, List, [], ◌∷◌, ◌++◌, Ordering, Bool, if◌then◌else◌, All,
}
use via_tabula.Base.Bytes.{Bytes}
use via_tabula.Base.Order.{cmp, ltb, ◌≺◌}

abbrev pub Entries : Type 0
Entries = List (Bytes × Bytes)

-- The value of the first entry with the key.
unfoldable pub get : Entries → Bytes → Option Bytes
get [] key = none
get ((k, v) ∷ rest) key = elim (cmp k key) [ Ordering.eq ↦ some v | _ ↦ get rest key ]

-- `BTreeMap::insert` replaces the value of an equal key, and keeps the order.
unfoldable pub insert : Bytes → Bytes → Entries → Entries
insert key value [] = (key, value) ∷ []
insert key value ((k, v) ∷ rest) = elim (cmp key k) [
  | Ordering.lt ↦ (key, value) ∷ (k, v) ∷ rest
  | Ordering.eq ↦ (k, value) ∷ rest
  | Ordering.gt ↦ (k, v) ∷ insert key value rest
]

-- The two ends of `BTreeMap::range` with `Included(start)` and `Excluded(end)`.
unfoldable pub skip_below : Bytes → Entries → Entries
skip_below start [] = []
skip_below start ((k, v) ∷ rest) =
    let later = skip_below start rest in if ltb k start then later else (k, v) ∷ rest

unfoldable pub take_below : Bytes → Entries → Entries
take_below end [] = []
take_below end ((k, v) ∷ rest) =
    let more = take_below end rest in if ltb k end then (k, v) ∷ more else []

-- The keys ascend strictly: `Above key m` says that all of them are larger than `key`.
abbrev pub Above : Bytes → Entries → Type 0
Above key = All (λ e. key ≺ e.0)

abbrev pub IsSorted : Entries → Type 0
IsSorted [] = Unit
IsSorted ((k, v) ∷ rest) = Above k rest × IsSorted rest
