-- ===== src/Map/Lookup.antt =====
-- `get` after the operations of a map.
use via_tabula.Base.{◌≡◌, refl, none, some, [], ◌∷◌, ◌++◌, arith, if◌then◌else◌}
use via_tabula.Base.Bytes.{Bytes}
use via_tabula.Base.Order.{◌≺◌, ltb, eqb, eq_of_cmp, gt_of_lt, lt_of_gt, lt_trans}
use via_tabula.Map.{Entries, get, insert, skip_below, take_below, Above, IsSorted}
use via_tabula.Map.Order.{Above-imp}

pub get-insert :
    (key value q : Bytes) (m : Entries)
    → get (insert key value m) q ≡ (if eqb key q then some value else get m q)
unfolding get insert
get-insert key value q [] = ground arith
get-insert key value q ((k, v) ∷ m) =
    ground (arith, get-insert key value q m, eq_of_cmp key k, eq_of_cmp k q, eq_of_cmp key q)

pub get-Above : (q : Bytes) (m : Entries) → Above q m → get m q ≡ none
unfolding get
get-Above q [] a = refl
get-Above q ((k, v) ∷ m) a = ground (arith, get-Above q m, gt_of_lt q k)

-- A key below the first entry's is not in a sorted map.
pub get_before :
    (k v q : Bytes) (m : Entries) → IsSorted ((k, v) ∷ m) → q ≺ k → get ((k, v) ∷ m) q ≡ none
get_before k v q m s h = get-Above q ((k, v) ∷ m) (h, Above-imp q k m h s.0)

pub get-skip_below :
    (start q : Bytes) (m : Entries)
    → IsSorted m
    → get (skip_below start m) q ≡ (if ltb q start then none else get m q)
unfolding get skip_below
get-skip_below start q [] s = ground arith
get-skip_below start q ((k, v) ∷ m) s = ground (
  arith,
  get-skip_below start q m,
  get_before k v q m,
  eq_of_cmp k q,
  eq_of_cmp k start,
  lt_of_gt k start,
  lt_trans q start k,
)

pub get-take_below :
    (end q : Bytes) (m : Entries)
    → IsSorted m
    → get (take_below end m) q ≡ (if ltb q end then get m q else none)
unfolding get take_below
get-take_below end q [] s = ground arith
get-take_below end q ((k, v) ∷ m) s = ground (
  arith,
  get-take_below end q m,
  get_before k v q m,
  eq_of_cmp k q,
  eq_of_cmp k end,
  lt_of_gt k end,
  lt_trans q end k,
)

-- In a sorted map an entry is what `get` finds at its key.
pub get-append :
    (q : Bytes) (m n : Entries)
    → get (m ++ n) q ≡ elim (get m q) [ some v ↦ some v | none ↦ get n q ]
unfolding get
get-append q [] n = refl
get-append q ((k, v) ∷ m) n = ground (arith, get-append q m n)
