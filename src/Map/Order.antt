-- ===== src/Map/Order.antt =====
-- The operations of a map keep its keys in strict order.
use via_tabula.Base.{[], ◌∷◌, arith}
use via_tabula.Base.Bytes.{Bytes}
use via_tabula.Base.Order.{◌≺◌, lt_trans, lt_of_gt}
use via_tabula.Map.{Entries, insert, skip_below, take_below, Above, IsSorted}

pub Above-imp : (a b : Bytes) (m : Entries) → a ≺ b → Above b m → Above a m
Above-imp a b [] h s = tt
Above-imp a b ((k, v) ∷ m) h s = (lt_trans a b k h s.0, Above-imp a b m h s.1)

pub Above-insert :
    (low key value : Bytes) (m : Entries) → low ≺ key → Above low m → Above low (insert key value m)
unfolding insert
Above-insert low key value [] h s = (h, tt)
Above-insert low key value ((k, v) ∷ m) h s = ground (arith, Above-insert low key value m)

pub insert-IsSorted : (key value : Bytes) (m : Entries) → IsSorted m → IsSorted (insert key value m)
unfolding insert
insert-IsSorted key value [] s = (tt, tt)
insert-IsSorted key value ((k, v) ∷ m) s = ground (
  arith,
  insert-IsSorted key value m,
  Above-insert k key value m,
  Above-imp key k m,
  lt_of_gt key k,
)

Above-take_below : (low end : Bytes) (m : Entries) → Above low m → Above low (take_below end m)
unfolding take_below
Above-take_below low end [] s = tt
Above-take_below low end ((k, v) ∷ m) s = ground (arith, Above-take_below low end m)

pub skip_below-IsSorted : (start : Bytes) (m : Entries) → IsSorted m → IsSorted (skip_below start m)
unfolding skip_below
skip_below-IsSorted start [] s = tt
skip_below-IsSorted start ((k, v) ∷ m) s = ground (arith, skip_below-IsSorted start m)

pub take_below-IsSorted : (end : Bytes) (m : Entries) → IsSorted m → IsSorted (take_below end m)
unfolding take_below
take_below-IsSorted end [] s = tt
take_below-IsSorted end ((k, v) ∷ m) s =
    ground (arith, take_below-IsSorted end m, Above-take_below k end m)
