-- ===== src/Units/Memtables.antt =====
-- The tests in src/memtable.rs that touch no file.
use via_tabula.Base.{
  ◌≡◌, refl, Bool, true, false, ◌&&◌, Option, none, some, List, [], ◌∷◌, ◌==◌, Outcome, ok, err,
  panic,
}
use via_tabula.Base.Bytes.{Bytes}
use via_tabula.Base.Order.{cmp, eqb}
use via_tabula.Types.{tombstone, is_tombstone}
use via_tabula.Map.{Entries, insert, get, skip_below, take_below}
use via_tabula.Memtable
use via_tabula.Memtable.{MemTable, scan, size_bytes, without_tombstones}

abbrev hello : Bytes
hello = b'h' ∷ b'e' ∷ b'l' ∷ b'l' ∷ b'o' ∷ []

abbrev test : Bytes
test = b't' ∷ b'e' ∷ b's' ∷ b't' ∷ []

abbrev apple : Bytes
apple = b'a' ∷ b'p' ∷ b'p' ∷ b'l' ∷ b'e' ∷ []

abbrev banana : Bytes
banana = b'b' ∷ b'a' ∷ b'n' ∷ b'a' ∷ b'n' ∷ b'a' ∷ []

abbrev cherry : Bytes
cherry = b'c' ∷ b'h' ∷ b'e' ∷ b'r' ∷ b'r' ∷ b'y' ∷ []

abbrev mango : Bytes
mango = b'm' ∷ b'a' ∷ b'n' ∷ b'g' ∷ b'o' ∷ []

abbrev date : Bytes
date = b'd' ∷ b'a' ∷ b't' ∷ b'e' ∷ []

abbrev elderberry : Bytes
elderberry = b'e' ∷ b'l' ∷ b'd' ∷ b'e' ∷ b'r' ∷ b'b' ∷ b'e' ∷ b'r' ∷ b'r' ∷ b'y' ∷ []

abbrev fig : Bytes
fig = b'f' ∷ b'i' ∷ b'g' ∷ []

abbrev grape : Bytes
grape = b'g' ∷ b'r' ∷ b'a' ∷ b'p' ∷ b'e' ∷ []

abbrev honeydew : Bytes
honeydew = b'h' ∷ b'o' ∷ b'n' ∷ b'e' ∷ b'y' ∷ b'd' ∷ b'e' ∷ b'w' ∷ []

abbrev jackfruit : Bytes
jackfruit = b'j' ∷ b'a' ∷ b'c' ∷ b'k' ∷ b'f' ∷ b'r' ∷ b'u' ∷ b'i' ∷ b't' ∷ []

abbrev kiwi : Bytes
kiwi = b'k' ∷ b'i' ∷ b'w' ∷ b'i' ∷ []

-- `assert_eq!` of what `get` found.
is_value : Option Bytes → Bytes → Bool
is_value none value = false
is_value (some found) value = eqb found value

test_set_and_get : Bool
test_set_and_get = is_value (Memtable.get (Memtable.set Memtable.empty hello test) hello) test

test_set_and_get_lem : test_set_and_get ≡ true
unfolding test_set_and_get is_value Memtable.get Memtable.set insert get cmp
test_set_and_get_lem = refl

test_delete : Bool
test_delete =
    let t = Memtable.delete (Memtable.set Memtable.empty hello test) hello in
    is_value (Memtable.get t hello) tombstone

test_delete_lem : test_delete ≡ true
unfolding test_delete is_value Memtable.get Memtable.set Memtable.delete insert get cmp
test_delete_lem = refl

test_size : Bool
test_size = size_bytes (Memtable.set Memtable.empty hello test) == 9

test_size_lem : test_size ≡ true
unfolding test_size Memtable.set size_bytes insert cmp
test_size_lem = refl

-- The keys that a scan gives are these, in this order.
have_keys : Entries → List Bytes → Bool
have_keys [] [] = true
have_keys [] (key ∷ keys) = false
have_keys ((k, v) ∷ found) [] = false
have_keys ((k, v) ∷ found) (key ∷ keys) = eqb k key && have_keys found keys

finds_keys : Outcome (Unit {0}) Entries → List Bytes → Bool
unfolding have_keys
finds_keys (ok found) keys = have_keys found keys
finds_keys (err e) keys = false
finds_keys panic keys = false

set_all : MemTable → Entries → MemTable
set_all t [] = t
set_all t ((key, value) ∷ rest) = set_all (Memtable.set t key value) rest

abbrev fruits : Entries
fruits = (apple, b'1' ∷ []) ∷ (mango, b'2' ∷ []) ∷ (banana, b'3' ∷ []) ∷ (cherry, b'4' ∷ []) ∷ []

test_scan : Bool
test_scan = finds_keys (scan (set_all Memtable.empty fruits) banana mango) (banana ∷ cherry ∷ [])

test_scan_lem : test_scan ≡ true
unfolding test_scan finds_keys set_all Memtable.set scan without_tombstones skip_below take_below
    insert is_tombstone cmp
test_scan_lem = refl

-- In an order that is not that of the keys.
abbrev more_fruits : Entries
more_fruits =
    (fig, b'6' ∷ [])
    ∷ (apple, b'1' ∷ [])
    ∷ (kiwi, b'8' ∷ [])
    ∷ (date, b'4' ∷ [])
    ∷ (cherry, b'3' ∷ [])
    ∷ (elderberry, b'5' ∷ [])
    ∷ (banana, b'2' ∷ [])
    ∷ (grape, b'7' ∷ [])
    ∷ (honeydew, b'8' ∷ [])
    ∷ (jackfruit, b'9' ∷ [])
    ∷ []

test_scan_sorted_and_tombstone_filtered : Bool
test_scan_sorted_and_tombstone_filtered =
    let t = Memtable.delete (set_all Memtable.empty more_fruits) elderberry in
    finds_keys (scan t banana kiwi)
      (banana ∷ cherry ∷ date ∷ fig ∷ grape ∷ honeydew ∷ jackfruit ∷ [])

test_scan_sorted_and_tombstone_filtered_lem : test_scan_sorted_and_tombstone_filtered ≡ true
unfolding test_scan_sorted_and_tombstone_filtered finds_keys set_all Memtable.set Memtable.delete
    scan without_tombstones skip_below take_below insert cmp is_tombstone
test_scan_sorted_and_tombstone_filtered_lem = refl
