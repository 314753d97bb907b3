-- ===== src/Memtable/Table.antt =====
-- The MemTable as a table: reads after writes, its size, and its range scan.
use via_tabula.Base.{
  ℕ, ◌+◌, ◌≡◌, refl, ◌∙◌, false, ◌&&◌, Option, none, some, [], ◌∷◌, if◌then◌else◌, length, ok,
  arith,
}
use via_tabula.Base.Bytes.{Bytes}
use via_tabula.Base.Order.{ltb, leb, eqb, eq_of_cmp, lt_of_gt, gt_of_lt}
use via_tabula.Types.{tombstone, hide_tombstone}
use via_tabula.Map
use via_tabula.Map.{Entries, Above, IsSorted}
use via_tabula.Map.Lookup.{get-insert, get_before, get-Above, get-skip_below, get-take_below}
use via_tabula.Map.Order.{skip_below-IsSorted, take_below-IsSorted}
use via_tabula.Memtable.{
  MemTable, get, set, delete, sum_bytes, size_bytes, without_tombstones, scan,
}

-- A read after a write of the same key gives the value written, and of another key what it gave
-- before.
pub get-set :
    (t : MemTable) (key value q : Bytes)
    → get (set t key value) q ≡ (if eqb key q then some value else get t q)
unfolding get set
get-set t key value q = get-insert key value q t.entries

-- A delete leaves the tombstone at its key, so that it can be told from a key never written, and
-- changes no other key.
pub get-delete :
    (t : MemTable) (key q : Bytes)
    → get (delete t key) q ≡ (if eqb key q then some tombstone else get t q)
unfolding get delete
get-delete t key q = get-insert key tombstone q t.entries

abbrev pub bytes_at : Bytes → Option Bytes → ℕ
bytes_at key none = 0
bytes_at key (some v) = length key + length v

sum_bytes-insert :
    (key value : Bytes) (m : Entries)
    → IsSorted m
    → sum_bytes (Map.insert key value m) + bytes_at key (Map.get m key)
      ≡ sum_bytes m + (length key + length value)
unfolding sum_bytes Map.insert Map.get
sum_bytes-insert key value [] s = omega arith
sum_bytes-insert key value ((k, v) ∷ m) s = ground (
  arith,
  sum_bytes-insert key value m s.1,
  get_before k v key m s,
  eq_of_cmp key k,
  eq_of_cmp k key,
  lt_of_gt key k,
)

-- Where the keys ascend, writing changes the size by the difference between the new record and the one
-- it replaces.
pub size_bytes-set :
    (t : MemTable) (key value : Bytes)
    → IsSorted t.entries
    → size_bytes (set t key value) + bytes_at key (get t key)
      ≡ size_bytes t + (length key + length value)
unfolding size_bytes set get
size_bytes-set t key value s = sum_bytes-insert key value t.entries s

pub get-without_tombstones :
    (m : Entries) (q : Bytes)
    → IsSorted m
    → Map.get (without_tombstones m) q ≡ hide_tombstone (Map.get m q)
unfolding without_tombstones Map.get hide_tombstone
get-without_tombstones [] q s = refl
get-without_tombstones ((k, v) ∷ m) q s =
    ground (arith, get-without_tombstones m q s.1, get-Above k m s.0, eq_of_cmp k q)

without_tombstones-Above :
    (low : Bytes) (m : Entries) → Above low m → Above low (without_tombstones m)
unfolding without_tombstones
without_tombstones-Above low [] a = tt
without_tombstones-Above low ((k, v) ∷ m) a = ground (arith, without_tombstones-Above low m)

pub without_tombstones-IsSorted : (m : Entries) → IsSorted m → IsSorted (without_tombstones m)
unfolding without_tombstones
without_tombstones-IsSorted [] s = tt
without_tombstones-IsSorted ((k, v) ∷ m) s =
    ground (arith, without_tombstones-IsSorted m, without_tombstones-Above k m)

-- A scan of a MemTable whose keys ascend, where the end is not below the start, does not panic. It
-- finds a key exactly where the key lies in the range, `end` excluded, and its record is no tombstone;
-- the keys found ascend strictly.
pub get-scan :
    (t : MemTable) (start end q : Bytes)
    → IsSorted t.entries
    → ltb end start ≡ false
    → (found : Entries) × (scan {E = ⊥} t start end ≡ ok found)
      × (Map.get found q ≡ (if leb start q && ltb q end then hide_tombstone (get t q) else none))
      × IsSorted found
unfolding scan get hide_tombstone
get-scan t start end q s h =
    let high = skip_below-IsSorted start t.entries s in
    let range = Map.take_below end (Map.skip_below start t.entries) in
    (
      without_tombstones range,
      rw h,
      get-without_tombstones range q (take_below-IsSorted end (Map.skip_below start t.entries) high)
          ∙ rw
              (
                get-take_below end q (Map.skip_below start t.entries) high,
                get-skip_below start q t.entries s,
              )
              (ground (arith, gt_of_lt q start, lt_of_gt start q)),
      without_tombstones-IsSorted range
          (take_below-IsSorted end (Map.skip_below start t.entries) high),
    )
