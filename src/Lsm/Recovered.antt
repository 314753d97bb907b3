-- ===== src/Lsm/Recovered.antt =====
-- `Lsm::open` on the log that an earlier run left.
use via_tabula.Base.{
  ◌≡◌, refl, ap, Option, none, some, List, [], ◌∷◌, ◌++◌, if◌then◌else◌, All, arith,
}
use via_tabula.Base.Bytes.{Bytes}
use via_tabula.Base.Order.{eqb}
use via_tabula.Types.{tombstone}
use via_tabula.Map
use via_tabula.Map.{IsSorted}
use via_tabula.Map.Order.{insert-IsSorted}
use via_tabula.Fs.{World, contents, contents-put, same_path_refl, open_append, or_empty, no_fault}
use via_tabula.Fs.Post.{Post, returns, Post-bind, Post-map_err, Post-attempt}
use via_tabula.Wal.{Wal, WalEntry, put, delete, error, open_wal}
use via_tabula.Wal.Codec.{Fits}
use via_tabula.Wal.Replay.{encodes, Stops, replay_all-encodes}
use via_tabula.Wal.Durable.{replay-some}
use via_tabula.Memtable
use via_tabula.Memtable.{MemTable}
use via_tabula.Memtable.Table.{get-set, get-delete}
use via_tabula.Lsm.Engine.{Lsm, from_wal}
use via_tabula.Lsm.Recovery.{apply_entry, apply_all, wal_path, open_lsm}

abbrev key_of : WalEntry → Bytes
key_of (put key value) = key
key_of (delete key) = key

abbrev value_of : WalEntry → Bytes
value_of (put key value) = value
value_of (delete key) = tombstone

-- What the last entry of the key leaves at it: its value, or the tombstone.
unfoldable pub last_write : List WalEntry → Bytes → Option Bytes
last_write [] q = none
last_write (e ∷ entries) q = elim (last_write entries q) [
  | some value ↦ some value
  | none ↦ if eqb (key_of e) q then some (value_of e) else none
]

get-apply_entry :
    (t : MemTable) (e : WalEntry) (q : Bytes)
    → Memtable.get (apply_entry t e) q
      ≡ (if eqb (key_of e) q then some (value_of e) else Memtable.get t q)
unfolding apply_entry
get-apply_entry t (put key value) q = get-set t key value q
get-apply_entry t (delete key) q = get-delete t key q

get-apply_all :
    (entries : List WalEntry) (t : MemTable) (q : Bytes)
    → Memtable.get (apply_all t entries) q
      ≡ elim (last_write entries q) [ some value ↦ some value | none ↦ Memtable.get t q ]
unfolding apply_all last_write
get-apply_all [] t q = refl
get-apply_all (e ∷ entries) t q =
    ground (arith, get-apply_all entries (apply_entry t e) q, get-apply_entry t e q)

apply_all-IsSorted :
    (entries : List WalEntry) (t : MemTable)
    → IsSorted t.entries
    → IsSorted (apply_all t entries).entries
unfolding apply_all apply_entry Memtable.set Memtable.delete
apply_all-IsSorted [] t s = s
apply_all-IsSorted (put key value ∷ entries) t s =
    apply_all-IsSorted entries (Memtable.set t key value) (insert-IsSorted key value t.entries s)
apply_all-IsSorted (delete key ∷ entries) t s =
    apply_all-IsSorted entries (Memtable.delete t key) (insert-IsSorted key tombstone t.entries s)

-- What the engine has in memory after it was opened on a log of these entries.
pub record Recovered (dir : Bytes) (entries : List WalEntry) (l : Lsm) : Type 0 where
  pub sorted : IsSorted l.mem.entries
  pub lookups : (q : Bytes) → Memtable.get l.mem q ≡ last_write entries q
  pub log : l.wal.file ≡ wal_path dir
  pub folder : l.dir ≡ dir

pub Recovered-apply_all :
    (dir : Bytes) (entries : List WalEntry) (q : Bytes)
    → Memtable.get (apply_all Memtable.empty entries) q ≡ last_write entries q
unfolding Memtable.get Map.get
Recovered-apply_all dir entries q = ground (arith, get-apply_all entries Memtable.empty q)

-- Opening a folder whose log holds whole entries whose lengths fit, and behind them nothing or bytes that do not
-- decode: the MemTable has for every key what its last entry left, in key order, and the engine goes
-- on with that log. It errs only where a call of the file system failed, and it does not panic.
pub open_lsm-Recovered :
    (dir : Bytes) (w : World) (entries : List WalEntry) (tail : Bytes)
    → All Fits entries
    → Stops tail
    → contents w.files (wal_path dir) ≡ some (encodes entries ++ tail)
    → Post (λ l _. Recovered dir entries l) (λ _. ¬ (w.faults ≡ [])) (open_lsm dir w)
unfolding open_lsm open_wal open_append
open_lsm-Recovered dir w entries tail fits stops there =
    let path = wal_path dir in
    let wal0 : Wal = record { file = path } in
    Post-bind _
      (Post-map_err from_wal (
        Post-bind
          {Good' = λ wal w'.
            (wal ≡ wal0) × (contents w'.files path ≡ some (encodes entries ++ tail))}
          _
          (Post-map_err (λ _. error)
            (Post-attempt {Good = λ _ w'. contents w'.files path ≡ some (encodes entries ++ tail)} _
              _ w
              (λ fine.
                rw (contents-put, same_path_refl path) (ap some (or_empty w.files path _ there)))
              (λ n fault q. no_fault w.faults n q fault)))
          (λ _ w1 kept. returns _ _ (refl, kept))))
      (λ wal w1 (same, kept).
        let found =
          replay-some wal0 w1 _ entries kept (replay_all-encodes entries tail fits stops) in
        rw found (
          returns _ _ (record {
            sorted = apply_all-IsSorted entries Memtable.empty tt;
            lookups = Recovered-apply_all dir entries;
            log = ap (λ (a : Wal). a.file) same;
            folder = refl;
          })))
