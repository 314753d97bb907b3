-- ===== src/Tests.antt =====
-- The theorems at concrete inputs, and runs of the definitions.
pub mod Tables
mod Engines
mod Merges
mod Calls
mod Threads
mod Compactions
mod Names
use via_tabula.Base.{
  ℕ, ◌+◌, ◌≡◌, refl, true, ◌&&◌, none, some, List, [], ◌∷◌, ◌++◌, inr, if◌then◌else◌, length,
  replicate, All, ok, err, arith,
}
use via_tabula.Base.Bytes.{Bytes, to_le_bytes}
use via_tabula.Base.Order.{cmp, ltb, leb}
use via_tabula.Types.{hide_tombstone, is_tombstone}
use via_tabula.Wal.{
  WalEntry, put, delete, error, encode, body, u32_bytes, crc32, decode, replay_all,
}
use via_tabula.Wal.Codec.{decode-encode}
use via_tabula.Wal.Torn.{decode_torn}
use via_tabula.Wal.Replay.{encodes, replay_all_torn, replay_all_ends}
use via_tabula.Bloom.{BloomFilter, IsFilter, insert, may_contain, from_bytes, to_bytes}
use via_tabula.Bloom.Insert.{insert_all, Inserted, may_contain-insert_all, insert_exact}
use via_tabula.Bloom.Serial.{from_bytes-to_bytes}
use via_tabula.Map
use via_tabula.Map.{Entries, IsSorted}
use via_tabula.Memtable.{MemTable}
use via_tabula.Memtable
use via_tabula.Memtable.Table.{bytes_at, get-scan, size_bytes-set}

abbrev hello : WalEntry
hello = put (b'h' ∷ b'i' ∷ []) (b'y' ∷ b'o' ∷ [])

abbrev bye : WalEntry
bye = delete (b'h' ∷ b'i' ∷ [])

decode-encode_example : decode (encode hello ++ (7 ∷ [])) ≡ ok (hello, length (encode hello))
decode-encode_example = decode-encode hello (7 ∷ []) (omega arith, omega arith)

-- The first eight bytes of the encoding of `bye`, which has eleven.
abbrev bye_front : Bytes
bye_front = 1 ∷ 2 ∷ 0 ∷ 0 ∷ 0 ∷ b'h' ∷ []

bye_whole : (x : ℕ) × (back : Bytes) × (encode bye ≡ bye_front ++ (x ∷ back))
unfolding encode body u32_bytes to_le_bytes
bye_whole = (b'i', u32_bytes (crc32 (body bye)), refl)

decode_torn_example : decode bye_front ≡ err error
decode_torn_example = decode_torn bye bye_front bye_whole.0 bye_whole.1 (omega arith) bye_whole.2

replay_all_torn_example :
    replay_all (encodes (hello ∷ bye ∷ []) ++ bye_front) ≡ some (hello ∷ bye ∷ [])
replay_all_torn_example =
    replay_all_torn (hello ∷ bye ∷ []) bye bye_front bye_whole.0 bye_whole.1 (omega arith)
      (omega arith) bye_whole.2

replay_all_ends_example : (all : List WalEntry) × (replay_all (9 ∷ 9 ∷ []) ≡ some all)
replay_all_ends_example = replay_all_ends (9 ∷ 9 ∷ [])

abbrev small : BloomFilter
small = record { bits = replicate 3 0; k = 7; m = 20 }

abbrev small-IsFilter : IsFilter small
small-IsFilter = record { sized = refl; bytes = (omega arith); some_bit = inr (omega arith) }

abbrev words : List Bytes
words = (b'a' ∷ []) ∷ (b'b' ∷ b'c' ∷ []) ∷ []

may_contain-insert_all_example :
    (f' : BloomFilter) × (insert_all {E = ⊥} small words ≡ ok f')
    × IsFilter f'
    × All (λ key. may_contain {E = ⊥} f' key ≡ ok true) words
may_contain-insert_all_example = may_contain-insert_all small words small-IsFilter

insert_exact_example :
    (f' : BloomFilter) × (insert {E = ⊥} small (b'a' ∷ []) ≡ ok f') × Inserted small (b'a' ∷ []) f'
insert_exact_example = insert_exact small (b'a' ∷ []) small-IsFilter

from_bytes-to_bytes_example : from_bytes {E = ⊥} (to_bytes small) ≡ ok small
from_bytes-to_bytes_example = from_bytes-to_bytes small (omega arith) (omega arith)

-- The keys a, b and c, of which b is deleted.
abbrev table : MemTable
table = record {
  entries =
      (b'a' ∷ [], 1 ∷ []) ∷ (b'b' ∷ [], via_tabula.Types.tombstone) ∷ (b'c' ∷ [], 3 ∷ []) ∷ [];
}

table-IsSorted : IsSorted table.entries
unfolding cmp
table-IsSorted = ((refl, (refl, tt)), ((refl, tt), (tt, tt)))

get-scan_example :
    (found : Entries) × (Memtable.scan {E = ⊥} table (b'a' ∷ []) (b'c' ∷ []) ≡ ok found)
    × (Map.get found (b'a' ∷ []) ≡ (
        if leb (b'a' ∷ []) (b'a' ∷ []) && ltb (b'a' ∷ []) (b'c' ∷ [])
        then hide_tombstone (Memtable.get table (b'a' ∷ []))
        else none))
    × IsSorted found
unfolding cmp
get-scan_example = get-scan table (b'a' ∷ []) (b'c' ∷ []) (b'a' ∷ []) table-IsSorted refl

size_bytes-set_example :
    Memtable.size_bytes (Memtable.set table (b'c' ∷ []) [])
      + bytes_at (b'c' ∷ []) (Memtable.get table (b'c' ∷ []))
    ≡ Memtable.size_bytes table + (1 + 0)
size_bytes-set_example = size_bytes-set table (b'c' ∷ []) [] table-IsSorted
