-- ===== src/Lsm/Recovery.antt =====
-- `discover_levels` and `Lsm::open`.
use via_tabula.Base.{
  ℕ, zero, suc, true, false, ◌+◌, ◌-◌, ◌*◌, ◌^◌, Bool, ◌&&◌, Option, none, some, List, [], ◌∷◌,
  ◌++◌, if◌then◌else◌, leb, ltb, ◌==◌, map, length, drop, Ordering, ok,
}
use via_tabula.Base.Bytes.{Bytes}
use via_tabula.Base.Order.{cmp, eqb}
use via_tabula.Fs.{FilePath, Files, Io, pure, convert, ◌>>=◌, join}
use via_tabula.Wal.{WalEntry, put, delete, open_wal, replay}
use via_tabula.Memtable
use via_tabula.Memtable.{MemTable}
use via_tabula.Levels.{LevelManager, sst}
use via_tabula.Lsm.Engine.{Lsm, LsmError, from_wal, default_flush_threshold}

-- `name.ends_with(".sst")`
unfoldable pub ends_with : Bytes → Bytes → Bool
ends_with name suffix =
    leb (length suffix) (length name) && eqb (drop (length name - length suffix) name) suffix

-- `rest.split('_').next()`, which is all of a text with no `_`
unfoldable pub before_underscore : Bytes → Bytes
before_underscore [] = []
before_underscore (c ∷ cs) = if c == b'_' then [] else c ∷ before_underscore cs

-- `parse::<usize>()`: a sign `+`, then digits, at least one; `none` is an error, overflow included.
unfoldable pub parse_digits : Bytes → ℕ → Option ℕ
parse_digits [] n = some n
parse_digits (c ∷ cs) n =
    let n' = n * 10 + (c - b'0') in
    let more = parse_digits cs n' in
    if leb b'0' c && leb c b'9' then (if ltb n' (2 ^ 64) then more else none) else none

unfoldable pub parse_usize : Bytes → Option ℕ
parse_usize [] = none
parse_usize (c ∷ []) = if c == b'+' then none else parse_digits (c ∷ []) 0
parse_usize (c ∷ d ∷ cs) =
    if c == b'+' then parse_digits (d ∷ cs) 0 else parse_digits (c ∷ d ∷ cs) 0

-- The first byte of a character in UTF-8: how many bytes follow, and where the next of them lies.
unfoldable pub lead : ℕ → Option (ℕ × ℕ × ℕ)
lead c =
    if ltb c 0x80
    then some (0, 0x80, 0xBF)
    else if ltb c 0xC2
    then none
    else if ltb c 0xE0
    then some (1, 0x80, 0xBF)
    else if ltb c 0xF0
    then some (2, if c == 0xE0 then 0xA0 else 0x80, if c == 0xED then 0x9F else 0xBF)
    else if ltb c 0xF5
    then some (3, if c == 0xF0 then 0x90 else 0x80, if c == 0xF4 then 0x8F else 0xBF)
    else none

-- Well-formed UTF-8, where so many bytes of a character are still to come and the next lies between
-- `lo` and `hi`.
unfoldable pub utf8_from : ℕ → ℕ → ℕ → Bytes → Bool
unfolding lead
utf8_from zero lo hi [] = true
utf8_from (suc n) lo hi [] = false
utf8_from zero lo hi (c ∷ cs) = elim (lead c) [
  | none ↦ false
  | some (n, lo', hi') ↦ utf8_from n lo' hi' cs
]
utf8_from (suc n) lo hi (c ∷ cs) = leb lo c && leb c hi && utf8_from n 0x80 0xBF cs

-- `to_str`, which is `None` for a name that is not UTF-8
unfoldable pub is_utf8 : Bytes → Bool
unfolding utf8_from
is_utf8 name = utf8_from 0 0x80 0xBF name

-- The level that a file name stands for; `none` where the loop goes on with the next file.
unfoldable pub level_of : Bytes → Option ℕ
level_of [] = none
level_of (c ∷ rest) =
    if is_utf8 (c ∷ rest) && ends_with (c ∷ rest) sst
    then (if c == b'l' then parse_usize (before_underscore rest) else none)
    else none

-- `while manager.levels.len() <= level { push }`, then the push to that level.
unfoldable pub push_at : ℕ → FilePath → List (List FilePath) → List (List FilePath)
push_at zero path [] = (path ∷ []) ∷ []
push_at zero path (l ∷ levels) = (l ++ (path ∷ [])) ∷ levels
push_at (suc n) path [] = [] ∷ push_at n path []
push_at (suc n) path (l ∷ levels) = l ∷ push_at n path levels

-- The loop over the entries of the folder, in the order in which `read_dir` gives them.
unfoldable pub discover_files : Bytes → Files → List (List FilePath) → List (List FilePath)
discover_files dir [] levels = levels
discover_files dir ((path, c) ∷ files) levels = discover_files dir files (
    if eqb path.parent dir
    then elim (level_of path.file_name) [ none ↦ levels | some level ↦ push_at level path levels ]
    else levels)

-- `level.sort()`: paths of one folder are ordered by their names.
unfoldable pub insert_path : FilePath → List FilePath → List FilePath
insert_path p [] = p ∷ []
insert_path p (q ∷ paths) = elim (cmp p.file_name q.file_name) [
  | Ordering.gt ↦ q ∷ insert_path p paths
  | _ ↦ p ∷ q ∷ paths
]

unfoldable pub sort : List FilePath → List FilePath
sort [] = []
sort (p ∷ paths) = insert_path p (sort paths)

unfoldable pub discover_levels : Bytes → Files → LevelManager
discover_levels dir files = record { levels = map sort (discover_files dir files ([] ∷ [] ∷ [])) }

-- The loop of `open` over the replayed entries.
unfoldable pub apply_entry : MemTable → WalEntry → MemTable
apply_entry mem (put key value) = Memtable.set mem key value
apply_entry mem (delete key) = Memtable.delete mem key

unfoldable pub apply_all : MemTable → List WalEntry → MemTable
apply_all mem [] = mem
apply_all mem (e ∷ entries) = apply_all (apply_entry mem e) entries

abbrev pub wal_path : Bytes → FilePath
wal_path dir = join dir (b'w' ∷ b'a' ∷ b'l' ∷ b'.' ∷ b'l' ∷ b'o' ∷ b'g' ∷ [])

abbrev read_dir : Io LsmError Files
read_dir w = (ok w.files, w)

unfoldable pub open_lsm : Bytes → Io LsmError Lsm
open_lsm dir = do
  wal ← convert from_wal (open_wal (wal_path dir))
  entries ← convert from_wal (replay (wal_path dir))
  files ← read_dir
  pure (record {
    dir = dir;
    mem = apply_all Memtable.empty entries;
    wal = wal;
    levels = discover_levels dir files;
    flush_threshold = default_flush_threshold;
  })
