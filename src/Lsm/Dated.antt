-- ===== src/Lsm/Dated.antt =====
-- `next_sstable_path`, the names that `compact` gives, and `discover_levels`, which reads the level
-- from a name and takes the order of the names for the order of time.
use via_tabula.Base.{
  ℕ, ◌+◌, ◌^◌, ◌≤◌, ◌<◌, ◌≡◌, refl, ◌∙◌, sym, ap, true, some, List, [], ◌∷◌, ◌++◌, All, All-imp,
  All-append, All-zip, arith, ltb, Bool-cases, inl, inr, leb, length, length-append, take,
  take_append, drop, ◌-◌, drop_append,
}
use via_tabula.Base.Bytes.{Bytes}
use via_tabula.Base.Order.{cmp, ◌≺◌, eqb, eqb_refl, gt_of_lt}
use via_tabula.Base.Order
use via_tabula.Fs.{FilePath, join}
use via_tabula.Levels.{sst, table_name, decimal}
use via_tabula.Levels.Digits.{
  digits, bounds-HasDigits, decimal-digits, All-decimal, digits-ordered, cmp-append-lt,
  cmp-append-same, length-digits, read_on, read_on-decimal,
}
use via_tabula.Lsm.Engine.{Lsm}
use via_tabula.Lsm.Flushed.{IsFresh}
use via_tabula.Lsm.Sorted.{Ascending, insert_path-All, sort-Ascending}
use mathlib.Core.List.{Perm}
use via_tabula.Lsm.Recovery.{
  sort, ends_with, before_underscore, parse_digits, parse_usize, level_of, is_utf8, utf8_from, lead,
}

ends_with_append : (front suffix : Bytes) → ends_with (front ++ suffix) suffix ≡ true
unfolding ends_with
ends_with_append front suffix =
    let n = length-append front suffix in
    let rest : drop (length (front ++ suffix) - length suffix) (front ++ suffix) ≡ suffix =
      drop_append (length (front ++ suffix) - length suffix) front suffix (omega (arith, n)) in
    let same : eqb (drop (length (front ++ suffix) - length suffix) (front ++ suffix)) suffix
        ≡ true =
      rw rest (eqb_refl suffix) in
    let short : leb (length suffix) (length (front ++ suffix)) ≡ true = ground (arith, n) in
    rw (ends_with, short, same)

lead-ascii : (c : ℕ) → c < 128 → lead c ≡ some (0, 0x80, 0xBF)
unfolding lead
lead-ascii c small = ground (arith, small)

-- ASCII is UTF-8.
utf8_from-ascii : (lo hi : ℕ) (cs : Bytes) → All (λ c. c < 128) cs → utf8_from 0 lo hi cs ≡ true
unfolding utf8_from
utf8_from-ascii lo hi [] a = refl
utf8_from-ascii lo hi (c ∷ cs) a =
    let here = lead-ascii c a.0 in rw (utf8_from, here) (utf8_from-ascii 0x80 0xBF cs a.1)

table_name-is_utf8 : (level n : ℕ) → level < 128 → is_utf8 (table_name level n) ≡ true
unfolding is_utf8 table_name
table_name-is_utf8 level n small =
    let dot : All (λ c. c < 128) sst =
      (omega arith, (omega arith, (omega arith, (omega arith, tt)))) in
    utf8_from-ascii 0x80 0xBF (table_name level n)
      (omega arith, (small, (omega arith, All-append _ (decimal n) sst (All-decimal n) dot)))

-- `discover_levels` reads from the name of a table the level that it was made for: 0 from the names
-- of `next_sstable_path`, 1 from those of `compact`, and any other digit likewise.
pub level_of-table_name :
    (level n : ℕ) → level < 10 → level_of (table_name (b'0' + level) n) ≡ some level
unfolding level_of before_underscore parse_usize parse_digits table_name
level_of-table_name level n small =
    let ends = ends_with_append (b'l' ∷ (b'0' + level) ∷ b'_' ∷ decimal n) sst in
    let utf8 : is_utf8 (b'l' ∷ (b'0' + level) ∷ b'_' ∷ (decimal n ++ sst)) ≡ true =
      table_name-is_utf8 (b'0' + level) n (omega arith) in
    rw (utf8, ends) (ground arith)

-- Between September 2001 and November 2286 the time in nanoseconds has 19 digits.
table_name-chronological :
    (level n m : ℕ) → 10 ^ 18 ≤ n → n < m → m < 10 ^ 19 → table_name level n ≺ table_name level m
unfolding table_name cmp
table_name-chronological level n m lo lt hi =
    rw
      (
        decimal-digits 18 n (bounds-HasDigits 18 n lo (omega arith)),
        decimal-digits 18 m (bounds-HasDigits 18 m (omega arith) hi),
      )
      (cmp-append-same (b'l' ∷ level ∷ b'_' ∷ []) (digits 19 n ++ sst) (digits 19 m ++ sst)
        ∙ cmp-append-lt (digits 19 n) (digits 19 m) sst sst
            (length-digits 19 n ∙ sym (length-digits 19 m)) (digits-ordered 19 n m lt hi))

without_sst : Bytes → Bytes
without_sst name = take (length name - 4) name

without_sst-append : (front : Bytes) → without_sst (front ++ sst) ≡ front
unfolding without_sst
without_sst-append front =
    take_append (length (front ++ sst) - 4) front sst (omega (arith, length-append front sst))

-- The time in the name of a table.
unfoldable pub time_of : FilePath → ℕ
unfolding without_sst
time_of p = read_on 0 (without_sst (drop 3 p.file_name))

time_of-join : (dir : Bytes) (level n : ℕ) → time_of (join dir (table_name level n)) ≡ n
unfolding table_name join time_of
time_of-join dir level n = ap (read_on 0) (without_sst-append (decimal n)) ∙ read_on-decimal n

-- Where every file of the levels has a name with a number below the reading of the clock, the next
-- table gets a name that none of them has.
pub later-IsFresh :
    (l : Lsm) (now : ℕ)
    → All
        (All (λ p. (level n : ℕ) × (p ≡ join l.dir (table_name level n)) × (n < now)))
        l.levels.levels
    → IsFresh (join l.dir (table_name b'0' now)) l
later-IsFresh l now dated =
    All-imp
      (λ paths.
        All-imp
          (λ p (level, n, name, lt) same. absurd (
            omega (
              arith,
              lt,
              time_of-join l.dir level n,
              time_of-join l.dir b'0' now,
              ap time_of (sym name ∙ same),
            )))
          paths)
      l.levels.levels dated

-- A table of this level in the folder, made at a time that has 19 digits.
pub record IsMade (dir : Bytes) (level : ℕ) (p : FilePath) : Type 0 where
  pub time : ℕ
  pub name : p ≡ join dir (table_name level time)
  pub from : 10 ^ 18 ≤ time
  pub to : time < 10 ^ 19

-- No later table of the list was made before an earlier one.
abbrev pub OldestFirst : List FilePath → Type 0
OldestFirst [] = Unit
OldestFirst (p ∷ paths) = All (λ q. time_of p ≤ time_of q) paths × OldestFirst paths

leb-time_of :
    (dir : Bytes) (level : ℕ) (p q : FilePath)
    → IsMade dir level p
    → IsMade dir level q
    → Order.leb p.file_name q.file_name ≡ true
    → time_of p ≤ time_of q
unfolding join
leb-time_of dir level p q a b le = elim (Bool-cases (ltb b.time a.time)) [
  | inl later ↦
      let gt =
        gt_of_lt (table_name level b.time) (table_name level a.time)
          (table_name-chronological level b.time a.time b.from (ground (arith, later)) a.to) in
      let le' : Order.leb (table_name level a.time) (table_name level b.time) ≡ true =
        ap (λ (x : FilePath). Order.leb x.file_name (table_name level b.time)) (sym a.name)
        ∙ ap (λ (x : FilePath). Order.leb p.file_name x.file_name) (sym b.name)
        ∙ le in
      absurd (ground (arith, gt, le'))
  | inr later ↦
      let le : a.time ≤ b.time = ground (arith, later) in
      rw (a.name, b.name, time_of-join dir level a.time, time_of-join dir level b.time) le
]

module _ (dir : Bytes) (level : ℕ) where
  Ascending-OldestFirst :
      (paths : List FilePath) → All (IsMade dir level) paths → Ascending paths → OldestFirst paths
  Ascending-OldestFirst [] a s = tt
  Ascending-OldestFirst (p ∷ paths) a s = (
    All-zip (λ q b le. leb-time_of dir level p q a.0 b le) paths a.1 s.0,
    Ascending-OldestFirst paths a.1 s.1,
  )

  sort-All :
      (paths : List FilePath) → All (IsMade dir level) paths → All (IsMade dir level) (sort paths)
  unfolding sort
  sort-All [] a = tt
  sort-All (p ∷ paths) a =
      insert_path-All (IsMade dir level) p (sort paths) a.0 (sort-All paths a.1)

  -- Sorting tables of one level by their names loses none and adds none, and puts them in the order
  -- of the times in their names, the newest last, if all of these have 19 digits: from September 2001
  -- to November 2286.
  pub sort-OldestFirst :
      (paths : List FilePath)
      → All (IsMade dir level) paths
      → Perm (sort paths) paths × OldestFirst (sort paths)
  sort-OldestFirst paths a =
      let (same, s) = sort-Ascending paths in
      (same, Ascending-OldestFirst (sort paths) (sort-All paths a) s)
