-- ===== src/Lsm/Found.antt =====
-- What the search of the tables finds, and on which files it depends.
use via_tabula.Base.{
  ◌≡◌, refl, ◌∙◌, ap, Option, none, some, Option-cases, List, [], ◌∷◌, ◌++◌, Outcome, ok, All, inl,
  inr,
}
use mathlib.Core.List.{reverse, reverse_aux}
use via_tabula.Base.Bytes.{Bytes}
use via_tabula.Types.{hide_tombstone}
use via_tabula.Map
use via_tabula.Map.{Entries}
use via_tabula.Fs.{FilePath, World, contents, Io, pure, ◌>>=◌, continue}
use via_tabula.Sstable.Writer.{SsTableError}
use via_tabula.Sstable.Whole.{TableAt, TableAt-kept}
use via_tabula.Memtable
use via_tabula.Levels.{LevelManager, add_l0_file}
use via_tabula.Lsm.Engine.{Lsm, find_in, find_in_levels, find_on_disk, get, this}

module _ {ℓ} {A : Type ℓ} where
  reverse_aux-snoc :
      (xs acc : List A) (x : A) → reverse_aux (xs ++ (x ∷ [])) acc ≡ x ∷ reverse_aux xs acc
  reverse_aux-snoc [] acc x = refl
  reverse_aux-snoc (y ∷ xs) acc x = reverse_aux-snoc xs (y ∷ acc) x

  reverse-snoc : (xs : List A) (x : A) → reverse (xs ++ (x ∷ [])) ≡ x ∷ reverse xs
  reverse-snoc xs x = reverse_aux-snoc xs [] x

-- The levels below, where a level has no record of the key.
abbrev or_below : Bytes → List (List FilePath) → Option Bytes → Io SsTableError (Option Bytes)
or_below key levels value = elim value [ some v ↦ pure (some v) | none ↦ find_in_levels levels key ]

module _ (es : Entries) (path : FilePath) (key : Bytes) (w : World)
    (table : TableAt es path w) where
  find_in_first :
      (paths : List FilePath)
      → find_in (path ∷ paths) key w
        ≡ elim (Map.get es key) [ some v ↦ (ok (some v), w) | none ↦ find_in paths key w ]
  unfolding find_in
  find_in_first paths =
      rw (find_in, table.opens, continue, table.lookups key)
        (elim (Option-cases (Map.get es key)) [ inl e ↦ rw e refl | inr (v, e) ↦ rw e refl ])

  -- Where the first file has the key, the level answers.
  first_of_level :
      (paths : List FilePath) (levels : List (List FilePath))
      → (find_in (path ∷ paths) key >>= or_below key levels) w ≡ elim (Map.get es key) [
        | some v ↦ (ok (some v), w)
        | none ↦ (find_in paths key >>= or_below key levels) w
      ]
  first_of_level paths levels =
      rw (find_in_first paths)
        (elim (Option-cases (Map.get es key)) [ inl e ↦ rw e refl | inr (v, e) ↦ rw e refl ])

  -- The file that was added last is the first that is asked.
  pub find_on_disk_added :
      (levels : List (List FilePath))
      → find_on_disk (add_l0_file (record { levels = levels }) path).levels key w
        ≡ elim (Map.get es key) [ some v ↦ (ok (some v), w) | none ↦ find_on_disk levels key w ]
  unfolding add_l0_file find_on_disk find_in find_in_levels
  find_on_disk_added [] = first_of_level [] []
  find_on_disk_added (l0 ∷ rest) = rw (reverse-snoc l0 path) (first_of_level (reverse l0) rest)

  -- Where the MemTable is empty, what the last file has answers.
  pub get_flushed :
      (l : Lsm) (lm : LevelManager) (value : Bytes)
      → Map.get es key ≡ some value
      → l.mem ≡ Memtable.empty
      → l.levels ≡ add_l0_file lm path
      → get key (l, w) ≡ (ok (hide_tombstone (some value)), (l, w))
  unfolding get Memtable.get Map.get
  get_flushed l lm value there empty added =
      rw (get, empty) (rw (added, find_on_disk_added lm.levels, there) refl)

-- The file is as it was.
abbrev pub SameIn : World → World → FilePath → Type 0
SameIn w w' p = contents w'.files p ≡ contents w.files p

-- A table that can be read.
abbrev pub IsRead : World → FilePath → Type 0
IsRead w p = (es : Entries) × TableAt es p w

-- The search of the files ends with one answer, as long as they are as they were.
find_in-total :
    (paths : List FilePath) (key : Bytes) (w : World)
    → All (IsRead w) paths
    → (v : Option Bytes) × ((w' : World)
        → All (SameIn w w') paths
        → find_in paths key w' ≡ (ok v, w'))
unfolding find_in
find_in-total [] key w tables = (none, λ w' same. refl)
find_in-total (p ∷ paths) key w ((es, t), tables) =
    let (v, later) = find_in-total paths key w tables in
    let here : (w' : World)
        → All (SameIn w w') (p ∷ paths)
        → find_in (p ∷ paths) key w'
          ≡ elim (Map.get es key) [ some v ↦ (ok (some v), w') | none ↦ (ok v, w') ] =
      λ w' same.
        find_in_first es p key w' (TableAt-kept es p w w' same.0 t) paths
        ∙ ap
            (λ (r : Outcome SsTableError (Option Bytes) × World). elim (Map.get es key) [
              | some v ↦ (ok (some v), w')
              | none ↦ r
            ])
            (later w' same.1) in
    elim (Option-cases (Map.get es key)) [
      | inl e ↦ (v, λ w' same. here w' same ∙ rw e refl)
      | inr (x, e) ↦ (some x, λ w' same. here w' same ∙ rw e refl)
    ]

find_in_levels-total :
    (levels : List (List FilePath)) (key : Bytes) (w : World)
    → All (All (IsRead w)) levels
    → (v : Option Bytes) × ((w' : World)
        → All (All (SameIn w w')) levels
        → find_in_levels levels key w' ≡ (ok v, w'))
unfolding find_in_levels
find_in_levels-total [] key w tables = (none, λ w' same. refl)
find_in_levels-total (l ∷ levels) key w tables =
    let (v, here) = find_in-total l key w tables.0 in
    let (v', later) = find_in_levels-total levels key w tables.1 in
    elim (Option-cases v) [
      | inr (x, e) ↦ (some x, λ w' same. rw (find_in_levels, here w' same.0, e) refl)
      | inl e ↦ (v', λ w' same. rw (find_in_levels, here w' same.0, e) (later w' same.1))
    ]

All-reverse_aux {κ} :
    (P : FilePath → Type κ) (xs acc : List FilePath)
    → All P xs
    → All P acc
    → All P (reverse_aux xs acc)
All-reverse_aux P [] acc a b = b
All-reverse_aux P (x ∷ xs) acc a b = All-reverse_aux P xs (x ∷ acc) a.1 (a.0, b)

pub find_on_disk-total :
    (levels : List (List FilePath)) (key : Bytes) (w : World)
    → All (All (IsRead w)) levels
    → (v : Option Bytes) × ((w' : World)
        → All (All (SameIn w w')) levels
        → find_on_disk levels key w' ≡ (ok v, w'))
unfolding find_on_disk
find_on_disk-total [] key w tables = (none, λ w' same. refl)
find_on_disk-total (l0 ∷ levels) key w tables =
    let (v, found) =
      find_in-total (reverse l0) key w (All-reverse_aux (IsRead w) l0 [] tables.0 tt) in
    let (v', later) = find_in_levels-total levels key w tables.1 in
    let here : (w' : World) → All (SameIn w w') l0 → find_in (reverse l0) key w' ≡ (ok v, w') =
      λ w' same. found w' (All-reverse_aux (SameIn w w') l0 [] same tt) in
    elim (Option-cases v) [
      | inr (x, e) ↦ (some x, λ w' same. rw (find_on_disk, here w' same.0, e) refl)
      | inl e ↦ (v', λ w' same. rw (find_on_disk, here w' same.0, e) (later w' same.1))
    ]

-- A value in the MemTable is what a read returns.
pub get_in_memory :
    (l : Lsm) (w : World) (key value : Bytes)
    → Memtable.get l.mem key ≡ some value
    → get key (l, w) ≡ (ok (hide_tombstone (some value)), (l, w))
unfolding get
get_in_memory l w key value there = rw (get, ◌>>=◌, continue, this, there) refl
