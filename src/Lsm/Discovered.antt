-- ===== src/Lsm/Discovered.antt =====
-- `discover_levels`: which tables of the folder it puts into which level, and in what order.
use via_tabula.Base.{
  ℕ, zero, suc, ◌≡◌, refl, ◌∙◌, sym, ap, Bool, false, Bool-cases, Option, none, some, List, [], ◌∷◌,
  ◌++◌, append_assoc, append-nil, if◌then◌else◌, ◌==◌, arith, inl, inr, map,
}
use via_tabula.Base.Bytes.{Bytes}
use via_tabula.Base.Order.{eqb}
use via_tabula.Fs.{FilePath, Files}
use via_tabula.Lsm.Recovery.{level_of, push_at, discover_files, discover_levels, sort}
use via_tabula.Lsm.Sorted.{Ascending, sort-Ascending}
use mathlib.Core.List.{Perm}

-- The tables of a level, none if there is no such level.
abbrev pub level_at : ℕ → List (List FilePath) → List FilePath
level_at n [] = []
level_at zero (l ∷ levels) = l
level_at (suc n) (l ∷ levels) = level_at n levels

-- The name of the file is that of a table of level `n`.
abbrev pub names_level : ℕ → Bytes → Bool
names_level n name = elim (level_of name) [ none ↦ false | some m ↦ m == n ]

-- The paths of the folder whose names are those of tables of level `n`, in the order of the folder.
abbrev pub tables_of : ℕ → Bytes → Files → List FilePath
tables_of n dir [] = []
tables_of n dir ((path, c) ∷ files) =
    let later = tables_of n dir files in
    if eqb path.parent dir
    then (if names_level n path.file_name then path ∷ later else later)
    else later

level_at-push_at :
    (n m : ℕ) (path : FilePath) (levels : List (List FilePath))
    → level_at n (push_at m path levels) ≡ level_at n levels ++ (if m == n then path ∷ [] else [])
unfolding push_at
level_at-push_at zero zero path [] = ground arith
level_at-push_at (suc n) zero path [] = ground arith
level_at-push_at zero zero path (l ∷ levels) = ground arith
level_at-push_at (suc n) zero path (l ∷ levels) = ground (arith, append-nil (level_at n levels))
level_at-push_at zero (suc m) path [] = ground arith
level_at-push_at (suc n) (suc m) path [] = ground (arith, level_at-push_at n m path [])
level_at-push_at zero (suc m) path (l ∷ levels) = ground (arith, append-nil l)
level_at-push_at (suc n) (suc m) path (l ∷ levels) =
    ground (arith, level_at-push_at n m path levels)

-- The levels after one more file of the folder, and what it adds to a level.
abbrev placed : Bytes → FilePath → List (List FilePath) → List (List FilePath)
placed dir path levels =
    if eqb path.parent dir
    then elim (level_of path.file_name) [ none ↦ levels | some level ↦ push_at level path levels ]
    else levels

abbrev added : ℕ → Bytes → FilePath → List FilePath
added n dir path =
    if eqb path.parent dir then (if names_level n path.file_name then path ∷ [] else []) else []

level_at-named :
    (n : ℕ) (path : FilePath) (levels : List (List FilePath)) (o : Option ℕ)
    → level_at n (elim o [ none ↦ levels | some level ↦ push_at level path levels ])
      ≡ level_at n levels ++ (if (elim o [ none ↦ false | some m ↦ m == n ]) then path ∷ [] else [])
level_at-named n path levels none = sym (append-nil (level_at n levels))
level_at-named n path levels (some m) = level_at-push_at n m path levels

level_at-placed :
    (n : ℕ) (dir : Bytes) (path : FilePath) (levels : List (List FilePath))
    → level_at n (placed dir path levels) ≡ level_at n levels ++ added n dir path
level_at-placed n dir path levels = elim (Bool-cases (eqb path.parent dir)) [
  | inr other ↦ rw other (sym (append-nil (level_at n levels)))
  | inl here ↦ rw here (level_at-named n path levels (level_of path.file_name))
]

tables_of-added :
    (n : ℕ) (dir c : Bytes) (path : FilePath) (files : Files)
    → tables_of n dir ((path, c) ∷ files) ≡ added n dir path ++ tables_of n dir files
tables_of-added n dir c path files = ground arith

level_at-discover_files :
    (n : ℕ) (dir : Bytes) (files : Files) (levels : List (List FilePath))
    → level_at n (discover_files dir files levels) ≡ level_at n levels ++ tables_of n dir files
unfolding discover_files
level_at-discover_files n dir [] levels = sym (append-nil (level_at n levels))
level_at-discover_files n dir ((path, c) ∷ files) levels =
    level_at-discover_files n dir files (placed dir path levels)
    ∙ ap (λ (x : List FilePath). x ++ tables_of n dir files) (level_at-placed n dir path levels)
    ∙ append_assoc (level_at n levels) (added n dir path) (tables_of n dir files)
    ∙ ap (λ (x : List FilePath). level_at n levels ++ x) (sym (tables_of-added n dir c path files))

no_tables : (n : ℕ) → level_at n ([] ∷ [] ∷ []) ≡ []
no_tables zero = refl
no_tables (suc zero) = refl
no_tables (suc (suc n)) = refl

level_at-map :
    (n : ℕ) (levels : List (List FilePath))
    → level_at n (map sort levels) ≡ sort (level_at n levels)
unfolding sort
level_at-map n [] = refl
level_at-map zero (l ∷ levels) = refl
level_at-map (suc n) (l ∷ levels) = level_at-map n levels

-- For any number of a level: `discover_levels` puts into it exactly the files of the folder whose
-- names are those of tables of that level, each as often as the folder has it, and no later one of
-- them has a smaller name.
pub discover_levels-Ascending :
    (n : ℕ) (dir : Bytes) (files : Files)
    → Perm (level_at n (discover_levels dir files).levels) (tables_of n dir files)
      × Ascending (level_at n (discover_levels dir files).levels)
unfolding discover_levels
discover_levels-Ascending n dir files =
    let found = level_at-discover_files n dir files ([] ∷ [] ∷ []) in
    rw (level_at-map, found, no_tables) (sort-Ascending (tables_of n dir files))
