-- ===== src/Fs/Path.antt =====
-- `PathBuf`: a folder and a file name. Folders are opaque to the program.
use via_tabula.Base.{
  ◌≡◌, Bool, true, ◌&&◌, Option, none, some, [], ◌∷◌, ◌++◌, arith, if◌then◌else◌, ◌==◌,
}
use via_tabula.Base.Bytes.{Bytes}
use via_tabula.Base.Order.{eqb, eq_of_cmp, cmp_refl}

pub record FilePath : Type 0 where
  pub parent : Bytes
  pub file_name : Bytes

unfoldable pub same_path : FilePath → FilePath → Bool
same_path p q = eqb p.parent q.parent && eqb p.file_name q.file_name

pub eq_of_same_path : (p q : FilePath) → same_path p q ≡ true → p ≡ q
unfolding same_path
eq_of_same_path p q h =
    ground (arith, eq_of_cmp p.parent q.parent, eq_of_cmp p.file_name q.file_name)

pub same_path_refl : (p : FilePath) → same_path p p ≡ true
unfolding same_path
same_path_refl p = ground (arith, cmp_refl p.parent, cmp_refl p.file_name)

-- What stands before the last `.` of a name, if there is one.
abbrev pub before_last_dot : Bytes → Option Bytes
before_last_dot [] = none
before_last_dot (b ∷ bs) = elim (before_last_dot bs) [
  | some stem ↦ some (b ∷ stem)
  | none ↦ if b == b'.' then some [] else none
]

-- `Path::file_stem`: a name whose only dot comes first has no extension.
unfoldable pub file_stem : Bytes → Bytes
file_stem name = elim (before_last_dot name) [
  | none ↦ name
  | some [] ↦ name
  | some (b ∷ bs) ↦ b ∷ bs
]

unfoldable pub with_extension : FilePath → Bytes → FilePath
unfolding file_stem
with_extension p extension = record p { file_name = file_stem p.file_name ++ (b'.' ∷ extension) }

unfoldable pub with_file_name : FilePath → Bytes → FilePath
with_file_name p name = record p { file_name = name }

-- `dir.join(name)`
unfoldable pub join : Bytes → Bytes → FilePath
join dir name = record { parent = dir; file_name = name }
