-- ===== src/Lsm/Names.antt =====
-- The names that the engine gives to files are apart: the ends of the names tell them from each
-- other.
use via_tabula.Base.{ℕ, ◌≡◌, ◌≢◌, refl, ap, [], ◌∷◌, ◌++◌, arith}
use via_tabula.Base.Bytes.{Bytes}
use via_tabula.Fs.{FilePath, join, with_extension, file_stem}
use via_tabula.Sstable.Writer.{tmp_of}
use via_tabula.Levels.{table_name, decimal}
use via_tabula.Lsm.Recovery.{wal_path}

last_byte : Bytes → ℕ
last_byte [] = 0
last_byte (b ∷ []) = b
last_byte (b ∷ c ∷ bytes) = last_byte (c ∷ bytes)

last_byte-append :
    (front : Bytes) (b c : ℕ) (back : Bytes)
    → last_byte (front ++ (b ∷ c ∷ back)) ≡ last_byte (c ∷ back)
unfolding last_byte
last_byte-append [] b c back = refl
last_byte-append (x ∷ []) b c back = refl
last_byte-append (x ∷ y ∷ front) b c back = last_byte-append (y ∷ front) b c back

last_byte-table_name : (level n : ℕ) → last_byte (table_name level n) ≡ b't'
unfolding table_name last_byte
last_byte-table_name level n =
    last_byte-append (b'l' ∷ level ∷ b'_' ∷ decimal n) b'.' b's' (b's' ∷ b't' ∷ [])

last_byte-tmp : (path : FilePath) → last_byte (tmp_of path).file_name ≡ b'p'
unfolding with_extension last_byte
last_byte-tmp path = last_byte-append (file_stem path.file_name) b'.' b't' (b'm' ∷ b'p' ∷ [])

-- No table has the name of a temporary file.
pub tmp_ne_table :
    (path : FilePath) (dir : Bytes) (level n : ℕ) → tmp_of path ≢ join dir (table_name level n)
unfolding join
tmp_ne_table path dir level n e = absurd (
    omega (
      arith,
      last_byte-tmp path,
      last_byte-table_name level n,
      ap (λ (p : FilePath). last_byte p.file_name) e,
    ))

pub wal_ne_table : (dir : Bytes) (level n : ℕ) → wal_path dir ≢ join dir (table_name level n)
unfolding join last_byte
wal_ne_table dir level n e =
    absurd
      (omega (arith, last_byte-table_name level n, ap (λ (p : FilePath). last_byte p.file_name) e))
