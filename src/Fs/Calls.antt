-- ===== src/Fs/Calls.antt =====
-- Files, faults, and the calls that read or change them.
use via_tabula.Base.{
  ℕ, Option, none, some, List, [], ◌∷◌, ◌++◌, if◌then◌else◌, take, Outcome, ok, err, panic, map_err,
}
use via_tabula.Base.Bytes.{Bytes}
use via_tabula.Fs.Path.{FilePath, same_path}

abbrev pub Files : Type 0
Files = List (FilePath × Bytes)

unfoldable pub contents : Files → FilePath → Option Bytes
contents [] p = none
contents ((q, c) ∷ rest) p = if same_path q p then some c else contents rest p

unfoldable pub without : FilePath → Files → Files
without p [] = []
without p ((q, c) ∷ rest) =
    let kept = without p rest in if same_path q p then kept else (q, c) ∷ kept

unfoldable pub put : FilePath → Bytes → Files → Files
put p c [] = (p, c) ∷ []
put p c ((q, d) ∷ rest) = if same_path q p then (q, c) ∷ rest else (q, d) ∷ put p c rest

-- `faults` says of each coming call that changes a file whether it fails, and of a failing write how
-- many bytes reached the file; calls beyond the list succeed. `clock` holds the coming readings of
-- the system time, in nanoseconds.
pub record World : Type 0 where
  pub files : Files
  pub faults : List (Option ℕ)
  pub clock : List ℕ

pub data IoError : Type 0 where
  io_error : IoError

-- A call on a state: what it answers, and the state that it leaves, also where it fails.
abbrev pub Exec {σ ℓ κ} : Type σ → Type ℓ → Type κ → Type (σ ⊔ ℓ ⊔ κ)
Exec S E A = S → Outcome E A × S

abbrev pub Io {ℓ κ} : Type ℓ → Type κ → Type (ℓ ⊔ κ)
Io E A = Exec World E A

module _ {σ ℓ κ} {S : Type σ} {E : Type ℓ} {A : Type κ} where
  abbrev pub pure : A → Exec S E A
  pure a s = (ok a, s)

  abbrev pub lift : Outcome E A → Exec S E A
  lift r s = (r, s)

  -- `.map_err(|_| e)`
  abbrev pub or_err {μ} : {F : Type μ} → Exec S F A → E → Exec S E A
  or_err m e s = let (r, s') = m s in (map_err (λ _. e) r, s')

  -- `?` where the error type changes by `From`
  abbrev pub convert {μ} : {F : Type μ} → (F → E) → Exec S F A → Exec S E A
  convert f m s = let (r, s') = m s in (map_err f r, s')

module _ {σ ℓ κ μ} {S : Type σ} {E : Type ℓ} {A : Type κ} {B : Type μ} where
  abbrev pub continue : Outcome E A → (A → Exec S E B) → Exec S E B
  continue (ok a) f s = f a s
  continue (err e) f s = (err e, s)
  continue panic f s = (panic, s)

  infixl 5 ◌>>=◌ ◌>>◌
  abbrev pub ◌>>=◌ : Exec S E A → (A → Exec S E B) → Exec S E B
  ◌>>=◌ m f s = let (r, s') = m s in continue r f s'

  abbrev pub ◌>>◌ : Exec S E A → Exec S E B → Exec S E B
  m >> n = m >>= λ _. n

abbrev pub next_fault : List (Option ℕ) → Option ℕ
next_fault [] = none
next_fault (f ∷ rest) = f

abbrev pub later_faults : List (Option ℕ) → List (Option ℕ)
later_faults [] = []
later_faults (f ∷ rest) = rest

-- A call that leaves `failed` where it fails and `done` where it succeeds.
unfoldable pub attempt : (ℕ → Files) → Files → Io IoError (Unit {0})
attempt failed done w = elim (next_fault w.faults) [
  | none ↦ (ok tt, record w { files = done; faults = later_faults w.faults })
  | some n ↦ (err io_error, record w { files = failed n; faults = later_faults w.faults })
]

abbrev pub contents_or_empty : Files → FilePath → Bytes
contents_or_empty files p = elim (contents files p) [ none ↦ [] | some c ↦ c ]

-- `File::create`
unfoldable pub create : FilePath → Io IoError (Unit {0})
unfolding attempt
create p w = attempt (λ _. w.files) (put p [] w.files) w

-- `OpenOptions::new().append(true).create(true).open(path)`
unfoldable pub open_append : FilePath → Io IoError (Unit {0})
unfolding attempt
open_append p w = attempt (λ _. w.files) (put p (contents_or_empty w.files p) w.files) w

-- `write_all` at the end of the file. A failing call may have written a part.
unfoldable pub write_all : FilePath → Bytes → Io IoError (Unit {0})
unfolding attempt
write_all p bytes w =
    let old = contents_or_empty w.files p in
    attempt (λ n. put p (old ++ take n bytes) w.files) (put p (old ++ bytes) w.files) w

-- `set_len(0)`
unfoldable pub set_len_zero : FilePath → Io IoError (Unit {0})
unfolding attempt
set_len_zero p w = attempt (λ _. w.files) (put p [] w.files) w

-- `seek` and `sync_data`, which change no contents
unfoldable pub touch : Io IoError (Unit {0})
unfolding attempt
touch w = attempt (λ _. w.files) w.files w

-- `fs::rename` replaces the target at once, or changes nothing.
unfoldable pub rename : FilePath → FilePath → Io IoError (Unit {0})
unfolding attempt
rename from to w = elim (contents w.files from) [
  | none ↦ (err io_error, w)
  | some c ↦ attempt (λ _. w.files) (put to c (without from w.files)) w
]

-- `fs::remove_file`
unfoldable pub remove_file : FilePath → Io IoError (Unit {0})
unfolding attempt
remove_file p w = attempt (λ _. w.files) (without p w.files) w

-- `fs::read`, and `File::open` with what can be read through the handle. Reads have no faults of
-- their own: they fail where the file is missing.
unfoldable pub read : FilePath → Io IoError Bytes
read p w = elim (contents w.files p) [ none ↦ (err io_error, w) | some c ↦ (ok c, w) ]

-- `SystemTime::now().duration_since(UNIX_EPOCH).unwrap().as_nanos()`
unfoldable pub now {ℓ} : {E : Type ℓ} → Io E ℕ
now w = elim w.clock [ [] ↦ (ok 0, w) | t ∷ later ↦ (ok t, record w { clock = later }) ]
