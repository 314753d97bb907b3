-- ===== src/Fs/Rules.antt =====
-- The contents of files after the operations.
use via_tabula.Base.{
  ok, sym, ℕ, List, Option, ◌≡◌, refl, none, some, [], ◌∷◌, arith, if◌then◌else◌, false, ◌≢◌,
}
use via_tabula.Base.Bytes.{Bytes}
use via_tabula.Fs.Path.{FilePath, same_path, eq_of_same_path, same_path_refl}
use via_tabula.Fs.Calls.{Files, contents, put, without, contents_or_empty, next_fault, World, now}

pub contents-put :
    (p q : FilePath) (c : Bytes) (files : Files)
    → contents (put p c files) q ≡ (if same_path p q then some c else contents files q)
unfolding contents put
contents-put p q c [] = refl
contents-put p q c ((o, d) ∷ files) = ground (
  arith,
  contents-put p q c files,
  eq_of_same_path o p,
  eq_of_same_path o q,
  eq_of_same_path p q,
  same_path_refl p,
)

pub contents-without :
    (p q : FilePath) (files : Files)
    → contents (without p files) q ≡ (if same_path p q then none else contents files q)
unfolding contents without
contents-without p q [] = ground arith
contents-without p q ((o, d) ∷ files) = ground (
  arith,
  contents-without p q files,
  eq_of_same_path o p,
  eq_of_same_path o q,
  eq_of_same_path p q,
  same_path_refl p,
)

pub same_path_of_ne : (p q : FilePath) → p ≢ q → same_path p q ≡ false
same_path_of_ne p q h = ground (arith, eq_of_same_path p q)

pub or_empty :
    (files : Files) (p : FilePath) (c : Bytes)
    → contents files p ≡ some c
    → contents_or_empty files p ≡ c
or_empty files p c e = rw (contents_or_empty, e) refl

pub no_fault : (faults : List (Option ℕ)) (n : ℕ) → faults ≡ [] → next_fault faults ≡ some n → ⊥
no_fault [] n e h = cc
no_fault (f ∷ fs) n e h = cc

-- Where a file is written, the others keep what they had.
pub contents-put_other :
    (p q : FilePath) (c : Bytes) (files : Files)
    → q ≢ p
    → contents (put p c files) q ≡ contents files q
contents-put_other p q c files h = rw (contents-put, same_path_of_ne p q (λ e. h (sym e))) refl

pub contents-without_other :
    (p q : FilePath) (files : Files) → q ≢ p → contents (without p files) q ≡ contents files q
contents-without_other p q files h =
    rw (contents-without, same_path_of_ne p q (λ e. h (sym e))) refl

-- The coming reading of the clock.
abbrev pub reading : List ℕ → ℕ
reading [] = 0
reading (t ∷ later) = t

now_at {ℓ} :
    {E : Type ℓ} (w : World) (clock : List ℕ)
    → (later : List ℕ) × (now {E = E} (record w { clock = clock })
        ≡ (ok (reading clock), record w { clock = later }))
unfolding now
now_at w [] = ([], refl)
now_at w (t ∷ later) = (later, refl)

-- A look at the clock changes the clock only.
pub now_reads {ℓ} :
    {E : Type ℓ} (w : World)
    → (later : List ℕ) × (now {E = E} w ≡ (ok (reading w.clock), record w { clock = later }))
now_reads w = now_at w w.clock
