-- ===== src/Fs/Post.antt =====
-- What holds after a call, on each way out: rules for the parts of a `do` block.
use via_tabula.Base.{ℕ, ◌≡◌, refl, none, some, Outcome, ok, err, map_err, Option-cases, inl, inr}
use via_tabula.Fs.Calls.{Files, World, Exec, io_error, continue, attempt, next_fault, later_faults}

-- The call returned and `Good` holds of its result and state, or it erred and `Bad` holds of the
-- state. It did not panic.
pub data Post {σ ℓ κ μ ν} {S : Type σ} {E : Type ℓ} {A : Type κ} (Good : A → S → Type μ)
    (Bad : S → Type ν) : Outcome E A × S → Type (σ ⊔ ℓ ⊔ κ ⊔ μ ⊔ ν) where
  returns : (a : A) (s : S) → Good a s → Post Good Bad (ok a, s)
  fails : (e : E) (s : S) → Bad s → Post Good Bad (err e, s)

module _ {σ ℓ κ μ ν λ'} {S : Type σ} {E : Type ℓ} {A : Type κ} {F : Type λ'} where
  -- A call whose error is replaced or converted.
  pub Post-map_err :
      {Good : A → S → Type μ} {Bad : S → Type ν} (f : E → F) {r : Outcome E A × S}
      → Post Good Bad r
      → Post Good Bad (map_err f r.0, r.1)
  Post-map_err f (returns a s g) = returns a s g
  Post-map_err f (fails e s b) = fails (f e) s b

module _ {σ ℓ κ λ' μ μ' ν} {S : Type σ} {E : Type ℓ} {A : Type κ} {B : Type λ'} where
  -- `x ← m; f x`: what `m` establishes is what `f` starts from.
  pub Post-bind :
      {Good : A → S → Type μ} {Good' : B → S → Type μ'} {Bad : S → Type ν} (f : A → Exec S E B)
      {r : Outcome E A × S}
      → Post Good Bad r
      → ((a : A) (s : S) → Good a s → Post Good' Bad (f a s))
      → Post Good' Bad (continue r.0 f r.1)
  Post-bind f (returns a s g) next = next a s g
  Post-bind f (fails e s b) next = fails e s b

module _ {σ ℓ κ μ μ' ν} {S : Type σ} {E : Type ℓ} {A : Type κ} where
  pub Post-imp :
      {Good : A → S → Type μ} {Good' : A → S → Type μ'} {Bad : S → Type ν} {r : Outcome E A × S}
      → Post {E = E} Good Bad r
      → ((a : A) (s : S) → Good a s → Good' a s)
      → Post {E = E} Good' Bad r
  Post-imp (returns a s g) h = returns a s (h a s g)
  Post-imp (fails e s b) h = fails e s b

module _ {σ ℓ κ μ ν ν'} {S : Type σ} {E : Type ℓ} {A : Type κ} where
  pub Post-imp-bad :
      {Good : A → S → Type μ} {Bad : S → Type ν} {Bad' : S → Type ν'} {r : Outcome E A × S}
      → ((s : S) → Bad s → Bad' s)
      → Post {E = E} Good Bad r
      → Post {E = E} Good Bad' r
  Post-imp-bad h (returns a s g) = returns a s g
  Post-imp-bad h (fails e s b) = fails e s (h s b)

module _ {μ ν} {Good : Unit {0} → World → Type μ} {Bad : World → Type ν} where
  -- A call on a file: each way out is looked at once.
  pub Post-attempt :
      (failed : ℕ → Files) (done : Files) (w : World)
      → (next_fault w.faults ≡ none
          → Good tt (record w { files = done; faults = later_faults w.faults }))
      → ((n : ℕ)
          → next_fault w.faults ≡ some n
          → Bad (record w { files = failed n; faults = later_faults w.faults }))
      → Post Good Bad (attempt failed done w)
  unfolding attempt
  Post-attempt failed done w good bad = elim (Option-cases (next_fault w.faults)) [
    | inl e ↦ rw (e, attempt) (returns tt _ (good e))
    | inr (n, e) ↦ rw (e, attempt) (fails io_error _ (bad n e))
  ]

module _ {σ ℓ κ μ ν} {S : Type σ} {E : Type ℓ} {A : Type κ} where
  -- A call that cannot err returns.
  pub Post-sure :
      {Good : A → S → Type μ} {Bad : S → Type ν} {r : Outcome E A × S}
      → Post Good Bad r
      → ((s : S) → ¬ Bad s)
      → (a : A) × (s : S) × (r ≡ (ok a, s)) × Good a s
  Post-sure (returns a s g) never = (a, s, refl, g)
  Post-sure (fails e s b) never = absurd (never s b)
