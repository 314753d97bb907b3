-- ===== src/Fs/Partial.antt =====
-- What holds of a call where it returned, whatever it does otherwise.
use via_tabula.Base.{Outcome, ok, err, panic, map_err}
use via_tabula.Fs.Calls.{Exec, continue}
use via_tabula.Fs.Post.{Post, returns, fails}

pub data OnOk {σ ℓ κ μ} {S : Type σ} {E : Type ℓ} {A : Type κ} (Good : A → S → Type μ)
    : Outcome E A × S → Type (σ ⊔ ℓ ⊔ κ ⊔ μ) where
  gave : (a : A) (s : S) → Good a s → OnOk Good (ok a, s)
  erred : (e : E) (s : S) → OnOk Good (err e, s)
  panicked : (s : S) → OnOk Good (panic, s)

module _ {σ ℓ κ λ' μ μ'} {S : Type σ} {E : Type ℓ} {A : Type κ} {B : Type λ'} where
  pub OnOk-bind :
      {Good : A → S → Type μ} {Good' : B → S → Type μ'} (f : A → Exec S E B) {r : Outcome E A × S}
      → OnOk Good r
      → ((a : A) (s : S) → Good a s → OnOk Good' (f a s))
      → OnOk Good' (continue r.0 f r.1)
  OnOk-bind f (gave a s g) next = next a s g
  OnOk-bind f (erred e s) next = erred e s
  OnOk-bind f (panicked s) next = panicked s

module _ {σ ℓ κ μ λ'} {S : Type σ} {E : Type ℓ} {A : Type κ} {F : Type λ'} where
  pub OnOk-map_err :
      {Good : A → S → Type μ} (f : E → F) {r : Outcome E A × S}
      → OnOk Good r
      → OnOk Good (map_err f r.0, r.1)
  OnOk-map_err f (gave a s g) = gave a s g
  OnOk-map_err f (erred e s) = erred (f e) s
  OnOk-map_err f (panicked s) = panicked s

module _ {σ ℓ κ μ ν} {S : Type σ} {E : Type ℓ} {A : Type κ} where
  pub Post-OnOk :
      {Good : A → S → Type μ} {Bad : S → Type ν} {r : Outcome E A × S}
      → Post Good Bad r
      → OnOk Good r
  Post-OnOk (returns a s g) = gave a s g
  Post-OnOk (fails e s b) = erred e s

module _ {σ ℓ κ} {S : Type σ} {E : Type ℓ} {A : Type κ} where
  -- Of every call something holds that says nothing.
  pub OnOk-any : (r : Outcome E A × S) → OnOk {E = E} (λ _ _. Unit {0}) r
  OnOk-any (ok a, s) = gave a s tt
  OnOk-any (err e, s) = erred e s
  OnOk-any (panic, s) = panicked s
