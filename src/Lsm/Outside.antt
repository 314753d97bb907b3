-- ===== src/Lsm/Outside.antt =====
-- Calls on the files that the engine's methods make: they leave the fields as they are.
use via_tabula.Base.{◌≡◌, refl, Outcome}
use via_tabula.Fs.{World}
use via_tabula.Fs.Post.{Post, returns, fails}
use via_tabula.Lsm.Engine.{Engine, Lsm}

-- What a call on the files establishes, of a method that makes it.
pub Post-outside {ℓ κ μ ν} :
    {E : Type ℓ} {A : Type κ} {Good : A → World → Type μ} {Bad : World → Type ν} (l : Lsm)
    {r : Outcome E A × World}
    → Post Good Bad r
    → Post
        (λ a (e : Engine). (e.0 ≡ l) × Good a e.1)
        (λ (e : Engine). (e.0 ≡ l) × Bad e.1)
        (r.0, (l, r.1))
Post-outside l (returns a w g) = returns a (l, w) (refl, g)
Post-outside l (fails e w b) = fails e (l, w) (refl, b)
