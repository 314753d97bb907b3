-- ===== src/Fs/Frame.antt =====
-- Calls that change one file at most: all others are as they were.
use via_tabula.Base.{ℕ, ◌≡◌, ◌≢◌, refl, ◌∙◌, ap, [], Outcome}
use via_tabula.Base.Bytes.{Bytes}
use via_tabula.Fs.Path.{FilePath}
use via_tabula.Fs.Calls.{
  Files, World, contents, attempt, later_faults, write_all, set_len_zero, touch,
}
use via_tabula.Fs.Rules.{contents-put_other, no_fault}
use via_tabula.Fs.Post.{Post, Post-attempt, Post-imp, Post-imp-bad}

-- All files except this one are as they were, and so is the clock.
pub record OnlyAt (p : FilePath) (w w' : World) : Type 0 where
  pub same : (q : FilePath) → q ≢ p → contents w'.files q ≡ contents w.files q
  pub clock : w'.clock ≡ w.clock

OnlyAt-trans : (p : FilePath) (w w' w'' : World) → OnlyAt p w w' → OnlyAt p w' w'' → OnlyAt p w w''
OnlyAt-trans p w w' w'' a b = record {
  same = λ q n. b.same q n ∙ a.same q n;
  clock = b.clock ∙ a.clock;
}

module _ (p : FilePath) (w : World) where
  -- A call that returned, where there were no faults left none.
  abbrev pub Returned : World → Type 0
  Returned w' = OnlyAt p w w' × (w.faults ≡ [] → w'.faults ≡ [])

  -- A call that erred had a fault.
  abbrev pub Erred : World → Type 0
  Erred w' = OnlyAt p w w' × ¬ (w.faults ≡ [])

  -- What a later call does counts from the first one on.
  pub after_Returned {ℓ κ} :
      {E : Type ℓ} {A : Type κ} (w' : World) {r : Outcome E A × World}
      → Returned w'
      → Post
          (λ _ w''. OnlyAt p w' w'' × (w'.faults ≡ [] → w''.faults ≡ []))
          (λ w''. OnlyAt p w' w'' × ¬ (w'.faults ≡ []))
          r
      → Post (λ _. Returned) Erred r
  after_Returned w' (same, quiet) h =
      Post-imp-bad
        (λ w'' (same', noisy). (OnlyAt-trans p w w' w'' same same', λ e. noisy (quiet e)))
        (Post-imp h
          (λ _ w'' (same', quiet'). (OnlyAt-trans p w w' w'' same same', λ e. quiet' (quiet e))))

  attempt-OnlyAt :
      (failed : ℕ → Files) (done : Files)
      → ((q : FilePath) → q ≢ p → contents done q ≡ contents w.files q)
      → ((n : ℕ) (q : FilePath) → q ≢ p → contents (failed n) q ≡ contents w.files q)
      → Post (λ _. Returned) Erred (attempt failed done w)
  attempt-OnlyAt failed done good bad =
      Post-attempt failed done w
        (λ fine. (record { same = good; clock = refl }, λ e. ap later_faults e))
        (λ n fault. (record { same = bad n; clock = refl }, λ e. no_fault w.faults n e fault))

  pub write_all-OnlyAt : (bytes : Bytes) → Post (λ _. Returned) Erred (write_all p bytes w)
  unfolding write_all
  write_all-OnlyAt bytes =
      attempt-OnlyAt _ _ (λ q n. contents-put_other p q _ w.files n)
        (λ _ q n. contents-put_other p q _ w.files n)

  pub set_len_zero-OnlyAt : Post (λ _. Returned) Erred (set_len_zero p w)
  unfolding set_len_zero
  set_len_zero-OnlyAt =
      attempt-OnlyAt _ _ (λ q n. contents-put_other p q [] w.files n) (λ _ q n. refl)

  pub touch-OnlyAt : Post (λ _. Returned) Erred (touch w)
  unfolding touch
  touch-OnlyAt = attempt-OnlyAt _ _ (λ q n. refl) (λ _ q n. refl)
