-- ===== src/Lsm/Threads/Exclusive.antt =====
-- The log's lock has one owner, and only its owner is inside a block that it guards.
use via_tabula.Base.{
  ℕ, Bool-cases, true, Option, some, List, get_elem?, get_elem?-set, set, ◌≡◌, ◌≢◌, refl, ◌∙◌, sym,
  ◌==◌, arith, inl, inr,
}
use via_tabula.Bloom.Arith.{Floats}
use via_tabula.Lsm.Threads.System.{
  System, Step, call, thread, background, shut_down, join, Steps, here, more,
}
use via_tabula.Lsm.Threads.Fair.{
  holds, owns, Fair, LogKept, resting-holds, entry-holds, advance-Fair, background-LogKept,
}
use via_tabula.Lsm.Threads.{Pc, Mutex, free, poisoned, held_by}

-- The lock's owner is a thread, and every thread is inside a block that the lock guards exactly if it
-- owns it.
pub record IsOwned (log : Mutex) (threads : List Pc) : Type 0 where
  pub owner : (i : ℕ) (pc : Pc) → get_elem? threads i ≡ some pc → holds pc ≡ owns log i
  pub there : (i : ℕ) → owns log i ≡ true → (pc : Pc) × (get_elem? threads i ≡ some pc)

pub some_inj : {a b : Pc} → ◌≡◌ {A = Option Pc} (some a) (some b) → a ≡ b
some_inj e = cc

IsOwned-set :
    (log log' : Mutex) (threads : List Pc) (i : ℕ) (pc pc' : Pc)
    → IsOwned log threads
    → get_elem? threads i ≡ some pc
    → holds pc' ≡ owns log' i
    → ((j : ℕ) → i ≢ j → owns log' j ≡ owns log j)
    → IsOwned log' (set threads i pc')
IsOwned-set log log' threads i pc pc' h at mine others = record {
  owner = λ j x e.
      let found = get_elem?-set threads i j pc pc' at in
      elim (Bool-cases (i == j)) [
        | inl same ↦
            let new : pc' ≡ x = some_inj (sym (rw same at found) ∙ e) in
            let at_i : i ≡ j = ground (arith, same) in rw⁻¹ new (rw⁻¹ at_i mine)
        | inr other ↦
            h.owner j x (sym (rw other at found) ∙ e)
            ∙ sym (others j (λ e'. ground (arith, other, e')))
      ];
  there = λ j owned.
      let found = get_elem?-set threads i j pc pc' at in
      elim (Bool-cases (i == j)) [
        | inl same ↦ (pc', rw same at found)
        | inr other ↦
            let old : owns log j ≡ true =
              sym (others j (λ e'. ground (arith, other, e'))) ∙ owned in
            let (x, e) = h.there j old in (x, (rw other at found) ∙ e)
      ];
}

abbrev pub IsExclusive : System → Type 0
IsExclusive s = IsOwned s.shared.log s.threads

-- A step of any kind keeps this.
pub Step-IsExclusive : (fl : Floats) (s s' : System) → IsExclusive s → Step fl s s' → IsExclusive s'
unfolding Fair LogKept
Step-IsExclusive fl s s' h (call i pc pc' alive at rests enters) =
    let log = s.shared.log in
    IsOwned-set log log s.threads i pc pc' h at
      (entry-holds pc' enters ∙ sym (resting-holds pc rests) ∙ h.owner i pc at) (λ j n. refl)
Step-IsExclusive fl s s' h (thread i pc pc' shared' at e) =
    let fair = advance-Fair fl i pc s.shared (h.owner i pc at) in
    let (mine, others) : Fair i s.shared.log (some (pc', shared')) = rw e at fair in
    IsOwned-set s.shared.log shared'.log s.threads i pc pc' h at mine others
Step-IsExclusive fl s s' h (background b shared' e) =
    let kept : LogKept s.shared.log (some (b, shared')) =
      rw e at (background-LogKept fl s.shutdown s.background s.shared) in
    rw kept h
Step-IsExclusive fl s s' h (shut_down alive rest) = h
Step-IsExclusive fl s s' h (join joining over) = h

pub Steps-IsExclusive :
    (fl : Floats) (s s' : System) → IsExclusive s → Steps fl s s' → IsExclusive s'
Steps-IsExclusive fl s s' h here = h
Steps-IsExclusive fl s s' h (more s1 s2 steps step) =
    Step-IsExclusive fl s1 s' (Steps-IsExclusive fl s s1 h steps) step

same_owner : (log : Mutex) (i j : ℕ) → owns log i ≡ true → owns log j ≡ true → i ≡ j
unfolding owns
same_owner free i j h g = cc
same_owner poisoned i j h g = cc
same_owner (held_by k) i j h g = ground (arith, h, g)

-- However the steps of the callers, of the background thread and of `Drop` follow on each other, from a
-- state in which each thread is inside the blocks that the log's lock guards exactly if it owns the
-- lock, as where no call has begun: two threads inside such blocks are the same thread. So the append
-- of a write and a flush from its swap of the MemTable to the truncation of the log never overlap.
pub Steps-exclusive :
    (fl : Floats) (s s' : System) (i j : ℕ) (pc pc' : Pc)
    → IsExclusive s
    → Steps fl s s'
    → get_elem? s'.threads i ≡ some pc
    → get_elem? s'.threads j ≡ some pc'
    → holds pc ≡ true
    → holds pc' ≡ true
    → i ≡ j
Steps-exclusive fl s s' i j pc pc' h steps at at' inside inside' =
    let g = Steps-IsExclusive fl s s' h steps in
    same_owner s'.shared.log i j (sym (g.owner i pc at) ∙ inside)
      (sym (g.owner j pc' at') ∙ inside')
