-- ===== src/Lsm/Threads/Returns.antt =====
-- Every call comes to its end, whatever the other threads do: no deadlock, and no endless call.
use via_tabula.Base.{
  ℕ, zero, suc, ◌+◌, ◌≤◌, ◌<◌, Bool-cases, true, false, some, List, [], ◌∷◌, get_elem?, set, ◌≡◌,
  ◌⊎◌, refl, ◌∙◌, ap, arith, inl, inr, All,
}
use via_tabula.Bloom.Arith.{Floats}
use via_tabula.Lsm.Threads.System.{System, Background, background_step, is_resting, thread}
use via_tabula.Lsm.Threads.Exclusive.{IsExclusive, some_inj, Step-IsExclusive}
use via_tabula.Lsm.Threads.Rank.{rank, Lower, advance-Lower, advance-CanStep, owner-steps}
use via_tabula.Lsm.Threads.{Pc, Shared, advance}

unfoldable pub total : List Pc → ℕ
total [] = 0
total (pc ∷ threads) = rank pc + total threads

total-set :
    (threads : List Pc) (i : ℕ) (pc pc' : Pc)
    → get_elem? threads i ≡ some pc
    → total (set threads i pc') + rank pc ≡ total threads + rank pc'
unfolding total
total-set [] i pc pc' e = cc
total-set (x ∷ threads) zero pc pc' e = omega (arith, ap rank (some_inj e))
total-set (x ∷ threads) (suc i) pc pc' e = omega (arith, total-set threads i pc pc' e)

-- The steps of the calls under way, counted, between any steps of the background thread.
pub data Turns (fl : Floats) (s : System) : ℕ → System → Type 0 where
  stay : Turns fl s 0 s
  turn :
      (n i : ℕ) (s' : System) (pc pc' : Pc) (shared' : Shared)
      → Turns fl s n s'
      → get_elem? s'.threads i ≡ some pc
      → advance fl i pc s'.shared ≡ some (pc', shared')
      → Turns fl s (suc n) (record s' { threads = set s'.threads i pc'; shared = shared' })
  beside :
      (n : ℕ) (s' : System) (b : Background) (shared' : Shared)
      → Turns fl s n s'
      → background_step fl s'.shutdown s'.background s'.shared ≡ some (b, shared')
      → Turns fl s n (record s' { background = b; shared = shared' })

-- However the threads take turns, and whatever the background thread does in between: the calls under
-- way take no more steps than they had left, counted from where each of them stood.
pub Turns-total :
    (fl : Floats) (s s' : System) (n : ℕ) → Turns fl s n s' → n + total s'.threads ≤ total s.threads
unfolding Lower
Turns-total fl s s' n stay = omega arith
Turns-total fl s s' n (turn m i s1 pc pc' shared' turns at e) =
    let lower : Lower (rank pc) (some (pc', shared')) = rw e at (advance-Lower fl i pc s1.shared) in
    omega (arith, lower, total-set s1.threads i pc pc' at, Turns-total fl s s1 m turns)
Turns-total fl s s' n (beside m s1 b shared' turns e) = Turns-total fl s s1 n turns

-- A thread that is in a call.
InCall : List Pc → Type 0
InCall threads = (i : ℕ) × (pc : Pc) × (get_elem? threads i ≡ some pc) × (is_resting pc ≡ false)

rest_or_call : (threads : List Pc) → All (λ pc. is_resting pc ≡ true) threads ⊎ InCall threads
unfolding InCall
rest_or_call [] = inl tt
rest_or_call (pc ∷ threads) = elim (Bool-cases (is_resting pc)) [
  | inr busy ↦ inr (0, pc, refl, busy)
  | inl rests ↦ elim (rest_or_call threads) [
    | inl all ↦ inl (rests, all)
    | inr (i, x, at, busy) ↦ inr (suc i, x, at, busy)
  ]
]

-- A thread that can take its next step.
NextTurn : Floats → System → Type 0
NextTurn fl s =
    (i : ℕ) × (pc : Pc) × (pc' : Pc) × (shared' : Shared) × (get_elem? s.threads i ≡ some pc)
    × (advance fl i pc s.shared ≡ some (pc', shared'))

-- Where a thread is in a call, it or the owner of the lock can take a step.
next_turn : (fl : Floats) (s : System) → IsExclusive s → InCall s.threads → NextTurn fl s
unfolding InCall NextTurn
next_turn fl s h (i, pc, at, busy) = elim (advance-CanStep fl i pc s.shared busy) [
  | inl ((pc', shared'), e) ↦ (i, pc, pc', shared', at, e)
  | inr (j, owned) ↦
      let (x, there) = h.there j owned in
      let ((pc', shared'), e) = owner-steps fl j x s.shared (h.owner j x there ∙ owned) in
      (j, x, pc', shared', there, e)
]

Returning : Floats → System → Type 0
Returning fl s =
    (n : ℕ) × (s' : System) × Turns fl s n s' × All (λ pc. is_resting pc ≡ true) s'.threads

return_all :
    (fl : Floats) (fuel n : ℕ) (s s1 : System)
    → IsExclusive s1
    → Turns fl s n s1
    → total s1.threads < fuel
    → Returning fl s
unfolding Returning NextTurn Lower
return_all fl zero n s s1 h turns less = absurd (omega (arith, less))
return_all fl (suc fuel) n s s1 h turns less = elim (rest_or_call s1.threads) [
  | inl rest ↦ (n, s1, turns, rest)
  | inr busy ↦
      let (i, pc, pc', shared', at, e) = next_turn fl s1 h busy in
      let lower : Lower (rank pc) (some (pc', shared')) =
        rw e at (advance-Lower fl i pc s1.shared) in
      return_all fl fuel (suc n) s _ (Step-IsExclusive fl s1 _ h (thread i pc pc' shared' at e))
        (turn n i s1 pc pc' shared' turns at e)
        (omega (arith, less, lower, total-set s1.threads i pc pc' at))
]

-- No deadlock: from any state in which each thread is inside the blocks that the log's lock guards
-- exactly if it owns the lock, as in all states that the system reaches, the threads can take turns
-- until every call has returned.
pub calls_return :
    (fl : Floats) (s : System)
    → IsExclusive s
    → (n : ℕ) × (s' : System) × Turns fl s n s' × All (λ pc. is_resting pc ≡ true) s'.threads
unfolding Returning
calls_return fl s h = return_all fl (suc (total s.threads)) 0 s s h stay (omega arith)
