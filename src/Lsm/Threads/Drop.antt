-- ===== src/Lsm/Threads/Drop.antt =====
-- `Drop` ends: the background thread sees `shutdown` and stops.
use via_tabula.Base.{
  ℕ, zero, suc, ◌<◌, Bool, Bool-cases, true, false, Option, none, some, ◌≡◌, ◌⊎◌, refl, sym, arith,
  inl, inr, Outcome, ok, err, panic,
}
use via_tabula.Fs.{World}
use via_tabula.Bloom.Arith.{Floats}
use via_tabula.Compaction.{CompactionError}
use via_tabula.Levels.{LevelManager, needs_compaction, compact}
use via_tabula.Lsm.Threads.{Shared}
use via_tabula.Lsm.Threads.System.{
  System, Background, background_step, compacted, at_top, asleep, at_check, at_compact, ended,
  Steps, here, more, background, join, joining, dropped,
}

-- The steps that the background thread has left once `shutdown` is set.
to_end : Background → ℕ
to_end ended = 0
to_end at_top = 1
to_end at_compact = 2
to_end at_check = 3
to_end asleep = 4

Nearer : ℕ → Option (Background × Shared) → Type 0
Nearer n none = Unit
Nearer n (some (b, s)) = to_end b < n

compacted-to_end :
    (s : Shared) (r : Outcome CompactionError (Unit {0})) (e : LevelManager × World)
    → to_end (compacted s r e).0 < 2
unfolding to_end
compacted-to_end s (ok u) e = omega arith
compacted-to_end s (err x) e = omega arith
compacted-to_end s panic e = omega arith

background-Nearer :
    (fl : Floats) (b : Background) (s : Shared) → Nearer (to_end b) (background_step fl true b s)
unfolding background_step Nearer to_end
background-Nearer fl at_top s = omega arith
background-Nearer fl asleep s = omega arith
background-Nearer fl at_check s = elim (Bool-cases s.levels_poisoned) [
  | inl bad ↦ rw bad (omega arith)
  | inr fine ↦ elim (Bool-cases (needs_compaction s.engine.0.levels)) [
    | inl due ↦ rw (fine, due) (omega arith)
    | inr not_due ↦ rw (fine, not_due) (omega arith)
  ]
]
background-Nearer fl at_compact s =
    let (r, e) = compact fl (s.engine.0.levels, s.engine.1) in
    elim (Bool-cases s.levels_poisoned) [
      | inl bad ↦ rw bad (omega arith)
      | inr fine ↦ rw fine (compacted-to_end (record s { levels_poisoned = false }) r e)
    ]
background-Nearer fl ended s = tt

stopped_or_steps :
    (fl : Floats) (shutdown : Bool) (b : Background) (s : Shared)
    → (b ≡ ended) ⊎ ((x : Background × Shared) × (background_step fl shutdown b s ≡ some x))
unfolding background_step
stopped_or_steps fl shutdown at_top s = inr (_, refl)
stopped_or_steps fl shutdown asleep s = inr (_, refl)
stopped_or_steps fl shutdown at_check s = inr (_, refl)
stopped_or_steps fl shutdown at_compact s = inr (_, refl)
stopped_or_steps fl shutdown ended s = inl refl

join_after :
    (fl : Floats) (fuel : ℕ) (s s1 : System)
    → Steps fl s s1
    → s1.shutdown ≡ true
    → s1.dropping ≡ joining
    → to_end s1.background < fuel
    → (s' : System) × Steps fl s s' × (s'.background ≡ ended) × (s'.dropping ≡ dropped)
unfolding Nearer
join_after fl zero s s1 steps down joins less = absurd (omega (arith, less))
join_after fl (suc fuel) s s1 steps down joins less =
    elim (stopped_or_steps fl s1.shutdown s1.background s1.shared) [
      | inl over ↦ (record s1 { dropping = dropped }, more s1 _ steps (join joins over), over, refl)
      | inr ((b, shared'), e) ↦
          let near : Nearer (to_end s1.background) (some (b, shared')) =
            rw (sym down, e) at (background-Nearer fl s1.background s1.shared) in
          join_after fl fuel s (record s1 { background = b; shared = shared' })
            (more s1 _ steps (background b shared' e)) down joins (omega (arith, less, near))
    ]

-- `Drop` comes to its end: where `shutdown` is set and the drop waits in `join`, wherever the background
-- thread is in its loop, that thread can go on until it has ended, and then the join returns.
pub drop_returns :
    (fl : Floats) (s : System)
    → s.shutdown ≡ true
    → s.dropping ≡ joining
    → (s' : System) × Steps fl s s' × (s'.background ≡ ended) × (s'.dropping ≡ dropped)
drop_returns fl s down joins =
    join_after fl (suc (to_end s.background)) s s here down joins (omega arith)
