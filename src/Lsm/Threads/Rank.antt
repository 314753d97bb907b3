-- ===== src/Lsm/Threads/Rank.antt =====
-- The number of steps that a call has left, and when a thread has to wait.
use via_tabula.Base.{
  ℕ, ◌≤◌, ◌<◌, Bool-cases, true, false, Option, none, some, leb, Outcome, ok, err, panic, ◌≡◌, ◌⊎◌,
  refl, arith, inl, inr,
}
use via_tabula.Base.Bytes.{Bytes}
use via_tabula.Fs.{FilePath}
use via_tabula.Bloom.Arith.{Floats}
use via_tabula.Memtable
use via_tabula.Memtable.{size_bytes, flush}
use via_tabula.Wal.{append, truncate}
use via_tabula.Lsm.Engine.{LsmError, next_sstable_path}
use via_tabula.Lsm.Recovery.{apply_entry}
use via_tabula.Lsm.Threads.System.{is_resting}
use via_tabula.Lsm.Threads.Fair.{holds, owns}
use via_tabula.Lsm.Threads.{
  Pc, Mutex, Shared, free, poisoned, held_by, idle, at_name, wants_log, has_log, at_mem,
  wants_flush, at_swap, at_truncate, at_add, at_flush, at_read, at_levels, returned, answered,
  advance, lock_log, after, after_name, after_read,
}

-- The number of steps that a call has left at most.
unfoldable pub rank : Pc → ℕ
rank idle = 0
rank (returned r) = 0
rank (answered r) = 0
rank (at_levels key) = 1
rank (at_read key) = 2
rank (at_add path) = 1
rank (at_truncate path) = 2
rank (at_flush path old_mem) = 3
rank (at_swap path) = 4
rank (wants_flush path) = 5
rank at_name = 6
rank (at_mem entry) = 7
rank (has_log entry) = 8
rank (wants_log entry) = 9

unfoldable pub Lower : ℕ → Option (Pc × Shared) → Type 0
Lower n none = Unit
Lower n (some (pc, s)) = rank pc < n

lock_log-Lower :
    (i : ℕ) (next : Pc) (s : Shared) (log : Mutex) (n : ℕ)
    → rank next < n
    → Lower n (lock_log i next (record s { log = log }))
unfolding Lower rank
lock_log-Lower i next s free n h = h
lock_log-Lower i next s poisoned n h = omega (arith, h)
lock_log-Lower i next s (held_by j) n h = tt

after-rank {ℓ κ} :
    {E : Type ℓ} {A : Type κ} (r : Outcome E A) (next : Pc) → rank (after r next) ≤ rank next
unfolding rank
after-rank (ok a) next = omega arith
after-rank (err e) next = omega arith
after-rank panic next = omega arith

after_name-rank : (r : Outcome LsmError FilePath) → rank (after_name r) < 6
unfolding rank
after_name-rank (ok path) = omega arith
after_name-rank (err e) = omega arith
after_name-rank panic = omega arith

after_read-rank : (key : Bytes) (o : Option Bytes) → rank (after_read key o) < 2
unfolding rank
after_read-rank key (some v) = omega arith
after_read-rank key none = omega arith

-- Each step uses up one of them.
pub advance-Lower :
    (fl : Floats) (i : ℕ) (pc : Pc) (s : Shared) → Lower (rank pc) (advance fl i pc s)
unfolding advance Lower rank
advance-Lower fl i idle s = tt
advance-Lower fl i (returned r) s = tt
advance-Lower fl i (answered r) s = tt
advance-Lower fl i (wants_log entry) s = lock_log-Lower i (has_log entry) s s.log 9 (omega arith)
advance-Lower fl i (has_log entry) s =
    omega (arith, after-rank (append s.engine.0.wal entry false s.engine.1).0 (at_mem entry))
advance-Lower fl i (at_mem entry) s =
    elim (Bool-cases
      (leb s.engine.0.flush_threshold (size_bytes (apply_entry s.engine.0.mem entry)))) [
        | inl full ↦ rw full (omega arith)
        | inr fits ↦ rw fits (omega arith)
      ]
advance-Lower fl i at_name s = after_name-rank (next_sstable_path s.engine).0
advance-Lower fl i (wants_flush path) s = lock_log-Lower i (at_swap path) s s.log 5 (omega arith)
advance-Lower fl i (at_swap path) s = omega arith
advance-Lower fl i (at_flush path old_mem) s =
    omega (arith, after-rank (flush fl old_mem path s.engine.1).0 (at_truncate path))
advance-Lower fl i (at_truncate path) s =
    omega (arith, after-rank (truncate s.engine.0.wal s.engine.1).0 (at_add path))
advance-Lower fl i (at_add path) s = elim (Bool-cases s.levels_poisoned) [
  | inl bad ↦ rw bad (omega arith)
  | inr fine ↦ rw fine (omega arith)
]
advance-Lower fl i (at_read key) s = after_read-rank key (Memtable.get s.engine.0.mem key)
advance-Lower fl i (at_levels key) s = elim (Bool-cases s.levels_poisoned) [
  | inl bad ↦ rw bad (omega arith)
  | inr fine ↦ rw fine (omega arith)
]

-- A thread in a call can take a step, or another one owns the lock.
CanStep : Mutex → Option (Pc × Shared) → Type 0
CanStep log o = ((x : Pc × Shared) × (o ≡ some x)) ⊎ ((j : ℕ) × (owns log j ≡ true))

lock_log-CanStep :
    (i : ℕ) (next : Pc) (s : Shared) (log : Mutex)
    → CanStep log (lock_log i next (record s { log = log }))
unfolding CanStep owns
lock_log-CanStep i next s free = inl (_, refl)
lock_log-CanStep i next s poisoned = inl (_, refl)
lock_log-CanStep i next s (held_by j) = inr (j, ground arith)

pub advance-CanStep :
    (fl : Floats) (i : ℕ) (pc : Pc) (s : Shared)
    → is_resting pc ≡ false
    → ((x : Pc × Shared) × (advance fl i pc s ≡ some x)) ⊎ ((j : ℕ) × (owns s.log j ≡ true))
unfolding advance CanStep is_resting
advance-CanStep fl i idle s h = cc
advance-CanStep fl i at_name s h = inl (_, refl)
advance-CanStep fl i (wants_log x) s h = lock_log-CanStep i (has_log x) s s.log
advance-CanStep fl i (has_log x) s h = inl (_, refl)
advance-CanStep fl i (at_mem x) s h = inl (_, refl)
advance-CanStep fl i (wants_flush x) s h = lock_log-CanStep i (at_swap x) s s.log
advance-CanStep fl i (at_swap x) s h = inl (_, refl)
advance-CanStep fl i (at_truncate x) s h = inl (_, refl)
advance-CanStep fl i (at_add x) s h = inl (_, refl)
advance-CanStep fl i (at_read x) s h = inl (_, refl)
advance-CanStep fl i (at_levels x) s h = inl (_, refl)
advance-CanStep fl i (returned x) s h = cc
advance-CanStep fl i (answered x) s h = cc
advance-CanStep fl i (at_flush x y) s h = inl (_, refl)

-- The owner of the lock does not wait.
pub owner-steps :
    (fl : Floats) (i : ℕ) (pc : Pc) (s : Shared)
    → holds pc ≡ true
    → (x : Pc × Shared) × (advance fl i pc s ≡ some x)
unfolding advance holds
owner-steps fl i idle s h = cc
owner-steps fl i at_name s h = cc
owner-steps fl i (wants_log x) s h = cc
owner-steps fl i (has_log x) s h = (_, refl)
owner-steps fl i (at_mem x) s h = cc
owner-steps fl i (wants_flush x) s h = cc
owner-steps fl i (at_swap x) s h = (_, refl)
owner-steps fl i (at_truncate x) s h = (_, refl)
owner-steps fl i (at_add x) s h = cc
owner-steps fl i (at_read x) s h = cc
owner-steps fl i (at_levels x) s h = cc
owner-steps fl i (returned x) s h = cc
owner-steps fl i (answered x) s h = cc
owner-steps fl i (at_flush x y) s h = (_, refl)
