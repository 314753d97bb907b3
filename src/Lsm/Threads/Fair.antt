-- ===== src/Lsm/Threads/Fair.antt =====
-- What a step does to the log's lock.
use via_tabula.Base.{
  ℕ, Bool, Bool-cases, true, false, Option, none, some, leb, Outcome, ok, err, panic, ◌≡◌, ◌≢◌,
  refl, ◌∙◌, sym, ◌==◌, arith, inl, inr,
}
use via_tabula.Fs.{FilePath, World}
use via_tabula.Bloom.Arith.{Floats}
use via_tabula.Base.Bytes.{Bytes}
use via_tabula.Wal.{append, truncate}
use via_tabula.Memtable
use via_tabula.Memtable.{size_bytes, flush}
use via_tabula.Lsm.Engine.{LsmError, next_sstable_path}
use via_tabula.Compaction.{CompactionError}
use via_tabula.Levels.{LevelManager, compact}
use via_tabula.Lsm.Recovery.{apply_entry}
use via_tabula.Lsm.Threads.System.{
  Background, compacted, at_top, asleep, at_check, at_compact, ended, background_step, is_resting,
  is_entry,
}
use via_tabula.Lsm.Threads.{
  Pc, Mutex, Shared, free, poisoned, held_by, idle, at_name, wants_log, has_log, at_mem,
  wants_flush, at_swap, at_truncate, at_add, at_flush, at_read, at_levels, returned, answered,
  advance, lock_log, after, after_name, after_read, release, keep_or_release, with_files,
}

-- Inside a block that the lock guards.
unfoldable pub holds : Pc → Bool
holds (has_log entry) = true
holds (at_swap path) = true
holds (at_flush path old_mem) = true
holds (at_truncate path) = true
holds _ = false

unfoldable pub owns : Mutex → ℕ → Bool
owns (held_by j) i = j == i
owns _ i = false

-- After a step of thread `i` it holds the lock exactly if it owns it, and no other thread has got it
-- or lost it.
unfoldable pub Fair : ℕ → Mutex → Option (Pc × Shared) → Type 0
Fair i log none = Unit
Fair i log (some (pc, s)) =
    (holds pc ≡ owns s.log i) × ((j : ℕ) → i ≢ j → owns s.log j ≡ owns log j)

owns_only : (log : Mutex) (i j : ℕ) → owns log i ≡ true → i ≢ j → owns log j ≡ false
unfolding owns
owns_only free i j e n = refl
owns_only poisoned i j e n = refl
owns_only (held_by k) i j e n = ground (arith, e, n)

lock_log-Fair :
    (i : ℕ) (next : Pc) (s : Shared) (log : Mutex)
    → holds next ≡ true
    → owns log i ≡ false
    → Fair i log (lock_log i next (record s { log = log }))
unfolding holds owns Fair
lock_log-Fair i next s free h e = (ground (arith, h), λ j n. ground (arith, n))
lock_log-Fair i next s poisoned h e = (refl, λ j n. refl)
lock_log-Fair i next s (held_by k) h e = tt

left-Fair {ℓ κ} :
    {E : Type ℓ} {A : Type κ} (i : ℕ) (next : Pc) (s : Shared) (m : Outcome E A × World)
    → holds next ≡ false
    → owns s.log i ≡ true
    → Fair i s.log (some (after m.0 next, with_files s (release m.0) m.1))
unfolding holds owns Fair
left-Fair i next s (ok a, w) h e = (h, λ j n. sym (owns_only s.log i j e n))
left-Fair i next s (err x, w) h e = (refl, λ j n. sym (owns_only s.log i j e n))
left-Fair i next s (panic, w) h e = (refl, λ j n. sym (owns_only s.log i j e n))

kept-Fair {ℓ κ} :
    {E : Type ℓ} {A : Type κ} (i : ℕ) (next : Pc) (s : Shared) (m : Outcome E A × World)
    → holds next ≡ true
    → owns s.log i ≡ true
    → Fair i s.log (some (after m.0 next, with_files s (keep_or_release m.0 s.log) m.1))
unfolding holds owns Fair
kept-Fair i next s (ok a, w) h e = (h ∙ sym e, λ j n. refl)
kept-Fair i next s (err x, w) h e = (refl, λ j n. sym (owns_only s.log i j e n))
kept-Fair i next s (panic, w) h e = (refl, λ j n. sym (owns_only s.log i j e n))

after_name-holds : (r : Outcome LsmError FilePath) → holds (after_name r) ≡ false
unfolding holds
after_name-holds (ok path) = refl
after_name-holds (err e) = refl
after_name-holds panic = refl

after_read-holds : (key : Bytes) (o : Option Bytes) → holds (after_read key o) ≡ false
unfolding holds
after_read-holds key (some value) = refl
after_read-holds key none = refl

pub advance-Fair :
    (fl : Floats) (i : ℕ) (pc : Pc) (s : Shared)
    → holds pc ≡ owns s.log i
    → Fair i s.log (advance fl i pc s)
unfolding advance holds Fair
advance-Fair fl i idle s h = tt
advance-Fair fl i (returned r) s h = tt
advance-Fair fl i (answered r) s h = tt
advance-Fair fl i (wants_log entry) s h = lock_log-Fair i (has_log entry) s s.log refl (sym h)
advance-Fair fl i (has_log entry) s h =
    left-Fair i (at_mem entry) s (append s.engine.0.wal entry false s.engine.1) refl (sym h)
advance-Fair fl i (at_mem entry) s h =
    elim (Bool-cases
      (leb s.engine.0.flush_threshold (size_bytes (apply_entry s.engine.0.mem entry)))) [
        | inl full ↦ rw full (h, λ j n. refl)
        | inr fits ↦ rw fits (h, λ j n. refl)
      ]
advance-Fair fl i at_name s h = (after_name-holds (next_sstable_path s.engine).0 ∙ h, λ j n. refl)
advance-Fair fl i (wants_flush path) s h = lock_log-Fair i (at_swap path) s s.log refl (sym h)
advance-Fair fl i (at_swap path) s h = (h, λ j n. refl)
advance-Fair fl i (at_flush path old_mem) s h =
    kept-Fair i (at_truncate path) s (flush fl old_mem path s.engine.1) refl (sym h)
advance-Fair fl i (at_truncate path) s h =
    left-Fair i (at_add path) s (truncate s.engine.0.wal s.engine.1) refl (sym h)
advance-Fair fl i (at_add path) s h = elim (Bool-cases s.levels_poisoned) [
  | inl bad ↦ rw bad (h, λ j n. refl)
  | inr fine ↦ rw fine (h, λ j n. refl)
]
advance-Fair fl i (at_read key) s h =
    (after_read-holds key (Memtable.get s.engine.0.mem key) ∙ h, λ j n. refl)
advance-Fair fl i (at_levels key) s h = elim (Bool-cases s.levels_poisoned) [
  | inl bad ↦ rw bad (h, λ j n. refl)
  | inr fine ↦ rw fine (h, λ j n. refl)
]

pub resting-holds : (pc : Pc) → is_resting pc ≡ true → holds pc ≡ false
unfolding is_resting holds
resting-holds idle h = refl
resting-holds at_name h = cc
resting-holds (wants_log x) h = cc
resting-holds (has_log x) h = cc
resting-holds (at_mem x) h = cc
resting-holds (wants_flush x) h = cc
resting-holds (at_swap x) h = cc
resting-holds (at_truncate x) h = cc
resting-holds (at_add x) h = cc
resting-holds (at_read x) h = cc
resting-holds (at_levels x) h = cc
resting-holds (returned x) h = refl
resting-holds (answered x) h = refl
resting-holds (at_flush x y) h = cc

pub entry-holds : (pc : Pc) → is_entry pc ≡ true → holds pc ≡ false
unfolding is_entry holds
entry-holds idle h = cc
entry-holds at_name h = cc
entry-holds (wants_log x) h = refl
entry-holds (has_log x) h = cc
entry-holds (at_mem x) h = cc
entry-holds (wants_flush x) h = cc
entry-holds (at_swap x) h = cc
entry-holds (at_truncate x) h = cc
entry-holds (at_add x) h = cc
entry-holds (at_read x) h = refl
entry-holds (at_levels x) h = cc
entry-holds (returned x) h = cc
entry-holds (answered x) h = cc
entry-holds (at_flush x y) h = cc

unfoldable pub LogKept : Mutex → Option (Background × Shared) → Type 0
LogKept log none = Unit
LogKept log (some (b, s)) = s.log ≡ log

compacted-log :
    (s : Shared) (r : Outcome CompactionError (Unit {0})) (e : LevelManager × World)
    → (compacted s r e).1.log ≡ s.log
compacted-log s (ok u) e = refl
compacted-log s (err x) e = refl
compacted-log s panic e = refl

pub background-LogKept :
    (fl : Floats) (shutdown : Bool) (b : Background) (s : Shared)
    → LogKept s.log (background_step fl shutdown b s)
unfolding background_step LogKept
background-LogKept fl shutdown at_top s = refl
background-LogKept fl shutdown asleep s = refl
background-LogKept fl shutdown at_check s = refl
background-LogKept fl shutdown at_compact s =
    let (r, e) = compact fl (s.engine.0.levels, s.engine.1) in
    elim (Bool-cases s.levels_poisoned) [
      | inl bad ↦ rw bad refl
      | inr fine ↦ rw fine (compacted-log (record s { levels_poisoned = false }) r e)
    ]
background-LogKept fl shutdown ended s = tt
