-- ===== src/Lsm/Steps.antt =====
-- Sequences of calls on the engine, as one thread makes them.
use via_tabula.Base.{
  ◌≡◌, ◌∙◌, sym, ap, Option, none, some, List, [], ◌∷◌, if◌then◌else◌, Outcome, ok,
}
use via_tabula.Base.Bytes.{Bytes}
use via_tabula.Base.Order.{eqb}
use via_tabula.Types.{hide_tombstone}
use via_tabula.Fs.Post.{Post, returns, fails, Post-imp, Post-imp-bad}
use via_tabula.Bloom.Arith.{Floats}
use via_tabula.Bloom.Create.{FloatLaws}
use via_tabula.Wal.Codec.{Fits}
use via_tabula.Wal.{WalEntry, put}
use via_tabula.Lsm.Engine.{Engine, LsmError, get, set, delete}
use via_tabula.Lsm.Sound.{IsSound}
use via_tabula.Lsm.Flushed.{IsFresh}
use via_tabula.Lsm.Full.{same_value, next_name, IsSound-reads}
use via_tabula.Lsm.Refines.{Wrote, set-IsSound, delete-IsSound}

-- The call that writes this, and what it needs: lengths that fit a record, and a reading of the clock
-- that gives the name of no table.
unfoldable pub call : Floats → WalEntry → Engine → Outcome LsmError (Unit {0}) × Engine
call fl (put key value) = set fl key value
call fl (WalEntry.delete key) = delete fl key

-- The states that calls lead to, whether they return or err.
pub data Reaches (fl : Floats) (e : Engine) : Engine → Type 0 where
  start : Reaches fl e e
  write :
      (entry : WalEntry) (e' : Engine)
      → Reaches fl e e'
      → Fits entry
      → IsFresh (next_name e'.0 e'.1) e'.0
      → Reaches fl e (call fl entry e').1
  look : (key : Bytes) (e' : Engine) → Reaches fl e e' → Reaches fl e (get key e').1

-- The map that an engine stands for after a write.
abbrev pub written : WalEntry → (Bytes → Option Bytes) → Bytes → Option Bytes
written (put key value) m q = if eqb key q then hide_tombstone (some value) else m q
written (WalEntry.delete key) m q = if eqb key q then none else m q

-- The states that writes lead to which return, the first write first.
pub data Writes (fl : Floats) : Engine → List WalEntry → Engine → Type 0 where
  done : (e : Engine) → Writes fl e [] e
  next :
      (entry : WalEntry) (entries : List WalEntry) (e e' e'' : Engine)
      → Fits entry
      → IsFresh (next_name e.0 e.1) e.0
      → call fl entry e ≡ (ok tt, e')
      → Writes fl e' entries e''
      → Writes fl e (entry ∷ entries) e''

abbrev pub all_written : List WalEntry → (Bytes → Option Bytes) → Bytes → Option Bytes
all_written [] m = m
all_written (entry ∷ entries) m = all_written entries (written entry m)

-- The engine answers every read as the map does, and a read leaves it as it is.
abbrev pub StandsFor : Engine → (Bytes → Option Bytes) → Type 0
StandsFor e m = (q : Bytes) → get q e ≡ (ok (m q), e)

module _ {Good : Unit {0} → Engine → Type 0} {Bad : Engine → Type 0} where
  Post-state :
      (C : Engine → Type 0) {r : Outcome LsmError (Unit {0}) × Engine}
      → Post Good Bad r
      → ((a : Unit {0}) (e : Engine) → Good a e → C e)
      → ((e : Engine) → Bad e → C e)
      → C r.1
  Post-state C (returns a e g) h k = h a e g
  Post-state C (fails x e b) h k = k e b

  Post-returned :
      (C : Engine → Type 0) (e : Engine) {r : Outcome LsmError (Unit {0}) × Engine}
      → Post Good Bad r
      → r ≡ (ok tt, e)
      → ((a : Unit {0}) (e : Engine) → Good a e → C e)
      → C e
  Post-returned C e (returns a e' g) same h =
      rw⁻¹ (ap (λ (r : Outcome LsmError (Unit {0}) × Engine). r.1) same) (h a e' g)
  Post-returned C e (fails x e' b) same h = absurd cc

StandsFor-Wrote :
    (e e' : Engine) (m : Bytes → Option Bytes) (key : Bytes) (o : Option Bytes)
    → StandsFor e m
    → Wrote key o e e'
    → StandsFor e' (λ q. if eqb key q then o else m q)
StandsFor-Wrote e e' m key o stands wrote q =
    let (v, before, after) = wrote q in
    let same : v ≡ m q = same_value (sym before ∙ stands q) in rw same at after

module _ (fl : Floats) (laws : FloatLaws fl) where
  -- What one call does, as `set` or `delete` does it.
  call-Post :
      (entry : WalEntry) (e : Engine)
      → IsSound e
      → Fits entry
      → IsFresh (next_name e.0 e.1) e.0
      → Post
          (λ _ e'.
            IsSound e'
            × ((m : Bytes → Option Bytes) → StandsFor e m → StandsFor e' (written entry m)))
          IsSound
          (call fl entry e)
  unfolding call
  call-Post (put key value) e h fits fresh =
      Post-imp-bad (λ _ b. b.0)
        (Post-imp (set-IsSound fl laws e.0 e.1 key value h fits fresh) (λ _ e' (sound, wrote). (
          sound,
          λ m stands. StandsFor-Wrote e e' m key (hide_tombstone (some value)) stands wrote,
        )))
  call-Post (WalEntry.delete key) e h fits fresh =
      Post-imp-bad (λ _ b. b.0)
        (Post-imp (delete-IsSound fl laws e.0 e.1 key h fits fresh) (λ _ e' (sound, wrote).
          (sound, λ m stands. StandsFor-Wrote e e' m key none stands wrote)))

  -- Whatever calls a thread makes on a sound engine, one after the other, with keys and values whose
  -- lengths fit a record and readings of the clock that give no table's name, and whatever calls of
  -- the file system fail on the way: the engine is sound after them. So its MemTable ascends and is
  -- below the threshold, every file of its levels is a table that can be read, and the log has its
  -- name.
  pub Reaches-IsSound : (e e' : Engine) → IsSound e → Reaches fl e e' → IsSound e'
  Reaches-IsSound e e' h start = h
  Reaches-IsSound e e' h (write entry e1 r fits fresh) =
      Post-state IsSound (call-Post entry e1 (Reaches-IsSound e e1 h r) fits fresh) (λ _ _ g. g.0)
        (λ _ b. b)
  Reaches-IsSound e e' h (look key e1 r) =
      let sound = Reaches-IsSound e e1 h r in
      let (v, same) = IsSound-reads e1 sound key in rw same sound

  -- Where a sound engine answers its reads as a map does, it answers after any sequence of writes that
  -- return as the map with these writes does, the last write of a key being the one that counts. The
  -- lengths fit a record, and the readings of the clock give no table's name. Which of
  -- the writes make the MemTable a table makes no difference.
  pub Writes-StandsFor :
      (e e' : Engine) (entries : List WalEntry) (m : Bytes → Option Bytes)
      → IsSound e
      → StandsFor e m
      → Writes fl e entries e'
      → IsSound e' × StandsFor e' (all_written entries m)
  Writes-StandsFor e e' [] m h stands (done e1) = (h, stands)
  Writes-StandsFor e e' (entry ∷ entries) m h stands
        (next entry1 entries1 e1 e2 e3 fits fresh c more) =
      let (sound, later) =
        Post-returned
          (λ x.
            IsSound x
            × ((n : Bytes → Option Bytes) → StandsFor e n → StandsFor x (written entry n)))
          e2 (call-Post entry e h fits fresh) c (λ _ _ g. g) in
      Writes-StandsFor e2 e' entries (written entry m) sound (later m stands) more
