-- ===== src/Lsm/Logged.antt =====
-- What is only in the MemTable is in the log: after a crash `Lsm::open` has the same MemTable.
use via_tabula.Base.{
  ◌≡◌, refl, ◌∙◌, ℕ, sym, ap, Bool-cases, false, leb, some, List, [], ◌∷◌, ◌++◌, append-nil,
  Outcome, ok, inl, inr,
}
use via_tabula.Base.Bytes.{Bytes}
use via_tabula.Fs.{
  FilePath, World, contents, contents-put, same_path_refl, set_len_zero, touch, continue, ◌>>=◌,
  convert, now,
}
use via_tabula.Fs.Post.{Post, Post-bind, Post-imp, Post-map_err, Post-attempt, returns}
use via_tabula.Fs.Partial.{
  OnOk, gave, erred, panicked, OnOk-bind, OnOk-map_err, Post-OnOk, OnOk-any,
}
use via_tabula.Bloom.Arith.{Floats}
use via_tabula.Wal.{Wal, WalEntry, put, delete, error, append, truncate}
use via_tabula.Wal.Codec.{Fits}
use via_tabula.Wal.Replay.{encodes, at_end}
use via_tabula.Wal.Durable.{IsLog, append-Recovers}
use via_tabula.Memtable
use via_tabula.Memtable.{MemTable, flush, size_bytes}
use via_tabula.Levels.{add_l0_file}
use via_tabula.Lsm.Engine.{
  Engine, Lsm, LsmError, from_wal, from_sstable, this, outside, set, delete as delete_key, flush_to,
  flush_memtable, flush_if_full, next_sstable_path,
}
use via_tabula.Lsm.Recovered.{Recovered-apply_all, open_lsm-Recovered}
use via_tabula.Lsm.Steps.{call, Writes, done, next}
use via_tabula.Lsm.Recovery.{apply_all, apply_entry, wal_path, open_lsm}

-- The log is the folder's, it holds whole entries, and the MemTable is what they make of an empty one.
pub record IsLogged (e : Engine) : Type 0 where
  pub file : e.0.wal.file ≡ wal_path e.0.dir
  pub entries : List WalEntry
  pub log : IsLog e.0.wal entries e.1
  pub mem : e.0.mem ≡ apply_all Memtable.empty entries

apply_all-snoc :
    (t : MemTable) (entries : List WalEntry) (e : WalEntry)
    → apply_all t (entries ++ (e ∷ [])) ≡ apply_entry (apply_all t entries) e
unfolding apply_all
apply_all-snoc t [] e = refl
apply_all-snoc t (x ∷ entries) e = apply_all-snoc (apply_entry t x) entries e

pub truncate-empties :
    (wal : Wal) (w : World) → OnOk (λ _ w'. contents w'.files wal.file ≡ some []) (truncate wal w)
unfolding truncate set_len_zero touch
truncate-empties wal w = Post-OnOk {Bad = λ _. Unit {0}} (
    Post-bind _
      (Post-map_err (λ _. error)
        (Post-attempt {Good = λ _ w'. contents w'.files wal.file ≡ some []} {Bad = λ _. Unit {0}} _
          _ w (λ fine. rw (contents-put, same_path_refl wal.file) refl) (λ n fault. tt)))
      (λ _ w1 empty.
        Post-bind _
          (Post-map_err (λ _. error)
            (Post-attempt {Good = λ _ w'. contents w'.files wal.file ≡ some []}
              {Bad = λ _. Unit {0}} _ _ w1 (λ fine. empty) (λ n fault. tt)))
          (λ _ w2 same. returns _ _ same)))

-- A call on the files leaves the fields.
OnOk-outside {ℓ κ} :
    {E : Type ℓ} {A : Type κ} {Good : A → World → Type 0} (l : Lsm) {r : Outcome E A × World}
    → OnOk Good r
    → OnOk (λ a (e : Engine). (e.0 ≡ l) × Good a e.1) (r.0, (l, r.1))
OnOk-outside l (gave a w g) = gave a (l, w) (refl, g)
OnOk-outside l (erred e w) = erred e (l, w)
OnOk-outside l (panicked w) = panicked (l, w)

emptied-IsLogged :
    (l l' : Lsm) (w : World) (path : FilePath)
    → l.wal.file ≡ wal_path l.dir
    → l' ≡ record l { mem = Memtable.empty }
    → contents w.files l.wal.file ≡ some []
    → IsLogged (record l' { levels = add_l0_file l'.levels path }, w)
unfolding encodes apply_all
emptied-IsLogged l l' w path file e empty =
    rw e
      (record { file = file; entries = []; log = record { bytes = empty; fits = tt }; mem = refl })

flush_to-IsLogged :
    (fl : Floats) (l : Lsm) (w : World) (path : FilePath)
    → l.wal.file ≡ wal_path l.dir
    → OnOk (λ _. IsLogged) (flush_to fl path (l, w))
unfolding flush_to
flush_to-IsLogged fl l w path file =
    let swapped = record l { mem = Memtable.empty } in
    OnOk-bind _
      (OnOk-map_err from_sstable (OnOk-outside swapped (OnOk-any (flush fl l.mem path w))))
      (λ _ e1 (same1, _).
        OnOk-bind _ (OnOk-map_err from_wal (OnOk-outside e1.0 (truncate-empties l.wal e1.1)))
          (λ _ e2 (same2, empty).
            gave _ _ (emptied-IsLogged l e2.0 e2.1 path file (same2 ∙ same1) empty)))

flush_memtable-IsLogged :
    (fl : Floats) (l : Lsm) (w : World) (clock : List ℕ)
    → l.wal.file ≡ wal_path l.dir
    → OnOk (λ _. IsLogged) (flush_memtable fl (l, record w { clock = clock }))
unfolding flush_memtable next_sstable_path now
flush_memtable-IsLogged fl l w [] file = flush_to-IsLogged fl l _ _ file
flush_memtable-IsLogged fl l w (t ∷ later) file = flush_to-IsLogged fl l _ _ file

flush_if_full-IsLogged :
    (fl : Floats) (l : Lsm) (w : World)
    → IsLogged (l, w)
    → OnOk (λ _. IsLogged) (flush_if_full fl (l, w))
unfolding flush_if_full
flush_if_full-IsLogged fl l w h = elim (Bool-cases (leb l.flush_threshold (size_bytes l.mem))) [
  | inl full ↦
      rw (flush_if_full, ◌>>=◌, continue, this, full)
        (flush_memtable-IsLogged fl l w w.clock h.file)
  | inr fits ↦ rw (flush_if_full, ◌>>=◌, continue, this, fits) (gave tt (l, w) h)
]

-- The append, and the same change of the MemTable.
write-IsLogged :
    (fl : Floats) (l : Lsm) (w : World) (entry : WalEntry)
    → IsLogged (l, w)
    → Fits entry
    → OnOk
        (λ _. IsLogged)
        ((convert from_wal (outside (append l.wal entry false)) >>= λ _ (e : Engine).
            flush_if_full fl (record (e.0) { mem = apply_entry l.mem entry }, e.1))
          (l, w))
write-IsLogged fl l w entry h fits =
    OnOk-bind _
      (OnOk-map_err from_wal
        (OnOk-outside l (Post-OnOk (append-Recovers l.wal h.entries entry fits w false h.log))))
      (λ _ e (same, log). flush_if_full-IsLogged fl _ e.1 (
        rw same (record {
          file = h.file;
          entries = h.entries ++ (entry ∷ []);
          log = log;
          mem =
              ap (λ (t : MemTable). apply_entry t entry) h.mem
              ∙ sym (apply_all-snoc Memtable.empty h.entries entry);
        })))

call-IsLogged :
    (fl : Floats) (e : Engine) (entry : WalEntry)
    → IsLogged e
    → Fits entry
    → OnOk (λ _. IsLogged) (call fl entry e)
unfolding call set delete_key apply_entry
call-IsLogged fl e (put key value) h fits = write-IsLogged fl e.0 e.1 (put key value) h fits
call-IsLogged fl e (delete key) h fits = write-IsLogged fl e.0 e.1 (delete key) h fits

returned_one :
    {Good : Engine → Type 0} (e : Engine) {r : Outcome LsmError (Unit {0}) × Engine}
    → OnOk (λ _. Good) r
    → r ≡ (ok tt, e)
    → Good e
returned_one {Good = Good} e (gave a e' g) same =
    rw⁻¹ (ap (λ (r : Outcome LsmError (Unit {0}) × Engine). r.1) same) g
returned_one e (erred x e') same = absurd cc
returned_one e (panicked e') same = absurd cc

Writes-IsLogged :
    (fl : Floats) (e e' : Engine) (entries : List WalEntry)
    → IsLogged e
    → Writes fl e entries e'
    → IsLogged e'
Writes-IsLogged fl e e' [] h (done e1) = h
Writes-IsLogged fl e e' (entry ∷ entries) h (next x xs e1 e2 e3 fits fresh c more) =
    Writes-IsLogged fl e2 e' entries (returned_one e2 (call-IsLogged fl e entry h fits) c) more

-- A crash loses nothing of the MemTable: start from an engine whose log holds whole entries that
-- make its MemTable, let any sequence of sets and deletes return, some of which may make the MemTable
-- a table, and open the folder again. Then the new MemTable has for every key what the old one had. The open
-- errs only where a call of the file system failed, and it does not panic. The lengths fit a
-- record, and the readings of the clock give no table's name.
pub Writes-reopened :
    (fl : Floats) (e e' : Engine) (entries : List WalEntry)
    → IsLogged e
    → Writes fl e entries e'
    → Post
        (λ l _. (q : Bytes) → Memtable.get l.mem q ≡ Memtable.get e'.0.mem q)
        (λ _. ¬ (e'.1.faults ≡ []))
        (open_lsm e'.0.dir e'.1)
Writes-reopened fl e e' entries h writes =
    let g = Writes-IsLogged fl e e' entries h writes in
    let there : contents e'.1.files (wal_path e'.0.dir) ≡ some (encodes g.entries ++ []) =
      rw (← g.file, append-nil (encodes g.entries)) g.log.bytes in
    Post-imp (open_lsm-Recovered e'.0.dir e'.1 g.entries [] g.log.fits at_end there) (λ l _ r q.
      r.lookups q
      ∙ sym (Recovered-apply_all e'.0.dir g.entries q)
      ∙ ap (λ (t : MemTable). Memtable.get t q) (sym g.mem))
