-- ===== src/Wal/Durable.antt =====
-- `Wal::append` on a disk where any call may fail, and the replay after it.
use via_tabula.Base.{
  ℕ, ◌≡◌, ◌⊎◌, inl, inr, refl, ◌∙◌, sym, ap, Bool, true, false, some, List, [], ◌∷◌, ◌++◌, take,
  drop, append_assoc, append-nil, take-append-drop, All, ok, map_err, if◌then◌else◌,
}
use via_tabula.Base.Bytes.{Bytes}
use via_tabula.Fs.{
  pure, World, contents, put, contents-put, same_path_refl, write_all, touch, read, or_err,
  contents_or_empty, or_empty, ◌>>=◌, continue,
}
use via_tabula.Fs.Post.{Post, returns, Post-attempt, Post-bind, Post-map_err}
use via_tabula.Wal.{Wal, WalEntry, error, encode, append, replay, replay_all}
use via_tabula.Wal.Codec.{Fits}
use via_tabula.Wal.Replay.{encodes, at_end, replay_all-encodes, replay_all_torn}

-- The log holds these entries and nothing else.
pub record IsLog (wal : Wal) (entries : List WalEntry) (w : World) : Type 0 where
  pub bytes : contents w.files wal.file ≡ some (encodes entries)
  pub fits : All Fits entries

pub replay-some :
    (wal : Wal) (w : World) (bytes : Bytes) (entries : List WalEntry)
    → contents w.files wal.file ≡ some bytes
    → replay_all bytes ≡ some entries
    → replay wal.file w ≡ (ok entries, w)
unfolding replay read
replay-some wal w bytes entries e h = rw (replay, read, e, ◌>>=◌, map_err, continue, h) refl

-- A replay of the log returns its entries.
pub replay-IsLog :
    (wal : Wal) (entries : List WalEntry) (w : World)
    → IsLog wal entries w
    → replay wal.file w ≡ (ok entries, w)
replay-IsLog wal entries w log =
    let whole = replay_all-encodes entries [] log.fits at_end in
    replay-some wal w (encodes entries) entries log.bytes
      (rw (append-nil (encodes entries)) at whole)

encodes-append : (xs ys : List WalEntry) → encodes (xs ++ ys) ≡ encodes xs ++ encodes ys
unfolding encodes
encodes-append [] ys = refl
encodes-append (x ∷ xs) ys =
    rw (encodes-append xs ys) (sym (append_assoc (encode x) (encodes xs) (encodes ys)))

-- The entry is in the log, or it is not; nothing between.
pub record Recovers (wal : Wal) (entries : List WalEntry) (entry : WalEntry) (w : World)
    : Type 0 where
  pub found : List WalEntry
  pub replayed : replay wal.file w ≡ (ok found, w)
  pub whole : (found ≡ entries) ⊎ (found ≡ entries ++ (entry ∷ []))

-- A part of an encoding is all of it, or it is torn.
torn_or_whole :
    (n : ℕ) (code : Bytes)
    → (take n code ≡ code) ⊎ ((x : ℕ) × (back : Bytes) × (code ≡ take n code ++ (x ∷ back)))
torn_or_whole n code = split (drop n code) (take-append-drop n code)
  where
    split :
        (back : Bytes)
        → take n code ++ back ≡ code
        → (take n code ≡ code) ⊎ ((x : ℕ) × (back : Bytes) × (code ≡ take n code ++ (x ∷ back)))
    split [] e = inl (sym (append-nil (take n code)) ∙ e)
    split (x ∷ back) e = inr (x, back, sym e)

All-snoc {κ} :
    (P : WalEntry → Type κ) (xs : List WalEntry) (x : WalEntry)
    → All P xs
    → P x
    → All P (xs ++ (x ∷ []))
All-snoc P [] x a p = (p, tt)
All-snoc P (y ∷ xs) x a p = (a.0, All-snoc P xs x a.1 p)

module _ (wal : Wal) (entries : List WalEntry) (entry : WalEntry) (fits : Fits entry) where
  IsLog-append :
      (w : World)
      → All Fits entries
      → contents w.files wal.file ≡ some (encodes entries ++ encode entry)
      → IsLog wal (entries ++ (entry ∷ [])) w
  unfolding encodes
  IsLog-append w all e = record {
    bytes =
        e
        ∙ ap some (
            sym (
              encodes-append entries (entry ∷ [])
              ∙ ap (λ (b : Bytes). encodes entries ++ b) (append-nil (encode entry))));
    fits = All-snoc Fits entries entry all fits;
  }

  Recovers-whole :
      (w : World)
      → All Fits entries
      → contents w.files wal.file ≡ some (encodes entries ++ encode entry)
      → Recovers wal entries entry w
  Recovers-whole w all e = record {
    found = entries ++ (entry ∷ []);
    replayed = replay-IsLog wal (entries ++ (entry ∷ [])) w (IsLog-append w all e);
    whole = inr refl;
  }

  Recovers-torn :
      (w : World) (n : ℕ)
      → All Fits entries
      → contents w.files wal.file ≡ some (encodes entries ++ take n (encode entry))
      → Recovers wal entries entry w
  Recovers-torn w n all e = elim (torn_or_whole n (encode entry)) [
    | inr (x, back, split) ↦ record {
      found = entries;
      replayed =
          replay-some wal w _ entries e
            (replay_all_torn entries entry (take n (encode entry)) x back all fits split);
      whole = inl refl;
    }
    | inl same ↦ Recovers-whole w all (e ∙ ap (λ (b : Bytes). some (encodes entries ++ b)) same)
  ]

  written :
      (w : World) (bytes : Bytes)
      → contents w.files wal.file ≡ some (encodes entries)
      → contents (put wal.file (contents_or_empty w.files wal.file ++ bytes) w.files) wal.file
        ≡ some (encodes entries ++ bytes)
  written w bytes e =
      rw (contents-put, same_path_refl wal.file)
        (ap (λ (b : Bytes). some (b ++ bytes)) (or_empty w.files wal.file (encodes entries) e))

  sync-Recovers :
      (w : World) (sync : Bool)
      → All Fits entries
      → contents w.files wal.file ≡ some (encodes entries ++ encode entry)
      → Post
          (λ _ w'. IsLog wal (entries ++ (entry ∷ [])) w')
          (Recovers wal entries entry)
          ((if sync then or_err touch error else pure tt) w)
  unfolding touch
  sync-Recovers w false all there = returns _ _ (IsLog-append w all there)
  sync-Recovers w true all there =
      Post-map_err (λ _. error)
        (Post-attempt _ _ w (λ fine. IsLog-append _ all there)
          (λ n fault. Recovers-whole _ all there))

  -- Appending an entry whose lengths fit to a log of whole entries, whatever calls of the file system fail: where it returns, the log has the
  -- entry behind the others; where it errs, a replay still returns all entries from before, with the
  -- new one behind them or without it. It does not panic.
  pub append-Recovers :
      (w : World) (sync : Bool)
      → IsLog wal entries w
      → Post
          (λ _ w'. IsLog wal (entries ++ (entry ∷ [])) w')
          (Recovers wal entries entry)
          (append wal entry sync w)
  unfolding append write_all
  append-Recovers w sync log =
      Post-bind _
        (Post-map_err (λ _. error)
          (Post-attempt _ _ w (λ fine. written w (encode entry) log.bytes)
            (λ n fault. Recovers-torn _ n log.fits (written w (take n (encode entry)) log.bytes))))
        (λ _ w' there. sync-Recovers w' sync log.fits there)
