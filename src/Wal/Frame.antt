-- ===== src/Wal/Frame.antt =====
-- `Wal::append` and `Wal::truncate` change the log's file only.
use via_tabula.Base.{Bool, Bool-cases, inl, inr}
use via_tabula.Fs.{World}
use via_tabula.Fs.Post.{Post, returns, Post-bind, Post-map_err}
use via_tabula.Fs.Frame.{
  Returned, Erred, after_Returned, write_all-OnlyAt, set_len_zero-OnlyAt, touch-OnlyAt,
}
use via_tabula.Wal.Entry.{WalEntry, error, encode}
use via_tabula.Wal.File.{Wal, append, truncate}

pub append-OnlyAt :
    (wal : Wal) (entry : WalEntry) (sync : Bool) (w : World)
    → Post (λ _. Returned wal.file w) (Erred wal.file w) (append wal entry sync w)
unfolding append
append-OnlyAt wal entry sync w =
    Post-bind _ (Post-map_err (λ _. error) (write_all-OnlyAt wal.file w (encode entry))) (λ _ w' r.
      elim (Bool-cases sync) [
        | inl s ↦
            rw s (
              after_Returned wal.file w w' r (Post-map_err (λ _. error) (touch-OnlyAt wal.file w')))
        | inr n ↦ rw n (returns _ _ r)
      ])

pub truncate-OnlyAt :
    (wal : Wal) (w : World) → Post (λ _. Returned wal.file w) (Erred wal.file w) (truncate wal w)
unfolding truncate
truncate-OnlyAt wal w =
    Post-bind _ (Post-map_err (λ _. error) (set_len_zero-OnlyAt wal.file w)) (λ _ w' r.
      Post-bind _
        (after_Returned wal.file w w' r (Post-map_err (λ _. error) (touch-OnlyAt wal.file w')))
        (λ _ w'' r'. returns _ _ r'))
