-- ===== src/Wal/Replay.antt =====
-- What `replay` recovers from the bytes of a log.
use via_tabula.Base.{
  ℕ, zero, suc, ◌+◌, ◌<◌, ◌≤◌, ◌≡◌, refl, ◌∙◌, sym, ap, List, [], ◌∷◌, ◌++◌, length, length-drop,
  drop, drop_append, Outcome, ok, err, arith, length-append, append_assoc, inl, inr, ◌⊎◌,
  append-nil, Bool, true, false, if◌then◌else◌, some, All,
}
use via_tabula.Base.Bytes.{Bytes}
use via_tabula.Wal.Entry.{WalEntry, WalError, error, encode, decode, check_sum}
use via_tabula.Wal.File.{replay_bytes, replay_all}
use via_tabula.Wal.Codec.{Fits, decode-encode, length-encode}
use via_tabula.Wal.Torn.{decode_torn, OkOrError-decode_body, OkOrError-cases}

-- `decode` answers, and what it takes is at least the checksum's four bytes.
data Progress : Outcome WalError (WalEntry × ℕ) → Type 0 where
  took : (entry : WalEntry) (n : ℕ) → 4 ≤ n → Progress (ok (entry, n))
  failed : (w : WalError) → Progress (err w)

Progress-if :
    {r s : Outcome WalError (WalEntry × ℕ)} (b : Bool)
    → Progress r
    → Progress s
    → Progress (if b then r else s)
Progress-if true h k = h
Progress-if false h k = k

check_sum-Progress :
    (code : Bytes) (entry : WalEntry) (n : ℕ) → Progress (check_sum code (entry, n))
unfolding check_sum
check_sum-Progress code entry n = search (Progress-if, failed, took entry (n + 4) (omega arith))

decode-Progress : (code : Bytes) → Progress (decode code)
unfolding decode
decode-Progress code = elim (OkOrError-cases (OkOrError-decode_body code)) [
  | inl ((entry, n), e) ↦ rw e (check_sum-Progress code entry n)
  | inr e ↦ rw e (failed error)
]

Progress-cases :
    {r : Outcome WalError (WalEntry × ℕ)}
    → Progress r
    → ((entry : WalEntry) × (n : ℕ) × (r ≡ ok (entry, n)) × (4 ≤ n))
      ⊎ ((w : WalError) × (r ≡ err w))
Progress-cases (took entry n h) = inl (entry, n, refl, h)
Progress-cases (failed w) = inr (w, refl)

replay_bytes_ends :
    (fuel : ℕ) (bytes : Bytes) (entries : List WalEntry)
    → length bytes < fuel
    → (all : List WalEntry) × (replay_bytes fuel bytes entries ≡ some all)
unfolding replay_bytes
replay_bytes_ends zero bytes entries h = absurd (omega arith)
replay_bytes_ends (suc fuel) [] entries h = (entries, refl)
replay_bytes_ends (suc fuel) (b ∷ bs) entries h = elim (Progress-cases (decode-Progress (b ∷ bs))) [
  | inl (entry, n, e, least) ↦
      rw (e, replay_bytes)
        (replay_bytes_ends fuel (drop n (b ∷ bs)) (entries ++ (entry ∷ []))
          (omega (arith, length-drop n (b ∷ bs))))
  | inr (w, e) ↦ (entries, rw (e, replay_bytes))
]

-- Whatever the bytes of the log, the loop of `replay` ends with a list of entries.
pub replay_all_ends : (bytes : Bytes) → (all : List WalEntry) × (replay_all bytes ≡ some all)
unfolding replay_all
replay_all_ends bytes = replay_bytes_ends (suc (length bytes)) bytes [] (omega arith)

unfoldable pub encodes : List WalEntry → Bytes
encodes [] = []
encodes (entry ∷ rest) = encode entry ++ encodes rest

replay_bytes_step :
    (fuel : ℕ) (bytes rest : Bytes) (entry : WalEntry) (n : ℕ) (entries : List WalEntry)
    → 0 < length bytes
    → decode bytes ≡ ok (entry, n)
    → drop n bytes ≡ rest
    → replay_bytes (suc fuel) bytes entries ≡ replay_bytes fuel rest (entries ++ (entry ∷ []))
unfolding replay_bytes
replay_bytes_step fuel [] rest entry n entries h e d = absurd (omega arith)
replay_bytes_step fuel (b ∷ bs) rest entry n entries h e d = rw (e, replay_bytes) (rw d)

-- Bytes behind the whole entries at which the loop stops: none, or bytes that do not decode.
pub data Stops : Bytes → Type 0 where
  at_end : Stops []
  at_error : {bytes : Bytes} (w : WalError) → decode bytes ≡ err w → Stops bytes

replay_bytes-Stops :
    (fuel : ℕ) {tail : Bytes} (entries : List WalEntry)
    → Stops tail
    → replay_bytes (suc fuel) tail entries ≡ some entries
replay_bytes-Stops fuel entries at_end = unfold replay_bytes in refl
replay_bytes-Stops fuel {tail} entries (at_error w e) = stop tail e
  where
    stop :
        (bytes : Bytes)
        → decode bytes ≡ err w
        → replay_bytes (suc fuel) bytes entries ≡ some entries
    stop [] e' = unfold replay_bytes in refl
    stop (b ∷ bs) e' = unfold replay_bytes in rw (e', replay_bytes)

replay_bytes-encodes :
    (es : List WalEntry) (fuel : ℕ) (tail : Bytes) (entries : List WalEntry)
    → All Fits es
    → Stops tail
    → length (encodes es ++ tail) < fuel
    → replay_bytes fuel (encodes es ++ tail) entries ≡ some (entries ++ es)
unfolding encodes
replay_bytes-encodes es zero tail entries fits stops h = absurd (omega arith)
replay_bytes-encodes [] (suc fuel) tail entries fits stops h =
    replay_bytes-Stops fuel entries stops ∙ ap some (sym (append-nil entries))
replay_bytes-encodes (e ∷ es) (suc fuel) tail entries fits stops h =
    let code = encode e in
    let rest = encodes es ++ tail in
    let size = length-append code rest in
    let whole = append_assoc code (encodes es) tail in
    rw append_assoc (
      replay_bytes_step fuel (code ++ rest) rest e (length code) entries
        (omega (arith, size, length-encode e)) (decode-encode e rest fits.0)
        (drop_append (length code) code rest refl)
      ∙ replay_bytes-encodes es fuel tail (entries ++ (e ∷ [])) fits.1 stops
          (omega (arith, size, length-encode e, ap length whole))
      ∙ ap some (append_assoc entries (e ∷ []) es))

-- The replay of a log returns its whole entries in order, and stops at what follows them.
pub replay_all-encodes :
    (es : List WalEntry) (tail : Bytes)
    → All Fits es
    → Stops tail
    → replay_all (encodes es ++ tail) ≡ some es
unfolding replay_all
replay_all-encodes es tail fits stops =
    replay_bytes-encodes es (suc (length (encodes es ++ tail))) tail [] fits stops (omega arith)

-- Where the lengths of all entries fit: after a crash inside an append, of which `front` reached the file and `x` did not, the replay
-- returns exactly the entries that were appended before.
pub replay_all_torn :
    (es : List WalEntry) (entry : WalEntry) (front : Bytes) (x : ℕ) (back : Bytes)
    → All Fits es
    → Fits entry
    → encode entry ≡ front ++ (x ∷ back)
    → replay_all (encodes es ++ front) ≡ some es
replay_all_torn es entry front x back all_fit fits e =
    replay_all-encodes es front all_fit (at_error error (decode_torn entry front x back fits e))
