-- ===== src/Wal/Torn.antt =====
-- `decode` on an entry of which only the first bytes reached the file.
use via_tabula.Base.{
  ℕ, ◌+◌, ◌<◌, ◌≤◌, ◌≡◌, refl, ap, [], ◌∷◌, ◌++◌, length, slice_left, Outcome, ok, err, arith,
  length-append, Bool, true, false, if◌then◌else◌, inl, inr, ◌⊎◌,
}
use via_tabula.Base.Bytes.{Bytes}
use via_tabula.Wal.Entry.{WalEntry, WalError, error, body, encode, u32_bytes}
use via_tabula.Wal.Entry.{crc32, decode, decode_body, decode_put, decode_delete, u32_at}
use via_tabula.Wal.Codec.{Fits, length-encode, decode_body-body}

u32_at_left : (a : ℕ) (xs ys : Bytes) → a + 4 ≤ length xs → u32_at a (xs ++ ys) ≡ u32_at a xs
unfolding u32_at
u32_at_left a xs ys h = rw (slice_left a (a + 4) xs ys (omega arith) h)

-- The length fields and parts that `decode_put` reads lie within the length that it returns.
decode_put-append :
    (front more : Bytes) (entry : WalEntry) (n : ℕ)
    → decode_put front ≡ ok (entry, n)
    → decode_put (front ++ more) ≡ ok (entry, n)
unfolding decode_put
decode_put-append front more entry n h =
    let k = u32_at 1 front in
    let v = u32_at (5 + k) front in
    ground (
      arith,
      length-append front more,
      u32_at_left 1 front more,
      u32_at_left (5 + k) front more,
      slice_left 5 (5 + k) front more,
      slice_left (5 + k + 4) (5 + k + 4 + v) front more,
    )

decode_delete-append :
    (front more : Bytes) (entry : WalEntry) (n : ℕ)
    → decode_delete front ≡ ok (entry, n)
    → decode_delete (front ++ more) ≡ ok (entry, n)
unfolding decode_delete
decode_delete-append front more entry n h =
    let k = u32_at 1 front in
    ground
      (arith, length-append front more, u32_at_left 1 front more, slice_left 5 (5 + k) front more)

decode_body-append :
    (front more : Bytes) (entry : WalEntry) (n : ℕ)
    → decode_body front ≡ ok (entry, n)
    → decode_body (front ++ more) ≡ ok (entry, n)
unfolding decode_body
decode_body-append [] more entry n h = cc
decode_body-append (op ∷ rest) more entry n h = ground (
  arith,
  decode_put-append (op ∷ rest) more entry n,
  decode_delete-append (op ∷ rest) more entry n,
)

-- The parsing of a body answers with an entry or with the error of a short entry.
pub data OkOrError : Outcome WalError (WalEntry × ℕ) → Type 0 where
  parsed : (p : WalEntry × ℕ) → OkOrError (ok p)
  short : OkOrError (err error)

OkOrError-if :
    {r s : Outcome WalError (WalEntry × ℕ)} (b : Bool)
    → OkOrError r
    → OkOrError s
    → OkOrError (if b then r else s)
OkOrError-if true h k = h
OkOrError-if false h k = k

OkOrError-decode_put : (code : Bytes) → OkOrError (decode_put code)
unfolding decode_put
OkOrError-decode_put code = search (OkOrError-if, parsed, short)

OkOrError-decode_delete : (code : Bytes) → OkOrError (decode_delete code)
unfolding decode_delete
OkOrError-decode_delete code = search (OkOrError-if, parsed, short)

pub OkOrError-decode_body : (code : Bytes) → OkOrError (decode_body code)
unfolding decode_body
OkOrError-decode_body [] = short
OkOrError-decode_body (op ∷ rest) =
    search (OkOrError-if, OkOrError-decode_put, OkOrError-decode_delete, short)

pub OkOrError-cases :
    {r : Outcome WalError (WalEntry × ℕ)}
    → OkOrError r
    → ((p : WalEntry × ℕ) × (r ≡ ok p)) ⊎ (r ≡ err error)
OkOrError-cases (parsed p) = inl (p, refl)
OkOrError-cases short = inr refl

decode_short :
    (front : Bytes) (entry : WalEntry) (n : ℕ)
    → decode_body front ≡ ok (entry, n)
    → length front < n + 4
    → decode front ≡ err error
unfolding decode
decode_short front entry n e h = rw e (ground arith)

decode_no_body : (front : Bytes) → decode_body front ≡ err error → decode front ≡ err error
unfolding decode
decode_no_body front e = rw e

-- A file that ends inside an entry whose key and value are shorter than 2^32 bytes: of the encoding
-- only `front` is there, and not the byte `x`. Then `decode` answers the error of a short entry. It
-- neither panics nor answers with an entry.
pub decode_torn :
    (entry : WalEntry) (front : Bytes) (x : ℕ) (back : Bytes)
    → Fits entry
    → encode entry ≡ front ++ (x ∷ back)
    → decode front ≡ err error
decode_torn entry front x back fits e = elim (OkOrError-cases (OkOrError-decode_body front)) [
  | inr none_yet ↦ decode_no_body front none_yet
  | inl ((read, n), found) ↦ decode_short front read n found (
      ground (
        arith,
        whole,
        decode_body-append front (x ∷ back) read n found,
        ap length e,
        length-encode entry,
        length-append front (x ∷ back),
      ))
]
  where
    whole : decode_body (front ++ (x ∷ back)) ≡ ok (entry, length (body entry))
    whole = rw (← e) (unfold encode in decode_body-body entry (u32_bytes (crc32 (body entry))) fits)
