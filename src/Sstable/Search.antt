-- ===== src/Sstable/Search.antt =====
-- The sparse index leads `get_raw` to a record from which the scan finds what the whole data section
-- holds.
use via_tabula.Base.{
  ℕ, zero, suc, ◌+◌, ◌≡◌, refl, ◌∙◌, sym, Bool, true, false, Option, none, some, [], ◌∷◌, ◌++◌,
  if◌then◌else◌, length, length-append, append_assoc, All, Outcome, ok, arith, Ordering,
  Ordering-cases, ◌≢◌, inl, inr, leb, append-nil,
}
use via_tabula.Base.Bytes.{Bytes}
use via_tabula.Base.Order.{cmp, ◌≺◌, eq_of_cmp, lt_of_gt, lt_trans}
use via_tabula.Map
use via_tabula.Map.{Entries, IsSorted, Above}
use via_tabula.Map.Lookup.{get_before}
use via_tabula.Sstable.Writer.{Index, record_bytes, SsTableError}
use via_tabula.Sstable.Reader.{
  SearchResult, found, insertion_point, later_by_one, binary_search, offset_at, start_offset,
}
use via_tabula.Sstable.Layout.{records, sparse_index}

-- The offset of the last index entry whose key is not above `key`, or `best` where there is none.
offset_before : Option ℕ → Index → Bytes → Option ℕ
offset_before best [] key = best
offset_before best ((k, offset) ∷ index) key =
    let later = offset_before (some offset) index key in
    elim (cmp k key) [ Ordering.lt ↦ later | Ordering.eq ↦ some offset | Ordering.gt ↦ best ]

pick : Option ℕ → Index → SearchResult → Outcome SsTableError (Option ℕ)
pick best index (found pos) = offset_at index pos
pick best index (insertion_point zero) = ok best
pick best index (insertion_point (suc pos)) = offset_at index pos

pick_later :
    (best : Option ℕ) (k : Bytes) (offset : ℕ) (index : Index) (r : SearchResult)
    → pick best ((k, offset) ∷ index) (later_by_one r) ≡ pick (some offset) index r
unfolding pick
pick_later best k offset index (found pos) = refl
pick_later best k offset index (insertion_point zero) = refl
pick_later best k offset index (insertion_point (suc pos)) = refl

pick-binary_search :
    (best : Option ℕ) (index : Index) (key : Bytes)
    → pick best index (binary_search index key) ≡ ok (offset_before best index key)
unfolding binary_search offset_before pick
pick-binary_search best [] key = refl
pick-binary_search best ((k, offset) ∷ index) key = ground (
  arith,
  pick-binary_search (some offset) index key,
  pick_later best k offset index (binary_search index key),
)

start_offset-pick :
    (index : Index) (key : Bytes)
    → start_offset index key ≡ pick none index (binary_search index key)
unfolding start_offset pick
start_offset-pick index key = ground arith

start_offset-offset_before :
    (index : Index) (key : Bytes) → start_offset index key ≡ ok (offset_before none index key)
start_offset-offset_before index key =
    start_offset-pick index key ∙ pick-binary_search none index key

-- All keys of the entries are below `key`.
abbrev Below : Bytes → Entries → Type 0
Below key = All (λ e. e.0 ≺ key)

-- A scan from `offset` on meets what the entries hold at the key.
pub record Resumes (entries : Entries) (key : Bytes) (offset : ℕ) : Type 0 where
  pub before : Entries
  pub after : Entries
  pub split : entries ≡ before ++ after
  pub at : offset ≡ length (records before)
  pub skipped : Map.get before key ≡ none

Below-imp : (a b : Bytes) (entries : Entries) → a ≺ b → Below a entries → Below b entries
Below-imp a b [] h below = tt
Below-imp a b ((k, v) ∷ entries) h below =
    (lt_trans k a b below.0 h, Below-imp a b entries h below.1)

Below-snoc :
    (key k v : Bytes) (entries : Entries)
    → Below key entries
    → k ≺ key
    → Below key (entries ++ ((k, v) ∷ []))
Below-snoc key k v [] below h = (h, tt)
Below-snoc key k v (e ∷ entries) below h = (below.0, Below-snoc key k v entries below.1 h)

get-Below :
    (k key : Bytes) (entries : Entries)
    → Below k entries
    → cmp k key ≢ Ordering.gt
    → Map.get entries key ≡ none
unfolding Map.get
get-Below k key [] below h = refl
get-Below k key ((j, v) ∷ entries) below h =
    ground (arith, get-Below k key entries below.1 h, lt_trans j k key, eq_of_cmp k key)

-- The entries passed so far lie below the first entry to come.
abbrev BelowHead : Entries → Entries → Type 0
BelowHead before [] = Unit
BelowHead before ((k, v) ∷ after) = Below k before

BelowHead-step :
    (k v : Bytes) (before after : Entries)
    → Below k before
    → Above k after
    → BelowHead (before ++ ((k, v) ∷ [])) after
BelowHead-step k v before [] below above = tt
BelowHead-step k v before ((j, w) ∷ after) below above =
    Below-snoc j k v before (Below-imp k j before above.0 below) above.0

length-records_snoc :
    (key value : Bytes) (entries : Entries)
    → length (records (entries ++ ((key, value) ∷ [])))
      ≡ length (records entries) + length (record_bytes key value)
unfolding records
length-records_snoc key value [] = rw append-nil (omega arith)
length-records_snoc key value ((k, v) ∷ entries) = omega (
  arith,
  length-append (record_bytes k v) (records entries),
  length-append (record_bytes k v) (records (entries ++ ((key, value) ∷ []))),
  length-records_snoc key value entries,
)

length-records_nil : length (records []) ≡ 0
unfolding records
length-records_nil = refl

Found : Entries → Bytes → Option ℕ → Type 0
Found all key none = ⊥
Found all key (some offset) = Resumes all key offset

Found-mark :
    (all : Entries) (key k : Bytes) (best base : ℕ) (later : Index)
    → (cmp k key ≢ Ordering.gt → Resumes all key base)
    → (Resumes all key base → Found all key (offset_before (some base) later key))
    → Resumes all key best
    → Found all key (offset_before (some best) ((k, base) ∷ later) key)
unfolding offset_before Found
Found-mark all key k best base later here further r = elim (Ordering-cases (cmp k key)) [
  | inl lt ↦ rw (lt, offset_before) (further (here (λ gt. cc)))
  | inr (inl eq) ↦ rw (eq, offset_before) (here (λ gt. cc))
  | inr (inr gt) ↦ rw (gt, offset_before) r
]

Found-if :
    (all : Entries) (key : Bytes) (best : ℕ) (b : Bool) (index index' : Index)
    → Found all key (offset_before (some best) index key)
    → Found all key (offset_before (some best) index' key)
    → Found all key (offset_before (some best) (if b then index else index') key)
Found-if all key best true index index' h h' = h
Found-if all key best false index index' h h' = h'

-- With one place to resume at known, the rest of the index leads to such a place too.
Found-offset_before :
    (all before after : Entries) (base since best : ℕ) (key : Bytes)
    → all ≡ before ++ after
    → base ≡ length (records before)
    → IsSorted after
    → BelowHead before after
    → Resumes all key best
    → Found all key (offset_before (some best) (sparse_index base since false after) key)
unfolding sparse_index offset_before Found
Found-offset_before all before [] base since best key split at sorted below r = r
Found-offset_before all before ((k, v) ∷ after) base since best key split at sorted below r =
    let size = length (record_bytes k v) in
    let since' = (if leb 4096 since then 0 else since) + size in
    let later = sparse_index (base + size) since' false after in
    let go = λ (best' : ℕ).
      Found-offset_before all (before ++ ((k, v) ∷ [])) after (base + size) since' best' key
        (split ∙ sym (append_assoc before ((k, v) ∷ []) after))
        (omega (arith, length-records_snoc k v before)) sorted.1
        (BelowHead-step k v before after below sorted.0) in
    Found-if all key best (leb 4096 since) ((k, base) ∷ later) later
      (Found-mark all key k best base later
        (λ ne. record {
          before = before;
          after = (k, v) ∷ after;
          split = split;
          at = at;
          skipped = get-Below k key before below ne;
        })
        (go base) r)
      (go best r)

-- Where the index of a whole data section leads: to a place to resume at, or, below the first key,
-- to the answer that the key is not there.
pub data Leads (all : Entries) (key : Bytes) : Option ℕ → Type 0 where
  absent : Map.get all key ≡ none → Leads all key none
  resume : {offset : ℕ} → Resumes all key offset → Leads all key (some offset)

Leads-Found : (all : Entries) (key : Bytes) (o : Option ℕ) → Found all key o → Leads all key o
unfolding Found
Leads-Found all key none f = absurd f
Leads-Found all key (some offset) r = resume r

Leads-offset_before :
    (all : Entries) (key : Bytes)
    → IsSorted all
    → Leads all key (offset_before none (sparse_index 0 0 true all) key)
unfolding sparse_index offset_before
Leads-offset_before [] key s = unfold Map.get in absent refl
Leads-offset_before ((k, v) ∷ rest) key s =
    let all = (k, v) ∷ rest in
    let size = length (record_bytes k v) in
    let start : Resumes all key 0 = record {
      before = [];
      after = all;
      split = refl;
      at = unfold records in refl;
      skipped = unfold Map.get in refl;
    } in
    elim (Ordering-cases (cmp k key)) [
      | inl lt ↦
          rw (lt, offset_before)
            (Leads-Found all key _ (
              Found-offset_before all ((k, v) ∷ []) rest (0 + size) (0 + size) 0 key refl
                (omega (arith, length-records_snoc k v [], length-records_nil)) s.1
                (BelowHead-step k v [] rest tt s.0) start))
      | inr (inl eq) ↦ rw (eq, offset_before) (resume start)
      | inr (inr gt) ↦
          rw (gt, offset_before) (absent (get_before k v key rest s (lt_of_gt k key gt)))
    ]

-- The search of the index of a data section answers, and leads to a place where a scan may start.
pub Leads-start_offset :
    (all : Entries) (key : Bytes)
    → IsSorted all
    → (o : Option ℕ) × (start_offset (sparse_index 0 0 true all) key ≡ ok o) × Leads all key o
Leads-start_offset all key s =
    let index = sparse_index 0 0 true all in
    (
      offset_before none index key,
      start_offset-offset_before index key,
      Leads-offset_before all key s,
    )
