-- ===== src/Levels/Span.antt =====
-- The range of the keys of a table, `key_range`, and of the tables of L0, which `compact` combines.
use via_tabula.Base.{
  ◌≡◌, refl, ◌⊎◌, true, false, some, List, [], ◌∷◌, ◌++◌, All, All-imp, All-append, ok, inl, inr,
  arith, Bool-cases, Bool, if◌then◌else◌,
}
use via_tabula.Base.Bytes.{Bytes}
use via_tabula.Base.Order.{leb, ◌≺◌}
use via_tabula.Map.{Entries, IsSorted}
use via_tabula.Sstable.Reader.{SsTableReader, iter}
use via_tabula.Compaction.{collect}
use via_tabula.Levels.Manager.{Range, range_of, key_range, last_key, widen, min_key, max_key}
use via_tabula.Levels.Ranges.{Within, leb_trans, leb_total, leb_refl}

-- Some entry has the key.
abbrev pub HasKey : Bytes → Entries → Type 0
HasKey key [] = ⊥
HasKey key (e ∷ es) = (key ≡ e.0) ⊎ HasKey key es

-- The range from the smallest to the largest key.
pub record IsSpan (range : Range) (es : Entries) : Type 0 where
  pub within : All (λ e. Within e.0 range) es
  pub least : HasKey range.0 es
  pub greatest : HasKey range.1 es

HasKey-left : (key : Bytes) (es es' : Entries) → HasKey key es → HasKey key (es ++ es')
HasKey-left key [] es' h = absurd h
HasKey-left key (e ∷ es) es' (inl h) = inl h
HasKey-left key (e ∷ es) es' (inr h) = inr (HasKey-left key es es' h)

HasKey-right : (key : Bytes) (es es' : Entries) → HasKey key es' → HasKey key (es ++ es')
HasKey-right key [] es' h = h
HasKey-right key (e ∷ es) es' h = inr (HasKey-right key es es' h)

Within-key :
    (key : Bytes) (range : Range) (es : Entries)
    → All (λ e. Within e.0 range) es
    → HasKey key es
    → Within key range
Within-key key range [] a h = absurd h
Within-key key range (e ∷ es) a (inl same) = rw same a.0
Within-key key range (e ∷ es) a (inr h) = Within-key key range es a.1 h

-- The ends of the range are in order.
pub IsSpan-ordered : (range : Range) (es : Entries) → IsSpan range es → leb range.0 range.1 ≡ true
IsSpan-ordered range es s = (Within-key range.0 range es s.within s.least).1

leb_of_lt : (a b : Bytes) → a ≺ b → leb a b ≡ true
leb_of_lt a b h = ground (arith, h)

last_key-IsSpan :
    (k v : Bytes) (es : Entries) → IsSorted ((k, v) ∷ es) → IsSpan (k, last_key k es) ((k, v) ∷ es)
last_key-IsSpan k v [] h = record {
  within = ((leb_refl k, leb_refl k), tt);
  least = inl refl;
  greatest = inl refl;
}
last_key-IsSpan k v ((k', v') ∷ es) h =
    let s = last_key-IsSpan k' v' es h.1 in
    let le = leb_of_lt k k' h.0.0 in
    record {
      within = (
        (leb_refl k, leb_trans k k' (last_key k' es) le s.within.0.1),
        All-imp (λ e w. (leb_trans k k' e.0 le w.0, w.1)) ((k', v') ∷ es) s.within,
      );
      least = inl refl;
      greatest = inr s.greatest;
    }

range_of-IsSpan : (es : Entries) (own : Range) → IsSorted es → range_of es ≡ ok own → IsSpan own es
unfolding range_of
range_of-IsSpan [] own h e = absurd cc
range_of-IsSpan ((k, v) ∷ es) own h e =
    let same : own ≡ (k, last_key k es) = cc in rw same (last_key-IsSpan k v es h)

-- The loop of `key_range` finds the smallest and the largest key of a table.
pub key_range-IsSpan :
    (r : SsTableReader) (own : Range)
    → IsSorted (collect (iter r))
    → key_range r ≡ ok own
    → IsSpan own (collect (iter r))
unfolding key_range
key_range-IsSpan r own h e = range_of-IsSpan (collect (iter r)) own h e

-- All records of some tables.
abbrev pub all_records : List SsTableReader → Entries
all_records [] = []
all_records (r ∷ readers) = collect (iter r) ++ all_records readers

min_key_le : (a b : Bytes) → (leb (min_key a b) a ≡ true) × (leb (min_key a b) b ≡ true)
min_key_le a b = elim (Bool-cases (leb a b)) [
  | inl le ↦ rw le (leb_refl a, le)
  | inr gt ↦ rw gt (leb_total a b gt, leb_refl b)
]

le_max_key : (a b : Bytes) → (leb a (max_key a b) ≡ true) × (leb b (max_key a b) ≡ true)
le_max_key a b = elim (Bool-cases (leb a b)) [
  | inl le ↦ rw le (le, leb_refl b)
  | inr gt ↦ rw gt (leb_refl a, leb_total a b gt)
]

-- The one of two keys that a test picks is there, where both are.
HasKey-picked :
    (b : Bool) (k k' : Bytes) (es : Entries)
    → HasKey k es
    → HasKey k' es
    → HasKey (if b then k else k') es
HasKey-picked true k k' es h h' = h
HasKey-picked false k k' es h h' = h'

Within-wider :
    (a b : Range) (es : Entries)
    → leb b.0 a.0 ≡ true
    → leb a.1 b.1 ≡ true
    → All (λ e. Within e.0 a) es
    → All (λ e. Within e.0 b) es
Within-wider a b es lo hi =
    All-imp (λ e w. (leb_trans b.0 a.0 e.0 lo w.0, leb_trans e.0 a.1 b.1 w.1 hi)) es

pub widen-IsSpan :
    (range own : Range) (es es' : Entries)
    → IsSpan range es
    → IsSpan own es'
    → IsSpan (widen (some range) own) (es ++ es')
widen-IsSpan range own es es' a b =
    let wide = widen (some range) own in
    let lo = min_key_le range.0 own.0 in
    let hi = le_max_key range.1 own.1 in
    record {
      within =
          All-append (λ e. Within e.0 wide) es es' (Within-wider range wide es lo.0 hi.0 a.within)
            (Within-wider own wide es' lo.1 hi.1 b.within);
      least =
          HasKey-picked (leb range.0 own.0) range.0 own.0 (es ++ es')
            (HasKey-left range.0 es es' a.least) (HasKey-right own.0 es es' b.least);
      greatest =
          HasKey-picked (leb range.1 own.1) own.1 range.1 (es ++ es')
            (HasKey-right own.1 es es' b.greatest) (HasKey-left range.1 es es' a.greatest);
    }
