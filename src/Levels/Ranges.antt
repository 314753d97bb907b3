-- ===== src/Levels/Ranges.antt =====
-- `ranges_overlap` and the range that `compact` combines.
use via_tabula.Base.{◌⊎◌, ◌≡◌, true, false, arith, Bool-cases, inl, inr, ◌&&◌}
use via_tabula.Base.Bytes.{Bytes}
use via_tabula.Base.Order.{leb, eq_of_cmp, cmp_refl, lt_of_gt, gt_of_lt, lt_trans}
use via_tabula.Levels.Manager.{Range, ranges_overlap}

-- The key lies in the range, its ends included.
abbrev pub Within : Bytes → Range → Type 0
Within key (lo, hi) = (leb lo key ≡ true) × (leb key hi ≡ true)

pub leb_trans : (a b c : Bytes) → leb a b ≡ true → leb b c ≡ true → leb a c ≡ true
leb_trans a b c h g = ground (
  arith,
  eq_of_cmp a b,
  eq_of_cmp b c,
  lt_trans a b c,
  lt_of_gt a c,
  lt_of_gt a b,
  lt_of_gt b c,
  gt_of_lt a c,
)

pub leb_total : (a b : Bytes) → leb a b ≡ false → leb b a ≡ true
leb_total a b h = ground (arith, lt_of_gt a b)

pub leb_refl : (a : Bytes) → leb a a ≡ true
leb_refl a = ground (arith, cmp_refl a)

-- The larger of the two lower ends lies in both ranges.
common_key :
    (a b : Range)
    → leb a.0 a.1 ≡ true
    → leb b.0 b.1 ≡ true
    → leb a.0 b.1 ≡ true
    → leb b.0 a.1 ≡ true
    → (key : Bytes) × Within key a × Within key b
common_key a b ha hb h g = elim (Bool-cases (leb a.0 b.0)) [
  | inl le ↦ (b.0, (le, g), (leb_refl b.0, hb))
  | inr gt ↦ (a.0, (leb_refl a.0, ha), (leb_total a.0 b.0 gt, h))
]

-- Where both ranges have their ends in order, `ranges_overlap` says exactly whether some key lies in
-- both.
pub ranges_overlap_exact :
    (a b : Range)
    → leb a.0 a.1 ≡ true
    → leb b.0 b.1 ≡ true
    → ((ranges_overlap a b ≡ true) × (key : Bytes) × Within key a × Within key b)
      ⊎ ((ranges_overlap a b ≡ false) × ((key : Bytes) → ¬ (Within key a × Within key b)))
unfolding ranges_overlap
ranges_overlap_exact a b ha hb = elim (Bool-cases (leb a.0 b.1 && leb b.0 a.1)) [
  | inr apart ↦ inr (
    apart,
    λ key (wa, wb).
        ground (arith, leb_trans a.0 key b.1 wa.0 wb.1, leb_trans b.0 key a.1 wb.0 wa.1),
  )
  | inl meet ↦
      let (key, wa, wb) = common_key a b ha hb (ground (arith, meet)) (ground (arith, meet)) in
      inl (meet, key, wa, wb)
]
