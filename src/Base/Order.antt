-- ===== src/Base/Order.antt =====
-- The lexicographic order of byte strings, `Ord` for `[u8]` and `Vec<u8>`.
use Prim.Native.Nat.{compare}
use via_tabula.Base.{◌≡◌, refl, ◌≢◌, Bool, true, false, [], ◌∷◌, Ordering, arith}
use via_tabula.Base.Bytes.{Bytes}

unfoldable pub cmp : Bytes → Bytes → Ordering
cmp [] [] = Ordering.eq
cmp [] (b ∷ bs) = Ordering.lt
cmp (a ∷ as') [] = Ordering.gt
cmp (a ∷ as') (b ∷ bs) =
    let rest = cmp as' bs in
    elim (compare a b) [
      | Ordering.lt ↦ Ordering.lt
      | Ordering.eq ↦ rest
      | Ordering.gt ↦ Ordering.gt
    ]

infix 50 ◌≺◌
abbrev pub ◌≺◌ : Bytes → Bytes → Type 0
a ≺ b = cmp a b ≡ Ordering.lt

pub cmp_refl : (a : Bytes) → cmp a a ≡ Ordering.eq
unfolding cmp
cmp_refl [] = refl
cmp_refl (a ∷ as') = ground (arith, cmp_refl as')

pub eq_of_cmp : (a b : Bytes) → cmp a b ≡ Ordering.eq → a ≡ b
unfolding cmp
eq_of_cmp [] [] h = refl
eq_of_cmp [] (b ∷ bs) h = cc
eq_of_cmp (a ∷ as') [] h = cc
eq_of_cmp (a ∷ as') (b ∷ bs) h = ground (arith, eq_of_cmp as' bs)

pub lt_of_gt : (a b : Bytes) → cmp a b ≡ Ordering.gt → b ≺ a
unfolding cmp
lt_of_gt [] [] h = cc
lt_of_gt [] (b ∷ bs) h = cc
lt_of_gt (a ∷ as') [] h = refl
lt_of_gt (a ∷ as') (b ∷ bs) h = ground (arith, lt_of_gt as' bs)

pub gt_of_lt : (a b : Bytes) → a ≺ b → cmp b a ≡ Ordering.gt
unfolding cmp
gt_of_lt [] [] h = cc
gt_of_lt [] (b ∷ bs) h = refl
gt_of_lt (a ∷ as') [] h = cc
gt_of_lt (a ∷ as') (b ∷ bs) h = ground (arith, gt_of_lt as' bs)

pub lt_trans : (a b c : Bytes) → a ≺ b → b ≺ c → a ≺ c
unfolding cmp
lt_trans [] [] c h k = cc
lt_trans [] (b ∷ bs) [] h k = cc
lt_trans [] (b ∷ bs) (c ∷ cs) h k = refl
lt_trans (a ∷ as') [] c h k = cc
lt_trans (a ∷ as') (b ∷ bs) [] h k = cc
lt_trans (a ∷ as') (b ∷ bs) (c ∷ cs) h k = ground (arith, lt_trans as' bs cs)

-- `a == b`, `a < b` and `a <= b` of byte strings.
abbrev pub eqb : Bytes → Bytes → Bool
eqb a b = elim (cmp a b) [ Ordering.eq ↦ true | _ ↦ false ]

abbrev pub ltb : Bytes → Bytes → Bool
ltb a b = elim (cmp a b) [ Ordering.lt ↦ true | _ ↦ false ]

abbrev pub leb : Bytes → Bytes → Bool
leb a b = elim (cmp a b) [ Ordering.gt ↦ false | _ ↦ true ]

pub eq_of_eqb : (a b : Bytes) → eqb a b ≡ true → a ≡ b
eq_of_eqb a b h = eq_of_cmp a b (ground arith)

pub eqb_refl : (a : Bytes) → eqb a a ≡ true
eqb_refl a = ground (arith, cmp_refl a)

pub eqb_of_ne : (a b : Bytes) → a ≢ b → eqb a b ≡ false
eqb_of_ne a b h = ground (arith, eq_of_cmp a b)
