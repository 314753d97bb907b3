-- ===== src/Compaction/Heads.antt =====
-- The heap holds one record of a source at most, so the order of its entries does not matter.
use via_tabula.Base.{
  ℕ, ◌≤◌, ◌≡◌, refl, ◌∙◌, sym, ap, Bool-cases, [], ◌∷◌, ◌++◌, length, inl, inr, arith, ◌==◌,
  if◌then◌else◌,
}
use mathlib.Core.Logic.{∥∥₁_elim}
use mathlib.Core.List.{Perm, Permᴰ}
use via_tabula.Map.{Entries}
use via_tabula.Compaction.Heap.{HeapEntry, BinaryHeap}
use via_tabula.Compaction.Pulled.{held}

pub held-cons :
    (i : ℕ) (e : HeapEntry) (heap : BinaryHeap)
    → held i (e ∷ heap)
      ≡ (if e.source_index == i then (e.key, e.value) ∷ held i heap else held i heap)
unfolding held
held-cons i e heap = refl

held_more :
    (i : ℕ) (a : HeapEntry) (l l' : BinaryHeap)
    → (length (held i l) ≤ 1 → held i l ≡ held i l')
    → length (held i (a ∷ l)) ≤ 1
    → held i (a ∷ l) ≡ held i (a ∷ l')
held_more i a l l' same h = elim (Bool-cases (a.source_index == i)) [
  | inl mine ↦
      let own : (m : BinaryHeap) → held i (a ∷ m) ≡ (a.key, a.value) ∷ held i m =
        λ m. held-cons i a m ∙ rw mine refl in
      own l ∙ ap (◌∷◌ (a.key, a.value)) (same (omega (arith, ap length (own l), h))) ∙ sym (own l')
  | inr other ↦
      let skip : (m : BinaryHeap) → held i (a ∷ m) ≡ held i m =
        λ m. held-cons i a m ∙ rw other refl in
      skip l ∙ same (omega (arith, ap length (skip l), h)) ∙ sym (skip l')
]

held_swap :
    (i : ℕ) (a b : HeapEntry) (l : BinaryHeap)
    → length (held i (a ∷ b ∷ l)) ≤ 1
    → held i (a ∷ b ∷ l) ≡ held i (b ∷ a ∷ l)
unfolding held
held_swap i a b l h = ground (arith, h)

held-Permᴰ :
    (i : ℕ) {xs ys : BinaryHeap} → Permᴰ xs ys → length (held i xs) ≤ 1 → held i xs ≡ held i ys
held-Permᴰ i Permᴰ.nil h = refl
held-Permᴰ i (Permᴰ.cons {a = a} {b = b} {l₁ = l} {l₂ = l'} e d) h =
    held_more i a l l' (held-Permᴰ i d) h ∙ ap (λ (x : HeapEntry). held i (x ∷ l')) e
held-Permᴰ i (Permᴰ.swap {a = a} {b = b} {a' = a'} {b' = b'} {l = l} e e') h =
    held_swap i a b l h
    ∙ ap (λ (x : HeapEntry). held i (x ∷ a ∷ l)) e'
    ∙ ap (λ (x : HeapEntry). held i (a' ∷ x ∷ l)) e
held-Permᴰ i (Permᴰ.trans d d') h =
    let first = held-Permᴰ i d h in first ∙ held-Permᴰ i d' (omega (arith, ap length first, h))

Entries_set : IsSet Entries
Entries_set = hlevel

-- What a source has in the heap does not depend on the order of the entries.
pub held-Perm :
    (i : ℕ) (xs ys : BinaryHeap) → Perm xs ys → length (held i xs) ≤ 1 → held i xs ≡ held i ys
held-Perm i xs ys p h = ∥∥₁_elim p (Entries_set _ _) (λ d. held-Permᴰ i d h)

pub held-append : (i : ℕ) (xs ys : BinaryHeap) → held i (xs ++ ys) ≡ held i xs ++ held i ys
unfolding held
held-append i [] ys = refl
held-append i (e ∷ xs) ys = ground (arith, held-append i xs ys)
