-- ===== src/Compaction/Sources.antt =====
-- What a round of the merge does to the sources: each gives up its record of the current key.
use via_tabula.Base.{
  ℕ, ◌+◌, ◌≤◌, ◌≡◌, ◌≢◌, refl, ◌∙◌, sym, ap, Bool-cases, [], ◌∷◌, ◌++◌, append_assoc, length,
  length-append, map, inl, inr, arith, ◌==◌, All,
}
use via_tabula.Base.Bytes.{Bytes}
use via_tabula.Map.{Entries}
use via_tabula.Compaction.Heap.{HeapEntry, BinaryHeap}
use via_tabula.Compaction.Merge.{MergeState}
use via_tabula.Compaction.Pulled.{held, rest}
use via_tabula.Compaction.Drain.{source_of}
use via_tabula.Compaction.Round.{Chooses}
use via_tabula.Compaction.Refill.{Distinct, Waits, stream, refill-Waits}
use via_tabula.Compaction.Heads.{held-Perm, held-append, held-cons}

empty_of_none : (es : Entries) → length es ≡ 0 → es ≡ []
empty_of_none [] h = refl
empty_of_none (e ∷ es) h = absurd (omega (arith, h))

other_sources :
    (i : ℕ) (taken : BinaryHeap) → held i taken ≡ [] → All (λ j. i ≢ j) (map source_of taken)
other_sources i [] h = tt
other_sources i (e ∷ taken) h = elim (Bool-cases (e.source_index == i)) [
  | inl mine ↦
      let own : held i (e ∷ taken) ≡ (e.key, e.value) ∷ held i taken =
        held-cons i e taken ∙ rw mine refl in
      absurd (omega (arith, ap length (sym own ∙ h)))
  | inr other ↦
      let skip : held i (e ∷ taken) ≡ held i taken = held-cons i e taken ∙ rw other refl in
      (λ same. ground (arith, other, same), other_sources i taken (sym skip ∙ h))
]

abbrev OneEach : BinaryHeap → Type 0
OneEach heap = (j : ℕ) → length (held j heap) ≤ 1

OneEach-tail : (e : HeapEntry) (heap : BinaryHeap) → OneEach (e ∷ heap) → OneEach heap
OneEach-tail e heap one j = ground (arith, one j, held-cons j e heap)

sources-Distinct :
    (taken left : BinaryHeap)
    → OneEach (taken ++ left)
    → Distinct (map source_of taken) × All (λ i. held i left ≡ []) (map source_of taken)
sources-Distinct [] left one = (tt, tt)
sources-Distinct (e ∷ taken) left one =
    let i = e.source_index in
    let (distinct, empty) = sources-Distinct taken left (OneEach-tail e (taken ++ left) one) in
    let none_later : held i (taken ++ left) ≡ [] =
      empty_of_none (held i (taken ++ left))
        (ground (arith, one i, held-cons i e (taken ++ left))) in
    let parts : length (held i taken) + length (held i left) ≡ 0 =
      sym (length-append (held i taken) (held i left))
      ∙ ap length (sym (held-append i taken left) ∙ none_later) in
    (
      (other_sources i taken (empty_of_none _ (omega (arith, parts))), distinct),
      (empty_of_none _ (omega (arith, parts)), empty),
    )

nothing_held :
    (j : ℕ) (taken : BinaryHeap) → All (λ i. i ≢ j) (map source_of taken) → held j taken ≡ []
unfolding held
nothing_held j [] d = refl
nothing_held j (e ∷ taken) d = ground (arith, nothing_held j taken d.1, d.0)

-- A round keeps the state in order, and each source has what it had, less what was taken of it.
pub Chooses-stream :
    (s after : MergeState) (key value : Bytes)
    → Waits [] s.iters s.heap
    → (c : Chooses s key value after)
    → Waits [] after.iters after.heap
      × ((j : ℕ) → stream j s.iters s.heap ≡ held j c.taken ++ stream j after.iters after.heap)
unfolding stream
Chooses-stream s after key value w c =
    let split : (j : ℕ) → held j s.heap ≡ held j c.taken ++ held j c.left =
      λ j. held-Perm j s.heap (c.taken ++ c.left) c.whole (w j).0 ∙ held-append j c.taken c.left in
    let whole : OneEach (c.taken ++ c.left) =
      λ j. omega (arith, (w j).0, ap length (split j), ap length (held-append j c.taken c.left)) in
    let (distinct, empty) = sources-Distinct c.taken c.left whole in
    let waits : Waits (map source_of c.taken) s.iters c.left = λ j. (
      omega (arith, (w j).0, ap length (split j), length-append (held j c.taken) (held j c.left)),
      λ none_left others.
          let none_taken = nothing_held j c.taken others in
          let none_there : held j s.heap ≡ [] = split j ∙ rw (none_taken, none_left) refl in
          (w j).1 none_there tt,
    ) in
    let (ready, same) = refill-Waits (map source_of c.taken) s.iters c.left distinct empty waits in
    (
      rw (c.iters, c.heap) ready,
      λ j.
          let later : stream j after.iters after.heap ≡ held j c.left ++ rest j s.iters =
            rw (c.iters, c.heap) (same j) in
          ap (λ (es : Entries). es ++ rest j s.iters) (split j)
          ∙ append_assoc (held j c.taken) (held j c.left) (rest j s.iters)
          ∙ ap (λ (es : Entries). held j c.taken ++ es) (sym later),
    )
