-- ===== src/Compaction/Ahead.antt =====
-- After a round all records that are left have larger keys than the current one.
use via_tabula.Base.{
  ℕ, ◌≤◌, ◌≡◌, refl, ◌∙◌, ap, Bool-cases, [], ◌∷◌, ◌++◌, length, length-append, inl, inr, arith,
  ◌==◌, All,
}
use mathlib.Core.List.{mem-cons_self, mem-cons_of_mem}
use via_tabula.Base.Bytes.{Bytes}
use via_tabula.Base.Order.{◌≺◌}
use via_tabula.Map.{Entries, IsSorted, Above}
use via_tabula.Map.Order.{Above-imp}
use via_tabula.Compaction.Heap.{HeapEntry, BinaryHeap}
use via_tabula.Compaction.Merge.{MergeState}
use via_tabula.Compaction.Pulled.{held, rest}
use via_tabula.Compaction.Drain.{Beyond}
use via_tabula.Compaction.Round.{Chooses}
use via_tabula.Compaction.Refill.{Waits, stream}
use via_tabula.Compaction.Heads.{held-Perm, held-append}
use via_tabula.Compaction.Sources.{Chooses-stream}

-- What source `j` gives up in a round.
pub data Gives (key : Bytes) : Entries → Type 0 where
  nothing : Gives key []
  one : (value : Bytes) → Gives key ((key, value) ∷ [])

held-All :
    (j : ℕ) (key : Bytes) (taken : BinaryHeap)
    → All (λ (e : HeapEntry). e.key ≡ key) taken
    → All (λ (e : Bytes × Bytes). e.0 ≡ key) (held j taken)
unfolding held
held-All j key [] a = tt
held-All j key (e ∷ taken) a = elim (Bool-cases (e.source_index == j)) [
  | inl mine ↦ rw mine (a.0, held-All j key taken a.1)
  | inr other ↦ rw other (held-All j key taken a.1)
]

Gives-short :
    (key : Bytes) (es : Entries)
    → All (λ (e : Bytes × Bytes). e.0 ≡ key) es
    → length es ≤ 1
    → Gives key es
Gives-short key [] a h = nothing
Gives-short key ((k, v) ∷ []) a h = rw a.0 (one v)
Gives-short key (e ∷ d ∷ es) a h = absurd (omega (arith, h))

held-Beyond :
    (j : ℕ) (key : Bytes) (left : BinaryHeap)
    → Beyond key left
    → All (λ (e : Bytes × Bytes). key ≺ e.0) (held j left)
unfolding held
held-Beyond j key [] b = tt
held-Beyond j key (e ∷ left) b =
    let own : key ≺ e.key = ground (arith, b e mem-cons_self) in
    let later = held-Beyond j key left (λ x m. b x (mem-cons_of_mem e m)) in
    elim (Bool-cases (e.source_index == j)) [
      | inl mine ↦ rw mine (own, later)
      | inr other ↦ rw other later
    ]

Above-front :
    (key : Bytes) (front back : Entries)
    → All (λ (e : Bytes × Bytes). key ≺ e.0) front
    → (front ≡ [] → back ≡ [])
    → IsSorted (front ++ back)
    → Above key (front ++ back)
Above-front key [] back a h s = rw (h refl) tt
Above-front key ((k, v) ∷ front) back a h s = (a.0, Above-imp key k (front ++ back) a.0 s.0)

ahead :
    (key : Bytes) (before after front back : Entries) {taken : Entries}
    → Gives key taken
    → before ≡ taken ++ after
    → before ≡ front ++ back
    → (taken ≡ [] → All (λ (e : Bytes × Bytes). key ≺ e.0) front)
    → (front ≡ [] → back ≡ [])
    → IsSorted before
    → Above key after × IsSorted after
ahead key before after front back nothing e f a h s =
    (rw⁻¹ e (rw f (Above-front key front back (a refl) h (rw f at s))), rw e at s)
ahead key before after front back (one value) e f a h s = rw e at s

-- After a round from an ordered state with sorted sources, each source has given up its record of the
-- current key, or nothing, and what it has left is sorted and beyond that key.
pub Chooses-Above :
    (s after : MergeState) (key value : Bytes)
    → Waits [] s.iters s.heap
    → ((j : ℕ) → IsSorted (stream j s.iters s.heap))
    → (c : Chooses s key value after) → (j : ℕ)
    → Gives key (held j c.taken)
      × Above key (stream j after.iters after.heap)
      × IsSorted (stream j after.iters after.heap)
unfolding stream
Chooses-Above s after key value w sorted c j =
    let split : held j s.heap ≡ held j c.taken ++ held j c.left =
      held-Perm j s.heap (c.taken ++ c.left) c.whole (w j).0 ∙ held-append j c.taken c.left in
    let short = length-append (held j c.taken) (held j c.left) in
    let gives : Gives key (held j c.taken) =
      Gives-short key (held j c.taken) (held-All j key c.taken c.same)
        (omega (arith, (w j).0, ap length split, short)) in
    let (_, streams) = Chooses-stream s after key value w c in
    let (above, sorted') =
      ahead key (stream j s.iters s.heap) (stream j after.iters after.heap) (held j s.heap)
        (rest j s.iters) gives (streams j) refl
        (λ none_taken.
          let same : held j s.heap ≡ held j c.left =
            split ∙ ap (λ (es : Entries). es ++ held j c.left) none_taken in
          rw same (held-Beyond j key c.left c.beyond))
        (λ empty. (w j).1 empty tt) (sorted j) in
    (gives, above, sorted')
