-- ===== src/Compaction/Streams.antt =====
-- What a source of the merge still has to give: the records in front of its iterator.
use via_tabula.Base.{
  ℕ, zero, suc, ◌+◌, ◌-◌, ◌<◌, ◌≡◌, ◌⊎◌, refl, ap, false, Bool-cases, none, some, [], ◌∷◌, length,
  inl, inr, arith, leb as le_num, ok, err, panic, Outcome,
}
use via_tabula.Base.Bytes.{Bytes}
use via_tabula.Sstable.Writer.{SsTableError}
use via_tabula.Sstable.Reader.{SsTableIter, next, read_record}
use via_tabula.Compaction.Merge.{items, collect}

-- A step forward: the same file, and further on in it.
record Moves (it it' : SsTableIter) : Type 0 where
  same_end : it'.data_end ≡ it.data_end
  not_over : it.pos < it.data_end
  forward : it.pos < it'.pos

moved_by : SsTableIter → Bytes → Bytes → Bytes → SsTableIter
moved_by it key val rest = record it {
  rest = rest;
  pos = it.pos + (4 + length key + 4 + length val);
}

-- `next` ends, or it gives a record and moves behind it.
next_cases :
    (it : SsTableIter)
    → (next it ≡ none)
      ⊎ ((it.pos < it.data_end)
          × (key : Bytes) × (val : Bytes) × (rest : Bytes) × (next it
              ≡ some ((key, val), moved_by it key val rest)))
unfolding next moved_by
next_cases it = elim (Bool-cases (le_num it.data_end it.pos)) [
  | inl over ↦ inl (rw (next, over) refl)
  | inr more ↦ by_record more (read_record it.rest) refl
]
  where
    by_record :
        le_num it.data_end it.pos ≡ false
        → (r : Outcome SsTableError (Bytes × Bytes × Bytes)) → read_record it.rest ≡ r
        → (next it ≡ none)
          ⊎ ((it.pos < it.data_end)
              × (key : Bytes) × (val : Bytes) × (rest : Bytes) × (next it
                  ≡ some ((key, val), moved_by it key val rest)))
    by_record more (ok (key, val, rest)) q =
        inr (ground (arith, more), key, val, rest, rw (next, more, q) refl)
    by_record more (err x) q = inl (rw (next, more, q) refl)
    by_record more panic q = inl (rw (next, more, q) refl)

next-Moves :
    (it : SsTableIter) (key val rest : Bytes)
    → it.pos < it.data_end
    → Moves it (moved_by it key val rest)
unfolding moved_by
next-Moves it key val rest h = record { same_end = refl; not_over = h; forward = omega arith }

items_fuel :
    (f g : ℕ) (it : SsTableIter)
    → it.data_end - it.pos < f
    → it.data_end - it.pos < g
    → items f it ≡ items g it
unfolding items
items_fuel zero g it h k = absurd (omega arith)
items_fuel (suc f) zero it h k = absurd (omega arith)
items_fuel (suc f) (suc g) it h k = elim (next_cases it) [
  | inl e ↦ rw (items, e) refl
  | inr (more, key, val, rest, n) ↦
      let it' = moved_by it key val rest in
      let m = next-Moves it key val rest more in
      rw (items, n)
        (ap (◌∷◌ (key, val)) (
          items_fuel f g it' (omega (arith, m.same_end, m.not_over, m.forward))
            (omega (arith, m.same_end, m.not_over, m.forward))))
]

-- An iterator yields what `next` gives, and then what the moved iterator yields.
pub collect-next :
    (it : SsTableIter)
    → ((next it ≡ none) × (collect it ≡ []))
      ⊎ ((e : Bytes × Bytes) × (it' : SsTableIter) × (next it ≡ some (e, it'))
          × (collect it ≡ e ∷ collect it'))
unfolding collect items
collect-next it = elim (next_cases it) [
  | inl n ↦ inl (n, rw (collect, items, n) refl)
  | inr (more, key, val, rest, n) ↦
      let it' = moved_by it key val rest in
      let m = next-Moves it key val rest more in
      inr (
        (key, val),
        it',
        n,
        rw (collect, items, n)
            (ap (◌∷◌ (key, val)) (
              items_fuel (it.data_end - it.pos) (suc (it'.data_end - it'.pos)) it'
                (omega (arith, m.same_end, m.not_over, m.forward)) (omega arith))),
      )
]
