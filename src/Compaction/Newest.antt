-- ===== src/Compaction/Newest.antt =====
-- The value that a round emits is the one of the first source that has the key.
use via_tabula.Base.{
  ℕ, ◌≤◌, ◌<◌, ◌≡◌, refl, ◌∙◌, sym, ap, false, Bool-cases, [], ◌∷◌, ◌++◌, inl, inr, arith, ◌==◌,
  All, if◌then◌else◌, Option, none, some,
}
use mathlib.Core.List.{
  Mem, Mem-prop, not-mem-nil, mem-cons_self, mem-cons_of_mem, eq-or-mem_of_mem-cons,
}
use mathlib.Core.Logic.Or
use via_tabula.Base.Bytes.{Bytes}
use via_tabula.Base.Order.{eqb, eq_of_eqb, cmp_refl}
use via_tabula.Map
use via_tabula.Map.{Entries, IsSorted, Above}
use via_tabula.Map.Lookup.{get-Above}
use via_tabula.Compaction.Heap.{HeapEntry, BinaryHeap}
use via_tabula.Compaction.Merge.{MergeState}
use via_tabula.Compaction.Pulled.{held}
use via_tabula.Compaction.Heads.{held-cons}
use via_tabula.Compaction.Round.{Chooses}
use via_tabula.Compaction.Refill.{Waits, stream}
use via_tabula.Compaction.Sources.{Chooses-stream}
use via_tabula.Compaction.Ahead.{Gives, nothing, one, Chooses-Above}

-- `o` is what the first of the sources has that has anything.
pub data Latest (at : ℕ → Option Bytes) : Option Bytes → Type 0 where
  nowhere : ((j : ℕ) → at j ≡ none) → Latest at none
  first :
      (j : ℕ) (value : Bytes)
      → at j ≡ some value
      → ((i : ℕ) → i < j → at i ≡ none)
      → Latest at (some value)

pub Latest-map :
    (at at' : ℕ → Option Bytes) {o : Option Bytes}
    → ((j : ℕ) → at' j ≡ at j)
    → Latest at o
    → Latest at' o
Latest-map at at' h (nowhere n) = nowhere (λ j. h j ∙ n j)
Latest-map at at' h (first j value e n) = first j value (h j ∙ e) (λ i lt. h i ∙ n i lt)

held-Mem :
    (e : HeapEntry) (taken : BinaryHeap)
    → Mem e taken
    → Mem (e.key, e.value) (held e.source_index taken)
held-Mem e [] m = absurd (not-mem-nil m)
held-Mem e (d ∷ taken) m =
    Or.elim Mem-prop (eq-or-mem_of_mem-cons m)
      (λ same.
        let own : held e.source_index (e ∷ taken) ≡ (e.key, e.value) ∷ held e.source_index taken =
          held-cons e.source_index e taken ∙ ground arith in
        rw⁻¹ same (rw own mem-cons_self))
      (λ later.
        let m' = held-Mem e taken later in
        elim (Bool-cases (d.source_index == e.source_index)) [
          | inl mine ↦ rw (held-cons, mine) (mem-cons_of_mem _ m')
          | inr other ↦ rw (held-cons, other) m'
        ])

none_lower :
    (i c : ℕ) (taken : BinaryHeap)
    → All (λ (e : HeapEntry). c ≤ e.source_index) taken
    → i < c
    → held i taken ≡ []
unfolding held
none_lower i c [] a h = refl
none_lower i c (e ∷ taken) a h = ground (arith, none_lower i c taken a.1 h, a.0)

Bytes_set : IsSet Bytes
Bytes_set = hlevel

pair_eq : {a b c d : Bytes} → a ≡ b → c ≡ d → ◌≡◌ {A = Bytes × Bytes} (a, c) (b, d)
pair_eq e f = rw (e, f) refl

same_key :
    (key : Bytes) (e : HeapEntry) (taken : BinaryHeap)
    → All (λ (d : HeapEntry). d.key ≡ key) taken
    → Mem e taken
    → e.key ≡ key
same_key key e [] a m = absurd (not-mem-nil m)
same_key key e (d ∷ taken) a m =
    Or.elim (Bytes_set e.key key) (eq-or-mem_of_mem-cons m)
      (λ same. ap (λ (x : HeapEntry). x.key) same ∙ a.0) (same_key key e taken a.1)

-- The record that was chosen is what its source gives up.
Gives-chosen :
    (key value : Bytes) {es : Entries} → Gives key es → Mem (key, value) es → es ≡ (key, value) ∷ []
Gives-chosen key value nothing m = absurd (not-mem-nil m)
Gives-chosen key value (one v) m =
    let same : v ≡ value =
      Or.elim (Bytes_set v value) (eq-or-mem_of_mem-cons m)
        (λ e. sym (ap (λ (x : Bytes × Bytes). x.1) e)) (λ later. absurd (not-mem-nil later)) in
    rw same refl

-- The source of the record that was chosen gives up that record.
pub taken_chosen :
    (s after : MergeState) (key value : Bytes)
    → Waits [] s.iters s.heap
    → ((j : ℕ) → IsSorted (stream j s.iters s.heap))
    → (c : Chooses s key value after) → held c.chosen.source_index c.taken ≡ (key, value) ∷ []
taken_chosen s after key value w sorted c =
    let source = c.chosen.source_index in
    let chosen_here : Mem (key, value) (held source c.taken) =
      let m = held-Mem c.chosen c.taken c.from_taken in
      rw (pair_eq (same_key key c.chosen c.taken c.same c.from_taken) c.emitted) at m in
    Gives-chosen key value (Chooses-Above s after key value w sorted c source).0 chosen_here

get_chosen :
    (key value : Bytes) (es : Entries) {taken : Entries}
    → taken ≡ (key, value) ∷ []
    → Map.get (taken ++ es) key ≡ some value
unfolding Map.get
get_chosen key value es e = rw e (ground (arith, cmp_refl key))

get_other :
    (key q : Bytes) (es : Entries) {taken : Entries}
    → Gives key taken
    → eqb key q ≡ false
    → Map.get (taken ++ es) q ≡ Map.get es q
unfolding Map.get
get_other key q es nothing h = refl
get_other key q es (one v) h = ground (arith, h)

get_head :
    (key value q : Bytes) (es : Entries)
    → Map.get ((key, value) ∷ es) q ≡ (if eqb key q then some value else Map.get es q)
unfolding Map.get
get_head key value q es = ground arith

-- What source `j` has of key `q`.
abbrev pub found_in : MergeState → Bytes → ℕ → Option Bytes
found_in s q j = Map.get (stream j s.iters s.heap) q

-- Where the later rounds emit for a key what the first source has that has it, a round before them
-- does so too.
pub Chooses-Latest :
    (s after : MergeState) (key value q : Bytes) (es : Entries)
    → Waits [] s.iters s.heap
    → ((j : ℕ) → IsSorted (stream j s.iters s.heap))
    → Chooses s key value after
    → Latest (found_in after q) (Map.get es q)
    → Latest (found_in s q) (Map.get ((key, value) ∷ es) q)
Chooses-Latest s after key value q es w sorted c later =
    let (_, streams) = Chooses-stream s after key value w c in
    let ahead = Chooses-Above s after key value w sorted c in
    let source = c.chosen.source_index in
    elim (Bool-cases (eqb key q)) [
      | inr other ↦
          let skip : Map.get ((key, value) ∷ es) q ≡ Map.get es q =
            get_head key value q es ∙ rw other refl in
          rw skip (
            Latest-map (found_in after q) (found_in s q)
              (λ j.
                ap (λ (l : Entries). Map.get l q) (streams j)
                ∙ get_other key q (stream j after.iters after.heap) (ahead j).0 other)
              later)
      | inl same ↦
          let emitted : Map.get ((key, value) ∷ es) q ≡ some value =
            get_head key value q es ∙ rw same refl in
          let q_is : key ≡ q = eq_of_eqb key q same in
          rw emitted (
            rw⁻¹ q_is (
              first source value
                (ap (λ (l : Entries). Map.get l key) (streams source)
                  ∙ get_chosen key value (stream source after.iters after.heap)
                      (taken_chosen s after key value w sorted c))
                (λ i lt.
                  ap (λ (l : Entries). Map.get l key)
                    (streams i
                      ∙ ap (λ (l : Entries). l ++ stream i after.iters after.heap)
                          (none_lower i source c.taken c.newest lt))
                  ∙ get-Above key (stream i after.iters after.heap) (ahead i).1)))
    ]
