-- ===== src/Lsm/Sorted.antt =====
-- `level.sort()` in `discover_levels`: the tables of a level, from the oldest name to the newest.
use via_tabula.Base.{◌⊎◌, ◌≡◌, true, List, [], ◌∷◌, All, arith, Bool-cases, inl, inr, false}
use mathlib.Core.List.{Perm}
use mathlib.Core.List.Perm
use via_tabula.Base.Order.{leb}
use via_tabula.Fs.{FilePath}
use via_tabula.Levels.Ranges.{leb_trans, leb_total}
use via_tabula.Lsm.Recovery.{insert_path, sort}

-- No later name is smaller.
abbrev pub Ascending : List FilePath → Type 0
Ascending [] = Unit
Ascending (p ∷ paths) =
    All (λ (q : FilePath). leb p.file_name q.file_name ≡ true) paths × Ascending paths

insert_path_cases :
    (p q : FilePath) (paths : List FilePath)
    → ((leb p.file_name q.file_name ≡ true) × (insert_path p (q ∷ paths) ≡ p ∷ q ∷ paths))
      ⊎ ((leb p.file_name q.file_name ≡ false)
          × (insert_path p (q ∷ paths) ≡ q ∷ insert_path p paths))
unfolding insert_path
insert_path_cases p q paths = elim (Bool-cases (leb p.file_name q.file_name)) [
  | inl le ↦ inl (le, ground (arith, le))
  | inr gt ↦ inr (gt, ground (arith, gt))
]

pub insert_path-All {κ} :
    (P : FilePath → Type κ) (p : FilePath) (paths : List FilePath)
    → P p
    → All P paths
    → All P (insert_path p paths)
unfolding insert_path
insert_path-All P p [] h a = (h, tt)
insert_path-All P p (q ∷ paths) h a = elim (insert_path_cases p q paths) [
  | inl (le, e) ↦ rw e (h, a)
  | inr (gt, e) ↦ rw e (a.0, insert_path-All P p paths h a.1)
]

insert_path-Perm : (p : FilePath) (paths : List FilePath) → Perm (insert_path p paths) (p ∷ paths)
unfolding insert_path
insert_path-Perm p [] = Perm.rfl
insert_path-Perm p (q ∷ paths) = elim (insert_path_cases p q paths) [
  | inl (le, e) ↦ rw e Perm.rfl
  | inr (gt, e) ↦ rw e (Perm.trans (Perm.cons q (insert_path-Perm p paths)) (Perm.swap p q paths))
]

All-later :
    (p q : FilePath) (paths : List FilePath)
    → leb p.file_name q.file_name ≡ true
    → All (λ (r : FilePath). leb q.file_name r.file_name ≡ true) paths
    → All (λ (r : FilePath). leb p.file_name r.file_name ≡ true) paths
All-later p q [] h a = tt
All-later p q (r ∷ paths) h a =
    (leb_trans p.file_name q.file_name r.file_name h a.0, All-later p q paths h a.1)

insert_path-Ascending :
    (p : FilePath) (paths : List FilePath) → Ascending paths → Ascending (insert_path p paths)
unfolding insert_path
insert_path-Ascending p [] s = (tt, tt)
insert_path-Ascending p (q ∷ paths) s = elim (insert_path_cases p q paths) [
  | inl (le, e) ↦ rw e ((le, All-later p q paths le s.0), s)
  | inr (gt, e) ↦ rw e (
    insert_path-All _ p paths (leb_total p.file_name q.file_name gt) s.0,
    insert_path-Ascending p paths s.1,
  )
]

-- Sorting the tables of a level loses none and adds none, and no later name is smaller, so that the
-- last table of L0 is the one with the largest name.
pub sort-Ascending : (paths : List FilePath) → Perm (sort paths) paths × Ascending (sort paths)
unfolding sort
sort-Ascending [] = (Perm.rfl, tt)
sort-Ascending (p ∷ paths) =
    let (same, s) = sort-Ascending paths in
    (
      Perm.trans (insert_path-Perm p (sort paths)) (Perm.cons p same),
      insert_path-Ascending p (sort paths) s,
    )
