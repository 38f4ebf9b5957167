-- ===== src/SyncEngine/Changes.antt =====
-- Which changes a device is told of: `get_changes` of backend/crates/sync_engine/src/service.rs.
use mathlib.Core.List.{Perm}
use mathlib.Core.Path.{subst}
use Prim.Native.Nat.{min}
use pcos.Prelude.{
  ℕ, ◌≤◌, ◌≡◌, ◌⊎◌, inl, inr, refl, sym, arith, List, [], ◌∷◌, ◌++◌, Option, Bool, true, leb→le,
  Bool-cases, map, length, take, drop, take-append-drop, length-take, All,
}
use pcos.Prelude.Sorting.{insert_by, sort_by, IsSorted, sort-Perm, sort-IsSorted}
use pcos.Files.Table.{Row, select}
use pcos.SyncEngine.{is_newer, is_changed, to_event, get_changes}

module _ {ℓ} {A : Type ℓ} (le : A → A → Bool) where
  length-insert : (a : A) (xs : List A) → length (insert_by le a xs) ≡ length (a ∷ xs)
  length-insert a [] = refl
  length-insert a (b ∷ rest) = elim (Bool-cases (le a b)) [
    | inl e ↦ rw e refl
    | inr e ↦ rw e (omega (arith, length-insert a rest))
  ]

  length-sort : (xs : List A) → length (sort_by le xs) ≡ length xs
  length-sort [] = refl
  length-sort (a ∷ rest) = omega (arith, length-insert a (sort_by le rest), length-sort rest)

newer_total : (a b : Row) → (is_newer a b ≡ true) ⊎ (is_newer b a ≡ true)
newer_total a b = ground arith

IsOlderThan : Row → Row → Type 0
IsOlderThan a r = r.updated_at ≤ a.updated_at

tail-IsSorted : (a : Row) (rows : List Row) → IsSorted is_newer (a ∷ rows) → IsSorted is_newer rows
tail-IsSorted a [] h = tt
tail-IsSorted a (b ∷ rows) (e, h) = h

-- In order, the first is not older than any other.
first-IsNewest :
    (a : Row) (rows : List Row) → IsSorted is_newer (a ∷ rows) → All (IsOlderThan a) rows
unfolding IsOlderThan
first-IsNewest a [] h = tt
first-IsNewest a (b ∷ rows) (e, h) =
    (leb→le _ _ e, older a b rows (leb→le _ _ e) (first-IsNewest b rows h))
  where
    older :
        (a b : Row) (rows : List Row)
        → b.updated_at ≤ a.updated_at
        → All (IsOlderThan b) rows
        → All (IsOlderThan a) rows
    older a b [] h o = tt
    older a b (c ∷ rows) h (here, o) = (omega (arith, h, here), older a b rows h o)

back-All :
    (a : Row) (page rest : List Row) → All (IsOlderThan a) (page ++ rest) → All (IsOlderThan a) rest
back-All a [] rest h = h
back-All a (b ∷ page) rest (x, h) = back-All a page rest h

page-IsNewest :
    (page rest : List Row)
    → IsSorted is_newer (page ++ rest)
    → All (λ a. All (IsOlderThan a) rest) page
page-IsNewest [] rest h = tt
page-IsNewest (a ∷ page) rest h = (
  back-All a page rest (first-IsNewest a (page ++ rest) h),
  page-IsNewest page rest (tail-IsSorted a (page ++ rest) h),
)

front-IsSorted : (page rest : List Row) → IsSorted is_newer (page ++ rest) → IsSorted is_newer page
front-IsSorted [] rest h = tt
front-IsSorted (a ∷ []) rest h = tt
front-IsSorted (a ∷ b ∷ page) rest (e, h) = (e, front-IsSorted (b ∷ page) rest h)

-- The changed entries fall into a page and a rest. The answer is the page, newest first; it holds all of them up to 1000
-- and 1000 of them otherwise, and no entry of the rest was changed later than one of the page.
pub get_changes_lem :
    (user now : ℕ) (since : Option ℕ) (files : List Row)
    → let changed = select (is_changed user now since) files in
      (page : List Row) × (rest : List Row) × (get_changes user now since files ≡ map to_event page)
      × Perm (page ++ rest) changed
      × (length page ≡ min 1000 (length changed))
      × IsSorted is_newer page
      × All (λ a. All (λ (r : Row). r.updated_at ≤ a.updated_at) rest) page
unfolding get_changes IsOlderThan
get_changes_lem user now since files =
    let changed = select (is_changed user now since) files in
    let sorted = sort_by is_newer changed in
    let split = take-append-drop 1000 sorted in
    let in_order =
      subst (IsSorted is_newer) (sym split) (sort-IsSorted is_newer newer_total changed) in
    (
      take 1000 sorted,
      drop 1000 sorted,
      refl,
      subst (λ xs. Perm xs changed) (sym split) (sort-Perm is_newer changed),
      omega (arith, length-take 1000 sorted, length-sort is_newer changed),
      front-IsSorted (take 1000 sorted) (drop 1000 sorted) in_order,
      page-IsNewest (take 1000 sorted) (drop 1000 sorted) in_order,
    )
