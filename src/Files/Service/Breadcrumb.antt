-- ===== src/Files/Service/Breadcrumb.antt =====
-- `build_breadcrumb` of backend/crates/file_metadata/src/service.rs where the folders have no cycles.
use mathlib.Core.Path.{subst}
use pcos.Prelude.{
  ℕ, zero, suc, ◌≤◌, ◌<◌, ◌≡◌, refl, sym, ap, arith, List, [], ◌∷◌, Option, none, some,
  Option-cases, inl, inr,
}
use pcos.Prelude.Members.{all_of_mem}
use pcos.Files.Table.{Row, find_row}
use pcos.Files.Service.{BreadcrumbItem, root_item, ancestors, below_root, build_breadcrumb}
use pcos.Files.Service.Forest.{IsDeeper, IsForest, find_row_lem}

abbrev pub item_of : Row → BreadcrumbItem
item_of r = record { id = some r.id; name = r.name }

-- From a folder upwards: its row, its parent's row and so on, until there is no parent or no row of the user.
pub data Leads (user : ℕ) (rows : List Row) : Option ℕ → List BreadcrumbItem → Type 0 where
  top : Leads user rows none []
  missing : (current : ℕ) → find_row user current rows ≡ none → Leads user rows (some current) []
  up :
      (current : ℕ) (r : Row) (items : List BreadcrumbItem)
      → find_row user current rows ≡ some r
      → Leads user rows r.parent_id items
      → Leads user rows (some current) (item_of r ∷ items)

-- The reverse of a list in front of another.
abbrev pub reverse_onto : List BreadcrumbItem → List BreadcrumbItem → List BreadcrumbItem
reverse_onto [] found = found
reverse_onto (i ∷ items) found = reverse_onto items (i ∷ found)

module _ (user : ℕ) (depth : ℕ → ℕ) (bound : ℕ) (rows : List Row)
    (forest : IsForest depth bound rows) where
  abbrev pub Found : ℕ → Option ℕ → List BreadcrumbItem → Type 0
  Found rounds current found =
      (items : List BreadcrumbItem) × (ancestors rounds user rows current found
        ≡ some (reverse_onto items found))
      × Leads user rows current items

  ancestors-none :
      (rounds : ℕ) (found : List BreadcrumbItem)
      → ancestors rounds user rows none found ≡ some found
  unfolding ancestors
  ancestors-none zero found = refl
  ancestors-none (suc rounds) found = refl

  -- One row is found, and less deep ones are to come.
  ancestors_end :
      (rounds : ℕ) (current : Option ℕ) (found : List BreadcrumbItem)
      → IsDeeper depth current rounds
      → Found rounds current found
  unfolding ancestors
  ancestors_end rounds none found h = ([], ancestors-none rounds found, top)
  ancestors_end zero (some current) found h = absurd (omega (arith, h))
  ancestors_end (suc rounds) (some current) found h =
      elim (Option-cases (find_row user current rows)) [
        | inl e ↦ ([], rw (e, ancestors) refl, missing current e)
        | inr (r, e) ↦
            let (m, i, u) = find_row_lem user current rows r e in
            let (deeper, high) =
              all_of_mem
                (λ (s : Row). IsDeeper depth s.parent_id (depth s.id) × (depth s.id < bound)) m
                forest in
            let low : depth r.id ≤ rounds =
              omega (arith, subst (λ x. depth x < suc rounds) (sym i) h) in
            let (items, a, leads) =
              ancestors_end rounds r.parent_id (item_of r ∷ found)
                (weaken r.parent_id (depth r.id) low deeper) in
            (item_of r ∷ items, rw (e, ancestors) a, up current r items e leads)
      ]
    where
      weaken : (o : Option ℕ) (d : ℕ) {n : ℕ} → d ≤ n → IsDeeper depth o d → IsDeeper depth o n
      weaken none d low h = tt
      weaken (some p) d low h = omega (arith, low, h)

  -- The path to a folder is found. Where the folders have no cycle and a row of the user's is given, with as
  -- many rounds as the bound `build_breadcrumb` ends, and its items are the root and then, from the top,
  -- the rows that lead from the given one upwards.
  pub build_breadcrumb_lem :
      (rounds item : ℕ) (r : Row)
      → find_row user item rows ≡ some r
      → bound ≤ rounds
      → (items : List BreadcrumbItem) × (build_breadcrumb rounds user (some item) rows
          ≡ some (root_item ∷ reverse_onto items []))
        × Leads user rows (some item) items
  unfolding build_breadcrumb
  build_breadcrumb_lem rounds item r e enough =
      let (m, i, u) = find_row_lem user item rows r e in
      let (deeper, high) =
        all_of_mem (λ (s : Row). IsDeeper depth s.parent_id (depth s.id) × (depth s.id < bound)) m
          forest in
      let (items, a, leads) =
        ancestors_end rounds (some item) []
          (omega (arith, enough, subst (λ x. depth x < bound) i high)) in
      (items, ap below_root a, leads)
