-- ===== src/Files/Service/Cycle.antt =====
-- A folder moved into one of its own folders: `move_item` of backend/crates/file_metadata/src/service.rs.
use mathlib.Core.Path.{subst}
use pcos.Prelude.{
  ℕ, zero, suc, ◌≡◌, ◌≢◌, ◌⊎◌, inl, inr, refl, sym, ap, ◌∙◌, arith, List, [], ◌∷◌, Option, none,
  some, true, false, ◌&&◌, ◌==◌, ==_iff, Bool-cases, if◌then◌else◌,
}
use pcos.Common.Result.{ok}
use pcos.Files.Table.{
  Row, commit, find_row, is_item, is_child_of, update_where, children, joined, descendants,
}
use pcos.Files.Service.{
  Store, FileEntryResponse, BreadcrumbItem, to_response, verify_ownership, is_folder, ancestors,
  below_root, build_breadcrumb, with_parent, check_target, move_item,
}
use pcos.Files.Service.Trash.{delete_item, settle_query, nothing_left, update_below, into_trash}
use pcos.Files.Service.Subtree.{Has, Has-head, children-Has}
use pcos.Files.Service.Forest.{find_row_lem}

some_injective : {a b : Row} → some a ≡ some b → a ≡ b
some_injective h = cc

differs : (a b : ℕ) → a ≢ b → (a == b) ≡ false
differs a b n = elim (Bool-cases (a == b)) [ inr e ↦ e | inl e ↦ absurd (n ((==_iff a b).0 e)) ]

-- The rows after the item got a new parent.
module _ (user item : ℕ) (target : Option ℕ) (now : ℕ) where
  abbrev pub moved : List Row → List Row
  moved rows = update_where (is_item item) (with_parent target now) rows

  find_moved :
      (rows : List Row) (r : Row)
      → find_row user item rows ≡ some r
      → find_row user item (moved rows) ≡ some (with_parent target now r)
  unfolding find_row update_where
  find_moved [] r h = absurd (ground arith)
  find_moved (s ∷ rows) r h = elim (Bool-cases (s.id == item)) [
    | inr e ↦ rw (e, find_row, e) (find_moved rows r (rw e at h))
    | inl e ↦ elim (Bool-cases (s.user_id == user)) [
      | inr f ↦ rw (e, find_row, e, f) (find_moved rows r (rw (e, f) at h))
      | inl f ↦
          let same : s ≡ r = some_injective (rw (e, f) at h) in
          rw (e, find_row, e, f) (ap (λ x. some (with_parent target now x)) same)
    ]
  ]

  find_other :
      (other : ℕ) (rows : List Row)
      → item ≢ other
      → find_row user other (moved rows) ≡ find_row user other rows
  unfolding find_row update_where
  find_other other [] n = refl
  find_other other (s ∷ rows) n = elim (Bool-cases (s.id == item)) [
    | inl e ↦
        let differ : (s.id == other) ≡ false =
          differs s.id other (λ h. n (sym ((==_iff s.id item).0 e) ∙ h)) in
        rw (e, find_row, differ) (find_other other rows n)
    | inr e ↦
        rw (e, find_row)
          (ap (λ o. if (s.id == other) && (s.user_id == user) then some s else o)
            (find_other other rows n))
  ]

-- Two rows that are each other's parent.
module _ (user item child : ℕ) (rows : List Row) (a b : Row) (ha : find_row user item rows ≡ some a)
    (hb : find_row user child rows ≡ some b) (pa : a.parent_id ≡ some child)
    (pb : b.parent_id ≡ some item) where
  -- Going up from either of them does not end.
  ancestors_loop :
      (rounds : ℕ) (found : List BreadcrumbItem)
      → (ancestors rounds user rows (some item) found ≡ none)
        × (ancestors rounds user rows (some child) found ≡ none)
  unfolding ancestors
  ancestors_loop zero found = (refl, refl)
  ancestors_loop (suc rounds) found = (
    rw (ha, ancestors, pa)
        (ancestors_loop rounds (record { id = some a.id; name = a.name } ∷ found)).1,
    rw (hb, ancestors, pb)
        (ancestors_loop rounds (record { id = some b.id; name = b.name } ∷ found)).0,
  )

  is_child_eq : (p : ℕ) (r : Row) → r.parent_id ≡ some p → is_child_of p r ≡ true
  is_child_eq p r h = rw h (ground arith)

  next-Has :
      (found : List ℕ)
      → (Has item found ⊎ Has child found)
      → (Has item (children rows found) ⊎ Has child (children rows found))
  next-Has found (inl h) =
      let (m, i, u) = find_row_lem user child rows b hb in
      inr (
        subst (λ x. Has x (children rows found)) i
          (children-Has rows found b item m (is_child_eq item b pb) h))
  next-Has found (inr h) =
      let (m, i, u) = find_row_lem user item rows a ha in
      inl (
        subst (λ x. Has x (children rows found)) i
          (children-Has rows found a child m (is_child_eq child a pa) h))

  -- Nor does the query of what is below them.
  descendants_loop :
      (rounds : ℕ) (found : List ℕ)
      → (Has item found ⊎ Has child found)
      → descendants rounds rows found ≡ none
  unfolding descendants
  descendants_loop rounds [] (inl h) = absurd (ground arith)
  descendants_loop rounds [] (inr h) = absurd (ground arith)
  descendants_loop zero (d ∷ found) h = refl
  descendants_loop (suc rounds) (d ∷ found) h =
      ap (joined (d ∷ found))
        (descendants_loop rounds (children rows (d ∷ found)) (next-Has (d ∷ found) h))

  breadcrumb_loops : (rounds : ℕ) → build_breadcrumb rounds user (some item) rows ≡ none
  unfolding build_breadcrumb
  breadcrumb_loops rounds = ap below_root (ancestors_loop rounds []).0

delete_loops :
    (user item child rounds now : ℕ) (s : Store) (a b : Row)
    → find_row user item s.rows ≡ some a
    → find_row user child s.rows ≡ some b
    → a.parent_id ≡ some child
    → b.parent_id ≡ some item
    → delete_item rounds user item now s ≡ none
unfolding delete_item verify_ownership
delete_loops user item child rounds now s a b ha hb pa pb =
    let loops =
      descendants_loop user item child s.rows a b ha hb pa pb rounds (item ∷ [])
        (inl (Has-head item [])) in
    rw (delete_item, verify_ownership, ha)
      (ap (λ o. settle_query s (nothing_left (update_below (into_trash now) s.rows o))) loops)

-- A folder can be moved into a folder of its own, and then the tree has a cycle. Where a folder of the user
-- has the item as its parent and the database accepts the rows, `move_item` moves the item into it;
-- after that, however many rounds are allowed, neither the path to the item nor deleting it ends.
pub move_into_child_loops :
    (user item child now : ℕ) (s : Store) (a b : Row)
    → find_row user item s.rows ≡ some a
    → find_row user child s.rows ≡ some b
    → item ≢ child
    → is_folder b ≡ true
    → b.parent_id ≡ some item
    → commit (moved user item (some child) now s.rows)
      ≡ ok (moved user item (some child) now s.rows)
    → (r : FileEntryResponse) × (after : Store) × (move_item user item (some child) now s
        ≡ (ok r, after))
      × ((rounds : ℕ) → build_breadcrumb rounds user (some item) after.rows ≡ none)
      × ((rounds later : ℕ) → delete_item rounds user item later after ≡ none)
unfolding move_item check_target verify_ownership
move_into_child_loops user item child now s a b ha hb n folder_b pb accepted =
    let a' = with_parent (some child) now a in
    let rows' = moved user item (some child) now s.rows in
    let ha' = find_moved user item (some child) now s.rows a ha in
    let hb' = find_other user item (some child) now child s.rows n ∙ hb in
    (
      to_response a',
      record s { rows = rows' },
      rw
          (
            move_item,
            verify_ownership,
            ha,
            check_target,
            verify_ownership,
            hb,
            folder_b,
            differs item child n,
            accepted,
          )
          refl,
      (λ rounds. breadcrumb_loops user item child rows' a' b ha' hb' refl pb rounds),
      (λ rounds later.
          delete_loops user item child rounds later (record s { rows = rows' }) a' b ha' hb' refl
            pb),
    )
