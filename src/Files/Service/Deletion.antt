-- ===== src/Files/Service/Deletion.antt =====
-- What `delete_item` of backend/crates/file_metadata/src/service.rs does to the table.
use pcos.Prelude.{
  ℕ, ◌≤◌, ◌≡◌, ◌⊎◌, ◌↔◌, inl, inr, refl, sym, ap, ◌∙◌, arith, List, [], ◌∷◌, Option, none, some,
  true, false, ◌&&◌, Bool-cases, Option-cases, all,
}
use pcos.Common.Error.{AppError, database, not_found}
use pcos.Common.Result.{AppResult, ok, err}
use pcos.Files.Table.{
  Row, find_row, has_id, is_unique, is_keyed, fits, commit, update_where, descendants,
}
use pcos.Files.Service.{Store, verify_ownership}
use pcos.Files.Service.Trash.{
  is_marked, into_trash, settle_query, update_below, nothing_left, delete_item,
}
use pcos.Files.Service.Subtree.{Has, Below, descendants_exact}
use pcos.Files.Service.Forest.{IsForest, query_ends}

-- Two lists of rows, one by one.
abbrev pub Each : (Row → Row → Type 0) → List Row → List Row → Type 0
Each R [] [] = Unit
Each R [] (b ∷ bs) = ⊥
Each R (a ∷ rows) [] = ⊥
Each R (a ∷ rows) (b ∷ bs) = R a b × Each R rows bs

-- A row below the item changes as told, another one stays.
abbrev pub ChangesBelow : (Row → Row) → List Row → ℕ → Row → Row → Type 0
ChangesBelow f rows item before after =
    (Below rows item before.id × (after ≡ f before))
    ⊎ ((¬ Below rows item before.id) × (after ≡ before))

Each-update :
    (f : Row → Row) (ids : List ℕ) (rows : List Row) (item : ℕ) (some_rows : List Row)
    → ((x : ℕ) → Has x ids ↔ Below rows item x)
    → Each (ChangesBelow f rows item) some_rows (update_where (is_marked ids) f some_rows)
unfolding update_where
Each-update f ids rows item [] exact = tt
Each-update f ids rows item (r ∷ some_rows) exact = elim (Bool-cases (has_id r.id ids)) [
  | inl e ↦ rw e (inl ((exact r.id).0 e, refl), Each-update f ids rows item some_rows exact)
  | inr e ↦ rw e (
    inr ((λ below. let same : true ≡ false = sym ((exact r.id).1 below) ∙ e in ground arith), refl),
    Each-update f ids rows item some_rows exact,
  )
]

pub commit_cases :
    (rows : List Row) → (commit rows ≡ ok rows) ⊎ ((e : AppError) × (commit rows ≡ err e))
unfolding commit
commit_cases rows = elim (Bool-cases (is_unique rows && is_keyed rows && all fits rows)) [
  | inl e ↦ inl (rw e refl)
  | inr e ↦ inr (database "constraint", rw e refl)
]

-- What `delete_item` answers: the item is not the user's, or the database refuses the new rows, and then the
-- store is as it was; or the rows below the item are in the trash and every other row is as it was.
abbrev pub Deletes : ℕ → ℕ → ℕ → Store → AppResult (Unit {0}) × Store → Type 0
Deletes user item now s result =
    ((find_row user item s.rows ≡ none) × (result ≡ (err (not_found "Item not found"), s)))
    ⊎ (((e : AppError) × (result ≡ (err e, s)))
        ⊎ ((rows : List Row) × (result ≡ (ok tt, record s { rows = rows }))
            × Each (ChangesBelow (into_trash now) s.rows item) s.rows rows))

module _ (rounds user item now : ℕ) (s : Store) where
  abbrev changed : AppResult (List Row) → Option (AppResult (Unit {0}) × Store)
  changed result = settle_query s (nothing_left (some result))

  delete_not_found :
      find_row user item s.rows ≡ none
      → delete_item rounds user item now s ≡ some (err (not_found "Item not found"), s)
  unfolding delete_item verify_ownership
  delete_not_found e = rw (delete_item, verify_ownership, e) refl

  delete_found :
      (r : Row) (ids : List ℕ)
      → find_row user item s.rows ≡ some r
      → descendants rounds s.rows (item ∷ []) ≡ some ids
      → delete_item rounds user item now s
        ≡ changed (commit (update_where (is_marked ids) (into_trash now) s.rows))
  unfolding delete_item verify_ownership
  delete_found r ids e d =
      rw (delete_item, verify_ownership, e)
        (ap (λ o. settle_query s (nothing_left (update_below (into_trash now) s.rows o))) d)

  -- Deleting an item ends, and takes what is below it. Where the folders have no cycle, each row being deeper
  -- than its parent and less deep than the bound, and as many rounds as the bound are allowed,
  -- `delete_item` answers: the item is not the user's, or the database refuses, and the store is as it was;
  -- or exactly the rows below the item are in the trash and every other row is as it was.
  pub delete_item_lem :
      (depth : ℕ → ℕ) (bound : ℕ)
      → IsForest depth bound s.rows
      → bound ≤ rounds
      → (result : AppResult (Unit {0}) × Store) × (delete_item rounds user item now s ≡ some result)
        × Deletes user item now s result
  delete_item_lem depth bound forest enough = elim (Option-cases (find_row user item s.rows)) [
    | inl e ↦ (_, delete_not_found e, inl (e, refl))
    | inr (r, e) ↦
        let (ids, d) = query_ends depth bound s.rows forest user item rounds r e enough in
        let rows = update_where (is_marked ids) (into_trash now) s.rows in
        elim (commit_cases rows) [
          | inr (f, c) ↦ ((err f, s), delete_found r ids e d ∙ ap changed c, inr (inl (f, refl)))
          | inl c ↦ (
            (ok tt, record s { rows = rows }),
            delete_found r ids e d ∙ ap changed c,
            inr (
                inr (
                  rows,
                  refl,
                  Each-update (into_trash now) ids s.rows item s.rows
                      (descendants_exact s.rows item rounds ids d),
                )),
          )
        ]
  ]
