-- ===== src/Files/Service/Queries.antt =====
-- Users are kept apart: the calls of backend/crates/file_metadata/src/service.rs that walk the tree, and then
-- any call.
use mathlib.Core.List.{Memᴰ}
use mathlib.Core.Path.{subst}
use pcos.Prelude.{
  ℕ, ◌≡◌, ◌≢◌, ◌⊎◌, inl, inr, refl, sym, ap, ◌∙◌, arith, List, [], ◌∷◌, Option, none, some, ◌==◌,
  ==_iff, Text, length, Bool-cases,
}
use pcos.Common.Error.{AppError}
use pcos.Common.Result.{AppResult, ok, err, bind_ok}
use pcos.Common.Digest.{Hasher}
use pcos.Files.Table.{Row, commit, select, ids_of, update_where, descendants}
use pcos.Files.Service.{Store, to_response, verify_ownership}
use pcos.Files.Service.Trash.{
  is_marked, into_trash, out_of_trash, settle_query, update_below, nothing_left, delete_item,
  in_trash, restored, restore_found, restore_from_trash, purge, purge_all, with_answer,
  permanent_delete, empty_trash,
}
use pcos.Files.Service.Subtree.{Has, Has-cases, select_from}
use pcos.Files.Service.Calls.{
  Call, creates, uploads, completes, renames, moves, trashes, restores, deletes, empties,
  after_query, step,
}
use pcos.Files.Service.Owned.{
  HasParent, IsOwned, rows_of, Keeps, keyed_same, split_and, commit_ok, update-Keeps,
}
use pcos.Files.Service.Purging.{query_owned, remove-Keeps}
use pcos.Files.Service.Isolation.{
  some_store, second, settle-Keeps, create_keeps, upload_keeps, complete_keeps, item_mine,
  rename_keeps, move_keeps,
}

Result-cases : (m : AppResult Row) → ((r : Row) × (m ≡ ok r)) ⊎ ((e : AppError) × (m ≡ err e))
Result-cases (ok r) = inl (r, refl)
Result-cases (err e) = inr (e, refl)

module _ (user other : ℕ) (differ : user ≢ other) (s : Store) (owned : IsOwned s.rows) where
  abbrev KeepsHere : Store → Type 0
  KeepsHere after = Keeps other s.rows after.rows

  found_mine :
      (item : ℕ) (r : Row)
      → verify_ownership user item s.rows ≡ ok r
      → (x : Row) → Memᴰ x s.rows
      → Has x.id (item ∷ [])
      → x.user_id ≡ user
  found_mine item r v x m f = elim (Has-cases x.id item [] f) [
    | inl e ↦ item_mine user other differ s owned item r x v m ((==_iff x.id item).1 (sym e))
    | inr t ↦ absurd (ground arith)
  ]

  -- What the query of an item's descendants finds is the user's.
  query_mine :
      (rounds item : ℕ) (r : Row) (ids : List ℕ)
      → verify_ownership user item s.rows ≡ ok r
      → descendants rounds s.rows (item ∷ []) ≡ some ids
      → (x : Row) → Memᴰ x s.rows
      → Has x.id ids
      → x.user_id ≡ user
  query_mine rounds item r ids v d =
      query_owned s.rows user owned rounds (item ∷ []) ids d (found_mine item r v)

  -- An `UPDATE` of what is below the item.
  marked-Keeps :
      (f : Row → Row) (rounds item : ℕ) (r : Row) (ids : List ℕ) (rows : List Row)
      → ((x : Row) → (f x).id ≡ x.id)
      → ((x : Row) → (f x).user_id ≡ x.user_id)
      → ((x : Row) → (f x).parent_id ≡ x.parent_id)
      → verify_ownership user item s.rows ≡ ok r
      → descendants rounds s.rows (item ∷ []) ≡ some ids
      → commit (update_where (is_marked ids) f s.rows) ≡ ok rows
      → Keeps other s.rows rows
  marked-Keeps f rounds item r ids rows same_id same_user above v d c =
      let (same, keyed) = commit_ok _ rows c in
      subst (Keeps other s.rows) same (
        update-Keeps user other differ (is_marked ids) f s.rows owned keyed same_id same_user
          (λ x m t p.
            subst (λ o. HasParent s.rows (f x).user_id o) (sym (above x))
              (subst (λ w. HasParent s.rows w x.parent_id) (sym (same_user x)) p))
          (λ x m t. query_mine rounds item r ids v d x m t))

  trash_keeps :
      (rounds item now : ℕ) (r : Row) (o : Option (List ℕ)) (after : Store)
      → verify_ownership user item s.rows ≡ ok r
      → descendants rounds s.rows (item ∷ []) ≡ o
      → after_query (settle_query s (nothing_left (update_below (into_trash now) s.rows o)))
        ≡ some after
      → KeepsHere after
  trash_keeps rounds item now r none after v d h = absurd (ground arith)
  trash_keeps rounds item now r (some ids) after v d h = subst KeepsHere (some_store h) (
      settle-Keeps user other differ s owned _ (λ a rows m.
        let (rows', c, same) =
          bind_ok (commit (update_where (is_marked ids) (into_trash now) s.rows)) (λ l. ok (tt, l))
            (a, rows) m in
        marked-Keeps (into_trash now) rounds item r ids rows (λ x. refl) (λ x. refl) (λ x. refl) v d
          (c ∙ ap ok (second same))))

  restore_keeps :
      (rounds item now : ℕ) (r : Row) (o : Option (List ℕ)) (after : Store)
      → verify_ownership user item s.rows ≡ ok r
      → descendants rounds s.rows (item ∷ []) ≡ o
      → after_query (settle_query s (restored now r (update_below (out_of_trash now) s.rows o)))
        ≡ some after
      → KeepsHere after
  restore_keeps rounds item now r none after v d h = absurd (ground arith)
  restore_keeps rounds item now r (some ids) after v d h = subst KeepsHere (some_store h) (
      settle-Keeps user other differ s owned _ (λ a rows m.
        let (rows', c, same) =
          bind_ok (commit (update_where (is_marked ids) (out_of_trash now) s.rows))
            (λ l. ok (to_response (out_of_trash now r), l)) (a, rows) m in
        marked-Keeps (out_of_trash now) rounds item r ids rows (λ x. refl) (λ x. refl) (λ x. refl) v
          d (c ∙ ap ok (second same))))

  purge_keeps {ℓ} :
      {A : Type ℓ} (answer : A) (rounds : ℕ) (gone : List Row) (found : List ℕ)
      (o : Option (List ℕ)) (after : Store)
      → descendants rounds s.rows found ≡ o
      → ((x : Row) → Memᴰ x s.rows → Has x.id found → x.user_id ≡ user)
      → after_query (with_answer answer (purge gone s o)) ≡ some after
      → KeepsHere after
  purge_keeps answer rounds gone found none after d mine h = absurd (ground arith)
  purge_keeps answer rounds gone found (some ids) after d mine h =
      subst KeepsHere (some_store h)
        (remove-Keeps s.rows user owned rounds found ids d other differ mine)

  delete_keeps :
      (rounds item now : ℕ) (after : Store)
      → after_query (delete_item rounds user item now s) ≡ some after
      → KeepsHere after
  unfolding delete_item
  delete_keeps rounds item now after h = elim (Result-cases (verify_ownership user item s.rows)) [
    | inl (r, v) ↦
        trash_keeps rounds item now r (descendants rounds s.rows (item ∷ [])) after v refl
          (rw (v, delete_item) at h)
    | inr (e, v) ↦ subst KeepsHere (some_store (rw (v, delete_item) at h)) (owned, refl)
  ]

  restore_found_keeps :
      (rounds item now : ℕ) (r : Row) (after : Store)
      → verify_ownership user item s.rows ≡ ok r
      → after_query (restore_found rounds item now r s) ≡ some after
      → KeepsHere after
  restore_found_keeps rounds item now r after v h = elim (Bool-cases r.is_trashed) [
    | inr e ↦ subst KeepsHere (some_store (rw e at h)) (owned, refl)
    | inl e ↦
        restore_keeps rounds item now r (descendants rounds s.rows (item ∷ [])) after v refl
          (rw e at h)
  ]

  restore_from_trash_keeps :
      (rounds item now : ℕ) (after : Store)
      → after_query (restore_from_trash rounds user item now s) ≡ some after
      → KeepsHere after
  unfolding restore_from_trash
  restore_from_trash_keeps rounds item now after h =
      elim (Result-cases (verify_ownership user item s.rows)) [
        | inl (r, v) ↦
            restore_found_keeps rounds item now r after v (rw (v, restore_from_trash) at h)
        | inr (e, v) ↦ subst KeepsHere (some_store (rw (v, restore_from_trash) at h)) (owned, refl)
      ]

  purge_all_keeps :
      (rounds item : ℕ) (r : Row) (o : Option (List ℕ)) (after : Store)
      → verify_ownership user item s.rows ≡ ok r
      → descendants rounds s.rows (item ∷ []) ≡ o
      → after_query (with_answer (tt {0}) (purge_all s o)) ≡ some after
      → KeepsHere after
  purge_all_keeps rounds item r none after v d h = absurd (ground arith)
  purge_all_keeps rounds item r (some ids) after v d h =
      purge_keeps (tt {0}) rounds (select (is_marked ids) s.rows) (item ∷ []) (some ids) after d
        (found_mine item r v) h

  permanent_delete_keeps :
      (rounds item : ℕ) (after : Store)
      → after_query (permanent_delete rounds user item s) ≡ some after
      → KeepsHere after
  unfolding permanent_delete
  permanent_delete_keeps rounds item after h =
      elim (Result-cases (verify_ownership user item s.rows)) [
        | inr (e, v) ↦ subst KeepsHere (some_store (rw (v, permanent_delete) at h)) (owned, refl)
        | inl (r, v) ↦ elim (Bool-cases r.is_trashed) [
          | inr e ↦ subst KeepsHere (some_store (rw (v, permanent_delete, e) at h)) (owned, refl)
          | inl e ↦
              purge_all_keeps rounds item r (descendants rounds s.rows (item ∷ [])) after v refl
                (rw (v, permanent_delete, e) at h)
        ]
      ]

  trashed_mine :
      (x : Row)
      → Memᴰ x s.rows
      → Has x.id (ids_of (select (in_trash user) s.rows))
      → x.user_id ≡ user
  trashed_mine x m f =
      let (r, mr, t, i) = select_from (in_trash user) x.id s.rows f in
      let twins = keyed_same r x s.rows mr m i owned.0 in
      let (mine, trashed) = split_and (r.user_id == user) r.is_trashed t in
      subst (λ (y : Row). y.user_id ≡ user) twins ((==_iff r.user_id user).0 mine)

  empty_trash_keeps :
      (rounds : ℕ) (after : Store)
      → after_query (empty_trash rounds user s) ≡ some after
      → KeepsHere after
  unfolding empty_trash
  empty_trash_keeps rounds after h =
      let found = select (in_trash user) s.rows in
      purge_keeps (length found) rounds found (ids_of found)
        (descendants rounds s.rows (ids_of found)) after refl trashed_mine h

-- Users are kept apart. Where identifiers are unique and every row has its parent among its user's rows, a
-- call of one user that ends keeps that so, and leaves the rows of every other user as they were.
pub step_lem :
    (H : Hasher) (show : ℕ → Text) (guess : Text → Text) (rounds user other now : ℕ) (call : Call)
    (s after : Store)
    → user ≢ other
    → IsOwned s.rows
    → step H show guess rounds user now call s ≡ some after
    → IsOwned after.rows × (rows_of other after.rows ≡ rows_of other s.rows)
unfolding step
step_lem H show guess rounds user other now (creates parent name new_id) s after n o h =
    subst (λ (a : Store). Keeps other s.rows a.rows) (some_store h)
      (create_keeps user other n s o parent name new_id now)
step_lem H show guess rounds user other now (uploads parent name mime bytes new_id) s after n o h =
    subst (λ (a : Store). Keeps other s.rows a.rows) (some_store h)
      (upload_keeps user other n s o H show parent name mime bytes new_id now)
step_lem H show guess rounds user other now (completes parent name upload size chunks new_id) s
      after n o h =
    subst (λ (a : Store). Keeps other s.rows a.rows) (some_store h)
      (complete_keeps user other n s o H show guess parent name upload size chunks new_id now)
step_lem H show guess rounds user other now (renames item name) s after n o h =
    subst (λ (a : Store). Keeps other s.rows a.rows) (some_store h)
      (rename_keeps user other n s o item name now)
step_lem H show guess rounds user other now (moves item target) s after n o h =
    subst (λ (a : Store). Keeps other s.rows a.rows) (some_store h)
      (move_keeps user other n s o item target now)
step_lem H show guess rounds user other now (trashes item) s after n o h =
    delete_keeps user other n s o rounds item now after h
step_lem H show guess rounds user other now (restores item) s after n o h =
    restore_from_trash_keeps user other n s o rounds item now after h
step_lem H show guess rounds user other now (deletes item) s after n o h =
    permanent_delete_keeps user other n s o rounds item after h
step_lem H show guess rounds user other now empties s after n o h =
    empty_trash_keeps user other n s o rounds after h
