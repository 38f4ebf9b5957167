-- ===== src/Files/Service/Isolation.antt =====
-- Users are kept apart: every call of backend/crates/file_metadata/src/service.rs.
use mathlib.Core.List.{Memᴰ}
use mathlib.Core.Path.{subst}
use pcos.Prelude.{
  ℤ, ℕ, ◌≡◌, ◌≢◌, ◌⊎◌, inl, inr, refl, sym, ap, ◌∙◌, arith, List, [], ◌∷◌, ◌++◌, Option, none, some,
  true, not, ◌&&◌, ◌==◌, ==_iff, any, Text, length,
}
use pcos.Common.Error.{AppError, conflict, validation}
use pcos.Common.Result.{AppResult, ok, err, ◌>>=◌, ◌>>◌, reject_if, bind_ok}
use pcos.Common.Digest.{Hasher}
use pcos.Files.Storage.{Disk, Assembled, assemble_chunks}
use pcos.Files.Table.{Row, commit, find_row, is_item, update_where}
use pcos.Files.Service.{
  Store, FileEntryResponse, to_response, settle, or_missing, verify_ownership, verify_parent,
  is_named, new_folder, create_folder, check_storage_quota, insert_file, check_upload, upload_file,
  insert_assembled, complete_chunked_upload, is_folder, with_name, rename_item, with_parent,
  check_target, move_item,
}
use pcos.Files.Service.Forest.{find_row_lem}
use pcos.Files.Service.Owned.{
  HasParent, IsOwned, Keeps, keyed_same, commit_ok, insert-Keeps, update-Keeps,
}

-- The parts of an operation that succeeds.
abbrev three_steps {ℓ κ} :
    {E : Type ℓ} {X : Type κ}
    → AppResult E
    → (E → AppResult (Unit {0}))
    → (E → AppResult (List Row))
    → (E → X)
    → AppResult (X × List Row)
three_steps v b c x = v >>= λ e. (b e >> (c e >>= λ r. ok (x e, r)))

pub second {ℓ} :
    {X : Type ℓ} {x y : X} {r rows : List Row}
    → ◌≡◌ {A = AppResult (X × List Row)} (ok (x, r)) (ok (y, rows))
    → r ≡ rows
second h = cc

steps_ok {ℓ κ} :
    {E : Type ℓ} {X : Type κ} (v : AppResult E) (b : E → AppResult (Unit {0}))
    (c : E → AppResult (List Row)) (x : E → X) (y : X) (rows : List Row)
    → three_steps v b c x ≡ ok (y, rows)
    → (e : E) × (v ≡ ok e) × (b e ≡ ok tt) × (c e ≡ ok rows)
steps_ok (err f) b c x y rows h = absurd (ground arith)
steps_ok (ok e) b c x y rows h =
    let (u, hb, h') = bind_ok (b e) (λ w. c e >>= λ r. ok (x e, r)) (y, rows) h in
    let (r, hc, same) = bind_ok (c e) (λ r. ok (x e, r)) (y, rows) h' in
    (e, refl, hb, hc ∙ ap ok (second same))

found_ok :
    (user item : ℕ) (rows : List Row) (r : Row)
    → verify_ownership user item rows ≡ ok r
    → Memᴰ r rows × (r.id ≡ item) × (r.user_id ≡ user)
unfolding verify_ownership
found_ok user item rows r h = find_row_lem user item rows r (missing_or (find_row user item rows) h)
  where
    missing_or : (o : Option Row) → or_missing o ≡ ok r → o ≡ some r
    missing_or none h = absurd (ground arith)
    missing_or (some x) h = cc

parent_ok :
    (user : ℕ) (o : Option ℕ) (rows : List Row)
    → verify_parent user o rows ≡ ok tt
    → HasParent rows user o
unfolding verify_parent
parent_ok user none rows h = tt
parent_ok user (some p) rows h =
    let (r, v, u) = bind_ok (verify_ownership user p rows) (λ r. ok tt) tt h in
    let (m, i, w) = found_ok user p rows r v in (r, m, i, w)

target_ok :
    (user item : ℕ) (o : Option ℕ) (rows : List Row)
    → check_target user item o rows ≡ ok tt
    → HasParent rows user o
unfolding check_target
target_ok user item none rows h = tt
target_ok user item (some p) rows h =
    let (t, v, u) =
      bind_ok (verify_ownership user p rows)
        (λ t.
          reject_if (not (is_folder t)) (validation "Target must be a folder")
          >> reject_if (item == p) (validation "Cannot move a folder into itself"))
        tt h in
    let (m, i, w) = found_ok user p rows t v in (t, m, i, w)

pub some_store : {a b : Store} → some a ≡ some b → a ≡ b
some_store h = cc

module _ (user other : ℕ) (differ : user ≢ other) (s : Store) (owned : IsOwned s.rows) where
  abbrev pub KeepsTo : Store → Type 0
  KeepsTo after = Keeps other s.rows after.rows

  pub same_store : KeepsTo s
  same_store = (owned, refl)

  pub settle-Keeps {ℓ} :
      {A : Type ℓ} (m : AppResult (A × List Row))
      → ((a : A) (rows : List Row) → m ≡ ok (a, rows) → Keeps other s.rows rows)
      → KeepsTo (settle s m).1
  settle-Keeps (err e) f = same_store
  settle-Keeps (ok (a, rows)) f = f a rows refl

  inserted :
      (r : Row) (rows : List Row)
      → r.user_id ≡ user
      → HasParent s.rows r.user_id r.parent_id
      → commit (s.rows ++ r ∷ []) ≡ ok rows
      → Keeps other s.rows rows
  inserted r rows u p c =
      let (same, keyed) = commit_ok (s.rows ++ r ∷ []) rows c in
      subst (Keeps other s.rows) same (insert-Keeps user other differ s.rows r owned keyed u p)

  pub create_keeps :
      (parent : Option ℕ) (name : Text) (new_id now : ℕ)
      → KeepsTo (create_folder user parent name new_id now s).1
  unfolding create_folder
  create_keeps parent name new_id now =
      let r = new_folder user parent name new_id now in
      settle-Keeps _ (λ a rows h.
        let (u, v, b, c) =
          steps_ok (verify_parent user parent s.rows)
            (λ e.
              reject_if (any (is_named user parent name) s.rows)
                (conflict "An item with this name already exists here"))
            (λ e. commit (s.rows ++ r ∷ [])) (λ e. to_response r) a rows h in
        inserted r rows refl (parent_ok user parent s.rows v) c)

  guarded :
      (c : AppResult (Unit {0})) (inner : AppResult FileEntryResponse × Store)
      → (c ≡ ok tt → KeepsTo inner.1)
      → KeepsTo
          (elim c as (λ x. AppResult FileEntryResponse × Store) [
            | err e ↦ (err e, s)
            | ok u ↦ inner
          ]).1
  guarded (err e) inner f = same_store
  guarded (ok u) inner f = f refl

  upload_parent :
      (parent : Option ℕ) (size : ℕ)
      → check_upload user parent size s ≡ ok tt
      → HasParent s.rows user parent
  upload_parent parent size h =
      let (u, v, q) =
        bind_ok (verify_parent user parent s.rows) (λ w. check_storage_quota user size s) tt h in
      parent_ok user parent s.rows v

  insert_file_keeps :
      (r : Row) (disk : Disk)
      → r.user_id ≡ user
      → HasParent s.rows r.user_id r.parent_id
      → KeepsTo (insert_file r (record s { disk = disk })).1
  insert_file_keeps r disk u p = elim (Commit-cases (commit (s.rows ++ r ∷ []))) [
    | inl (rows, c) ↦ rw c (inserted r rows u p c)
    | inr (e, c) ↦ rw c same_store
  ]
    where
      Commit-cases :
          (c : AppResult (List Row))
          → ((rows : List Row) × (c ≡ ok rows)) ⊎ ((e : AppError) × (c ≡ err e))
      Commit-cases (ok rows) = inl (rows, refl)
      Commit-cases (err e) = inr (e, refl)

  module _ (H : Hasher) (show : ℕ → Text) where
    pub upload_keeps :
        (parent : Option ℕ) (name mime : Text) (bytes : List ℕ) (new_id now : ℕ)
        → KeepsTo (upload_file H show user parent name mime bytes new_id now s).1
    unfolding upload_file
    upload_keeps parent name mime bytes new_id now =
        guarded (check_upload user parent (length bytes) s) _
          (λ c. insert_file_keeps _ _ refl (upload_parent parent (length bytes) c))

    pub complete_keeps :
        (guess : Text → Text) (parent : Option ℕ) (name : Text) (upload total_size : ℕ)
        (total_chunks : ℤ) (new_id now : ℕ)
        → KeepsTo
            (complete_chunked_upload H show guess user parent name upload total_size total_chunks
              new_id now s).1
    unfolding complete_chunked_upload
    complete_keeps guess parent name upload total_size total_chunks new_id now =
        guarded (check_upload user parent total_size s) _
          (λ c. assembled (assemble_chunks H show user upload new_id total_chunks s.disk) c)
      where
        assembled :
            (result : Option Assembled × Disk)
            → check_upload user parent total_size s ≡ ok tt
            → KeepsTo (insert_assembled H show user parent name (guess name) new_id now s result).1
        assembled (none, disk) c = same_store
        assembled (some a, disk) c =
            insert_file_keeps _ disk refl (upload_parent parent total_size c)

  -- A row with the identifier of the user's item is that item.
  pub item_mine :
      (item : ℕ) (r x : Row)
      → verify_ownership user item s.rows ≡ ok r
      → Memᴰ x s.rows
      → is_item item x ≡ true
      → x.user_id ≡ user
  item_mine item r x v m t =
      let (mr, i, u) = found_ok user item s.rows r v in
      let twins = keyed_same r x s.rows mr m (i ∙ sym ((==_iff x.id item).0 t)) owned.0 in
      subst (λ (y : Row). y.user_id ≡ user) twins u

  pub rename_keeps :
      (item : ℕ) (name : Text) (now : ℕ) → KeepsTo (rename_item user item name now s).1
  unfolding rename_item
  rename_keeps item name now = settle-Keeps _ (λ a rows h.
      let (r, v, b, c) =
        steps_ok (verify_ownership user item s.rows)
          (λ entry.
            reject_if
              (any (λ x. is_named user entry.parent_id name x && not (is_item item x)) s.rows)
              (conflict "An item with this name already exists"))
          (λ e. commit (update_where (is_item item) (with_name name now) s.rows))
          (λ entry. to_response (with_name name now entry)) a rows h in
      let (same, keyed) = commit_ok _ rows c in
      subst (Keeps other s.rows) same (
        update-Keeps user other differ (is_item item) (with_name name now) s.rows owned keyed
          (λ x. refl) (λ x. refl) (λ x m t p. p) (λ x m t. item_mine item r x v m t)))

  pub move_keeps :
      (item : ℕ) (target : Option ℕ) (now : ℕ) → KeepsTo (move_item user item target now s).1
  unfolding move_item
  move_keeps item target now = settle-Keeps _ (λ a rows h.
      let (r, v, b, c) =
        steps_ok (verify_ownership user item s.rows) (λ entry. check_target user item target s.rows)
          (λ e. commit (update_where (is_item item) (with_parent target now) s.rows))
          (λ entry. to_response (with_parent target now entry)) a rows h in
      let (same, keyed) = commit_ok _ rows c in
      let below = target_ok user item target s.rows b in
      subst (Keeps other s.rows) same (
        update-Keeps user other differ (is_item item) (with_parent target now) s.rows owned keyed
          (λ x. refl) (λ x. refl)
          (λ x m t p. subst (λ w. HasParent s.rows w target) (sym (item_mine item r x v m t)) below)
          (λ x m t. item_mine item r x v m t)))
