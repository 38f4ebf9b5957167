-- ===== src/Files/Service/Trash.antt =====
-- The trash of backend/crates/file_metadata/src/service.rs, and its storage statistics. A row that is deleted
-- takes the rows below it with it: `parent_id … ON DELETE CASCADE`.
use pcos.Prelude.Sorting.{sort_by}
use pcos.Prelude.{
  ℕ, ◌+◌, List, [], ◌∷◌, Option, none, some, Bool, true, false, not, ◌&&◌, leb, ◌==◌, if◌then◌else◌,
  length, Text, text_eq,
}
use pcos.Common.Error.{validation}
use pcos.Common.Result.{AppResult, ok, err, ◌>>=◌}
use pcos.Files.Storage.{Disk}
use pcos.Files.Table.{folder, file, Row, commit, has_id, update_where, select, ids_of, descendants}
use pcos.Files.Service.{
  Store, FileEntryResponse, to_response, to_responses, settle, verify_ownership,
}

abbrev pub is_marked : List ℕ → Row → Bool
is_marked ids r = has_id r.id ids

abbrev pub into_trash : ℕ → Row → Row
into_trash now r = record r { is_trashed = true; trashed_at = some now; updated_at = now }

abbrev pub out_of_trash : ℕ → Row → Row
out_of_trash now r = record r { is_trashed = false; trashed_at = none; updated_at = now }

-- `none` where the rounds allowed do not end the query.
abbrev pub settle_query {ℓ} :
    {A : Type ℓ} → Store → Option (AppResult (A × List Row)) → Option (AppResult A × Store)
settle_query s none = none
settle_query s (some result) = some (settle s result)

-- `UPDATE … WHERE id IN (SELECT id FROM descendants)`.
abbrev pub update_below : (Row → Row) → List Row → Option (List ℕ) → Option (AppResult (List Row))
update_below f rows none = none
update_below f rows (some ids) = some (commit (update_where (is_marked ids) f rows))

abbrev pub nothing_left : Option (AppResult (List Row)) → Option (AppResult (Unit {0} × List Row))
nothing_left none = none
nothing_left (some result) = some (result >>= λ rows. ok (tt, rows))

unfoldable pub delete_item : ℕ → ℕ → ℕ → ℕ → Store → Option (AppResult (Unit {0}) × Store)
delete_item rounds user item now s = elim (verify_ownership user item s.rows) [
  | err e ↦ some (err e, s)
  | ok r ↦
      settle_query s (
        nothing_left (update_below (into_trash now) s.rows (descendants rounds s.rows (item ∷ []))))
]

-- `ORDER BY trashed_at DESC`.
abbrev pub trashed_time : Option ℕ → ℕ
trashed_time none = 0
trashed_time (some t) = t

abbrev pub later : Row → Row → Bool
later a b = leb (trashed_time b.trashed_at) (trashed_time a.trashed_at)

abbrev pub in_trash : ℕ → Row → Bool
in_trash user r = (r.user_id == user) && r.is_trashed

unfoldable pub list_trash : ℕ → Store → List FileEntryResponse
list_trash user s = to_responses (sort_by later (select (in_trash user) s.rows))

abbrev pub restored :
    ℕ → Row → Option (AppResult (List Row)) → Option (AppResult (FileEntryResponse × List Row))
restored now r none = none
restored now r (some result) = some (result >>= λ rows. ok (to_response (out_of_trash now r), rows))

abbrev pub restore_found : ℕ → ℕ → ℕ → Row → Store → Option (AppResult FileEntryResponse × Store)
restore_found rounds item now r s =
    if not r.is_trashed
    then some (err (validation "Item is not in trash"), s)
    else settle_query s (
        restored now r
          (update_below (out_of_trash now) s.rows (descendants rounds s.rows (item ∷ []))))

unfoldable pub restore_from_trash :
    ℕ → ℕ → ℕ → ℕ → Store → Option (AppResult FileEntryResponse × Store)
restore_from_trash rounds user item now s = elim (verify_ownership user item s.rows) [
  | err e ↦ some (err e, s)
  | ok r ↦ restore_found rounds item now r s
]

-- `storage.delete_file(p).await.ok()` for each path.
abbrev pub delete_blob : Option Text → Disk → Disk
delete_blob none disk = disk
delete_blob (some path) disk = record disk {
  blobs = λ p. if text_eq p path then none else disk.blobs p;
}

unfoldable pub delete_blobs : List Row → Disk → Disk
delete_blobs [] disk = disk
delete_blobs (r ∷ rows) disk = delete_blobs rows (delete_blob r.storage_path disk)

abbrev pub remove_ids : List ℕ → List Row → List Row
remove_ids ids rows = select (λ r. not (is_marked ids r)) rows

-- The rows found and the rows below them are gone, with the files of those found.
abbrev pub purge : List Row → Store → Option (List ℕ) → Option Store
purge found s none = none
purge found s (some ids) =
    some (record s { rows = remove_ids ids s.rows; disk = delete_blobs found s.disk })

abbrev pub purge_all : Store → Option (List ℕ) → Option Store
purge_all s none = none
purge_all s (some ids) = purge (select (is_marked ids) s.rows) s (some ids)

abbrev pub with_answer {ℓ} : {A : Type ℓ} → A → Option Store → Option (AppResult A × Store)
with_answer a none = none
with_answer a (some s) = some (ok a, s)

unfoldable pub permanent_delete : ℕ → ℕ → ℕ → Store → Option (AppResult (Unit {0}) × Store)
permanent_delete rounds user item s = elim (verify_ownership user item s.rows) [
  | err e ↦ some (err e, s)
  | ok r ↦
      if not r.is_trashed
      then some (err (validation "Item must be in trash to permanently delete"), s)
      else with_answer tt (purge_all s (descendants rounds s.rows (item ∷ [])))
]

-- The files of the trashed rows are deleted, and then the rows, with what is below them.
unfoldable pub empty_trash : ℕ → ℕ → Store → Option (AppResult ℕ × Store)
empty_trash rounds user s =
    let found = select (in_trash user) s.rows in
    with_answer (length found) (purge found s (descendants rounds s.rows (ids_of found)))

pub record StorageStatsResponse : Type 0 where
  pub total_files : ℕ
  pub total_folders : ℕ
  pub total_size_bytes : ℕ
  pub trashed_items : ℕ

abbrev pub is_live_file : ℕ → Row → Bool
is_live_file user r =
    (r.user_id == user)
    && (elim (r.entry_type) [ folder ↦ false | file ↦ true ])
    && not r.is_trashed

abbrev pub is_live_folder : ℕ → Row → Bool
is_live_folder user r =
    (r.user_id == user)
    && (elim (r.entry_type) [ folder ↦ true | file ↦ false ])
    && not r.is_trashed

unfoldable pub sum_sizes : List Row → ℕ
sum_sizes [] = 0
sum_sizes (r ∷ rows) = r.size_bytes + sum_sizes rows

unfoldable pub storage_stats : ℕ → Store → StorageStatsResponse
storage_stats user s = record {
  total_files = length (select (is_live_file user) s.rows);
  total_folders = length (select (is_live_folder user) s.rows);
  total_size_bytes = sum_sizes (select (is_live_file user) s.rows);
  trashed_items = length (select (in_trash user) s.rows);
}
