-- ===== src/SyncEngine/Examples.antt =====
-- Two devices of a user, one with a conflict and one with an upload that waits.
use Prim.Native.Nat.{min}
use mathlib.Core.List.{Perm}
use pcos.Prelude.{
  ℕ, ◌≤◌, ◌≡◌, refl, List, [], ◌∷◌, ◌++◌, none, some, true, false, map, length, codes, All,
}
use pcos.Prelude.Sorting.{IsSorted}
use pcos.Common.Result.{ok, err}
use pcos.Common.Error.{not_found}
use pcos.Files.Table.{Row, file, select}
use pcos.SyncEngine.{
  SyncStatus, pending, conflict, SyncState, ChangeEvent, is_changed, is_newer, to_event,
  get_changes, ResolveConflictRequest, resolve_conflict, mark_synced, all_read, sync_status,
  SyncTables, add_sync_folder, list_sync_folders, remove_sync_folder, handle_message, pong,
}
use pcos.SyncEngine.Changes.{get_changes_lem}
use pcos.SyncEngine.Conflicts.{IsMoved, resolve_conflict_lem}

abbrev entry : ℕ → ℕ → Row
entry id time = record {
  id = id;
  user_id = 7;
  parent_id = none;
  name = codes "p";
  entry_type = file;
  mime_type = none;
  size_bytes = 5;
  sha256_hash = none;
  storage_path = none;
  is_trashed = false;
  trashed_at = none;
  created_at = 1;
  updated_at = time;
}

abbrev entries : List Row
entries = entry 1 10 ∷ entry 2 30 ∷ entry 3 20 ∷ []

newest_first :
    map (λ (e : ChangeEvent). e.file_entry_id) (get_changes 7 50 (some 15) entries) ≡ 2 ∷ 3 ∷ []
unfolding get_changes select
newest_first = refl

get_changes_lem_example :
    let changed = select (is_changed 7 50 (some 15)) entries in
    (page : List Row) × (rest : List Row) × (get_changes 7 50 (some 15) entries ≡ map to_event page)
    × Perm (page ++ rest) changed
    × (length page ≡ min 1000 (length changed))
    × IsSorted is_newer page
    × All (λ a. All (λ (r : Row). r.updated_at ≤ a.updated_at) rest) page
get_changes_lem_example = get_changes_lem 7 50 (some 15) entries

abbrev copy : ℕ → SyncStatus → SyncState
copy device status = record {
  id = device;
  user_id = 7;
  device_id = device;
  file_entry_id = 3;
  version = 1;
  status = status;
  last_synced_at = some device;
  created_at = 1;
  updated_at = 1;
}

abbrev copies : List SyncState
copies = copy 1 conflict ∷ copy 2 pending ∷ []

abbrev both_kept : ResolveConflictRequest
both_kept = record { file_entry_id = 3; resolution = codes "keep_both" }

-- The second device has not uploaded its copy and is synced nonetheless.
pending_lost :
    (sync_status all_read 7 2 (resolve_conflict 7 50 both_kept copies).1).total_synced ≡ 1
unfolding sync_status resolve_conflict mark_synced
pending_lost = refl

resolve_conflict_lem_example :
    let (answer, after) = resolve_conflict 7 50 both_kept copies in
    (answer ≡ ok (tt {0})) × IsMoved true 7 50 3 2 copies after
resolve_conflict_lem_example = resolve_conflict_lem 7 50 2 both_kept copies refl

abbrev tables : SyncTables
tables = record { files = entries; devices = 1 ∷ 2 ∷ []; states = copies; folders = [] }

abbrev with_folder : SyncTables
with_folder =
    (add_sync_folder 9 7 50
      (record { device_id = 1; local_path = codes "/p"; remote_folder_id = none }) tables).1

one_folder : length (list_sync_folders 7 with_folder) ≡ 1
unfolding add_sync_folder list_sync_folders
one_folder = refl

others_folder :
    remove_sync_folder 8 9 with_folder ≡ (err (not_found "Sync folder not found"), with_folder)
unfolding add_sync_folder remove_sync_folder
others_folder = refl

pinged :
    handle_message all_read 7 50
      (record { msg_type = codes "ping"; since = none; device_id = none; request = none })
      tables
    ≡ (pong 50, tables)
unfolding handle_message
pinged = refl
