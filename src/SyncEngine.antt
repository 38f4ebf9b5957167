-- ===== src/SyncEngine.antt =====
-- Synchronisation: backend/crates/sync_engine/src/service.rs and the messages of handlers.rs, over the tables
-- `sync_states` and `sync_folders` of backend/migrations/20240101000007_remaining_tables.sql. Times are numbers of
-- seconds. `ORDER BY` is the stable sort, which is one of the orders that the database may take among equal
-- times. Identifiers of new rows are arguments; the fields of a message's payload are given as they are parsed.
pub mod Changes
pub mod Conflicts
mod Examples
use pcos.Prelude.{
  ℕ, ◌+◌, List, [], ◌∷◌, Option, none, some, Bool, true, false, ◌&&◌, ◌||◌, not, ltb, leb, ◌==◌,
  if◌then◌else◌, any, length, take, map, Text, codes, text_eq,
}
use pcos.Prelude.Sorting.{sort_by}
use pcos.Common.Error.{AppError, validation, not_found, database}
use pcos.Common.Result.{AppResult, ok, err}
use pcos.Files.Table.{Row, select, is_item}

pub data SyncStatus : Type 0 where
  synced pending conflict : SyncStatus

pub record SyncState : Type 0 where
  pub id : ℕ
  pub user_id : ℕ
  pub device_id : ℕ
  pub file_entry_id : ℕ
  pub version : ℕ
  pub status : SyncStatus
  pub last_synced_at : Option ℕ
  pub created_at : ℕ
  pub updated_at : ℕ

pub record SyncFolder : Type 0 where
  pub id : ℕ
  pub user_id : ℕ
  pub device_id : ℕ
  pub local_path : Text
  pub remote_folder_id : Option ℕ
  pub is_active : Bool
  pub created_at : ℕ

pub record ChangeEvent : Type 0 where
  pub id : ℕ
  pub file_entry_id : ℕ
  pub change_type : Text
  pub name : Text
  pub version : ℕ
  pub timestamp : ℕ

-- The tables; of the devices only the identifiers.
pub record SyncTables : Type 0 where
  pub files : List Row
  pub devices : List ℕ
  pub states : List SyncState
  pub folders : List SyncFolder

-- `updated_at > since`, where `since` is thirty days before now if it is not given.
abbrev pub is_after : ℕ → Option ℕ → ℕ → Bool
is_after now none time = ltb now (time + 2592000)
is_after now (some since) time = ltb since time

abbrev pub is_changed : ℕ → ℕ → Option ℕ → Row → Bool
is_changed user now since r = (r.user_id == user) && is_after now since r.updated_at

-- `ORDER BY updated_at DESC`.
abbrev pub is_newer : Row → Row → Bool
is_newer a b = leb b.updated_at a.updated_at

abbrev pub to_event : Row → ChangeEvent
to_event r = record {
  id = r.id;
  file_entry_id = r.id;
  change_type = codes "modified";
  name = r.name;
  version = 1;
  timestamp = r.updated_at;
}

unfoldable pub get_changes : ℕ → ℕ → Option ℕ → List Row → List ChangeEvent
get_changes user now since files =
    map to_event (take 1000 (sort_by is_newer (select (is_changed user now since) files)))

abbrev pub status_eq : SyncStatus → SyncStatus → Bool
status_eq synced synced = true
status_eq pending pending = true
status_eq conflict conflict = true
status_eq _ _ = false

abbrev pub is_of_device : ℕ → ℕ → SyncState → Bool
is_of_device user device s = (s.user_id == user) && (s.device_id == device)

-- `SELECT COUNT(*)`.
abbrev pub count_status : ℕ → ℕ → SyncStatus → List SyncState → ℕ
count_status user device status [] = 0
count_status user device status (s ∷ states) =
    (if is_of_device user device s && status_eq s.status status then 1 else 0)
    + count_status user device status states

abbrev pub later_time : Option ℕ → Option ℕ → Option ℕ
later_time none b = b
later_time (some a) none = some a
later_time (some a) (some b) = some (if ltb a b then b else a)

-- `SELECT MAX(last_synced_at)`; the null that stands for no time does not decode, which is no time.
abbrev pub last_sync_of : ℕ → ℕ → List SyncState → Option ℕ
last_sync_of user device [] = none
last_sync_of user device (s ∷ states) =
    later_time (if is_of_device user device s then s.last_synced_at else none)
      (last_sync_of user device states)

pub record SyncStatusResponse : Type 0 where
  pub device_id : ℕ
  pub total_synced : ℕ
  pub total_pending : ℕ
  pub conflicts : ℕ
  pub last_sync : Option ℕ

-- Which of the queries of `sync_status` succeed: a count that fails is 0, a time that fails is none.
pub record Reads : Type 0 where
  pub reads_count : SyncStatus → Bool
  pub reads_time : Bool

abbrev pub all_read : Reads
all_read = record { reads_count = λ s. true; reads_time = true }

unfoldable pub sync_status : Reads → ℕ → ℕ → List SyncState → SyncStatusResponse
sync_status q user device states = record {
  device_id = device;
  total_synced = if q.reads_count synced then count_status user device synced states else 0;
  total_pending = if q.reads_count pending then count_status user device pending states else 0;
  conflicts = if q.reads_count conflict then count_status user device conflict states else 0;
  last_sync = if q.reads_time then last_sync_of user device states else none;
}

pub record ResolveConflictRequest : Type 0 where
  pub file_entry_id : ℕ
  pub resolution : Text

abbrev pub is_of_file : ℕ → ℕ → SyncState → Bool
is_of_file user file s = (s.user_id == user) && (s.file_entry_id == file)

-- `AND status = 'conflict'` for one of the copies, and no such condition for both.
abbrev pub is_resolved : Bool → ℕ → ℕ → SyncState → Bool
is_resolved both user file s = is_of_file user file s && (both || status_eq s.status conflict)

-- `UPDATE sync_states SET status = 'synced', updated_at = NOW() WHERE …`.
unfoldable pub mark_synced : (SyncState → Bool) → ℕ → List SyncState → List SyncState
mark_synced test now [] = []
mark_synced test now (s ∷ states) =
    (if test s then record s { status = synced; updated_at = now } else s)
    ∷ mark_synced test now states

abbrev pub keeps_one : Text → Bool
keeps_one resolution =
    text_eq resolution (codes "keep_local") || text_eq resolution (codes "keep_remote")

abbrev pub keeps_both : Text → Bool
keeps_both resolution = text_eq resolution (codes "keep_both")

unfoldable pub resolve_conflict :
    ℕ → ℕ → ResolveConflictRequest → List SyncState → AppResult (Unit {0}) × List SyncState
resolve_conflict user now req states =
    if keeps_one req.resolution
    then (ok tt, mark_synced (is_resolved false user req.file_entry_id) now states)
    else if keeps_both req.resolution
    then (ok tt, mark_synced (is_resolved true user req.file_entry_id) now states)
    else (err (validation "Invalid resolution"), states)

pub record AddSyncFolderRequest : Type 0 where
  pub device_id : ℕ
  pub local_path : Text
  pub remote_folder_id : Option ℕ

-- `REFERENCES file_entries(id)`.
abbrev pub refers_to_file : Option ℕ → List Row → Bool
refers_to_file none files = true
refers_to_file (some file) files = any (is_item file) files

-- The device and the folder have to exist; whose they are is not asked.
unfoldable pub add_sync_folder :
    ℕ → ℕ → ℕ → AddSyncFolderRequest → SyncTables → AppResult SyncFolder × SyncTables
add_sync_folder new_id user now req t =
    let folder : SyncFolder = record {
      id = new_id;
      user_id = user;
      device_id = req.device_id;
      local_path = req.local_path;
      remote_folder_id = req.remote_folder_id;
      is_active = true;
      created_at = now;
    } in
    if any (λ d. d == req.device_id) t.devices && refers_to_file req.remote_folder_id t.files
    then (ok folder, record t { folders = folder ∷ t.folders })
    else (err (database "constraint"), t)

abbrev pub folders_where : (SyncFolder → Bool) → List SyncFolder → List SyncFolder
folders_where test [] = []
folders_where test (f ∷ fs) = if test f then f ∷ folders_where test fs else folders_where test fs

unfoldable pub list_sync_folders : ℕ → SyncTables → List SyncFolder
list_sync_folders user t =
    sort_by (λ (a b : SyncFolder). leb b.created_at a.created_at)
      (folders_where (λ (f : SyncFolder). f.user_id == user) t.folders)

abbrev pub is_sync_folder : ℕ → ℕ → SyncFolder → Bool
is_sync_folder user folder f = (f.id == folder) && (f.user_id == user)

-- `DELETE … WHERE id = $1 AND user_id = $2`.
unfoldable pub remove_sync_folder : ℕ → ℕ → SyncTables → AppResult (Unit {0}) × SyncTables
remove_sync_folder user folder t =
    if any (is_sync_folder user folder) t.folders
    then (
      ok tt,
      record t { folders = folders_where (λ f. not (is_sync_folder user folder f)) t.folders },
    )
    else (err (not_found "Sync folder not found"), t)

-- A message of the socket, with what its payload holds in the fields that the handler reads.
pub record SyncMessage : Type 0 where
  pub msg_type : Text
  pub since : Option ℕ
  pub device_id : Option ℕ
  pub request : Option ResolveConflictRequest

pub data SyncReply : Type 0 where
  pong : ℕ → SyncReply
  changes : List ChangeEvent → SyncReply
  conflict_resolved : SyncReply
  failed : AppError → SyncReply
  invalid_payload : SyncReply
  status_report : SyncStatusResponse → SyncReply
  ack : Text → SyncReply

abbrev pub device_or_nil : Option ℕ → ℕ
device_or_nil none = 0
device_or_nil (some device) = device

abbrev pub reply_to_resolution :
    SyncTables → AppResult (Unit {0}) × List SyncState → SyncReply × SyncTables
reply_to_resolution t (ok x, states) = (conflict_resolved, record t { states = states })
reply_to_resolution t (err e, states) = (failed e, record t { states = states })

abbrev pub resolve_message :
    ℕ → ℕ → Option ResolveConflictRequest → SyncTables → SyncReply × SyncTables
resolve_message user now none t = (invalid_payload, t)
resolve_message user now (some req) t =
    reply_to_resolution t (resolve_conflict user now req t.states)

-- The answer of `handle_sync_ws` to a text message that parses.
unfoldable pub handle_message : Reads → ℕ → ℕ → SyncMessage → SyncTables → SyncReply × SyncTables
handle_message q user now m t =
    if text_eq m.msg_type (codes "ping")
    then (pong now, t)
    else if text_eq m.msg_type (codes "get_changes")
    then (changes (get_changes user now m.since t.files), t)
    else if text_eq m.msg_type (codes "resolve_conflict")
    then resolve_message user now m.request t
    else if text_eq m.msg_type (codes "status")
    then (status_report (sync_status q user (device_or_nil m.device_id) t.states), t)
    else (ack m.msg_type, t)
