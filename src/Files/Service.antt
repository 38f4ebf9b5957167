-- ===== src/Files/Service.antt =====
-- Files and folders: backend/crates/file_metadata/src/service.rs. The state is the table `file_entries`, the
-- users' quotas and the disk. A new identifier and the time are arguments; so are the guess of a type
-- from a name (the mime_guess crate), the printing of identifiers and SHA-256. The operations that walk the
-- tree take the number of rounds that they may go and answer `none` where these are used up.
pub mod Trash
pub mod Subtree
pub mod Forest
pub mod Deletion
pub mod Breadcrumb
pub mod Cycle
pub mod Quota
pub mod Twin
pub mod Calls
pub mod Owned
pub mod Purging
pub mod Isolation
pub mod Queries
mod Examples
use pcos.Prelude.Sorting.{text_le, sort_by}
use pcos.Prelude.{
  ℤ, ℕ, zero, suc, ◌+◌, List, [], ◌∷◌, ◌++◌, Option, none, some, Bool, true, false, not, ◌&&◌, ◌||◌,
  leb, ◌==◌, if◌then◌else◌, any, length, Text, codes, text_eq,
}
use pcos.Common.Error.{AppError, not_found, validation, conflict, internal}
use pcos.Common.Result.{AppResult, ok, err, ◌>>=◌, ◌>>◌, reject_if}
use pcos.Common.Digest.{Hasher}
use pcos.Files.Storage.{Disk, Assembled, store_file, assemble_chunks, store_chunk}
use pcos.Files.Resumable.{or_default, exceeds, read_sum}
use pcos.Files.Table.{
  EntryType, folder, file, Row, same_parent, commit, find_row, is_item, has_id, update_where,
  select, ids_of, descendants,
}

pub record Store : Type 0 where
  pub rows : List Row
  pub quotas : ℕ → Option ℕ
  pub disk : Disk

pub record FileEntryResponse : Type 0 where
  pub id : ℕ
  pub parent_id : Option ℕ
  pub name : Text
  pub entry_type : EntryType
  pub mime_type : Option Text
  pub size_bytes : ℕ
  pub sha256_hash : Option Text
  pub is_trashed : Bool
  pub created_at : ℕ
  pub updated_at : ℕ

abbrev pub to_response : Row → FileEntryResponse
to_response f = record {
  id = f.id;
  parent_id = f.parent_id;
  name = f.name;
  entry_type = f.entry_type;
  mime_type = f.mime_type;
  size_bytes = f.size_bytes;
  sha256_hash = f.sha256_hash;
  is_trashed = f.is_trashed;
  created_at = f.created_at;
  updated_at = f.updated_at;
}

abbrev pub to_responses : List Row → List FileEntryResponse
to_responses [] = []
to_responses (r ∷ rows) = to_response r ∷ to_responses rows

pub record BreadcrumbItem : Type 0 where
  pub id : Option ℕ
  pub name : Text

pub record FileListResponse : Type 0 where
  pub entries : List FileEntryResponse
  pub total : ℕ
  pub path : List BreadcrumbItem

-- An operation on the table alone: one that fails leaves the store as it was.
abbrev pub settle {ℓ} : {A : Type ℓ} → Store → AppResult (A × List Row) → AppResult A × Store
settle s (err e) = (err e, s)
settle s (ok (a, rows)) = (ok a, record s { rows = rows })

abbrev pub or_missing : Option Row → AppResult Row
or_missing none = err (not_found "Item not found")
or_missing (some r) = ok r

unfoldable pub verify_ownership : ℕ → ℕ → List Row → AppResult Row
verify_ownership user item rows = or_missing (find_row user item rows)

-- `if let Some(parent_id) = … { verify_ownership(…)?; }`.
unfoldable pub verify_parent : ℕ → Option ℕ → List Row → AppResult (Unit {0})
verify_parent user none rows = ok tt
verify_parent user (some parent) rows = verify_ownership user parent rows >>= λ r. ok tt

-- A live row of the user with that name under that parent, other than the excepted one.
abbrev pub is_named : ℕ → Option ℕ → Text → Row → Bool
is_named user parent name r =
    (r.user_id == user) && same_parent r.parent_id parent && text_eq r.name name && not r.is_trashed

abbrev pub new_folder : ℕ → Option ℕ → Text → ℕ → ℕ → Row
new_folder user parent name new_id now = record {
  id = new_id;
  user_id = user;
  parent_id = parent;
  name = name;
  entry_type = folder;
  mime_type = none;
  size_bytes = 0;
  sha256_hash = none;
  storage_path = none;
  is_trashed = false;
  trashed_at = none;
  created_at = now;
  updated_at = now;
}

unfoldable pub create_folder :
    ℕ → Option ℕ → Text → ℕ → ℕ → Store → AppResult FileEntryResponse × Store
create_folder user parent name new_id now s = settle s do
  verify_parent user parent s.rows
  reject_if (any (is_named user parent name) s.rows)
      (conflict "An item with this name already exists here")
  rows ← commit (s.rows ++ new_folder user parent name new_id now ∷ [])
  ok (to_response (new_folder user parent name new_id now), rows)

-- `ORDER BY entry_type DESC, name ASC`.
abbrev pub row_le : Row → Row → Bool
row_le a b = elim (a.entry_type) [
  | folder ↦ elim (b.entry_type) [ folder ↦ text_le a.name b.name | file ↦ true ]
  | file ↦ elim (b.entry_type) [ folder ↦ false | file ↦ text_le a.name b.name ]
]

abbrev pub is_listed : ℕ → Option ℕ → Row → Bool
is_listed user parent r = (r.user_id == user) && same_parent r.parent_id parent && not r.is_trashed

abbrev pub root_item : BreadcrumbItem
root_item = record { id = none; name = codes "Root" }

abbrev pub listed : ℕ → Option ℕ → List BreadcrumbItem → List Row → FileListResponse
listed user parent path rows =
    let entries = sort_by row_le (select (is_listed user parent) rows) in
    record { entries = to_responses entries; total = length entries; path = path }

unfoldable pub list_root : ℕ → Store → FileListResponse
list_root user s = listed user none (root_item ∷ []) s.rows

-- The loop of `build_breadcrumb` with the ancestors found so far, the last one first.
unfoldable pub ancestors :
    ℕ → ℕ → List Row → Option ℕ → List BreadcrumbItem → Option (List BreadcrumbItem)
ancestors rounds user rows none found = some found
ancestors zero user rows (some current) found = none
ancestors (suc rounds) user rows (some current) found = elim (find_row user current rows) [
  | none ↦ some found
  | some e ↦
      ancestors rounds user rows e.parent_id (record { id = some e.id; name = e.name } ∷ found)
]

abbrev pub below_root : Option (List BreadcrumbItem) → Option (List BreadcrumbItem)
below_root none = none
below_root (some found) = some (root_item ∷ found)

unfoldable pub build_breadcrumb : ℕ → ℕ → Option ℕ → List Row → Option (List BreadcrumbItem)
build_breadcrumb rounds user folder_id rows = below_root (ancestors rounds user rows folder_id [])

abbrev pub listed_at :
    ℕ → ℕ → List Row → Option (List BreadcrumbItem) → Option (AppResult FileListResponse)
listed_at user item rows none = none
listed_at user item rows (some path) = some (ok (listed user (some item) path rows))

unfoldable pub list_folder : ℕ → ℕ → ℕ → Store → Option (AppResult FileListResponse)
list_folder rounds user item s = elim (verify_ownership user item s.rows) [
  | err e ↦ some (err e)
  | ok r ↦ listed_at user item s.rows (build_breadcrumb rounds user (some item) s.rows)
]

-- `SELECT COALESCE(SUM(size_bytes), 0) … WHERE user_id = $1 AND is_trashed = false`.
unfoldable pub used_bytes : ℕ → List Row → ℕ
used_bytes user [] = 0
used_bytes user (r ∷ rows) =
    (if (r.user_id == user) && not r.is_trashed then r.size_bytes else 0) + used_bytes user rows

unfoldable pub check_storage_quota : ℕ → ℕ → Store → AppResult (Unit {0})
check_storage_quota user incoming s =
    reject_if (exceeds (or_default (s.quotas user)) (read_sum (used_bytes user s.rows) + incoming))
      (validation "Storage quota exceeded")

abbrev pub new_file : ℕ → Option ℕ → Text → Text → ℕ → Text → Text → ℕ → ℕ → Row
new_file user parent name mime size hash path new_id now = record {
  id = new_id;
  user_id = user;
  parent_id = parent;
  name = name;
  entry_type = file;
  mime_type = some mime;
  size_bytes = size;
  sha256_hash = some hash;
  storage_path = some path;
  is_trashed = false;
  trashed_at = none;
  created_at = now;
  updated_at = now;
}

-- The row of a file whose bytes are on the disk: where the row is refused they stay there.
abbrev pub insert_file : Row → Store → AppResult FileEntryResponse × Store
insert_file r s = settle s do rows ← commit (s.rows ++ r ∷ []); ok (to_response r, rows)

abbrev pub check_upload : ℕ → Option ℕ → ℕ → Store → AppResult (Unit {0})
check_upload user parent size s =
    verify_parent user parent s.rows >> check_storage_quota user size s

module _ (H : Hasher) (show : ℕ → Text) where
  abbrev pub store_and_insert :
      ℕ
      → Option ℕ
      → Text
      → Text
      → List ℕ
      → ℕ
      → ℕ
      → Store
      → (Text × Text) × Disk
      → AppResult FileEntryResponse × Store
  store_and_insert user parent name mime bytes new_id now s ((path, hash), disk) =
      insert_file (new_file user parent name mime (length bytes) hash path new_id now)
        (record s { disk = disk })

  unfoldable pub upload_file :
      ℕ → Option ℕ → Text → Text → List ℕ → ℕ → ℕ → Store → AppResult FileEntryResponse × Store
  upload_file user parent name mime bytes new_id now s =
      elim (check_upload user parent (length bytes) s) [
        | err e ↦ (err e, s)
        | ok u ↦
            store_and_insert user parent name mime bytes new_id now s
              (store_file H show user new_id bytes s.disk)
      ]

  -- `total_size` is what the request says, at least 0; the row gets the size of what was assembled.
  abbrev pub insert_assembled :
      ℕ
      → Option ℕ
      → Text
      → Text
      → ℕ
      → ℕ
      → Store
      → Option Assembled × Disk
      → AppResult FileEntryResponse × Store
  insert_assembled user parent name mime new_id now s (none, disk) =
      (err (internal "Chunk assembly failed"), record s { disk = disk })
  insert_assembled user parent name mime new_id now s (some a, disk) =
      insert_file (new_file user parent name mime a.size a.hash a.path new_id now)
        (record s { disk = disk })

  unfoldable pub complete_chunked_upload :
      (Text → Text)
      → ℕ
      → Option ℕ
      → Text
      → ℕ
      → ℕ
      → ℤ
      → ℕ
      → ℕ
      → Store
      → AppResult FileEntryResponse × Store
  complete_chunked_upload guess user parent name upload total_size total_chunks new_id now s =
      elim (check_upload user parent total_size s) [
        | err e ↦ (err e, s)
        | ok u ↦
            insert_assembled user parent name (guess name) new_id now s
              (assemble_chunks H show user upload new_id total_chunks s.disk)
      ]

unfoldable pub get_file_meta : ℕ → ℕ → Store → AppResult FileEntryResponse
get_file_meta user item s = verify_ownership user item s.rows >>= λ r. ok (to_response r)

abbrev pub is_folder : Row → Bool
is_folder r = elim (r.entry_type) [ folder ↦ true | file ↦ false ]

abbrev pub path_or_error : Option Text → AppResult Text
path_or_error none = err (internal "File has no storage path")
path_or_error (some path) = ok path

abbrev pub read_or_error : Option (List ℕ) → AppResult (List ℕ)
read_or_error none = err (internal "File read failed")
read_or_error (some bytes) = ok bytes

abbrev pub open_or_error : Option (List ℕ) → AppResult (List ℕ)
open_or_error none = err (internal "File open failed")
open_or_error (some bytes) = ok bytes

unfoldable pub download_file : ℕ → ℕ → Store → AppResult (Row × List ℕ)
download_file user item s = do
  entry ← verify_ownership user item s.rows
  reject_if (is_folder entry) (validation "Cannot download a folder")
  path ← path_or_error entry.storage_path
  bytes ← read_or_error (s.disk.blobs path)
  ok (entry, bytes)

unfoldable pub open_file_for_download : ℕ → ℕ → Store → AppResult (Row × List ℕ × ℕ)
open_file_for_download user item s = do
  entry ← verify_ownership user item s.rows
  reject_if (is_folder entry) (validation "Cannot download a folder")
  path ← path_or_error entry.storage_path
  bytes ← open_or_error (s.disk.blobs path)
  ok (entry, bytes, length bytes)

-- `store_chunk`: the chunk of an upload, and its answer.
abbrev pub store_upload_chunk : ℕ → ℕ → ℕ → List ℕ → Store → AppResult (ℕ × ℕ × Bool) × Store
store_upload_chunk user upload index bytes s =
    (ok (upload, index, true), record s { disk = store_chunk user upload index bytes s.disk })

abbrev pub with_name : Text → ℕ → Row → Row
with_name name now r = record r { name = name; updated_at = now }

unfoldable pub rename_item : ℕ → ℕ → Text → ℕ → Store → AppResult FileEntryResponse × Store
rename_item user item name now s = settle s do
  entry ← verify_ownership user item s.rows
  reject_if (any (λ r. is_named user entry.parent_id name r && not (is_item item r)) s.rows)
      (conflict "An item with this name already exists")
  rows ← commit (update_where (is_item item) (with_name name now) s.rows)
  ok (to_response (with_name name now entry), rows)

abbrev pub with_parent : Option ℕ → ℕ → Row → Row
with_parent target now r = record r { parent_id = target; updated_at = now }

-- The target has to be a folder of the user's, and not the item itself.
unfoldable pub check_target : ℕ → ℕ → Option ℕ → List Row → AppResult (Unit {0})
check_target user item none rows = ok tt
check_target user item (some target) rows = do
  t ← verify_ownership user target rows
  reject_if (not (is_folder t)) (validation "Target must be a folder")
  reject_if (item == target) (validation "Cannot move a folder into itself")

unfoldable pub move_item : ℕ → ℕ → Option ℕ → ℕ → Store → AppResult FileEntryResponse × Store
move_item user item target now s = settle s do
  entry ← verify_ownership user item s.rows
  check_target user item target s.rows
  rows ← commit (update_where (is_item item) (with_parent target now) s.rows)
  ok (to_response (with_parent target now entry), rows)
