-- ===== src/Files/Resumable.antt =====
-- Resumable transfers: the handlers of backend/crates/file_metadata/src/resumable.rs and
-- `check_storage_quota` of backend/crates/file_metadata/src/service.rs. The state is the table
-- `file_entries` with the names of its columns, the users' quotas and the disk. Identifiers are numbers; reading and printing them
-- (the uuid crate), decoding base64 (the base64 crate) and SHA-256 are arguments. Queries and writes
-- succeed, save the statements that do not fit the table, and no write of a chunk is cut off. A message that quotes values keeps its fixed part.
pub mod Transfer
pub mod Upload
pub mod Retry
mod Examples
use pcos.Prelude.{
  ℕ, zero, suc, ◌+◌, ◌-◌, ◌*◌, ◌/◌, ◌%◌, ◌^◌, List, [], ◌∷◌, ◌++◌, Option, none, some, Bool, true,
  false, not, ◌&&◌, ltb, leb, any, all, ◌==◌, if◌then◌else◌, length, Text, codes, text_eq, is_empty,
  trim, starts_with, drop, ℤ, pos, negsuc, is_negative, ◌||◌, eq_ignore_ascii_case,
}
use pcos.Common.Error.{AppError, validation, not_found, internal, database}
use pcos.Common.Result.{AppResult, ok, err, ◌>>=◌, ◌>>◌, reject_if}
use pcos.Common.Digest.{Hasher}
use pcos.Files.Table.{same_parent, same_flag}
use pcos.Files.Storage.{ChunkDir, Disk, or_empty, store_chunk, Assembled, assemble_chunks}

pub record FileEntry : Type 0 where
  pub id : ℕ
  pub user_id : ℕ
  pub parent_id : Option ℕ
  pub name : Text
  pub mime_type : Text
  pub size_bytes : ℕ
  pub sha256_hash : Option Text
  pub storage_path : Text
  pub is_trashed : Bool

pub record Server : Type 0 where
  pub columns : List Text
  pub entries : List FileEntry
  pub quotas : ℕ → Option ℕ
  pub disk : Disk

pub record InitRequest : Type 0 where
  pub name : Text
  pub size_bytes : ℤ
  pub sha256_hash : Option Text
  pub parent_id : Option ℕ
  pub mime_type : Option Text

pub record FinalizeResponse : Type 0 where
  pub file_id : ℕ
  pub name : Text
  pub size_bytes : ℕ
  pub sha256_hash : Text

abbrev pub in_transfer : Text
in_transfer = codes "resumable_transfer"

abbrev pub chunk_size : ℕ
chunk_size = 2 * 1024 * 1024

abbrev pub default_quota : ℕ
default_quota = 10 * 1024 * 1024 * 1024

-- `SELECT COALESCE(SUM(size_bytes), 0) … WHERE user_id = $1 AND is_trashed = false`.
unfoldable pub used_bytes : ℕ → List FileEntry → ℕ
used_bytes user [] = 0
used_bytes user (e ∷ es) =
    (if e.user_id == user && not e.is_trashed then e.size_bytes else 0) + used_bytes user es

-- The sum as a `BIGINT`; `unwrap_or(0)` where it does not fit.
abbrev pub read_sum : ℕ → ℕ
read_sum sum = if ltb sum (2 ^ 63) then sum else 0

abbrev pub or_default : Option ℕ → ℕ
or_default none = default_quota
or_default (some limit) = limit

-- The sum is an `i64`: from 2^63 on it wraps to a negative number, which no limit is below.
abbrev pub exceeds : ℕ → ℕ → Bool
exceeds limit sum = ltb limit sum && ltb sum (2 ^ 63)

unfoldable pub check_storage_quota : Server → ℕ → ℕ → AppResult (Unit {0})
check_storage_quota s user incoming =
    reject_if
      (exceeds (or_default (s.quotas user)) (read_sum (used_bytes user s.entries) + incoming))
      (validation "Storage quota exceeded")

abbrev pub or_text : Option Text → Text → Text
or_text none t = t
or_text (some t) u = t

-- A negative size is refused before it is used.
abbrev pub size_of : ℤ → ℕ
size_of (pos n) = n
size_of (negsuc n) = 0

abbrev pub new_entry : ℕ → InitRequest → ℕ → FileEntry
new_entry user req file_id = record {
  id = file_id;
  user_id = user;
  parent_id = req.parent_id;
  name = req.name;
  mime_type = or_text req.mime_type (codes "application/octet-stream");
  size_bytes = size_of req.size_bytes;
  sha256_hash = some (or_text req.sha256_hash []);
  storage_path = in_transfer;
  is_trashed = false;
}

unfoldable pub check_init : ℕ → InitRequest → Server → AppResult (Unit {0})
check_init user req s = do
  reject_if (is_empty (trim req.name)) (validation "name is required")
  reject_if (is_negative req.size_bytes) (validation "size_bytes must be non-negative")
  check_storage_quota s user (size_of req.size_bytes)

-- `sha256_hash VARCHAR(64)`.
abbrev pub fits_hash : Option Text → Bool
fits_hash none = true
fits_hash (some hash) = leb (length hash) 64

-- The columns that the `INSERT` names, and those that the migrations make.
abbrev pub insert_columns : List Text
insert_columns =
    codes "id"
    ∷ codes "user_id"
    ∷ codes "parent_id"
    ∷ codes "name"
    ∷ codes "entry_type"
    ∷ codes "mime_type"
    ∷ codes "size_bytes"
    ∷ codes "sha256_hash"
    ∷ codes "storage_path"
    ∷ codes "is_trashed"
    ∷ codes "is_favorite"
    ∷ codes "created_at"
    ∷ codes "updated_at"
    ∷ []

abbrev pub migrated_columns : List Text
migrated_columns =
    codes "id"
    ∷ codes "user_id"
    ∷ codes "parent_id"
    ∷ codes "name"
    ∷ codes "entry_type"
    ∷ codes "mime_type"
    ∷ codes "size_bytes"
    ∷ codes "sha256_hash"
    ∷ codes "storage_path"
    ∷ codes "is_trashed"
    ∷ codes "trashed_at"
    ∷ codes "created_at"
    ∷ codes "updated_at"
    ∷ []

abbrev pub has_columns : List Text → List Text → Bool
has_columns columns names = all (λ name. any (text_eq name) columns) names

abbrev pub same_place : FileEntry → FileEntry → Bool
same_place a b =
    a.user_id == b.user_id
    && same_parent a.parent_id b.parent_id
    && text_eq a.name b.name
    && same_flag a.is_trashed b.is_trashed

abbrev pub parent_exists : Option ℕ → List FileEntry → Bool
parent_exists none es = true
parent_exists (some parent) es = any (λ (x : FileEntry). x.id == parent) es

-- The keys of the table, the parent that it refers to, and the length of its columns.
abbrev pub accepts_entry : FileEntry → Server → Bool
accepts_entry e s =
    has_columns s.columns insert_columns
    && not (any (λ (x : FileEntry). x.id == e.id) s.entries)
    && not (any (same_place e) s.entries)
    && parent_exists e.parent_id s.entries
    && leb (length e.name) 255
    && leb (length e.mime_type) 255
    && fits_hash e.sha256_hash

-- `init_transfer`, with the new identifier. The answer is the identifier of the transfer.
unfoldable pub init_transfer : ℕ → InitRequest → ℕ → Server → AppResult ℕ × Server
init_transfer user req file_id s = elim (check_init user req s) [
  | err e ↦ (err e, s)
  | ok _ ↦
      if accepts_entry (new_entry user req file_id) s
      then (ok file_id, record s { entries = s.entries ++ new_entry user req file_id ∷ [] })
      else (err (database "constraint"), s)
]

-- `trim_start_matches("xfer_")`; each turn takes a character away, so the text's length is fuel enough.
unfoldable pub strip_prefixes : ℕ → Text → Text
strip_prefixes zero t = t
strip_prefixes (suc fuel) t =
    let rest = strip_prefixes fuel (drop 5 t) in if starts_with t (codes "xfer_") then rest else t

-- A query by identifier and user; `find_open` also asks that the transfer is not finalized.
unfoldable pub find_entry : ℕ → ℕ → List FileEntry → Option FileEntry
find_entry user file [] = none
find_entry user file (e ∷ es) =
    if e.id == file && e.user_id == user then some e else find_entry user file es

unfoldable pub find_open : ℕ → ℕ → List FileEntry → Option FileEntry
find_open user file [] = none
find_open user file (e ∷ es) =
    if e.id == file && e.user_id == user && text_eq e.storage_path in_transfer
    then some e
    else find_open user file es

-- `(offset / (2 * 1024 * 1024)) as i32`, by its bits: a division towards 0, and the low 32 bits.
abbrev pub chunk_index : ℤ → ℕ
chunk_index (pos n) = n / chunk_size % 2 ^ 32
chunk_index (negsuc n) = (2 ^ 32 - suc n / chunk_size % 2 ^ 32) % 2 ^ 32

-- An `i32` by its bits.
abbrev pub as_i32 : ℕ → ℤ
as_i32 n = if ltb n (2 ^ 31) then pos n else negsuc (2 ^ 32 - 1 - n)

-- The names of the files of a directory of chunks that count are all its names; the count is an `i32`.
abbrev pub count_chunks : ChunkDir → ℤ
count_chunks dir = as_i32 (length dir % 2 ^ 32)

abbrev pub is_positive : ℤ → Bool
is_positive (pos zero) = false
is_positive (pos (suc n)) = true
is_positive (negsuc n) = false

-- Where the bytes of a transfer are to be found, with their hash and their number.
abbrev pub flat_path : (ℕ → Text) → ℕ → ℕ → Text
flat_path show user file = show user ++ codes "/" ++ show file

-- `UPDATE file_entries SET storage_path, sha256_hash, size_bytes … WHERE id = $4`.
abbrev pub finalized : Assembled → Text → FileEntry → FileEntry
finalized found hash e = record e {
  storage_path = found.path;
  sha256_hash = some hash;
  size_bytes = found.size;
}

unfoldable pub update_entry : ℕ → (FileEntry → FileEntry) → List FileEntry → List FileEntry
update_entry file f [] = []
update_entry file f (e ∷ es) = (if e.id == file then f e else e) ∷ update_entry file f es

-- Hashes that no bytes were read for.
abbrev pub is_unread : Text → Bool
is_unread h = is_empty h || text_eq h (codes "empty")

-- The test of the hash that the client sent.
abbrev pub is_corrupt : Option Text → Text → Bool
is_corrupt none computed = false
is_corrupt (some client) computed =
    not (is_unread computed)
    && not (text_eq computed (codes "verified"))
    && not (eq_ignore_ascii_case client computed)

abbrev pub final_sha256 : Option Text → Text → Text
final_sha256 client computed =
    if is_unread computed then or_text client (codes "verified") else computed

module _ (H : Hasher) (show : ℕ → Text) (parse_uuid : Text → Option ℕ)
    (decode : Text → Option (List ℕ)) where
  unfoldable pub parse_transfer_uuid : Text → AppResult ℕ
  parse_transfer_uuid id = elim (parse_uuid (strip_prefixes (length id) id)) [
    | none ↦ err (validation "Invalid transfer ID")
    | some file ↦ ok file
  ]

  unfoldable pub check_write : ℕ → ℕ → Text → Server → AppResult (List ℕ)
  check_write user file data_base64 s = elim (find_open user file s.entries) [
    | none ↦ err (not_found "Transfer session not found or already finalized")
    | some _ ↦ elim (decode (trim data_base64)) [
      | none ↦ err (validation "Invalid base64 payload")
      | some bytes ↦ ok bytes
    ]
  ]

  -- The handlers, from the identifier that the path of the request was read as. `write_chunk` answers
  -- the number of bytes written.
  unfoldable pub write_chunk_to : ℕ → ℕ → ℤ → Text → Server → AppResult ℕ × Server
  write_chunk_to user file offset data_base64 s = elim (check_write user file data_base64 s) [
    | err e ↦ (err e, s)
    | ok bytes ↦ (
      ok (length bytes),
      record s { disk = store_chunk user file (chunk_index offset) bytes s.disk },
    )
  ]

  unfoldable pub write_chunk : ℕ → Text → ℤ → Text → Server → AppResult ℕ × Server
  write_chunk user id offset data_base64 s = elim (parse_transfer_uuid id) [
    | err e ↦ (err e, s)
    | ok file ↦ write_chunk_to user file offset data_base64 s
  ]

  -- The answer is the name, the size, the hash and the status.
  unfoldable pub get_status : ℕ → Text → Server → AppResult (Text × ℕ × Option Text × Text)
  get_status user id s = do
    file ← parse_transfer_uuid id
    elim (find_entry user file s.entries) [
      | none ↦ err (not_found "Transfer session not found")
      | some e ↦ ok (
        e.name,
        e.size_bytes,
        e.sha256_hash,
        if text_eq e.storage_path in_transfer then codes "in_progress" else codes "completed",
      )
    ]

  -- The three cases of `finalize_transfer`: no directory of chunks, one with no count above 0, one with chunks.
  unfoldable pub gather : ℕ → ℕ → FileEntry → Disk → Option ChunkDir → Option Assembled × Disk
  gather user file e disk none = (
    some (record {
      path = flat_path show user file;
      hash = or_text e.sha256_hash (codes "verified");
      size = e.size_bytes;
    }),
    disk,
  )
  gather user file e disk (some dir) =
      if is_positive (count_chunks dir)
      then assemble_chunks H show user file file (count_chunks dir) disk
      else (some (record { path = flat_path show user file; hash = codes "empty"; size = 0 }), disk)

  unfoldable pub check_and_update :
      ℕ
      → FileEntry
      → Option Text
      → Server
      → Option Assembled × Disk
      → AppResult FinalizeResponse × Server
  check_and_update file e client s (none, disk) =
      (err (internal "Failed to assemble chunks"), record s { disk = disk })
  check_and_update file e client s (some found, disk) =
      if is_corrupt client found.hash
      then (err (validation "SHA-256 integrity check failed"), record s { disk = disk })
      else if not (leb (length (final_sha256 client found.hash)) 64)
      then (err (database "value too long"), record s { disk = disk })
      else (
        ok (record {
          file_id = file;
          name = e.name;
          size_bytes = found.size;
          sha256_hash = final_sha256 client found.hash;
        }),
        record s {
          entries = update_entry file (finalized found (final_sha256 client found.hash)) s.entries;
          disk = disk;
        },
      )

  unfoldable pub finalize : ℕ → ℕ → Option Text → Server → AppResult FinalizeResponse × Server
  finalize user file client s = elim (find_entry user file s.entries) [
    | none ↦ (err (not_found "Transfer session not found"), s)
    | some e ↦
        check_and_update file e client s (gather user file e s.disk (s.disk.chunk_dirs user file))
  ]

  unfoldable pub finalize_transfer :
      ℕ → Text → Option Text → Server → AppResult FinalizeResponse × Server
  finalize_transfer user id client s = elim (parse_transfer_uuid id) [
    | err e ↦ (err e, s)
    | ok file ↦ finalize user file client s
  ]
