-- ===== src/Agent/Jail/Listing.antt =====
-- `FsHandler::list_dir`, `FsHandler::stat` and `guess_mime_type` of agent/src/fs_handler.rs.
-- `str::to_lowercase`, and the times of change and the read-only flags that a disk keeps, are arguments.
use pcos.Prelude.Sorting.{text_le, sort_by}
use pcos.Prelude.{
  ℕ, suc, ◌+◌, List, [], ◌∷◌, ◌++◌, Option, none, some, Bool, true, false, ◌==◌, if◌then◌else◌,
  length, Text, codes, text_eq, is_empty,
}
use pcos.Agent.Jail.{
  PathBuf, parent, cleaned, invalid_root, not_found, resolved, refused, safe_resolve,
}
use pcos.Agent.Jail.Disk.{
  Object, contents, directory, symlink, Disk, path_eq, nodes, object_at, file_name,
}
use pcos.Agent.Jail.Operations.{FsResult, success, failure, at_path}

pub data EntryType : Type 0 where
  a_folder a_file : EntryType

pub record FsEntry : Type 0 where
  pub name : Text
  pub relative_path : Text
  pub entry_type : EntryType
  pub size_bytes : ℕ
  pub modified_at : Option Text
  pub mime_type : Option Text
  pub is_readonly : Bool

pub record ListDirResult : Type 0 where
  pub relative_path : Text
  pub entries : List FsEntry
  pub total_count : ℕ

pub record StatResult : Type 0 where
  pub exists : Bool
  pub entry : Option FsEntry

-- What is behind the last dot; all of it where there is none.
abbrev pub extension_from : Text → Text → Text
extension_from ext [] = ext
extension_from ext (c ∷ name) =
    if c == b'.' then extension_from name name else extension_from ext name

abbrev pub known_types : List (Text × Text)
known_types =
    (codes "mp4", codes "video/mp4")
    ∷ (codes "m4v", codes "video/mp4")
    ∷ (codes "mkv", codes "video/x-matroska")
    ∷ (codes "webm", codes "video/webm")
    ∷ (codes "mov", codes "video/quicktime")
    ∷ (codes "avi", codes "video/x-msvideo")
    ∷ (codes "mp3", codes "audio/mpeg")
    ∷ (codes "flac", codes "audio/flac")
    ∷ (codes "wav", codes "audio/wav")
    ∷ (codes "m4a", codes "audio/mp4")
    ∷ (codes "ogg", codes "audio/ogg")
    ∷ (codes "jpg", codes "image/jpeg")
    ∷ (codes "jpeg", codes "image/jpeg")
    ∷ (codes "png", codes "image/png")
    ∷ (codes "gif", codes "image/gif")
    ∷ (codes "webp", codes "image/webp")
    ∷ (codes "svg", codes "image/svg+xml")
    ∷ (codes "pdf", codes "application/pdf")
    ∷ (codes "json", codes "application/json")
    ∷ (codes "txt", codes "text/plain")
    ∷ (codes "md", codes "text/plain")
    ∷ (codes "rs", codes "text/plain")
    ∷ (codes "ts", codes "text/plain")
    ∷ (codes "dart", codes "text/plain")
    ∷ (codes "toml", codes "text/plain")
    ∷ (codes "yaml", codes "text/plain")
    ∷ (codes "yml", codes "text/plain")
    ∷ (codes "html", codes "text/html")
    ∷ (codes "htm", codes "text/html")
    ∷ (codes "zip", codes "application/zip")
    ∷ (codes "tar", codes "application/x-tar")
    ∷ (codes "gz", codes "application/gzip")
    ∷ []

abbrev pub type_of : List (Text × Text) → Text → Text
type_of [] ext = codes "application/octet-stream"
type_of ((e, mime) ∷ types) ext = if text_eq e ext then mime else type_of types ext

-- The length of a link is that of its target.
abbrev pub link_size : PathBuf → ℕ
link_size [] = 0
link_size (c ∷ target) = suc (length c) + link_size target

module _ (to_lowercase : Text → Text) (modified : PathBuf → Option Text)
    (readonly : PathBuf → Bool) where
  unfoldable pub guess_mime_type : Text → Text
  guess_mime_type filename =
      let lower = to_lowercase filename in type_of known_types (extension_from lower lower)

  abbrev pub folder_entry : PathBuf → Text → Text → FsEntry
  folder_entry at name rel = record {
    name = name;
    relative_path = rel;
    entry_type = a_folder;
    size_bytes = 0;
    modified_at = modified at;
    mime_type = none;
    is_readonly = readonly at;
  }

  abbrev pub file_entry : PathBuf → Text → Text → ℕ → FsEntry
  file_entry at name rel size = record {
    name = name;
    relative_path = rel;
    entry_type = a_file;
    size_bytes = size;
    modified_at = modified at;
    mime_type = some (guess_mime_type name);
    is_readonly = readonly at;
  }

  -- The metadata of an entry of a folder: a link is not followed.
  abbrev pub entry_of : PathBuf → Text → Text → Object → FsEntry
  entry_of at name rel directory = folder_entry at name rel
  entry_of at name rel (contents bytes) = file_entry at name rel (length bytes)
  entry_of at name rel (symlink target) = file_entry at name rel (link_size target)

  abbrev pub text_of : PathBuf → Text
  text_of [] = []
  text_of (c ∷ rest) = c

  abbrev pub entry_rel : Text → Text → Text
  entry_rel clean_rel name = if is_empty clean_rel then name else clean_rel ++ (b'/' ∷ name)

  -- The root of the file system is no entry of itself.
  abbrev pub is_child : PathBuf → PathBuf → Bool
  is_child full_path [] = false
  is_child full_path (c ∷ at) = path_eq (parent (c ∷ at)) full_path

  unfoldable pub read_dir : PathBuf → Text → Disk → List FsEntry
  read_dir full_path clean_rel [] = []
  read_dir full_path clean_rel ((at, o) ∷ disk) =
      let rest = read_dir full_path clean_rel disk in
      if is_child full_path at
      then entry_of at (text_of (file_name at)) (entry_rel clean_rel (text_of (file_name at))) o
        ∷ rest
      else rest

  -- Folders first, then by name without regard to case.
  abbrev pub entry_le : FsEntry → FsEntry → Bool
  entry_le a b = elim (a.entry_type) [
    | a_folder ↦ elim (b.entry_type) [
      | a_folder ↦ text_le (to_lowercase a.name) (to_lowercase b.name)
      | a_file ↦ true
    ]
    | a_file ↦ elim (b.entry_type) [
      | a_folder ↦ false
      | a_file ↦ text_le (to_lowercase a.name) (to_lowercase b.name)
    ]
  ]

  abbrev pub list_object : Disk → PathBuf → Text → Option Object → FsResult ListDirResult
  list_object disk full_path clean_rel none = failure not_found
  list_object disk full_path clean_rel (some (contents bytes)) = failure invalid_root
  list_object disk full_path clean_rel (some (symlink target)) = failure invalid_root
  list_object disk full_path clean_rel (some directory) =
      let entries = sort_by entry_le (read_dir full_path clean_rel disk) in
      success
        (record { relative_path = clean_rel; entries = entries; total_count = length entries })

  unfoldable pub list_dir : Disk → PathBuf → Text → FsResult ListDirResult
  list_dir disk root rel_path =
      at_path (safe_resolve (nodes disk) root rel_path)
        (λ full_path. list_object disk full_path (cleaned rel_path) (object_at disk full_path))

  abbrev pub name_or_root : PathBuf → Text
  name_or_root [] = codes "root"
  name_or_root (c ∷ rest) = c

  abbrev pub stat_object : PathBuf → Text → Option Object → FsResult StatResult
  stat_object full_path clean_rel none = success (record { exists = false; entry = none })
  stat_object full_path clean_rel (some o) =
      let name = name_or_root (file_name full_path) in
      success (record { exists = true; entry = some (entry_of full_path name clean_rel o) })

  -- `safe_resolve` never answers that nothing is found.
  unfoldable pub stat : Disk → PathBuf → Text → FsResult StatResult
  stat disk root rel_path = elim (safe_resolve (nodes disk) root rel_path) [
    | resolved full_path ↦ stat_object full_path (cleaned rel_path) (object_at disk full_path)
    | refused not_found ↦ success (record { exists = false; entry = none })
    | refused e ↦ failure e
  ]
