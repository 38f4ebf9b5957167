-- ===== src/Sharing/Handlers.antt =====
-- The public handlers of backend/crates/sharing/src/handlers.rs that are more than a call of the service:
-- `download_shared` and `upload_shared`, and `create_share` with its validation. Reading a file of the storage is an argument that can fail. Of an
-- upload what is decided before the file is stored is modelled: the owner, the folder and the file.
use pcos.Prelude.{
  ℕ, List, [], ◌∷◌, Option, none, some, Bool, not, ◌&&◌, ◌||◌, ◌==◌, if◌then◌else◌, Text, codes,
  text_eq, is_empty,
}
use pcos.Common.Error.{not_found, forbidden, unauthorized, internal, validation, database}
use pcos.Common.Result.{AppResult, ok, err, ◌>>=◌, ◌>>◌, reject_if}
use pcos.Sharing.{
  ShareLink, SharedFile, Shares, find_link, find_file, ok_or, or_else, or_value, is_expired,
  is_exhausted, is_open, is_download, count_download, CreateShareRequest, create_share,
}

pub record Download : Type 0 where
  pub link : ShareLink
  pub name : Text
  pub content_type : Text
  pub bytes : List ℕ

module _ (verify_password : Text → Text → Option Bool) (read_file : Text → Option (List ℕ)) where
  -- The password is the query's, or else the header's.
  unfoldable pub check_share_password : Option Text → Option Text → AppResult (Unit {0})
  check_share_password provided none = ok tt
  check_share_password none (some h) =
      err (unauthorized "Password required to download this shared file")
  check_share_password (some p) (some h) = elim (verify_password p h) [
    | none ↦ err (internal "Invalid password hash")
    | some b ↦ reject_if (not b) (unauthorized "Invalid share password")
  ]

  -- The link, where it is active, permits downloads, has not expired and is below its limit.
  unfoldable pub admitted_link : ℕ → Text → Shares → AppResult ShareLink
  admitted_link now token s = do
    l ←
        ok_or (not_found "Share not found or no download permission")
          (find_link (is_download token) s.links)
    reject_if (is_expired now l.expires_at) (forbidden "Share link expired")
    reject_if (is_exhausted l.max_downloads l.download_count) (forbidden "Download limit reached")
    ok l

  -- The file of a link, where the password is right.
  unfoldable pub shared_contents :
      Option Text → Option Text → Shares → ShareLink → AppResult (SharedFile × List ℕ)
  shared_contents query header s l = do
    check_share_password (or_else query header) l.password_hash
    f ← ok_or (database "no row") (find_file (λ f. f.id == l.file_entry_id) s.files)
    path ← ok_or (internal "File has no storage path") f.storage_path
    contents ← ok_or (internal "Failed to read file") (read_file path)
    ok (f, contents)

  abbrev pub answer : ShareLink → SharedFile × List ℕ → Download
  answer l (f, contents) = record {
    link = l;
    name = f.name;
    content_type = or_value f.mime_type (codes "application/octet-stream");
    bytes = contents;
  }

  -- What `download_shared` does before it counts.
  unfoldable pub admit : ℕ → Text → Option Text → Option Text → Shares → AppResult Download
  admit now token query header s = do
    l ← admitted_link now token s
    found ← shared_contents query header s l
    ok (answer l found)

  unfoldable pub download_shared :
      ℕ → Text → Option Text → Option Text → Shares → AppResult Download × Shares
  download_shared now token query header s = elim (admit now token query header s) [
    | err e ↦ (err e, s)
    | ok d ↦ let (r, s') = count_download d.link.id s in (r >>= λ _. ok d, s')
  ]

pub record Upload : Type 0 where
  pub owner : ℕ
  pub folder : Option ℕ
  pub filename : Text
  pub content_type : Text
  pub bytes : List ℕ

-- A field of the multipart body.
pub record Field : Type 0 where
  pub name : Option Text
  pub file_name : Option Text
  pub content_type : Option Text
  pub bytes : List ℕ

abbrev pub is_upload : Text → ShareLink → Bool
is_upload token l =
    is_open token l
    && (text_eq l.permission (codes "upload") || text_eq l.permission (codes "view_upload"))

-- The loop over the fields: the first one that is called `file`.
unfoldable pub find_field : List Field → Option Field
find_field [] = none
find_field (f ∷ fs) = if text_eq (or_value f.name []) (codes "file") then some f else find_field fs

unfoldable pub upload_shared : ℕ → Text → List Field → Shares → AppResult Upload
upload_shared now token fields s = do
  l ←
      ok_or (not_found "Share link not found or does not permit uploads")
        (find_link (is_upload token) s.links)
  reject_if (is_expired now l.expires_at) (forbidden "Share link expired")
  target ←
      ok_or (not_found "Shared destination folder not found")
        (find_file (λ f. f.id == l.file_entry_id) s.files)
  field ← ok_or (validation "No file provided in upload") (find_field fields)
  ok (record {
    owner = l.user_id;
    folder =
        if text_eq target.entry_type (codes "folder") then some target.id else target.parent_id;
    filename = or_value field.file_name (codes "unnamed_upload");
    content_type = or_value field.content_type (codes "application/octet-stream");
    bytes = field.bytes;
  })

-- The handler `create_share`: `length(min = 1)` on the permission, and the call of the service.
unfoldable pub handle_create_share :
    (Text → Option Text)
    → (Text → Text → Option Bool)
    → ℕ
    → ℕ
    → CreateShareRequest
    → ℕ
    → Text
    → Shares
    → AppResult ShareLink × Shares
handle_create_share hash_password verify_password now user req id token s =
    if is_empty req.permission
    then (err (validation "permission: length"), s)
    else create_share hash_password verify_password now user req id token s
