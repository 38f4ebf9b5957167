-- ===== src/Sharing.antt =====
-- Share links: backend/crates/sharing/src/service.rs, with the types of models.rs beside it. The state
-- is the tables `share_links` and `file_entries`, here the columns that sharing reads. Identifiers and
-- times are numbers, a time in seconds since the epoch; a time before it counts as 0. Queries
-- succeed, but a count of downloads past the largest 32-bit integer and a permission that the CHECK of
-- migrations/20240101000011 does not list are refused by the database; new identifiers and tokens are new. The
-- hashing and verification of passwords (common/src/auth/password.rs, on the argon2 crate) are arguments
-- that can fail.
pub mod Handlers
pub mod Limit
pub mod Runs
pub mod Access
mod Examples
use pcos.Prelude.{
  ℕ, suc, ◌+◌, ◌-◌, ◌*◌, ◌^◌, List, [], ◌∷◌, ◌++◌, Option, none, some, Bool, true, false, not, ◌&&◌,
  ◌||◌, ltb, leb, ◌==◌, if◌then◌else◌, Text, codes, text_eq, ℤ, pos, negsuc, any,
}
use pcos.Common.Error.{AppError, not_found, forbidden, unauthorized, internal, database}
use pcos.Common.Result.{AppResult, ok, err, ◌>>=◌, ◌>>◌, reject_if}

pub record ShareLink : Type 0 where
  pub id : ℕ
  pub user_id : ℕ
  pub file_entry_id : ℕ
  pub token : Text
  pub permission : Text
  pub password_hash : Option Text
  pub expires_at : Option ℕ
  pub max_downloads : Option ℤ
  pub download_count : ℕ
  pub is_active : Bool

pub record CreateShareRequest : Type 0 where
  pub file_entry_id : ℕ
  pub permission : Text
  pub password : Option Text
  pub expires_in_hours : Option ℤ
  pub max_downloads : Option ℤ

pub record UpdateShareRequest : Type 0 where
  pub permission : Option Text
  pub password : Option Text
  pub expires_in_hours : Option ℤ
  pub max_downloads : Option ℤ
  pub is_active : Option Bool

pub record SharedFile : Type 0 where
  pub id : ℕ
  pub user_id : ℕ
  pub parent_id : Option ℕ
  pub name : Text
  pub entry_type : Text
  pub mime_type : Option Text
  pub size_bytes : ℕ
  pub storage_path : Option Text

pub record Shares : Type 0 where
  pub links : List ShareLink
  pub files : List SharedFile

pub record SharedFileInfo : Type 0 where
  pub name : Text
  pub entry_type : Text
  pub mime_type : Option Text
  pub size_bytes : ℕ
  pub permission : Text

-- `fetch_optional` of the first row that a test holds of.
unfoldable pub find_link : (ShareLink → Bool) → List ShareLink → Option ShareLink
find_link p [] = none
find_link p (l ∷ ls) = if p l then some l else find_link p ls

unfoldable pub find_file : (SharedFile → Bool) → List SharedFile → Option SharedFile
find_file p [] = none
find_file p (f ∷ fs) = if p f then some f else find_file p fs

unfoldable pub update_link : ℕ → (ShareLink → ShareLink) → List ShareLink → List ShareLink
update_link id f [] = []
update_link id f (l ∷ ls) = (if l.id == id then f l else l) ∷ update_link id f ls

abbrev pub ok_or {ℓ} : {A : Type ℓ} → AppError → Option A → AppResult A
ok_or e none = err e
ok_or e (some a) = ok a

-- `Utc::now() + Duration::hours(h)`.
abbrev pub hours_after : ℕ → ℤ → ℕ
hours_after now (pos h) = now + 3600 * h
hours_after now (negsuc h) = now - 3600 * suc h

abbrev pub map_hours : ℕ → Option ℤ → Option ℕ
map_hours now none = none
map_hours now (some h) = some (hours_after now h)

abbrev pub or_else {ℓ} : {A : Type ℓ} → Option A → Option A → Option A
or_else none b = b
or_else (some a) b = some a

abbrev pub or_value {ℓ} : {A : Type ℓ} → Option A → A → A
or_value none b = b
or_value (some a) b = a

-- `Utc::now() > exp`, of a link that has an expiry.
abbrev pub is_expired : ℕ → Option ℕ → Bool
is_expired now none = false
is_expired now (some exp) = ltb exp now

-- `download_count >= max`, of a link that has a limit.
abbrev pub is_exhausted : Option ℤ → ℕ → Bool
is_exhausted none count = false
is_exhausted (some (pos max)) count = leb max count
is_exhausted (some (negsuc max)) count = true

-- `UPDATE share_links SET download_count = download_count + 1 WHERE id = $1`.
abbrev pub counted : ShareLink → ShareLink
counted l = record l { download_count = suc l.download_count }

abbrev pub is_full : ℕ → ShareLink → Bool
is_full id l = l.id == id && leb (2 ^ 31 - 1) l.download_count

unfoldable pub count_download : ℕ → Shares → AppResult (Unit {0}) × Shares
count_download id s =
    if any (is_full id) s.links
    then (err (database "integer out of range"), s)
    else (ok tt, record s { links = update_link id counted s.links })

abbrev pub owns_file : ℕ → ℕ → SharedFile → Bool
owns_file user file f = f.id == file && f.user_id == user

-- `WHERE id = $1 AND user_id = $2`, of `get_share`, with which `update_share` begins, and of `delete_share`.
abbrev pub owns_link : ℕ → ℕ → ShareLink → Bool
owns_link user id l = l.id == id && l.user_id == user

-- `CHECK (permission IN ('view', 'download', 'upload'))`.
abbrev pub is_permission : Text → Bool
is_permission p =
    text_eq p (codes "view") || text_eq p (codes "download") || text_eq p (codes "upload")

abbrev pub is_open : Text → ShareLink → Bool
is_open token l = text_eq l.token token && l.is_active

abbrev pub is_download : Text → ShareLink → Bool
is_download token l = is_open token l && text_eq l.permission (codes "download")

unfoldable pub list_shares : ℕ → List ShareLink → List ShareLink
list_shares user [] = []
list_shares user (l ∷ ls) =
    if l.user_id == user then l ∷ list_shares user ls else list_shares user ls

unfoldable pub get_share : ℕ → ℕ → Shares → AppResult ShareLink
get_share user id s = ok_or (not_found "Share not found") (find_link (owns_link user id) s.links)

unfoldable pub remove_link : ℕ → ℕ → List ShareLink → List ShareLink
remove_link user id [] = []
remove_link user id (l ∷ ls) =
    if owns_link user id l then remove_link user id ls else l ∷ remove_link user id ls

-- An error where no row was affected.
unfoldable pub delete_share : ℕ → ℕ → Shares → AppResult (Unit {0}) × Shares
delete_share user id s =
    if any (owns_link user id) s.links
    then (ok tt, record s { links = remove_link user id s.links })
    else (err (not_found "Share not found"), s)

-- `service::download_shared`, which answers the name and a placeholder for the contents.
pub found_path : Option SharedFile → AppResult (Text × List ℕ)
found_path none = err (database "no row")
found_path (some f) = elim f.storage_path [
  | none ↦ err (internal "No storage path")
  | some _ ↦ ok (f.name, [])
]

abbrev pub check_download : ℕ → Text → Shares → AppResult ShareLink
check_download now token s = do
  l ←
      ok_or (not_found "Share not found or no download permission")
        (find_link (is_download token) s.links)
  reject_if (is_expired now l.expires_at) (forbidden "Expired")
  reject_if (is_exhausted l.max_downloads l.download_count) (forbidden "Limit reached")
  ok l

pub download_shared : ℕ → Text → Shares → AppResult (Text × List ℕ) × Shares
unfolding count_download
download_shared now token s = elim (check_download now token s) [
  | err e ↦ (err e, s)
  | ok l ↦
      let (r, s') = count_download l.id s in
      (r >>= λ _. found_path (find_file (λ f. f.id == l.file_entry_id) s'.files), s')
]

module _ (hash_password : Text → Option Text) (verify_password : Text → Text → Option Bool) where
  unfoldable pub hashed : Option Text → Option Text → AppResult (Option Text)
  hashed none old = ok old
  hashed (some p) old = elim (hash_password p) [
    | none ↦ err (internal "password hash")
    | some h ↦ ok (some h)
  ]

  -- `create_share`, with the new identifier and token.
  unfoldable pub created : ℕ → ℕ → CreateShareRequest → ℕ → Text → Shares → AppResult ShareLink
  created now user req id token s = do
    file ← ok_or (not_found "File not found") (find_file (owns_file user req.file_entry_id) s.files)
    pwd_hash ← hashed req.password none
    ok (record {
      id = id;
      user_id = user;
      file_entry_id = req.file_entry_id;
      token = token;
      permission = req.permission;
      password_hash = pwd_hash;
      expires_at = map_hours now req.expires_in_hours;
      max_downloads = req.max_downloads;
      download_count = 0;
      is_active = true;
    })

  unfoldable pub create_share :
      ℕ → ℕ → CreateShareRequest → ℕ → Text → Shares → AppResult ShareLink × Shares
  create_share now user req id token s = elim (created now user req id token s) [
    | err e ↦ (err e, s)
    | ok l ↦
        if is_permission l.permission
        then (ok l, record s { links = s.links ++ l ∷ [] })
        else (err (database "constraint"), s)
  ]

  unfoldable pub updated : ℕ → ℕ → ℕ → UpdateShareRequest → Shares → AppResult ShareLink
  updated now user id req s = do
    l ← get_share user id s
    pwd_hash ← hashed req.password l.password_hash
    ok (record l {
      permission = or_value req.permission l.permission;
      password_hash = pwd_hash;
      expires_at = or_else (map_hours now req.expires_in_hours) l.expires_at;
      max_downloads = or_else req.max_downloads l.max_downloads;
      is_active = or_value req.is_active l.is_active;
    })

  -- The columns that the UPDATE sets.
  abbrev pub set_columns : ShareLink → ShareLink → ShareLink
  set_columns new l = record l {
    permission = new.permission;
    password_hash = new.password_hash;
    expires_at = new.expires_at;
    max_downloads = new.max_downloads;
    is_active = new.is_active;
  }

  unfoldable pub update_share :
      ℕ → ℕ → ℕ → UpdateShareRequest → Shares → AppResult ShareLink × Shares
  update_share now user id req s = elim (updated now user id req s) [
    | err e ↦ (err e, s)
    | ok l ↦
        if is_permission l.permission
        then (ok l, record s { links = update_link id (set_columns l) s.links })
        else (err (database "constraint"), s)
  ]

  unfoldable pub check_password : Option Text → Option Text → AppResult (Unit {0})
  check_password password none = ok tt
  check_password none (some h) = err (unauthorized "Password required")
  check_password (some p) (some h) = elim (verify_password p h) [
    | none ↦ err (internal "Invalid password hash")
    | some b ↦ reject_if (not b) (unauthorized "Invalid password")
  ]

  unfoldable pub access_shared : ℕ → Text → Option Text → Shares → AppResult SharedFileInfo
  access_shared now token password s = do
    l ← ok_or (not_found "Share link not found or expired") (find_link (is_open token) s.links)
    reject_if (is_expired now l.expires_at) (forbidden "Share link has expired")
    reject_if (is_exhausted l.max_downloads l.download_count) (forbidden "Download limit reached")
    check_password password l.password_hash
    f ← ok_or (database "no row") (find_file (λ f. f.id == l.file_entry_id) s.files)
    ok (record {
      name = f.name;
      entry_type = f.entry_type;
      mime_type = f.mime_type;
      size_bytes = f.size_bytes;
      permission = l.permission;
    })
