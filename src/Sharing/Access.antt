-- ===== src/Sharing/Access.antt =====
-- Who can do what: the owner of a link, a visitor with its password, and a visitor who uploads.
use mathlib.Core.List.{map}
use pcos.Prelude.{
  ℕ, ◌≡◌, ◌≢◌, ◌⊎◌, refl, ap, ◌∙◌, List, [], ◌∷◌, ◌++◌, Option, none, some, Bool, true, false,
  arith, any, any_skip, All, Text, text_eq_self, text_eq_iff, ◌==◌, Bool-cases, inl, inr,
  if◌then◌else◌,
}
use pcos.Common.Error.{not_found, unauthorized, database}
use pcos.Common.Result.{AppResult, ok, err, ◌>>=◌}
use pcos.Sharing.{
  ShareLink, CreateShareRequest, UpdateShareRequest, SharedFile, Shares, SharedFileInfo, find_link,
  find_file, update_link, map_hours, is_expired, is_exhausted, owns_file, owns_link, is_permission,
  is_open, get_share, delete_share, hashed, created, create_share, updated, set_columns,
  update_share, check_password, access_shared,
}
use pcos.Sharing.Handlers.{Field, is_upload, upload_shared}

abbrev pub HasOtherToken : Text → ShareLink → Type 0
HasOtherToken token l = l.token ≢ token

find_link-new :
    (token : Text) (ls : List ShareLink) (l : ShareLink)
    → All (HasOtherToken token) ls
    → is_open token l ≡ true
    → find_link (is_open token) (ls ++ l ∷ []) ≡ some l
unfolding find_link
find_link-new token [] l h e = rw e refl
find_link-new token (k ∷ ls) l h e =
    let other : is_open token k ≡ false = ground (arith, h.0, (text_eq_iff k.token token).0) in
    rw other (find_link-new token ls l h.1 e)

find_file-owns_file :
    (user file : ℕ) (fs : List SharedFile) (f : SharedFile)
    → find_file (λ f. f.id == file) fs ≡ some f
    → f.user_id ≡ user
    → find_file (owns_file user file) fs ≡ some f
unfolding find_file
find_file-owns_file user file [] f h e = h
find_file-owns_file user file (g ∷ fs) f h e =
    let rec = find_file-owns_file user file fs f in ground arith

module _ (hash_password : Text → Option Text) (verify_password : Text → Text → Option Bool) where
  abbrev pub info : SharedFile → Text → SharedFileInfo
  info f permission = record {
    name = f.name;
    entry_type = f.entry_type;
    mime_type = f.mime_type;
    size_bytes = f.size_bytes;
    permission = permission;
  }

  abbrev new_link : ℕ → ℕ → CreateShareRequest → ℕ → Text → Text → ShareLink
  new_link now user req id token h = record {
    id = id;
    user_id = user;
    file_entry_id = req.file_entry_id;
    token = token;
    permission = req.permission;
    password_hash = some h;
    expires_at = map_hours now req.expires_in_hours;
    max_downloads = req.max_downloads;
    download_count = 0;
    is_active = true;
  }

  create_share-new_link :
      (now user id : ℕ) (req : CreateShareRequest) (token p h : Text) (f : SharedFile) (s : Shares)
      → find_file (owns_file user req.file_entry_id) s.files ≡ some f
      → req.password ≡ some p
      → hash_password p ≡ some h
      → is_permission req.permission ≡ true
      → create_share hash_password verify_password now user req id token s ≡ (
        ok (new_link now user req id token h),
        record s { links = s.links ++ new_link now user req id token h ∷ [] },
      )
  unfolding create_share created hashed
  create_share-new_link now user id req token p h f s found pw hash allowed =
      rw (found, create_share, created, pw, hashed, hash, allowed) refl

  access_shared-found :
      (later : ℕ) (token : Text) (password : Option Text) (l : ShareLink) (f : SharedFile)
      (s : Shares)
      → find_link (is_open token) s.links ≡ some l
      → is_expired later l.expires_at ≡ false
      → is_exhausted l.max_downloads l.download_count ≡ false
      → find_file (λ f. f.id == l.file_entry_id) s.files ≡ some f
      → access_shared hash_password verify_password later token password s ≡ (
          check_password hash_password verify_password password l.password_hash >>= λ _.
          ok (info f l.permission))
  unfolding access_shared
  access_shared-found later token password l f s link current room file =
      rw (link, current, room, file) refl

  -- A link with a password, from its creation to its use. Where a user shares a file of theirs with a
  -- password, under a token that no link has and a permission that the table allows, then before it expires, and with a limit above 0 or none,
  -- the password that was set opens the file, no password is answered with an error, and so is one
  -- that does not verify against the hash that was stored.
  pub create_then_access :
      (now later user id : ℕ) (req : CreateShareRequest) (token p wrong h : Text) (f : SharedFile)
      (s : Shares)
      → find_file (λ f. f.id == req.file_entry_id) s.files ≡ some f
      → f.user_id ≡ user
      → All (HasOtherToken token) s.links
      → req.password ≡ some p
      → hash_password p ≡ some h
      → is_permission req.permission ≡ true
      → verify_password p h ≡ some true
      → verify_password wrong h ≡ some false
      → is_expired later (map_hours now req.expires_in_hours) ≡ false
      → is_exhausted req.max_downloads 0 ≡ false
      → let s' = (create_share hash_password verify_password now user req id token s).1 in
        (access_shared hash_password verify_password later token (some p) s'
          ≡ ok (info f req.permission))
        × (access_shared hash_password verify_password later token none s'
            ≡ err (unauthorized "Password required"))
        × (access_shared hash_password verify_password later token (some wrong) s'
            ≡ err (unauthorized "Invalid password"))
  unfolding check_password
  create_then_access now later user id req token p wrong h f s found mine fresh pw hash allowed
        right bad current room =
      let l = new_link now user req id token h in
      let link = find_link-new token s.links l fresh (rw (text_eq_self token) refl) in
      let owned = find_file-owns_file user req.file_entry_id s.files f found mine in
      let s' : Shares = record s { links = s.links ++ l ∷ [] } in
      rw (create_share-new_link now user id req token p h f s owned pw hash allowed) (
        access_shared-found later token (some p) l f s' link current room found ∙ rw right refl,
        access_shared-found later token none l f s' link current room found,
        access_shared-found later token (some wrong) l f s' link current room found ∙ rw bad refl,
      )

-- Another link, or another user's.
abbrev pub IsForeign : ℕ → ℕ → ShareLink → Type 0
IsForeign user id l = (l.id ≢ id) ⊎ (l.user_id ≢ user)

not_owned :
    (user id : ℕ) (ls : List ShareLink)
    → All (IsForeign user id) ls
    → All (λ (l : ShareLink). owns_link user id l ≡ false) ls
not_owned user id [] h = tt
not_owned user id (l ∷ ls) (foreign, h) = (
  elim foreign [ inl other ↦ ground (arith, other) | inr other ↦ ground (arith, other) ],
  not_owned user id ls h,
)

abbrev pub unprotected : ShareLink → ShareLink
unprotected l = record l { password_hash = none; max_downloads = none }

find_link-unprotected :
    (token : Text) (ls : List ShareLink)
    → (find_link (is_upload token) (map unprotected ls) ≡ none)
        × (find_link (is_upload token) ls ≡ none)
      ⊎ ((l : ShareLink) × (find_link (is_upload token) (map unprotected ls) ≡ some (unprotected l))
          × (find_link (is_upload token) ls ≡ some l))
unfolding find_link
find_link-unprotected token [] = inl (refl, refl)
find_link-unprotected token (k ∷ ls) = elim (Bool-cases (is_upload token k)) [
  | inl e ↦ rw e (inr (k, refl, refl))
  | inr e ↦ rw e (find_link-unprotected token ls)
]

-- Uploading through a link does not look at its password, nor at its limit: `upload_shared`, which no
-- password is passed to, answers the same with the passwords and the limits of all links removed.
pub upload_shared_ignores_password :
    (now : ℕ) (token : Text) (fields : List Field) (s : Shares)
    → upload_shared now token fields (record s { links = map unprotected s.links })
      ≡ upload_shared now token fields s
unfolding upload_shared
upload_shared_ignores_password now token fields s = elim (find_link-unprotected token s.links) [
  | inl (e, e') ↦ rw (e, e') refl
  | inr (l, e, e') ↦ rw (e, e') refl
]

-- What an update cannot change of a link.
abbrev pub identity : ShareLink → ℕ × ℕ × ℕ × Text × ℕ
identity l = (l.id, l.user_id, l.file_entry_id, l.token, l.download_count)

update_link-identity :
    (id : ℕ) (f : ShareLink → ShareLink) (ls : List ShareLink)
    → ((l : ShareLink) → identity (f l) ≡ identity l)
    → map identity (update_link id f ls) ≡ map identity ls
unfolding update_link
update_link-identity id f [] h = refl
update_link-identity id f (l ∷ ls) h = elim (Bool-cases (l.id == id)) [
  | inl e ↦ rw e (λ i. h l i ∷ update_link-identity id f ls h i)
  | inr e ↦ rw e (ap (λ xs. identity l ∷ xs) (update_link-identity id f ls h))
]

find_link-none :
    (p : ShareLink → Bool) (ls : List ShareLink)
    → All (λ (l : ShareLink). p l ≡ false) ls
    → (find_link p ls ≡ none) × (any p ls ≡ false)
unfolding find_link
find_link-none p [] h = (refl, refl)
find_link-none p (l ∷ ls) h =
    let rest = find_link-none p ls h.1 in (rw h.0 rest.0, any_skip p l ls h.0 ∙ rest.1)

module _ (hash_password : Text → Option Text) (verify_password : Text → Text → Option Bool) where
  -- Who does not own a link cannot change it: where each link has another identifier or another user,
  -- `get_share`, `update_share` and `delete_share` answer that there is none, and nothing changes.
  pub strangers_refused :
      (now user id : ℕ) (req : UpdateShareRequest) (s : Shares)
      → All (IsForeign user id) s.links
      → (get_share user id s ≡ err (not_found "Share not found"))
        × (update_share hash_password verify_password now user id req s
            ≡ (err (not_found "Share not found"), s))
        × (delete_share user id s ≡ (err (not_found "Share not found"), s))
  unfolding get_share update_share updated delete_share
  strangers_refused now user id req s h =
      let gone = find_link-none (owns_link user id) s.links (not_owned user id s.links h) in
      (rw gone.0 refl, rw (gone.0, update_share, updated, get_share) refl, rw gone.1 refl)

  -- On every branch `update_share` leaves each link its identifier, its owner, its file, its token and
  -- its count of downloads, and leaves the files.
  pub update_share_keeps :
      (now user id : ℕ) (req : UpdateShareRequest) (s : Shares)
      → let s' = (update_share hash_password verify_password now user id req s).1 in
        (map identity s'.links ≡ map identity s.links) × (s'.files ≡ s.files)
  unfolding update_share
  update_share_keeps now user id req s =
      finished (updated hash_password verify_password now user id req s)
    where
      finished :
          (r : AppResult ShareLink)
          → let after : AppResult ShareLink × Shares = elim r [
            | err e ↦ (err e, s)
            | ok l ↦
                if is_permission l.permission
                then (
                  ok l,
                  record s {
                    links = update_link id (set_columns hash_password verify_password l) s.links;
                  },
                )
                else (err (database "constraint"), s)
          ] in
            (map identity after.1.links ≡ map identity s.links) × (after.1.files ≡ s.files)
      finished (err e) = (refl, refl)
      finished (ok l) = elim (Bool-cases (is_permission l.permission)) [
        | inl e ↦ rw e (
          update_link-identity id (set_columns hash_password verify_password l) s.links (λ k. refl),
          refl,
        )
        | inr e ↦ rw e (refl, refl)
      ]
