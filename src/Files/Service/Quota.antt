-- ===== src/Files/Service/Quota.antt =====
-- Uploads and the users' quotas: `upload_file`, `complete_chunked_upload`, `download_file` of
-- backend/crates/file_metadata/src/service.rs.
use mathlib.Core.Path.{subst}
use pcos.Prelude.{
  ℤ, ℕ, ◌+◌, ◌^◌, ◌≤◌, ◌<◌, ◌≡◌, inl, inr, refl, sym, ap, ◌∙◌, arith, List, [], ◌∷◌, ◌++◌, Option,
  none, some, true, not, ◌&&◌, ◌==◌, if◌then◌else◌, length, Text, text_eq_self, Bool-cases,
}
use pcos.Common.Error.{AppError}
use pcos.Common.Result.{AppResult, ok, err, ◌>>=◌, reject_if_ok, bind_ok}
use pcos.Common.Digest.{Hasher, digest}
use pcos.Files.Storage.{Disk, Assembled, store_file, file_path, assemble_chunks}
use pcos.Files.Resumable.{or_default, exceeds, read_sum}
use pcos.Files.Table.{Row, commit, find_row}
use pcos.Files.Service.{
  Store, FileEntryResponse, to_response, settle, verify_ownership, verify_parent, used_bytes,
  check_storage_quota, new_file, insert_file, check_upload, upload_file, insert_assembled,
  complete_chunked_upload, download_file,
}
use pcos.Files.Service.Deletion.{commit_cases}

-- What a new row counts for a user.
abbrev pub counts_for : ℕ → Row → ℕ
counts_for user r = if (r.user_id == user) && not r.is_trashed then r.size_bytes else 0

used_bytes-append :
    (user : ℕ) (rows : List Row) (r : Row)
    → used_bytes user (rows ++ r ∷ []) ≡ used_bytes user rows + counts_for user r
unfolding used_bytes
used_bytes-append user [] r = omega arith
used_bytes-append user (s ∷ rows) r = omega (arith, used_bytes-append user rows r)

find_row-append :
    (user item : ℕ) (rows : List Row) (r : Row)
    → find_row user item rows ≡ none
    → (r.id == item) && (r.user_id == user) ≡ true
    → find_row user item (rows ++ r ∷ []) ≡ some r
unfolding find_row
find_row-append user item [] r none_ h = rw h refl
find_row-append user item (s ∷ rows) r none_ h =
    elim (Bool-cases ((s.id == item) && (s.user_id == user))) [
      | inl e ↦ absurd (let n = rw e at none_ in ground arith)
      | inr e ↦ rw (e, find_row) (find_row-append user item rows r (rw e at none_) h)
    ]

-- A row that is inserted stands at the end of the table.
insert_file_ok :
    (r : Row) (s after : Store) (answer : FileEntryResponse)
    → insert_file r s ≡ (ok answer, after)
    → (record s { rows = s.rows ++ r ∷ [] } ≡ after) × (to_response r ≡ answer)
insert_file_ok r s after answer h = elim (commit_cases (s.rows ++ r ∷ [])) [
  | inl e ↦ let h' = rw e at h in (ap (λ p. p.1) h', ok_of (ap (λ p. p.0) h'))
  | inr (f, e) ↦ absurd (let h' = rw e at h in not_ok (ap (λ p. p.0) h'))
]
  where
    ok_of : {a b : FileEntryResponse} → ok a ≡ ok b → a ≡ b
    ok_of h = cc

    not_ok : {e : AppError} {b : FileEntryResponse} → err e ≡ ok b → ⊥
    not_ok h = ground arith

checked :
    (c : AppResult (Unit {0})) (s after : Store) (answer : FileEntryResponse)
    (inner : AppResult FileEntryResponse × Store)
    → (elim c as (λ x. AppResult FileEntryResponse × Store) [ err e ↦ (err e, s) | ok u ↦ inner ])
      ≡ (ok answer, after)
    → (c ≡ ok tt) × (inner ≡ (ok answer, after))
checked (ok u) s after answer inner h = (refl, h)
checked (err e) s after answer inner h = absurd (let h' = ap (λ p. p.0) h in ground arith)

-- What the test of the quota says.
within_quota :
    (user size : ℕ) (s : Store)
    → check_storage_quota user size s ≡ ok tt
    → used_bytes user s.rows + size < 2 ^ 63
    → used_bytes user s.rows + size ≤ or_default (s.quotas user)
unfolding check_storage_quota
within_quota user size s h small =
    let fits : read_sum (used_bytes user s.rows) ≡ used_bytes user s.rows = ground (arith, small) in
    let e = rw fits at (
      reject_if_ok (exceeds (or_default (s.quotas user)) (read_sum (used_bytes user s.rows) + size))
        _ tt h) in
    ground (arith, e, small)

module _ (H : Hasher) (show : ℕ → Text) (user : ℕ) (parent : Option ℕ) (name : Text) where
  module _ (mime : Text) (bytes : List ℕ) (new_id now : ℕ) (s : Store) where
    abbrev pub uploaded : Row
    uploaded =
        new_file user parent name mime (length bytes) (digest H bytes) (file_path show user new_id)
          new_id now

    abbrev with_blob : Store
    with_blob = record s { disk = (store_file H show user new_id bytes s.disk).1 }

    abbrev with_upload : Store
    with_upload = record with_blob { rows = s.rows ++ uploaded ∷ [] }

    upload_file_ok :
        (answer : FileEntryResponse) (after : Store)
        → upload_file H show user parent name mime bytes new_id now s ≡ (ok answer, after)
        → (check_storage_quota user (length bytes) s ≡ ok tt)
          × (with_upload ≡ after)
          × (to_response uploaded ≡ answer)
    unfolding upload_file store_file
    upload_file_ok answer after h =
        let (c, inner) =
          checked (check_upload user parent (length bytes) s) s after answer
            (insert_file uploaded with_blob) h in
        let (u, p, q) =
          bind_ok (verify_parent user parent s.rows)
            (λ _. check_storage_quota user (length bytes) s) tt c in
        let (same, response) = insert_file_ok uploaded with_blob after answer inner in
        (q, same, response)

    download_uploaded :
        find_row user new_id s.rows ≡ none
        → download_file user new_id with_upload ≡ ok (uploaded, bytes)
    unfolding download_file verify_ownership store_file
    download_uploaded fresh =
        let here : (new_id == new_id) && (user == user) ≡ true = ground arith in
        let found = find_row-append user new_id s.rows uploaded fresh here in
        let blob : with_blob.disk.blobs (file_path show user new_id) ≡ some bytes =
          rw (text_eq_self (file_path show user new_id)) refl in
        rw (found, blob) refl

    counts_uploaded : counts_for user uploaded ≡ length bytes
    counts_uploaded = let same : (user == user) ≡ true = ground arith in rw same refl

  -- An upload stays within the quota and can be downloaded. Where `upload_file` succeeds with a new
  -- identifier and the bytes in use with those of the file are less than 2^63: the bytes in use grow by the
  -- file's and are at most the user's quota, and downloading the file gives its row, which is the
  -- answer's, and its bytes.
  pub upload_file_lem :
      (mime : Text) (bytes : List ℕ) (new_id now : ℕ) (s after : Store) (answer : FileEntryResponse)
      → upload_file H show user parent name mime bytes new_id now s ≡ (ok answer, after)
      → find_row user new_id s.rows ≡ none
      → used_bytes user s.rows + length bytes < 2 ^ 63
      → (used_bytes user after.rows ≡ used_bytes user s.rows + length bytes)
        × (used_bytes user after.rows ≤ or_default (s.quotas user))
        × ((r : Row) × (download_file user new_id after ≡ ok (r, bytes)) × (to_response r ≡ answer))
  upload_file_lem mime bytes new_id now s after answer h fresh small =
      let (quota, same, response) = upload_file_ok mime bytes new_id now s answer after h in
      let sum : used_bytes user (s.rows ++ uploaded mime bytes new_id now s ∷ [])
          ≡ used_bytes user s.rows + length bytes =
        used_bytes-append user s.rows (uploaded mime bytes new_id now s)
        ∙ ap (λ n. used_bytes user s.rows + n) (counts_uploaded mime bytes new_id now s) in
      let within = within_quota user (length bytes) s quota small in
      subst
        (λ (a : Store).
          (used_bytes user a.rows ≡ used_bytes user s.rows + length bytes)
          × (used_bytes user a.rows ≤ or_default (s.quotas user))
          × ((r : Row) × (download_file user new_id a ≡ ok (r, bytes)) × (to_response r ≡ answer)))
        same
        (
          sum,
          subst (λ n. n ≤ or_default (s.quotas user)) (sym sum) within,
          (
            uploaded mime bytes new_id now s,
            download_uploaded mime bytes new_id now s fresh,
            response,
          ),
        )

  -- A chunked upload is tested by the size that its request states. Where the parent is the user's and the
  -- quota allows the stated size, the chunks are assembled and the database accepts the row,
  -- `complete_chunked_upload` succeeds and the bytes in use grow by the size of what was assembled,
  -- whatever the stated size and the quota are.
  pub complete_ignores_size :
      (guess : Text → Text) (upload total_size : ℕ) (total_chunks : ℤ) (new_id now : ℕ) (s : Store)
      (a : Assembled) (disk : Disk)
      → check_upload user parent total_size s ≡ ok tt
      → assemble_chunks H show user upload new_id total_chunks s.disk ≡ (some a, disk)
      → commit
          (s.rows ++ new_file user parent name (guess name) a.size a.hash a.path new_id now ∷ [])
        ≡ ok (s.rows ++ new_file user parent name (guess name) a.size a.hash a.path new_id now ∷ [])
      → (answer : FileEntryResponse) × (after : Store) × (complete_chunked_upload H show guess user
            parent name upload total_size total_chunks new_id now s
          ≡ (ok answer, after))
        × (used_bytes user after.rows ≡ used_bytes user s.rows + a.size)
  unfolding complete_chunked_upload
  complete_ignores_size guess upload total_size total_chunks new_id now s a disk passes assembled
        accepted =
      let r = new_file user parent name (guess name) a.size a.hash a.path new_id now in
      let counts : counts_for user r ≡ a.size =
        let same : (user == user) ≡ true = ground arith in rw same refl in
      (
        to_response r,
        record s { rows = s.rows ++ r ∷ []; disk = disk },
        ap
              (λ c. elim c as (λ x. AppResult FileEntryResponse × Store) [
                | err e ↦ (err e, s)
                | ok u ↦
                    insert_assembled H show user parent name (guess name) new_id now s
                      (assemble_chunks H show user upload new_id total_chunks s.disk)
              ])
              passes
            ∙ ap (insert_assembled H show user parent name (guess name) new_id now s) assembled
            ∙ ap (λ c. settle (record s { disk = disk }) (c >>= λ rows. ok (to_response r, rows)))
                accepted,
        used_bytes-append user s.rows r ∙ ap (λ n. used_bytes user s.rows + n) counts,
      )
