-- ===== src/Files/Resumable/Retry.antt =====
-- The refusals of a transfer, and what follows a finalization that is refused.
use pcos.Prelude.{
  ℕ, ◌+◌, ◌^◌, ◌<◌, ◌≤◌, ◌≡◌, ◌⊎◌, ◌↔◌, refl, ap, ◌∙◌, List, [], ◌∷◌, ◌++◌, Option, none, some,
  true, false, arith, ltb, if◌then◌else◌, length, Text, is_empty, trim, is_negative,
}
use pcos.Common.Digest.{Hasher}
use pcos.Common.Result.{ok, err}
use pcos.Common.Error.{internal}
use pcos.Files.Storage.{ChunkDir, chunk_file}
use pcos.Files.Storage.Assemble.{assemble_chunks-missing}
use pcos.Files.Resumable.{
  FileEntry, Server, InitRequest, used_bytes, or_default, size_of, check_storage_quota, check_init,
  accepts_entry, migrated_columns, init_transfer, new_entry, find_entry, parse_transfer_uuid,
  gather, check_and_update, finalize_transfer,
}
use pcos.Files.Resumable.Transfer.{count_chunks-few, gather-counted, finalize_transfer-found}

-- What `init_transfer` accepts, and what it leaves: it accepts exactly a name that is not blank with a size that is not
-- negative, where the sum of the user's files that are not in the trash, or 0 if it is 2^63 and over, with the size
-- keeps the quota or comes to 2^63 and over, and the table accepts the row; then the row is added, and
-- else nothing changes. And over the columns that the migrations make no request is accepted.
pub init_transfer_lem :
    (user file : ℕ) (req : InitRequest) (s : Server)
    → let used = used_bytes user s.entries in
      let counted = if ltb used (2 ^ 63) then used else 0 in
      (((init_transfer user req file s).0 ≡ ok file) ↔ (
        (is_empty (trim req.name) ≡ false)
        × (is_negative req.size_bytes ≡ false)
        × ((counted + size_of req.size_bytes ≤ or_default (s.quotas user))
            ⊎ (2 ^ 63 ≤ counted + size_of req.size_bytes))
        × (accepts_entry (new_entry user req file) s ≡ true)))
      × (((init_transfer user req file s).1 ≡ s)
          ⊎ (((init_transfer user req file s).0 ≡ ok file)
              × ((init_transfer user req file s).1
                  ≡ record s { entries = s.entries ++ new_entry user req file ∷ [] })))
      × (accepts_entry (new_entry user req file) (record s { columns = migrated_columns }) ≡ false)
unfolding init_transfer check_init check_storage_quota
init_transfer_lem user file req s = (ground arith, ground arith, refl)

module _ (H : Hasher) (show : ℕ → Text) (parse_uuid : Text → Option ℕ)
    (decode : Text → Option (List ℕ)) (user file : ℕ) (id : Text)
    (parsed : parse_transfer_uuid H show parse_uuid decode id ≡ ok file) where
  -- Where the directory of a transfer has fewer chunks than its numbering, so that one of the first
  -- as many is missing, `finalize_transfer` answers an error and changes nothing.
  pub finalize-missing_chunk :
      (client : Option Text) (e : FileEntry) (s : Server) (c : ℕ × List ℕ) (dir : ChunkDir) (k : ℕ)
      → find_entry user file s.entries ≡ some e
      → s.disk.chunk_dirs user file ≡ some (c ∷ dir)
      → length (c ∷ dir) < 2 ^ 31
      → k < length (c ∷ dir)
      → chunk_file (c ∷ dir) k ≡ none
      → finalize_transfer H show parse_uuid decode user id client s
        ≡ (err (internal "Failed to assemble chunks"), s)
  unfolding gather check_and_update
  finalize-missing_chunk client e s c dir k found d few lt gone =
      let count = count_chunks-few (c ∷ dir) (length (c ∷ dir)) refl few in
      finalize_transfer-found H show parse_uuid decode user file id parsed client e s found
      ∙ ap
          (λ o.
            check_and_update H show parse_uuid decode file e client s
              (gather H show parse_uuid decode user file e s.disk o))
          d
      ∙ ap (check_and_update H show parse_uuid decode file e client s) (
          gather-counted H show parse_uuid decode user file id parsed (c ∷ dir) (length dir) e
            s.disk count
          ∙ assemble_chunks-missing H show user file file s.disk (c ∷ dir) (length (c ∷ dir)) k d lt
              gone)
