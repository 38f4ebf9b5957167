-- ===== src/Files/Resumable/Upload.antt =====
-- What a transfer that is finalized leaves, and what a failed one does.
use pcos.Prelude.{ℕ, ◌≡◌, ◌≢◌, List, [], ◌∷◌, Option, none, some, arith, length, Text}
use pcos.Common.Digest.{Hasher, digest}
use pcos.Common.Result.{ok}
use pcos.Files.Storage.{file_path}
use pcos.Files.Resumable.{
  FileEntry, Server, FinalizeResponse, find_entry, update_entry, finalized, parse_transfer_uuid,
}

pub find_entry-update :
    (user file : ℕ) (f : FileEntry → FileEntry) (es : List FileEntry) (e : FileEntry)
    → ((x : FileEntry) → ((f x).id ≡ x.id) × ((f x).user_id ≡ x.user_id))
    → find_entry user file es ≡ some e
    → find_entry user file (update_entry file f es) ≡ some (f e)
unfolding find_entry update_entry
find_entry-update user file f [] e keeps h = ground arith
find_entry-update user file f (x ∷ es) e keeps h =
    let k = keeps x in let rec = find_entry-update user file f es e keeps in ground arith

abbrev pub IsOther : ℕ → FileEntry → Type 0
IsOther file e = e.id ≢ file

module _ (H : Hasher) (show : ℕ → Text) (parse_uuid : Text → Option ℕ)
    (decode : Text → Option (List ℕ)) (user file : ℕ) (id : Text)
    (parsed : parse_transfer_uuid H show parse_uuid decode id ≡ ok file) where
  -- A file of the user stands where its row says, complete and with the digest of its bytes.
  abbrev pub IsStored : FileEntry → List ℕ → Server → Type 0
  IsStored e bytes s =
      (find_entry user file s.entries
        ≡ some (
            finalized (record { path = file_path show user file; hash = []; size = length bytes })
              (digest H bytes) e))
      × (s.disk.blobs (file_path show user file) ≡ some bytes)
      × (s.disk.chunk_dirs user file ≡ none)

  abbrev pub answer : FileEntry → List ℕ → FinalizeResponse
  answer e bytes = record {
    file_id = file;
    name = e.name;
    size_bytes = length bytes;
    sha256_hash = digest H bytes;
  }
