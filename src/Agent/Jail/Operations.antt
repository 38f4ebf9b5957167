-- ===== src/Agent/Jail/Operations.antt =====
-- The operations of `FsHandler` of agent/src/fs_handler.rs that read and change a disk: `read_chunk`,
-- `write_chunk`, `delete`, `mkdir`. One call of `Read::read` may deliver less than it is asked for: how
-- many bytes it delivers at most is an argument.
use Prim.Native.Nat.{min}
use pcos.Prelude.{
  ◌≡◌, refl, ◌⊎◌, inl, inr, ℕ, ◌+◌, ◌-◌, List, [], Option, none, some, Bool, true, false, leb,
  if◌then◌else◌, length, take, drop, Text,
}
use pcos.Agent.Base64.{base64_encode}
use pcos.Agent.Jail.{
  PathBuf, canonicalize, parent, FsError, permission_denied, not_found, io, Resolved, resolved,
  refused, safe_resolve,
}
use pcos.Agent.Jail.Disk.{
  Object, contents, directory, symlink, Disk, path_eq, nodes, put, object_at, create_dir_all,
  open_file, overwrite, remove_at, remove_below, is_empty_dir,
}

pub data FsResult {ℓ} (A : Type ℓ) : Type ℓ where
  success : A → FsResult A
  failure : FsError → FsResult A

-- `safe_resolve(root, rel_path)?`.
abbrev pub at_path {ℓ} : {A : Type ℓ} → Resolved → (PathBuf → FsResult A) → FsResult A
at_path (resolved full_path) k = k full_path
at_path (refused e) k = failure e

-- The same where the operation changes the disk.
abbrev pub change_at {ℓ} :
    {A : Type ℓ} → Disk → Resolved → (PathBuf → Disk × FsResult A) → Disk × FsResult A
change_at disk (resolved full_path) k = k full_path
change_at disk (refused e) k = (disk, failure e)

pub record ReadChunkResult : Type 0 where
  pub relative_path : Text
  pub offset : ℕ
  pub read : ℕ
  pub total_size : ℕ
  pub eof : Bool
  pub data_base64 : Text

pub record WriteChunkResult : Type 0 where
  pub relative_path : Text
  pub offset : ℕ
  pub bytes_written : ℕ
  pub total_size : ℕ

-- Two MiB.
abbrev pub max_chunk : ℕ
max_chunk = 2097152

abbrev pub read_len : ℕ → ℕ → ℕ → ℕ
read_len max_length total_size offset = min (min max_length max_chunk) (total_size - offset)

-- The bytes that one call delivers.
abbrev pub buffer_at : ℕ → List ℕ → ℕ → ℕ → List ℕ
buffer_at delivered bytes offset max_length =
    take (min delivered (read_len max_length (length bytes) offset)) (drop offset bytes)

unfoldable pub chunk_at : ℕ → Text → List ℕ → ℕ → ℕ → ReadChunkResult
chunk_at delivered rel_path bytes offset max_length =
    if leb (length bytes) offset
    then (record {
      relative_path = rel_path;
      offset = offset;
      read = 0;
      total_size = length bytes;
      eof = true;
      data_base64 = [];
    })
    else (let buffer = buffer_at delivered bytes offset max_length in
        record {
          relative_path = rel_path;
          offset = offset;
          read = length buffer;
          total_size = length bytes;
          eof = leb (length bytes) (offset + length buffer);
          data_base64 = base64_encode buffer;
        })

abbrev pub read_object : ℕ → Text → ℕ → ℕ → Option Object → FsResult ReadChunkResult
read_object delivered rel_path offset max_length none = failure not_found
read_object delivered rel_path offset max_length (some directory) = failure not_found
read_object delivered rel_path offset max_length (some (symlink target)) = failure not_found
read_object delivered rel_path offset max_length (some (contents bytes)) =
    success (chunk_at delivered rel_path bytes offset max_length)

unfoldable pub read_chunk : Disk → ℕ → PathBuf → Text → ℕ → ℕ → FsResult ReadChunkResult
read_chunk disk delivered root rel_path offset max_length =
    at_path (safe_resolve (nodes disk) root rel_path)
      (λ full_path. read_object delivered rel_path offset max_length (object_at disk full_path))

-- The file is open: seek, write, flush, and its new size.
abbrev pub write_opened :
    Disk → Text → ℕ → List ℕ → Option (PathBuf × List ℕ) → Disk × FsResult WriteChunkResult
write_opened disk rel_path offset bytes none = (disk, failure io)
write_opened disk rel_path offset bytes (some (p, old)) = (
  put disk p (contents (overwrite old offset bytes)),
  success (record {
    relative_path = rel_path;
    offset = offset;
    bytes_written = length bytes;
    total_size = length (overwrite old offset bytes);
  }),
)

abbrev pub write_in_parent :
    PathBuf → Text → ℕ → List ℕ → Disk × Option PathBuf → Disk × FsResult WriteChunkResult
write_in_parent full_path rel_path offset bytes (disk, none) = (disk, failure io)
write_in_parent full_path rel_path offset bytes (disk, some p) =
    write_opened disk rel_path offset bytes (open_file disk full_path)

unfoldable pub write_chunk : Disk → PathBuf → Text → ℕ → List ℕ → Disk × FsResult WriteChunkResult
write_chunk disk root rel_path offset bytes =
    change_at disk (safe_resolve (nodes disk) root rel_path) (λ full_path.
      write_in_parent full_path rel_path offset bytes (create_dir_all disk [] (parent full_path)))

abbrev pub remove_object : Disk → PathBuf → Bool → Option Object → Disk × FsResult Bool
remove_object disk p recursive none = (disk, success false)
remove_object disk p recursive (some directory) =
    if recursive
    then (remove_below p disk, success true)
    else if is_empty_dir disk p
    then (remove_at p disk, success true)
    else (disk, failure io)
remove_object disk p recursive (some (contents bytes)) = (remove_at p disk, success true)
remove_object disk p recursive (some (symlink target)) = (remove_at p disk, success true)

-- The root itself is never deleted.
abbrev pub delete_below : Disk → PathBuf → Bool → Option PathBuf → Disk × FsResult Bool
delete_below disk p recursive none = (disk, failure io)
delete_below disk p recursive (some canonical_root) =
    if path_eq p canonical_root
    then (disk, failure permission_denied)
    else remove_object disk p recursive (object_at disk p)

unfoldable pub delete : Disk → PathBuf → Text → Bool → Disk × FsResult Bool
delete disk root rel_path recursive =
    change_at disk (safe_resolve (nodes disk) root rel_path)
      (λ full_path. delete_below disk full_path recursive (canonicalize (nodes disk) root))

abbrev pub made : Disk × Option PathBuf → Disk × FsResult Bool
made (disk, none) = (disk, failure io)
made (disk, some p) = (disk, success true)

abbrev pub make_missing : Disk → PathBuf → Option PathBuf → Disk × FsResult Bool
make_missing disk full_path (some p) = (disk, success false)
make_missing disk full_path none = made (create_dir_all disk [] full_path)

unfoldable pub mkdir : Disk → PathBuf → Text → Disk × FsResult Bool
mkdir disk root rel_path =
    change_at disk (safe_resolve (nodes disk) root rel_path)
      (λ full_path. make_missing disk full_path (canonicalize (nodes disk) full_path))

pub Resolved-cases :
    (found : Resolved)
    → ((p : PathBuf) × (found ≡ resolved p)) ⊎ ((e : FsError) × (found ≡ refused e))
Resolved-cases (resolved p) = inl (p, refl)
Resolved-cases (refused e) = inr (e, refl)
