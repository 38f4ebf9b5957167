-- ===== src/Agent/Tunnel/Commands.antt =====
-- `handle_fs_command` of agent/src/connection_manager.rs: the requests of a remote client, tested by the
-- policy and passed to the operations of the jail. A request is what the accessors of its JSON
-- value answer. Of an error the text is not modelled. The transcoder's `probe` is an argument.
use pcos.Prelude.{
  ℕ, ◌*◌, List, [], ◌∷◌, Option, none, some, Bool, false, if◌then◌else◌, Text, codes, text_eq,
}
use pcos.Common.Digest.{Hasher}
use pcos.Agent.Base64.{base64_decode}
use pcos.Agent.Delta.{file_hash}
use pcos.Agent.Jail.{
  PathBuf, canonicalize, split_slash, components, FsError, invalid_root, io, resolved, refused,
  safe_resolve,
}
use pcos.Agent.Jail.Disk.{Object, contents, directory, symlink, Disk, nodes, object_at}
use pcos.Agent.Jail.Operations.{
  FsResult, success, failure, ReadChunkResult, WriteChunkResult, read_chunk, write_chunk, delete,
  mkdir,
}
use pcos.Agent.Jail.Listing.{ListDirResult, StatResult, list_dir, stat}
use pcos.Agent.Tunnel.{target_root, is_forbidden}

pub record Request : Type 0 where
  pub request_id : Option Text
  pub op : Option Text
  pub relative_path : Option Text
  pub storage_path : Option Text
  pub offset : Option ℕ
  pub max_read : Option ℕ
  pub data_base64 : Option Text
  pub recursive : Option Bool

pub data Op : Type 0 where
  fs_list_dir fs_stat fs_read_chunk fs_write_chunk fs_delete fs_mkdir media_probe fs_checksum : Op
  unknown : Op

unfoldable pub op_of : Text → Op
op_of op =
    if text_eq op (codes "fs_list_dir")
    then fs_list_dir
    else if text_eq op (codes "fs_stat")
    then fs_stat
    else if text_eq op (codes "fs_read_chunk")
    then fs_read_chunk
    else if text_eq op (codes "fs_write_chunk")
    then fs_write_chunk
    else if text_eq op (codes "fs_delete")
    then fs_delete
    else if text_eq op (codes "fs_mkdir")
    then fs_mkdir
    else if text_eq op (codes "media_probe")
    then media_probe
    else if text_eq op (codes "fs_checksum")
    then fs_checksum
    else unknown

pub data Answer : Type 0 where
  listing : ListDirResult → Answer
  stats : StatResult → Answer
  chunk : ReadChunkResult → Answer
  written : WriteChunkResult → Answer
  deleted created : Bool → Answer
  probed : Text → Answer
  sha256 : List ℕ → Answer
  restricted : Answer
  fs_error : FsError → Answer
  decode_error unknown_operation probe_error : Answer

pub record Response : Type 0 where
  pub request_id : Text
  pub answer : Answer

abbrev pub given_or {ℓ} : {A : Type ℓ} → Option A → A → A
given_or none a = a
given_or (some a) b = a

abbrev pub answer_with {ℓ} : {A : Type ℓ} → (A → Answer) → FsResult A → Answer
answer_with f (success a) = f a
answer_with f (failure e) = fs_error e

abbrev pub answer_after {ℓ} : {A : Type ℓ} → (A → Answer) → Disk × FsResult A → Disk × Answer
answer_after f (disk, result) = (disk, answer_with f result)

-- `Path::new` of an absolute path.
abbrev pub path_of : Text → PathBuf
path_of text = components (split_slash text)

abbrev pub write_command : Disk → PathBuf → Text → ℕ → Option (List ℕ) → Disk × Answer
write_command disk root rel_path offset none = (disk, decode_error)
write_command disk root rel_path offset (some bytes) =
    answer_after written (write_chunk disk root rel_path offset bytes)

-- `canonicalize` of the root and then `safe_resolve` below it.
abbrev pub with_target : Disk → PathBuf → Text → (PathBuf → Answer) → Answer
with_target disk root rel_path k = elim (canonicalize (nodes disk) root) [
  | none ↦ fs_error invalid_root
  | some canonical_root ↦ elim (safe_resolve (nodes disk) canonical_root rel_path) [
    | resolved target_path ↦ k target_path
    | refused e ↦ fs_error e
  ]
]

module _ (to_lowercase : Text → Text) (modified : PathBuf → Option Text) (readonly : PathBuf → Bool)
    (H : Hasher) (probe : PathBuf → Option Text) (delivered : ℕ) where
  abbrev pub probe_command : PathBuf → Answer
  probe_command target_path = elim (probe target_path) [
    | some result ↦ probed result
    | none ↦ probe_error
  ]

  -- The file is read in one piece.
  abbrev pub checksum_of : Option Object → Answer
  checksum_of none = fs_error io
  checksum_of (some directory) = fs_error io
  checksum_of (some (symlink target)) = fs_error io
  checksum_of (some (contents bytes)) = sha256 (file_hash H (bytes ∷ []))

  abbrev pub run_op : Op → Request → Disk → PathBuf → Text → Disk × Answer
  run_op fs_list_dir req disk root rel_path =
      (disk, answer_with listing (list_dir to_lowercase modified readonly disk root rel_path))
  run_op fs_stat req disk root rel_path =
      (disk, answer_with stats (stat to_lowercase modified readonly disk root rel_path))
  run_op fs_read_chunk req disk root rel_path =
      let offset = given_or req.offset 0 in
      let max_read = given_or req.max_read (256 * 1024) in
      (disk, answer_with chunk (read_chunk disk delivered root rel_path offset max_read))
  run_op fs_write_chunk req disk root rel_path =
      write_command disk root rel_path (given_or req.offset 0)
        (base64_decode (given_or req.data_base64 []))
  run_op fs_delete req disk root rel_path =
      answer_after deleted (delete disk root rel_path (given_or req.recursive false))
  run_op fs_mkdir req disk root rel_path = answer_after created (mkdir disk root rel_path)
  run_op media_probe req disk root rel_path = (disk, with_target disk root rel_path probe_command)
  run_op fs_checksum req disk root rel_path =
      (disk, with_target disk root rel_path (λ target. checksum_of (object_at disk target)))
  run_op unknown req disk root rel_path = (disk, unknown_operation)

  unfoldable pub handle_fs_command : Text → Request → List Text → List Text → Disk → Disk × Response
  handle_fs_command default_root req allowed excluded disk =
      let id = given_or req.request_id [] in
      let root = target_root default_root req.storage_path in
      if is_forbidden to_lowercase default_root root allowed excluded
      then (disk, record { request_id = id; answer = restricted })
      else (let (after, answer) =
            run_op (op_of (given_or req.op [])) req disk (path_of root)
              (given_or req.relative_path []) in
          (after, record { request_id = id; answer = answer }))
