-- ===== src/Files/Storage.antt =====
-- Chunks and their assembly: `StorageEngine` of backend/crates/file_metadata/src/storage.rs. A user, an
-- upload and a file are their identifiers as numbers. A directory of chunks is the list of its
-- `chunk_NNNNNN` files by number, and the printing of an identifier is an argument. The system calls
-- succeed, but the read of a file that is not there does not.
pub mod Assemble
mod Examples
use pcos.Prelude.{
  ℕ, zero, suc, ◌+◌, List, [], ◌∷◌, ◌++◌, Option, none, some, Bool, ◌&&◌, ◌==◌, if◌then◌else◌,
  length, take, ℤ, pos, negsuc, Text, codes, text_eq,
}
use pcos.Common.Digest.{Hasher, digest}

abbrev pub ChunkDir : Type 0
ChunkDir = List (ℕ × List ℕ)

pub record Disk : Type 0 where
  pub chunk_dirs : ℕ → ℕ → Option ChunkDir
  pub blobs : Text → Option (List ℕ)

unfoldable pub chunk_file : ChunkDir → ℕ → Option (List ℕ)
chunk_file [] i = none
chunk_file ((j, bytes) ∷ dir) i = if j == i then some bytes else chunk_file dir i

-- The rename of a finished temporary file onto `chunk_NNNNNN`.
unfoldable pub put_chunk : ℕ → List ℕ → ChunkDir → ChunkDir
put_chunk i bytes [] = (i, bytes) ∷ []
put_chunk i bytes ((j, old) ∷ dir) =
    if j == i then (i, bytes) ∷ dir else (j, old) ∷ put_chunk i bytes dir

abbrev pub or_empty : Option ChunkDir → ChunkDir
or_empty none = []
or_empty (some dir) = dir

abbrev pub set_dir : ℕ → ℕ → Option ChunkDir → Disk → Disk
set_dir user upload dir disk = record disk {
  chunk_dirs = λ u v. if u == user && v == upload then dir else disk.chunk_dirs u v;
}

abbrev pub set_blob : Text → List ℕ → Disk → Disk
set_blob path bytes disk = record disk {
  blobs = λ p. if text_eq p path then some bytes else disk.blobs p;
}

unfoldable pub store_chunk : ℕ → ℕ → ℕ → List ℕ → Disk → Disk
unfolding put_chunk
store_chunk user upload i bytes disk =
    set_dir user upload (some (put_chunk i bytes (or_empty (disk.chunk_dirs user upload)))) disk

-- `file_path` below the base path: `<user>/<first two characters of the file>/<file>`.
abbrev pub file_path : (ℕ → Text) → ℕ → ℕ → Text
file_path show user file = show user ++ codes "/" ++ take 2 (show file) ++ codes "/" ++ show file

-- What `assemble_chunks` answers.
pub record Assembled : Type 0 where
  pub path : Text
  pub hash : Text
  pub size : ℕ

module _ (H : Hasher) where
  -- The variables of the loop of `assemble_chunks`.
  pub record Assembly : Type 0 where
    pub hasher : H.State
    pub total_size : ℕ
    pub contents : List ℕ

  abbrev pub begin : Assembly
  begin = record { hasher = H.new; total_size = 0; contents = [] }

  abbrev pub add_chunk : List ℕ → Assembly → Assembly
  add_chunk bytes a = record {
    hasher = H.update a.hasher bytes;
    total_size = a.total_size + length bytes;
    contents = a.contents ++ bytes;
  }

  -- `for i in i..i + n`; `none` is the failed read of a chunk that is not there.
  unfoldable pub assemble_loop : ChunkDir → ℕ → ℕ → Assembly → Option Assembly
  unfolding chunk_file
  assemble_loop dir zero i a = some a
  assemble_loop dir (suc n) i a = elim (chunk_file dir i) [
    | none ↦ none
    | some bytes ↦ assemble_loop dir n (i + 1) (add_chunk bytes a)
  ]

  -- What follows the loop: the file gets its place, and the chunks are removed.
  abbrev pub finish_assembly :
      (ℕ → Text) → ℕ → ℕ → ℕ → Option Assembly → Disk → Option Assembled × Disk
  finish_assembly show user upload file none disk = (none, disk)
  finish_assembly show user upload file (some a) disk = (
    some (record {
      path = file_path show user file;
      hash = H.finalize a.hasher;
      size = a.total_size;
    }),
    set_dir user upload none (set_blob (file_path show user file) a.contents disk),
  )

  -- `0..total_chunks` of an `i32`, which is empty where that is negative.
  abbrev pub turns : ℤ → ℕ
  turns (pos n) = n
  turns (negsuc n) = 0

  unfoldable pub assemble_chunks : (ℕ → Text) → ℕ → ℕ → ℕ → ℤ → Disk → Option Assembled × Disk
  assemble_chunks show user upload file total disk =
      finish_assembly show user upload file
        (assemble_loop (or_empty (disk.chunk_dirs user upload)) (turns total) 0 begin) disk

  -- Data given at once: `store_file`.
  unfoldable pub store_file : (ℕ → Text) → ℕ → ℕ → List ℕ → Disk → (Text × Text) × Disk
  store_file show user file bytes disk =
      ((file_path show user file, digest H bytes), set_blob (file_path show user file) bytes disk)
