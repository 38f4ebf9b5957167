-- ===== src/Files/Storage/Assemble.antt =====
-- Assembling chunks gives their concatenation, its digest and its length.
use mathlib.Core.List.{flatten}
use native.Mathlib.Nat.{add-zero, zero-add}
use pcos.Prelude.{
  pos, ℕ, zero, suc, ◌+◌, ◌<◌, ◌≡◌, refl, sym, ap, ◌∙◌, List, [], ◌∷◌, ◌++◌, append_assoc,
  append-nil, none, some, arith, length, length-append, Text, ◌==◌, if◌then◌else◌, Option-cases,
  inl, inr,
}
use pcos.Common.Digest.{Hasher, digest}
use pcos.Files.Storage.{
  ChunkDir, Disk, chunk_file, put_chunk, or_empty, set_dir, set_blob, file_path, Assembly, begin,
  add_chunk, finish_assembly, assemble_loop, assemble_chunks, store_file,
}

-- A write of one chunk, read back.
pub chunk_file-put_chunk :
    (i j : ℕ) (bytes : List ℕ) (dir : ChunkDir)
    → chunk_file (put_chunk i bytes dir) j ≡ (if i == j then some bytes else chunk_file dir j)
unfolding chunk_file put_chunk
chunk_file-put_chunk i j bytes [] = refl
chunk_file-put_chunk i j bytes ((k, old) ∷ dir) = ground (arith, chunk_file-put_chunk i j bytes dir)

-- The directory holds the pieces under the numbers from `i` on.
abbrev pub Holds : ChunkDir → ℕ → List (List ℕ) → Type 0
Holds dir i [] = Unit
Holds dir i (piece ∷ pieces) = (chunk_file dir i ≡ some piece) × Holds dir (i + 1) pieces

module _ (H : Hasher) where
  abbrev assembled_from : Assembly H → List ℕ → Assembly H
  assembled_from a bytes = record {
    hasher = H.update a.hasher bytes;
    total_size = a.total_size + length bytes;
    contents = a.contents ++ bytes;
  }

  assembled_from-nil : (a : Assembly H) → assembled_from a [] ≡ a
  assembled_from-nil a = λ i. record {
    hasher = H.update-nil a.hasher i;
    total_size = add-zero a.total_size i;
    contents = append-nil a.contents i;
  }

  total-append : (n : ℕ) (x y : List ℕ) → n + length x + length y ≡ n + length (x ++ y)
  total-append n x y = omega (arith, length-append x y)

  assembled_from-append :
      (a : Assembly H) (x y : List ℕ)
      → assembled_from (add_chunk H x a) y ≡ assembled_from a (x ++ y)
  assembled_from-append a x y = λ i. record {
    hasher = H.update-append a.hasher x y i;
    total_size = total-append a.total_size x y i;
    contents = append_assoc a.contents x y i;
  }

  assemble_loop-Holds :
      (dir : ChunkDir) (pieces : List (List ℕ)) (i : ℕ) (a : Assembly H)
      → Holds dir i pieces
      → assemble_loop H dir (length pieces) i a ≡ some (assembled_from a (flatten pieces))
  unfolding assemble_loop flatten
  assemble_loop-Holds dir [] i a h = ap some (sym (assembled_from-nil a))
  assemble_loop-Holds dir (piece ∷ pieces) i a h =
      rw (h.0, assemble_loop)
        (assemble_loop-Holds dir pieces (i + 1) (add_chunk H piece a) h.1
          ∙ ap some (assembled_from-append a piece (flatten pieces)))

  -- Where a chunk is missing the read fails, and nothing is written.
  assemble_loop-missing :
      (dir : ChunkDir) (n i k : ℕ) (a : Assembly H)
      → k < n
      → chunk_file dir (i + k) ≡ none
      → assemble_loop H dir n i a ≡ none
  unfolding assemble_loop
  assemble_loop-missing dir zero i k a h e = absurd (omega arith)
  assemble_loop-missing dir (suc n) i zero a h e =
      rw (let e' : chunk_file dir i ≡ none = rw add-zero at e in e', assemble_loop) refl
  assemble_loop-missing dir (suc n) i (suc k) a h e =
      let shift : i + 1 + k ≡ i + suc k = omega arith in
      elim (Option-cases (chunk_file dir i)) [
        | inl gone ↦ rw (gone, assemble_loop)
        | inr (piece, found) ↦
            rw (found, assemble_loop)
              (assemble_loop-missing dir n (i + 1) k (add_chunk H piece a) (omega arith)
                (rw shift e))
      ]

  -- Assembling a directory that holds the pieces of a file gives the file: its bytes at its place,
  -- their digest and their number; and the chunks are gone.
  pub assemble_chunks-Holds :
      (show : ℕ → Text) (user upload file : ℕ) (disk : Disk) (dir : ChunkDir)
      (pieces : List (List ℕ))
      → disk.chunk_dirs user upload ≡ some dir
      → Holds dir 0 pieces
      → assemble_chunks H show user upload file (pos (length pieces)) disk ≡ (
        some (record {
          path = file_path show user file;
          hash = digest H (flatten pieces);
          size = length (flatten pieces);
        }),
        set_dir user upload none (set_blob (file_path show user file) (flatten pieces) disk),
      )
  unfolding assemble_chunks digest
  assemble_chunks-Holds show user upload file disk dir pieces d h =
      let bytes = flatten pieces in
      ap (λ o. finish_assembly H show user upload file o disk)
        (ap (λ x. assemble_loop H (or_empty x) (length pieces) 0 (begin H)) d
          ∙ assemble_loop-Holds dir pieces 0 (begin H) h)
      ∙ λ i. (
        some (record {
          path = file_path show user file;
          hash = H.finalize (H.update H.new bytes);
          size = zero-add (length bytes) i;
        }),
        set_dir user upload none (set_blob (file_path show user file) bytes disk),
      )

  -- Where one of the chunks counted is missing nothing changes.
  pub assemble_chunks-missing :
      (show : ℕ → Text) (user upload file : ℕ) (disk : Disk) (dir : ChunkDir) (n k : ℕ)
      → disk.chunk_dirs user upload ≡ some dir
      → k < n
      → chunk_file dir k ≡ none
      → assemble_chunks H show user upload file (pos n) disk ≡ (none, disk)
  unfolding assemble_chunks
  assemble_chunks-missing show user upload file disk dir n k d h e =
      ap (λ o. finish_assembly H show user upload file o disk)
        (ap (λ x. assemble_loop H (or_empty x) n 0 (begin H)) d
          ∙ assemble_loop-missing dir n 0 k (begin H) h (rw zero-add e))

  -- A file that is uploaded in pieces ends as if it had been uploaded at once: where the directory
  -- holds the pieces, `assemble_chunks` answers the path and the hash that `store_file` of their
  -- concatenation answers, and the files of the disk are the same after both.
  pub assemble_chunks-store_file :
      (show : ℕ → Text) (user upload file : ℕ) (disk : Disk) (dir : ChunkDir)
      (pieces : List (List ℕ))
      → disk.chunk_dirs user upload ≡ some dir
      → Holds dir 0 pieces
      → let assembled = assemble_chunks H show user upload file (pos (length pieces)) disk in
        let stored = store_file H show user file (flatten pieces) disk in
        (assembled.0
          ≡ some (record { path = stored.0.0; hash = stored.0.1; size = length (flatten pieces) }))
        × (assembled.1.blobs ≡ stored.1.blobs)
  unfolding store_file
  assemble_chunks-store_file show user upload file disk dir pieces d h =
      rw (assemble_chunks-Holds show user upload file disk dir pieces d h) (refl, refl)
