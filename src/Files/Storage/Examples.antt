-- ===== src/Files/Storage/Examples.antt =====
-- The theorems of the storage at a concrete disk.
use mathlib.Core.List.{flatten}
use pcos.Prelude.{pos, ℕ, ◌≡◌, refl, List, [], ◌∷◌, none, some, Text, ◌==◌, if◌then◌else◌, ◌&&◌}
use pcos.Common.Digest.{transcript}
use pcos.Files.Storage.{Disk, assemble_chunks, store_file, chunk_file}
use pcos.Files.Storage.Assemble.{assemble_chunks-store_file}

abbrev show : ℕ → Text
show n = n ∷ n ∷ []

abbrev disk : Disk
disk = record {
  chunk_dirs = λ u v. if u == 1 && v == 2 then some ((1, 8 ∷ []) ∷ (0, 5 ∷ 6 ∷ []) ∷ []) else none;
  blobs = λ p. none;
}

abbrev pieces : List (List ℕ)
pieces = (5 ∷ 6 ∷ []) ∷ (8 ∷ []) ∷ []

assemble_chunks-store_file_example :
    let assembled = assemble_chunks transcript show 1 2 3 (pos 2) disk in
    let stored = store_file transcript show 1 3 (5 ∷ 6 ∷ 8 ∷ []) disk in
    (assembled.0 ≡ some (record { path = stored.0.0; hash = stored.0.1; size = 3 }))
    × (assembled.1.blobs ≡ stored.1.blobs)
unfolding flatten chunk_file
assemble_chunks-store_file_example =
    assemble_chunks-store_file transcript show 1 2 3 disk ((1, 8 ∷ []) ∷ (0, 5 ∷ 6 ∷ []) ∷ [])
      pieces refl (refl, (refl, tt))
