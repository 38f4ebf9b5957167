-- ===== src/Agent/Delta/Examples.antt =====
-- The chunking theorems at concrete inputs.
use mathlib.Core.List.{Memᴰ}
use pcos.Prelude.{ℕ, suc, ◌≡◌, ◌≢◌, ◌↔◌, ◌⊎◌, List, [], ◌∷◌, arith, length, if◌then◌else◌}
use pcos.Common.Digest.{transcript}
use pcos.Agent.Delta.{ChunkInfo, split_into_chunks, at_boundary, diff_chunks}
use pcos.Agent.Delta.Tiling.{Tiles, AllButLast, covered}
use pcos.Agent.Delta.Invariant.{IsBig}
use pcos.Agent.Delta.Coverage.{
  final, at_last_byte, split_into_chunks_tile, covered-split_into_chunks,
}
use pcos.Agent.Delta.Upload.{diff_chunks_exact}

abbrev small : List ℕ
small = 1 ∷ 2 ∷ 3 ∷ []

split_into_chunks_tile_example :
    ((final transcript small).offset ≡ length small)
    × ((j to : ℕ) × Tiles transcript small (split_into_chunks transcript small) 0 0 j to
        × ((to ≡ length small) ⊎ (suc to ≡ length small)))
    × AllButLast IsBig (split_into_chunks transcript small)
split_into_chunks_tile_example = split_into_chunks_tile transcript small

covered-split_into_chunks_example :
    covered (split_into_chunks transcript small)
    ≡ (if at_boundary transcript small (at_last_byte transcript small) then 2 else 3)
covered-split_into_chunks_example = covered-split_into_chunks transcript small (omega arith)

abbrev chunk : ℕ → List ℕ → ChunkInfo
chunk i h = record { index = i; offset = 0; length = 1; hash = h }

abbrev local_chunks : List ChunkInfo
local_chunks = chunk 0 (7 ∷ []) ∷ chunk 1 (8 ∷ []) ∷ []

abbrev server_chunks : List ChunkInfo
server_chunks = chunk 0 (7 ∷ []) ∷ []

diff_chunks_exact_example : (Memᴰ 1 (diff_chunks local_chunks server_chunks)) ↔ (
    (c : ChunkInfo) × Memᴰ c local_chunks
    × (c.index ≡ 1)
    × ((d : ChunkInfo) → Memᴰ d server_chunks → d.hash ≢ c.hash))
diff_chunks_exact_example = diff_chunks_exact local_chunks server_chunks 1
