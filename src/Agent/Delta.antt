-- ===== src/Agent/Delta.antt =====
-- Content-defined chunking of agent/src/delta.rs: `split_into_chunks`, `diff_chunks`, `file_hash`.
-- `usize` and `u64` values are below the file's length and stay plain numbers; the rolling hash is a
-- `u32` and wraps. A file is the list of its bytes.
pub mod Tiling
pub mod Invariant
pub mod Coverage
pub mod LastByte
pub mod Upload
mod Examples
use Prim.Native.Nat.{min}
use pcos.Prelude.{
  ℕ, zero, suc, ◌+◌, ◌-◌, ◌*◌, ◌%◌, ◌^◌, List, [], ◌∷◌, ◌++◌, Bool, true, false, not, ◌&&◌, ◌||◌,
  ltb, leb, ◌==◌, if◌then◌else◌, length, get_or, take, drop, any, Text, text_eq,
}
use pcos.Common.Digest.{Hasher, digest}

abbrev pub min_chunk : ℕ
min_chunk = 64 * 1024

abbrev pub avg_chunk : ℕ
avg_chunk = 256 * 1024

abbrev pub max_chunk : ℕ
max_chunk = 1024 * 1024

pub record ChunkInfo : Type 0 where
  pub index : ℕ
  pub offset : ℕ
  pub length : ℕ
  pub hash : List ℕ

-- `data[from..to]`.
abbrev pub slice : List ℕ → ℕ → ℕ → List ℕ
slice bytes from to = take (to - from) (drop from bytes)

-- The variables of the loop of `split_into_chunks`.
pub record Splitter : Type 0 where
  pub offset : ℕ
  pub chunk_start : ℕ
  pub rolling_hash : ℕ
  pub index : ℕ
  pub chunks : List ChunkInfo

abbrev pub start : Splitter
start = record { offset = 0; chunk_start = 0; rolling_hash = 0; index = 0; chunks = [] }

-- `rolling_hash.wrapping_mul(31).wrapping_add(byte)`.
pub roll : ℕ → ℕ → ℕ
roll h byte = (h * 31 % 2 ^ 32 + byte) % 2 ^ 32

-- `MASK` has the 18 low bits set, so `& MASK` is a remainder.
pub is_boundary : ℕ → ℕ → Bool
is_boundary chunk_len h = (leb min_chunk chunk_len && h % avg_chunk == 0) || leb max_chunk chunk_len

module _ (H : Hasher) (bytes : List ℕ) where
  -- The chunk from `chunk_start` up to `end`.
  abbrev pub chunk_to : ℕ → Splitter → ChunkInfo
  chunk_to end s = record {
    index = s.index;
    offset = s.chunk_start;
    length = length (slice bytes s.chunk_start end);
    hash = digest H (slice bytes s.chunk_start end);
  }

  -- `chunks.push(..)`, and the next chunk starts at `end`.
  pub cut : ℕ → Splitter → Splitter
  cut end s = record s {
    chunks = s.chunks ++ chunk_to end s ∷ [];
    index = s.index + 1;
    chunk_start = end;
    rolling_hash = 0;
  }

  -- Whether the byte at `offset` is a boundary.
  pub at_boundary : Splitter → Bool
  unfolding is_boundary roll
  at_boundary s =
      is_boundary (s.offset - s.chunk_start) (roll s.rolling_hash (get_or bytes s.offset 0))

  -- The body of the loop.
  pub split_step : Splitter → Splitter
  unfolding roll
  split_step s =
      let s' = record s { rolling_hash = roll s.rolling_hash (get_or bytes s.offset 0) } in
      let t =
        (if at_boundary s || s.offset == length bytes - 1
          then cut (if at_boundary s then s.offset else s.offset + 1) s'
          else s') in
      record t { offset = t.offset + 1 }

  -- `while offset < data.len()`, on fuel.
  pub split_loop : ℕ → Splitter → Splitter
  split_loop zero s = s
  split_loop (suc fuel) s = elim (ltb s.offset (length bytes)) [
    | true ↦ split_loop fuel (split_step s)
    | false ↦ s
  ]

  pub split_into_chunks : List ChunkInfo
  split_into_chunks = (split_loop (length bytes) start).chunks

-- Membership in the set of the server's hashes.
pub has_hash : List ChunkInfo → List ℕ → Bool
has_hash server h = any (λ (c : ChunkInfo). text_eq c.hash h) server

pub diff_chunks : List ChunkInfo → List ChunkInfo → List ℕ
diff_chunks [] server = []
diff_chunks (c ∷ local) server =
    let rest = diff_chunks local server in if has_hash server c.hash then rest else c.index ∷ rest

-- The loop of `file_hash` over what successive reads return; an empty read ends it.
module _ (H : Hasher) where
  pub hash_reads : H.State → List (List ℕ) → H.State
  hash_reads s [] = s
  hash_reads s ([] ∷ reads) = s
  hash_reads s ((b ∷ more) ∷ reads) = hash_reads (H.update s (b ∷ more)) reads

  pub file_hash : List (List ℕ) → List ℕ
  file_hash reads = H.finalize (hash_reads H.new reads)
