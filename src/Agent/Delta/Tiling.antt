-- ===== src/Agent/Delta/Tiling.antt =====
-- Lists of chunks that lie end to end in a file.
use mathlib.Core.Path.{subst₂, sym}
use pcos.Prelude.{ℕ, ◌+◌, ◌≤◌, ◌<◌, ◌≡◌, List, [], ◌∷◌, ◌++◌, arith, All}
use pcos.Common.Digest.{Hasher, digest}
use pcos.Agent.Delta.{ChunkInfo, slice, max_chunk}

-- A chunk at a position, of a length in range, with the hash of the bytes it names.
pub record IsChunk (H : Hasher) (bytes : List ℕ) (i from : ℕ) (c : ChunkInfo) : Type 0 where
  pub numbered : c.index ≡ i
  pub placed : c.offset ≡ from
  pub nonempty : 0 < c.length
  pub short : c.length ≤ max_chunk
  pub hashed : c.hash ≡ digest H (slice bytes from (from + c.length))

-- `chunks`, numbered from `i`, lie end to end from `from` up to `to`, and `j` is the next number.
abbrev pub Tiles : (H : Hasher) (bytes : List ℕ) → List ChunkInfo → ℕ → ℕ → ℕ → ℕ → Type 0
Tiles H bytes [] i from j to = (i ≡ j) × (from ≡ to)
Tiles H bytes (c ∷ cs) i from j to =
    IsChunk H bytes i from c × Tiles H bytes cs (i + 1) (from + c.length) j to

abbrev pub covered : List ChunkInfo → ℕ
covered [] = 0
covered (c ∷ cs) = c.length + covered cs

-- Every chunk that another follows has the least length.
abbrev pub AllButLast {κ} : (ChunkInfo → Type κ) → List ChunkInfo → Type κ
AllButLast P [] = Unit
AllButLast P (c ∷ []) = Unit
AllButLast P (c ∷ d ∷ cs) = P c × AllButLast P (d ∷ cs)

module _ (H : Hasher) (bytes : List ℕ) where
  pub Tiles-snoc :
      (cs : List ChunkInfo) (c : ChunkInfo) (i from j to : ℕ)
      → Tiles H bytes cs i from j to
      → IsChunk H bytes j to c
      → Tiles H bytes (cs ++ c ∷ []) i from (j + 1) (to + c.length)
  Tiles-snoc [] c i from j to t h =
      (subst₂ (λ n a. IsChunk H bytes n a c) (sym t.0) (sym t.1) h, (omega arith, omega arith))
  Tiles-snoc (d ∷ cs) c i from j to t h =
      (t.0, Tiles-snoc cs c (i + 1) (from + d.length) j to t.1 h)

  pub covered-Tiles :
      (cs : List ChunkInfo) (i from j to : ℕ)
      → Tiles H bytes cs i from j to
      → from + covered cs ≡ to
  covered-Tiles [] i from j to t = omega arith
  covered-Tiles (c ∷ cs) i from j to t =
      omega (arith, covered-Tiles cs (i + 1) (from + c.length) j to t.1)

pub AllButLast-snoc :
    (P : ChunkInfo → Type 0) (cs : List ChunkInfo) (c : ChunkInfo)
    → All P cs
    → AllButLast P (cs ++ c ∷ [])
AllButLast-snoc P [] c h = tt
AllButLast-snoc P (d ∷ []) c h = (h.0, tt)
AllButLast-snoc P (d ∷ e ∷ cs) c h = (h.0, AllButLast-snoc P (e ∷ cs) c h.1)
