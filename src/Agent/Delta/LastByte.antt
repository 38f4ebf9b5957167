-- ===== src/Agent/Delta/LastByte.antt =====
-- A class of files whose last byte no chunk covers: zeros, one byte more than whole least chunks.
use pcos.Prelude.{
  ℕ, zero, suc, ◌+◌, ◌-◌, ◌*◌, ◌/◌, ◌≤◌, ◌<◌, ◌≡◌, refl, List, [], ◌∷◌, arith, length, get_or, true,
  ◌∙◌,
}
use pcos.Common.Digest.{Hasher}
use pcos.Agent.Delta.{
  Splitter, min_chunk, roll, is_boundary, at_boundary, cut, split_step, split_loop, start,
  split_into_chunks,
}
use pcos.Agent.Delta.Tiling.{covered}
use pcos.Agent.Delta.Coverage.{
  at_last_byte, offset-split_loop, split_loop-suc, covered-split_into_chunks,
}

pub zeros : ℕ → List ℕ
zeros zero = []
zeros (suc n) = 0 ∷ zeros n

length-zeros : (n : ℕ) → length (zeros n) ≡ n
unfolding zeros
length-zeros zero = refl
length-zeros (suc n) = omega (arith, length-zeros n)

get_or-zeros : (n i : ℕ) → get_or (zeros n) i 0 ≡ 0
unfolding zeros
get_or-zeros zero i = refl
get_or-zeros (suc n) zero = refl
get_or-zeros (suc n) (suc i) = get_or-zeros n i

least_chunk_is_boundary : (l : ℕ) → min_chunk ≤ l → is_boundary l 0 ≡ true
unfolding is_boundary
least_chunk_is_boundary l h = ground arith

module _ (H : Hasher) (n : ℕ) where
  -- The hash stays 0, and a chunk starts at every multiple of the least length that was passed.
  record ZeroInv (s : Splitter) : Type 0 where
    hash : s.rolling_hash ≡ 0
    at : s.chunk_start ≡ (s.offset - 1) / min_chunk * min_chunk

  zero_boundary :
      (s : Splitter)
      → ZeroInv s
      → at_boundary H (zeros n) s ≡ is_boundary (s.offset - s.chunk_start) 0
  unfolding at_boundary roll
  zero_boundary s v = rw (get_or-zeros, v.hash)

  step-ZeroInv : (s : Splitter) → ZeroInv s → suc s.offset < n → ZeroInv (split_step H (zeros n) s)
  unfolding split_step cut is_boundary roll
  step-ZeroInv s v h = ground (arith, zero_boundary s v, length-zeros n, get_or-zeros n s.offset)

  offset_after : (k : ℕ) → k ≤ n → (split_loop H (zeros n) k start).offset ≡ k
  offset_after k h =
      omega (arith, offset-split_loop H (zeros n) k start (omega (arith, length-zeros n)))

  loop-ZeroInv : (k : ℕ) → k < n → ZeroInv (split_loop H (zeros n) k start)
  loop-ZeroInv zero h = unfold split_loop in record { hash = refl; at = refl }
  loop-ZeroInv (suc k) h = rw (split_loop-suc H (zeros n) k start (omega (arith, length-zeros n))) (
      step-ZeroInv (split_loop H (zeros n) k start) (loop-ZeroInv k (omega arith))
        (omega (arith, offset_after k (omega arith))))

  zeros_end_at_boundary :
      (k : ℕ)
      → n ≡ min_chunk * (k + 1) + 1
      → at_boundary H (zeros n) (at_last_byte H (zeros n)) ≡ true
  zeros_end_at_boundary k e =
      let m = length (zeros n) - 1 in
      let s = split_loop H (zeros n) m start in
      let v = loop-ZeroInv m (omega (arith, length-zeros n)) in
      zero_boundary s v
      ∙ least_chunk_is_boundary (s.offset - s.chunk_start)
          (omega (arith, v.at, offset_after m (omega (arith, length-zeros n)), length-zeros n))

-- A file of zeros that is one byte longer than a positive number of least chunks: its chunks do not
-- cover its last byte.
pub zeros_lose_last_byte :
    (H : Hasher) (k : ℕ)
    → covered (split_into_chunks H (zeros (min_chunk * (k + 1) + 1))) ≡ min_chunk * (k + 1)
zeros_lose_last_byte H k =
    let n = min_chunk * (k + 1) + 1 in
    covered-split_into_chunks H (zeros n) (omega (arith, length-zeros n))
    ∙ rw (zeros_end_at_boundary H n k refl) (omega (arith, length-zeros n))
