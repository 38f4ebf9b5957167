-- ===== src/Agent/Delta/Coverage.antt =====
-- What the chunks of `split_into_chunks` cover: every byte of the file, or all but its last one.
use pcos.Prelude.{
  ℕ, zero, suc, ◌+◌, ◌-◌, ◌≤◌, ◌<◌, ◌≡◌, ◌⊎◌, inl, inr, List, arith, length, Bool-cases,
  if◌then◌else◌, ap, ◌∙◌,
}
use pcos.Common.Digest.{Hasher}
use pcos.Agent.Delta.{Splitter, at_boundary, split_step, split_loop, start, split_into_chunks}
use pcos.Agent.Delta.Tiling.{Tiles, AllButLast, covered, covered-Tiles}
use pcos.Agent.Delta.Invariant.{
  IsBig, Inv, Inv-start, split_loop-Inv, offset-split_step, step_at_boundary, step_at_last,
}

module _ (H : Hasher) (bytes : List ℕ) where
  pub offset-split_loop :
      (n : ℕ) (s : Splitter)
      → s.offset + n ≤ length bytes
      → (split_loop H bytes n s).offset ≡ s.offset + n
  unfolding split_loop
  offset-split_loop zero s h = omega arith
  offset-split_loop (suc n) s h =
      ground (arith, offset-split_step H bytes s, offset-split_loop n (split_step H bytes s))

  -- One more round of fuel is one more step at the end.
  pub split_loop-suc :
      (n : ℕ) (s : Splitter)
      → s.offset + n < length bytes
      → split_loop H bytes (suc n) s ≡ split_step H bytes (split_loop H bytes n s)
  unfolding split_loop
  split_loop-suc zero s h = ground arith
  split_loop-suc (suc n) s h =
      ground (arith, offset-split_step H bytes s, split_loop-suc n (split_step H bytes s))

  abbrev pub final : Splitter
  final = split_loop H bytes (length bytes) start

  -- The fuel suffices: the loop ends by its own test.
  pub split_loop_ends : final.offset ≡ length bytes
  split_loop_ends = omega (arith, offset-split_loop (length bytes) start (omega arith))

  final-Inv : Inv H bytes final
  final-Inv = split_loop-Inv H bytes (length bytes) start (Inv-start H bytes)

  -- The loop ends with its fuel; the chunks are numbered from 0, lie end to end from the first byte,
  -- carry the hash of the bytes that they name, are not empty and not longer than `max_chunk`, and
  -- all but the last are at least `min_chunk` long; they end at the file's end or one byte before it.
  pub split_into_chunks_tile :
      (final.offset ≡ length bytes)
      × ((j to : ℕ) × Tiles H bytes (split_into_chunks H bytes) 0 0 j to
          × ((to ≡ length bytes) ⊎ (suc to ≡ length bytes)))
      × AllButLast IsBig (split_into_chunks H bytes)
  unfolding split_into_chunks
  split_into_chunks_tile = (
    split_loop_ends,
    (final.index, final.chunk_start, final-Inv.tiled, final-Inv.ended split_loop_ends),
    final-Inv.big_but_last,
  )

  covered-split : covered (split_into_chunks H bytes) ≡ final.chunk_start
  unfolding split_into_chunks
  covered-split = omega (arith, covered-Tiles H bytes final.chunks 0 0 _ _ final-Inv.tiled)

  -- The state in which the loop reads the last byte.
  abbrev pub at_last_byte : Splitter
  at_last_byte = split_loop H bytes (length bytes - 1) start

  final-eq-step : 0 < length bytes → final ≡ split_step H bytes at_last_byte
  final-eq-step h =
      let e : length bytes ≡ suc (length bytes - 1) = omega arith in
      ap (λ n. split_loop H bytes n start) e ∙ split_loop-suc (length bytes - 1) start (omega arith)

  -- Of a file that is not empty the chunks cover every byte, unless the last byte is itself a
  -- boundary: then they cover all but that byte.
  pub covered-split_into_chunks :
      0 < length bytes
      → covered (split_into_chunks H bytes)
        ≡ (if at_boundary H bytes at_last_byte then length bytes - 1 else length bytes)
  covered-split_into_chunks h =
      covered-split ∙ ap (λ (s : Splitter). s.chunk_start) (final-eq-step h) ∙ start_after
    where
      here : at_last_byte.offset ≡ length bytes - 1
      here = omega (arith, offset-split_loop (length bytes - 1) start (omega arith))

      start_after :
          (split_step H bytes at_last_byte).chunk_start
          ≡ (if at_boundary H bytes at_last_byte then length bytes - 1 else length bytes)
      start_after = elim (Bool-cases (at_boundary H bytes at_last_byte)) [
        | inl e ↦ rw (step_at_boundary H bytes at_last_byte e) (rw e here)
        | inr e ↦
            rw (step_at_last H bytes at_last_byte e (ground (arith, here)))
              (rw e (omega (arith, here)))
      ]
