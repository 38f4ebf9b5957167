-- ===== src/Agent/Delta/Invariant.antt =====
-- What holds of the loop of `split_into_chunks` at every offset.
use mathlib.Core.Path.{subst}
use pcos.Prelude.{
  ◌≢◌, ℕ, zero, suc, ◌+◌, ◌-◌, ◌≤◌, ◌<◌, ◌≡◌, refl, ◌⊎◌, inl, inr, List, [], ◌∷◌, ◌++◌, arith,
  length, All, All-append, true, false, ◌==◌, Bool-cases, length-take, length-drop, drop, ap,
}
use pcos.Common.Digest.{Hasher, digest}
use pcos.Agent.Delta.{
  ChunkInfo, Splitter, slice, min_chunk, max_chunk, is_boundary, at_boundary, cut, chunk_to,
  split_step, split_loop, start,
}
use pcos.Agent.Delta.Tiling.{IsChunk, Tiles, AllButLast, Tiles-snoc, AllButLast-snoc}

abbrev pub IsBig : ChunkInfo → Type 0
IsBig c = min_chunk ≤ c.length

length-slice :
    (bytes : List ℕ) (from to : ℕ)
    → from ≤ to
    → to ≤ length bytes
    → length (slice bytes from to) ≡ to - from
length-slice bytes from to h k =
    omega (arith, length-take (to - from) (drop from bytes), length-drop from bytes)

boundary_big : (n h : ℕ) → is_boundary n h ≡ true → min_chunk ≤ n
unfolding is_boundary
boundary_big n h e = ground arith

not_boundary_small : (n h : ℕ) → is_boundary n h ≡ false → n < max_chunk
unfolding is_boundary
not_boundary_small n h e = ground arith

module _ (H : Hasher) (bytes : List ℕ) where
  -- `tiled`: the chunks end where the next one starts; `ended`: at the end at most one byte is over.
  pub record Inv (s : Splitter) : Type 0 where
    pub ordered : s.chunk_start ≤ s.offset
    pub inside : s.offset ≤ length bytes
    pub near : s.offset ≤ s.chunk_start + max_chunk
    pub tiled : Tiles H bytes s.chunks 0 0 s.index s.chunk_start
    pub big : s.offset < length bytes → All IsBig s.chunks
    pub big_but_last : AllButLast IsBig s.chunks
    pub ended :
        s.offset ≡ length bytes
        → (s.chunk_start ≡ length bytes) ⊎ (suc s.chunk_start ≡ length bytes)

  pub Inv-start : Inv start
  Inv-start = record {
    ordered = omega arith;
    inside = omega arith;
    near = omega arith;
    tiled = omega arith;
    big = λ _. tt;
    big_but_last = tt;
    ended = λ e. inl e;
  }

  chunk_to-IsChunk :
      (s : Splitter) (to : ℕ)
      → s.chunk_start < to
      → to ≤ length bytes
      → to ≤ s.chunk_start + max_chunk
      → IsChunk H bytes s.index s.chunk_start (chunk_to H bytes to s)
  chunk_to-IsChunk s to h k m =
      let n = length-slice bytes s.chunk_start to (omega arith) k in
      record {
        numbered = refl;
        placed = refl;
        nonempty = omega (arith, n);
        short = omega (arith, n);
        hashed =
            ap (λ x. digest H (slice bytes s.chunk_start x))
              (let e : to ≡ s.chunk_start + length (slice bytes s.chunk_start to) =
                  omega (arith, n) in
                e);
      }

  -- The chunks after a cut still lie end to end.
  cut-Tiles :
      (s : Splitter) (to : ℕ)
      → Inv s
      → s.chunk_start < to
      → to ≤ length bytes
      → to ≤ s.chunk_start + max_chunk
      → Tiles H bytes (s.chunks ++ chunk_to H bytes to s ∷ []) 0 0 (s.index + 1) to
  cut-Tiles s to v h k m =
      let n = length-slice bytes s.chunk_start to (omega arith) k in
      let e : s.chunk_start + length (slice bytes s.chunk_start to) ≡ to = omega (arith, n) in
      subst (Tiles H bytes (s.chunks ++ chunk_to H bytes to s ∷ []) 0 0 (s.index + 1)) e (
        Tiles-snoc H bytes s.chunks _ 0 0 s.index s.chunk_start v.tiled
          (chunk_to-IsChunk s to h k m))

  abbrev pub after_cut : Splitter → ℕ → Splitter
  after_cut s to = record {
    offset = s.offset + 1;
    chunk_start = to;
    rolling_hash = 0;
    index = s.index + 1;
    chunks = s.chunks ++ chunk_to H bytes to s ∷ [];
  }

  module _ (s : Splitter) where
    pub step_at_boundary :
        at_boundary H bytes s ≡ true → split_step H bytes s ≡ after_cut s s.offset
    unfolding split_step cut
    step_at_boundary e = rw e

    pub step_at_last :
        at_boundary H bytes s ≡ false
        → (s.offset == length bytes - 1) ≡ true
        → split_step H bytes s ≡ after_cut s (s.offset + 1)
    unfolding split_step cut
    step_at_last e l = rw (e, l)

  module _ (s : Splitter) (v : Inv s) (more : s.offset < length bytes) where
    boundary-Inv : at_boundary H bytes s ≡ true → Inv (after_cut s s.offset)
    unfolding at_boundary
    boundary-Inv e =
        let far = boundary_big (s.offset - s.chunk_start) _ e in
        let n = length-slice bytes s.chunk_start s.offset v.ordered v.inside in
        record {
          ordered = omega arith;
          inside = omega arith;
          near = omega arith;
          tiled = cut-Tiles s s.offset v (omega (arith, far)) v.inside v.near;
          big = λ _. All-append IsBig s.chunks _ (v.big more) (omega (arith, far, n), tt);
          big_but_last = AllButLast-snoc IsBig s.chunks _ (v.big more);
          ended = λ l. inr (omega arith);
        }

    last-Inv :
        suc s.offset ≡ length bytes
        → at_boundary H bytes s ≡ false
        → Inv (after_cut s (s.offset + 1))
    unfolding at_boundary
    last-Inv l e =
        let small = not_boundary_small (s.offset - s.chunk_start) _ e in
        record {
          ordered = omega arith;
          inside = omega arith;
          near = omega arith;
          tiled =
              cut-Tiles s (s.offset + 1) v (omega (arith, v.ordered)) (omega arith)
                (omega (arith, small, v.ordered));
          big = λ m. absurd (omega arith);
          big_but_last = AllButLast-snoc IsBig s.chunks _ (v.big more);
          ended = λ _. inl (omega arith);
        }

    plain-Inv :
        (h : ℕ)
        → suc s.offset ≢ length bytes
        → at_boundary H bytes s ≡ false
        → Inv (record s { rolling_hash = h; offset = s.offset + 1 })
    unfolding at_boundary
    plain-Inv h l e =
        let small = not_boundary_small (s.offset - s.chunk_start) _ e in
        record {
          ordered = omega (arith, v.ordered);
          inside = omega arith;
          near = omega (arith, small, v.ordered);
          tiled = v.tiled;
          big = λ m. v.big more;
          big_but_last = v.big_but_last;
          ended = λ m. absurd (l (omega arith));
        }

  -- Each round keeps the invariant.
  pub split_step-Inv : (s : Splitter) → Inv s → s.offset < length bytes → Inv (split_step H bytes s)
  split_step-Inv s v more = elim (Bool-cases (at_boundary H bytes s)) [
    | inl e ↦ rw (step_at_boundary s e) (boundary-Inv s v more e)
    | inr e ↦ elim (Bool-cases (s.offset == length bytes - 1)) [
      | inl l ↦ rw (step_at_last s e l) (last-Inv s v more (ground arith) e)
      | inr l ↦ unfold split_step in rw (e, l) (plain-Inv s v more _ (ground arith) e)
    ]
  ]

  -- One round reads one byte.
  pub offset-split_step : (s : Splitter) → (split_step H bytes s).offset ≡ s.offset + 1
  offset-split_step s = elim (Bool-cases (at_boundary H bytes s)) [
    | inl e ↦ rw (step_at_boundary s e)
    | inr e ↦ elim (Bool-cases (s.offset == length bytes - 1)) [
      | inl l ↦ rw (step_at_last s e l)
      | inr l ↦ unfold split_step in rw (e, l)
    ]
  ]

  pub split_loop-Inv : (fuel : ℕ) (s : Splitter) → Inv s → Inv (split_loop H bytes fuel s)
  unfolding split_loop
  split_loop-Inv zero s v = v
  split_loop-Inv (suc fuel) s v =
      ground (arith, split_loop-Inv fuel (split_step H bytes s), split_step-Inv s v)
