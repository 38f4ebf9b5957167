-- ===== src/Agent/Delta/Upload.antt =====
-- Which chunks `diff_chunks` uploads, and the hash of a file that is read in pieces.
use mathlib.Core.Path.{subst}
use mathlib.Core.List.{Memᴰ, flatten}
use pcos.Prelude.{
  ℕ, ◌≡◌, ◌≢◌, refl, sym, ap, ◌∙◌, inl, inr, ◌↔◌, List, [], ◌∷◌, ◌++◌, All, true, false, Bool-cases,
  text_eq, text_eq_iff,
}
use pcos.Prelude.Members.{mem_of_any, any_of_mem, All-map, all_of_mem}
use pcos.Common.Digest.{Hasher, digest}
use pcos.Agent.Delta.{ChunkInfo, has_hash, diff_chunks, hash_reads, file_hash}

-- A hash is known when some chunk of the server has it.
pub has_hash_iff :
    (server : List ChunkInfo) (h : List ℕ)
    → (has_hash server h ≡ true) ↔ ((c : ChunkInfo) × Memᴰ c server × (c.hash ≡ h))
unfolding has_hash
has_hash_iff server h = (
  λ e.
      let (c, m, p) = mem_of_any (λ (c : ChunkInfo). text_eq c.hash h) server e in
      (c, m, (text_eq_iff c.hash h).0 p),
  λ p. any_of_mem (λ (c : ChunkInfo). text_eq c.hash h) p.1 ((text_eq_iff p.0.hash h).1 p.2),
)

module _ (server : List ChunkInfo) where
  abbrev pub IsMissing : List ChunkInfo → ℕ → Type 0
  IsMissing local i =
      (c : ChunkInfo) × Memᴰ c local × (c.index ≡ i) × (has_hash server c.hash ≡ false)

  IsMissing-tail :
      (c : ChunkInfo) (local : List ChunkInfo) (i : ℕ) → IsMissing local i → IsMissing (c ∷ local) i
  IsMissing-tail c local i (d, m, e, h) = (d, Memᴰ.tail m, e, h)

  diff_chunks-IsMissing :
      (local : List ChunkInfo) → All (IsMissing local) (diff_chunks local server)
  unfolding diff_chunks
  diff_chunks-IsMissing [] = tt
  diff_chunks-IsMissing (c ∷ local) =
      let rest =
        All-map (IsMissing local) (IsMissing (c ∷ local)) (diff_chunks local server)
          (IsMissing-tail c local) (diff_chunks-IsMissing local) in
      elim (Bool-cases (has_hash server c.hash)) [
        | inl known ↦ rw known rest
        | inr unknown ↦ rw unknown ((c, Memᴰ.head refl, refl, unknown), rest)
      ]

  diff_chunks-complete :
      {c : ChunkInfo} {local : List ChunkInfo}
      → Memᴰ c local
      → has_hash server c.hash ≡ false
      → Memᴰ c.index (diff_chunks local server)
  unfolding diff_chunks
  diff_chunks-complete {local = []} m h = elim m [ ]
  diff_chunks-complete {local = d ∷ local} (Memᴰ.head e) h =
      subst
        (λ (x : ChunkInfo).
          has_hash server x.hash ≡ false → Memᴰ x.index (diff_chunks (d ∷ local) server))
        (sym e) (λ k. rw k (Memᴰ.head refl)) h
  diff_chunks-complete {local = d ∷ local} (Memᴰ.tail m) h =
      let rest = diff_chunks-complete m h in
      elim (Bool-cases (has_hash server d.hash)) [
        | inl known ↦ rw known rest
        | inr unknown ↦ rw unknown (Memᴰ.tail rest)
      ]

-- What is uploaded: an index is in the difference exactly when it is that of a local chunk whose
-- hash no chunk of the server has; so nothing is uploaded that the server knows, and a local chunk
-- that the server lacks is not forgotten.
pub diff_chunks_exact :
    (local server : List ChunkInfo) (i : ℕ)
    → (Memᴰ i (diff_chunks local server)) ↔ (
        (c : ChunkInfo) × Memᴰ c local
        × (c.index ≡ i)
        × ((d : ChunkInfo) → Memᴰ d server → d.hash ≢ c.hash))
diff_chunks_exact local server i = (
  λ m.
      let (c, mc, p, h) =
        all_of_mem (IsMissing server local) m (diff_chunks-IsMissing server local) in
      (c, mc, p, λ d md same. cc (h, (has_hash_iff server c.hash).1 (d, md, same))),
  λ (c, mc, p, new).
      subst (λ j. Memᴰ j (diff_chunks local server)) p
        (diff_chunks-complete server mc (unknown c new)),
)
  where
    unknown :
        (c : ChunkInfo)
        → ((d : ChunkInfo) → Memᴰ d server → d.hash ≢ c.hash)
        → has_hash server c.hash ≡ false
    unknown c new = elim (Bool-cases (has_hash server c.hash)) [
      | inl e ↦ let (d, m, same) = (has_hash_iff server c.hash).0 e in absurd (new d m same)
      | inr e ↦ e
    ]

abbrev pub IsRead : List ℕ → Type 0
IsRead piece = piece ≢ []

hash_reads-flatten :
    (H : Hasher) (s : H.State) (reads rest : List (List ℕ))
    → All IsRead reads
    → hash_reads H s (reads ++ [] ∷ rest) ≡ H.update s (flatten reads)
unfolding hash_reads flatten
hash_reads-flatten H s [] rest h = sym (H.update-nil s)
hash_reads-flatten H s ([] ∷ reads) rest h = absurd (h.0 refl)
hash_reads-flatten H s ((b ∷ more) ∷ reads) rest h =
    hash_reads-flatten H (H.update s (b ∷ more)) reads rest h.1
    ∙ H.update-append s (b ∷ more) (flatten reads)

-- A file that is hashed as it is read, in pieces of any lengths up to the first empty read, has the
-- digest of the concatenation of those pieces, whatever would have been read after.
pub file_hash-flatten :
    (H : Hasher) (reads rest : List (List ℕ))
    → All IsRead reads
    → file_hash H (reads ++ [] ∷ rest) ≡ digest H (flatten reads)
unfolding file_hash digest
file_hash-flatten H reads rest h = ap H.finalize (hash_reads-flatten H H.new reads rest h)
