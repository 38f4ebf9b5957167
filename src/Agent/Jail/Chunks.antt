-- ===== src/Agent/Jail/Chunks.antt =====
-- Reading a file of the jail in chunks: `FsHandler::read_chunk` of agent/src/fs_handler.rs, and a client
-- that asks for one chunk after the other.
use Prim.Native.Nat.{min}
use mathlib.Core.Path.{subst}
use pcos.Prelude.{
  ℕ, ◌+◌, ◌-◌, ◌≤◌, ◌<◌, ◌≡◌, refl, sym, ap, ◌∙◌, arith, List, [], ◌∷◌, Option, none, some, leb,
  leb→le, le→leb, Bool-cases, Option-cases, inl, inr, length, length-take, length-drop, take, drop,
  take-length_take, All, All-take, All-drop, Text,
}
use pcos.Agent.Base64.{base64_decode, base64_encode}
use pcos.Agent.Base64.RoundTrip.{base64_decode-encode}
use pcos.Agent.Jail.{PathBuf, Resolved, resolved, refused, canonicalize, safe_resolve}
use pcos.Agent.Jail.Disk.{
  Object, contents, directory, symlink, Disk, path_eq, lookup, nodes, object_at,
}
use pcos.Agent.Jail.Operations.{
  success, at_path, read_object, ReadChunkResult, max_chunk, read_len, buffer_at, chunk_at,
  read_chunk,
}

-- Files hold bytes.
abbrev pub ObjectHasBytes : Object → Type 0
ObjectHasBytes (contents bytes) = All (λ b. b < 256) bytes
ObjectHasBytes directory = Unit
ObjectHasBytes (symlink target) = Unit

abbrev pub HasBytes : Disk → Type 0
HasBytes disk = All (λ entry. ObjectHasBytes entry.1) disk

lookup-HasBytes :
    (disk : Disk) (p : PathBuf) (bytes : List ℕ)
    → HasBytes disk
    → lookup disk p ≡ some (contents bytes)
    → All (λ b. b < 256) bytes
unfolding lookup
lookup-HasBytes [] p bytes hb h = absurd (ground arith)
lookup-HasBytes ((q, o) ∷ disk) p bytes (here, hb) h = elim (Bool-cases (path_eq q p)) [
  | inl e ↦
      let h' = rw (e, lookup) at h in
      let same : o ≡ contents bytes = cc in subst ObjectHasBytes same here
  | inr e ↦ lookup-HasBytes disk p bytes hb (rw (e, lookup) at h)
]

pub object_at-HasBytes :
    (disk : Disk) (p : PathBuf) (bytes : List ℕ)
    → HasBytes disk
    → object_at disk p ≡ some (contents bytes)
    → All (λ b. b < 256) bytes
unfolding object_at
object_at-HasBytes disk p bytes hb h = elim (Option-cases (canonicalize (nodes disk) p)) [
  | inl e ↦ absurd (let h' = rw (e, object_at) at h in ground arith)
  | inr ([], e) ↦ absurd (let h' = rw (e, object_at) at h in ground arith)
  | inr (c ∷ q, e) ↦ lookup-HasBytes disk (c ∷ q) bytes hb (rw (e, object_at) at h)
]

-- What a chunk of a file says of it.
abbrev pub IsChunk : List ℕ → ℕ → ℕ → ReadChunkResult → Type 0
IsChunk bytes offset max_length r =
    (r.read ≤ max_chunk)
    × (r.read ≤ max_length)
    × (r.total_size ≡ length bytes)
    × (r.eof ≡ leb (length bytes) (offset + r.read))
    × (base64_decode r.data_base64 ≡ some (take r.read (drop offset bytes)))

pub decode_nothing : base64_decode [] ≡ some []
unfolding base64_encode
decode_nothing = base64_decode-encode [] tt

module _ (delivered : ℕ) (rel_path : Text) (bytes : List ℕ) (offset max_length : ℕ) where
  abbrev pub buffer : List ℕ
  buffer = buffer_at delivered bytes offset max_length

  pub decode_buffer : All (λ b. b < 256) bytes → base64_decode (base64_encode buffer) ≡ some buffer
  decode_buffer hb = base64_decode-encode buffer (
      All-take _ (min delivered (read_len max_length (length bytes) offset)) (drop offset bytes)
        (All-drop _ offset bytes hb))

  pub length-buffer :
      length buffer
      ≡ min (min delivered (read_len max_length (length bytes) offset)) (length bytes - offset)
  length-buffer =
      length-take (min delivered (read_len max_length (length bytes) offset)) (drop offset bytes)
      ∙ ap (min (min delivered (read_len max_length (length bytes) offset)))
          (length-drop offset bytes)

  pub chunk_at-IsChunk :
      All (λ b. b < 256) bytes
      → IsChunk bytes offset max_length (chunk_at delivered rel_path bytes offset max_length)
  unfolding chunk_at
  chunk_at-IsChunk hb = elim (Bool-cases (leb (length bytes) offset)) [
    | inl e ↦
        rw (e, chunk_at)
          (
            omega arith,
            omega arith,
            refl,
            sym (le→leb (length bytes) (offset + 0) (omega (arith, leb→le _ _ e))),
            decode_nothing,
          )
    | inr e ↦
        rw (e, chunk_at)
          (
            omega (arith, length-buffer),
            omega (arith, length-buffer),
            refl,
            refl,
            decode_buffer hb ∙ ap some (sym (take-length_take _ (drop offset bytes))),
          )
  ]

module _ (disk : Disk) (delivered : ℕ) (root : PathBuf) (rel_path : Text)
    (offset max_length : ℕ) where
  pub read_found :
      (p : PathBuf) (bytes : List ℕ)
      → safe_resolve (nodes disk) root rel_path ≡ resolved p
      → object_at disk p ≡ some (contents bytes)
      → read_chunk disk delivered root rel_path offset max_length
        ≡ success (chunk_at delivered rel_path bytes offset max_length)
  unfolding read_chunk
  read_found p bytes h found =
      ap (λ s. at_path s (λ q. read_object delivered rel_path offset max_length (object_at disk q)))
        h
      ∙ ap (read_object delivered rel_path offset max_length) found

  at_path_success :
      (s : Resolved) (r : ReadChunkResult)
      → at_path s (λ p. read_object delivered rel_path offset max_length (object_at disk p))
        ≡ success r
      → (p : PathBuf) × (s ≡ resolved p)
        × (read_object delivered rel_path offset max_length (object_at disk p) ≡ success r)
  at_path_success (resolved p) r h = (p, refl, h)
  at_path_success (refused e) r h = absurd (ground arith)

  read_object_success :
      (o : Option Object) (r : ReadChunkResult)
      → read_object delivered rel_path offset max_length o ≡ success r
      → (bytes : List ℕ) × (o ≡ some (contents bytes))
        × (chunk_at delivered rel_path bytes offset max_length ≡ r)
  read_object_success none r h = absurd (ground arith)
  read_object_success (some directory) r h = absurd (ground arith)
  read_object_success (some (symlink t)) r h = absurd (ground arith)
  read_object_success (some (contents bytes)) r h = (bytes, refl, cc)

  -- Reading in the jail. What `read_chunk` answers is a chunk of the file that the path resolves to: at most
  -- two MiB and at most what was asked for, with the size of the file, the end of the file told exactly
  -- where the chunk reaches it, and the bytes that decode from it those at its offset.
  pub read_chunk_lem :
      (r : ReadChunkResult)
      → HasBytes disk
      → read_chunk disk delivered root rel_path offset max_length ≡ success r
      → (p : PathBuf) × (bytes : List ℕ) × (safe_resolve (nodes disk) root rel_path ≡ resolved p)
        × (object_at disk p ≡ some (contents bytes))
        × IsChunk bytes offset max_length r
  unfolding read_chunk
  read_chunk_lem r hb h =
      let (p, w, found) = at_path_success (safe_resolve (nodes disk) root rel_path) r h in
      let (bytes, o, same) = read_object_success (object_at disk p) r found in
      (
        p,
        bytes,
        w,
        o,
        subst (IsChunk bytes offset max_length) same (
            chunk_at-IsChunk delivered rel_path bytes offset max_length
              (object_at-HasBytes disk p bytes hb o)),
      )
