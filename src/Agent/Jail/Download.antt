-- ===== src/Agent/Jail/Download.antt =====
-- A client that asks `FsHandler::read_chunk` of agent/src/fs_handler.rs for one chunk after the other until
-- it is told that the file has ended.
use mathlib.Core.Path.{subst}
use pcos.Prelude.{
  ◌⊎◌, ℕ, zero, suc, ◌+◌, ◌-◌, ◌≤◌, ◌<◌, ◌≡◌, refl, sym, ap, ◌∙◌, arith, List, [], ◌∷◌, ◌++◌,
  Option, none, some, Bool, true, false, leb, leb→le, Bool-cases, inl, inr, length, take, drop,
  take-append-drop, take_all, take-length_take, length-drop, drop-drop, Text,
}
use pcos.Agent.Base64.{base64_encode, base64_decode}
use pcos.Agent.Jail.{PathBuf, resolved, safe_resolve}
use pcos.Agent.Jail.Disk.{contents, Disk, nodes, object_at}
use pcos.Agent.Jail.Operations.{
  FsResult, success, failure, buffer_at, ReadChunkResult, read_chunk, chunk_at,
}
use pcos.Agent.Jail.Chunks.{
  HasBytes, object_at-HasBytes, decode_nothing, read_found, decode_buffer, length-buffer,
}

-- `delivered` says of each offset how many bytes a call of `read` delivers there at most.
List-cases : (xs : List ℕ) → (xs ≡ []) ⊎ (0 < length xs)
List-cases [] = inl refl
List-cases (x ∷ xs) = inr (omega arith)

module _ (disk : Disk) (delivered : ℕ → ℕ) (root : PathBuf) (rel_path : Text) (max_length : ℕ) where
  abbrev pub prepend : List ℕ → Option (List ℕ) → Option (List ℕ)
  prepend front none = none
  prepend front (some rest) = some (front ++ rest)

  -- One round: `rest` asks for what is behind the chunk.
  abbrev pub after_data : Bool → Option (List ℕ) → Option (List ℕ) → Option (List ℕ)
  after_data ends rest none = none
  after_data true rest (some bytes) = some bytes
  after_data false rest (some bytes) = prepend bytes rest

  abbrev pub after_chunk : (ℕ → Option (List ℕ)) → FsResult ReadChunkResult → Option (List ℕ)
  after_chunk rest (failure e) = none
  after_chunk rest (success r) =
      after_data r.eof (rest (r.offset + r.read)) (base64_decode r.data_base64)

  -- `none` where a call fails, its data does not decode, or the calls allowed are used up.
  unfoldable pub download : ℕ → ℕ → Option (List ℕ)
  download zero offset = none
  download (suc calls) offset =
      after_chunk (download calls)
        (read_chunk disk (delivered offset) root rel_path offset max_length)

  module _ (p : PathBuf) (bytes : List ℕ) (hb : HasBytes disk)
      (found : safe_resolve (nodes disk) root rel_path ≡ resolved p)
      (file : object_at disk p ≡ some (contents bytes)) (asks : 0 < max_length)
      (delivers : (offset : ℕ) → 0 < delivered offset) where
    abbrev chunk : ℕ → ReadChunkResult
    chunk offset = chunk_at (delivered offset) rel_path bytes offset max_length

    abbrev got : ℕ → List ℕ
    got offset = buffer_at (delivered offset) bytes offset max_length

    read_here :
        (offset : ℕ)
        → read_chunk disk (delivered offset) root rel_path offset max_length
          ≡ success (chunk offset)
    read_here offset =
        read_found disk (delivered offset) root rel_path offset max_length p bytes found file

    last_chunk :
        (offset : ℕ)
        → offset < length bytes
        → (chunk offset ≡ record {
          relative_path = rel_path;
          offset = offset;
          read = length (got offset);
          total_size = length bytes;
          eof = leb (length bytes) (offset + length (got offset));
          data_base64 = base64_encode (got offset);
        })
    unfolding chunk_at
    last_chunk offset h =
        let e : leb (length bytes) offset ≡ false = ground (arith, h) in rw (e, chunk_at) refl

    decode_here : (offset : ℕ) → base64_decode (base64_encode (got offset)) ≡ some (got offset)
    decode_here offset =
        decode_buffer (delivered offset) rel_path bytes offset max_length
          (object_at-HasBytes disk p bytes hb file)

    round :
        (calls offset : ℕ)
        → offset < length bytes
        → download (suc calls) offset
          ≡ after_data
              (leb (length bytes) (offset + length (got offset)))
              (download calls (offset + length (got offset)))
              (some (got offset))
    unfolding download
    round calls offset h =
        ap (after_chunk (download calls)) (read_here offset ∙ ap success (last_chunk offset h))
        ∙ ap
            (after_data (leb (length bytes) (offset + length (got offset)))
              (download calls (offset + length (got offset))))
            (decode_here offset)

    advances : (offset : ℕ) → offset < length bytes → 0 < length (got offset)
    advances offset h = omega (
      arith,
      h,
      asks,
      delivers offset,
      length-buffer (delivered offset) rel_path bytes offset max_length,
    )

    got_is_taken : (offset : ℕ) → take (length (got offset)) (drop offset bytes) ≡ got offset
    got_is_taken offset = take-length_take _ (drop offset bytes)

    got_all :
        (offset : ℕ) → length bytes ≤ offset + length (got offset) → got offset ≡ drop offset bytes
    got_all offset h =
        sym (got_is_taken offset)
        ∙ take_all (length (got offset)) (drop offset bytes)
            (omega (arith, h, length-drop offset bytes))

    got_rest :
        (offset : ℕ) → got offset ++ drop (offset + length (got offset)) bytes ≡ drop offset bytes
    got_rest offset =
        ap (λ r. got offset ++ r) (sym (drop-drop (length (got offset)) offset bytes))
        ∙ ap (λ f. f ++ drop (length (got offset)) (drop offset bytes)) (sym (got_is_taken offset))
        ∙ take-append-drop (length (got offset)) (drop offset bytes)

    pub download_from :
        (calls offset : ℕ)
        → offset < length bytes
        → length bytes - offset ≤ calls
        → download calls offset ≡ some (drop offset bytes)
    download_from zero offset h enough = absurd (omega (arith, h, enough))
    download_from (suc calls) offset h enough =
        elim (Bool-cases (leb (length bytes) (offset + length (got offset)))) [
          | inl e ↦
              round calls offset h
              ∙ ap
                  (λ b.
                    after_data b (download calls (offset + length (got offset)))
                      (some (got offset)))
                  e
              ∙ ap some (got_all offset (leb→le _ _ e))
          | inr e ↦
              let short : offset + length (got offset) < length bytes = ground (arith, e) in
              round calls offset h
              ∙ ap
                  (λ b.
                    after_data b (download calls (offset + length (got offset)))
                      (some (got offset)))
                  e
              ∙ ap (prepend (got offset)) (
                  download_from calls (offset + length (got offset)) short
                    (omega (arith, enough, advances offset h, short)))
              ∙ ap some (got_rest offset)
        ]

    -- An empty file ends at once.
    download_empty : (calls : ℕ) → bytes ≡ [] → download (suc calls) 0 ≡ some bytes
    unfolding download chunk_at
    download_empty calls e =
        ap (after_chunk (download calls)) (read_here 0)
        ∙ subst
            (λ b.
              after_chunk (download calls)
                (success (chunk_at (delivered 0) rel_path b 0 max_length))
              ≡ some b)
            (sym e) (ap (after_data true (download calls 0)) decode_nothing)

    pub download_start :
        (calls : ℕ) → 0 < calls → length bytes ≤ calls → download calls 0 ≡ some bytes
    download_start zero one enough = absurd (omega (arith, one))
    download_start (suc calls) one enough = elim (List-cases bytes) [
      | inl e ↦ download_empty calls e
      | inr e ↦ download_from (suc calls) 0 e (omega (arith, enough))
    ]

-- Reading a file to its end comes to an end. Where the path resolves to a file, the client
-- asks for at least one byte a call and each call delivers at least one, as many calls as the file has
-- bytes are enough, one for an empty file, and what they bring, put together, is the file.
pub download_lem :
    (disk : Disk) (delivered : ℕ → ℕ) (root : PathBuf) (rel_path : Text) (max_length calls : ℕ)
    (p : PathBuf) (bytes : List ℕ)
    → HasBytes disk
    → safe_resolve (nodes disk) root rel_path ≡ resolved p
    → object_at disk p ≡ some (contents bytes)
    → 0 < max_length
    → ((offset : ℕ) → 0 < delivered offset)
    → 0 < calls
    → length bytes ≤ calls
    → download disk delivered root rel_path max_length calls 0 ≡ some bytes
download_lem disk delivered root rel_path max_length calls p bytes hb found file asks delivers one
      enough =
    download_start disk delivered root rel_path max_length p bytes hb found file asks delivers calls
      one enough
