-- ===== src/Files/Resumable/Transfer.antt =====
-- A transfer from `init_transfer` over the chunks to `finalize_transfer`.
use mathlib.Core.List.{flatten}
use pcos.Prelude.{
  ltb, lt→ltb, ◌%◌, ℕ, suc, ◌+◌, ◌*◌, ◌^◌, ◌<◌, ◌≡◌, refl, sym, ap, ◌∙◌, List, [], ◌∷◌, ◌++◌,
  append_assoc, append-nil, Option, none, some, true, arith, length, All, All-append, Text, text_eq,
  text_eq_self, pos, trim,
}
use pcos.Common.Digest.{Hasher, digest}
use pcos.Common.Result.{ok}
use pcos.Files.Storage.{
  ChunkDir, Disk, chunk_file, put_chunk, or_empty, store_chunk, file_path, set_dir, set_blob,
  Assembled, assemble_chunks,
}
use pcos.Files.Storage.Assemble.{Holds, assemble_chunks-Holds}
use pcos.Files.Resumable.{
  FileEntry, Server, in_transfer, chunk_size, find_entry, find_open, parse_transfer_uuid,
  chunk_index, check_write, write_chunk_to, write_chunk, gather, check_and_update, finalize,
  finalize_transfer, count_chunks,
}

abbrev NumberedBelow : ℕ → ℕ × List ℕ → Type 0
NumberedBelow i c = c.0 < i

-- The directory that the pieces make when they come in order.
abbrev numbered : ℕ → List (List ℕ) → ChunkDir
numbered i [] = []
numbered i (piece ∷ pieces) = (i, piece) ∷ numbered (i + 1) pieces

put_chunk-new :
    (i : ℕ) (bytes : List ℕ) (dir : ChunkDir)
    → All (NumberedBelow i) dir
    → put_chunk i bytes dir ≡ dir ++ (i, bytes) ∷ []
unfolding put_chunk
put_chunk-new i bytes [] h = refl
put_chunk-new i bytes ((j, old) ∷ dir) h = ground (arith, put_chunk-new i bytes dir h.1)

chunk_file-append :
    (i : ℕ) (dir rest : ChunkDir)
    → All (NumberedBelow i) dir
    → chunk_file (dir ++ rest) i ≡ chunk_file rest i
unfolding chunk_file
chunk_file-append i [] rest h = refl
chunk_file-append i ((j, old) ∷ dir) rest h = ground (arith, chunk_file-append i dir rest h.1)

below_suc : (i : ℕ) (dir : ChunkDir) → All (NumberedBelow i) dir → All (NumberedBelow (i + 1)) dir
below_suc i [] h = tt
below_suc i (c ∷ dir) h = (omega (arith, h.0), below_suc i dir h.1)

below_snoc :
    (i : ℕ) (bytes : List ℕ) (dir : ChunkDir)
    → All (NumberedBelow i) dir
    → All (NumberedBelow (i + 1)) (dir ++ (i, bytes) ∷ [])
below_snoc i bytes dir h =
    All-append (NumberedBelow (i + 1)) dir ((i, bytes) ∷ []) (below_suc i dir h) (omega arith, tt)

chunk_file-here :
    (i : ℕ) (bytes : List ℕ) (rest : ChunkDir) → chunk_file ((i, bytes) ∷ rest) i ≡ some bytes
unfolding chunk_file
chunk_file-here i bytes rest = ground arith

Holds-numbered :
    (i : ℕ) (pieces : List (List ℕ)) (dir : ChunkDir)
    → All (NumberedBelow i) dir
    → Holds (dir ++ numbered i pieces) i pieces
Holds-numbered i [] dir h = tt
Holds-numbered i (piece ∷ pieces) dir h =
    let rest = Holds-numbered (i + 1) pieces (dir ++ (i, piece) ∷ []) (below_snoc i piece dir h) in
    (
      chunk_file-append i dir (numbered i (piece ∷ pieces)) h
          ∙ chunk_file-here i piece (numbered (i + 1) pieces),
      rw (append_assoc dir ((i, piece) ∷ []) (numbered (i + 1) pieces)) at rest,
    )

length-numbered : (i : ℕ) (pieces : List (List ℕ)) → length (numbered i pieces) ≡ length pieces
length-numbered i [] = refl
length-numbered i (piece ∷ pieces) = ap suc (length-numbered (i + 1) pieces)

-- Fewer than 2^31 chunks are counted as they are.
pub count_chunks-few :
    (dir : ChunkDir) (n : ℕ) → length dir ≡ n → n < 2 ^ 31 → count_chunks dir ≡ pos n
count_chunks-few dir n h few =
    let low : length dir % 2 ^ 32 ≡ n = omega (arith, h, few) in
    let small : ltb n (2 ^ 31) ≡ true = lt→ltb n (2 ^ 31) few in rw (low, small) refl

-- Text by text, what decoding gives.
abbrev pub Decoded : (Text → Option (List ℕ)) → List Text → List (List ℕ) → Type 0
Decoded decode [] [] = Unit
Decoded decode [] (piece ∷ pieces) = ⊥
Decoded decode (t ∷ ts) [] = ⊥
Decoded decode (t ∷ ts) (piece ∷ pieces) = (decode (trim t) ≡ some piece) × Decoded decode ts pieces

same_path : (s t : Text) → s ≡ t → text_eq s t ≡ true
same_path s t e = rw e (text_eq_self t)

find_open-of_find_entry :
    (user file : ℕ) (es : List FileEntry) (e : FileEntry)
    → find_entry user file es ≡ some e
    → text_eq e.storage_path in_transfer ≡ true
    → find_open user file es ≡ some e
unfolding find_entry find_open
find_open-of_find_entry user file [] e h p = h
find_open-of_find_entry user file (x ∷ es) e h p =
    let rec = find_open-of_find_entry user file es e in ground arith

chunk_index-offset : (i : ℕ) → i < 2 ^ 32 → chunk_index (pos (i * chunk_size)) ≡ i
chunk_index-offset i h = omega arith

store_chunk_self :
    (user file i : ℕ) (bytes : List ℕ) (disk : Disk)
    → (store_chunk user file i bytes disk).chunk_dirs user file
      ≡ some (put_chunk i bytes (or_empty (disk.chunk_dirs user file)))
unfolding store_chunk
store_chunk_self user file i bytes disk = ground arith

module _ (H : Hasher) (show : ℕ → Text) (parse_uuid : Text → Option ℕ)
    (decode : Text → Option (List ℕ)) (user file : ℕ) (id : Text)
    (parsed : parse_transfer_uuid H show parse_uuid decode id ≡ ok file) where
  write_chunk-ok :
      (i : ℕ) (t : Text) (piece : List ℕ) (e : FileEntry) (s : Server)
      → i < 2 ^ 32
      → find_entry user file s.entries ≡ some e
      → text_eq e.storage_path in_transfer ≡ true
      → decode (trim t) ≡ some piece
      → write_chunk H show parse_uuid decode user id (pos (i * chunk_size)) t s
        ≡ (ok (length piece), record s { disk = store_chunk user file i piece s.disk })
  unfolding write_chunk write_chunk_to check_write
  write_chunk-ok i t piece e s lt found opened decoded =
      rw
        (
          parsed,
          write_chunk,
          find_open-of_find_entry user file s.entries e found opened,
          check_write,
          decoded,
          write_chunk_to,
          chunk_index-offset i lt,
        )
        refl

  -- The pieces of a file, from the `i`-th on, written one after the other by `write_chunk`.
  abbrev pub send : ℕ → List Text → Server → Server
  send i [] s = s
  send i (t ∷ ts) s =
      send (i + 1) ts (write_chunk H show parse_uuid decode user id (pos (i * chunk_size)) t s).1

  pub send_lem :
      (i : ℕ) (ts : List Text) (pieces : List (List ℕ)) (e : FileEntry) (s : Server)
      → i + length pieces < 2 ^ 32
      → find_entry user file s.entries ≡ some e
      → text_eq e.storage_path in_transfer ≡ true
      → Decoded decode ts pieces
      → All (NumberedBelow i) (or_empty (s.disk.chunk_dirs user file))
      → ((send i ts s).entries ≡ s.entries)
        × (or_empty ((send i ts s).disk.chunk_dirs user file)
            ≡ or_empty (s.disk.chunk_dirs user file) ++ numbered i pieces)
  send_lem i [] [] e s lt found opened d below =
      (refl, sym (append-nil (or_empty (s.disk.chunk_dirs user file))))
  send_lem i [] (piece ∷ pieces) e s lt found opened d below = absurd d
  send_lem i (t ∷ ts) [] e s lt found opened d below = absurd d
  send_lem i (t ∷ ts) (piece ∷ pieces) e s lt found opened d below =
      let step = write_chunk-ok i t piece e s (omega arith) found opened d.0 in
      let s' : Server = record s { disk = store_chunk user file i piece s.disk } in
      let dir = or_empty (s.disk.chunk_dirs user file) in
      let grown : or_empty (s'.disk.chunk_dirs user file) ≡ dir ++ (i, piece) ∷ [] =
        ap or_empty (store_chunk_self user file i piece s.disk) ∙ put_chunk-new i piece dir below in
      let rest =
        send_lem (i + 1) ts pieces e s' (omega arith) found opened d.1
          (rw grown (below_snoc i piece dir below)) in
      rw (step, send)
        (
          rest.0,
          rest.1
              ∙ ap (λ x. x ++ numbered (i + 1) pieces) grown
              ∙ append_assoc dir ((i, piece) ∷ []) (numbered (i + 1) pieces),
        )

  -- The file that the pieces make, as `assemble_chunks` answers it, and the disk after it.
  abbrev pub whole : List (List ℕ) → Assembled
  whole pieces = record {
    path = file_path show user file;
    hash = digest H (flatten pieces);
    size = length (flatten pieces);
  }

  abbrev pub assembled_disk : List (List ℕ) → Disk → Disk
  assembled_disk pieces disk =
      set_dir user file none (set_blob (file_path show user file) (flatten pieces) disk)

  pub gather-counted :
      (dir : ChunkDir) (n : ℕ) (e : FileEntry) (disk : Disk)
      → count_chunks dir ≡ pos (suc n)
      → gather H show parse_uuid decode user file e disk (some dir)
        ≡ assemble_chunks H show user file file (pos (suc n)) disk
  unfolding gather
  gather-counted dir n e disk count = rw count refl

  gather-numbered :
      (piece : List ℕ) (pieces : List (List ℕ)) (e : FileEntry) (disk : Disk)
      → length (piece ∷ pieces) < 2 ^ 31
      → disk.chunk_dirs user file ≡ some (numbered 0 (piece ∷ pieces))
      → gather H show parse_uuid decode user file e disk (disk.chunk_dirs user file)
        ≡ (some (whole (piece ∷ pieces)), assembled_disk (piece ∷ pieces) disk)
  unfolding gather
  gather-numbered piece pieces e disk few d =
      let dir = numbered 0 (piece ∷ pieces) in
      let count : count_chunks dir ≡ pos (length (piece ∷ pieces)) =
        count_chunks-few dir (length (piece ∷ pieces)) (length-numbered 0 (piece ∷ pieces)) few in
      ap (gather H show parse_uuid decode user file e disk) d
      ∙ gather-counted dir (length pieces) e disk count
      ∙ assemble_chunks-Holds H show user file file disk (numbered 0 (piece ∷ pieces))
          (piece ∷ pieces) d (Holds-numbered 0 (piece ∷ pieces) [] tt)

  some_of_or_empty :
      (o : Option ChunkDir) (c : ℕ × List ℕ) (dir : ChunkDir)
      → or_empty o ≡ c ∷ dir
      → o ≡ some (c ∷ dir)
  some_of_or_empty none c dir h = ground arith
  some_of_or_empty (some d) c dir h = ap some h

  pub finalize_transfer-found :
      (client : Option Text) (e : FileEntry) (s : Server)
      → find_entry user file s.entries ≡ some e
      → finalize_transfer H show parse_uuid decode user id client s
        ≡ check_and_update H show parse_uuid decode file e client s
            (gather H show parse_uuid decode user file e s.disk (s.disk.chunk_dirs user file))
  unfolding finalize_transfer finalize
  finalize_transfer-found client e s found = rw (parsed, finalize_transfer, found, finalize) refl

  -- After the pieces are written `finalize_transfer` comes to the test of the client's hash with them.
  pub finalize-send :
      (ts : List Text) (piece : List ℕ) (pieces : List (List ℕ)) (e : FileEntry) (s : Server)
      (client : Option Text)
      → length (piece ∷ pieces) < 2 ^ 31
      → find_entry user file s.entries ≡ some e
      → text_eq e.storage_path in_transfer ≡ true
      → Decoded decode ts (piece ∷ pieces)
      → s.disk.chunk_dirs user file ≡ none
      → finalize_transfer H show parse_uuid decode user id client (send 0 ts s)
        ≡ check_and_update H show parse_uuid decode file e client
            (send 0 ts s)
            (some (whole (piece ∷ pieces)), assembled_disk (piece ∷ pieces) (send 0 ts s).disk)
  finalize-send ts piece pieces e s client lt found opened decoded fresh =
      let empty : or_empty (s.disk.chunk_dirs user file) ≡ [] = ap or_empty fresh in
      let sent =
        send_lem 0 ts (piece ∷ pieces) e s (omega arith) found opened decoded (rw empty tt) in
      let dir =
        some_of_or_empty ((send 0 ts s).disk.chunk_dirs user file) (0, piece) (numbered 1 pieces)
          (sent.1 ∙ ap (λ x. x ++ numbered 0 (piece ∷ pieces)) empty) in
      finalize_transfer-found client e (send 0 ts s) (ap (find_entry user file) sent.0 ∙ found)
      ∙ ap (check_and_update H show parse_uuid decode file e client (send 0 ts s))
          (gather-numbered piece pieces e (send 0 ts s).disk lt dir)
