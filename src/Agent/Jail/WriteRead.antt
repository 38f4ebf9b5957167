-- ===== src/Agent/Jail/WriteRead.antt =====
-- What was written is read again: `write_chunk` and `read_chunk` of agent/src/fs_handler.rs together with the
-- Base64 codec.
use Prim.Native.Nat.{min}
use pcos.Prelude.{
  ℕ, ◌≤◌, ◌<◌, ◌≡◌, ap, ◌∙◌, arith, List, some, false, leb, length, take, drop, All, Text,
}
use pcos.Agent.Base64.{base64_encode, base64_decode}
use pcos.Agent.Base64.RoundTrip.{base64_decode-encode}
use pcos.Agent.Jail.{PathBuf, resolved, safe_resolve}
use pcos.Agent.Jail.Disk.{contents, Disk, nodes, object_at, overwrite}
use pcos.Agent.Jail.Operations.{
  success, ReadChunkResult, max_chunk, read_len, buffer_at, chunk_at, read_chunk, write_chunk,
}
use pcos.Agent.Jail.Chunks.{read_found}
use pcos.Agent.Jail.Overwrite.{overwrite_there, length-overwrite_lower, write_chunk_lem}

module _ (delivered : ℕ) (rel_path : Text) (old : List ℕ) (offset : ℕ) (bytes : List ℕ)
    (some_bytes : 0 < length bytes) (fits : length bytes ≤ max_chunk)
    (delivers : length bytes ≤ delivered) where
  abbrev new : List ℕ
  new = overwrite old offset bytes

  buffer_is_written : buffer_at delivered new offset (length bytes) ≡ bytes
  buffer_is_written =
      let long = length-overwrite_lower old offset bytes some_bytes in
      let all : min delivered (read_len (length bytes) (length new) offset) ≡ length bytes =
        omega (arith, long, fits, delivers) in
      ap (λ n. take n (drop offset new)) all ∙ overwrite_there old offset bytes

  chunk_is_written :
      (chunk_at delivered rel_path new offset (length bytes)).data_base64 ≡ base64_encode bytes
  unfolding chunk_at
  chunk_is_written =
      let long = length-overwrite_lower old offset bytes some_bytes in
      let e : leb (length new) offset ≡ false = ground (arith, long, some_bytes) in
      rw (e, chunk_at) (ap base64_encode buffer_is_written)

-- What was written is read again. Where the path resolves to a file, at most two MiB of bytes and at least
-- one are written to it, and the call of `read` delivers that many: reading as many from the same
-- offset succeeds, and its data decodes to the bytes that were written.
pub write_then_read :
    (disk : Disk) (root : PathBuf) (rel_path : Text) (p : PathBuf) (old : List ℕ) (offset : ℕ)
    (bytes : List ℕ) (delivered : ℕ)
    → safe_resolve (nodes disk) root rel_path ≡ resolved p
    → object_at disk p ≡ some (contents old)
    → All (λ b. b < 256) bytes
    → 0 < length bytes
    → length bytes ≤ max_chunk
    → length bytes ≤ delivered
    → (r : ReadChunkResult) × (read_chunk
          (write_chunk disk root rel_path offset bytes).0
          delivered
          root
          rel_path
          offset
          (length bytes)
        ≡ success r)
      × (base64_decode r.data_base64 ≡ some bytes)
write_then_read disk root rel_path p old offset bytes delivered here found hb some_bytes fits
      delivers =
    let (answer, found', here', others) =
      write_chunk_lem disk root rel_path p old offset bytes here found in
    (
      chunk_at delivered rel_path (overwrite old offset bytes) offset (length bytes),
      read_found (write_chunk disk root rel_path offset bytes).0 delivered root rel_path offset
          (length bytes) p (overwrite old offset bytes) here' found',
      ap base64_decode
            (chunk_is_written delivered rel_path old offset bytes some_bytes fits delivers)
          ∙ base64_decode-encode bytes hb,
    )
