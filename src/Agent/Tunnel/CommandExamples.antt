-- ===== src/Agent/Tunnel/CommandExamples.antt =====
-- Requests of a remote client to a node with the data folder `/r`.
use pcos.Prelude.{
  ◌≡◌, refl, List, [], ◌∷◌, Option, none, some, Bool, false, Text, codes, trim, trim_start_by,
  trim_end_by, is_whitespace,
}
use pcos.Common.Digest.{transcript}
use pcos.Agent.Jail.{
  PathBuf, resolve, canonicalize, split_slash, components, replace_backslash, cleaned,
  check_candidate, resolve_below, safe_resolve,
}
use pcos.Agent.Jail.Disk.{contents, directory, Disk, lookup, object_at, remove_at, remove_below}
use pcos.Agent.Jail.Operations.{delete}
use pcos.Agent.Tunnel.{target_root, clean, is_forbidden}
use pcos.Agent.Tunnel.Commands.{Request, Response, op_of, restricted, handle_fs_command}

abbrev lower : Text → Text
lower path = path

abbrev no_time : PathBuf → Option Text
no_time p = none

abbrev writable : PathBuf → Bool
writable p = false

abbrev no_probe : PathBuf → Option Text
no_probe p = none

abbrev disk : Disk
disk =
    (codes "r" ∷ [], directory)
    ∷ (codes "r" ∷ codes "f" ∷ [], contents (1 ∷ []))
    ∷ (codes "o" ∷ [], directory)
    ∷ []

abbrev request : Text → Option Text → Request
request op storage_path = record {
  request_id = some (codes "q");
  op = some op;
  relative_path = some (codes "f");
  storage_path = storage_path;
  offset = none;
  max_read = none;
  data_base64 = some (codes "BQY=");
  recursive = none;
}

abbrev handled : Text → Request → List Text → List Text → Disk → Disk × Response
handled = handle_fs_command lower no_time writable transcript no_probe 9

-- The delete of a request arrives on the disk; another root is restricted.
arrives :
    lookup
      (handled (codes "/r") (request (codes "fs_delete") none) [] [] disk).0
      (codes "r" ∷ codes "f" ∷ [])
    ≡ none
unfolding handle_fs_command is_forbidden clean target_root op_of delete remove_at remove_below
    object_at safe_resolve resolve_below check_candidate canonicalize resolve cleaned
    replace_backslash split_slash components trim trim_start_by trim_end_by is_whitespace lookup
arrives = refl

restricts :
    handled (codes "/r") (request (codes "fs_delete") (some (codes "/o"))) [] [] disk
    ≡ (disk, record { request_id = codes "q"; answer = restricted })
unfolding handle_fs_command is_forbidden clean target_root op_of trim trim_start_by trim_end_by
    is_whitespace
restricts = refl
