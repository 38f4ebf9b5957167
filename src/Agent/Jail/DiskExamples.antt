-- ===== src/Agent/Jail/DiskExamples.antt =====
-- The operations of the jail on a disk with a file `/r/f`, a folder `/r/d` with a file, a link `/r/a` to the
-- folder `/o`, and a file `/o/x`.
use pcos.Prelude.{
  ℕ, ◌≡◌, refl, arith, List, [], ◌∷◌, Option, none, some, Bool, true, false, Text, codes, trim,
  trim_start_by, trim_end_by, is_whitespace,
}
use pcos.Prelude.Sorting.{sort_by}
use pcos.Agent.Base64.{base64_decode}
use pcos.Agent.Jail.{
  PathBuf, resolve, canonicalize, split_slash, components, replace_backslash, cleaned, resolved,
  path_traversal, permission_denied, io, check_candidate, check_parent, resolve_below, safe_resolve,
}
use pcos.Agent.Jail.Disk.{
  contents, directory, symlink, Disk, lookup, nodes, put, object_at, create_dir_all, create_at,
  open_file, overwrite, remove_below,
}
use pcos.Agent.Jail.Operations.{
  success, failure, ReadChunkResult, chunk_at, read_chunk, write_chunk, delete, mkdir,
}
use pcos.Agent.Jail.Listing.{FsEntry, ListDirResult, guess_mime_type, entry_le, read_dir, list_dir}
use pcos.Agent.Jail.Chunks.{HasBytes, IsChunk, read_chunk_lem}
use pcos.Agent.Jail.Download.{download, download_lem}
use pcos.Agent.Jail.Removal.{DeletesBelow, delete_lem}
use pcos.Agent.Jail.WriteRead.{write_then_read}

abbrev root : PathBuf
root = codes "r" ∷ []

abbrev f_path : PathBuf
f_path = codes "r" ∷ codes "f" ∷ []

abbrev hello : List ℕ
hello = 104 ∷ 101 ∷ 108 ∷ 108 ∷ 111 ∷ []

abbrev disk : Disk
disk =
    (root, directory)
    ∷ (codes "o" ∷ [], directory)
    ∷ (f_path, contents hello)
    ∷ (codes "r" ∷ codes "d" ∷ [], directory)
    ∷ (codes "r" ∷ codes "d" ∷ codes "b" ∷ [], contents (9 ∷ []))
    ∷ (codes "r" ∷ codes "a" ∷ [], symlink (codes "o" ∷ []))
    ∷ (codes "o" ∷ codes "x" ∷ [], contents (7 ∷ []))
    ∷ []

disk-HasBytes : HasBytes disk
disk-HasBytes = (
  tt,
  (
    tt,
    (
      (omega arith, (omega arith, (omega arith, (omega arith, (omega arith, tt))))),
      (tt, ((omega arith, tt), (tt, ((omega arith, tt), tt)))),
    ),
  ),
)

here : safe_resolve (nodes disk) root (codes "f") ≡ resolved f_path
unfolding safe_resolve resolve_below check_candidate canonicalize resolve cleaned replace_backslash
    split_slash components trim trim_start_by trim_end_by is_whitespace lookup
here = refl

found : object_at disk f_path ≡ some (contents hello)
unfolding object_at canonicalize resolve lookup
found = refl

abbrev second : ReadChunkResult
second = chunk_at 2 (codes "f") hello 3 10

reads : read_chunk disk 2 root (codes "f") 3 10 ≡ success second
unfolding read_chunk object_at safe_resolve resolve_below check_candidate canonicalize resolve
    cleaned replace_backslash split_slash components trim trim_start_by trim_end_by is_whitespace
    lookup
reads = refl

second_ends : second.eof ≡ true
unfolding chunk_at
second_ends = refl

read_chunk_lem_example :
    (p : PathBuf) × (bytes : List ℕ) × (safe_resolve (nodes disk) root (codes "f") ≡ resolved p)
    × (object_at disk p ≡ some (contents bytes))
    × IsChunk bytes 3 10 second
read_chunk_lem_example = read_chunk_lem disk 2 root (codes "f") 3 10 second disk-HasBytes reads

download_lem_example : download disk (λ offset. 2) root (codes "f") 10 5 0 ≡ some hello
download_lem_example =
    download_lem disk (λ offset. 2) root (codes "f") 10 5 f_path hello disk-HasBytes here found
      (omega arith) (λ offset. omega arith) (omega arith) (omega arith)

canonical : canonicalize (nodes disk) root ≡ some root
unfolding canonicalize resolve lookup
canonical = refl

delete_lem_example :
    DeletesBelow root true
      (safe_resolve (nodes disk) root (codes "d"))
      disk
      (delete disk root (codes "d") true)
delete_lem_example = delete_lem disk root root (codes "d") true canonical

-- The folder goes with its file; without `recursive` it stays; the root stays; a link that leads out is
-- refused.
takes_folder :
    lookup (delete disk root (codes "d") true).0 (codes "r" ∷ codes "d" ∷ codes "b" ∷ []) ≡ none
unfolding delete remove_below object_at safe_resolve resolve_below check_candidate canonicalize
    resolve cleaned replace_backslash split_slash components trim trim_start_by trim_end_by
    is_whitespace lookup
takes_folder = refl

keeps_full_folder : delete disk root (codes "d") false ≡ (disk, failure io)
unfolding delete object_at safe_resolve resolve_below check_candidate canonicalize resolve cleaned
    replace_backslash split_slash components trim trim_start_by trim_end_by is_whitespace lookup
keeps_full_folder = refl

keeps_root : delete disk root (codes ".") true ≡ (disk, failure permission_denied)
unfolding delete object_at safe_resolve resolve_below check_candidate canonicalize resolve cleaned
    replace_backslash split_slash components trim trim_start_by trim_end_by is_whitespace lookup
keeps_root = refl

refuses_link : delete disk root (codes "a/x") true ≡ (disk, failure path_traversal)
unfolding delete object_at safe_resolve resolve_below check_candidate canonicalize resolve cleaned
    replace_backslash split_slash components trim trim_start_by trim_end_by is_whitespace lookup
refuses_link = refl

-- A new folder with a new file.
makes_file :
    lookup
      (write_chunk disk root (codes "n/f") 1 (5 ∷ [])).0
      (codes "r" ∷ codes "n" ∷ codes "f" ∷ [])
    ≡ some (contents (0 ∷ 5 ∷ []))
unfolding write_chunk overwrite put open_file create_at create_dir_all object_at safe_resolve
    resolve_below check_candidate check_parent canonicalize resolve cleaned replace_backslash
    split_slash components trim trim_start_by trim_end_by is_whitespace lookup
makes_file = refl

makes_folder : (mkdir disk root (codes "n/m")).1 ≡ success true
unfolding mkdir put create_dir_all object_at safe_resolve resolve_below check_candidate check_parent
    canonicalize resolve cleaned replace_backslash split_slash components trim trim_start_by
    trim_end_by is_whitespace lookup
makes_folder = refl

write_then_read_example :
    (r : ReadChunkResult) × (read_chunk
        (write_chunk disk root (codes "f") 3 (1 ∷ 2 ∷ 3 ∷ [])).0
        3
        root
        (codes "f")
        3
        3
      ≡ success r)
    × (base64_decode r.data_base64 ≡ some (1 ∷ 2 ∷ 3 ∷ []))
write_then_read_example =
    write_then_read disk root (codes "f") f_path hello 3 (1 ∷ 2 ∷ 3 ∷ []) 3 here found
      (omega arith, (omega arith, (omega arith, tt))) (omega arith) (omega arith) (omega arith)

abbrev lower : Text → Text
lower name = name

abbrev no_time : PathBuf → Option Text
no_time p = none

abbrev writable : PathBuf → Bool
writable p = false

-- `d`, then `a` and `f`: the link counts as a file.
abbrev root_listing : ListDirResult
root_listing =
    let entries =
      sort_by (entry_le lower no_time writable) (read_dir lower no_time writable root [] disk) in
    record { relative_path = []; entries = entries; total_count = 3 }

names : List FsEntry → List Text
names [] = []
names (e ∷ entries) = e.name ∷ names entries

in_order : names root_listing.entries ≡ codes "d" ∷ codes "a" ∷ codes "f" ∷ []
unfolding names read_dir guess_mime_type
in_order = refl

lists : list_dir lower no_time writable disk root (codes "/") ≡ success root_listing
unfolding list_dir read_dir guess_mime_type object_at safe_resolve resolve_below check_candidate
    canonicalize resolve cleaned replace_backslash split_slash components trim trim_start_by
    trim_end_by is_whitespace lookup
lists = refl

sees_audio : guess_mime_type lower no_time writable (codes "a.b.mp3") ≡ codes "audio/mpeg"
unfolding guess_mime_type
sees_audio = refl
