-- ===== src/Agent/Jail/Disk.antt =====
-- What the operations of agent/src/fs_handler.rs see of a disk: the objects of a file system by path, with
-- the bytes of the files. `/` is a folder. Full disks, permissions and broken hardware are not modelled.
use pcos.Prelude.{
  ℕ, zero, suc, ◌-◌, ◌+◌, List, [], ◌∷◌, ◌++◌, Option, none, some, Bool, true, false, not,
  if◌then◌else◌, length, take, drop, replicate, any, text_eq,
}
use pcos.Agent.Jail.{PathBuf, Node, file, folder, link, Fs, canonicalize, is_within, parent}

pub data Object : Type 0 where
  contents : List ℕ → Object
  directory : Object
  symlink : PathBuf → Object

abbrev pub Disk : Type 0
Disk = List (PathBuf × Object)

abbrev pub path_eq : PathBuf → PathBuf → Bool
path_eq [] [] = true
path_eq [] (d ∷ q) = false
path_eq (c ∷ p) [] = false
path_eq (c ∷ p) (d ∷ q) = if text_eq c d then path_eq p q else false

unfoldable pub lookup : Disk → PathBuf → Option Object
lookup [] p = none
lookup ((q, o) ∷ disk) p = if path_eq q p then some o else lookup disk p

abbrev pub node_of : Option Object → Option Node
node_of none = none
node_of (some (contents bytes)) = some file
node_of (some directory) = some folder
node_of (some (symlink target)) = some (link target)

abbrev pub nodes : Disk → Fs
nodes disk p = node_of (lookup disk p)

unfoldable pub put : Disk → PathBuf → Object → Disk
put [] p o = (p, o) ∷ []
put ((q, x) ∷ disk) p o = if path_eq q p then (q, o) ∷ disk else (q, x) ∷ put disk p o

-- What stands at a path, links followed.
unfoldable pub object_at : Disk → PathBuf → Option Object
object_at disk path = elim (canonicalize (nodes disk) path) [
  | none ↦ none
  | some [] ↦ some directory
  | some (c ∷ p) ↦ lookup disk (c ∷ p)
]

abbrev pub is_dir : Disk → PathBuf → Bool
is_dir disk path = elim (object_at disk path) [ some directory ↦ true | _ ↦ false ]

-- `create_dir_all`: what it has made stands also where it fails.
unfoldable pub create_dir_all : Disk → PathBuf → PathBuf → Disk × Option PathBuf
create_dir_all disk done [] = (disk, some done)
create_dir_all disk done (c ∷ rest) = elim (lookup disk (done ++ c ∷ [])) [
  | none ↦ create_dir_all (put disk (done ++ c ∷ []) directory) (done ++ c ∷ []) rest
  | some o ↦ elim (canonicalize (nodes disk) (done ++ c ∷ [])) [
    | none ↦ (disk, none)
    | some p ↦ elim (is_dir disk p) [ true ↦ create_dir_all disk p rest | false ↦ (disk, none) ]
  ]
]

abbrev pub file_name : PathBuf → PathBuf
file_name [] = []
file_name (c ∷ []) = c ∷ []
file_name (c ∷ d ∷ path) = file_name (d ∷ path)

-- Where `open` makes a file that is missing: a link that leads nowhere is followed.
unfoldable pub create_at : Disk → ℕ → PathBuf → Option PathBuf
create_at disk zero path = none
create_at disk (suc links) path = elim (canonicalize (nodes disk) (parent path)) [
  | none ↦ none
  | some q ↦ elim (is_dir disk q) [
    | false ↦ none
    | true ↦ elim (lookup disk (q ++ file_name path)) [
      | none ↦ some (q ++ file_name path)
      | some (symlink target) ↦ create_at disk links target
      | some (contents bytes) ↦ none
      | some directory ↦ none
    ]
  ]
]

-- `OpenOptions::new().write(true).create(true).open(path)`: where the file is, and what it holds.
unfoldable pub open_file : Disk → PathBuf → Option (PathBuf × List ℕ)
open_file disk path = elim (canonicalize (nodes disk) path) [
  | none ↦ elim (create_at disk 40 path) [ none ↦ none | some p ↦ some (p, []) ]
  | some p ↦ elim (object_at disk p) [ some (contents bytes) ↦ some (p, bytes) | _ ↦ none ]
]

-- A write past the end fills the gap with zeros; a write of nothing changes nothing.
unfoldable pub overwrite : List ℕ → ℕ → List ℕ → List ℕ
overwrite old offset [] = old
overwrite old offset (b ∷ bytes) =
    take offset old
    ++ replicate (offset - length old) 0
    ++ (b ∷ bytes)
    ++ drop (offset + suc (length bytes)) old

-- `remove_file` and `remove_dir`, and `remove_dir_all`.
unfoldable pub remove_at : PathBuf → Disk → Disk
remove_at p [] = []
remove_at p ((q, o) ∷ disk) = if path_eq p q then remove_at p disk else (q, o) ∷ remove_at p disk

unfoldable pub remove_below : PathBuf → Disk → Disk
remove_below p [] = []
remove_below p ((q, o) ∷ disk) =
    if is_within p q then remove_below p disk else (q, o) ∷ remove_below p disk

abbrev pub is_empty_dir : Disk → PathBuf → Bool
is_empty_dir disk p = not (any (λ entry. path_eq (parent entry.0) p) disk)
