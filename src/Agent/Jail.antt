-- ===== src/Agent/Jail.antt =====
-- The jail of the agent's file operations: `FsHandler::safe_resolve` of agent/src/fs_handler.rs. A path is the
-- list of its components from the root of the file system, as `Path` compares them: empty components and `.`
-- fall away. A file system says what stands at a path whose parents are folders; a link has its
-- target from the root, with `..` resolved. `canonicalize` gives up after 40 links, as Linux does. Of the
-- errors the text is not modelled.
pub mod Canonical
pub mod Escape
pub mod Disk
pub mod Operations
pub mod Chunks
pub mod Download
pub mod Removal
pub mod Overwrite
pub mod WriteRead
pub mod Listing
pub mod Sorted
mod Examples
mod DiskExamples
use pcos.Prelude.{
  ℕ, zero, suc, ◌+◌, List, [], ◌∷◌, ◌++◌, Option, none, some, Bool, true, false, not, ◌&&◌, ◌||◌,
  leb, ◌==◌, if◌then◌else◌, any, Text, codes, text_eq, is_empty, trim, trim_start_by,
}

abbrev pub PathBuf : Type 0
PathBuf = List Text

pub data Node : Type 0 where
  file folder : Node
  link : PathBuf → Node

abbrev pub Fs : Type 0
Fs = PathBuf → Option Node

-- `done` is walked, `rest` is still to go, and so many links may be followed.
unfoldable pub resolve : Fs → ℕ → PathBuf → PathBuf → Option PathBuf
resolve fs links done [] = some done
resolve fs zero done (c ∷ rest) = elim (fs (done ++ c ∷ [])) [
  | none ↦ none
  | some file ↦ elim rest [ [] ↦ some (done ++ c ∷ []) | _ ∷ _ ↦ none ]
  | some folder ↦ resolve fs zero (done ++ c ∷ []) rest
  | some (link target) ↦ none
]
resolve fs (suc links) done (c ∷ rest) = elim (fs (done ++ c ∷ [])) [
  | none ↦ none
  | some file ↦ elim rest [ [] ↦ some (done ++ c ∷ []) | _ ∷ _ ↦ none ]
  | some folder ↦ resolve fs (suc links) (done ++ c ∷ []) rest
  | some (link target) ↦ resolve fs links [] (target ++ rest)
]

unfoldable pub canonicalize : Fs → PathBuf → Option PathBuf
canonicalize fs path = resolve fs 40 [] path

-- `starts_with` of paths.
abbrev pub is_within : PathBuf → PathBuf → Bool
is_within [] path = true
is_within (r ∷ root) [] = false
is_within (r ∷ root) (c ∷ path) = if text_eq r c then is_within root path else false

abbrev pub parent : PathBuf → PathBuf
parent [] = []
parent (c ∷ []) = []
parent (c ∷ d ∷ path) = c ∷ parent (d ∷ path)

-- `components()` of a relative path: split at `/`.
abbrev add_to_first : ℕ → PathBuf → PathBuf
add_to_first c [] = (c ∷ []) ∷ []
add_to_first c (w ∷ ws) = (c ∷ w) ∷ ws

unfoldable pub split_slash : Text → PathBuf
split_slash [] = [] ∷ []
split_slash (c ∷ t) = if c == b'/' then [] ∷ split_slash t else add_to_first c (split_slash t)

unfoldable pub components : PathBuf → PathBuf
components [] = []
components (w ∷ ws) =
    if is_empty w || text_eq w (codes ".") then components ws else w ∷ components ws

-- `\` becomes `/`.
unfoldable pub replace_backslash : Text → Text
replace_backslash [] = []
replace_backslash (c ∷ t) = (if c == 92 then b'/' else c) ∷ replace_backslash t

unfoldable pub cleaned : Text → Text
cleaned rel_path = trim_start_by (λ c. c == b'/') (trim (replace_backslash rel_path))

abbrev pub is_letter : ℕ → Bool
is_letter c = (leb b'A' c && leb c b'Z') || (leb b'a' c && leb c b'z')

abbrev pub has_drive : Text → Bool
has_drive [] = false
has_drive (c ∷ []) = false
has_drive (c ∷ d ∷ t) = (d == b':') && is_letter c

abbrev pub is_parent_dir : Text → Bool
is_parent_dir w = text_eq w (codes "..")

pub data FsError : Type 0 where
  path_traversal invalid_root not_found permission_denied io : FsError

pub data Resolved : Type 0 where
  resolved : PathBuf → Resolved
  refused : FsError → Resolved

-- Where the candidate does not exist its parent is looked at, if that exists.
unfoldable pub check_parent : PathBuf → PathBuf → Option PathBuf → Resolved
check_parent root candidate none = resolved candidate
check_parent root candidate (some p) =
    if is_within root p then resolved candidate else refused path_traversal

unfoldable pub check_candidate : Fs → PathBuf → PathBuf → Resolved
check_candidate fs root candidate = elim (canonicalize fs candidate) [
  | some p ↦ if is_within root p then resolved p else refused path_traversal
  | none ↦ check_parent root candidate (canonicalize fs (parent candidate))
]

unfoldable pub resolve_below : Fs → PathBuf → Text → Resolved
resolve_below fs root rel_path =
    if has_drive (cleaned rel_path)
    then refused path_traversal
    else if any is_parent_dir (components (split_slash (cleaned rel_path)))
    then refused path_traversal
    else check_candidate fs root (root ++ components (split_slash (cleaned rel_path)))

unfoldable pub safe_resolve : Fs → PathBuf → Text → Resolved
safe_resolve fs root rel_path = elim (canonicalize fs root) [
  | none ↦ refused invalid_root
  | some canonical_root ↦ resolve_below fs canonical_root rel_path
]
