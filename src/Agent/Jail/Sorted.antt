-- ===== src/Agent/Jail/Sorted.antt =====
-- The order of a listing: the sort of `FsHandler::list_dir` of agent/src/fs_handler.rs.
use mathlib.Core.List.{Perm}
use mathlib.Core.Path.{subst}
use pcos.Prelude.{
  ◌≡◌, ◌⊎◌, inl, inr, refl, arith, List, Option, none, some, Bool, true, length, Text,
}
use pcos.Prelude.Sorting.{sort_by, IsSorted, sort-Perm, sort-IsSorted, text_le_total}
use pcos.Agent.Jail.{PathBuf, Resolved, resolved, refused, cleaned, safe_resolve}
use pcos.Agent.Jail.Disk.{Object, contents, directory, symlink, Disk, nodes, object_at}
use pcos.Agent.Jail.Operations.{success, at_path}
use pcos.Agent.Jail.Listing.{
  EntryType, a_folder, a_file, FsEntry, ListDirResult, entry_le, read_dir, list_object, list_dir,
}

success_injective : {a b : ListDirResult} → success a ≡ success b → a ≡ b
success_injective h = cc

EntryType-cases : (t : EntryType) → (t ≡ a_folder) ⊎ (t ≡ a_file)
EntryType-cases a_folder = inl refl
EntryType-cases a_file = inr refl

module _ (to_lowercase : Text → Text) (modified : PathBuf → Option Text)
    (readonly : PathBuf → Bool) where
  entry_le_total :
      (a b : FsEntry)
      → (entry_le to_lowercase modified readonly a b ≡ true)
        ⊎ (entry_le to_lowercase modified readonly b a ≡ true)
  entry_le_total a b = elim (EntryType-cases a.entry_type) [
    | inl e ↦ elim (EntryType-cases b.entry_type) [
      | inl f ↦ rw (e, f) (text_le_total (to_lowercase a.name) (to_lowercase b.name))
      | inr f ↦ rw (e, f) (inl refl)
    ]
    | inr e ↦ elim (EntryType-cases b.entry_type) [
      | inl f ↦ rw (e, f) (inr refl)
      | inr f ↦ rw (e, f) (text_le_total (to_lowercase a.name) (to_lowercase b.name))
    ]
  ]

  abbrev le : FsEntry → FsEntry → Bool
  le = entry_le to_lowercase modified readonly

  -- The listing of a folder: every entry of it once, folders first and then by name.
  abbrev pub IsListing : Disk → PathBuf → Text → ListDirResult → Type 0
  IsListing disk p clean_rel r =
      Perm r.entries (read_dir to_lowercase modified readonly p clean_rel disk)
      × IsSorted le r.entries
      × (r.total_count ≡ length r.entries)

  entries_ordered :
      (entries : List FsEntry)
      → Perm (sort_by le entries) entries × IsSorted le (sort_by le entries)
  entries_ordered entries = (sort-Perm le entries, sort-IsSorted le entry_le_total entries)

  list_object_lem :
      (disk : Disk) (p : PathBuf) (clean_rel : Text) (o : Option Object) (r : ListDirResult)
      → list_object to_lowercase modified readonly disk p clean_rel o ≡ success r
      → (o ≡ some directory) × IsListing disk p clean_rel r
  list_object_lem disk p clean_rel none r h = absurd (ground arith)
  list_object_lem disk p clean_rel (some (contents bytes)) r h = absurd (ground arith)
  list_object_lem disk p clean_rel (some (symlink t)) r h = absurd (ground arith)
  list_object_lem disk p clean_rel (some directory) r h =
      let entries = read_dir to_lowercase modified readonly p clean_rel disk in
      let (perm, ordered) = entries_ordered entries in
      (refl, subst (IsListing disk p clean_rel) (success_injective h) (perm, ordered, refl))

  list_resolved :
      (disk : Disk) (clean_rel : Text) (s : Resolved) (r : ListDirResult)
      → at_path s
          (λ p. list_object to_lowercase modified readonly disk p clean_rel (object_at disk p))
        ≡ success r
      → (p : PathBuf) × (s ≡ resolved p)
        × (object_at disk p ≡ some directory)
        × IsListing disk p clean_rel r
  list_resolved disk clean_rel (refused e) r h = absurd (ground arith)
  list_resolved disk clean_rel (resolved p) r h =
      let (o, listing) = list_object_lem disk p clean_rel (object_at disk p) r h in
      (p, refl, o, listing)

  -- Listing a folder. What `list_dir` answers is the listing of the folder that the path resolves to: its
  -- entries in some order, each as often as the folder has it, folders before files and each kind by its
  -- name in lower case, and their number.
  pub list_dir_lem :
      (disk : Disk) (root : PathBuf) (rel_path : Text) (r : ListDirResult)
      → list_dir to_lowercase modified readonly disk root rel_path ≡ success r
      → (p : PathBuf) × (safe_resolve (nodes disk) root rel_path ≡ resolved p)
        × (object_at disk p ≡ some directory)
        × IsListing disk p (cleaned rel_path) r
  unfolding list_dir
  list_dir_lem disk root rel_path r h =
      list_resolved disk (cleaned rel_path) (safe_resolve (nodes disk) root rel_path) r h
