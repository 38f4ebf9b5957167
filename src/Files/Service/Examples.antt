-- ===== src/Files/Service/Examples.antt =====
-- A user's folders `a` and `a/b`, with a file in the latter.
use mathlib.Core.List.{Memᴰ}
use pcos.Prelude.{
  pos, ℕ, ◌+◌, ◌≤◌, ◌≡◌, ◌≢◌, refl, arith, List, [], ◌∷◌, ◌++◌, Option, none, some, length,
  replicate, Text, codes,
}
use pcos.Common.Error.{database}
use pcos.Common.Result.{AppResult, ok, err}
use pcos.Common.Digest.{transcript, digest}
use pcos.Files.Storage.{
  Disk, Assembled, chunk_file, file_path, set_dir, set_blob, assemble_loop, assemble_chunks,
  store_file,
}
use pcos.Files.Resumable.{or_default}
use pcos.Files.Table.{
  Row, is_unique, is_keyed, commit, find_row, update_where, select, children, descendants,
}
use pcos.Files.Service.{
  Store, FileEntryResponse, BreadcrumbItem, to_response, root_item, new_folder, new_file,
  used_bytes, check_upload, verify_parent, verify_ownership, check_storage_quota, upload_file,
  complete_chunked_upload, download_file, build_breadcrumb, move_item,
}
use pcos.Files.Service.Trash.{
  into_trash, delete_item, restore_from_trash, permanent_delete, empty_trash, delete_blobs,
}
use pcos.Files.Service.Forest.{IsForest}
use pcos.Files.Service.Deletion.{Deletes, delete_item_lem}
use pcos.Files.Service.Breadcrumb.{Leads, reverse_onto, build_breadcrumb_lem}
use pcos.Files.Service.Cycle.{move_into_child_loops}
use pcos.Files.Service.Quota.{uploaded, upload_file_lem, complete_ignores_size}
use pcos.Files.Service.Twin.{second_trash_refused}
use pcos.Files.Service.Calls.{trashes, step}
use pcos.Files.Service.Owned.{IsOwned, rows_of}
use pcos.Files.Service.Queries.{step_lem}

abbrev show : ℕ → Text
show n = b'0' ∷ b'0' ∷ n ∷ []

abbrev folder_a : Row
folder_a = new_folder 7 none (codes "a") 1 10

abbrev folder_b : Row
folder_b = new_folder 7 (some 1) (codes "b") 2 10

abbrev file_c : Row
file_c = new_file 7 (some 2) (codes "c") (codes "text/plain") 5 [] (codes "p") 3 10

abbrev no_disk : Disk
no_disk = record { chunk_dirs = λ user upload. none; blobs = λ path. none }

abbrev ten_bytes : ℕ → Option ℕ
ten_bytes user = some 10

abbrev store : Store
store = record { rows = folder_a ∷ folder_b ∷ file_c ∷ []; quotas = ten_bytes; disk = no_disk }

abbrev depth : ℕ → ℕ
depth id = id

is_forest : IsForest depth 4 store.rows
is_forest = ((tt, omega arith), ((omega arith, omega arith), ((omega arith, omega arith), tt)))

delete_item_lem_example :
    (result : AppResult (Unit {0}) × Store) × (delete_item 4 7 2 20 store ≡ some result)
    × Deletes 7 2 20 store result
delete_item_lem_example = delete_item_lem 4 7 2 20 store depth 4 is_forest (omega arith)

finds_b : find_row 7 2 store.rows ≡ some folder_b
unfolding find_row
finds_b = refl

finds_a : find_row 7 1 store.rows ≡ some folder_a
unfolding find_row
finds_a = refl

build_breadcrumb_lem_example :
    (items : List BreadcrumbItem) × (build_breadcrumb 4 7 (some 2) store.rows
      ≡ some (root_item ∷ reverse_onto items []))
    × Leads 7 store.rows (some 2) items
build_breadcrumb_lem_example =
    build_breadcrumb_lem 7 depth 4 store.rows is_forest 4 2 folder_b finds_b (omega arith)

one_not_two : ◌≢◌ {A = ℕ} 1 2
one_not_two h = omega (arith, h)

move_into_child_loops_example :
    (r : FileEntryResponse) × (after : Store) × (move_item 7 1 (some 2) 20 store ≡ (ok r, after))
    × ((rounds : ℕ) → build_breadcrumb rounds 7 (some 1) after.rows ≡ none)
    × ((rounds later : ℕ) → delete_item rounds 7 1 later after ≡ none)
unfolding commit is_keyed is_unique update_where
move_into_child_loops_example =
    move_into_child_loops 7 1 2 20 store folder_a folder_b finds_a finds_b one_not_two refl refl
      refl

-- The table after an upload of four bytes.
abbrev bytes : List ℕ
bytes = 1 ∷ 2 ∷ 3 ∷ 4 ∷ []

abbrev file_d : Row
file_d = uploaded transcript show 7 (some 1) (codes "d") (codes "image/png") bytes 4 20 store

abbrev after_upload : Store
after_upload = record store {
  rows = store.rows ++ file_d ∷ [];
  disk = (store_file transcript show 7 4 bytes no_disk).1;
}

uploads :
    upload_file transcript show 7 (some 1) (codes "d") (codes "image/png") bytes 4 20 store
    ≡ (ok (to_response file_d), after_upload)
unfolding upload_file verify_parent verify_ownership find_row check_storage_quota used_bytes commit
    is_keyed is_unique store_file
uploads = refl

is_new : find_row 7 4 store.rows ≡ none
unfolding find_row
is_new = refl

uses_five : used_bytes 7 store.rows ≡ 5
unfolding used_bytes
uses_five = refl

upload_file_lem_example :
    (used_bytes 7 after_upload.rows ≡ used_bytes 7 store.rows + length bytes)
    × (used_bytes 7 after_upload.rows ≤ or_default (ten_bytes 7))
    × ((r : Row) × (download_file 7 4 after_upload ≡ ok (r, bytes))
        × (to_response r ≡ to_response file_d))
upload_file_lem_example =
    upload_file_lem transcript show 7 (some 1) (codes "d") (codes "image/png") bytes 4 20 store
      after_upload (to_response file_d) uploads is_new (omega (arith, uses_five))

-- Two chunks of 20 bytes together, with a request that states none.
abbrev twenty : List ℕ
twenty = replicate 20 1

abbrev chunks : Disk
chunks = record {
  chunk_dirs = λ user upload. some ((0, twenty) ∷ (1, []) ∷ []);
  blobs = λ path. none;
}

abbrev with_chunks : Store
with_chunks = record store { disk = chunks }

abbrev guess : Text → Text
guess name = codes "text/plain"

abbrev all_of_it : Assembled
all_of_it = record { path = file_path show 7 4; hash = digest transcript twenty; size = 20 }

abbrev disk_after : Disk
disk_after = set_dir 7 9 none (set_blob (file_path show 7 4) twenty chunks)

assembles : assemble_chunks transcript show 7 9 4 (pos 2) chunks ≡ (some all_of_it, disk_after)
unfolding assemble_chunks assemble_loop chunk_file digest
assembles = refl

passes : check_upload 7 (some 2) 0 with_chunks ≡ ok tt
unfolding verify_parent verify_ownership find_row check_storage_quota used_bytes
passes = refl

-- The bytes in use are then 25, and the quota is 10.
complete_ignores_size_example :
    (answer : FileEntryResponse) × (after : Store) × (complete_chunked_upload transcript show guess
        7
        (some 2)
        (codes "e")
        9
        0
        (pos 2)
        4
        20
        with_chunks
      ≡ (ok answer, after))
    × (used_bytes 7 after.rows ≡ used_bytes 7 with_chunks.rows + 20)
unfolding commit is_keyed is_unique
complete_ignores_size_example =
    complete_ignores_size transcript show 7 (some 2) (codes "e") guess 9 0 (pos 2) 4 20 with_chunks
      all_of_it disk_after passes assembles refl

-- A file `c` in the trash and a new one in the same folder.
abbrev old_c : Row
old_c = into_trash 15 file_c

abbrev new_c : Row
new_c = new_file 7 (some 2) (codes "c") (codes "text/plain") 1 [] (codes "q") 5 16

abbrev two_c : Store
two_c = record store { rows = folder_a ∷ folder_b ∷ old_c ∷ new_c ∷ [] }

finds_new : find_row 7 5 two_c.rows ≡ some new_c
unfolding find_row
finds_new = refl

five_not_three : ◌≢◌ {A = ℕ} 5 3
five_not_three h = omega (arith, h)

query_ends_there : descendants 2 two_c.rows (5 ∷ []) ≡ some (5 ∷ [])
unfolding descendants children select
query_ends_there = refl

second_trash_refused_example :
    delete_item 2 7 5 20 two_c ≡ some (err (database "constraint"), two_c)
second_trash_refused_example =
    second_trash_refused 2 7 5 20 two_c new_c old_c (5 ∷ []) finds_new
      (Memᴰ.tail (Memᴰ.tail (Memᴰ.head refl))) five_not_three refl refl refl refl query_ends_there

-- To the trash and back; deleting for good takes the rows below along.
restores : (s : Store) × (restore_from_trash 4 7 3 21 two_c ≡ some (err (database "constraint"), s))
unfolding restore_from_trash verify_ownership find_row descendants children select update_where
    commit is_keyed is_unique
restores = (two_c, refl)

trashed_a : (s : Store) × (delete_item 4 7 1 20 store ≡ some (ok tt, s))
unfolding delete_item verify_ownership find_row descendants children select update_where commit
    is_keyed is_unique
trashed_a = (
  record store {
    rows = into_trash 20 folder_a ∷ into_trash 20 folder_b ∷ into_trash 20 file_c ∷ [];
  },
  refl,
)

purges :
    permanent_delete 4 7 1 (record store {
      rows = into_trash 20 folder_a ∷ into_trash 20 folder_b ∷ into_trash 20 file_c ∷ [];
    })
    ≡ some (
      ok tt,
      record store { rows = []; disk = delete_blobs (folder_a ∷ folder_b ∷ file_c ∷ []) no_disk },
    )
unfolding permanent_delete verify_ownership find_row descendants children select delete_blobs
purges = refl

empties : (n : ℕ) × (s : Store) × (empty_trash 4 7 two_c ≡ some (ok n, s)) × (n ≡ 1)
unfolding empty_trash descendants children select delete_blobs
empties = (
  1,
  record two_c {
    rows = folder_a ∷ folder_b ∷ new_c ∷ [];
    disk = delete_blobs (old_c ∷ []) no_disk;
  },
  refl,
  refl,
)

is_owned : IsOwned store.rows
unfolding is_keyed
is_owned = (
  refl,
  (
    tt,
    (
      (folder_a, Memᴰ.head refl, refl, refl),
      ((folder_b, Memᴰ.tail (Memᴰ.head refl), refl, refl), tt),
    ),
  ),
)

seven_not_eight : ◌≢◌ {A = ℕ} 7 8
seven_not_eight h = omega (arith, h)

abbrev in_trash_now : Store
in_trash_now = record store {
  rows = into_trash 20 folder_a ∷ into_trash 20 folder_b ∷ into_trash 20 file_c ∷ [];
}

trashes_all : step transcript show guess 4 7 20 (trashes 1) store ≡ some in_trash_now
unfolding step delete_item verify_ownership find_row descendants children select update_where commit
    is_keyed is_unique
trashes_all = refl

step_lem_example : IsOwned in_trash_now.rows × (rows_of 8 in_trash_now.rows ≡ rows_of 8 store.rows)
step_lem_example =
    step_lem transcript show guess 4 7 8 20 (trashes 1) store in_trash_now seven_not_eight is_owned
      trashes_all
