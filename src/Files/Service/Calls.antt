-- ===== src/Files/Service/Calls.antt =====
-- The calls that change the store of backend/crates/file_metadata/src/service.rs, one after the other.
use pcos.Prelude.{ℤ, ℕ, List, Option, none, some, Text}
use pcos.Common.Result.{AppResult}
use pcos.Common.Digest.{Hasher}
use pcos.Files.Service.{
  Store, create_folder, upload_file, complete_chunked_upload, rename_item, move_item,
}
use pcos.Files.Service.Trash.{delete_item, restore_from_trash, permanent_delete, empty_trash}

pub data Call : Type 0 where
  creates : (parent : Option ℕ) (name : Text) (new_id : ℕ) → Call
  uploads : (parent : Option ℕ) (name mime : Text) (bytes : List ℕ) (new_id : ℕ) → Call
  completes :
      (parent : Option ℕ) (name : Text) (upload total_size : ℕ) (total_chunks : ℤ) (new_id : ℕ)
      → Call
  renames : (item : ℕ) (name : Text) → Call
  moves : (item : ℕ) (target : Option ℕ) → Call
  trashes restores deletes : (item : ℕ) → Call
  empties : Call

abbrev pub after_query {ℓ} : {A : Type ℓ} → Option (AppResult A × Store) → Option Store
after_query none = none
after_query (some (answer, s)) = some s

module _ (H : Hasher) (show : ℕ → Text) (guess : Text → Text) (rounds : ℕ) where
  -- The store after a call of a user; `none` where the rounds allowed do not end it.
  unfoldable pub step : ℕ → ℕ → Call → Store → Option Store
  step user now (creates parent name new_id) s =
      some (create_folder user parent name new_id now s).1
  step user now (uploads parent name mime bytes new_id) s =
      some (upload_file H show user parent name mime bytes new_id now s).1
  step user now (completes parent name upload total_size total_chunks new_id) s =
      some
        (complete_chunked_upload H show guess user parent name upload total_size total_chunks new_id
          now s).1
  step user now (renames item name) s = some (rename_item user item name now s).1
  step user now (moves item target) s = some (move_item user item target now s).1
  step user now (trashes item) s = after_query (delete_item rounds user item now s)
  step user now (restores item) s = after_query (restore_from_trash rounds user item now s)
  step user now (deletes item) s = after_query (permanent_delete rounds user item s)
  step user now empties s = after_query (empty_trash rounds user s)
