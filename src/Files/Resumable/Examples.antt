-- ===== src/Files/Resumable/Examples.antt =====
-- The theorems of resumable transfers at a concrete server.
use pcos.Prelude.{
  ℕ, ◌+◌, ◌^◌, ◌≤◌, ◌≡◌, ◌⊎◌, ◌↔◌, refl, List, [], ◌∷◌, ◌++◌, Option, none, some, true, false, ltb,
  Text, codes, is_empty, trim, trim_start_by, trim_end_by, is_whitespace, is_negative, pos, ◌==◌,
  ◌&&◌, if◌then◌else◌,
}
use pcos.Common.Error.{database}
use pcos.Common.Result.{ok, err}
use pcos.Files.Resumable.{
  Server, InitRequest, or_default, used_bytes, check_init, check_storage_quota, init_transfer,
  accepts_entry, insert_columns, migrated_columns, new_entry,
}
use pcos.Files.Resumable.Retry.{init_transfer_lem}

abbrev show : ℕ → Text
show n = n ∷ n ∷ []

abbrev parse_uuid : Text → Option ℕ
parse_uuid [] = none
parse_uuid (c ∷ t) = some c

abbrev decode : Text → Option (List ℕ)
decode t = some t

abbrev request : InitRequest
request = record {
  name = codes "a";
  size_bytes = pos 3;
  sha256_hash = none;
  parent_id = none;
  mime_type = none;
}

abbrev no_files : Server
no_files = record {
  columns = insert_columns;
  entries = [];
  quotas = λ u. none;
  disk = record { chunk_dirs = λ u v. none; blobs = λ p. none };
}

abbrev texts : List Text
texts = codes "ab" ∷ codes "c" ∷ []

init_transfer_lem_example :
    let used = used_bytes 1 no_files.entries in
    let counted = if ltb used (2 ^ 63) then used else 0 in
    (((init_transfer 1 request 55 no_files).0 ≡ ok 55) ↔ (
      (is_empty (trim (codes "a")) ≡ false)
      × (is_negative (pos 3) ≡ false)
      × ((counted + 3 ≤ or_default none) ⊎ (2 ^ 63 ≤ counted + 3))
      × (accepts_entry (new_entry 1 request 55) no_files ≡ true)))
    × (((init_transfer 1 request 55 no_files).1 ≡ no_files)
        ⊎ (((init_transfer 1 request 55 no_files).0 ≡ ok 55)
            × ((init_transfer 1 request 55 no_files).1
                ≡ record no_files { entries = [] ++ new_entry 1 request 55 ∷ [] })))
    × (accepts_entry (new_entry 1 request 55) (record no_files { columns = migrated_columns })
        ≡ false)
init_transfer_lem_example = init_transfer_lem 1 55 request no_files

-- The table of the migrations has no `is_favorite`: the request is answered with an error.
not_migrated :
    init_transfer 1 request 55 (record no_files { columns = migrated_columns })
    ≡ (err (database "constraint"), record no_files { columns = migrated_columns })
unfolding init_transfer check_init check_storage_quota used_bytes trim is_whitespace trim_start_by
    trim_end_by
not_migrated = refl

-- A transfer of which only the second chunk has come.
abbrev second_only : Server
second_only = record {
  columns = insert_columns;
  entries = new_entry 1 request 55 ∷ [];
  quotas = λ u. none;
  disk = record {
    chunk_dirs = λ u v. if u == 1 && v == 55 then some ((1, 8 ∷ []) ∷ []) else none;
    blobs = λ p. none;
  };
}

abbrev one_open : Server
one_open = record no_files { entries = new_entry 1 request 55 ∷ [] }
