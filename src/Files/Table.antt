-- ===== src/Files/Table.antt =====
-- The table `file_entries` of backend/migrations/20240101000005_file_entries.sql, as the queries of
-- backend/crates/file_metadata/src/service.rs read and change it. A row that is written has to fit its
-- columns, the primary key and the constraint `uq_file_entries_parent_name`; a statement that does not fails and
-- changes nothing. Other failures of the database are not modelled. Times are numbers.
use pcos.Prelude.{
  ℕ, zero, suc, List, [], ◌∷◌, ◌++◌, Option, none, some, Bool, true, false, not, ◌&&◌, leb, ◌==◌,
  if◌then◌else◌, any, all, length, Text, text_eq,
}
use pcos.Common.Error.{database}
use pcos.Common.Result.{AppResult, ok, err}

pub data EntryType : Type 0 where
  folder file : EntryType

pub record Row : Type 0 where
  pub id : ℕ
  pub user_id : ℕ
  pub parent_id : Option ℕ
  pub name : Text
  pub entry_type : EntryType
  pub mime_type : Option Text
  pub size_bytes : ℕ
  pub sha256_hash : Option Text
  pub storage_path : Option Text
  pub is_trashed : Bool
  pub trashed_at : Option ℕ
  pub created_at : ℕ
  pub updated_at : ℕ

-- `IS NOT DISTINCT FROM`.
abbrev pub same_parent : Option ℕ → Option ℕ → Bool
same_parent none none = true
same_parent none (some q) = false
same_parent (some p) none = false
same_parent (some p) (some q) = p == q

abbrev pub same_flag : Bool → Bool → Bool
same_flag true b = b
same_flag false b = not b

-- `UNIQUE NULLS NOT DISTINCT (user_id, parent_id, name, is_trashed)`.
abbrev pub same_slot : Row → Row → Bool
same_slot a b =
    (a.user_id == b.user_id)
    && same_parent a.parent_id b.parent_id
    && text_eq a.name b.name
    && same_flag a.is_trashed b.is_trashed

unfoldable pub is_unique : List Row → Bool
is_unique [] = true
is_unique (r ∷ rows) = not (any (same_slot r) rows) && is_unique rows

abbrev pub fits_column : Option Text → Bool
fits_column none = true
fits_column (some text) = leb (length text) 255

abbrev pub fits : Row → Bool
fits r = leb (length r.name) 255 && fits_column r.mime_type

-- `id UUID PRIMARY KEY`.
unfoldable pub is_keyed : List Row → Bool
is_keyed [] = true
is_keyed (r ∷ rows) = not (any (λ (x : Row). x.id == r.id) rows) && is_keyed rows

-- What a statement leaves of the table.
unfoldable pub commit : List Row → AppResult (List Row)
commit rows =
    if is_unique rows && is_keyed rows && all fits rows
    then ok rows
    else err (database "constraint")

-- `WHERE id = $1 AND user_id = $2`.
unfoldable pub find_row : ℕ → ℕ → List Row → Option Row
find_row user item [] = none
find_row user item (r ∷ rows) =
    if (r.id == item) && (r.user_id == user) then some r else find_row user item rows

abbrev pub is_item : ℕ → Row → Bool
is_item item r = r.id == item

abbrev pub has_id : ℕ → List ℕ → Bool
has_id item ids = any (λ i. i == item) ids

-- `UPDATE … WHERE …`.
unfoldable pub update_where : (Row → Bool) → (Row → Row) → List Row → List Row
update_where test f [] = []
update_where test f (r ∷ rows) = (if test r then f r else r) ∷ update_where test f rows

unfoldable pub select : (Row → Bool) → List Row → List Row
select test [] = []
select test (r ∷ rows) = if test r then r ∷ select test rows else select test rows

abbrev pub is_child_of : ℕ → Row → Bool
is_child_of parent r = elim (r.parent_id) [ none ↦ false | some p ↦ p == parent ]

abbrev pub ids_of : List Row → List ℕ
ids_of [] = []
ids_of (r ∷ rows) = r.id ∷ ids_of rows

-- The step of the recursive query: the rows whose parent is one of the rows found last.
unfoldable pub children : List Row → List ℕ → List ℕ
children rows [] = []
children rows (d ∷ found) = ids_of (select (is_child_of d) rows) ++ children rows found

abbrev pub joined : List ℕ → Option (List ℕ) → Option (List ℕ)
joined found none = none
joined found (some rest) = some (found ++ rest)

-- `WITH RECURSIVE descendants … UNION ALL …` from the rows found first; `none` where so many rounds do not
-- end it.
unfoldable pub descendants : ℕ → List Row → List ℕ → Option (List ℕ)
descendants rounds rows [] = some []
descendants zero rows (d ∷ found) = none
descendants (suc rounds) rows (d ∷ found) =
    joined (d ∷ found) (descendants rounds rows (children rows (d ∷ found)))
