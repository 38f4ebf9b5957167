-- ===== src/Agent/Queue/Sort.antt =====
-- Queued transfers, and `items.sort_by(|a, b| b.priority.cmp(&a.priority))`: the stable sort of the
-- standard library with the highest priority first, here by insertion.
use pcos.Prelude.{ℕ, List, [], ◌∷◌, Option, Text, leb, if◌then◌else◌}

pub record QueuedTransfer : Type 0 where
  pub id : Text
  pub local_path : Text
  pub relative_path : Text
  pub storage_node_id : Option Text
  pub op : Text
  pub size_bytes : ℕ
  pub sha256 : Option Text
  pub priority : ℕ
  pub attempts : ℕ
  pub created_at : Text

-- Before the first item that does not have a higher priority.
unfoldable pub insert_by_priority : QueuedTransfer → List QueuedTransfer → List QueuedTransfer
insert_by_priority t [] = t ∷ []
insert_by_priority t (u ∷ us) =
    if leb u.priority t.priority then t ∷ u ∷ us else u ∷ insert_by_priority t us

unfoldable pub sort_by_priority : List QueuedTransfer → List QueuedTransfer
unfolding insert_by_priority
sort_by_priority [] = []
sort_by_priority (t ∷ ts) = insert_by_priority t (sort_by_priority ts)
