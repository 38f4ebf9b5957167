-- ===== src/Files/Placement/Examples.antt =====
-- A placement among two nodes, and policies of two users.
use pcos.Prelude.{
  ℕ, ◌≡◌, refl, List, [], ◌∷◌, Option, none, some, true, ℤ, pos, Text, codes, map, length, drop,
  trim, trim_start_by, trim_end_by, is_whitespace,
}
use pcos.Common.Error.{validation}
use pcos.Common.Result.{err}
use pcos.Files.Placement.Policies.{
  StoragePolicyRecord, CreatePolicyRequest, create_policy, list_policies, delete_policy,
}
use pcos.Files.Placement.{backups, StorageNode, evaluate_placement}

abbrev to_lowercase : Text → Text
to_lowercase t = t

abbrev node : Text → ℕ → StorageNode
node id free = record { id = id; user_id = 1; name = id; is_online = true; free_bytes = free }

abbrev nodes : List StorageNode
nodes = node (codes "a") 5 ∷ node (codes "b") 9 ∷ []

archive_is_backup : (evaluate_placement to_lowercase (codes "x.tar") none).category ≡ backups
unfolding evaluate_placement
archive_is_backup = refl

abbrev wish : Text → Option ℤ → CreatePolicyRequest
wish category priority = record {
  category = category;
  name = none;
  mime_patterns = codes "image/*";
  target_storage_type = none;
  target_node_id = none;
  replica_count = none;
  availability_tier = none;
  priority = priority;
}

abbrev policies : List StoragePolicyRecord
policies =
    (create_policy (codes "b") 7 (wish (codes "raw") (some (pos 20)))
      (create_policy (codes "a") 7 (wish (codes "photos") none) []).1).1

-- After the five defaults the policy of the higher priority comes first.
higher_first :
    map (λ (p : StoragePolicyRecord). p.id) (drop 5 (list_policies 7 policies))
    ≡ codes "b" ∷ codes "a" ∷ []
unfolding create_policy list_policies trim trim_start_by trim_end_by is_whitespace
higher_first = refl

blank_refused :
    create_policy (codes "c") 7 (wish (codes " ") none) []
    ≡ (err (validation "category and mime_patterns required"), [])
unfolding create_policy trim trim_start_by trim_end_by is_whitespace
blank_refused = refl

others_policy_stays : (delete_policy (codes "a") 8 policies).1 ≡ policies
unfolding create_policy delete_policy trim trim_start_by trim_end_by is_whitespace
others_policy_stays = refl

own_policy_goes : length (delete_policy (codes "a") 7 policies).1 ≡ 1
unfolding create_policy delete_policy trim trim_start_by trim_end_by is_whitespace
own_policy_goes = refl
