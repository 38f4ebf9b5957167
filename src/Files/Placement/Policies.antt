-- ===== src/Files/Placement/Policies.antt =====
-- The policies of placement that users keep: list_policies, create_policy and delete_policy of
-- backend/crates/file_metadata/src/policy.rs over the table `storage_policies` of
-- backend/migrations/20240101000012_family_policies_and_cluster.sql. The identifier of a new policy is an argument;
-- policies of one priority come in the order of the table.
use pcos.Prelude.{
  ℕ, List, [], ◌∷◌, ◌++◌, Option, none, some, Bool, true, false, not, ◌&&◌, ◌||◌, leb, ◌==◌,
  if◌then◌else◌, any, length, ℤ, pos, negsuc, Text, codes, text_eq, trim,
}
use pcos.Prelude.Sorting.{sort_by}
use pcos.Common.Error.{validation, database}
use pcos.Common.Result.{AppResult, ok, err}

pub record StoragePolicyRecord : Type 0 where
  pub id : Text
  pub user_id : Option ℕ
  pub category : Text
  pub name : Option Text
  pub mime_patterns : Text
  pub target_storage_type : Text
  pub target_node_id : Option Text
  pub replica_count : ℤ
  pub availability_tier : Text
  pub priority : ℤ
  pub is_default : Bool

pub record CreatePolicyRequest : Type 0 where
  pub category : Text
  pub name : Option Text
  pub mime_patterns : Text
  pub target_storage_type : Option Text
  pub target_node_id : Option Text
  pub replica_count : Option ℤ
  pub availability_tier : Option Text
  pub priority : Option ℤ

abbrev pub default_policy : Text → Text → Text → Text → Text → ℕ → Text → ℕ → StoragePolicyRecord
default_policy id category name patterns target replicas tier priority = record {
  id = id;
  user_id = none;
  category = category;
  name = some name;
  mime_patterns = patterns;
  target_storage_type = target;
  target_node_id = none;
  replica_count = pos replicas;
  availability_tier = tier;
  priority = pos priority;
  is_default = true;
}

abbrev pub default_policies : List StoragePolicyRecord
default_policies =
    default_policy (codes "pol_def_photos") (codes "photos")
      (codes "Photos & Images -> High-Speed SSD Pool") (codes "image/*") (codes "ssd") 1
      (codes "local_only") 10
    ∷ default_policy (codes "pol_def_videos") (codes "videos")
        (codes "Videos & High-Res Footage -> Massive HDD Pool") (codes "video/*") (codes "hdd") 1
        (codes "local_only") 10
    ∷ default_policy (codes "pol_def_audio") (codes "audio")
        (codes "Music & Audio -> Music Library") (codes "audio/*") (codes "any") 1
        (codes "local_only") 10
    ∷ default_policy (codes "pol_def_docs") (codes "documents")
        (codes "Documents & Notes -> Fast SSD / NAS") (codes "application/pdf,text/*") (codes "ssd")
        1 (codes "any_device") 10
    ∷ default_policy (codes "pol_def_backups") (codes "backups")
        (codes "System Backups & Archives -> Backup Disk")
        (codes "application/zip,application/x-tar") (codes "usb") 2 (codes "always_available") 15
    ∷ []

abbrev pub int_le : ℤ → ℤ → Bool
int_le (pos a) (pos b) = leb a b
int_le (pos a) (negsuc b) = false
int_le (negsuc a) (pos b) = true
int_le (negsuc a) (negsuc b) = leb b a

abbrev pub is_owner : ℕ → StoragePolicyRecord → Bool
is_owner user p = elim (p.user_id) [ none ↦ false | some u ↦ u == user ]

abbrev pub policies_where :
    (StoragePolicyRecord → Bool) → List StoragePolicyRecord → List StoragePolicyRecord
policies_where test [] = []
policies_where test (p ∷ ps) = if test p then p ∷ policies_where test ps else policies_where test ps

-- `category as name, …, false as is_default`.
abbrev pub selected : List StoragePolicyRecord → List StoragePolicyRecord
selected [] = []
selected (p ∷ ps) = record p { name = some p.category; is_default = false } ∷ selected ps

unfoldable pub list_policies : ℕ → List StoragePolicyRecord → List StoragePolicyRecord
list_policies user table =
    default_policies
    ++ sort_by (λ (a b : StoragePolicyRecord). int_le b.priority a.priority)
        (selected (policies_where (is_owner user) table))

abbrev pub or_given {ℓ} : {A : Type ℓ} → A → Option A → A
or_given d none = d
or_given d (some a) = a

abbrev pub is_short_enough : ℕ → Option Text → Bool
is_short_enough bound none = true
is_short_enough bound (some t) = leb (length t) bound

abbrev pub is_blank : Text → Bool
is_blank t = length (trim t) == 0

-- The columns of the table take so many characters, and no name.
abbrev pub fits_policy : StoragePolicyRecord → Bool
fits_policy p =
    leb (length p.id) 64
    && leb (length p.category) 64
    && leb (length p.target_storage_type) 32
    && is_short_enough 64 p.target_node_id
    && leb (length p.availability_tier) 32

abbrev pub new_policy : Text → ℕ → CreatePolicyRequest → StoragePolicyRecord
new_policy id user req = record {
  id = id;
  user_id = some user;
  category = req.category;
  name = none;
  mime_patterns = req.mime_patterns;
  target_storage_type = or_given (codes "any") req.target_storage_type;
  target_node_id = req.target_node_id;
  replica_count = or_given (pos 1) req.replica_count;
  availability_tier = or_given (codes "local_only") req.availability_tier;
  priority = or_given (pos 10) req.priority;
  is_default = false;
}

unfoldable pub create_policy :
    Text
    → ℕ
    → CreatePolicyRequest
    → List StoragePolicyRecord
    → AppResult StoragePolicyRecord × List StoragePolicyRecord
create_policy id user req table =
    let p = new_policy id user req in
    if is_blank req.category || is_blank req.mime_patterns
    then (err (validation "category and mime_patterns required"), table)
    else if fits_policy p && not (any (λ (q : StoragePolicyRecord). text_eq q.id id) table)
    then (ok p, table ++ p ∷ [])
    else (err (database "constraint"), table)

-- A policy that is not there, or another user's, is answered as deleted too.
unfoldable pub delete_policy :
    Text → ℕ → List StoragePolicyRecord → AppResult (Unit {0}) × List StoragePolicyRecord
delete_policy id user table =
    (ok tt, policies_where (λ p. not (text_eq p.id id && is_owner user p)) table)
