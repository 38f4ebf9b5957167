-- ===== src/User/Family.antt =====
-- Family clouds: backend/crates/user/src/family.rs, over the tables `family_clouds` and `family_members` of
-- backend/migrations/20240101000012_family_policies_and_cluster.sql. The identifiers, which the code prints with a
-- prefix, are numbers, since they are only compared; new ones, the invite code and the time are arguments. Rows of one
-- time come in the order of the table.
pub mod Isolation
mod Rows
mod Listed
mod Examples
use pcos.Prelude.{
  ℕ, List, [], ◌∷◌, Option, none, some, Bool, true, false, not, ◌&&◌, ◌||◌, leb, ◌==◌,
  if◌then◌else◌, any, length, ℤ, pos, Text, codes, text_eq, trim,
}
use pcos.Prelude.Sorting.{sort_by}
use pcos.Common.Error.{validation, not_found, forbidden, database}
use pcos.Common.Result.{AppResult, ok, err}

pub record FamilyCloud : Type 0 where
  pub id : ℕ
  pub name : Text
  pub owner_id : ℕ
  pub cloud_type : Text
  pub created_at : ℕ

pub record FamilyMember : Type 0 where
  pub id : ℕ
  pub cloud_id : ℕ
  pub user_id : ℕ
  pub role : Text
  pub storage_quota_bytes : ℤ
  pub used_bytes : ℕ
  pub invite_code : Option Text
  pub joined_at : ℕ

-- The tables; of the users only the identifiers.
pub record Families : Type 0 where
  pub users : List ℕ
  pub clouds : List FamilyCloud
  pub members : List FamilyMember

abbrev pub members_where : (FamilyMember → Bool) → List FamilyMember → List FamilyMember
members_where test [] = []
members_where test (m ∷ ms) = if test m then m ∷ members_where test ms else members_where test ms

abbrev pub is_seat : ℕ → ℕ → FamilyMember → Bool
is_seat cloud user m = (m.cloud_id == cloud) && (m.user_id == user)

-- `SELECT role FROM family_members WHERE cloud_id = $1 AND user_id = $2`.
abbrev pub role_of : ℕ → ℕ → List FamilyMember → Option Text
role_of cloud user [] = none
role_of cloud user (m ∷ ms) = if is_seat cloud user m then some m.role else role_of cloud user ms

-- `WHERE id = $1`.
abbrev pub find_member : ℕ → List FamilyMember → Option FamilyMember
find_member id [] = none
find_member id (m ∷ ms) = if m.id == id then some m else find_member id ms

-- The keys of the table, what it refers to, and the length of its columns.
abbrev pub accepts_member : FamilyMember → Families → Bool
accepts_member m f =
    not (any (λ (x : FamilyMember). x.id == m.id) f.members)
    && not (any (is_seat m.cloud_id m.user_id) f.members)
    && any (λ (c : FamilyCloud). c.id == m.cloud_id) f.clouds
    && any (λ u. u == m.user_id) f.users
    && leb (length m.role) 32

unfoldable pub insert_member : FamilyMember → Families → AppResult FamilyMember × Families
insert_member m f =
    if accepts_member m f
    then (ok m, record f { members = m ∷ f.members })
    else (err (database "constraint"), f)

pub record CreateCloudRequest : Type 0 where
  pub name : Text
  pub cloud_type : Option Text

abbrev pub type_or_family : Option Text → Text
type_or_family none = codes "family"
type_or_family (some t) = t

abbrev pub new_cloud : ℕ → ℕ → ℕ → CreateCloudRequest → FamilyCloud
new_cloud id user now req = record {
  id = id;
  name = trim req.name;
  owner_id = user;
  cloud_type = type_or_family req.cloud_type;
  created_at = now;
}

abbrev pub accepts_cloud : FamilyCloud → Families → Bool
accepts_cloud c f =
    not (any (λ (x : FamilyCloud). x.id == c.id) f.clouds)
    && any (λ u. u == c.owner_id) f.users
    && leb (length c.name) 255
    && leb (length c.cloud_type) 32

-- 50 GiB.
abbrev pub owner_member : ℕ → ℕ → ℕ → ℕ → FamilyMember
owner_member id cloud user now = record {
  id = id;
  cloud_id = cloud;
  user_id = user;
  role = codes "owner";
  storage_quota_bytes = pos 53687091200;
  used_bytes = 0;
  invite_code = none;
  joined_at = now;
}

abbrev pub answer_cloud :
    FamilyCloud → AppResult FamilyMember × Families → AppResult FamilyCloud × Families
answer_cloud c (ok m, f) = (ok c, f)
answer_cloud c (err e, f) = (err e, f)

-- There is no transaction: the cloud stays where its first member is refused.
unfoldable pub create_cloud :
    ℕ → ℕ → ℕ → ℕ → CreateCloudRequest → Families → AppResult FamilyCloud × Families
create_cloud cloud_id member_id user now req f =
    let c = new_cloud cloud_id user now req in
    if length (trim req.name) == 0
    then (err (validation "Cloud name is required"), f)
    else if accepts_cloud c f
    then answer_cloud c (
        insert_member (owner_member member_id cloud_id user now)
          (record f { clouds = c ∷ f.clouds }))
    else (err (database "constraint"), f)

abbrev pub clouds_of : ℕ → List FamilyCloud → List FamilyCloud
clouds_of user [] = []
clouds_of user (c ∷ cs) = if c.owner_id == user then c ∷ clouds_of user cs else clouds_of user cs

unfoldable pub list_clouds : ℕ → Families → List FamilyCloud
list_clouds user f =
    sort_by (λ (a b : FamilyCloud). leb b.created_at a.created_at) (clouds_of user f.clouds)

abbrev pub by_joining : List FamilyMember → List FamilyMember
by_joining ms = sort_by (λ (a b : FamilyMember). leb a.joined_at b.joined_at) ms

abbrev pub if_member : Option Text → List FamilyMember → AppResult (List FamilyMember)
if_member none ms = err (forbidden "Access denied: You are not a member of this family cloud")
if_member (some role) ms = ok (by_joining ms)

unfoldable pub list_members : ℕ → Option ℕ → Families → AppResult (List FamilyMember)
list_members user none f = ok (by_joining (members_where (λ m. m.user_id == user) f.members))
list_members user (some cloud) f =
    if_member (role_of cloud user f.members) (members_where (λ m. m.cloud_id == cloud) f.members)

abbrev pub is_owner_role : Option Text → Bool
is_owner_role none = false
is_owner_role (some role) = text_eq role (codes "owner")

abbrev pub is_manager_role : Option Text → Bool
is_manager_role none = false
is_manager_role (some role) = text_eq role (codes "owner") || text_eq role (codes "admin")

pub record InviteMemberRequest : Type 0 where
  pub cloud_id : ℕ
  pub user_id : Option ℕ
  pub role : Option Text
  pub storage_quota_bytes : Option ℤ

abbrev pub given_else {ℓ} : {A : Type ℓ} → A → Option A → A
given_else d none = d
given_else d (some a) = a

-- The quota is 20 GiB unless it is given; a user that is not given is a new identifier.
abbrev pub new_member : ℕ → Text → ℕ → ℕ → InviteMemberRequest → FamilyMember
new_member id code new_user now req = record {
  id = id;
  cloud_id = req.cloud_id;
  user_id = given_else new_user req.user_id;
  role = given_else (codes "member") req.role;
  storage_quota_bytes = given_else (pos 21474836480) req.storage_quota_bytes;
  used_bytes = 0;
  invite_code = some code;
  joined_at = now;
}

unfoldable pub invite_member :
    ℕ → Text → ℕ → ℕ → ℕ → InviteMemberRequest → Families → AppResult FamilyMember × Families
invite_member member_id code new_user user now req f =
    if is_manager_role (role_of req.cloud_id user f.members)
    then insert_member (new_member member_id code new_user now req) f
    else (err (forbidden "Only family cloud owners or administrators can invite members"), f)

-- `UPDATE family_members SET … WHERE id = $2`.
abbrev pub update_member : ℕ → (FamilyMember → FamilyMember) → List FamilyMember → List FamilyMember
update_member id change [] = []
update_member id change (m ∷ ms) = (if m.id == id then change m else m) ∷ update_member id change ms

abbrev pub with_role : Text → FamilyMember → FamilyMember
with_role role m = record m { role = role }

abbrev pub with_quota : ℤ → FamilyMember → FamilyMember
with_quota quota m = record m { storage_quota_bytes = quota }

abbrev pub set_role : ℕ → ℕ → Text → Option FamilyMember → Families → AppResult Text × Families
set_role user id role none f = (err (not_found "Family member not found"), f)
set_role user id role (some t) f =
    if not (is_owner_role (role_of t.cloud_id user f.members))
    then (err (forbidden "Only the family cloud owner can modify member roles"), f)
    else if leb (length role) 32
    then (ok role, record f { members = update_member id (with_role role) f.members })
    else (err (database "constraint"), f)

unfoldable pub update_member_role : ℕ → ℕ → Text → Families → AppResult Text × Families
update_member_role user id role f = set_role user id role (find_member id f.members) f

abbrev pub set_quota : ℕ → ℕ → ℤ → Option FamilyMember → Families → AppResult ℤ × Families
set_quota user id quota none f = (err (not_found "Family member not found"), f)
set_quota user id quota (some t) f =
    if is_manager_role (role_of t.cloud_id user f.members)
    then (ok quota, record f { members = update_member id (with_quota quota) f.members })
    else (err (forbidden "Only family cloud owners or administrators can modify storage quotas"), f)

unfoldable pub update_member_quota : ℕ → ℕ → ℤ → Families → AppResult ℤ × Families
update_member_quota user id quota f = set_quota user id quota (find_member id f.members) f

abbrev pub may_remove : Option Text → Text → Bool
may_remove none target = false
may_remove (some role) target =
    text_eq role (codes "owner")
    || (text_eq role (codes "admin") && not (text_eq target (codes "owner")))

abbrev pub remove_found : ℕ → ℕ → Option FamilyMember → Families → AppResult (Unit {0}) × Families
remove_found user id none f = (err (not_found "Family member not found"), f)
remove_found user id (some t) f =
    if (t.user_id == user) || may_remove (role_of t.cloud_id user f.members) t.role
    then (ok tt, record f { members = members_where (λ m. not (m.id == id)) f.members })
    else (err (forbidden "Insufficient permissions to remove this family member"), f)

unfoldable pub delete_member : ℕ → ℕ → Families → AppResult (Unit {0}) × Families
delete_member user id f = remove_found user id (find_member id f.members) f
