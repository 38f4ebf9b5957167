-- ===== src/User/Family/Examples.antt =====
-- Two families: user 1 owns the first, user 2 the second, and user 3 administers the first.
use pcos.Prelude.{
  ℕ, ◌≡◌, refl, [], ◌∷◌, none, some, pos, Text, codes, trim, trim_start_by, trim_end_by,
  is_whitespace,
}
use pcos.Common.Error.{forbidden, database}
use pcos.Common.Result.{err}
use pcos.User.Family.{
  FamilyMember, Families, insert_member, create_cloud, list_members, invite_member,
  InviteMemberRequest, role_of, delete_member,
}
use pcos.User.Family.Rows.{members_of}
use pcos.User.Family.Listed.{shown}
use pcos.User.Family.Isolation.{change_quota, family_step, family_lem}

abbrev seat : ℕ → ℕ → ℕ → Text → FamilyMember
seat id cloud user role = record {
  id = id;
  cloud_id = cloud;
  user_id = user;
  role = role;
  storage_quota_bytes = pos 100;
  used_bytes = 0;
  invite_code = none;
  joined_at = id;
}

abbrev empty : Families
empty = record { users = 1 ∷ 2 ∷ 3 ∷ 4 ∷ []; clouds = []; members = [] }

abbrev cloud_at : ℕ → ℕ → Families → Families
cloud_at id user f =
    (create_cloud id id user 5 (record { name = codes "home"; cloud_type = none }) f).1

abbrev owned : Families
owned = record {
  users = 1 ∷ 2 ∷ 3 ∷ 4 ∷ [];
  clouds = (cloud_at 12 2 (cloud_at 11 1 empty)).clouds;
  members =
      seat 21 11 1 (codes "owner")
      ∷ seat 22 12 2 (codes "owner")
      ∷ seat 23 11 3 (codes "admin")
      ∷ [];
}

family_lem_example :
    (members_of 11 (family_step 2 (change_quota 23 (pos 0)) owned).members
      ≡ members_of 11 owned.members)
    × (members_of 11 (shown (list_members 2 none owned)) ≡ [])
    × (list_members 2 (some 11) owned
        ≡ err (forbidden "Access denied: You are not a member of this family cloud"))
family_lem_example = family_lem 11 2 owned (change_quota 23 (pos 0)) none refl refl refl

abbrev as_owner : InviteMemberRequest
as_owner = record {
  cloud_id = 11;
  user_id = some 4;
  role = some (codes "owner");
  storage_quota_bytes = none;
}

-- An administrator invites an owner, who removes the one who created the cloud.
abbrev taken_over : Families
taken_over = (delete_member 4 21 (invite_member 24 (codes "c") 99 3 6 as_owner owned).1).1

owner_removed : role_of 11 1 taken_over.members ≡ none
unfolding create_cloud insert_member invite_member delete_member trim trim_start_by trim_end_by
    is_whitespace
owner_removed = refl

owner_invited : role_of 11 4 taken_over.members ≡ some (codes "owner")
unfolding create_cloud insert_member invite_member delete_member trim trim_start_by trim_end_by
    is_whitespace
owner_invited = refl

-- An invitation without a user is refused by the database, since the new identifier is no user's.
nobody_refused :
    (invite_member 24 (codes "c") 99 3 6 (record as_owner { user_id = none }) owned).0
    ≡ err (database "constraint")
unfolding create_cloud insert_member invite_member trim trim_start_by trim_end_by is_whitespace
nobody_refused = refl
