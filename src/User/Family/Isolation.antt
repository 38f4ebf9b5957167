-- ===== src/User/Family/Isolation.antt =====
-- Households do not reach into each other: backend/crates/user/src/family.rs.
use pcos.Prelude.{
  ℕ, ◌≡◌, inl, inr, refl, sym, ◌∙◌, arith, [], ◌∷◌, Option, none, some, Bool, true, false, not,
  ◌==◌, any, leb, length, ℤ, Text, trim, Bool-cases, Option-cases,
}
use pcos.Common.Error.{forbidden}
use pcos.Common.Result.{err}
use pcos.User.Family.{
  FamilyMember, Families, members_where, is_seat, role_of, find_member, accepts_member,
  insert_member, CreateCloudRequest, new_cloud, accepts_cloud, owner_member, create_cloud,
  list_members, is_owner_role, is_manager_role, may_remove, InviteMemberRequest, new_member,
  invite_member, with_role, with_quota, update_member_role, update_member_quota, delete_member,
}
use pcos.User.Family.Rows.{
  has_unique_ids, members_of, is_row, insert_elsewhere, found_any, no_seat, absent,
  updated_elsewhere, removed_elsewhere,
}
use pcos.User.Family.Listed.{shown, sort-members_of, others-members_of, own-members_of}

-- The calls that change the tables.
pub data FamilyCall : Type 0 where
  create : ℕ → ℕ → ℕ → CreateCloudRequest → FamilyCall
  invite : ℕ → Text → ℕ → ℕ → InviteMemberRequest → FamilyCall
  change_role : ℕ → Text → FamilyCall
  change_quota : ℕ → ℤ → FamilyCall
  remove : ℕ → FamilyCall

unfoldable pub family_step : ℕ → FamilyCall → Families → Families
family_step user (create cloud_id member_id now req) f =
    (create_cloud cloud_id member_id user now req f).1
family_step user (invite id code new_user now req) f =
    (invite_member id code new_user user now req f).1
family_step user (change_role id role) f = (update_member_role user id role f).1
family_step user (change_quota id quota) f = (update_member_quota user id quota f).1
family_step user (remove id) f = (delete_member user id f).1

-- The call makes the cloud itself.
abbrev pub creates : ℕ → FamilyCall → Bool
creates cloud (create cloud_id member_id now req) = cloud_id == cloud
creates cloud _ = false

module _ (cloud user : ℕ) (f : Families) (outside : role_of cloud user f.members ≡ none) where
  -- A cloud in which the user has a role is another one.
  elsewhere :
      (test : Option Text → Bool) (other : ℕ)
      → test none ≡ false
      → test (role_of other user f.members) ≡ true
      → (other == cloud) ≡ false
  elsewhere test other empty passes = elim (Bool-cases (other == cloud)) [
    | inl e ↦
        let same : other ≡ cloud = ground arith in
        let passes' = rw (same, outside) at passes in absurd (ground (arith, sym empty ∙ passes'))
    | inr e ↦ e
  ]

  absent_here :
      (id : ℕ) (t : FamilyMember)
      → has_unique_ids f.members ≡ true
      → find_member id f.members ≡ some t
      → (t.cloud_id == cloud) ≡ false
      → any (is_row id cloud) f.members ≡ false
  absent_here id t unique e n = absent id cloud f.members unique (rw (e, n) refl)

  own_elsewhere :
      (id : ℕ) (t : FamilyMember)
      → find_member id f.members ≡ some t
      → (t.user_id == user) ≡ true
      → (t.cloud_id == cloud) ≡ false
  own_elsewhere id t e own = elim (Bool-cases (t.cloud_id == cloud)) [
    | inl c ↦
        let seat = found_any (is_seat cloud user) id f.members (rw (e, c, own) refl) in
        absurd (ground (arith, sym seat ∙ no_seat cloud user f.members outside))
    | inr c ↦ c
  ]

  IsKept : Families → Type 0
  IsKept after = members_of cloud after.members ≡ members_of cloud f.members

  create-IsKept :
      (cloud_id member_id now : ℕ) (req : CreateCloudRequest)
      → (cloud_id == cloud) ≡ false
      → IsKept (create_cloud cloud_id member_id user now req f).1
  unfolding create_cloud insert_member IsKept
  create-IsKept cloud_id member_id now req n =
      let c = new_cloud cloud_id user now req in
      let g : Families = record f { clouds = c ∷ f.clouds } in
      let m = owner_member member_id cloud_id user now in
      elim (Bool-cases (length (trim req.name) == 0)) [
        | inl e ↦ rw e refl
        | inr e ↦ elim (Bool-cases (accepts_cloud c f)) [
          | inl a ↦ elim (Bool-cases (accepts_member m g)) [
            | inl b ↦ rw (e, a, b, n) refl
            | inr b ↦ rw (e, a, b) refl
          ]
          | inr a ↦ rw (e, a) refl
        ]
      ]

  invite-IsKept :
      (id : ℕ) (code : Text) (new_user now : ℕ) (req : InviteMemberRequest)
      → IsKept (invite_member id code new_user user now req f).1
  unfolding invite_member IsKept
  invite-IsKept id code new_user now req =
      elim (Bool-cases (is_manager_role (role_of req.cloud_id user f.members))) [
        | inl e ↦ rw e (
            insert_elsewhere cloud (new_member id code new_user now req) f
              (elsewhere is_manager_role req.cloud_id refl e))
        | inr e ↦ rw e refl
      ]

  role-IsKept :
      (id : ℕ) (role : Text)
      → has_unique_ids f.members ≡ true
      → IsKept (update_member_role user id role f).1
  unfolding update_member_role IsKept
  role-IsKept id role unique = elim (Option-cases (find_member id f.members)) [
    | inl e ↦ rw e refl
    | inr (t, e) ↦ elim (Bool-cases (is_owner_role (role_of t.cloud_id user f.members))) [
      | inl o ↦ elim (Bool-cases (leb (length role) 32)) [
        | inl l ↦
            rw (e, o, l)
              (updated_elsewhere id cloud (with_role role) f.members
                (absent_here id t unique e (elsewhere is_owner_role t.cloud_id refl o)) (λ m. refl))
        | inr l ↦ rw (e, o, l) refl
      ]
      | inr o ↦ rw (e, o) refl
    ]
  ]

  quota-IsKept :
      (id : ℕ) (quota : ℤ)
      → has_unique_ids f.members ≡ true
      → IsKept (update_member_quota user id quota f).1
  unfolding update_member_quota IsKept
  quota-IsKept id quota unique = elim (Option-cases (find_member id f.members)) [
    | inl e ↦ rw e refl
    | inr (t, e) ↦ elim (Bool-cases (is_manager_role (role_of t.cloud_id user f.members))) [
      | inl o ↦
          rw (e, o)
            (updated_elsewhere id cloud (with_quota quota) f.members
              (absent_here id t unique e (elsewhere is_manager_role t.cloud_id refl o)) (λ m. refl))
      | inr o ↦ rw (e, o) refl
    ]
  ]

  remove-IsKept : (id : ℕ) → has_unique_ids f.members ≡ true → IsKept (delete_member user id f).1
  unfolding delete_member IsKept
  remove-IsKept id unique = elim (Option-cases (find_member id f.members)) [
    | inl e ↦ rw e refl
    | inr (t, e) ↦
        let gone : (t.cloud_id == cloud) ≡ false
            → IsKept (record f { members = members_where (λ m. not (m.id == id)) f.members }) =
          λ n. removed_elsewhere id cloud f.members (absent_here id t unique e n) in
        elim (Bool-cases (t.user_id == user)) [
          | inl own ↦ rw (e, own) (gone (own_elsewhere id t e own))
          | inr own ↦ elim (Bool-cases (may_remove (role_of t.cloud_id user f.members) t.role)) [
            | inl o ↦ rw (e, own, o) (gone (elsewhere (λ r. may_remove r t.role) t.cloud_id refl o))
            | inr o ↦ rw (e, own, o) refl
          ]
        ]
  ]

shown-members_of :
    (cloud user : ℕ) (f : Families) (asked : Option ℕ)
    → role_of cloud user f.members ≡ none
    → members_of cloud (shown (list_members user asked f)) ≡ []
unfolding list_members
shown-members_of cloud user f none out =
    sort-members_of cloud _ (members_where (λ m. m.user_id == user) f.members)
      (own-members_of cloud user f.members out)
shown-members_of cloud user f (some other) out =
    elim (Option-cases (role_of other user f.members)) [
      | inl e ↦ rw e refl
      | inr (role, e) ↦
          let n =
            elsewhere cloud user f out (λ r. elim r [ none ↦ false | some x ↦ true ]) other refl
              (rw e refl) in
          rw e (
            sort-members_of cloud _ (members_of other f.members)
              (others-members_of cloud other f.members n))
    ]

-- Where identifiers of members are unique, a user has no role in a cloud and does not create it by this call: the
-- call leaves the members of the cloud as they are, no list of members that the user asks for has one of them, and
-- the user is refused the list of the cloud.
pub family_lem :
    (cloud user : ℕ) (f : Families) (c : FamilyCall) (asked : Option ℕ)
    → role_of cloud user f.members ≡ none
    → has_unique_ids f.members ≡ true
    → creates cloud c ≡ false
    → (members_of cloud (family_step user c f).members ≡ members_of cloud f.members)
      × (members_of cloud (shown (list_members user asked f)) ≡ [])
      × (list_members user (some cloud) f
          ≡ err (forbidden "Access denied: You are not a member of this family cloud"))
unfolding family_step IsKept list_members
family_lem cloud user f (create cloud_id member_id now req) asked out unique n = (
  create-IsKept cloud user f out cloud_id member_id now req n,
  shown-members_of cloud user f asked out,
  rw out refl,
)
family_lem cloud user f (invite id code new_user now req) asked out unique n = (
  invite-IsKept cloud user f out id code new_user now req,
  shown-members_of cloud user f asked out,
  rw out refl,
)
family_lem cloud user f (change_role id role) asked out unique n = (
  role-IsKept cloud user f out id role unique,
  shown-members_of cloud user f asked out,
  rw out refl,
)
family_lem cloud user f (change_quota id quota) asked out unique n = (
  quota-IsKept cloud user f out id quota unique,
  shown-members_of cloud user f asked out,
  rw out refl,
)
family_lem cloud user f (remove id) asked out unique n =
    (remove-IsKept cloud user f out id unique, shown-members_of cloud user f asked out, rw out refl)
