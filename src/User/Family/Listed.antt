-- ===== src/User/Family/Listed.antt =====
-- Which rows the listings of members hold: backend/crates/user/src/family.rs.
use pcos.Prelude.{ℕ, ◌≡◌, inl, inr, refl, arith, List, [], ◌∷◌, none, Bool, false, ◌==◌, Bool-cases}
use pcos.Prelude.Sorting.{insert_by, sort_by}
use pcos.Common.Result.{AppResult, ok, err}
use pcos.User.Family.{FamilyMember, members_where, role_of}
use pcos.User.Family.Rows.{members_of}

-- The rows of an answer.
abbrev pub shown : AppResult (List FamilyMember) → List FamilyMember
shown (ok ms) = ms
shown (err e) = []

pub sort-members_of :
    (cloud : ℕ) (le : FamilyMember → FamilyMember → Bool) (ms : List FamilyMember)
    → members_of cloud ms ≡ []
    → members_of cloud (sort_by le ms) ≡ []
sort-members_of cloud le [] h = refl
sort-members_of cloud le (m ∷ ms) h = elim (Bool-cases (m.cloud_id == cloud)) [
  | inl e ↦ absurd (let h' = rw e at h in ground arith)
  | inr e ↦ inserted m (sort_by le ms) e (sort-members_of cloud le ms (rw e at h))
]
  where
    inserted :
        (m : FamilyMember) (ms : List FamilyMember)
        → (m.cloud_id == cloud) ≡ false
        → members_of cloud ms ≡ []
        → members_of cloud (insert_by le m ms) ≡ []
    inserted m [] e h = rw e refl
    inserted m (x ∷ ms) e h = elim (Bool-cases (le m x)) [
      | inl l ↦ rw (l, e) h
      | inr l ↦ elim (Bool-cases (x.cloud_id == cloud)) [
        | inl c ↦ absurd (let h' = rw c at h in ground arith)
        | inr c ↦ rw (l, c) (inserted m ms e (rw c at h))
      ]
    ]

pub others-members_of :
    (cloud other : ℕ) (ms : List FamilyMember)
    → (other == cloud) ≡ false
    → members_of cloud (members_of other ms) ≡ []
others-members_of cloud other [] n = refl
others-members_of cloud other (m ∷ ms) n = elim (Bool-cases (m.cloud_id == other)) [
  | inl e ↦
      let here : (m.cloud_id == cloud) ≡ false = ground arith in
      rw (e, here) (others-members_of cloud other ms n)
  | inr e ↦ rw e (others-members_of cloud other ms n)
]

pub own-members_of :
    (cloud user : ℕ) (ms : List FamilyMember)
    → role_of cloud user ms ≡ none
    → members_of cloud (members_where (λ m. m.user_id == user) ms) ≡ []
own-members_of cloud user [] h = refl
own-members_of cloud user (m ∷ ms) h = elim (Bool-cases (m.cloud_id == cloud)) [
  | inl e ↦ elim (Bool-cases (m.user_id == user)) [
    | inl u ↦ absurd (let h' = rw (e, u) at h in ground arith)
    | inr u ↦ rw u (own-members_of cloud user ms (rw (e, u) at h))
  ]
  | inr e ↦
      let rest = own-members_of cloud user ms (rw e at h) in
      elim (Bool-cases (m.user_id == user)) [ inl u ↦ rw (u, e) rest | inr u ↦ rw u rest ]
]
