-- ===== src/User/Family/Rows.antt =====
-- The rows of one cloud while those of others change: backend/crates/user/src/family.rs.
use pcos.Prelude.{
  ℕ, ◌≡◌, inl, inr, refl, arith, List, [], ◌∷◌, Option, none, some, Bool, true, false, not, ◌&&◌,
  ◌==◌, any, Bool-cases,
}
use pcos.User.Family.{
  FamilyMember, Families, members_where, is_seat, role_of, find_member, accepts_member,
  insert_member, update_member,
}

-- `id VARCHAR(64) PRIMARY KEY`.
abbrev pub has_unique_ids : List FamilyMember → Bool
has_unique_ids [] = true
has_unique_ids (m ∷ ms) = not (any (λ (x : FamilyMember). x.id == m.id) ms) && has_unique_ids ms

abbrev pub members_of : ℕ → List FamilyMember → List FamilyMember
members_of cloud ms = members_where (λ m. m.cloud_id == cloud) ms

abbrev pub is_row : ℕ → ℕ → FamilyMember → Bool
is_row id cloud m = (m.id == id) && (m.cloud_id == cloud)

pub insert_elsewhere :
    (cloud : ℕ) (m : FamilyMember) (f : Families)
    → (m.cloud_id == cloud) ≡ false
    → members_of cloud (insert_member m f).1.members ≡ members_of cloud f.members
unfolding insert_member
insert_elsewhere cloud m f h = elim (Bool-cases (accepts_member m f)) [
  | inl e ↦ rw (e, h) refl
  | inr e ↦ rw e refl
]

no_row :
    (id cloud : ℕ) (ms : List FamilyMember)
    → any (λ (x : FamilyMember). x.id == id) ms ≡ false
    → any (is_row id cloud) ms ≡ false
no_row id cloud [] h = refl
no_row id cloud (m ∷ ms) h = elim (Bool-cases (m.id == id)) [
  | inl e ↦ absurd (let h' = rw (e, any) at h in ground arith)
  | inr e ↦ rw (e, any) (no_row id cloud ms (rw (e, any) at h))
]

-- A property of the row that is found.
abbrev pub holds : (FamilyMember → Bool) → Option FamilyMember → Bool
holds test none = false
holds test (some m) = test m

pub found_any :
    (test : FamilyMember → Bool) (id : ℕ) (ms : List FamilyMember)
    → holds test (find_member id ms) ≡ true
    → any test ms ≡ true
found_any test id [] h = absurd (ground arith)
found_any test id (m ∷ ms) h = elim (Bool-cases (m.id == id)) [
  | inl e ↦ rw (rw e at h, any) refl
  | inr e ↦ elim (Bool-cases (test m)) [
    | inl y ↦ rw (y, any) refl
    | inr n ↦ rw (n, any) (found_any test id ms (rw e at h))
  ]
]

pub no_seat :
    (cloud user : ℕ) (ms : List FamilyMember)
    → role_of cloud user ms ≡ none
    → any (is_seat cloud user) ms ≡ false
no_seat cloud user [] h = refl
no_seat cloud user (m ∷ ms) h = elim (Bool-cases (is_seat cloud user m)) [
  | inl e ↦ absurd (let h' = rw e at h in ground arith)
  | inr e ↦ rw (e, any) (no_seat cloud user ms (rw e at h))
]

pub absent :
    (id cloud : ℕ) (ms : List FamilyMember)
    → has_unique_ids ms ≡ true
    → holds (λ m. not (m.cloud_id == cloud)) (find_member id ms) ≡ true
    → any (is_row id cloud) ms ≡ false
absent id cloud [] unique h = refl
absent id cloud (m ∷ ms) unique h = elim (Bool-cases (m.id == id)) [
  | inl e ↦
      let elsewhere : (m.cloud_id == cloud) ≡ false = (let h' = rw e at h in ground arith) in
      let same : m.id ≡ id = ground arith in
      let fresh : any (λ (x : FamilyMember). x.id == m.id) ms ≡ false = ground arith in
      rw (e, elsewhere, any) (no_row id cloud ms (rw same at fresh))
  | inr e ↦
      let rest : has_unique_ids ms ≡ true = ground arith in
      rw (e, any) (absent id cloud ms rest (rw e at h))
]

pub updated_elsewhere :
    (id cloud : ℕ) (change : FamilyMember → FamilyMember) (ms : List FamilyMember)
    → any (is_row id cloud) ms ≡ false
    → ((m : FamilyMember) → (change m).cloud_id ≡ m.cloud_id)
    → members_of cloud (update_member id change ms) ≡ members_of cloud ms
updated_elsewhere id cloud change [] h same = refl
updated_elsewhere id cloud change (m ∷ ms) h same = elim (Bool-cases (m.id == id)) [
  | inl e ↦ elim (Bool-cases (m.cloud_id == cloud)) [
    | inl c ↦ absurd (let h' = rw (e, c, any) at h in ground arith)
    | inr c ↦ rw (e, same m, c) (updated_elsewhere id cloud change ms (rw (e, c, any) at h) same)
  ]
  | inr e ↦ rw e (rw (updated_elsewhere id cloud change ms (rw (e, any) at h) same) refl)
]

pub removed_elsewhere :
    (id cloud : ℕ) (ms : List FamilyMember)
    → any (is_row id cloud) ms ≡ false
    → members_of cloud (members_where (λ m. not (m.id == id)) ms) ≡ members_of cloud ms
removed_elsewhere id cloud [] h = refl
removed_elsewhere id cloud (m ∷ ms) h = elim (Bool-cases (m.id == id)) [
  | inl e ↦ elim (Bool-cases (m.cloud_id == cloud)) [
    | inl c ↦ absurd (let h' = rw (e, c, any) at h in ground arith)
    | inr c ↦ rw (e, c) (removed_elsewhere id cloud ms (rw (e, c, any) at h))
  ]
  | inr e ↦ rw e (rw (removed_elsewhere id cloud ms (rw (e, any) at h)) refl)
]
