-- ===== src/Auth/Users.antt =====
-- The table of users after an update.
use pcos.Prelude.{
  ℕ, ◌≡◌, sym, ap, ◌∙◌, List, [], ◌∷◌, some, Bool, true, arith, ◌==◌, ==_iff, Bool-cases, inl, inr,
}
use pcos.Auth.{User, find_user, update_user}

-- A user is found as before where the update does not touch what is looked for.
pub find_user-update :
    (p : User → Bool) (id : ℕ) (f : User → User) (us : List User) (u : User)
    → ((v : User) → p (f v) ≡ p v)
    → u.id ≡ id
    → find_user p us ≡ some u
    → find_user p (update_user id f us) ≡ some (f u)
unfolding find_user update_user
find_user-update p id f [] u keeps e h = absurd (ground arith)
find_user-update p id f (v ∷ us) u keeps e h = elim (Bool-cases (p v)) [
  | inl q ↦
      let h' = rw q at h in
      let same : v ≡ u = cc in
      let t : (v.id == id) ≡ true = (==_iff v.id id).1 (ap (λ (w : User). w.id) same ∙ e) in
      rw (t, keeps v, q) (ap (λ w. some (f w)) same)
  | inr q ↦
      let rest = find_user-update p id f us u keeps e (rw q at h) in
      elim (Bool-cases (v.id == id)) [ inl t ↦ rw (t, keeps v, q) rest | inr t ↦ rw (t, q) rest ]
]

-- What is found passes the test.
pub find_user-passes :
    (p : User → Bool) (us : List User) (u : User) → find_user p us ≡ some u → p u ≡ true
unfolding find_user
find_user-passes p [] u h = absurd (ground arith)
find_user-passes p (v ∷ us) u h = elim (Bool-cases (p v)) [
  | inl q ↦ let h' = rw q at h in let same : v ≡ u = cc in sym (ap p same) ∙ q
  | inr q ↦ find_user-passes p us u (rw q at h)
]
