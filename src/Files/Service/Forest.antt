-- ===== src/Files/Service/Forest.antt =====
-- Where the folders of backend/crates/file_metadata/src/service.rs have no cycles: the recursive query ends.
use mathlib.Core.List.{Memᴰ}
use mathlib.Core.Path.{subst}
use pcos.Prelude.{
  ℕ, zero, suc, ◌+◌, ◌≤◌, ◌<◌, ◌≡◌, refl, sym, ap, ◌∙◌, arith, List, [], ◌∷◌, ◌++◌, Option, none,
  some, Bool, true, false, ◌&&◌, ◌==◌, ==_iff, Bool-cases, inl, inr, All,
}
use pcos.Prelude.Members.{all_of_mem}
use pcos.Files.Table.{Row, find_row, children, joined, descendants}
use pcos.Files.Service.Subtree.{Has, Has-head, Has-cases, children_from}

abbrev pub IsDeeper : (ℕ → ℕ) → Option ℕ → ℕ → Type 0
IsDeeper depth none d = Unit
IsDeeper depth (some p) d = depth p < d

-- Every row lies deeper than its parent, and less deep than the bound.
abbrev pub IsForest : (ℕ → ℕ) → ℕ → List Row → Type 0
IsForest depth bound rows =
    All (λ (r : Row). IsDeeper depth r.parent_id (depth r.id) × (depth r.id < bound)) rows

-- What a row found is.
pub find_row_lem :
    (user item : ℕ) (rows : List Row) (r : Row)
    → find_row user item rows ≡ some r
    → Memᴰ r rows × (r.id ≡ item) × (r.user_id ≡ user)
unfolding find_row
find_row_lem user item [] r h = absurd (ground arith)
find_row_lem user item (s ∷ rows) r h = elim (Bool-cases (s.id == item)) [
  | inr e ↦ let (m, i, u) = find_row_lem user item rows r (rw (e, ◌&&◌) at h) in (Memᴰ.tail m, i, u)
  | inl e ↦ elim (Bool-cases (s.user_id == user)) [
    | inr f ↦ let (m, i, u) = find_row_lem user item rows r (rw (e, f) at h) in (Memᴰ.tail m, i, u)
    | inl f ↦
        let same : s ≡ r = some_injective (rw (e, f) at h) in
        (
          Memᴰ.head (sym same),
          subst (λ (x : Row). x.id ≡ item) same ((==_iff s.id item).0 e),
          subst (λ (x : Row). x.user_id ≡ user) same ((==_iff s.user_id user).0 f),
        )
  ]
]
  where
    some_injective : {a b : Row} → some a ≡ some b → a ≡ b
    some_injective h = cc

module _ (depth : ℕ → ℕ) (bound : ℕ) (rows : List Row) (forest : IsForest depth bound rows) where
  child_deeper :
      (p d : ℕ) (o : Option ℕ)
      → (elim o as (λ x. Bool) [ none ↦ false | some q ↦ q == p ]) ≡ true
      → IsDeeper depth o d
      → depth p < d
  child_deeper p d none c h = absurd (ground arith)
  child_deeper p d (some q) c h = subst (λ x. depth x < d) ((==_iff q p).0 c) h

  descendants_end :
      (rounds k : ℕ) (found : List ℕ)
      → ((x : ℕ) → Has x found → (k ≤ depth x) × (depth x < bound))
      → bound ≤ k + rounds
      → (ids : List ℕ) × (descendants rounds rows found ≡ some ids)
  unfolding descendants
  descendants_end rounds k [] deep enough = ([], refl)
  descendants_end zero k (d ∷ found) deep enough =
      let (low, high) = deep d (Has-head d found) in absurd (omega (arith, low, high, enough))
  descendants_end (suc rounds) k (d ∷ found) deep enough =
      let (rest, e) =
        descendants_end rounds (suc k) (children rows (d ∷ found))
          (λ c h.
            let (r, p, m, q, i, f) = children_from rows (d ∷ found) c h in
            let (deeper, high) =
              all_of_mem
                (λ (s : Row). IsDeeper depth s.parent_id (depth s.id) × (depth s.id < bound)) m
                forest in
            let (low, other) = deep p f in
            let next = child_deeper p (depth r.id) r.parent_id q deeper in
            subst (λ x. (suc k ≤ depth x) × (depth x < bound)) i (omega (arith, low, next), high))
          (omega (arith, enough)) in
      ((d ∷ found) ++ rest, ap (joined (d ∷ found)) e)

  -- From a row of the user, as many rounds as the bound are enough.
  pub query_ends :
      (user item rounds : ℕ) (r : Row)
      → find_row user item rows ≡ some r
      → bound ≤ rounds
      → (ids : List ℕ) × (descendants rounds rows (item ∷ []) ≡ some ids)
  query_ends user item rounds r h enough =
      descendants_end rounds 0 (item ∷ [])
        (λ x f.
          let (m, i, u) = find_row_lem user item rows r h in
          let (deeper, high) =
            all_of_mem (λ (s : Row). IsDeeper depth s.parent_id (depth s.id) × (depth s.id < bound))
              m forest in
          elim (Has-cases x item [] f) [
            | inl same ↦ (omega arith, subst (λ y. depth y < bound) (i ∙ same) high)
            | inr t ↦ absurd (ground arith)
          ])
        (omega (arith, enough))
