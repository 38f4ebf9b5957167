-- ===== src/Files/Service/Purging.antt =====
-- The rows below a row belong to its user, and a table without them keeps its parents: the query and the
-- `DELETE` of backend/crates/file_metadata/src/service.rs.
use mathlib.Core.List.{Memᴰ}
use mathlib.Core.Path.{subst}
use pcos.Prelude.{
  ℕ, zero, suc, ◌≡◌, ◌≢◌, inl, inr, refl, sym, ap, ◌∙◌, arith, List, [], ◌∷◌, Option, none, some,
  Bool, true, false, ◌==◌, ==_iff, if◌then◌else◌, any, any_skip, All, Bool-cases,
}
use pcos.Prelude.Members.{all_of_mem}
use pcos.Files.Table.{Row, is_keyed, has_id, is_child_of, select, children, descendants}
use pcos.Files.Service.Trash.{remove_ids}
use pcos.Files.Service.Subtree.{Has, Has-append, children_from, closed, joined-some}
use pcos.Files.Service.Owned.{
  HasParent, IsOwned, rows_of, Keeps, no_both, split_and, not-true, keyed_same, differs,
}

module _ (rows : List Row) (user : ℕ) (owned : IsOwned rows) where
  of_parent :
      (r : Row) (p : ℕ) (o : Option ℕ)
      → (elim o as (λ x. Bool) [ none ↦ false | some q ↦ q == p ]) ≡ true
      → HasParent rows r.user_id o
      → (x : Row) × Memᴰ x rows × (x.id ≡ p) × (x.user_id ≡ r.user_id)
  of_parent r p none c h = absurd (ground arith)
  of_parent r p (some q) c (x, m, i, u) = (x, m, i ∙ (==_iff q p).0 c, u)

  -- Every row that the query finds is the user's, if those found first are.
  pub query_owned :
      (n : ℕ) (found ids : List ℕ)
      → descendants n rows found ≡ some ids
      → ((r : Row) → Memᴰ r rows → Has r.id found → r.user_id ≡ user)
      → (r : Row) → Memᴰ r rows
      → Has r.id ids
      → r.user_id ≡ user
  unfolding descendants
  query_owned n [] ids h mine r m f =
      let same : [] ≡ ids = cc in absurd (let f' = subst (Has r.id) (sym same) f in ground arith)
  query_owned zero (d ∷ found) ids h mine r m f = absurd (ground arith)
  query_owned (suc n) (d ∷ found) ids h mine r m f =
      let (rest, e, same) =
        joined-some rows (d ∷ found) ids (descendants n rows (children rows (d ∷ found))) h in
      elim (Has-append r.id (d ∷ found) rest (subst (Has r.id) (sym same) f)) [
        | inl g ↦ mine r m g
        | inr g ↦
            query_owned n (children rows (d ∷ found)) rest e
              (λ c mc k.
                let (c', p, m', q, i, j) = children_from rows (d ∷ found) c.id k in
                let parent =
                  all_of_mem (λ (s : Row). HasParent rows s.user_id s.parent_id) m' owned.1 in
                let (x, mx, ix, ux) = of_parent c' p c'.parent_id q parent in
                let x_mine = mine x mx (subst (λ y. Has y (d ∷ found)) (sym ix) j) in
                let twins = keyed_same c' c rows m' mc i owned.0 in
                subst (λ (y : Row). y.user_id ≡ user) twins (sym ux ∙ x_mine))
              r m g
      ]

  -- What is left has its parent left.
  mem_kept :
      (ids : List ℕ) (x : Row) (part : List Row)
      → Memᴰ x part
      → has_id x.id ids ≡ false
      → Memᴰ x (remove_ids ids part)
  unfolding select
  mem_kept ids x [] m n = elim m [ ]
  mem_kept ids x (r ∷ part) (Memᴰ.head e) n =
      let stays : has_id r.id ids ≡ false = subst (λ (y : Row). has_id y.id ids ≡ false) e n in
      rw (stays, select) (Memᴰ.head e)
  mem_kept ids x (r ∷ part) (Memᴰ.tail m) n = elim (Bool-cases (has_id r.id ids)) [
    | inl e ↦ rw (e, select) (mem_kept ids x part m n)
    | inr e ↦ rw (e, select) (Memᴰ.tail (mem_kept ids x part m n))
  ]

  module _ (n : ℕ) (found ids : List ℕ) (ends : descendants n rows found ≡ some ids) where
    parent_kept :
        (r : Row) (o : Option ℕ)
        → r.parent_id ≡ o
        → Memᴰ r rows
        → has_id r.id ids ≡ false
        → HasParent rows r.user_id o
        → HasParent (remove_ids ids rows) r.user_id o
    parent_kept r none e m stays h = tt
    parent_kept r (some p) e m stays (x, mx, i, u) = elim (Bool-cases (has_id x.id ids)) [
      | inr f ↦ (x, mem_kept ids x rows mx f, i, u)
      | inl f ↦
          let child : is_child_of p r ≡ true = rw e (ground arith) in
          let marked = closed rows n found ids r p ends m child (subst (λ y. Has y ids) i f) in
          absurd (no_both marked stays)
    ]

    kept_parents :
        (part : List Row)
        → ((x : Row) → Memᴰ x part → Memᴰ x rows)
        → All (λ (r : Row). HasParent rows r.user_id r.parent_id) part
        → All
            (λ (r : Row). HasParent (remove_ids ids rows) r.user_id r.parent_id)
            (remove_ids ids part)
    unfolding select
    kept_parents [] sub h = tt
    kept_parents (r ∷ part) sub (here, h) =
        let rest = kept_parents part (λ x m. sub x (Memᴰ.tail m)) h in
        elim (Bool-cases (has_id r.id ids)) [
          | inl e ↦ rw (e, select) rest
          | inr e ↦
              rw (e, select) (parent_kept r r.parent_id refl (sub r (Memᴰ.head refl)) e here, rest)
        ]

    any_kept :
        (p : Row → Bool) (part : List Row)
        → any p part ≡ false
        → any p (remove_ids ids part) ≡ false
    unfolding select
    any_kept p [] h = refl
    any_kept p (r ∷ part) h = elim (Bool-cases (p r)) [
      | inl f ↦ absurd (let h' = rw (f, any) at h in ground arith)
      | inr f ↦ elim (Bool-cases (has_id r.id ids)) [
        | inl e ↦ rw (e, select) (any_kept p part (sym (any_skip p r part f) ∙ h))
        | inr e ↦ rw (e, select, f) (any_kept p part (sym (any_skip p r part f) ∙ h))
      ]
    ]

    keyed_kept : (part : List Row) → is_keyed part ≡ true → is_keyed (remove_ids ids part) ≡ true
    unfolding select is_keyed
    keyed_kept [] k = refl
    keyed_kept (r ∷ part) k =
        let (fresh, rest) = split_and _ (is_keyed part) k in
        elim (Bool-cases (has_id r.id ids)) [
          | inl e ↦ rw (e, select) (keyed_kept part rest)
          | inr e ↦
              let fresh' = any_kept (λ (x : Row). x.id == r.id) part (not-true _ fresh) in
              rw (e, select, fresh') (keyed_kept part rest)
        ]

    module _ (other : ℕ) (differ : user ≢ other) where
      others_kept :
          (part : List Row)
          → ((r : Row) → Memᴰ r part → Has r.id ids → r.user_id ≡ user)
          → rows_of other (remove_ids ids part) ≡ rows_of other part
      unfolding select
      others_kept [] mine = refl
      others_kept (r ∷ part) mine =
          let rest = others_kept part (λ x m. mine x (Memᴰ.tail m)) in
          elim (Bool-cases (has_id r.id ids)) [
            | inl e ↦
                rw (e, select, differs user other differ r.user_id (mine r (Memᴰ.head refl) e)) rest
            | inr e ↦ rw (e, select) (ap (λ l. if r.user_id == other then r ∷ l else l) rest)
          ]

      -- `DELETE` with what is below.
      pub remove-Keeps :
          ((r : Row) → Memᴰ r rows → Has r.id found → r.user_id ≡ user)
          → Keeps other rows (remove_ids ids rows)
      remove-Keeps mine = (
        (keyed_kept rows owned.0, kept_parents rows (λ x m. m) owned.1),
        others_kept rows (query_owned n found ids ends mine),
      )
