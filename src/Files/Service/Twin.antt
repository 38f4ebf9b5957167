-- ===== src/Files/Service/Twin.antt =====
-- Two items of the same name in the trash: `delete_item` of backend/crates/file_metadata/src/service.rs and the
-- constraint `uq_file_entries_parent_name`.
use mathlib.Core.List.{Memᴰ}
use mathlib.Core.Path.{subst}
use pcos.Prelude.{
  ℕ, ◌≡◌, ◌≢◌, refl, sym, ap, ◌∙◌, arith, List, [], ◌∷◌, Option, none, some, Bool, true, false, not,
  ◌&&◌, ◌==◌, ==_iff, if◌then◌else◌, any, text_eq, text_eq_self,
}
use pcos.Prelude.Members.{any_of_mem}
use pcos.Common.Error.{database}
use pcos.Common.Result.{err}
use pcos.Files.Table.{
  Row, same_parent, same_slot, is_unique, commit, find_row, has_id, update_where, descendants,
}
use pcos.Files.Service.{Store, verify_ownership}
use pcos.Files.Service.Trash.{
  is_marked, into_trash, settle_query, nothing_left, update_below, delete_item,
}
use pcos.Files.Service.Subtree.{Has, Has-head, contains_found}
use pcos.Files.Service.Forest.{find_row_lem}

-- Two rows with different identifiers that stand in one slot.
not_unique :
    (a b : Row) (rows : List Row)
    → Memᴰ a rows
    → Memᴰ b rows
    → a.id ≢ b.id
    → same_slot a b ≡ true
    → same_slot b a ≡ true
    → is_unique rows ≡ false
unfolding is_unique
not_unique a b [] ma mb n ab ba = elim ma [ ]
not_unique a b (r ∷ rows) (Memᴰ.head e) (Memᴰ.head f) n ab ba =
    absurd (n (ap (λ (x : Row). x.id) e ∙ sym (ap (λ (x : Row). x.id) f)))
not_unique a b (r ∷ rows) (Memᴰ.head e) (Memᴰ.tail mb) n ab ba =
    let twin : any (same_slot r) rows ≡ true =
      any_of_mem (same_slot r) mb (subst (λ x. same_slot x b ≡ true) e ab) in
    rw twin refl
not_unique a b (r ∷ rows) (Memᴰ.tail ma) (Memᴰ.head f) n ab ba =
    let twin : any (same_slot r) rows ≡ true =
      any_of_mem (same_slot r) ma (subst (λ x. same_slot x a ≡ true) f ba) in
    rw twin refl
not_unique a b (r ∷ rows) (Memᴰ.tail ma) (Memᴰ.tail mb) n ab ba =
    let rest = not_unique a b rows ma mb n ab ba in
    rw rest (both_false (not (any (same_slot r) rows)))
  where
    both_false : (x : Bool) → x && false ≡ false
    both_false true = refl
    both_false false = refl

pub mem_update :
    (test : Row → Bool) (f : Row → Row) (r : Row) (rows : List Row)
    → Memᴰ r rows
    → Memᴰ (if test r then f r else r) (update_where test f rows)
unfolding update_where
mem_update test f r [] m = elim m [ ]
mem_update test f r (s ∷ rows) (Memᴰ.head e) = Memᴰ.head (ap (λ x. if test x then f x else x) e)
mem_update test f r (s ∷ rows) (Memᴰ.tail m) = Memᴰ.tail (mem_update test f r rows m)

-- Rows of one user, parent and name that are both in the trash.
abbrev pub IsTwin : Row → Row → Type 0
IsTwin a b =
    (a.user_id ≡ b.user_id)
    × (a.parent_id ≡ b.parent_id)
    × (a.name ≡ b.name)
    × (a.is_trashed ≡ true)
    × (b.is_trashed ≡ true)

same_parent_self : (p : Option ℕ) → same_parent p p ≡ true
same_parent_self none = refl
same_parent_self (some p) = ground arith

twin_slot : (a b : Row) → IsTwin a b → same_slot a b ≡ true
twin_slot a b (u, p, n, ta, tb) =
    let users : (a.user_id == b.user_id) ≡ true = (==_iff a.user_id b.user_id).1 u in
    let parents : same_parent a.parent_id b.parent_id ≡ true =
      subst (λ x. same_parent a.parent_id x ≡ true) p (same_parent_self a.parent_id) in
    let names : text_eq a.name b.name ≡ true =
      subst (λ x. text_eq a.name x ≡ true) n (text_eq_self a.name) in
    rw (users, parents, names, ta) tb

-- The trash holds one item of a name. Where the user's item has the parent and the name of another row of the
-- user that is in the trash already, `delete_item` fails with an error of the database and changes nothing,
-- whenever its query ends.
pub second_trash_refused :
    (rounds user item now : ℕ) (s : Store) (r old : Row) (ids : List ℕ)
    → find_row user item s.rows ≡ some r
    → Memᴰ old s.rows
    → r.id ≢ old.id
    → old.user_id ≡ r.user_id
    → old.parent_id ≡ r.parent_id
    → old.name ≡ r.name
    → old.is_trashed ≡ true
    → descendants rounds s.rows (item ∷ []) ≡ some ids
    → delete_item rounds user item now s ≡ some (err (database "constraint"), s)
unfolding delete_item verify_ownership commit
second_trash_refused rounds user item now s r old ids found m n users parents names trashed ends =
    let rows = update_where (is_marked ids) (into_trash now) s.rows in
    let (mr, i, u) = find_row_lem user item s.rows r found in
    let marked : has_id r.id ids ≡ true =
      subst (λ x. Has x ids) (sym i)
        (contains_found s.rows rounds (item ∷ []) ids item ends (Has-head item [])) in
    let mine : Memᴰ (into_trash now r) rows =
      subst (λ b. Memᴰ (if b then into_trash now r else r) rows) marked
        (mem_update (is_marked ids) (into_trash now) r s.rows mr) in
    let clash =
      clashes rows (has_id old.id ids) (mem_update (is_marked ids) (into_trash now) old s.rows m)
        mine in
    let refused : commit rows ≡ err (database "constraint") = rw clash refl in
    rw (delete_item, verify_ownership, found)
      (ap (λ o. settle_query s (nothing_left (update_below (into_trash now) s.rows o))) ends
        ∙ ap (λ c. settle_query s (nothing_left (some c))) refused)
  where
    clashes :
        (rows : List Row) (b : Bool)
        → Memᴰ (if b then into_trash now old else old) rows
        → Memᴰ (into_trash now r) rows
        → is_unique rows ≡ false
    clashes rows true mo mine =
        not_unique (into_trash now r) (into_trash now old) rows mine mo n
          (twin_slot (into_trash now r) (into_trash now old)
            (sym users, sym parents, sym names, refl, refl))
          (twin_slot (into_trash now old) (into_trash now r) (users, parents, names, refl, refl))
    clashes rows false mo mine =
        not_unique (into_trash now r) old rows mine mo n
          (twin_slot (into_trash now r) old (sym users, sym parents, sym names, refl, trashed))
          (twin_slot old (into_trash now r) (users, parents, names, trashed, refl))
