-- ===== src/Files/Service/Owned.antt =====
-- Who owns the rows of `file_entries`: the statements of backend/crates/file_metadata/src/service.rs keep
-- every row below a row of its user, and leave the rows of other users as they are.
use mathlib.Core.List.{Memᴰ}
use mathlib.Core.Path.{subst}
use pcos.Prelude.{
  ℕ, ◌≡◌, ◌≢◌, inl, inr, refl, sym, ap, ◌∙◌, arith, List, [], ◌∷◌, ◌++◌, Option, none, some, Bool,
  true, false, not, ◌&&◌, ◌==◌, ==_iff, if◌then◌else◌, all, All, Bool-cases,
}
use pcos.Prelude.Members.{any_of_mem}
use pcos.Common.Result.{ok}
use pcos.Files.Table.{Row, is_unique, is_keyed, fits, commit, select, update_where}
use pcos.Files.Service.Twin.{mem_update}

-- The parent, if there is one, is a row of the user.
abbrev pub HasParent : List Row → ℕ → Option ℕ → Type 0
HasParent rows user none = Unit
HasParent rows user (some p) = (x : Row) × Memᴰ x rows × (x.id ≡ p) × (x.user_id ≡ user)

-- Identifiers are unique, and every row has its parent among the rows of its user.
abbrev pub IsOwned : List Row → Type 0
IsOwned rows = (is_keyed rows ≡ true) × All (λ (r : Row). HasParent rows r.user_id r.parent_id) rows

abbrev pub rows_of : ℕ → List Row → List Row
rows_of user rows = select (λ r. r.user_id == user) rows

-- The rows after a statement of a user, for another user.
abbrev pub Keeps : ℕ → List Row → List Row → Type 0
Keeps other before after = IsOwned after × (rows_of other after ≡ rows_of other before)

pub no_both : {b : Bool} → b ≡ true → b ≡ false → ⊥
no_both h k = let same : true ≡ false = sym h ∙ k in ground arith

pub split_and : (a b : Bool) → a && b ≡ true → (a ≡ true) × (b ≡ true)
split_and true b h = (refl, h)
split_and false b h = absurd (ground arith)

pub not-true : (b : Bool) → not b ≡ true → b ≡ false
not-true true h = absurd (ground arith)
not-true false h = refl

-- A row is determined by its identifier.
pub keyed_same :
    (a b : Row) (rows : List Row)
    → Memᴰ a rows
    → Memᴰ b rows
    → a.id ≡ b.id
    → is_keyed rows ≡ true
    → a ≡ b
unfolding is_keyed
keyed_same a b [] ma mb i k = elim ma [ ]
keyed_same a b (r ∷ rows) (Memᴰ.head e) (Memᴰ.head f) i k = e ∙ sym f
keyed_same a b (r ∷ rows) (Memᴰ.head e) (Memᴰ.tail mb) i k =
    let (fresh, rest) = split_and _ (is_keyed rows) k in
    let twin : (b.id == r.id) ≡ true = (==_iff b.id r.id).1 (sym i ∙ ap (λ (x : Row). x.id) e) in
    absurd (no_both (any_of_mem (λ (x : Row). x.id == r.id) mb twin) (not-true _ fresh))
keyed_same a b (r ∷ rows) (Memᴰ.tail ma) (Memᴰ.head f) i k =
    let (fresh, rest) = split_and _ (is_keyed rows) k in
    let twin : (a.id == r.id) ≡ true = (==_iff a.id r.id).1 (i ∙ ap (λ (x : Row). x.id) f) in
    absurd (no_both (any_of_mem (λ (x : Row). x.id == r.id) ma twin) (not-true _ fresh))
keyed_same a b (r ∷ rows) (Memᴰ.tail ma) (Memᴰ.tail mb) i k =
    let (fresh, rest) = split_and _ (is_keyed rows) k in keyed_same a b rows ma mb i rest

pub commit_ok :
    (rows after : List Row) → commit rows ≡ ok after → (rows ≡ after) × (is_keyed rows ≡ true)
unfolding commit
commit_ok rows after h = elim (Bool-cases (is_unique rows && is_keyed rows && all fits rows)) [
  | inl e ↦
      let (both, f) = split_and (is_unique rows && is_keyed rows) (all fits rows) e in
      let (u, k) = split_and (is_unique rows) (is_keyed rows) both in (same (rw e at h), k)
  | inr e ↦ absurd (let h' = rw e at h in ground arith)
]
  where
    same : ok rows ≡ ok after → rows ≡ after
    same h = cc

-- More rows keep a parent.
mem_left : (x : Row) (front back : List Row) → Memᴰ x front → Memᴰ x (front ++ back)
mem_left x [] back m = elim m [ ]
mem_left x (r ∷ front) back (Memᴰ.head e) = Memᴰ.head e
mem_left x (r ∷ front) back (Memᴰ.tail m) = Memᴰ.tail (mem_left x front back m)

parent_left :
    (front back : List Row) (user : ℕ) (o : Option ℕ)
    → HasParent front user o
    → HasParent (front ++ back) user o
parent_left front back user none h = tt
parent_left front back user (some p) (x, m, i, u) = (x, mem_left x front back m, i, u)

append_parents :
    (rows part : List Row) (r : Row)
    → All (λ (x : Row). HasParent rows x.user_id x.parent_id) part
    → HasParent rows r.user_id r.parent_id
    → All (λ (x : Row). HasParent (rows ++ r ∷ []) x.user_id x.parent_id) (part ++ r ∷ [])
append_parents rows [] r h p = (parent_left rows (r ∷ []) r.user_id r.parent_id p, tt)
append_parents rows (x ∷ part) r (here, h) p =
    (parent_left rows (r ∷ []) x.user_id x.parent_id here, append_parents rows part r h p)

module _ (user other : ℕ) (differ : user ≢ other) where
  pub differs : (u : ℕ) → u ≡ user → (u == other) ≡ false
  differs u e = elim (Bool-cases (u == other)) [
    | inr f ↦ f
    | inl f ↦ absurd (differ (sym e ∙ (==_iff u other).0 f))
  ]

  others_append :
      (rows : List Row) (r : Row)
      → r.user_id ≡ user
      → rows_of other (rows ++ r ∷ []) ≡ rows_of other rows
  unfolding select
  others_append [] r u = rw (differs r.user_id u) refl
  others_append (s ∷ rows) r u =
      ap (λ l. if s.user_id == other then s ∷ l else l) (others_append rows r u)

  -- `INSERT`.
  pub insert-Keeps :
      (rows : List Row) (r : Row)
      → IsOwned rows
      → is_keyed (rows ++ r ∷ []) ≡ true
      → r.user_id ≡ user
      → HasParent rows r.user_id r.parent_id
      → Keeps other rows (rows ++ r ∷ [])
  insert-Keeps rows r (k, owned) k' u p =
      ((k', append_parents rows rows r owned p), others_append rows r u)

  parent_update :
      (test : Row → Bool) (f : Row → Row) (rows : List Row) (u : ℕ) (o : Option ℕ)
      → ((x : Row) → (f x).id ≡ x.id)
      → ((x : Row) → (f x).user_id ≡ x.user_id)
      → HasParent rows u o
      → HasParent (update_where test f rows) u o
  parent_update test f rows u none ids users h = tt
  parent_update test f rows u (some p) ids users (x, m, i, w) = elim (Bool-cases (test x)) [
    | inl e ↦ (
      f x,
      subst (λ b. Memᴰ (if b then f x else x) (update_where test f rows)) e
          (mem_update test f x rows m),
      ids x ∙ i,
      users x ∙ w,
    )
    | inr e ↦ (
      x,
      subst (λ b. Memᴰ (if b then f x else x) (update_where test f rows)) e
          (mem_update test f x rows m),
      i,
      w,
    )
  ]

  update_parents :
      (test : Row → Bool) (f : Row → Row) (rows part : List Row)
      → ((x : Row) → (f x).id ≡ x.id)
      → ((x : Row) → (f x).user_id ≡ x.user_id)
      → ((x : Row)
          → Memᴰ x part
          → test x ≡ true
          → HasParent rows x.user_id x.parent_id
          → HasParent rows (f x).user_id (f x).parent_id)
      → All (λ (x : Row). HasParent rows x.user_id x.parent_id) part
      → All
          (λ (x : Row). HasParent (update_where test f rows) x.user_id x.parent_id)
          (update_where test f part)
  unfolding update_where
  update_parents test f rows [] ids users keeps h = tt
  update_parents test f rows (x ∷ part) ids users keeps (here, h) =
      let rest = update_parents test f rows part ids users (λ y m. keeps y (Memᴰ.tail m)) h in
      elim (Bool-cases (test x)) [
        | inl e ↦ rw e (
          parent_update test f rows (f x).user_id (f x).parent_id ids users
              (keeps x (Memᴰ.head refl) e here),
          rest,
        )
        | inr e ↦ rw e (parent_update test f rows x.user_id x.parent_id ids users here, rest)
      ]

  others_update :
      (test : Row → Bool) (f : Row → Row) (rows : List Row)
      → ((x : Row) → (f x).user_id ≡ x.user_id)
      → ((x : Row) → Memᴰ x rows → test x ≡ true → x.user_id ≡ user)
      → rows_of other (update_where test f rows) ≡ rows_of other rows
  unfolding select update_where
  others_update test f [] users mine = refl
  others_update test f (x ∷ rows) users mine =
      let rest = others_update test f rows users (λ y m. mine y (Memᴰ.tail m)) in
      elim (Bool-cases (test x)) [
        | inl e ↦
            let u = mine x (Memᴰ.head refl) e in
            let first = differs x.user_id u in
            let second = differs (f x).user_id (users x ∙ u) in rw (e, second, first) rest
        | inr e ↦ rw (e, select) (ap (λ l. if x.user_id == other then x ∷ l else l) rest)
      ]

  -- `UPDATE`.
  pub update-Keeps :
      (test : Row → Bool) (f : Row → Row) (rows : List Row)
      → IsOwned rows
      → is_keyed (update_where test f rows) ≡ true
      → ((x : Row) → (f x).id ≡ x.id)
      → ((x : Row) → (f x).user_id ≡ x.user_id)
      → ((x : Row)
          → Memᴰ x rows
          → test x ≡ true
          → HasParent rows x.user_id x.parent_id
          → HasParent rows (f x).user_id (f x).parent_id)
      → ((x : Row) → Memᴰ x rows → test x ≡ true → x.user_id ≡ user)
      → Keeps other rows (update_where test f rows)
  update-Keeps test f rows (k, owned) k' ids users keeps mine = (
    (k', update_parents test f rows rows ids users keeps owned),
    others_update test f rows users mine,
  )
