-- ===== src/Files/Service/Subtree.antt =====
-- The recursive query `descendants` of backend/crates/file_metadata/src/service.rs against what it means: the
-- rows that can be reached from an item by going from parent to child.
use mathlib.Core.List.{Memᴰ}
use mathlib.Core.Path.{subst}
use pcos.Prelude.{
  ℕ, zero, suc, ◌≡◌, ◌⊎◌, ◌↔◌, inl, inr, refl, sym, ap, arith, List, [], ◌∷◌, ◌++◌, Option, none,
  some, Bool, true, Bool-cases,
}
use pcos.Files.Table.{Row, has_id, select, ids_of, is_child_of, children, joined, descendants}

abbrev pub Has : ℕ → List ℕ → Type 0
Has item ids = has_id item ids ≡ true

Has-skip : (x y : ℕ) (ids : List ℕ) → Has x ids → Has x (y ∷ ids)
Has-skip x y ids h = ground (arith, h)

pub Has-head : (x : ℕ) (ids : List ℕ) → Has x (x ∷ ids)
Has-head x ids = ground arith

pub Has-cases : (x y : ℕ) (ids : List ℕ) → Has x (y ∷ ids) → (y ≡ x) ⊎ Has x ids
Has-cases x y ids h = ground (arith, h)

pub Has-left : (x : ℕ) (xs ys : List ℕ) → Has x xs → Has x (xs ++ ys)
Has-left x [] ys h = absurd (ground arith)
Has-left x (a ∷ xs) ys h = elim (Has-cases x a xs h) [
  | inl e ↦ subst (λ y. Has x (y ∷ (xs ++ ys))) (sym e) (Has-head x (xs ++ ys))
  | inr t ↦ Has-skip x a (xs ++ ys) (Has-left x xs ys t)
]

pub Has-right : (x : ℕ) (xs ys : List ℕ) → Has x ys → Has x (xs ++ ys)
Has-right x [] ys h = h
Has-right x (a ∷ xs) ys h = Has-skip x a (xs ++ ys) (Has-right x xs ys h)

pub Has-append : (x : ℕ) (xs ys : List ℕ) → Has x (xs ++ ys) → Has x xs ⊎ Has x ys
Has-append x [] ys h = inr h
Has-append x (a ∷ xs) ys h = elim (Has-cases x a (xs ++ ys) h) [
  | inl e ↦ inl (subst (λ y. Has x (y ∷ xs)) (sym e) (Has-head x xs))
  | inr t ↦ elim (Has-append x xs ys t) [ inl u ↦ inl (Has-skip x a xs u) | inr u ↦ inr u ]
]

select-Has :
    (test : Row → Bool) (r : Row) (rows : List Row)
    → Memᴰ r rows
    → test r ≡ true
    → Has r.id (ids_of (select test rows))
unfolding select
select-Has test r [] m h = elim m [ ]
select-Has test r (s ∷ rows) (Memᴰ.head e) h =
    let here : test s ≡ true = subst (λ x. test x ≡ true) e h in
    rw here (
      subst (λ x. Has x (s.id ∷ ids_of (select test rows))) (sym (ap (λ (x : Row). x.id) e))
        (Has-head s.id (ids_of (select test rows))))
select-Has test r (s ∷ rows) (Memᴰ.tail m) h = elim (Bool-cases (test s)) [
  | inl e ↦ rw e (Has-skip r.id s.id (ids_of (select test rows)) (select-Has test r rows m h))
  | inr e ↦ rw e (select-Has test r rows m h)
]

pub select_from :
    (test : Row → Bool) (c : ℕ) (rows : List Row)
    → Has c (ids_of (select test rows))
    → (r : Row) × Memᴰ r rows × (test r ≡ true) × (r.id ≡ c)
unfolding select
select_from test c [] h = absurd (ground arith)
select_from test c (s ∷ rows) h = elim (Bool-cases (test s)) [
  | inl e ↦ elim (Has-cases c s.id (ids_of (select test rows)) (rw e at h)) [
    | inl same ↦ (s, Memᴰ.head refl, e, same)
    | inr t ↦ let (r, m, q, i) = select_from test c rows t in (r, Memᴰ.tail m, q, i)
  ]
  | inr e ↦ let (r, m, q, i) = select_from test c rows (rw e at h) in (r, Memᴰ.tail m, q, i)
]

pub children-Has :
    (rows : List Row) (found : List ℕ) (r : Row) (p : ℕ)
    → Memᴰ r rows
    → is_child_of p r ≡ true
    → Has p found
    → Has r.id (children rows found)
unfolding children
children-Has rows [] r p m c h = absurd (ground arith)
children-Has rows (d ∷ found) r p m c h = elim (Has-cases p d found h) [
  | inl e ↦
      Has-left r.id (ids_of (select (is_child_of d) rows)) (children rows found)
        (select-Has (is_child_of d) r rows m (subst (λ x. is_child_of x r ≡ true) (sym e) c))
  | inr t ↦
      Has-right r.id (ids_of (select (is_child_of d) rows)) (children rows found)
        (children-Has rows found r p m c t)
]

pub children_from :
    (rows : List Row) (found : List ℕ) (c : ℕ)
    → Has c (children rows found)
    → (r : Row) × (p : ℕ) × Memᴰ r rows × (is_child_of p r ≡ true) × (r.id ≡ c) × Has p found
unfolding children
children_from rows [] c h = absurd (ground arith)
children_from rows (d ∷ found) c h =
    elim (Has-append c (ids_of (select (is_child_of d) rows)) (children rows found) h) [
      | inl t ↦
          let (r, m, q, i) = select_from (is_child_of d) c rows t in
          (r, d, m, q, i, Has-head d found)
      | inr t ↦
          let (r, p, m, q, i, f) = children_from rows found c t in
          (r, p, m, q, i, Has-skip p d found f)
    ]

-- What is below an item: the item, and what has its parent there.
pub data Below (rows : List Row) (item : ℕ) : ℕ → Type 0 where
  itself : Below rows item item
  under :
      (r : Row) (p : ℕ)
      → Memᴰ r rows
      → is_child_of p r ≡ true
      → Below rows item p
      → Below rows item r.id

module _ (rows : List Row) where
  pub joined-some :
      (found ids : List ℕ) (o : Option (List ℕ))
      → joined found o ≡ some ids
      → (rest : List ℕ) × (o ≡ some rest) × (found ++ rest ≡ ids)
  joined-some found ids none h = absurd (ground arith)
  joined-some found ids (some rest) h = (rest, refl, cc)

  pub contains_found :
      (n : ℕ) (found ids : List ℕ) (x : ℕ)
      → descendants n rows found ≡ some ids
      → Has x found
      → Has x ids
  unfolding descendants
  contains_found n [] ids x h f = absurd (ground arith)
  contains_found zero (d ∷ found) ids x h f = absurd (ground arith)
  contains_found (suc n) (d ∷ found) ids x h f =
      let (rest, e, same) =
        joined-some (d ∷ found) ids (descendants n rows (children rows (d ∷ found))) h in
      subst (Has x) same (Has-left x (d ∷ found) rest f)

  pub closed :
      (n : ℕ) (found ids : List ℕ) (r : Row) (p : ℕ)
      → descendants n rows found ≡ some ids
      → Memᴰ r rows
      → is_child_of p r ≡ true
      → Has p ids
      → Has r.id ids
  unfolding descendants
  closed n [] ids r p h m c f =
      let same : [] ≡ ids = cc in absurd (let f' = subst (Has p) (sym same) f in ground arith)
  closed zero (d ∷ found) ids r p h m c f = absurd (ground arith)
  closed (suc n) (d ∷ found) ids r p h m c f =
      let (rest, e, same) =
        joined-some (d ∷ found) ids (descendants n rows (children rows (d ∷ found))) h in
      let below : Has r.id rest =
        elim (Has-append p (d ∷ found) rest (subst (Has p) (sym same) f)) [
          | inl g ↦
              contains_found n (children rows (d ∷ found)) rest r.id e
                (children-Has rows (d ∷ found) r p m c g)
          | inr g ↦ closed n (children rows (d ∷ found)) rest r p e m c g
        ] in
      subst (Has r.id) same (Has-right r.id (d ∷ found) rest below)

  all-Below :
      (item n : ℕ) (found ids : List ℕ)
      → descendants n rows found ≡ some ids
      → ((x : ℕ) → Has x found → Below rows item x)
      → (x : ℕ) → Has x ids
      → Below rows item x
  unfolding descendants
  all-Below item n [] ids h reach x f =
      let same : [] ≡ ids = cc in absurd (let f' = subst (Has x) (sym same) f in ground arith)
  all-Below item zero (d ∷ found) ids h reach x f = absurd (ground arith)
  all-Below item (suc n) (d ∷ found) ids h reach x f =
      let (rest, e, same) =
        joined-some (d ∷ found) ids (descendants n rows (children rows (d ∷ found))) h in
      elim (Has-append x (d ∷ found) rest (subst (Has x) (sym same) f)) [
        | inl g ↦ reach x g
        | inr g ↦
            all-Below item n (children rows (d ∷ found)) rest e
              (λ c k.
                let (r, p, m, q, i, j) = children_from rows (d ∷ found) c k in
                subst (Below rows item) i (under r p m q (reach p j)))
              x g
      ]

  Below-found :
      (item n : ℕ) (ids : List ℕ)
      → descendants n rows (item ∷ []) ≡ some ids
      → (x : ℕ) → Below rows item x
      → Has x ids
  Below-found item n ids h x itself = contains_found n (item ∷ []) ids item h (Has-head item [])
  Below-found item n ids h x (under r p m c b) =
      closed n (item ∷ []) ids r p h m c (Below-found item n ids h p b)

  -- The query finds what is below the item and nothing else.
  pub descendants_exact :
      (item n : ℕ) (ids : List ℕ)
      → descendants n rows (item ∷ []) ≡ some ids
      → (x : ℕ) → Has x ids ↔ Below rows item x
  descendants_exact item n ids h x = (
    all-Below item n (item ∷ []) ids h
        (λ y f. elim (Has-cases y item [] f) [
          | inl e ↦ subst (Below rows item) e itself
          | inr t ↦ absurd (ground arith)
        ])
        x,
    Below-found item n ids h x,
  )
