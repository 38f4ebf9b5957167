-- ===== src/Prelude/Sorting.antt =====
-- The stable sort of the standard library by a test, and the order of texts by code points, which is that of
-- their bytes.
use mathlib.Core.Path.{◌≡◌, refl, sym, ◌∙◌}
use mathlib.Core.Logic.{◌⊎◌, inl, inr}
use mathlib.Core.Bool.{Bool, true, false}
use mathlib.Core.List.{List, [], ◌∷◌, Perm}
use mathlib.Core.List.Perm
use native.Mathlib.Omega.{arith}
use pcos.Prelude.Tests.{ltb, ◌==◌, if◌then◌else◌, Bool-cases}
use pcos.Prelude.Texts.{Text}

abbrev pub text_le : Text → Text → Bool
text_le [] b = true
text_le (c ∷ a) [] = false
text_le (c ∷ a) (d ∷ b) = if ltb c d then true else if c == d then text_le a b else false

-- A stable sort: an entry goes before the first that it is not behind.
abbrev pub insert_by {ℓ} : {A : Type ℓ} → (A → A → Bool) → A → List A → List A
insert_by le a [] = a ∷ []
insert_by le a (b ∷ rest) = if le a b then a ∷ b ∷ rest else b ∷ insert_by le a rest

abbrev pub sort_by {ℓ} : {A : Type ℓ} → (A → A → Bool) → List A → List A
sort_by le [] = []
sort_by le (a ∷ rest) = insert_by le a (sort_by le rest)

module _ {ℓ} {A : Type ℓ} (le : A → A → Bool) where
  -- Each element may stand before the next one.
  abbrev pub IsSorted : List A → Type 0
  IsSorted [] = Unit
  IsSorted (a ∷ []) = Unit
  IsSorted (a ∷ b ∷ rest) = (le a b ≡ true) × IsSorted (b ∷ rest)

  insert-Perm : (a : A) (xs : List A) → Perm (insert_by le a xs) (a ∷ xs)
  insert-Perm a [] = Perm.refl (a ∷ [])
  insert-Perm a (b ∷ rest) = elim (Bool-cases (le a b)) [
    | inl e ↦ rw e (Perm.refl (a ∷ b ∷ rest))
    | inr e ↦ rw e (Perm.trans (Perm.cons b (insert-Perm a rest)) (Perm.swap a b rest))
  ]

  pub sort-Perm : (xs : List A) → Perm (sort_by le xs) xs
  sort-Perm [] = Perm.refl []
  sort-Perm (a ∷ rest) = Perm.trans (insert-Perm a (sort_by le rest)) (Perm.cons a (sort-Perm rest))

  other :
      ((a b : A) → (le a b ≡ true) ⊎ (le b a ≡ true)) → (a b : A) → le a b ≡ false → le b a ≡ true
  other total a b n = elim (total a b) [
    | inl y ↦ let same : true ≡ false = sym y ∙ n in absurd (ground arith)
    | inr y ↦ y
  ]

  insert-IsSorted :
      ((a b : A) → (le a b ≡ true) ⊎ (le b a ≡ true))
      → (a : A) (xs : List A) → IsSorted xs
      → IsSorted (insert_by le a xs)
  insert-IsSorted total a [] h = tt
  insert-IsSorted total a (b ∷ []) h = elim (Bool-cases (le a b)) [
    | inl e ↦ rw e (e, tt)
    | inr e ↦ rw e (other total a b e, tt)
  ]
  insert-IsSorted total a (b ∷ c ∷ rest) (ok, h) = elim (Bool-cases (le a b)) [
    | inl e ↦ rw e (e, (ok, h))
    | inr e ↦ elim (Bool-cases (le a c)) [
      | inl f ↦
          let h' = rw f at (insert-IsSorted total a (c ∷ rest) h) in
          rw (e, f) (other total a b e, h')
      | inr f ↦ let h' = rw f at (insert-IsSorted total a (c ∷ rest) h) in rw (e, f) (ok, h')
    ]
  ]

module _ {ℓ} {A : Type ℓ} (le : A → A → Bool) where
  pub sort-IsSorted :
      ((a b : A) → (le a b ≡ true) ⊎ (le b a ≡ true)) → (xs : List A) → IsSorted le (sort_by le xs)
  sort-IsSorted total [] = tt
  sort-IsSorted total (a ∷ rest) =
      insert-IsSorted le total a (sort_by le rest) (sort-IsSorted total rest)

pub text_le_total : (a b : Text) → (text_le a b ≡ true) ⊎ (text_le b a ≡ true)
text_le_total [] b = inl refl
text_le_total (c ∷ a) [] = inr refl
text_le_total (c ∷ a) (d ∷ b) = elim (text_le_total a b) [
  | inl h ↦ ground (arith, h)
  | inr h ↦ ground (arith, h)
]
