-- ===== src/Prelude/Members.antt =====
-- Members of lists, as values of the family `Memᴰ`, for the Boolean tests of the program.
use mathlib.Core.List.{Memᴰ}
use mathlib.Core.Path.{◌≡◌, refl, sym, subst}
use mathlib.Core.Bool.{Bool, true}
use mathlib.Core.Logic.{inl, inr}
use mathlib.Core.List.{List, [], ◌∷◌}
use native.Mathlib.Omega.{arith}
use pcos.Prelude.Tests.{Bool-cases}
use pcos.Prelude.Lists.{All, any}

module _ {ℓ} {A : Type ℓ} where
  pub mem_of_any :
      (p : A → Bool) (xs : List A) → any p xs ≡ true → (x : A) × Memᴰ x xs × (p x ≡ true)
  mem_of_any p [] e = cc
  mem_of_any p (x ∷ xs) e = elim (Bool-cases (p x)) [
    | inl yes_ ↦ (x, Memᴰ.head refl, yes_)
    | inr no_ ↦ let (y, m, q) = mem_of_any p xs (ground (arith, e, no_)) in (y, Memᴰ.tail m, q)
  ]

  pub any_of_mem : (p : A → Bool) {x : A} {xs : List A} → Memᴰ x xs → p x ≡ true → any p xs ≡ true
  any_of_mem p {xs = []} m h = elim m [ ]
  any_of_mem p {xs = y ∷ xs} (Memᴰ.head e) h = ground (arith, e, h)
  any_of_mem p {xs = y ∷ xs} (Memᴰ.tail m) h = ground (arith, any_of_mem p m h)

  pub All-map {κ μ} :
      (P : A → Type κ) (Q : A → Type μ) (xs : List A) → ((x : A) → P x → Q x) → All P xs → All Q xs
  All-map P Q [] f h = tt
  All-map P Q (x ∷ xs) f h = (f x h.0, All-map P Q xs f h.1)

  pub all_of_mem {κ} : (P : A → Type κ) {x : A} {xs : List A} → Memᴰ x xs → All P xs → P x
  all_of_mem P {xs = []} m h = elim m [ ]
  all_of_mem P {xs = y ∷ xs} (Memᴰ.head e) h = subst P (sym e) h.0
  all_of_mem P {xs = y ∷ xs} (Memᴰ.tail m) h = all_of_mem P m h.1
