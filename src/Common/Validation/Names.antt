-- ===== src/Common/Validation/Names.antt =====
-- What a name that passes `sanitize_filename` is.
use mathlib.Core.Path.{subst}
use pcos.Prelude.{
  ℕ, ◌≤◌, ◌≡◌, ◌≢◌, refl, sym, ◌∙◌, [], ◌∷◌, Bool, true, false, ◌||◌, ltb, ◌==◌, arith, any,
  any_skip, All, Text, codes, text_eq, is_empty, trim, contains, Bool-cases, inl, inr,
}
use pcos.Common.Error.{AppError}
use pcos.Common.Result.{ok, ◌>>◌, reject_if, ok_injective}
use pcos.Common.Validation.{byte_length, is_control, sanitize_filename}

-- The checks in a row: all have passed.
six_passed :
    (a b c d e f : Bool) (u v w x y z : AppError) (t r : Text)
    → (reject_if a u
        >> (reject_if b v
            >> (reject_if c w >> (reject_if d x >> (reject_if e y >> (reject_if f z >> ok t))))))
      ≡ ok r
    → (a ≡ false) × (b ≡ false) × (c ≡ false) × (d ≡ false) × (e ≡ false) × (f ≡ false) × (t ≡ r)
six_passed true b c d e f u v w x y z t r h = absurd (ground arith)
six_passed false true c d e f u v w x y z t r h = absurd (ground arith)
six_passed false false true d e f u v w x y z t r h = absurd (ground arith)
six_passed false false false true e f u v w x y z t r h = absurd (ground arith)
six_passed false false false false true f u v w x y z t r h = absurd (ground arith)
six_passed false false false false false true u v w x y z t r h = absurd (ground arith)
six_passed false false false false false false u v w x y z t r h =
    (refl, refl, refl, refl, refl, refl, ok_injective h)

none_of : (p : ℕ → Bool) (t : Text) → any p t ≡ false → All (λ c. p c ≡ false) t
none_of p [] h = tt
none_of p (c ∷ t) h = elim (Bool-cases (p c)) [
  | inl e ↦ absurd (ground arith)
  | inr e ↦ (e, none_of p t (sym (any_skip p c t e) ∙ h))
]

or_false : (a b : Bool) → (a || b) ≡ false → (a ≡ false) × (b ≡ false)
or_false true b h = absurd (ground arith)
or_false false b h = (refl, h)

or_false3 : (a b c : Bool) → (a || b || c) ≡ false → (a ≡ false) × (b ≡ false) × (c ≡ false)
or_false3 true b c h = absurd (ground arith)
or_false3 false true c h = absurd (ground arith)
or_false3 false false c h = (refl, refl, h)

-- A character that a name may have.
abbrev pub IsNameChar : ℕ → Type 0
IsNameChar c = (c ≢ b'/') × (c ≢ 92) × (c ≢ 0) × (is_control c ≡ false)

name_chars :
    (t : Text)
    → any (λ c. c == b'/') t ≡ false
    → any (λ c. c == 92) t ≡ false
    → any (λ c. c == 0) t ≡ false
    → any is_control t ≡ false
    → All IsNameChar t
name_chars [] a b c d = tt
name_chars (x ∷ t) a b c d =
    let a' = none_of (λ c. c == b'/') (x ∷ t) a in
    let b' = none_of (λ c. c == 92) (x ∷ t) b in
    let c' = none_of (λ c. c == 0) (x ∷ t) c in
    let d' = none_of is_control (x ∷ t) d in
    (
      (ground (arith, a'.0), ground (arith, b'.0), ground (arith, c'.0), d'.0),
      name_chars t (ground arith) (ground arith) (ground arith) (ground arith),
    )

-- A name that `sanitize_filename` accepts is one path component: it is the name given without its outer
-- white space, has 1 to 255 bytes, no separator, no null and no control character, and nowhere two
-- dots in a row; and it is not `.`.
pub sanitize_filename_safe :
    (name r : Text)
    → sanitize_filename name ≡ ok r
    → (r ≡ trim name)
      × (is_empty r ≡ false)
      × (byte_length r ≤ 255)
      × All IsNameChar r
      × (contains r (codes "..") ≡ false)
      × (text_eq r (codes ".") ≡ false)
unfolding sanitize_filename
sanitize_filename_safe name r h =
    let (a, b, c, d, e, f, same) =
      six_passed (is_empty (trim name)) (ltb 255 (byte_length (trim name)))
        (any (λ c. c == 0) (trim name))
        (contains (trim name) (codes "..")
          || any (λ c. c == b'/') (trim name)
          || any (λ c. c == 92) (trim name))
        (text_eq (trim name) (codes ".") || text_eq (trim name) (codes ".."))
        (any is_control (trim name)) _ _ _ _ _ _ (trim name) r h in
    let (dots, slash, backslash) = or_false3 _ _ _ d in
    let (dot, two_dots) = or_false _ _ e in
    subst
      (λ x.
        (x ≡ trim name)
        × (is_empty x ≡ false)
        × (byte_length x ≤ 255)
        × All IsNameChar x
        × (contains x (codes "..") ≡ false)
        × (text_eq x (codes ".") ≡ false))
      same (refl, a, ground (arith, b), name_chars (trim name) slash backslash c f, dots, dot)
