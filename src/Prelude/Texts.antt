-- ===== src/Prelude/Texts.antt =====
-- Text as a list of code points, and the operations of `str` that the program calls: trimming,
-- prefix, suffix and containment tests, comparison.
use Prim.Native.Char.{code}
use Prim.Native.String.{String}
use Prim.Native.Nat.{ℕ, ◌+◌, ◌/◌, ◌%◌}
use mathlib.Core.Path.{◌≡◌, refl, ap}
use mathlib.Core.Logic.{◌↔◌, ◌≢◌}
use mathlib.Core.Bool.{Bool, true, false, ◌&&◌, ◌||◌}
use mathlib.Core.List.{List, [], ◌∷◌, ◌++◌}
use native.Mathlib.Omega.{arith}
use pcos.Prelude.Tests.{leb, ltb, ◌==◌, if◌then◌else◌}
use pcos.Prelude.Lists.{All}

abbrev pub Text : Type 0
Text = List ℕ

-- A literal.
abbrev pub codes : String → Text
codes String.[] = []
codes (String.◌∷◌ c s) = code c ∷ codes s

abbrev pub text_eq : Text → Text → Bool
text_eq [] [] = true
text_eq [] (d ∷ t) = false
text_eq (c ∷ s) [] = false
text_eq (c ∷ s) (d ∷ t) = elim (c == d) [ true ↦ text_eq s t | false ↦ false ]

pub text_eq_iff : (s t : Text) → (text_eq s t ≡ true) ↔ (s ≡ t)
text_eq_iff [] [] = ground arith
text_eq_iff [] (d ∷ t) = ground arith
text_eq_iff (c ∷ s) [] = ground arith
text_eq_iff (c ∷ s) (d ∷ t) = ground (arith, text_eq_iff s t)

pub text_eq_self : (s : Text) → text_eq s s ≡ true
text_eq_self s = (text_eq_iff s s).1 refl

-- `char::is_whitespace`, the property White_Space.
unfoldable pub is_whitespace : ℕ → Bool
is_whitespace c =
    (leb 9 c && leb c 13)
    || (c == 32)
    || (c == 0x85)
    || (c == 0xa0)
    || (c == 0x1680)
    || (leb 0x2000 c && leb c 0x200a)
    || (c == 0x2028)
    || (c == 0x2029)
    || (c == 0x202f)
    || (c == 0x205f)
    || (c == 0x3000)

-- `trim_start_matches` and `trim_end_matches` with a test on characters.
unfoldable pub trim_start_by : (ℕ → Bool) → Text → Text
trim_start_by p [] = []
trim_start_by p (c ∷ s) = if p c then trim_start_by p s else c ∷ s

abbrev keep_end : (ℕ → Bool) → ℕ → Text → Text
keep_end p c [] = if p c then [] else c ∷ []
keep_end p c (d ∷ s) = c ∷ d ∷ s

unfoldable pub trim_end_by : (ℕ → Bool) → Text → Text
trim_end_by p [] = []
trim_end_by p (c ∷ s) = keep_end p c (trim_end_by p s)

unfoldable pub trim : Text → Text
trim s = trim_end_by is_whitespace (trim_start_by is_whitespace s)

abbrev pub is_empty : Text → Bool
is_empty [] = true
is_empty (c ∷ s) = false

-- `starts_with s prefix`, `ends_with s suffix`, `contains s part`.
abbrev pub starts_with : Text → Text → Bool
starts_with s [] = true
starts_with [] (d ∷ t) = false
starts_with (c ∷ s) (d ∷ t) = elim (c == d) [ true ↦ starts_with s t | false ↦ false ]

abbrev pub ends_with : Text → Text → Bool
ends_with [] t = text_eq [] t
ends_with (c ∷ s) t = text_eq (c ∷ s) t || ends_with s t

abbrev pub contains : Text → Text → Bool
contains [] t = starts_with [] t
contains (c ∷ s) t = starts_with (c ∷ s) t || contains s t

-- `prefix` begins `s`, with the rest.
pub starts_with-append : (s t : Text) → starts_with (s ++ t) s ≡ true
starts_with-append [] [] = refl
starts_with-append [] (d ∷ t) = refl
starts_with-append (c ∷ s) t = ground (arith, starts_with-append s t)

pub starts_with_split : (s t : Text) → starts_with s t ≡ true → (r : Text) × (s ≡ t ++ r)
starts_with_split s [] h = (s, refl)
starts_with_split [] (d ∷ t) h = ground arith
starts_with_split (c ∷ s) (d ∷ t) h =
    let (r, e) = starts_with_split s t (ground arith) in (r, ground arith)

-- Nothing is trimmed from a text with no character to trim.
pub trim_start_by_none :
    (p : ℕ → Bool) (s : Text) → All (λ c. p c ≡ false) s → trim_start_by p s ≡ s
unfolding trim_start_by
trim_start_by_none p [] h = refl
trim_start_by_none p (c ∷ s) h = ground (arith, h.0)

pub trim_end_by_none : (p : ℕ → Bool) (s : Text) → All (λ c. p c ≡ false) s → trim_end_by p s ≡ s
unfolding trim_end_by
trim_end_by_none p [] h = refl
trim_end_by_none p (c ∷ []) h = ground (arith, h.0)
trim_end_by_none p (c ∷ d ∷ s) h = ap (keep_end p c) (trim_end_by_none p (d ∷ s) h.1)

pub trim_none : (s : Text) → All (λ c. is_whitespace c ≡ false) s → trim s ≡ s
unfolding trim
trim_none s h = rw (trim_start_by_none is_whitespace s h) (trim_end_by_none is_whitespace s h)

-- `eq_ignore_ascii_case`.
abbrev pub to_ascii_lowercase : ℕ → ℕ
to_ascii_lowercase c = if leb b'A' c && leb c b'Z' then c + 32 else c

abbrev pub eq_ignore_ascii_case : Text → Text → Bool
eq_ignore_ascii_case [] [] = true
eq_ignore_ascii_case [] (d ∷ t) = false
eq_ignore_ascii_case (c ∷ s) [] = false
eq_ignore_ascii_case (c ∷ s) (d ∷ t) = elim (to_ascii_lowercase c == to_ascii_lowercase d) [
  | true ↦ eq_ignore_ascii_case s t
  | false ↦ false
]

-- The UTF-8 bytes of a text, as `as_bytes` gives them and `len` counts them.
unfoldable pub utf8_char : ℕ → List ℕ
utf8_char c =
    if ltb c 0x80
    then c ∷ []
    else if ltb c 0x800
    then (0xc0 + c / 0x40) ∷ (0x80 + c % 0x40) ∷ []
    else if ltb c 0x10000
    then (0xe0 + c / 0x1000) ∷ (0x80 + c / 0x40 % 0x40) ∷ (0x80 + c % 0x40) ∷ []
    else (0xf0 + c / 0x40000)
      ∷ (0x80 + c / 0x1000 % 0x40)
      ∷ (0x80 + c / 0x40 % 0x40)
      ∷ (0x80 + c % 0x40)
      ∷ []

unfoldable pub utf8 : Text → List ℕ
utf8 [] = []
utf8 (c ∷ t) = utf8_char c ++ utf8 t

-- Two literals that the test tells apart.
pub text_ne : (s t : Text) → text_eq s t ≡ false → ◌≢◌ s t
text_ne s t h e = let same = (text_eq_iff s t).1 e in ground arith

pub text_eq_ne : (s t : Text) → ◌≢◌ s t → text_eq s t ≡ false
text_eq_ne s t h = decided (text_eq s t) refl
  where
    decided : (b : Bool) → text_eq s t ≡ b → b ≡ false
    decided true e = absurd (h ((text_eq_iff s t).0 e))
    decided false e = refl
