-- ===== src/Common/Validation/Examples.antt =====
-- The check of names at a concrete name.
use pcos.Prelude.{
  ◌≤◌, ◌≡◌, refl, false, All, Text, codes, text_eq, is_empty, trim, trim_start_by, trim_end_by,
  is_whitespace, contains, utf8, utf8_char,
}
use pcos.Common.Result.{ok}
use pcos.Common.Validation.{byte_length, sanitize_filename}
use pcos.Common.Validation.Names.{IsNameChar, sanitize_filename_safe}

abbrev name : Text
name = codes " a.b "

accepted : sanitize_filename name ≡ ok (codes "a.b")
unfolding sanitize_filename trim trim_start_by trim_end_by is_whitespace utf8 utf8_char
accepted = refl

sanitize_filename_safe_example :
    (codes "a.b" ≡ trim name)
    × (is_empty (codes "a.b") ≡ false)
    × (byte_length (codes "a.b") ≤ 255)
    × All IsNameChar (codes "a.b")
    × (contains (codes "a.b") (codes "..") ≡ false)
    × (text_eq (codes "a.b") (codes ".") ≡ false)
sanitize_filename_safe_example = sanitize_filename_safe name (codes "a.b") accepted
