-- ===== src/Common/Validation.antt =====
-- The checks on passwords, names and addresses: backend/crates/common/src/auth/validation.rs. The tables of
-- Unicode that `char::is_uppercase`, `is_lowercase` and `str::to_lowercase` read are the record `Unicode`.
pub mod Names
mod Examples
use pcos.Prelude.{
  ℕ, suc, ◌+◌, List, [], ◌∷◌, ◌++◌, Bool, true, false, not, ◌&&◌, ◌||◌, ltb, leb, ◌==◌,
  if◌then◌else◌, length, any, Text, codes, text_eq, is_empty, trim, contains, utf8,
}
use pcos.Common.Error.{validation}
use pcos.Common.Result.{AppResult, ok, err, ◌>>=◌, ◌>>◌, reject_if}

pub record Unicode : Type 0 where
  pub is_uppercase : ℕ → Bool
  pub is_lowercase : ℕ → Bool
  pub to_lowercase : Text → Text

-- `str::len`: the number of bytes.
abbrev pub byte_length : Text → ℕ
byte_length t = length (utf8 t)

abbrev pub is_ascii_digit : ℕ → Bool
is_ascii_digit c = leb b'0' c && leb c b'9'

-- `char::is_control`, the category Cc.
abbrev pub is_control : ℕ → Bool
is_control c = leb c 0x1f || (leb 0x7f c && leb c 0x9f)

unfoldable pub validate_password : Unicode → Text → AppResult (Unit {0})
validate_password u password = do
  reject_if (ltb (byte_length password) 8) (validation "Password must be at least 8 characters")
  reject_if (ltb 128 (byte_length password)) (validation "Password must be at most 128 characters")
  reject_if (not (any u.is_uppercase password))
      (validation "Password must contain at least one uppercase letter")
  reject_if (not (any u.is_lowercase password))
      (validation "Password must contain at least one lowercase letter")
  reject_if (not (any is_ascii_digit password))
      (validation "Password must contain at least one digit")

unfoldable pub sanitize_filename : Text → AppResult Text
sanitize_filename name = do
  reject_if (is_empty (trim name)) (validation "Name cannot be empty")
  reject_if (ltb 255 (byte_length (trim name))) (validation "Name cannot exceed 255 characters")
  reject_if (any (λ c. c == 0) (trim name)) (validation "Name cannot contain null bytes")
  reject_if
      (contains (trim name) (codes "..")
        || any (λ c. c == b'/') (trim name)
        || any (λ c. c == 92) (trim name))
      (validation "Name cannot contain path separators or '..'")
  reject_if (text_eq (trim name) (codes ".") || text_eq (trim name) (codes ".."))
      (validation "Invalid name")
  reject_if (any is_control (trim name)) (validation "Name cannot contain control characters")
  ok (trim name)

unfoldable pub count_at : Text → ℕ
count_at [] = 0
count_at (c ∷ t) = (if c == b'@' then 1 else 0) + count_at t

-- The parts before and after the first `@`; there is one when they are read.
unfoldable pub before_at : Text → Text
before_at [] = []
before_at (c ∷ t) = if c == b'@' then [] else c ∷ before_at t

unfoldable pub after_at : Text → Text
after_at [] = []
after_at (c ∷ t) = if c == b'@' then t else after_at t

unfoldable pub validate_email : Text → AppResult (Unit {0})
validate_email email = do
  reject_if (ltb (byte_length (trim email)) 5 || ltb 254 (byte_length (trim email)))
      (validation "Invalid email address")
  reject_if (not (count_at (trim email) == 1)) (validation "Invalid email address")
  reject_if
      (is_empty (before_at (trim email))
        || is_empty (after_at (trim email))
        || not (any (λ c. c == b'.') (after_at (trim email))))
      (validation "Invalid email address")
