-- ===== src/Auth/Recovery.antt =====
-- Recovery phrases: backend/crates/auth/src/recovery.rs. The list of words (bip39_english.txt) is an argument,
-- and so are the 16 random bytes of a new phrase, SHA-256, the tables of Unicode and the hashing of
-- passwords.
pub mod Once
mod Examples
use pcos.Prelude.{
  ℕ, zero, suc, ◌+◌, ◌-◌, ◌*◌, ◌/◌, ◌%◌, ◌^◌, List, [], ◌∷◌, ◌++◌, Option, none, some, Bool, true,
  false, not, ◌&&◌, leb, ltb, ◌==◌, if◌then◌else◌, length, take, drop, get_or, replicate, map, Text,
  codes, text_eq, trim, is_whitespace, utf8,
}
use pcos.Common.Digest.{Hasher, digest}
use pcos.Common.Error.{AppError, internal, not_found, unauthorized, validation}
use pcos.Common.Result.{AppResult, ok, err, ◌>>=◌, ◌>>◌}
use pcos.Common.Validation.{Unicode, validate_password}
use pcos.Auth.{User, RefreshToken, RecoveryKey, Accounts, find_user, update_user, revoke_where}
use pcos.Auth.Service.{Services, or_internal, has_email}

-- `split_whitespace`.
abbrev add_char : ℕ → List Text → List Text
add_char c [] = (c ∷ []) ∷ []
add_char c (w ∷ ws) = (c ∷ w) ∷ ws

-- The words, the first of which goes on, and is empty at a white space.
unfoldable pub split_all : Text → List Text
split_all [] = [] ∷ []
split_all (c ∷ t) = if is_whitespace c then [] ∷ split_all t else add_char c (split_all t)

unfoldable pub drop_empty : List Text → List Text
drop_empty [] = []
drop_empty ([] ∷ ws) = drop_empty ws
drop_empty ((c ∷ w) ∷ ws) = (c ∷ w) ∷ drop_empty ws

unfoldable pub split_whitespace : Text → List Text
split_whitespace t = drop_empty (split_all t)

-- `get_word_map`: the number of a word, the last one where it stands twice.
unfoldable pub word_index : ℕ → List Text → Text → Option ℕ
word_index i [] w = none
word_index i (v ∷ vs) w = elim (word_index (i + 1) vs w) [
  | some j ↦ some j
  | none ↦ if text_eq v w then some i else none
]

-- `hash[0] >> 4`, the first hexadecimal digit of a digest.
abbrev pub hex_value : ℕ → ℕ
hex_value d = if leb d b'9' then d - b'0' else d - b'a' + 10

abbrev pub first_digit : Text → ℕ
first_digit [] = 0
first_digit (d ∷ t) = hex_value d

-- `words[i]` with single blanks between them.
unfoldable pub join : List Text → Text
join [] = []
join (w ∷ []) = w
join (w ∷ v ∷ ws) = w ++ codes " " ++ join (v ∷ ws)

-- The bit buffer, a `u32`, and the number of bits in it that are still to come.
pub record Bits : Type 0 where
  pub bit_buffer : ℕ
  pub bit_count : ℕ

abbrev pub shift_in : ℕ → ℕ → Bits → Bits
shift_in n value b = record {
  bit_buffer = b.bit_buffer * 2 ^ n % 2 ^ 32 + value;
  bit_count = b.bit_count + n;
}

-- `while bit_count >= n { push((bit_buffer >> (bit_count - n)) & mask) … }`; each turn takes `n` bits, so
-- their number is fuel enough.
unfoldable pub take_bits : ℕ → ℕ → Bits → List ℕ × Bits
take_bits n zero b = ([], b)
take_bits n (suc fuel) b =
    let (rest, left) = take_bits n fuel (record b { bit_count = b.bit_count - n }) in
    if leb n b.bit_count
    then (b.bit_buffer / 2 ^ (b.bit_count - n) % 2 ^ n ∷ rest, left)
    else ([], b)

unfoldable pub regroup : ℕ → ℕ → List ℕ → Bits → List ℕ × Bits
regroup m n [] b = ([], b)
regroup m n (v ∷ vs) b =
    let b' = shift_in m v b in
    let (pushed, left) = take_bits n b'.bit_count b' in
    let (rest, final) = regroup m n vs left in (pushed ++ rest, final)

abbrev pub no_bits : Bits
no_bits = record { bit_buffer = 0; bit_count = 0 }

module _ (x : Services) (words : List Text) where
  -- The checksum of 16 bytes.
  abbrev pub checksum : List ℕ → ℕ
  checksum entropy = first_digit (digest x.sha256 entropy)

  -- The twelve numbers of words: eleven out of the bytes, and the last with the checksum.
  unfoldable pub word_numbers : List ℕ → List ℕ
  word_numbers entropy =
      let (indices, left) = regroup 8 11 entropy no_bits in
      indices ++ (shift_in 4 (checksum entropy) left).bit_buffer % 2 ^ 11 ∷ []

  unfoldable pub generate_bip39_phrase : List ℕ → Text
  generate_bip39_phrase entropy = join (map (λ i. get_or words i []) (word_numbers entropy))

  unfoldable pub lookup_all : List Text → Option (List ℕ)
  lookup_all [] = some []
  lookup_all (w ∷ ws) = elim (word_index 0 words (x.unicode.to_lowercase w)) [
    | none ↦ none
    | some i ↦ elim (lookup_all ws) [ none ↦ none | some is ↦ some (i ∷ is) ]
  ]

  -- The bytes that twelve numbers stand for, and the checksum that comes with them. The array has 16
  -- bytes, of which the last is set at the end.
  unfoldable pub read_numbers : List ℕ → List ℕ × ℕ
  read_numbers indices =
      let (bytes, left) = regroup 11 8 (take 11 indices) no_bits in
      let last = shift_in 11 (get_or indices 11 0) left in
      (
        take 15 (bytes ++ replicate 16 0) ++ last.bit_buffer / 2 ^ 4 % 2 ^ 8 ∷ [],
        last.bit_buffer % 2 ^ 4,
      )

  unfoldable pub check_numbers : Option (List ℕ) → AppResult (Unit {0})
  check_numbers none = err (validation "Unknown word in BIP-39 mnemonic phrase")
  check_numbers (some indices) =
      let (entropy, provided) = read_numbers indices in
      if provided == checksum entropy
      then ok tt
      else err
          (validation "BIP-39 checksum verification failed: invalid or mistyped recovery phrase")

  unfoldable pub validate_bip39_phrase : Text → AppResult (Unit {0})
  validate_bip39_phrase phrase =
      if length (split_whitespace phrase) == 12
      then check_numbers (lookup_all (split_whitespace phrase))
      else err (validation "Mnemonic phrase must consist of exactly 12 words")

  unfoldable pub hash_phrase : Text → Text
  hash_phrase phrase = digest x.sha256 (utf8 (x.unicode.to_lowercase (trim phrase)))

  -- `generate_recovery_phrase`, with the new identifier. The answer is the phrase.
  unfoldable pub generate_recovery_phrase : List ℕ → Text → ℕ → Accounts → Text × Accounts
  generate_recovery_phrase entropy key_id user s =
      let phrase = generate_bip39_phrase entropy in
      (
        phrase,
        record s {
          recovery_keys =
              s.recovery_keys
              ++ record {
                id = key_id;
                user_id = user;
                recovery_hash = hash_phrase phrase;
                is_used = false;
              }
                ∷ [];
        },
      )

  pub record VerifyRecoveryRequest : Type 0 where
    pub email : Text
    pub recovery_phrase : Option Text
    pub recovery_key : Option Text
    pub new_password : Text

  abbrev pub given_phrase : Option Text → Option Text → AppResult Text
  given_phrase (some phrase) key = ok phrase
  given_phrase none (some key) = ok key
  given_phrase none none = err (validation "recovery_phrase or recovery_key required")

  -- Only a phrase of twelve words is checked against the list.
  unfoldable pub check_phrase : Text → AppResult (Unit {0})
  check_phrase phrase =
      if length (split_whitespace phrase) == 12 then validate_bip39_phrase phrase else ok tt

  abbrev pub is_key : ℕ → Text → RecoveryKey → Bool
  is_key user hash k = k.user_id == user && text_eq k.recovery_hash hash && not k.is_used

  unfoldable pub find_key : (RecoveryKey → Bool) → List RecoveryKey → Option RecoveryKey
  find_key p [] = none
  find_key p (k ∷ ks) = if p k then some k else find_key p ks

  unfoldable pub use_key : Text → List RecoveryKey → List RecoveryKey
  use_key id [] = []
  use_key id (k ∷ ks) = (if text_eq k.id id then record k { is_used = true } else k) ∷ use_key id ks

  pub record Recovery : Type 0 where
    pub user : User
    pub key : RecoveryKey
    pub new_hash : Text

  unfoldable pub check_recovery : VerifyRecoveryRequest → Accounts → AppResult Recovery
  check_recovery req s = do
    validate_password x.unicode req.new_password
    phrase ← given_phrase req.recovery_phrase req.recovery_key
    check_phrase phrase
    user ←
        or_internal (not_found "User not found")
          (find_user (has_email (x.unicode.to_lowercase (trim req.email))) s.users)
    key ←
        or_internal (unauthorized "Invalid or already consumed recovery phrase")
          (find_key (is_key user.id (hash_phrase phrase)) s.recovery_keys)
    hash ← or_internal (internal "Password hashing failed") (x.hash_password req.new_password)
    ok (record { user = user; key = key; new_hash = hash })

  abbrev pub token_of_user : ℕ → RefreshToken → Bool
  token_of_user user t = t.user_id == user

  unfoldable pub verify_recovery_phrase :
      VerifyRecoveryRequest → Accounts → AppResult (Unit {0}) × Accounts
  verify_recovery_phrase req s = elim (check_recovery req s) [
    | err e ↦ (err e, s)
    | ok r ↦ (
      ok tt,
      record s {
        users = update_user r.user.id (λ u. record u { password_hash = r.new_hash }) s.users;
        recovery_keys = use_key r.key.id s.recovery_keys;
        tokens = revoke_where (token_of_user r.user.id) s.tokens;
      },
    )
  ]
