-- ===== src/Auth/Mfa.antt =====
-- Two-factor authentication: backend/crates/auth/src/mfa.rs. SHA-1 (the sha1_smol crate) is an argument,
-- of which it is assumed that a digest has 20 elements, which are bytes; the bytes of a new secret are an argument.
pub mod Codes
pub mod Truncation
mod Examples
use pcos.Prelude.{
  ℕ, zero, suc, ◌+◌, ◌-◌, ◌*◌, ◌/◌, ◌%◌, ◌^◌, ◌≡◌, List, [], ◌∷◌, ◌++◌, Option, none, some, Bool,
  true, false, not, ltb, leb, ◌==◌, if◌then◌else◌, length, get_or, replicate, map, any, All, ◌<◌,
  Text, codes, text_eq,
}
use pcos.Common.Error.{conflict, internal, unauthorized, validation}
use pcos.Common.Result.{AppResult, ok, err, ◌>>=◌, ◌>>◌, reject_if}
use pcos.Auth.{User, Accounts, find_user, update_user}

pub record Sha1 : Type 0 where
  pub digest : List ℕ → List ℕ
  pub length-digest : (bytes : List ℕ) → length (digest bytes) ≡ 20
  pub digest-IsByte : (bytes : List ℕ) → All (λ b. b < 256) (digest bytes)

-- `ALPHABET[idx]`.
abbrev pub base32_symbol : ℕ → ℕ
base32_symbol idx = if ltb idx 26 then b'A' + idx else b'2' + (idx - 26)

-- `while bits >= 5`: what is pushed, with the bits that are left. Each turn takes 5 bits, so their
-- number is fuel enough.
unfoldable pub emit : ℕ → ℕ → ℕ → Text × ℕ
emit zero buffer bits = ([], bits)
emit (suc fuel) buffer bits =
    let (rest, left) = emit fuel buffer (bits - 5) in
    if leb 5 bits then (base32_symbol (buffer / 2 ^ (bits - 5) % 32) ∷ rest, left) else ([], bits)

-- The buffer is a `u64`: the bits shifted out of it are lost.
unfoldable pub base32_encode_loop : List ℕ → ℕ → ℕ → Text
base32_encode_loop [] buffer bits =
    if ltb 0 bits then base32_symbol (buffer * 2 ^ (5 - bits) % 2 ^ 64 % 32) ∷ [] else []
base32_encode_loop (byte ∷ bytes) buffer bits =
    let buffer' = buffer * 2 ^ 8 % 2 ^ 64 + byte in
    let (pushed, left) = emit (bits + 8) buffer' (bits + 8) in
    pushed ++ base32_encode_loop bytes buffer' left

unfoldable pub base32_encode : List ℕ → Text
base32_encode bytes = base32_encode_loop bytes 0 0

-- `c.to_ascii_uppercase() as u8`, which keeps the low 8 bits of the character.
abbrev pub upper_byte : ℕ → ℕ
upper_byte c = (if leb b'a' c then if leb c b'z' then c - 32 else c else c) % 256

-- `ALPHABET.iter().position(…)`.
abbrev pub base32_value : ℕ → Option ℕ
base32_value b =
    if leb b'A' b
    then if leb b b'Z' then some (b - b'A') else none
    else if leb b'2' b
    then if leb b b'7' then some (b - b'2' + 26) else none
    else none

unfoldable pub base32_decode_loop : Text → ℕ → ℕ → Option (List ℕ)
base32_decode_loop [] buffer bits = some []
base32_decode_loop (c ∷ t) buffer bits = elim (base32_value (upper_byte c)) [
  | none ↦ none
  | some val ↦
      let buffer' = buffer * 2 ^ 5 % 2 ^ 64 + val in
      if leb 8 (bits + 5)
      then elim (base32_decode_loop t buffer' (bits + 5 - 8)) [
        | none ↦ none
        | some rest ↦ some (buffer' / 2 ^ (bits + 5 - 8) % 256 ∷ rest)
      ]
      else base32_decode_loop t buffer' (bits + 5)
]

unfoldable pub base32_decode : Text → Option (List ℕ)
base32_decode s = base32_decode_loop s 0 0

-- `a ^ b` of `n` bits.
unfoldable pub xor_bits : ℕ → ℕ → ℕ → ℕ
xor_bits zero a b = 0
xor_bits (suc n) a b = (a + b) % 2 + 2 * xor_bits n (a / 2) (b / 2)

-- `to_be_bytes` of a `u64`.
abbrev pub to_be_bytes : ℕ → List ℕ
to_be_bytes n = map (λ k. n / 2 ^ (8 * k) % 256) (7 ∷ 6 ∷ 5 ∷ 4 ∷ 3 ∷ 2 ∷ 1 ∷ 0 ∷ [])

-- The decimal digits of a number; a `u32` has at most ten.
unfoldable pub decimal : ℕ → ℕ → Text
decimal zero n = []
decimal (suc fuel) n =
    let front = decimal fuel (n / 10) in
    if ltb n 10 then (b'0' + n) ∷ [] else front ++ (b'0' + n % 10) ∷ []

-- `format!("{:06}", n)`: zeros come before a number of fewer digits, and a longer one stays whole.
unfoldable pub six_digits : ℕ → Text
six_digits n = let digits = decimal 10 n in replicate (6 - length digits) b'0' ++ digits

module _ (sha1 : Sha1) where
  abbrev pub hmac_key : List ℕ → List ℕ
  hmac_key key =
      if ltb 64 (length key)
      then sha1.digest key ++ replicate 44 0
      else key ++ replicate (64 - length key) 0

  unfoldable pub hmac_sha1 : List ℕ → List ℕ → List ℕ
  hmac_sha1 key msg =
      let k = hmac_key key in
      let ipad = map (λ b. xor_bits 8 b 0x36) k in
      let opad = map (λ b. xor_bits 8 b 0x5c) k in sha1.digest (opad ++ sha1.digest (ipad ++ msg))

  unfoldable pub totp_code : List ℕ → ℕ → Text
  totp_code key time_step =
      let hash = hmac_sha1 key (to_be_bytes time_step) in
      let offset = get_or hash 19 0 % 16 in
      let code =
        get_or hash offset 0 % 128 * 2 ^ 24
        + get_or hash (offset + 1) 0 * 2 ^ 16
        + get_or hash (offset + 2) 0 * 2 ^ 8
        + get_or hash (offset + 3) 0 in
      six_digits (code % 1000000)

  unfoldable pub compute_totp : Text → ℕ → Option Text
  compute_totp secret time_step = elim (base32_decode secret) [
    | none ↦ none
    | some key ↦ some (totp_code key time_step)
  ]

  abbrev pub is_code : Text → Option Text → Bool
  is_code code none = false
  is_code code (some expected) = text_eq expected code

  -- The steps of the present, the one before, which wraps at 0, and the one after.
  abbrev pub time_steps : ℕ → List ℕ
  time_steps step = step ∷ (step + 2 ^ 64 - 1) % 2 ^ 64 ∷ (step + 1) % 2 ^ 64 ∷ []

  unfoldable pub verify_totp : ℕ → Text → Text → Bool
  verify_totp now secret code =
      any (λ s. is_code code (compute_totp secret s)) (time_steps (now / 30))

  abbrev pub with_id : ℕ → User → Bool
  with_id id u = u.id == id

  -- `setup_totp`, with the 20 random bytes of `generate_totp_secret`. The answer is the secret.
  unfoldable pub setup_totp : List ℕ → ℕ → Accounts → AppResult Text × Accounts
  setup_totp bytes user s = elim (find_user (with_id user) s.users) [
    | none ↦ (err (internal "no row"), s)
    | some u ↦ if u.totp_enabled then (err (conflict "MFA is already enabled"), s) else (
      ok (base32_encode bytes),
      record s {
        users =
            update_user user (λ x. record x { totp_secret = some (base32_encode bytes) }) s.users;
      },
    )
  ]

  unfoldable pub check_code : ℕ → Option Text → Text → AppResult (Unit {0}) → AppResult (Unit {0})
  check_code now none code absent = absent
  check_code now (some secret) code absent =
      reject_if (not (verify_totp now secret code)) (unauthorized "Invalid TOTP code")

  unfoldable pub check_verify : ℕ → ℕ → Text → Accounts → AppResult (Unit {0})
  check_verify now user code s = elim (find_user (with_id user) s.users) [
    | none ↦ err (internal "no row")
    | some u ↦
        check_code now u.totp_secret code
          (err (validation "TOTP not set up. Call /mfa/setup first"))
  ]

  unfoldable pub verify_totp_setup : ℕ → ℕ → Text → Accounts → AppResult (Unit {0}) × Accounts
  verify_totp_setup now user code s = elim (check_verify now user code s) [
    | err e ↦ (err e, s)
    | ok _ ↦ (
      ok tt,
      record s { users = update_user user (λ x. record x { totp_enabled = true }) s.users },
    )
  ]

  unfoldable pub check_disable : ℕ → ℕ → Text → Accounts → AppResult (Unit {0})
  check_disable now user code s = elim (find_user (with_id user) s.users) [
    | none ↦ err (internal "no row")
    | some u ↦
        reject_if (not u.totp_enabled) (validation "MFA is not enabled")
        >> check_code now u.totp_secret code (err (internal "No TOTP secret"))
  ]

  unfoldable pub disable_totp : ℕ → ℕ → Text → Accounts → AppResult (Unit {0}) × Accounts
  disable_totp now user code s = elim (check_disable now user code s) [
    | err e ↦ (err e, s)
    | ok _ ↦ (
      ok tt,
      record s {
        users =
            update_user user (λ x. record x { totp_enabled = false; totp_secret = none }) s.users;
      },
    )
  ]
