-- ===== src/Auth/Mfa/Examples.antt =====
-- Two-factor authentication at a concrete account.
use pcos.Prelude.{
  take, drop, get_or, ◌%◌, ◌^◌, ◌<◌, All-replicate, arith, ℕ, ◌≡◌, ◌⊎◌, ◌↔◌, refl, [], ◌∷◌, none,
  some, true, false, All, replicate, codes,
}
use pcos.Auth.{User, Accounts}
use pcos.Auth.Mfa.{
  Sha1, emit, base32_encode_loop, base32_encode, base32_decode_loop, base32_decode, hmac_sha1,
  decimal, six_digits, to_be_bytes, totp_code, compute_totp, verify_totp,
}
use pcos.Auth.Mfa.Truncation.{IsSixDigits, big_endian}
use pcos.Auth.Mfa.Codes.{verify_totp_lem}

All-seven : All (λ b. b < 256) (replicate 20 7)
All-seven = All-replicate (λ b. b < 256) 20 7 (omega arith)

-- A digest that is the same for all bytes.
abbrev constant : Sha1
constant = record {
  digest = λ bytes. replicate 20 7;
  length-digest = λ bytes. refl;
  digest-IsByte = λ bytes. All-seven;
}

encodes : base32_encode (0 ∷ 68 ∷ []) ≡ codes "ABCA"
unfolding base32_encode base32_encode_loop emit
encodes = refl

decodes : base32_decode (codes "abca") ≡ some (0 ∷ 68 ∷ [])
unfolding base32_decode base32_decode_loop
decodes = refl

verify_totp_lem_example :
    ((verify_totp constant 60 (codes "abca") (codes "901063") ≡ true) ↔ (
      (codes "901063" ≡ totp_code constant (0 ∷ 68 ∷ []) 2)
      ⊎ (codes "901063" ≡ totp_code constant (0 ∷ 68 ∷ []) 1)
      ⊎ (codes "901063" ≡ totp_code constant (0 ∷ 68 ∷ []) 3)))
    × ((s : ℕ)
        → let hash = hmac_sha1 constant (0 ∷ 68 ∷ []) (to_be_bytes s) in
          IsSixDigits
            (totp_code constant (0 ∷ 68 ∷ []) s)
            (big_endian (take 4 (drop (get_or hash 19 0 % 16) hash)) % 2 ^ 31 % 1000000))
verify_totp_lem_example =
    verify_totp_lem constant 60 (codes "abca") (codes "901063") (0 ∷ 68 ∷ []) decodes

abbrev user : User
user = record {
  id = 1;
  email = codes "a@b.c";
  display_name = codes "a";
  password_hash = [];
  role = codes "user";
  is_active = true;
  totp_enabled = false;
  totp_secret = none;
}

abbrev accounts : Accounts
accounts = record { users = user ∷ []; tokens = []; recovery_keys = []; audit_log = [] }

good : verify_totp constant 60 (base32_encode (0 ∷ 68 ∷ [])) (codes "901063") ≡ true
unfolding verify_totp compute_totp totp_code decimal six_digits hmac_sha1 base32_decode
    base32_decode_loop base32_encode base32_encode_loop emit
good = refl
