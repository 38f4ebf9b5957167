-- ===== src/Auth/Mfa/Codes.antt =====
-- Which codes are accepted, and how two-factor authentication is switched on and off.
use pcos.Prelude.{
  ℕ, ◌+◌, ◌-◌, ◌/◌, ◌%◌, ◌^◌, ◌≡◌, ◌⊎◌, ◌↔◌, refl, sym, List, [], ◌∷◌, none, some, true, false,
  arith, any, take, drop, get_or, Text, text_eq, text_eq_iff, Bool-cases, inl, inr, ==_iff,
}
use pcos.Common.Result.{ok}
use pcos.Auth.{User, Accounts, find_user, update_user}
use pcos.Auth.Users.{find_user-update, find_user-passes}
use pcos.Auth.Mfa.Truncation.{IsSixDigits, big_endian, totp_code_lem}
use pcos.Auth.Mfa.{
  hmac_sha1, to_be_bytes, Sha1, base32_encode, base32_decode, totp_code, compute_totp, verify_totp,
  with_id, setup_totp, check_code, check_verify, verify_totp_setup, check_disable, disable_totp,
}

one_of_three :
    (a b c code : Text)
    → (any (λ t. text_eq t code) (a ∷ b ∷ c ∷ []) ≡ true) ↔ ((code ≡ a) ⊎ (code ≡ b) ⊎ (code ≡ c))
one_of_three a b c code = (
  λ h. elim (Bool-cases (text_eq a code)) [
    | inl e ↦ inl (sym ((text_eq_iff a code).0 e))
    | inr e ↦ elim (Bool-cases (text_eq b code)) [
      | inl e' ↦ inr (inl (sym ((text_eq_iff b code).0 e')))
      | inr e' ↦ inr (inr (sym ((text_eq_iff c code).0 (ground arith))))
    ]
  ],
  λ h. elim h [
    | inl e ↦ let t = (text_eq_iff a code).1 (sym e) in ground arith
    | inr (inl e) ↦ let t = (text_eq_iff b code).1 (sym e) in ground arith
    | inr (inr e) ↦ let t = (text_eq_iff c code).1 (sym e) in ground arith
  ],
)

module _ (sha1 : Sha1) where
  -- Which codes are accepted: for a secret that decodes, `verify_totp` accepts exactly the codes of the
  -- present time step, of the one before and of the one after. The code of a step is the dynamic truncation
  -- of its authentication code: six decimal digits that write, modulo 10^6, the low 31 bits of the four
  -- bytes in it from the place that the low 4 bits of its last byte say.
  pub verify_totp_lem :
      (now : ℕ) (secret code : Text) (key : List ℕ)
      → base32_decode secret ≡ some key
      → let step = now / 30 in
        ((verify_totp sha1 now secret code ≡ true) ↔ (
          (code ≡ totp_code sha1 key step)
          ⊎ (code ≡ totp_code sha1 key ((step + 2 ^ 64 - 1) % 2 ^ 64))
          ⊎ (code ≡ totp_code sha1 key ((step + 1) % 2 ^ 64))))
        × ((s : ℕ)
            → let hash = hmac_sha1 sha1 key (to_be_bytes s) in
              IsSixDigits
                (totp_code sha1 key s)
                (big_endian (take 4 (drop (get_or hash 19 0 % 16) hash)) % 2 ^ 31 % 1000000))
  unfolding verify_totp compute_totp
  verify_totp_lem now secret code key decoded =
      rw (decoded, compute_totp, verify_totp) (one_of_three _ _ _ code, totp_code_lem sha1 key)

  -- Two-factor authentication from its setup to its end. A user who has it off and sets it up has it
  -- off until a code of the new secret comes to `verify_totp_setup`; then it is on, with that secret, and
  -- `setup_totp` is refused; and a code of the secret that comes to `disable_totp` switches it off and
  -- removes the secret.
  pub mfa_lifecycle :
      (bytes more : List ℕ) (user now later : ℕ) (code code' : Text) (s : Accounts) (u : User)
      → find_user (with_id sha1 user) s.users ≡ some u
      → u.totp_enabled ≡ false
      → verify_totp sha1 now (base32_encode bytes) code ≡ true
      → verify_totp sha1 later (base32_encode bytes) code' ≡ true
      → let secret = base32_encode bytes in
        let s1 = (setup_totp sha1 bytes user s).1 in
        let s2 = (verify_totp_setup sha1 now user code s1).1 in
        let s3 = (disable_totp sha1 later user code' s2).1 in
        (find_user (with_id sha1 user) s1.users ≡ some (record u { totp_secret = some secret }))
        × (find_user (with_id sha1 user) s2.users
            ≡ some (record u { totp_secret = some secret; totp_enabled = true }))
        × ((setup_totp sha1 more user s2).1 ≡ s2)
        × (find_user (with_id sha1 user) s3.users
            ≡ some (record u { totp_secret = none; totp_enabled = false }))
  unfolding setup_totp verify_totp_setup check_verify check_code disable_totp check_disable
  mfa_lifecycle bytes more user now later code code' s u found off good good' =
      let secret = base32_encode bytes in
      let mine : u.id ≡ user =
        (==_iff u.id user).0 (find_user-passes (with_id sha1 user) s.users u found) in
      let set = λ (v : User). record v { totp_secret = some secret } in
      let on = λ (v : User). record v { totp_enabled = true } in
      let clear = λ (v : User). record v { totp_enabled = false; totp_secret = none } in
      let s1 : Accounts = record s { users = update_user user set s.users } in
      let s2 : Accounts = record s1 { users = update_user user on s1.users } in
      let s3 : Accounts = record s2 { users = update_user user clear s2.users } in
      let f1 = find_user-update (with_id sha1 user) user set s.users u (λ v. refl) mine found in
      let f2 = find_user-update (with_id sha1 user) user on s1.users (set u) (λ v. refl) mine f1 in
      let f3 =
        find_user-update (with_id sha1 user) user clear s2.users (on (set u)) (λ v. refl) mine f2 in
      let e1 : setup_totp sha1 bytes user s ≡ (ok secret, s1) = rw (found, setup_totp, off) refl in
      let e2 : verify_totp_setup sha1 now user code s1 ≡ (ok tt, s2) =
        rw (f1, verify_totp_setup, check_verify, good) refl in
      let e3 : disable_totp sha1 later user code' s2 ≡ (ok tt, s3) =
        rw (f2, disable_totp, check_disable, good') refl in
      let again : (setup_totp sha1 more user s2).1 ≡ s2 = rw (f2, setup_totp) refl in
      rw e1 (rw e2 (rw e3 (f1, f2, again, f3)))
