-- ===== src/Auth/Recovery/Once.antt =====
-- A recovery phrase is used once, and ends the user's sessions.
use pcos.Prelude.{
  trim, ℕ, ◌≡◌, ◌≢◌, ◌⊎◌, refl, List, [], ◌∷◌, none, some, true, false, ◌==◌, arith, All, Text,
  text_eq, text_eq_iff, Bool-cases, inl, inr,
}
use pcos.Common.Error.{unauthorized}
use pcos.Common.Result.{ok, err}
use pcos.Common.Validation.{validate_password}
use pcos.Auth.{User, RefreshToken, RecoveryKey, Accounts, find_user, update_user, revoke_where}
use pcos.Auth.Users.{find_user-update}
use pcos.Auth.Service.{Services, has_email}
use pcos.Auth.Recovery.{
  VerifyRecoveryRequest, given_phrase, check_phrase, hash_phrase, is_key, find_key, use_key,
  check_recovery, token_of_user, verify_recovery_phrase,
}

abbrev pub IsRevoked : ℕ → RefreshToken → Type 0
IsRevoked user t = (t.user_id ≢ user) ⊎ (t.revoked ≡ true)

revoke_where-IsRevoked :
    (user : ℕ) (ts : List RefreshToken)
    → All (IsRevoked user) (revoke_where (λ t. t.user_id == user) ts)
unfolding revoke_where
revoke_where-IsRevoked user [] = tt
revoke_where-IsRevoked user (t ∷ ts) = elim (Bool-cases (t.user_id == user)) [
  | inl e ↦ rw e (inr refl, revoke_where-IsRevoked user ts)
  | inr e ↦ rw e (inl (λ same. ground arith), revoke_where-IsRevoked user ts)
]

module _ (x : Services) (words : List Text) where
  -- The keys of a user with a hash are one key.
  abbrev pub IsOneKey : ℕ → Text → Text → RecoveryKey → Type 0
  IsOneKey user hash id k = k.user_id ≡ user → k.recovery_hash ≡ hash → k.id ≡ id

  find_key-use_key :
      (user : ℕ) (hash id : Text) (ks : List RecoveryKey)
      → All (IsOneKey user hash id) ks
      → find_key x words (is_key x words user hash) (use_key x words id ks) ≡ none
  unfolding find_key use_key
  find_key-use_key user hash id [] h = refl
  find_key-use_key user hash id (k ∷ ks) h =
      let rest = find_key-use_key user hash id ks h.1 in
      elim (Bool-cases (text_eq k.id id)) [
        | inl e ↦
            let used : is_key x words user hash (record k { is_used = true }) ≡ false =
              ground arith in
            rw (e, used) rest
        | inr e ↦
            let other : is_key x words user hash k ≡ false =
              ground (arith, (text_eq_iff k.recovery_hash hash).0, (text_eq_iff k.id id).1, h.0) in
            rw (e, other) rest
      ]

  -- A recovery phrase is used once, and ends the sessions. Where `verify_recovery_phrase` accepts a
  -- request, and the user has no other key with the phrase's hash, the account's password hash is the
  -- new one, every refresh token of the account is revoked, and the same request again is refused and
  -- changes nothing.
  pub recovery_once :
      (req : VerifyRecoveryRequest x words) (s : Accounts) (phrase : Text) (user : User)
      (key : RecoveryKey) (hash : Text)
      → validate_password x.unicode req.new_password ≡ ok tt
      → given_phrase x words req.recovery_phrase req.recovery_key ≡ ok phrase
      → check_phrase x words phrase ≡ ok tt
      → find_user (has_email (x.unicode.to_lowercase (trim req.email))) s.users ≡ some user
      → find_key x words (is_key x words user.id (hash_phrase x words phrase)) s.recovery_keys
        ≡ some key
      → x.hash_password req.new_password ≡ some hash
      → All (IsOneKey user.id (hash_phrase x words phrase) key.id) s.recovery_keys
      → let s' = (verify_recovery_phrase x words req s).1 in
        ((verify_recovery_phrase x words req s).0 ≡ ok tt)
        × (find_user (has_email (x.unicode.to_lowercase (trim req.email))) s'.users
            ≡ some (record user { password_hash = hash }))
        × All (IsRevoked user.id) s'.tokens
        × (verify_recovery_phrase x words req s'
            ≡ (err (unauthorized "Invalid or already consumed recovery phrase"), s'))
  unfolding verify_recovery_phrase check_recovery
  recovery_once req s phrase user key hash strong given checked found keyed hashed one =
      let email = x.unicode.to_lowercase (trim req.email) in
      let user' : User = record user { password_hash = hash } in
      let s' : Accounts = record s {
        users = update_user user.id (λ u. record u { password_hash = hash }) s.users;
        recovery_keys = use_key x words key.id s.recovery_keys;
        tokens = revoke_where (token_of_user x words user.id) s.tokens;
      } in
      let check : check_recovery x words req s
          ≡ ok (record { user = user; key = key; new_hash = hash }) =
        rw (strong, check_recovery, given, checked, found, keyed, hashed) refl in
      let first : verify_recovery_phrase x words req s ≡ (ok tt, s') =
        rw (check, verify_recovery_phrase) refl in
      let found' =
        find_user-update (has_email email) user.id (λ u. record u { password_hash = hash }) s.users
          user (λ v. refl) refl found in
      let gone = find_key-use_key user.id (hash_phrase x words phrase) key.id s.recovery_keys one in
      let second : check_recovery x words req s'
          ≡ err (unauthorized "Invalid or already consumed recovery phrase") =
        rw (strong, check_recovery, given, checked, found', gone) refl in
      rw first (
        refl,
        found',
        revoke_where-IsRevoked user.id s.tokens,
        rw (second, verify_recovery_phrase) refl,
      )
