-- ===== src/Auth/Service/Login.antt =====
-- Registration and login.
use mathlib.Core.Path.{subst}
use pcos.Prelude.{
  ℕ, zero, suc, length, ◌≡◌, ◌≢◌, ◌⊎◌, ◌↔◌, refl, sym, ap, ◌∙◌, List, [], ◌∷◌, ◌++◌, Option, none,
  some, Bool, true, false, ◌||◌, arith, All, All-append, Text, codes, text_eq_iff, text_eq_self,
  text_ne, text_eq_ne, any, any_skip, ltb, if◌then◌else◌, is_empty, trim, Bool-cases, Option-cases,
  inl, inr,
}
use pcos.Common.Error.{AppError}
use pcos.Common.Result.{AppResult, ok, err, ◌>>=◌, ◌>>◌, reject_if, ok_injective}
use pcos.Common.Validation.{validate_email, validate_password, byte_length}
use pcos.Common.Jwt.{AuthConfig, TokenPair, generate_token_pair}
use pcos.Auth.{User, Accounts, find_user, log_audit}
use pcos.Auth.Mfa.{verify_totp}
use pcos.Auth.Service.{
  Services, Fresh, RegisterRequest, LoginRequest, AuthResponse, or_blank, or_internal, has_email,
  is_active_user, normalized, store_refresh_token, role_for, check_register, issue, register,
  check_mfa, login_user, login, user_count,
}

-- What has passed when a registration is accepted.
accepted :
    (a b : AppResult (Unit {0})) (c d : Bool) (e1 e2 e3 : AppError) (h : Option Text)
    (role : AppResult Text) (row : Text → Text → User) (user : User)
    → (a
        >> (b
            >> (reject_if c e1
                >> (reject_if d e2
                    >> (or_internal e3 h >>= λ hash. role >>= λ r. ok (row hash r))))))
      ≡ ok user
    → (d ≡ false)
      × (hash : Text) × (r : Text) × (h ≡ some hash)
      × (role ≡ ok r)
      × (row hash r ≡ user)
accepted (err e) b c d e1 e2 e3 h role row user p = absurd (ground arith)
accepted (ok _) (err e) c d e1 e2 e3 h role row user p = absurd (ground arith)
accepted (ok _) (ok _) true d e1 e2 e3 h role row user p = absurd (ground arith)
accepted (ok _) (ok _) false true e1 e2 e3 h role row user p = absurd (ground arith)
accepted (ok _) (ok _) false false e1 e2 e3 none role row user p = absurd (ground arith)
accepted (ok _) (ok _) false false e1 e2 e3 (some hash) (err e) row user p = absurd (ground arith)
accepted (ok _) (ok _) false false e1 e2 e3 (some hash) (ok r) row user p =
    (refl, hash, r, refl, refl, ok_injective p)

abbrev pub HasOtherEmail : Text → User → Type 0
HasOtherEmail email u = u.email ≢ email

no_email :
    (email : Text) (us : List User)
    → any (has_email email) us ≡ false
    → All (HasOtherEmail email) us
no_email email [] h = tt
no_email email (u ∷ us) h = elim (Bool-cases (has_email email u)) [
  | inl e ↦ absurd (ground arith)
  | inr e ↦ (
    λ same. let q = (text_eq_iff u.email email).1 same in ground arith,
    no_email email us (sym (any_skip (has_email email) u us e) ∙ h),
  )
]

pub find_user-new :
    (email : Text) (us : List User) (u : User)
    → All (HasOtherEmail email) us
    → is_active_user email u ≡ true
    → find_user (is_active_user email) (us ++ u ∷ []) ≡ some u
unfolding find_user
find_user-new email [] u h e = rw e refl
find_user-new email (v ∷ us) u h e =
    let other = text_eq_ne v.email email h.0 in rw other (find_user-new email us u h.1 e)

-- Which accounts the table has.
abbrev pub HasUniqueEmails : List User → Type 0
HasUniqueEmails [] = Unit
HasUniqueEmails (u ∷ us) = All (HasOtherEmail u.email) us × HasUniqueEmails us

snoc-HasUniqueEmails :
    (us : List User) (u : User)
    → All (HasOtherEmail u.email) us
    → HasUniqueEmails us
    → HasUniqueEmails (us ++ u ∷ [])
snoc-HasUniqueEmails [] u l h = (tt, tt)
snoc-HasUniqueEmails (v ∷ us) u l h = (
  All-append (HasOtherEmail v.email) us (u ∷ []) h.0 (λ e. l.0 (sym e), tt),
  snoc-HasUniqueEmails us u l.1 h.1,
)

user_not_admin : codes "user" ≢ codes "admin"
user_not_admin = text_ne (codes "user") (codes "admin") refl

code_passed :
    (blank valid : Bool) (a b : AppError × Option Text)
    → ◌≡◌ {A = Option (AppError × Option Text)}
        (if blank then some a else if valid then none else some b)
        none
    → valid ≡ true
code_passed true valid a b h = absurd (ground arith)
code_passed false true a b h = refl
code_passed false false a b h = absurd (ground arith)

only_admin :
    (b : Bool) (e : AppError) (r : Text)
    → (reject_if b e >> ok (codes "admin")) ≡ ok r
    → r ≡ codes "admin"
only_admin true e r h = absurd (ground arith)
only_admin false e r h = sym (ok_injective h)

module _ (x : Services) (config : AuthConfig) where
  -- The row of an accepted registration.
  check_register_lem :
      (bootstrap : Option Text) (fresh : Fresh) (req : RegisterRequest) (s : Accounts) (user : User)
      → check_register x config bootstrap fresh req s ≡ ok user
      → All (HasOtherEmail (normalized x config req.email)) s.users
        × (user.email ≡ normalized x config req.email)
        × (user.is_active ≡ true)
        × (user.totp_enabled ≡ false)
        × (role_for x config bootstrap req.setup_token
              (user_count x config fresh.counts_users s.users)
            ≡ ok user.role)
  unfolding check_register
  check_register_lem bootstrap fresh req s user h =
      let (new, hash, r, hashed, role, row) =
        accepted (validate_email (normalized x config req.email))
          (validate_password x.unicode req.password)
          (is_empty (trim req.display_name) || ltb 100 (byte_length req.display_name))
          (any (has_email (normalized x config req.email)) s.users) _ _ _
          (x.hash_password req.password)
          (role_for x config bootstrap req.setup_token
            (user_count x config fresh.counts_users s.users))
          _ user h in
      (
        no_email (normalized x config req.email) s.users new,
        sym (ap (λ (u : User). u.email) row),
        sym (ap (λ (u : User). u.is_active) row),
        sym (ap (λ (u : User). u.totp_enabled) row),
        role ∙ ap (λ (u : User). ok u.role) row,
      )

  issue-ok :
      (fresh : Fresh) (user : User) (action : Text) (s : Accounts) (pair : TokenPair)
      → generate_token_pair x.jwt user.id user.email config fresh.now fresh.jtis ≡ ok pair
      → issue x config fresh user action s ≡ (
        ok (record { user = user; tokens = pair }),
        log_audit user.id action (store_refresh_token x config fresh user.id pair.refresh_token s),
      )
  unfolding issue
  issue-ok fresh user action s pair made = rw (made, issue) refl

  check_mfa-plain :
      (now : ℕ) (reads : Bool) (user : User) (code : Option Text)
      → user.totp_enabled ≡ false
      → check_mfa x config now reads user code ≡ none
  unfolding check_mfa
  check_mfa-plain now true user code plain = rw (plain, check_mfa) refl
  check_mfa-plain now false user code plain = refl

  -- An account can be used once it is registered. Where `register` accepts a request, the tokens of the
  -- account can be encoded, and the password verifies against the hash that was stored, `register`
  -- answers the account, and `login` with the same address and password, at any later state of the
  -- clock, answers it with tokens of its own.
  pub register_then_login :
      (bootstrap code : Option Text) (fresh later : Fresh) (req : RegisterRequest) (s : Accounts)
      (user : User) (pair pair' : TokenPair)
      → check_register x config bootstrap fresh req s ≡ ok user
      → generate_token_pair x.jwt user.id user.email config fresh.now fresh.jtis ≡ ok pair
      → generate_token_pair x.jwt user.id user.email config later.now later.jtis ≡ ok pair'
      → x.verify_password req.password user.password_hash ≡ some true
      → let (answer, s') = register x config bootstrap fresh req s in
        let again : LoginRequest = record {
          email = req.email;
          password = req.password;
          mfa_code = code;
        } in
        (answer ≡ ok (record { user = user; tokens = pair }))
        × ((login x config later again s').0 ≡ ok (record { user = user; tokens = pair' }))
  unfolding register login login_user check_mfa store_refresh_token
  register_then_login bootstrap code fresh later req s user pair pair' h made made' right =
      let (new, email, active, plain, role) = check_register_lem bootstrap fresh req s user h in
      let added : Accounts = record s { users = s.users ++ user ∷ [] } in
      let registered : register x config bootstrap fresh req s ≡ (
        ok (record { user = user; tokens = pair }),
        log_audit user.id (codes "user.registered")
            (store_refresh_token x config fresh user.id pair.refresh_token added),
      ) =
        rw (h, register) (issue-ok fresh user (codes "user.registered") added pair made) in
      let found =
        find_user-new (normalized x config req.email) s.users user new
          (rw (email, text_eq_self (normalized x config req.email), active) refl) in
      rw registered (
        refl,
        (rw
            (
              found,
              login,
              right,
              login_user,
              check_mfa-plain later.now later.reads_mfa user code plain,
            )
            (ap (λ (r : AppResult AuthResponse × Accounts). r.0)
              (issue-ok later user (codes "auth.login") _ pair' made'))),
      )

  issue-users :
      (fresh : Fresh) (user : User) (action : Text) (s : Accounts)
      → (issue x config fresh user action s).1.users ≡ s.users
  unfolding issue store_refresh_token
  issue-users fresh user action s =
      issued (generate_token_pair x.jwt user.id user.email config fresh.now fresh.jtis)
    where
      issued :
          (r : AppResult TokenPair)
          → let after : AppResult AuthResponse × Accounts = elim r [
            | err e ↦ (err e, s)
            | ok pair ↦ (
              ok (record { user = user; tokens = pair }),
              log_audit user.id action
                  (store_refresh_token x config fresh user.id pair.refresh_token s),
            )
          ] in
            after.1.users ≡ s.users
      issued (err e) = refl
      issued (ok pair) = refl

  issue-user :
      (fresh : Fresh) (user : User) (action : Text) (s : Accounts) (answer : AuthResponse)
      → (issue x config fresh user action s).0 ≡ ok answer
      → user ≡ answer.user
  unfolding issue
  issue-user fresh user action s answer =
      issued (generate_token_pair x.jwt user.id user.email config fresh.now fresh.jtis)
    where
      issued :
          (r : AppResult TokenPair)
          → let after : AppResult AuthResponse × Accounts = elim r [
            | err e ↦ (err e, s)
            | ok pair ↦ (
              ok (record { user = user; tokens = pair }),
              log_audit user.id action
                  (store_refresh_token x config fresh user.id pair.refresh_token s),
            )
          ] in
            after.0 ≡ ok answer → user ≡ answer.user
      issued (err e) h = absurd (ground arith)
      issued (ok pair) h = ap (λ (a : AuthResponse). a.user) (ok_injective h)

  role_for_lem :
      (bootstrap provided : Option Text) (n : ℕ) (r : Text)
      → role_for x config bootstrap provided n ≡ ok r
      → (r ≡ codes "admin") ↔ (n ≡ 0)
  unfolding role_for
  role_for_lem bootstrap provided (suc n) r h =
      (λ e. absurd (user_not_admin (ok_injective h ∙ e)), λ e. absurd (omega (arith, e)))
  role_for_lem none provided zero r h = (λ _. refl, λ _. sym (ok_injective h))
  role_for_lem (some expected) provided zero r h = (λ _. refl, λ _. only_admin _ _ r h)

  no_users : (us : List User) → length us ≡ 0 → us ≡ []
  no_users [] h = refl
  no_users (u ∷ us) h = absurd (omega (arith, h))

  user_count_lem :
      (counts : Bool) (us : List User)
      → (user_count x config counts us ≡ 0) ↔ ((us ≡ []) ⊎ (counts ≡ false))
  user_count_lem true us =
      (λ h. inl (no_users us h), λ h. elim h [ inl e ↦ rw e refl | inr e ↦ absurd (ground arith) ])
  user_count_lem false us = (λ h. inr refl, λ h. refl)

  -- A registration on every branch: either the table of users is as it was, or one account is added whose
  -- address no other has, and which is an administrator's exactly when it is the first or the query that
  -- counts the users failed.
  pub register_lem :
      (bootstrap : Option Text) (fresh : Fresh) (req : RegisterRequest) (s : Accounts)
      → HasUniqueEmails s.users
      → ((register x config bootstrap fresh req s).1.users ≡ s.users)
        ⊎ ((user : User) × ((register x config bootstrap fresh req s).1.users
              ≡ s.users ++ user ∷ [])
            × HasUniqueEmails (s.users ++ user ∷ [])
            × ((user.role ≡ codes "admin") ↔ ((s.users ≡ []) ⊎ (fresh.counts_users ≡ false))))
  unfolding register issue store_refresh_token
  register_lem bootstrap fresh req s unique =
      registered (check_register x config bootstrap fresh req s) refl
    where
      registered :
          (r : AppResult User)
          → check_register x config bootstrap fresh req s ≡ r
          → let after : AppResult AuthResponse × Accounts = elim r [
            | err e ↦ (err e, s)
            | ok user ↦
                issue x config fresh user
                  (codes "user.registered")
                  (record s { users = s.users ++ user ∷ [] })
          ] in
            (after.1.users ≡ s.users)
            ⊎ ((user : User) × (after.1.users ≡ s.users ++ user ∷ [])
                × HasUniqueEmails (s.users ++ user ∷ [])
                × ((user.role ≡ codes "admin") ↔ ((s.users ≡ []) ⊎ (fresh.counts_users ≡ false))))
      registered (err e) h = inl refl
      registered (ok user) h =
          let (new, email, active, plain, role) = check_register_lem bootstrap fresh req s user h in
          inr (
            user,
            issue-users fresh user (codes "user.registered")
                (record s { users = s.users ++ user ∷ [] }),
            snoc-HasUniqueEmails s.users user (rw email new) unique,
            (
              λ e. (user_count_lem fresh.counts_users s.users).0 (
                  (role_for_lem bootstrap req.setup_token
                      (user_count x config fresh.counts_users s.users) user.role role).0
                    e),
              λ e.
                  (role_for_lem bootstrap req.setup_token
                      (user_count x config fresh.counts_users s.users) user.role role).1
                    ((user_count_lem fresh.counts_users s.users).1 e),
            ),
          )

  -- The second factor was asked for and given, where there is one that could be read.
  abbrev pub HasPassed : ℕ → Bool → User → Option Text → Type 0
  HasPassed now reads user code =
      (reads ≡ false)
      ⊎ (user.totp_enabled ≡ false)
      ⊎ (user.totp_secret ≡ none)
      ⊎ ((secret : Text) × (user.totp_secret ≡ some secret)
          × (verify_totp x.sha1 now secret (trim (or_blank code)) ≡ true))

  check_mfa-HasPassed :
      (now : ℕ) (reads : Bool) (user : User) (code : Option Text)
      → check_mfa x config now reads user code ≡ none
      → HasPassed now reads user code
  unfolding check_mfa
  check_mfa-HasPassed now false user code h = inl refl
  check_mfa-HasPassed now true user code h = elim (Bool-cases user.totp_enabled) [
    | inr off ↦ inr (inl off)
    | inl on ↦ elim (Option-cases user.totp_secret) [
      | inl bare ↦ inr (inr (inl bare))
      | inr (secret, has) ↦
          inr (inr (inr (secret, has, code_passed _ _ _ _ (rw (on, has, check_mfa) at h))))
    ]
  ]

  login_user_lem :
      (fresh : Fresh) (req : LoginRequest) (s : Accounts) (user : User) (answer : AuthResponse)
      → (login_user x config fresh req s user).0 ≡ ok answer
      → (user ≡ answer.user)
        × (x.verify_password req.password user.password_hash ≡ some true)
        × HasPassed fresh.now fresh.reads_mfa user req.mfa_code
  unfolding login_user
  login_user_lem fresh req s user answer h =
      elim (Option-cases (x.verify_password req.password user.password_hash)) [
        | inl none_ ↦ absurd (let h' = rw (none_, login_user) at h in ground arith)
        | inr (valid, some_) ↦ elim (Bool-cases valid) [
          | inr no_ ↦ absurd (let h' = rw (some_, no_, login_user) at h in ground arith)
          | inl yes_ ↦
              elim (Option-cases (check_mfa x config fresh.now fresh.reads_mfa user req.mfa_code)) [
                | inr (refusal, e) ↦
                    absurd (let h' = rw (some_, yes_, login_user, e) at h in ground arith)
                | inl e ↦ (
                  issue-user fresh user (codes "auth.login") s answer
                      (rw (some_, yes_, login_user, e) at h),
                  some_ ∙ ap some yes_,
                  check_mfa-HasPassed fresh.now fresh.reads_mfa user req.mfa_code e,
                )
              ]
        ]
      ]

  -- `login` answers tokens only to the account's password, and to its second factor where one is read:
  -- where it answers an account, that is the active account with the address, the password verifies
  -- against its hash, and so does the code, if the account has two-factor authentication with a secret,
  -- unless the query for the secret failed.
  pub login_lem :
      (fresh : Fresh) (req : LoginRequest) (s : Accounts) (answer : AuthResponse)
      → (login x config fresh req s).0 ≡ ok answer
      → (find_user (is_active_user (normalized x config req.email)) s.users ≡ some answer.user)
        × (x.verify_password req.password answer.user.password_hash ≡ some true)
        × HasPassed fresh.now fresh.reads_mfa answer.user req.mfa_code
  unfolding login
  login_lem fresh req s answer h =
      elim (Option-cases (find_user (is_active_user (normalized x config req.email)) s.users)) [
        | inl none_ ↦ absurd (let h' = rw (none_, login) at h in ground arith)
        | inr (user, found) ↦
            let (same, password, passed) =
              login_user_lem fresh req s user answer (rw (found, login) at h) in
            (
              found ∙ ap some same,
              ap (λ (u : User). x.verify_password req.password u.password_hash) (sym same)
                  ∙ password,
              subst (λ (u : User). HasPassed fresh.now fresh.reads_mfa u req.mfa_code) same passed,
            )
      ]
