-- ===== src/Auth/Service.antt =====
-- Registration, login, refresh and logout: backend/crates/auth/src/service.rs. Hashing and verifying a
-- password (the argon2 crate), encoding tokens, SHA-1 and SHA-256, the tables of Unicode, the time and the new
-- identifiers are arguments, and so is the variable PCOS_ADMIN_BOOTSTRAP_TOKEN.
pub mod Tokens
pub mod Login
mod Examples
use pcos.Prelude.{
  ℕ, zero, suc, ◌+◌, ◌*◌, List, [], ◌∷◌, ◌++◌, Option, none, some, Bool, true, false, not, ◌&&◌,
  ◌||◌, ltb, ◌==◌, if◌then◌else◌, length, any, Text, codes, text_eq, is_empty, trim,
}
use pcos.Common.Digest.{Hasher}
use pcos.Common.Error.{AppError, conflict, internal, unauthorized, validation}
use pcos.Common.Result.{AppResult, ok, err, ◌>>=◌, ◌>>◌, reject_if}
use pcos.Common.Validation.{Unicode, byte_length, validate_email, validate_password}
use pcos.Common.Jwt.{Jwt, AuthConfig, TokenPair, Claims, generate_token_pair, validate_token}
use pcos.Auth.{
  User, RefreshToken, Accounts, find_user, find_token, revoke_where, log_audit, hash_token,
}
use pcos.Auth.Mfa.{Sha1, verify_totp}

pub record RegisterRequest : Type 0 where
  pub email : Text
  pub display_name : Text
  pub password : Text
  pub setup_token : Option Text

pub record LoginRequest : Type 0 where
  pub email : Text
  pub password : Text
  pub mfa_code : Option Text

pub record AuthResponse : Type 0 where
  pub user : User
  pub tokens : TokenPair

-- The crates and the tables that the service calls on.
pub record Services : Type 1 where
  pub sha256 : Hasher
  pub sha1 : Sha1
  pub unicode : Unicode
  pub jwt : Jwt
  pub hash_password : Text → Option Text
  pub verify_password : Text → Text → Option Bool

-- A request's time and the identifiers that it makes, and whether the two queries succeed whose failure the
-- code answers itself: the count of the users at a registration, and the second factor at a login.
pub record Fresh : Type 0 where
  pub now : ℕ
  pub user_id : ℕ
  pub token_id : ℕ
  pub jtis : ℕ × ℕ
  pub counts_users : Bool
  pub reads_mfa : Bool

abbrev pub or_blank : Option Text → Text
or_blank none = []
or_blank (some t) = t

-- `unwrap_or(…)` on the result of the crates.
abbrev pub or_internal {ℓ} : {A : Type ℓ} → AppError → Option A → AppResult A
or_internal e none = err e
or_internal e (some a) = ok a

abbrev pub has_email : Text → User → Bool
has_email email u = text_eq u.email email

abbrev pub is_active_user : Text → User → Bool
is_active_user email u = has_email email u && u.is_active

-- A token that can be refreshed.
abbrev pub is_live : Text → ℕ → RefreshToken → Bool
is_live hash now t = text_eq t.token_hash hash && not t.revoked && ltb now t.expires_at

module _ (x : Services) (config : AuthConfig) where
  abbrev pub normalized : Text → Text
  normalized email = x.unicode.to_lowercase (trim email)

  -- `store_refresh_token`: the token lives for seven days.
  unfoldable pub store_refresh_token : Fresh → ℕ → Text → Accounts → Accounts
  store_refresh_token fresh user token s = record s {
    tokens =
        s.tokens
        ++ record {
          id = fresh.token_id;
          user_id = user;
          token_hash = hash_token x.sha256 token;
          expires_at = fresh.now + 7 * 24 * 3600;
          revoked = false;
        }
          ∷ [];
  }

  -- `SELECT COUNT(*) FROM users` with `unwrap_or(0)`.
  abbrev pub user_count : Bool → List User → ℕ
  user_count counts us = if counts then length us else 0

  -- A count of 0 makes an administrator; a bootstrap token that is set and not blank is asked for.
  unfoldable pub role_for : Option Text → Option Text → ℕ → AppResult Text
  role_for bootstrap provided (suc n) = ok (codes "user")
  role_for none provided zero = ok (codes "admin")
  role_for (some expected) provided zero = do
    reject_if
        (not (is_empty (trim expected)) && not (text_eq (trim (or_blank provided)) (trim expected)))
        (unauthorized
          "Valid PCOS_ADMIN_BOOTSTRAP_TOKEN is required to register initial admin account")
    ok (codes "admin")

  -- The row of the new account.
  unfoldable pub check_register : Option Text → Fresh → RegisterRequest → Accounts → AppResult User
  check_register bootstrap fresh req s = do
    validate_email (normalized req.email)
    validate_password x.unicode req.password
    reject_if (is_empty (trim req.display_name) || ltb 100 (byte_length req.display_name))
        (validation "Display name must be 1-100 characters")
    reject_if (any (has_email (normalized req.email)) s.users) (conflict "Email already registered")
    hash ← or_internal (internal "Password hashing failed") (x.hash_password req.password)
    role ← role_for bootstrap req.setup_token (user_count fresh.counts_users s.users)
    ok (record {
      id = fresh.user_id;
      email = normalized req.email;
      display_name = req.display_name;
      password_hash = hash;
      role = role;
      is_active = true;
      totp_enabled = false;
      totp_secret = none;
    })

  -- What ends registration and login: tokens, their record and the audit.
  unfoldable pub issue : Fresh → User → Text → Accounts → AppResult AuthResponse × Accounts
  issue fresh user action s =
      elim (generate_token_pair x.jwt user.id user.email config fresh.now fresh.jtis) [
        | err e ↦ (err e, s)
        | ok pair ↦ (
          ok (record { user = user; tokens = pair }),
          log_audit user.id action (store_refresh_token fresh user.id pair.refresh_token s),
        )
      ]

  unfoldable pub register :
      Option Text → Fresh → RegisterRequest → Accounts → AppResult AuthResponse × Accounts
  register bootstrap fresh req s = elim (check_register bootstrap fresh req s) [
    | err e ↦ (err e, s)
    | ok user ↦
        issue fresh user (codes "user.registered") (record s { users = s.users ++ user ∷ [] })
  ]

  -- The second factor; an error comes with the action that is logged, if one is. Where the query fails,
  -- `unwrap_or(None)` asks for none.
  unfoldable pub check_mfa : ℕ → Bool → User → Option Text → Option (AppError × Option Text)
  check_mfa now reads user mfa_code =
      if reads && user.totp_enabled
      then elim user.totp_secret [
        | none ↦ none
        | some secret ↦
            if is_empty (trim (or_blank mfa_code))
            then some (unauthorized "Two-Factor Authentication code required", none)
            else if verify_totp x.sha1 now secret (trim (or_blank mfa_code))
            then none
            else some (
              unauthorized "Invalid 6-digit MFA verification code",
              some (codes "auth.mfa_failed"),
            )
      ]
      else none

  abbrev pub logged : ℕ → Option Text → Accounts → Accounts
  logged user none s = s
  logged user (some action) s = log_audit user action s

  unfoldable pub login_user :
      Fresh → LoginRequest → Accounts → User → AppResult AuthResponse × Accounts
  login_user fresh req s user = elim (x.verify_password req.password user.password_hash) [
    | none ↦ (err (internal "Password verification failed"), s)
    | some valid ↦
        if valid
        then elim (check_mfa fresh.now fresh.reads_mfa user req.mfa_code) [
          | some refusal ↦ (err refusal.0, logged user.id refusal.1 s)
          | none ↦ issue fresh user (codes "auth.login") s
        ]
        else (
          err (unauthorized "Invalid email or password"),
          log_audit user.id (codes "auth.login_failed") s,
        )
  ]

  unfoldable pub login : Fresh → LoginRequest → Accounts → AppResult AuthResponse × Accounts
  login fresh req s = elim (find_user (is_active_user (normalized req.email)) s.users) [
    | none ↦ (err (unauthorized "Invalid email or password"), s)
    | some user ↦ login_user fresh req s user
  ]

  -- The claims of a token that may be refreshed, and its row.
  unfoldable pub check_refresh : ℕ → Text → Accounts → AppResult (Claims × RefreshToken)
  check_refresh now token s = do
    claims ← validate_token x.jwt token config.jwt_secret now
    stored ←
        or_internal (unauthorized "Invalid or expired refresh token")
          (find_token (is_live (hash_token x.sha256 token) now) s.tokens)
    ok (claims, stored)

  -- The old token is revoked before the new ones are made.
  unfoldable pub rotate : Fresh → Claims → Accounts → AppResult TokenPair × Accounts
  rotate fresh claims s =
      elim (generate_token_pair x.jwt claims.sub claims.email config fresh.now fresh.jtis) [
        | err e ↦ (err e, s)
        | ok pair ↦ (ok pair, store_refresh_token fresh claims.sub pair.refresh_token s)
      ]

  abbrev pub token_with_id : ℕ → RefreshToken → Bool
  token_with_id id t = t.id == id

  unfoldable pub refresh : Fresh → Text → Accounts → AppResult TokenPair × Accounts
  refresh fresh token s = elim (check_refresh fresh.now token s) [
    | err e ↦ (err e, s)
    | ok found ↦
        rotate fresh found.0
          (record s { tokens = revoke_where (token_with_id found.1.id) s.tokens })
  ]

  abbrev pub token_with_hash : Text → RefreshToken → Bool
  token_with_hash hash t = text_eq t.token_hash hash

  unfoldable pub logout : Text → Accounts → AppResult (Unit {0}) × Accounts
  logout token s = (
    ok tt,
    record s { tokens = revoke_where (token_with_hash (hash_token x.sha256 token)) s.tokens },
  )
