-- ===== src/Auth.antt =====
-- Accounts: backend/crates/auth. The state is the tables `users`, `refresh_tokens`, `recovery_keys` and
-- `audit_log`, with the columns of models.rs and of the two-factor authentication. Identifiers and times are
-- numbers, a time in seconds since the epoch; queries succeed.
pub mod Users
pub mod Mfa
pub mod Service
pub mod Recovery
use pcos.Prelude.{
  ℕ, List, [], ◌∷◌, ◌++◌, Option, none, some, Bool, true, false, not, ◌&&◌, ltb, ◌==◌,
  if◌then◌else◌, Text, text_eq, utf8, any,
}
use pcos.Common.Digest.{Hasher, digest}

pub record User : Type 0 where
  pub id : ℕ
  pub email : Text
  pub display_name : Text
  pub password_hash : Text
  pub role : Text
  pub is_active : Bool
  pub totp_enabled : Bool
  pub totp_secret : Option Text

pub record RefreshToken : Type 0 where
  pub id : ℕ
  pub user_id : ℕ
  pub token_hash : Text
  pub expires_at : ℕ
  pub revoked : Bool

pub record RecoveryKey : Type 0 where
  pub id : Text
  pub user_id : ℕ
  pub recovery_hash : Text
  pub is_used : Bool

pub record Accounts : Type 0 where
  pub users : List User
  pub tokens : List RefreshToken
  pub recovery_keys : List RecoveryKey
  pub audit_log : List (ℕ × Text)

unfoldable pub find_user : (User → Bool) → List User → Option User
find_user p [] = none
find_user p (u ∷ us) = if p u then some u else find_user p us

unfoldable pub update_user : ℕ → (User → User) → List User → List User
update_user id f [] = []
update_user id f (u ∷ us) = (if u.id == id then f u else u) ∷ update_user id f us

unfoldable pub find_token : (RefreshToken → Bool) → List RefreshToken → Option RefreshToken
find_token p [] = none
find_token p (t ∷ ts) = if p t then some t else find_token p ts

abbrev pub revoke : RefreshToken → RefreshToken
revoke t = record t { revoked = true }

-- `UPDATE refresh_tokens SET revoked = true WHERE …`.
unfoldable pub revoke_where : (RefreshToken → Bool) → List RefreshToken → List RefreshToken
revoke_where p [] = []
revoke_where p (t ∷ ts) = (if p t then revoke t else t) ∷ revoke_where p ts

-- `log_audit`.
abbrev pub log_audit : ℕ → Text → Accounts → Accounts
log_audit user action s = record s { audit_log = s.audit_log ++ (user, action) ∷ [] }

-- `hash_token`.
unfoldable pub hash_token : Hasher → Text → Text
hash_token h token = digest h (utf8 token)
