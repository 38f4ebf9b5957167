-- ===== src/Auth/Service/Examples.antt =====
-- Registration, login and tokens at concrete accounts.
use pcos.Prelude.{
  All-replicate, ◌<◌, arith, ◌≡◌, ◌≢◌, sym, ◌⊎◌, ◌↔◌, refl, List, [], ◌∷◌, ◌++◌, none, some, true,
  false, replicate, codes, text_eq, text_ne, leb, ◌&&◌, trim, trim_start_by, trim_end_by,
  is_whitespace, utf8, utf8_char,
}
use pcos.Common.Digest.{transcript, digest, padded}
use pcos.Common.Error.{AppError}
use pcos.Common.Result.{ok, err}
use pcos.Common.Validation.{count_at, before_at, after_at, validate_email, validate_password}
use pcos.Common.Jwt.{AuthConfig, TokenPair, Claims, claims_for, generate_token_pair, validate_token}
use pcos.Auth.{User, RefreshToken, Accounts, find_user, find_token, hash_token}
use pcos.Auth.Service.{
  Services, Fresh, RegisterRequest, LoginRequest, role_for, check_register, register,
  is_active_user, normalized, check_mfa, login_user, issue, store_refresh_token, login,
  check_refresh, refresh, logout,
}
use pcos.Auth.Service.Tokens.{refresh_once, logout_then_refresh}
use pcos.Auth.Service.Login.{HasUniqueEmails, HasPassed, register_lem, login_lem}

-- Passwords and tokens are kept as they are; a token is the number of its claims.
abbrev services : Services
services = record {
  sha256 = transcript;
  sha1 = record {
    digest = λ bytes. replicate 20 7;
    length-digest = λ bytes. refl;
    digest-IsByte = λ bytes. All-replicate (λ b. b < 256) 20 7 (omega arith);
  };
  unicode = record {
    is_uppercase = λ c. leb b'A' c && leb c b'Z';
    is_lowercase = λ c. leb b'a' c && leb c b'z';
    to_lowercase = λ t. t;
  };
  jwt = record {
    encode = λ (c : Claims) secret. some (c.jti ∷ []);
    decode = λ token secret now. some (claims_for 1 (codes "a@b.c") 0 900 7);
  };
  hash_password = λ p. some p;
  verify_password = λ p h. some (text_eq p h);
}

abbrev config : AuthConfig
config = record {
  jwt_secret = codes "secret";
  access_token_expiry_secs = 900;
  refresh_token_expiry_secs = 604800;
}

abbrev fresh : Fresh
fresh = record {
  now = 100;
  user_id = 1;
  token_id = 2;
  jtis = (8, 9);
  counts_users = true;
  reads_mfa = true;
}

abbrev no_accounts : Accounts
no_accounts = record { users = []; tokens = []; recovery_keys = []; audit_log = [] }

abbrev request : RegisterRequest
request = record {
  email = codes "a@b.c";
  display_name = codes "a";
  password = codes "Passw0rd";
  setup_token = none;
}

abbrev user : User
user = record {
  id = 1;
  email = codes "a@b.c";
  display_name = codes "a";
  password_hash = codes "Passw0rd";
  role = codes "admin";
  is_active = true;
  totp_enabled = false;
  totp_secret = none;
}

abbrev pair : TokenPair
pair = record {
  access_token = 8 ∷ [];
  refresh_token = 9 ∷ [];
  token_type = codes "Bearer";
  expires_in = 900;
}

is_accepted : check_register services config none fresh request no_accounts ≡ ok user
unfolding check_register role_for validate_email validate_password count_at before_at after_at utf8
    utf8_char trim trim_start_by trim_end_by is_whitespace
is_accepted = refl

makes_pair : generate_token_pair services.jwt 1 (codes "a@b.c") config 100 (8, 9) ≡ ok pair
unfolding generate_token_pair
makes_pair = refl

register_lem_example :
    ((register services config none fresh request no_accounts).1.users ≡ [])
    ⊎ ((u : User) × ((register services config none fresh request no_accounts).1.users
          ≡ [] ++ u ∷ [])
        × HasUniqueEmails ([] ++ u ∷ [])
        × ((u.role ≡ codes "admin") ↔ ((◌≡◌ {A = List User} [] []) ⊎ (true ≡ false))))
register_lem_example = register_lem services config none fresh request no_accounts tt

abbrev one_account : Accounts
one_account = record {
  users = user ∷ [];
  tokens =
      record {
        id = 5;
        user_id = 1;
        token_hash = hash_token transcript (codes "t");
        expires_at = 1000;
        revoked = false;
      }
      ∷ [];
  recovery_keys = [];
  audit_log = [];
}

abbrev attempt : LoginRequest
attempt = record { email = codes "a@b.c"; password = codes "Passw0rd"; mfa_code = none }

logs_in :
    (login services config fresh attempt one_account).0 ≡ ok (record { user = user; tokens = pair })
unfolding login login_user check_mfa issue store_refresh_token generate_token_pair find_user trim
    trim_start_by trim_end_by is_whitespace
logs_in = refl

login_lem_example :
    (find_user (is_active_user (normalized services config (codes "a@b.c"))) one_account.users
      ≡ some user)
    × (some (text_eq (codes "Passw0rd") (codes "Passw0rd")) ≡ some true)
    × HasPassed services config 100 true user none
login_lem_example =
    login_lem services config fresh attempt one_account (record { user = user; tokens = pair })
      logs_in

-- A user whose second factor cannot be read logs in without it.
abbrev guarded : Accounts
guarded = record one_account {
  users = record user { totp_enabled = true; totp_secret = some (codes "ABCA") } ∷ [];
}

logs_in_unread :
    (login services config (record fresh { reads_mfa = false }) attempt guarded).0
    ≡ ok (record {
      user = record user { totp_enabled = true; totp_secret = some (codes "ABCA") };
      tokens = pair;
    })
unfolding login login_user check_mfa issue store_refresh_token generate_token_pair find_user trim
    trim_start_by trim_end_by is_whitespace
logs_in_unread = refl

abbrev claims : Claims
claims = claims_for 1 (codes "a@b.c") 0 900 7

abbrev stored : RefreshToken
stored = record {
  id = 5;
  user_id = 1;
  token_hash = hash_token transcript (codes "t");
  expires_at = 1000;
  revoked = false;
}

finds : check_refresh services config 100 (codes "t") one_account ≡ ok (claims, stored)
unfolding check_refresh validate_token find_token hash_token digest padded utf8 utf8_char
finds = refl

other_hash : hash_token transcript (9 ∷ []) ≢ hash_token transcript (codes "t")
unfolding hash_token digest padded utf8 utf8_char
other_hash = text_ne (hash_token transcript (9 ∷ [])) (hash_token transcript (codes "t")) refl

refresh_once_example :
    ((refresh services config fresh (codes "t") one_account).0 ≡ ok pair)
    × ((e : AppError) × (refresh services config fresh
            (codes "t")
            (refresh services config fresh (codes "t") one_account).1
          ≡ (err e, (refresh services config fresh (codes "t") one_account).1)))
refresh_once_example =
    refresh_once services config fresh fresh (codes "t") one_account claims stored pair finds
      makes_pair ((λ e. refl), tt) other_hash

logout_then_refresh_example :
    let s' = (logout services config (codes "t") one_account).1 in
    ((e : AppError) × (refresh services config fresh (codes "t") s' ≡ (err e, s')))
    × (check_refresh services config 100 (9 ∷ []) s'
        ≡ check_refresh services config 100 (9 ∷ []) one_account)
logout_then_refresh_example =
    logout_then_refresh services config fresh (codes "t") (9 ∷ []) one_account
      (λ e. other_hash (sym e))
