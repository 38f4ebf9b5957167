-- ===== src/Common/Jwt.antt =====
-- Tokens: backend/crates/common/src/auth/jwt.rs, on the jsonwebtoken crate, whose `encode` and `decode`
-- are arguments that can fail. A time is in seconds since the epoch; the new identifiers are arguments.
use pcos.Prelude.{ℕ, ◌+◌, Option, none, some, Text, codes}
use pcos.Common.Error.{jwt}
use pcos.Common.Result.{AppResult, ok, err, ◌>>=◌}

pub record Claims : Type 0 where
  pub sub : ℕ
  pub email : Text
  pub iat : ℕ
  pub exp : ℕ
  pub jti : ℕ

pub record TokenPair : Type 0 where
  pub access_token : Text
  pub refresh_token : Text
  pub token_type : Text
  pub expires_in : ℕ

pub record AuthConfig : Type 0 where
  pub jwt_secret : Text
  pub access_token_expiry_secs : ℕ
  pub refresh_token_expiry_secs : ℕ

-- `decode` is given the time, which it compares with the claims' expiry.
pub record Jwt : Type 0 where
  pub encode : Claims → Text → Option Text
  pub decode : Text → Text → ℕ → Option Claims

abbrev pub claims_for : ℕ → Text → ℕ → ℕ → ℕ → Claims
claims_for user email now expiry jti = record {
  sub = user;
  email = email;
  iat = now;
  exp = now + expiry;
  jti = jti;
}

abbrev pub encoded : Option Text → AppResult Text
encoded none = err (jwt "encode")
encoded (some t) = ok t

unfoldable pub generate_token_pair : Jwt → ℕ → Text → AuthConfig → ℕ → ℕ × ℕ → AppResult TokenPair
generate_token_pair j user email config now (jti, jti') = do
  access ←
      encoded
        (j.encode (claims_for user email now config.access_token_expiry_secs jti) config.jwt_secret)
  refresh ←
      encoded (
        j.encode (claims_for user email now config.refresh_token_expiry_secs jti')
          config.jwt_secret)
  ok (record {
    access_token = access;
    refresh_token = refresh;
    token_type = codes "Bearer";
    expires_in = config.access_token_expiry_secs;
  })

unfoldable pub validate_token : Jwt → Text → Text → ℕ → AppResult Claims
validate_token j token secret now = elim (j.decode token secret now) [
  | none ↦ err (jwt "decode")
  | some claims ↦ ok claims
]
