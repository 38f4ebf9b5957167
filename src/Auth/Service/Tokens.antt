-- ===== src/Auth/Service/Tokens.antt =====
-- Refresh tokens: one use, and none after a logout.
use pcos.Prelude.{
  ℕ, ◌≡◌, ◌≢◌, refl, sym, ap, ◌∙◌, List, [], ◌∷◌, none, some, Bool, true, false, arith, All,
  All-append, All-each, ==_iff, Text, text_eq, text_eq_iff, text_eq_ne, if◌then◌else◌, Bool-cases,
  inl, inr,
}
use pcos.Prelude.Members.{All-map}
use pcos.Common.Error.{AppError, unauthorized}
use pcos.Common.Result.{AppResult, ok, err, ◌>>=◌}
use pcos.Common.Jwt.{AuthConfig, TokenPair, Claims, generate_token_pair, validate_token}
use pcos.Auth.{RefreshToken, Accounts, find_token, revoke, revoke_where, hash_token}
use pcos.Auth.Service.{
  Services, Fresh, or_internal, is_live, store_refresh_token, check_refresh, rotate, token_with_id,
  refresh, token_with_hash, logout,
}

abbrev pub IsDead : Text → ℕ → RefreshToken → Type 0
IsDead hash now t = is_live hash now t ≡ false

find_token-IsDead :
    (hash : Text) (now : ℕ) (ts : List RefreshToken)
    → All (IsDead hash now) ts
    → find_token (is_live hash now) ts ≡ none
unfolding find_token
find_token-IsDead hash now [] h = refl
find_token-IsDead hash now (t ∷ ts) h = rw h.0 (find_token-IsDead hash now ts h.1)

revoke-IsDead : (hash : Text) (now : ℕ) (t : RefreshToken) → IsDead hash now (revoke t)
revoke-IsDead hash now t = ground arith

-- Where every row with a hash is revoked, none is live.
pub revoke_where-IsDead :
    (p : RefreshToken → Bool) (hash : Text) (now : ℕ) (ts : List RefreshToken)
    → All (λ (t : RefreshToken). t.token_hash ≡ hash → p t ≡ true) ts
    → All (IsDead hash now) (revoke_where p ts)
unfolding revoke_where
revoke_where-IsDead p hash now [] h = tt
revoke_where-IsDead p hash now (t ∷ ts) h = elim (Bool-cases (p t)) [
  | inl e ↦ rw e (revoke-IsDead hash now t, revoke_where-IsDead p hash now ts h.1)
  | inr e ↦
      let other : t.token_hash ≢ hash = λ same. let q = h.0 same in ground arith in
      let dead : is_live hash now t ≡ false = ground (arith, (text_eq_iff t.token_hash hash).0) in
      rw e (dead, revoke_where-IsDead p hash now ts h.1)
]

-- A row with another hash is found as before.
find_token-revoke_where :
    (hash other : Text) (now : ℕ) (ts : List RefreshToken)
    → hash ≢ other
    → find_token (is_live other now) (revoke_where (λ t. text_eq t.token_hash hash) ts)
      ≡ find_token (is_live other now) ts
unfolding find_token revoke_where
find_token-revoke_where hash other now [] h = refl
find_token-revoke_where hash other now (t ∷ ts) h = elim (Bool-cases (text_eq t.token_hash hash)) [
  | inl e ↦
      let same : t.token_hash ≡ hash = (text_eq_iff t.token_hash hash).0 e in
      let apart : text_eq t.token_hash other ≡ false =
        text_eq_ne t.token_hash other (λ q. h (sym same ∙ q)) in
      rw (e, apart) (find_token-revoke_where hash other now ts h)
  | inr e ↦ rw e (
      ap (λ o. if is_live other now t then some t else o)
        (find_token-revoke_where hash other now ts h))
]

module _ (x : Services) (config : AuthConfig) where
  -- Where no row is live under a token's hash, `refresh` refuses the token and changes nothing.
  pub refresh-refused :
      (fresh : Fresh) (token : Text) (s : Accounts)
      → All (IsDead (hash_token x.sha256 token) fresh.now) s.tokens
      → (e : AppError) × (refresh x config fresh token s ≡ (err e, s))
  unfolding refresh check_refresh
  refresh-refused fresh token s dead =
      refused (validate_token x.jwt token config.jwt_secret fresh.now)
    where
      refused :
          (r : AppResult Claims)
          → let found : AppResult (Claims × RefreshToken) = r >>= λ claims.
              or_internal
                (unauthorized "Invalid or expired refresh token")
                (find_token (is_live (hash_token x.sha256 token) fresh.now) s.tokens)
              >>= λ stored. ok (claims, stored) in
            (e : AppError) × (elim found [
              | err e ↦ (err e, s)
              | ok found ↦
                  rotate x config fresh found.0 (record s {
                    tokens = revoke_where (token_with_id x config found.1.id) s.tokens;
                  })
            ]
              ≡ (err e, s))
      refused (err e) = (e, refl)
      refused (ok claims) = (
        unauthorized "Invalid or expired refresh token",
        rw (find_token-IsDead (hash_token x.sha256 token) fresh.now s.tokens dead) refl,
      )

  abbrev pub Named : Text → ℕ → RefreshToken → Type 0
  Named hash id t = t.token_hash ≡ hash → t.id ≡ id

  -- A refresh token is used once. Where `refresh` answers a new pair for a token, whose hash stands in
  -- one row, and the new token has another hash, then refreshing the first token again, at any
  -- time, is answered with an error and changes nothing.
  pub refresh_once :
      (fresh again : Fresh) (token : Text) (s : Accounts) (claims : Claims) (stored : RefreshToken)
      (pair : TokenPair)
      → check_refresh x config fresh.now token s ≡ ok (claims, stored)
      → generate_token_pair x.jwt claims.sub claims.email config fresh.now fresh.jtis ≡ ok pair
      → All (Named (hash_token x.sha256 token) stored.id) s.tokens
      → hash_token x.sha256 pair.refresh_token ≢ hash_token x.sha256 token
      → ((refresh x config fresh token s).0 ≡ ok pair)
        × ((e : AppError) × (refresh x config again token (refresh x config fresh token s).1
              ≡ (err e, (refresh x config fresh token s).1)))
  unfolding refresh rotate store_refresh_token
  refresh_once fresh again token s claims stored pair found made one other =
      let hash = hash_token x.sha256 token in
      let revoked = revoke_where (token_with_id x config stored.id) s.tokens in
      let named =
        All-map (Named hash stored.id)
          (λ (t : RefreshToken). t.token_hash ≡ hash → token_with_id x config stored.id t ≡ true)
          s.tokens (λ (t : RefreshToken) h same. (==_iff t.id stored.id).1 (h same)) one in
      let dead =
        revoke_where-IsDead (token_with_id x config stored.id) hash again.now s.tokens named in
      let s' =
        store_refresh_token x config fresh claims.sub pair.refresh_token
          (record s { tokens = revoked }) in
      let first : refresh x config fresh token s ≡ (ok pair, s') =
        rw (found, refresh, made, rotate) refl in
      rw first (
        refl,
        refresh-refused again token s' (
            All-append (IsDead hash again.now) revoked _ dead
              (rw (text_eq_ne (hash_token x.sha256 pair.refresh_token) hash other) refl, tt)),
      )

  -- After `logout` of a token no refresh with it succeeds, at any time, and one with a token of another
  -- hash finds the row that it found before.
  pub logout_then_refresh :
      (fresh : Fresh) (token other : Text) (s : Accounts)
      → hash_token x.sha256 token ≢ hash_token x.sha256 other
      → let s' = (logout x config token s).1 in
        ((e : AppError) × (refresh x config fresh token s' ≡ (err e, s')))
        × (check_refresh x config fresh.now other s' ≡ check_refresh x config fresh.now other s)
  unfolding logout check_refresh
  logout_then_refresh fresh token other s apart =
      let hash = hash_token x.sha256 token in
      let named =
        All-each
          (λ (t : RefreshToken). t.token_hash ≡ hash → token_with_hash x config hash t ≡ true)
          s.tokens (λ (t : RefreshToken). (text_eq_iff t.token_hash hash).1) in
      (
        refresh-refused fresh token (logout x config token s).1
            (revoke_where-IsDead (token_with_hash x config hash) hash fresh.now s.tokens named),
        ap
            (λ o. validate_token x.jwt other config.jwt_secret fresh.now >>= λ claims.
              or_internal (unauthorized "Invalid or expired refresh token") o >>= λ stored.
              ok (claims, stored))
            (find_token-revoke_where hash (hash_token x.sha256 other) fresh.now s.tokens apart),
      )
