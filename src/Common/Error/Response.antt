-- ===== src/Common/Error/Response.antt =====
-- What a client learns of an error.
use pcos.Prelude.{codes, ◌≤◌, ◌≡◌, ◌⊎◌, refl, arith, inl, inr}
use pcos.Common.Error.{
  AppError, not_found, unauthorized, forbidden, validation, conflict, internal, database, jwt,
  rate_limited, status_code, display, public_message, into_response,
}

-- A response tells the details of an error exactly where it is the client's: an error with a status of
-- 500 and over is answered by one fixed text, and any other error by its own text, with a status
-- from 401 to 429.
pub into_response_lem :
    (e : AppError)
    → ((500 ≤ status_code e) × ((into_response e).message ≡ codes "An internal error occurred"))
      ⊎ ((401 ≤ status_code e) × (status_code e ≤ 429) × ((into_response e).message ≡ display e))
unfolding into_response public_message status_code
into_response_lem (internal s) = inl (omega arith, refl)
into_response_lem (database s) = inl (omega arith, refl)
into_response_lem (not_found s) = inr (omega arith, omega arith, refl)
into_response_lem (unauthorized s) = inr (omega arith, omega arith, refl)
into_response_lem (forbidden s) = inr (omega arith, omega arith, refl)
into_response_lem (validation s) = inr (omega arith, omega arith, refl)
into_response_lem (conflict s) = inr (omega arith, omega arith, refl)
into_response_lem (jwt s) = inr (omega arith, omega arith, refl)
into_response_lem rate_limited = inr (omega arith, omega arith, refl)
