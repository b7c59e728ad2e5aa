-- ===== src/Server/Error.antt =====
-- packages/core/src/error.rs and apps/server/src/error.rs: the error kinds and their HTTP status. The
-- message texts are not modelled.
use free_box.Prelude.{ℕ}

-- `freebox_core::Error`
pub data CoreError : Type 0 where
  object_not_found storage unauthenticated unauthorized token_expired config plugin_load : CoreError
  no_storage_provider encryption decryption key_not_found other io serde : CoreError

pub data AppError : Type 0 where
  not_found unauthorized forbidden bad_request conflict rate_limited : AppError
  payload_too_large internal : AppError

-- `IntoResponse for AppError`
abbrev pub status : AppError → ℕ
status not_found = 404
status unauthorized = 401
status forbidden = 403
status bad_request = 400
status conflict = 409
status rate_limited = 429
status payload_too_large = 413
status internal = 500

-- `From<freebox_core::Error> for AppError`
abbrev pub from_core : CoreError → AppError
from_core object_not_found = not_found
from_core unauthenticated = AppError.unauthorized
from_core unauthorized = forbidden
from_core token_expired = AppError.unauthorized
from_core _ = internal
