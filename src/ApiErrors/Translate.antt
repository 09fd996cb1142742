-- ===== src/ApiErrors/Translate.antt =====
-- internal/apierrors/errors.go: `translateK8sError`, `k8sSafeMessage` and `Respond`.
use capp_backend.Prelude.{
  ℕ, String, Bool, true, Option, none, some, List, [], ◌∷◌, ◌++◌, ◌||◌, ◌==◌, if◌then◌else◌, get_or,
}
use capp_backend.ApiErrors.{
  ApiError, GoError, K8sErrors, Code, Message, literal, sprintf, not_found, conflict, forbidden,
  unauthorized, bad_request, internal, as_api_error, internal_error,
}
use capp_backend.ApiErrors.Messages.{forbidden_message}

unfoldable pub safe_message : K8sErrors → GoError → String → Message
safe_message k e fallback = elim (k.details_name e) [
  | none ↦ literal fallback
  | some name ↦ if name == "" then literal fallback else sprintf "%s: %q" (fallback ∷ name ∷ [])
]

abbrev envelope : Code → Message → ℕ → Option ApiError
envelope code message status = some (record { code = code; message = message; status = status })

-- The cause of the result is always the argument, so only the client's part is returned.
unfoldable pub translate_k8s_error : K8sErrors → GoError → Option ApiError
unfolding safe_message
translate_k8s_error k err =
    if k.is_not_found err
    then envelope not_found (safe_message k err "resource not found") 404
    else if k.is_already_exists err
    then envelope conflict (safe_message k err "resource already exists") 409
    else if k.is_forbidden err
    then envelope forbidden (forbidden_message k err) 403
    else if k.is_unauthorized err
    then envelope unauthorized (literal "unauthorized") 401
    else if k.is_invalid err
    then envelope bad_request (literal "request validation failed") 400
    else if k.is_service_unavailable err
    then envelope internal (literal "service temporarily unavailable") 503
    else if k.is_timeout err || k.is_server_timeout err
    then envelope internal (literal "request timed out") 504
    else if k.is_internal_error err
    then envelope internal (literal "internal server error") 500
    else none

-- The part of the Gin context that `Respond` writes.
pub record Context : Type 0 where
  pub errors : List GoError
  pub aborted : Bool
  pub response : Option ApiError

-- What the client is sent for an error.
unfoldable pub error_response : K8sErrors → GoError → ApiError
unfolding as_api_error translate_k8s_error
error_response k err = elim (as_api_error err) [
  | some e ↦ e
  | none ↦ get_or (translate_k8s_error k err) internal_error
]

unfoldable pub respond : K8sErrors → GoError → Context → Context
unfolding error_response
respond k err c = record {
  errors = c.errors ++ err ∷ [];
  aborted = true;
  response = some (error_response k err);
}
