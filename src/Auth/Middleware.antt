-- ===== src/Auth/Middleware.antt =====
-- internal/middleware/auth.go: the answer to a request that is not authenticated.
use capp_backend.Prelude.{Result, map_err, if◌then◌else◌}
use capp_backend.ApiErrors.{
  GoError, Sentinel, ApiError, internal, api, literal, is_sentinel, new_unauthorized, new_internal,
}
use capp_backend.Clusters.{ClusterCredential}

abbrev directory_error : ApiError
directory_error = record {
  code = internal;
  message = literal "directory service unavailable";
  status = 503;
}

unfoldable pub auth_error : GoError → GoError
unfolding is_sentinel
auth_error e =
    if is_sentinel Sentinel.unauthenticated e
    then api (new_unauthorized (literal "request is not authenticated"))
    else if is_sentinel Sentinel.token_expired e
    then api (new_unauthorized (literal "token has expired"))
    else if is_sentinel Sentinel.directory_unavailable e
    then api directory_error
    else new_internal e

-- The credential that the middleware attaches, or the error that it passes to `Respond`.
unfoldable pub auth_middleware : Result GoError ClusterCredential → Result GoError ClusterCredential
unfolding auth_error
auth_middleware answer = map_err auth_error answer
