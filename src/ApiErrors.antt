-- ===== src/ApiErrors.antt =====
-- internal/apierrors/errors.go: the error values of the program, their translation into the JSON
-- error envelope, and the constructors. A message is kept as its format and arguments; the text that
-- `fmt` makes of them is not modelled.
pub mod Messages
pub mod Translate
pub mod Safety
use capp_backend.Prelude.{
  ℕ, String, Bool, true, false, Option, none, some, List, [], ◌∷◌, if◌then◌else◌, ◌==◌,
}

pub data Code : Type 0 where
  not_found conflict forbidden unauthorized bad_request internal : Code
  cluster_not_found cluster_unhealthy not_supported namespace_denied : Code
  gitops_failed prometheus_query_failed rate_limited : Code

-- The text of a message: a constant, or `fmt.Sprintf` of a format and its arguments.
pub data Message : Type 0 where
  literal : String → Message
  sprintf : String → List String → Message

-- The fields of `APIError` that go to the client. `Details` is never set by this program.
pub record ApiError : Type 0 where
  pub code : Code
  pub message : Message
  pub status : ℕ

-- The package-level error values that callers compare with `errors.Is`.
pub data Sentinel : Type 0 where
  unauthenticated not_supported token_expired bad_credentials directory_unavailable : Sentinel
  cluster_not_found : Sentinel

-- A Go error: an `*APIError` without or with a cause, a sentinel, `errors.New` and `fmt.Errorf`
-- without `%w`, `fmt.Errorf` with `%w`, and an error that a library made.
pub data GoError : Type 0 where
  api : ApiError → GoError
  api_caused : ApiError → GoError → GoError
  sentinel : Sentinel → GoError
  errorf : Message → GoError
  wrapped : Message → GoError → GoError
  foreign : String → GoError

-- `errors.As(err, &apiErr)`: the first `*APIError` in the chain.
unfoldable pub as_api_error : GoError → Option ApiError
as_api_error (api e) = some e
as_api_error (api_caused e cause) = some e
as_api_error (wrapped m cause) = as_api_error cause
as_api_error _ = none

-- `errors.Is(err, target)` for a sentinel; `Sentinel` values are compared by `same`.
abbrev pub same : Sentinel → Sentinel → Bool
same unauthenticated unauthenticated = true
same Sentinel.not_supported Sentinel.not_supported = true
same token_expired token_expired = true
same bad_credentials bad_credentials = true
same directory_unavailable directory_unavailable = true
same Sentinel.cluster_not_found Sentinel.cluster_not_found = true
same _ _ = false

unfoldable pub is_sentinel : Sentinel → GoError → Bool
is_sentinel s (sentinel t) = same s t
is_sentinel s (api_caused e cause) = is_sentinel s cause
is_sentinel s (wrapped m cause) = is_sentinel s cause
is_sentinel s _ = false

abbrev pub new_not_found : String → String → ApiError
new_not_found resource name = record {
  code = not_found;
  message = sprintf "%s %q not found" (resource ∷ name ∷ []);
  status = 404;
}

abbrev pub new_conflict : Message → ApiError
new_conflict msg = record { code = conflict; message = msg; status = 409 }

abbrev pub new_forbidden : Message → ApiError
new_forbidden msg = record { code = forbidden; message = msg; status = 403 }

abbrev pub new_unauthorized : Message → ApiError
new_unauthorized msg = record { code = unauthorized; message = msg; status = 401 }

abbrev pub new_bad_request : Message → ApiError
new_bad_request msg = record { code = bad_request; message = msg; status = 400 }

-- The client-facing part of `NewInternal`; the cause is the argument of `api_caused`.
abbrev pub internal_error : ApiError
internal_error = record { code = internal; message = literal "internal server error"; status = 500 }

abbrev pub new_internal : GoError → GoError
new_internal cause = api_caused internal_error cause

abbrev pub new_cluster_not_found : String → ApiError
new_cluster_not_found name = record {
  code = Code.cluster_not_found;
  message = sprintf "cluster %q is not configured" (name ∷ []);
  status = 404;
}

abbrev pub new_cluster_unhealthy : String → ApiError
new_cluster_unhealthy name = record {
  code = cluster_unhealthy;
  message = sprintf "cluster %q is currently unavailable" (name ∷ []);
  status = 503;
}

abbrev pub new_not_supported : String → ApiError
new_not_supported operation = record {
  code = Code.not_supported;
  message = sprintf "operation %q is not supported in the current configuration" (operation ∷ []);
  status = 501;
}

abbrev pub new_namespace_denied : String → String → ApiError
new_namespace_denied namespace cluster = record {
  code = namespace_denied;
  message = sprintf "namespace %q is not accessible on cluster %q" (namespace ∷ cluster ∷ []);
  status = 403;
}

abbrev pub gitops_error : ApiError
gitops_error = record {
  code = gitops_failed;
  message = literal "writing to the GitOps repository failed; retry the sync/unsync operation";
  status = 502;
}

abbrev pub new_gitops_failed : GoError → GoError
new_gitops_failed cause = api_caused gitops_error cause

abbrev pub prometheus_error : ApiError
prometheus_error = record {
  code = prometheus_query_failed;
  message = literal "Prometheus query failed";
  status = 502;
}

abbrev pub new_prometheus_query_failed : GoError → GoError
new_prometheus_query_failed cause = api_caused prometheus_error cause

-- What k8s.io/apimachinery/pkg/api/errors tells of an error: the predicates, the message of a
-- `*StatusError` in the chain, and the name in its details ("" where there is none).
pub record K8sErrors : Type 0 where
  pub is_not_found : GoError → Bool
  pub is_already_exists : GoError → Bool
  pub is_forbidden : GoError → Bool
  pub is_unauthorized : GoError → Bool
  pub is_invalid : GoError → Bool
  pub is_service_unavailable : GoError → Bool
  pub is_timeout : GoError → Bool
  pub is_server_timeout : GoError → Bool
  pub is_internal_error : GoError → Bool
  pub status_message : GoError → Option String
  pub details_name : GoError → Option String
