-- ===== src/Auth/Bearer.antt =====
-- internal/auth/passthrough.go, and the token of a request in openshift.go.
use capp_backend.Prelude.{String, [], none, some, Result, ok, err, ◌==◌, ◌>>=◌, if◌then◌else◌}
use capp_backend.ApiErrors.{GoError, sentinel, unauthenticated}
use capp_backend.ApiErrors.Messages.{after}
use capp_backend.Clusters.{ClusterCredential}
use capp_backend.Auth.Types.{TokenPair}

-- The token in an `Authorization` header, "" where the request has none.
unfoldable pub bearer_token : String → Result GoError String
unfolding after
bearer_token raw =
    if raw == "" then err (sentinel unauthenticated) else elim (after "Bearer " raw) [
      | none ↦ err (sentinel unauthenticated)
      | some token ↦ ok token
    ]

-- The credential of a caller who brings a token for the clusters.
unfoldable pub passthrough_authenticate : String → Result GoError ClusterCredential
unfolding bearer_token
passthrough_authenticate raw = bearer_token raw >>= λ token.
    if token == ""
    then err (sentinel unauthenticated)
    else ok (record { bearer_token = token; impersonate_user = ""; impersonate_groups = [] })

-- `Login`, `PasswordLogin` and `Refresh` in passthrough mode, `Login` in the other two.
abbrev pub unsupported : Result GoError TokenPair
unsupported = err (sentinel capp_backend.ApiErrors.Sentinel.not_supported)
