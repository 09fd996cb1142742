-- ===== src/Tests/ApiErrors.antt =====
-- internal/apierrors/errors.go at concrete errors.
use capp_backend.Prelude.Texts.{◌⧺◌}
use capp_backend.Prelude.{String, ◌≡◌, ◌≤◌, ◌↔◌, refl, none, arith}
use capp_backend.ApiErrors.{foreign, literal, internal, as_api_error}
use capp_backend.ApiErrors.Messages.{without_identities, webhook_denial, forbidden_text}
use capp_backend.ApiErrors.Translate.{error_response}
use capp_backend.ApiErrors.Safety.{error_response-status, error_response-hides}
use capp_backend.Tests.Fixtures.{errors}

no_api : (s : String) → as_api_error (foreign s) ≡ none
unfolding as_api_error
no_api s = refl

error_response-status_example :
    (400 ≤ (error_response errors (foreign "not found")).status)
    × ((error_response errors (foreign "not found")).status ≤ 504)
    × (((error_response errors (foreign "not found")).code ≡ internal)
        ↔ (500 ≤ (error_response errors (foreign "not found")).status))
error_response-status_example = error_response-status errors (foreign "not found") (no_api _)

rbac : webhook_denial "no: User \"bob\" cannot get capps" ≡ none
unfolding webhook_denial
rbac = refl

error_response-hides_example :
    (error_response errors (foreign "forbidden")).message
    ≡ literal ("no: " ⧺ without_identities "cannot get capps")
error_response-hides_example =
    error_response-hides errors (foreign "forbidden") "no: " "bob" "cannot get capps" (no_api _)
      refl refl refl refl rbac (ground arith) (ground arith)

-- Texts as the API server sends them.
denied :
    forbidden_text "admission webhook \"capp.dana.io\" denied the request: host taken"
    ≡ "host taken"
unfolding forbidden_text
denied = refl

hidden :
    forbidden_text "capps \"x\" is forbidden: User \"bob\" cannot get capps"
    ≡ "capps \"x\" is forbidden: cannot get capps"
unfolding forbidden_text
hidden = refl
