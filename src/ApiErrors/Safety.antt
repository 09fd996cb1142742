-- ===== src/ApiErrors/Safety.antt =====
-- internal/apierrors/errors.go: what a client is told of an error, and what it is not told.
use Prim.Native.Char.{Char}
use Prim.Native.String.{[], ◌∷◌}
use package.text.Mathlib.TextLemmas.{cons-ne-nil}
use capp_backend.Prelude.Texts.{◌⧺◌}
use capp_backend.Prelude.{
  ◌≤◌, ◌≡◌, ◌∙◌, ap, ◌↔◌, String, true, false, ◌==◌, none, some, arith, eq_iff,
}
use capp_backend.ApiErrors.{GoError, K8sErrors, as_api_error, internal, literal}
use capp_backend.ApiErrors.Messages.{
  forbidden_message, forbidden_text, webhook_denial, without_identities,
}
use capp_backend.ApiErrors.Messages.Identity.{NoQuote, NoCapitalU, without_identities-hides}
use capp_backend.ApiErrors.Translate.{error_response, translate_k8s_error}

-- Of an error that is no `*APIError` the client gets a status from 400 to 504, and the code is
-- `INTERNAL_ERROR` exactly when the status is 500 or more.
pub error_response-status :
    (k : K8sErrors) (e : GoError)
    → as_api_error e ≡ none
    → (400 ≤ (error_response k e).status)
      × ((error_response k e).status ≤ 504)
      × (((error_response k e).code ≡ internal) ↔ (500 ≤ (error_response k e).status))
unfolding error_response
error_response-status k e h = ground arith

forbidden_text-rbac :
    (msg : String)
    → (msg == "") ≡ false
    → webhook_denial msg ≡ none
    → forbidden_text msg ≡ without_identities msg
unfolding forbidden_text
forbidden_text-rbac msg h w = ground arith

cons-ne-empty : (c : Char) (s : String) → (c ∷ s == "") ≡ false
cons-ne-empty c s = ground (arith, eq_iff (c ∷ s) "", cons-ne-nil c s)

⧺-ne-empty : (p u s : String) → (p ⧺ "User \"" ⧺ u ⧺ "\" " ⧺ s == "") ≡ false
⧺-ne-empty [] u s = cons-ne-empty _ _
⧺-ne-empty (c ∷ p) u s = cons-ne-empty _ _

error_response-forbidden :
    (k : K8sErrors) (e : GoError) {msg : String}
    → as_api_error e ≡ none
    → k.is_not_found e ≡ false
    → k.is_already_exists e ≡ false
    → k.is_forbidden e ≡ true
    → k.status_message e ≡ some msg
    → (error_response k e).message ≡ literal (forbidden_text msg)
unfolding error_response translate_k8s_error forbidden_message
error_response-forbidden k e h n a f m = ground arith

-- A forbidden error whose message has the form `... User "name" ...` is answered with the message
-- without the name, whatever the name: the answer is the text before the name and what is left of
-- the text after it. The name holds no quote, the text before it no `U`, and the message is no
-- denial of an admission webhook.
pub error_response-hides :
    (k : K8sErrors) (e : GoError) (p u s : String)
    → as_api_error e ≡ none
    → k.is_not_found e ≡ false
    → k.is_already_exists e ≡ false
    → k.is_forbidden e ≡ true
    → k.status_message e ≡ some (p ⧺ "User \"" ⧺ u ⧺ "\" " ⧺ s)
    → webhook_denial (p ⧺ "User \"" ⧺ u ⧺ "\" " ⧺ s) ≡ none
    → NoCapitalU p
    → NoQuote u
    → (error_response k e).message ≡ literal (p ⧺ without_identities s)
error_response-hides k e p u s h n a f m w hp hu =
    error_response-forbidden k e h n a f m
    ∙ ap literal (forbidden_text-rbac _ (⧺-ne-empty p u s) w ∙ without_identities-hides p u s hp hu)
