-- ===== src/Auth/OAuth.antt =====
-- internal/auth/openshift.go: the calls of the OAuth server, and the authorize URL.
use capp_backend.Prelude.{
  ℕ, ℤ, pos, suc, String, Bool, ◌||◌, ◌&&◌, Option, none, some, List, [], ◌∷◌, Result, ok, err,
  map_err, ◌==◌, if◌then◌else◌, nat_eq,
}
use capp_backend.Prelude.Assoc.{Assoc}
use capp_backend.Prelude.Texts.{◌⧺◌}
use capp_backend.Prelude.Decimal.{parse_int, format_int}
use capp_backend.ApiErrors.{GoError, sentinel, errorf, wrapped, literal, sprintf, bad_credentials}
use capp_backend.Kubernetes.Exec.{Exec, pure, raise, lift, read, fail_with, ◌>>=◌}
use capp_backend.Auth.Types.{TokenPair, OpenShiftConfig, OAuthServerMeta, OAuthTokenResponse}
use capp_backend.Auth.State.{sign_state}

-- The part of a request that the program sets; the body is the form.
pub record Request : Type 0 where
  pub method : String
  pub url : String
  pub headers : Assoc String
  pub form : Assoc String

pub record Response : Type 0 where
  pub status : ℕ
  pub location : String

-- What `url.Parse` and `url.ParseQuery` make of a redirect, by the names of its parameters, "" for
-- one that is missing.
pub record Redirect : Type 0 where
  pub fragment : String → String
  pub query : String → String

-- What the manager asks of libraries: the making of a request, the client that follows redirects
-- and the one that does not, the bytes of a body, the JSON decoders, `url.Values.Encode`, base64,
-- `url.Parse`, random bytes in hexadecimal, and the clock.
pub record Web (W : Type 0) : Type 0 where
  pub new_request : Request → Result GoError Request
  pub send : Request → Exec W Response
  pub send_once : Request → Exec W Response
  pub read_body : Response → Exec W String
  pub decode_error : String → String
  pub decode_token : String → Result GoError OAuthTokenResponse
  pub encode : Assoc String → String
  pub base64 : String → String
  pub parse_redirect : String → Result GoError Redirect
  pub random_hex : Exec W String
  pub now : W → ℕ

pub record OpenShiftManager : Type 0 where
  pub cfg : OpenShiftConfig
  pub oauth_meta : OAuthServerMeta
  pub signature : String → String

-- The codes of the OAuth errors that blame the credentials.
abbrev pub blames_credentials : String → Bool
blames_credentials code = code == "invalid_grant" || code == "access_denied"

abbrev pub is_auth_failure : ℕ → Bool
is_auth_failure status = nat_eq status 400 || nat_eq status 401

-- The error for an answer of the token endpoint that is not 200.
unfoldable pub token_failure : ℕ → String → GoError
token_failure status code =
    if is_auth_failure status && blames_credentials code
    then wrapped
        (sprintf "oauth server returned %q (status %d)" (code ∷ format_int (pos status) ∷ []))
        (sentinel bad_credentials)
    else errorf (
        sprintf "openshift: oauth server returned %q (status %d)"
          (code ∷ format_int (pos status) ∷ []))

abbrev token_pair : OAuthTokenResponse → ℕ → TokenPair
token_pair t now = record {
  access_token = t.access_token;
  refresh_token = t.refresh_token;
  expires_at = some (now, t.expires_in);
}

abbrev token_of : OAuthTokenResponse → ℕ → Result GoError TokenPair
token_of t now =
    if t.access_token == ""
    then err (errorf (literal "openshift: token response missing access_token"))
    else ok (token_pair t now)

-- `strconv.Atoi`, then the test that the number is positive.
abbrev lifetime : ℕ → Option ℤ → Option (ℕ × ℤ)
lifetime now (some (pos (suc n))) = some (now, pos (suc n))
lifetime now _ = none

-- The parameters of a redirect that carry its result.
abbrev params_of : Redirect → String → String
params_of u =
    if u.fragment "access_token" == "" && u.fragment "error" == "" then u.query else u.fragment

-- The end of `parseTokenFromLocation`, for these parameters.
unfoldable pub token_from_params : (String → String) → ℕ → Result GoError TokenPair
unfolding parse_int
token_from_params params now =
    if params "access_token" == ""
    then (if params "error" == ""
        then err (errorf (literal "openshift: no access_token in redirect"))
        else if blames_credentials (params "error")
        then err (wrapped (literal (params "error_description")) (sentinel bad_credentials))
        else err (
            errorf (
              sprintf "openshift: OAuth error %q: %s"
                (params "error" ∷ params "error_description" ∷ []))))
    else ok (record {
      access_token = params "access_token";
      refresh_token = "";
      expires_at = lifetime now (parse_int (params "expires_in"));
    })

abbrev login_params : Assoc String
login_params = ("response_type", "token") ∷ ("client_id", "openshift-challenging-client") ∷ []

abbrev redirect_or : OpenShiftConfig → String → String
redirect_or cfg uri = if uri == "" then cfg.redirect_uri else uri

-- `strings.Join(..., " ")`
abbrev join_scopes : List String → String
join_scopes [] = ""
join_scopes (s ∷ []) = s
join_scopes (s ∷ t ∷ rest) = s ⧺ " " ⧺ join_scopes (t ∷ rest)

abbrev form_type : Assoc String
form_type = ("Content-Type", "application/x-www-form-urlencoded") ∷ []

module _ {W : Type 0} (web : Web W) where
  unfoldable pub parse_token_from_location : String → Exec W TokenPair
  unfolding token_from_params
  parse_token_from_location location =
      if location == ""
      then raise (errorf (literal "openshift: no Location header in redirect"))
      else (do
        u ← lift (
            map_err (wrapped (literal "openshift: parsing redirect URL"))
              (web.parse_redirect location))
        pair ← read (λ w. token_from_params (params_of u) (web.now w))
        pure pair)

  -- The answer of the token endpoint.
  unfoldable pub token_answer : ℕ → String → Exec W TokenPair
  unfolding token_failure
  token_answer status body =
      if nat_eq status 200
      then (do
        t ← lift (
            map_err (wrapped (literal "openshift: parsing token response")) (web.decode_token body))
        read (λ w. token_of t (web.now w)))
      else raise (token_failure status (web.decode_error body))

  -- The answer to a login redirect, to a challenge, or to anything else.
  unfoldable pub challenge_answer : Response → Exec W TokenPair → GoError → Exec W TokenPair
  unfolding parse_token_from_location
  challenge_answer resp unauthorized unexpected =
      if nat_eq resp.status 302
      then parse_token_from_location resp.location
      else if nat_eq resp.status 401
      then unauthorized
      else raise unexpected

module _ {W : Type 0} (web : Web W) (m : OpenShiftManager) where
  unfoldable pub oauth_token_request : Assoc String → Exec W TokenPair
  unfolding token_answer
  oauth_token_request form = do
    req ← lift (
        map_err (wrapped (literal "openshift: building token request")) (
          web.new_request (record {
            method = "POST";
            url = m.oauth_meta.token_endpoint;
            headers = form_type;
            form = form;
          })))
    resp ← fail_with (wrapped (literal "openshift: token request failed")) (web.send req)
    body ← fail_with (wrapped (literal "openshift: reading token response")) (web.read_body resp)
    token_answer web resp.status body

  unfoldable pub refresh : String → Exec W TokenPair
  unfolding oauth_token_request
  refresh refresh_token = oauth_token_request (
      ("grant_type", "refresh_token")
      ∷ ("refresh_token", refresh_token)
      ∷ ("client_id", m.cfg.client_id)
      ∷ ("client_secret", m.cfg.client_secret)
      ∷ [])

  unfoldable pub oauth_exchange : String → String → Exec W TokenPair
  unfolding oauth_token_request
  oauth_exchange code redirect_uri = oauth_token_request (
      ("grant_type", "authorization_code")
      ∷ ("code", code)
      ∷ ("redirect_uri", redirect_or m.cfg redirect_uri)
      ∷ ("client_id", m.cfg.client_id)
      ∷ ("client_secret", m.cfg.client_secret)
      ∷ [])

  -- The URL and the state.
  unfoldable pub get_authorize_url : String → Exec W (String × String)
  unfolding sign_state
  get_authorize_url redirect_uri = do
    nonce ← fail_with (wrapped (literal "openshift: generating CSRF state")) web.random_hex
    state ← read (λ w. ok (sign_state m.signature nonce (web.now w)))
    pure (
      m.oauth_meta.authorization_endpoint
          ⧺ "?"
          ⧺ web.encode (
              ("client_id", m.cfg.client_id)
              ∷ ("redirect_uri", redirect_or m.cfg redirect_uri)
              ∷ ("response_type", "code")
              ∷ ("scope", join_scopes m.cfg.scopes)
              ∷ ("state", state)
              ∷ []),
      state,
    )

  -- `doRequest`, with the `Authorization` header that it sets.
  unfoldable pub do_request : Assoc String → Exec W Response
  do_request authorization = do
    req ← lift (
        web.new_request (record {
          method = "GET";
          url = m.oauth_meta.authorization_endpoint ⧺ "?" ⧺ web.encode login_params;
          headers = ("X-CSRF-Token", "1") ∷ authorization;
          form = [];
        }))
    web.send_once req

  unfoldable pub password_login : String → String → Exec W TokenPair
  unfolding do_request challenge_answer
  password_login username password = do
    resp ← fail_with (wrapped (literal "openshift: challenge request failed")) (do_request [])
    challenge_answer web resp
        (do
          again ←
              fail_with (wrapped (literal "openshift: authenticated challenge request failed")) (
                do_request
                  (("Authorization", "Basic " ⧺ web.base64 (username ⧺ ":" ⧺ password)) ∷ []))
          challenge_answer web again
              (raise (wrapped (literal "invalid credentials") (sentinel bad_credentials)))
              (errorf (
                sprintf "openshift: unexpected auth response status %d"
                  (format_int (pos again.status) ∷ []))))
        (errorf (
          sprintf
            "openshift: unexpected challenge status %d (IDP may not support challenge-response)"
            (format_int (pos resp.status) ∷ [])))
