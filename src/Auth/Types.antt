-- ===== src/Auth/Types.antt =====
-- internal/auth/manager.go and the data of openshift.go: tokens, configuration, cache entries. An
-- instant is a number of nanoseconds.
use capp_backend.Prelude.{ℕ, ℤ, String, List, Option}
use capp_backend.Prelude.Assoc.{Assoc}

-- `expires_at` is the sum of an instant and a number of seconds, kept as a pair, or `none` for the
-- zero time.
pub record TokenPair : Type 0 where
  pub access_token : String
  pub refresh_token : String
  pub expires_at : Option (ℕ × ℤ)

pub record OpenShiftConfig : Type 0 where
  pub client_id : String
  pub client_secret : String
  pub redirect_uri : String
  pub scopes : List String

pub record OAuthServerMeta : Type 0 where
  pub authorization_endpoint : String
  pub token_endpoint : String

pub record CachedIdentity : Type 0 where
  pub username : String
  pub groups : List String
  pub expires_at : ℕ

-- The `sync.Map`: `none` for a value of another type.
abbrev pub TokenCache : Type 0
TokenCache = Assoc (Option CachedIdentity)

pub record OAuthTokenResponse : Type 0 where
  pub access_token : String
  pub refresh_token : String
  pub expires_in : ℤ
