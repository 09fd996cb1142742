-- ===== src/Auth/Ldap/Manager.antt =====
-- internal/auth/ldap.go: the manager of the directory logins.
use capp_backend.Prelude.{ℕ, String, Result, ok, err}
use capp_backend.ApiErrors.{GoError, sentinel, unauthenticated}
use capp_backend.Kubernetes.Exec.{Exec, read, ◌>>=◌}
use capp_backend.Clusters.{ClusterCredential}
use capp_backend.Auth.Types.{TokenPair}
use capp_backend.Auth.Ldap.{Directory, LdapConfig}
use capp_backend.Auth.Ldap.Search.{verify}
use capp_backend.Auth.Ldap.Tokens.{Jwt, LdapTokens, issue}

module _ (j : Jwt) (t : LdapTokens j) where
  -- `Authenticate`, from what `BearerExtractor` makes of the request.
  unfoldable pub authenticate : Result GoError String → ℕ → Result GoError ClusterCredential
  authenticate (err e) now = err (sentinel unauthenticated)
  authenticate (ok token) now = capp_backend.Auth.Ldap.Tokens.verify j t now token

  -- The clock is that of the tokens.
  unfoldable pub password_login :
      {W : Type 0} → Directory W → LdapConfig → (W → ℕ) → String → String → Exec W TokenPair
  unfolding verify issue
  password_login d cfg now username password = do
    user ← verify d cfg username password
    read (λ w. issue j t (now w) user.0 user.1)
