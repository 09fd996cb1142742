-- ===== src/Config/Login.antt =====
-- internal/config/validation.go: what the validation promises of the two modes that impersonate.
use Prim.Native.String.{[]}
use capp_backend.Prelude.{
  String, ◌≡◌, ◌≢◌, refl, true, not, Option, none, some, [], ◌∷◌, ◌==◌, arith, eq_iff, All, is_some,
}
use capp_backend.Prelude.Assoc.{Assoc}
use capp_backend.ApiErrors.{Message}
use capp_backend.Config.{error_if}
use capp_backend.Config.GitOps.{IsPositive, not_positive_iff}
use capp_backend.Config.Errors.{passes, filled, holds, first, others, joined-eq-nil}
use capp_backend.Config.Patterns.{is_key_id}
use capp_backend.Config.Directory.{
  IsEndpoint, IsBundle, IsDirectory, IsText, validate_ldap_url-IsEndpoint, validate_ca-IsBundle,
  validate_ldap_directory-IsDirectory,
}
use capp_backend.Config.Ldap.{
  Formats, LdapSettings, ldap_errors, key_errors, validate_ldap, validate_ldap_keys,
  validate_verification_key, validate_public_key, validate_verification_keys,
}
use capp_backend.Config.Validate.{openshift_errors, OpenShiftSettings, validate_openshift}

-- A further key has an identifier of the right form; if it is that of the active key, the key is,
-- too.
abbrev pub IsKeyBeside : (f : Formats) → String → f.PrivateKey → String × String → Type 0
IsKeyBeside f id key entry =
    (is_key_id entry.0 ≡ true)
    × (public : f.PublicKey) × (f.public_key entry.1 ≡ some public)
    × (entry.0 ≡ id → f.is_same_key public (f.public_part key) ≡ true)

abbrev pub IsDirectoryLogin : Formats → LdapSettings → Type 0
IsDirectoryLogin f l =
    IsEndpoint l.url (f.parse_url l.url)
    × IsBundle f l.ca_cert
    × IsDirectory f l.directory
    × IsText f l.issuer
    × IsText f l.audience
    × IsPositive l.timeout_seconds
    × IsPositive l.token_ttl_seconds
    × (is_key_id l.signing_key_id ≡ true)
    × (key : f.PrivateKey) × (f.private_key l.signing_private_key ≡ some key)
    × All (IsKeyBeside f l.signing_key_id key) l.verification_keys

abbrev pub IsOAuthLogin : OpenShiftSettings → Type 0
IsOAuthLogin o =
    (o.api_server ≢ "")
    × (o.client.client_id ≢ "")
    × (o.client.client_secret ≢ "")
    × (o.client.redirect_uri ≢ "")

pub validate_openshift-IsOAuthLogin :
    (o : OpenShiftSettings) → validate_openshift o ≡ [] → IsOAuthLogin o
unfolding validate_openshift openshift_errors
validate_openshift-IsOAuthLogin o h =
    let (server, (id, (secret, (uri, end)))) = joined-eq-nil (openshift_errors o) h in
    (filled _ _ server, filled _ _ id, filled _ _ secret, filled _ _ uri)

public_key-IsKeyBeside :
    (f : Formats) (id name : String) (key : f.PrivateKey) (o : Option f.PublicKey)
    → validate_public_key f (name == id) (some key) o ≡ []
    → (public : f.PublicKey) × (o ≡ some public)
      × (name ≡ id → f.is_same_key public (f.public_part key) ≡ true)
unfolding validate_public_key
public_key-IsKeyBeside f id name key none h = absurd cc
public_key-IsKeyBeside f id name key (some public) h =
    (public, refl, λ e. ground (arith, eq_iff name id))

key-IsKeyBeside :
    (f : Formats) (id : String) (key : f.PrivateKey) (entry : String × String)
    → validate_verification_key f id (some key) entry.0 entry.1 ≡ []
    → IsKeyBeside f id key entry
unfolding validate_verification_key
key-IsKeyBeside f id key (name, value) h =
    let (public, known, same) =
      public_key-IsKeyBeside f id name key (f.public_key value) (others _ _ h) in
    (holds _ _ (first _ _ h), public, known, same)

keys-IsKeyBeside :
    (f : Formats) (id : String) (key : f.PrivateKey) (keys : Assoc String)
    → validate_verification_keys f id (some key) keys ≡ []
    → All (IsKeyBeside f id key) keys
unfolding validate_verification_keys
keys-IsKeyBeside f id key [] h = tt
keys-IsKeyBeside f id key (entry ∷ keys) h =
    (key-IsKeyBeside f id key entry (first _ _ h), keys-IsKeyBeside f id key keys (others _ _ h))

active_key :
    (f : Formats) (id : String) (keys : Assoc String) (e : Message) (o : Option f.PrivateKey)
    → error_if (not (is_some o)) e ≡ []
    → validate_verification_keys f id o keys ≡ []
    → (key : f.PrivateKey) × (o ≡ some key) × All (IsKeyBeside f id key) keys
active_key f id keys e none h beside = absurd cc
active_key f id keys e (some key) h beside = (key, refl, keys-IsKeyBeside f id key keys beside)

pub ldap-IsDirectoryLogin :
    (f : Formats) (l : LdapSettings) → validate_ldap f l ≡ [] → IsDirectoryLogin f l
unfolding validate_ldap ldap_errors validate_ldap_keys key_errors
ldap-IsDirectoryLogin f l h =
    let (url, (ca, (directory, (issuer, (audience, (timeout, (ttl, (keys, end)))))))) =
      joined-eq-nil (ldap_errors f l) h in
    let (id, (parsed, (beside, end))) = joined-eq-nil (key_errors f l) keys in
    let (key, known, same) =
      active_key f l.signing_key_id l.verification_keys _ (f.private_key l.signing_private_key)
        parsed beside in
    (
      validate_ldap_url-IsEndpoint f l.url url,
      validate_ca-IsBundle f l.ca_cert ca,
      validate_ldap_directory-IsDirectory f l.directory directory,
      filled _ _ issuer,
      filled _ _ audience,
      (not_positive_iff l.timeout_seconds).0 (passes _ _ timeout),
      (not_positive_iff l.token_ttl_seconds).0 (passes _ _ ttl),
      holds _ _ id,
      key,
      known,
      same,
    )
