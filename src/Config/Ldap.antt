-- ===== src/Config/Ldap.antt =====
-- internal/config/validation.go: the validation of the LDAP login, which never contacts the
-- directory.
use capp_backend.Prelude.{
  ℤ, pos, negsuc, String, Bool, true, false, ◌&&◌, ◌||◌, not, Option, none, some, List, [], ◌∷◌,
  ◌++◌, ◌==◌, nat_eq, leb, if◌then◌else◌, is_some,
}
use capp_backend.Prelude.Assoc.{Assoc}
use capp_backend.Prelude.Decimal.{parse_int}
use capp_backend.ApiErrors.{Message, literal, sprintf}
use capp_backend.Auth.Ldap.{LdapConfig, replace_all}
use capp_backend.Config.{error_if, joined, not_positive}
use capp_backend.Config.Patterns.{is_key_id, is_attribute, has_hash, count_text}

-- What `Parse` of net/url makes of a text.
pub record Url : Type 0 where
  pub scheme : String
  pub hostname : String
  pub port : String
  pub has_user : Bool
  pub path : String
  pub raw_query : String
  pub force_query : Bool

-- The fields that only the validation and the constructor of the login read.
pub record LdapSettings : Type 0 where
  pub directory : LdapConfig
  pub url : String
  pub ca_cert : String
  pub timeout_seconds : ℤ
  pub token_ttl_seconds : ℤ
  pub issuer : String
  pub audience : String
  pub signing_key_id : String
  pub signing_private_key : String
  pub verification_keys : Assoc String

-- What the validation asks of libraries: texts, URLs, base64, certificates, DNs, filters, and Ed25519
-- keys in PEM.
pub record Formats : Type 1 where
  pub PrivateKey : Type 0
  pub PublicKey : Type 0
  pub trim_space : String → String
  pub parse_url : String → Option Url
  pub decode_base64 : String → Option String
  pub has_certificates : String → Bool
  pub is_dn : String → Bool
  pub is_filter : String → Bool
  pub private_key : String → Option PrivateKey
  pub public_key : String → Option PublicKey
  pub public_part : PrivateKey → PublicKey
  pub is_same_key : PublicKey → PublicKey → Bool

abbrev pub or_else : {A : Type 0} → Bool → Option A → (A → Bool) → Bool
or_else b none f = b
or_else b (some a) f = f a

abbrev pub is_port : ℤ → Bool
is_port (pos n) = leb 1 n && leb n 65535
is_port (negsuc n) = false

abbrev pub is_endpoint : String → Url → Bool
is_endpoint raw u =
    u.scheme == "ldaps"
    && (not (u.hostname == "")
        && (not u.has_user
            && (u.path == "" && (u.raw_query == "" && (not u.force_query && not (has_hash raw))))))

-- `validateLDAPURL` from what `Parse` has made of the text.
unfoldable pub url_errors : String → Option Url → List Message
unfolding has_hash parse_int
url_errors raw u =
    if not (or_else false u (is_endpoint raw))
    then literal
        "config: auth.ldap.url must be an ldaps:// host/port URL without credentials, path, query, or fragment"
      ∷ []
    else error_if
        (not (or_else true u (λ v. v.port == "" || or_else false (parse_int v.port) is_port)))
        (literal "config: auth.ldap.url port must be between 1 and 65535")

unfoldable pub validate_ldap_url : Formats → String → List Message
unfolding url_errors
validate_ldap_url f raw = url_errors raw (f.parse_url raw)

-- The loop body for a DN.
abbrev pub validate_dn : Formats → String → String → List Message
validate_dn f name value =
    if f.trim_space value == ""
    then sprintf "config: auth.ldap.%s is required" (name ∷ []) ∷ []
    else error_if (not (f.is_dn value))
        (sprintf "config: auth.ldap.%s must be a valid LDAP DN" (name ∷ []))

unfoldable pub validate_ldap_filter : Formats → String → String → String → List Message
unfolding count_text replace_all
validate_ldap_filter f name filter placeholder =
    if not (nat_eq (count_text placeholder 0 filter) 1)
    then sprintf "config: auth.ldap.%s must contain exactly one %s placeholder"
        (name ∷ placeholder ∷ [])
      ∷ []
    else error_if (not (f.is_filter (replace_all placeholder "value" 0 filter)))
        (sprintf "config: auth.ldap.%s must be a valid LDAP filter" (name ∷ []))

abbrev pub validate_attribute : String → String → List Message
validate_attribute name value =
    error_if (not (is_attribute value))
      (sprintf "config: auth.ldap.%s must be an LDAP attribute description" (name ∷ []))

unfoldable pub directory_errors : Formats → LdapConfig → List (List Message)
unfolding validate_ldap_filter
directory_errors f cfg =
    validate_dn f "bindDN" cfg.bind_dn
    ∷ validate_dn f "userBaseDN" cfg.user_base_dn
    ∷ validate_dn f "groupBaseDN" cfg.group_base_dn
    ∷ (error_if (cfg.bind_password == "") (
        literal
          "config: auth.ldap.bindPassword is required; supply it through a Secret or CAPP_AUTH_LDAP_BINDPASSWORD"))
    ∷ validate_ldap_filter f "userFilter" cfg.user_filter "{username}"
    ∷ validate_ldap_filter f "groupFilter" cfg.group_filter "{userDN}"
    ∷ validate_attribute "usernameAttribute" cfg.username_attribute
    ∷ validate_attribute "groupNameAttribute" cfg.group_name_attribute
    ∷ []

unfoldable pub validate_ldap_directory : Formats → LdapConfig → List Message
unfolding directory_errors
validate_ldap_directory f cfg = joined (directory_errors f cfg)

abbrev pub key_conflict : (f : Formats) → Option f.PrivateKey → f.PublicKey → Bool
key_conflict f none public = false
key_conflict f (some private) public = not (f.is_same_key public (f.public_part private))

-- A key of `verificationKeys` after it is parsed.
unfoldable pub validate_public_key :
    (f : Formats) → Bool → Option f.PrivateKey → Option f.PublicKey → List Message
validate_public_key f is_active private none =
    literal "config: auth.ldap.verificationKeys must contain PEM Ed25519 public keys" ∷ []
validate_public_key f is_active private (some public) =
    error_if (is_active && key_conflict f private public)
      (literal "config: auth.ldap.verificationKeys conflicts with the active signing key ID")

-- The loop body for one entry of `verificationKeys`.
unfoldable pub validate_verification_key :
    (f : Formats) → String → Option f.PrivateKey → String → String → List Message
unfolding is_key_id validate_public_key
validate_verification_key f signing_id private id value =
    error_if (not (is_key_id id)) (
      literal
        "config: auth.ldap.verificationKeys IDs must contain only lowercase ASCII letters, digits, '-' or '_' and be nonempty")
    ++ validate_public_key f (id == signing_id) private (f.public_key value)

unfoldable pub validate_verification_keys :
    (f : Formats) → String → Option f.PrivateKey → Assoc String → List Message
unfolding validate_verification_key
validate_verification_keys f signing_id private [] = []
validate_verification_keys f signing_id private ((id, value) ∷ keys) =
    validate_verification_key f signing_id private id value
    ++ validate_verification_keys f signing_id private keys

unfoldable pub key_errors : Formats → LdapSettings → List (List Message)
unfolding validate_verification_keys is_key_id
key_errors f cfg =
    let private = f.private_key cfg.signing_private_key in
    (error_if (not (is_key_id cfg.signing_key_id)) (
      literal
        "config: auth.ldap.signingKeyID must contain only lowercase ASCII letters, digits, '-' or '_' and be nonempty"))
    ∷ (error_if (not (is_some private))
        (literal "config: auth.ldap.signingPrivateKey must be a PEM Ed25519 private key"))
    ∷ validate_verification_keys f cfg.signing_key_id private cfg.verification_keys
    ∷ []

unfoldable pub validate_ldap_keys : Formats → LdapSettings → List Message
unfolding key_errors
validate_ldap_keys f cfg = joined (key_errors f cfg)

abbrev pub validate_ca : Formats → String → List Message
validate_ca f ca =
    error_if (not (ca == "") && not (or_else false (f.decode_base64 ca) f.has_certificates))
      (literal "config: auth.ldap.caCert must be a base64 PEM CA bundle")

abbrev pub validate_text : Formats → String → String → List Message
validate_text f name value =
    error_if (f.trim_space value == "") (sprintf "config: auth.ldap.%s is required" (name ∷ []))

abbrev validate_seconds : String → ℤ → List Message
validate_seconds name value =
    error_if (not_positive value)
      (sprintf "config: auth.ldap.%s must be greater than 0" (name ∷ []))

unfoldable pub ldap_errors : Formats → LdapSettings → List (List Message)
unfolding validate_ldap_url validate_ldap_directory validate_ldap_keys
ldap_errors f cfg =
    validate_ldap_url f cfg.url
    ∷ validate_ca f cfg.ca_cert
    ∷ validate_ldap_directory f cfg.directory
    ∷ validate_text f "issuer" cfg.issuer
    ∷ validate_text f "audience" cfg.audience
    ∷ validate_seconds "timeoutSeconds" cfg.timeout_seconds
    ∷ validate_seconds "tokenTTLSeconds" cfg.token_ttl_seconds
    ∷ validate_ldap_keys f cfg
    ∷ []

unfoldable pub validate_ldap : Formats → LdapSettings → List Message
unfolding ldap_errors
validate_ldap f cfg = joined (ldap_errors f cfg)
