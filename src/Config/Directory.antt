-- ===== src/Config/Directory.antt =====
-- internal/config/validation.go: what the validation promises of the settings of the directory.
use capp_backend.Prelude.{
  ℕ, ◌≤◌, ℤ, pos, negsuc, String, ◌≡◌, ◌≢◌, ◌⊎◌, inl, inr, refl, Bool, true, false, not, Option,
  none, some, List, [], ◌∷◌, ◌==◌, arith, eq_iff, if◌then◌else◌, ◌||◌, Bool-cases,
}
use capp_backend.Prelude.Decimal.{parse_int}
use capp_backend.ApiErrors.{Message}
use capp_backend.Auth.Ldap.{LdapConfig, replace_all}
use capp_backend.Config.Errors.{filled, holds, joined-eq-nil}
use capp_backend.Config.Ldap.{
  Url, Formats, or_else, is_port, is_endpoint, url_errors, validate_dn, validate_ldap_filter,
  directory_errors, validate_ldap_directory, validate_ca, validate_ldap_url,
}
use capp_backend.Config.Patterns.{is_attribute, has_hash, count_text}

abbrev pub IsText : Formats → String → Type 0
IsText f s = f.trim_space s ≢ ""

abbrev pub IsDn : Formats → String → Type 0
IsDn f s = IsText f s × (f.is_dn s ≡ true)

-- A filter with its placeholder once, which is a filter when a value takes the placeholder's place.
abbrev pub IsTemplate : Formats → String → String → Type 0
IsTemplate f filter placeholder =
    (count_text placeholder 0 filter ≡ 1)
    × (f.is_filter (replace_all placeholder "value" 0 filter) ≡ true)

abbrev pub IsPort : String → Type 0
IsPort s = (s ≡ "") ⊎ ((n : ℕ) × (parse_int s ≡ some (pos n)) × (1 ≤ n) × (n ≤ 65535))

-- An `ldaps` URL of a host and at most a port.
abbrev pub IsEndpoint : String → Option Url → Type 0
IsEndpoint raw none = ⊥
IsEndpoint raw (some u) =
    (u.scheme ≡ "ldaps")
    × (u.hostname ≢ "")
    × (u.has_user ≡ false)
    × (u.path ≡ "")
    × (u.raw_query ≡ "")
    × (u.force_query ≡ false)
    × (has_hash raw ≡ false)
    × IsPort u.port

abbrev pub HasCertificates : Formats → Option String → Type 0
HasCertificates f none = ⊥
HasCertificates f (some pem) = f.has_certificates pem ≡ true

abbrev pub IsBundle : Formats → String → Type 0
IsBundle f ca = (ca ≡ "") ⊎ HasCertificates f (f.decode_base64 ca)

abbrev pub IsDirectory : Formats → LdapConfig → Type 0
IsDirectory f d =
    IsDn f d.bind_dn
    × IsDn f d.user_base_dn
    × IsDn f d.group_base_dn
    × (d.bind_password ≢ "")
    × IsTemplate f d.user_filter "{username}"
    × IsTemplate f d.group_filter "{userDN}"
    × (is_attribute d.username_attribute ≡ true)
    × (is_attribute d.group_name_attribute ≡ true)

validate_dn-IsDn : (f : Formats) (name s : String) → validate_dn f name s ≡ [] → IsDn f s
validate_dn-IsDn f name s h = ground (arith, eq_iff (f.trim_space s) "")

validate_ldap_filter-IsTemplate :
    (f : Formats) (name filter placeholder : String)
    → validate_ldap_filter f name filter placeholder ≡ []
    → IsTemplate f filter placeholder
unfolding validate_ldap_filter
validate_ldap_filter-IsTemplate f name filter placeholder h = ground arith

pub validate_ldap_directory-IsDirectory :
    (f : Formats) (d : LdapConfig) → validate_ldap_directory f d ≡ [] → IsDirectory f d
unfolding validate_ldap_directory directory_errors
validate_ldap_directory-IsDirectory f d h =
    let (bind, (user, (group, (password, (by_user, (by_group, (name, (group_name, end)))))))) =
      joined-eq-nil (directory_errors f d) h in
    (
      validate_dn-IsDn f _ d.bind_dn bind,
      validate_dn-IsDn f _ d.user_base_dn user,
      validate_dn-IsDn f _ d.group_base_dn group,
      filled _ _ password,
      validate_ldap_filter-IsTemplate f "userFilter" d.user_filter "{username}" by_user,
      validate_ldap_filter-IsTemplate f "groupFilter" d.group_filter "{userDN}" by_group,
      holds _ _ name,
      holds _ _ group_name,
    )

number-IsPort :
    (s : String) (o : Option ℤ)
    → parse_int s ≡ o
    → or_else false o is_port ≡ true
    → (n : ℕ) × (parse_int s ≡ some (pos n)) × (1 ≤ n) × (n ≤ 65535)
number-IsPort s none e h = absurd cc
number-IsPort s (some (pos n)) e h = (n, e, ground arith, ground arith)
number-IsPort s (some (negsuc n)) e h = absurd cc

empty_or_number-IsPort :
    (s : String) → (s == "" || or_else false (parse_int s) is_port) ≡ true → IsPort s
empty_or_number-IsPort s h = elim (Bool-cases (s == "")) [
  | inl empty ↦ inl ((eq_iff s "").0 empty)
  | inr other ↦ inr (number-IsPort s (parse_int s) refl (rw other at h))
]

is_endpoint-IsEndpoint :
    (raw : String) (u : Url) → is_endpoint raw u ≡ true → IsPort u.port → IsEndpoint raw (some u)
is_endpoint-IsEndpoint raw u h port =
    ground (
      arith,
      eq_iff u.scheme "ldaps",
      eq_iff u.hostname "",
      eq_iff u.path "",
      eq_iff u.raw_query "",
    )

accepted :
    (b : Bool) (e : Message) (rest : List Message)
    → (if not b then e ∷ [] else rest) ≡ []
    → (b ≡ true) × (rest ≡ [])
accepted b e rest h = ground arith

url_errors-IsEndpoint : (raw : String) (o : Option Url) → url_errors raw o ≡ [] → IsEndpoint raw o
unfolding url_errors
url_errors-IsEndpoint raw none h = absurd cc
url_errors-IsEndpoint raw (some u) h =
    let (right, rest) = accepted (is_endpoint raw u) _ _ h in
    is_endpoint-IsEndpoint raw u right (empty_or_number-IsPort u.port (holds _ _ rest))

pub validate_ldap_url-IsEndpoint :
    (f : Formats) (raw : String) → validate_ldap_url f raw ≡ [] → IsEndpoint raw (f.parse_url raw)
unfolding validate_ldap_url
validate_ldap_url-IsEndpoint f raw h = url_errors-IsEndpoint raw (f.parse_url raw) h

has_certificates-HasCertificates :
    (f : Formats) (o : Option String)
    → or_else false o f.has_certificates ≡ true
    → HasCertificates f o
has_certificates-HasCertificates f none h = absurd cc
has_certificates-HasCertificates f (some pem) h = h

pub validate_ca-IsBundle : (f : Formats) (ca : String) → validate_ca f ca ≡ [] → IsBundle f ca
validate_ca-IsBundle f ca h = elim (Bool-cases (ca == "")) [
  | inl empty ↦ inl ((eq_iff ca "").0 empty)
  | inr other ↦
      inr (has_certificates-HasCertificates f (f.decode_base64 ca) (holds _ _ (rw other at h)))
]
