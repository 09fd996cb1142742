-- ===== src/Auth/Ldap.antt =====
-- internal/auth/ldap_directory.go and ldap.go: the password login against a directory.
pub mod Search
pub mod Tokens
pub mod Manager
pub mod Issued
pub mod Steps
pub mod Verified
use Prim.Native.String.{[], ◌∷◌}
use capp_backend.Prelude.{
  ℕ, zero, suc, ◌-◌, String, Bool, true, false, ◌&&◌, ◌||◌, not, Option, none, some, List, Result,
  ok, err, ◌==◌, if◌then◌else◌, is_some, contains, nat_eq,
}
use capp_backend.Prelude.Texts.{◌⧺◌}
use capp_backend.ApiErrors.{GoError, Sentinel, sentinel, bad_credentials, directory_unavailable}
use capp_backend.ApiErrors.Messages.{after}
use capp_backend.Kubernetes.Exec.{Exec, pure, raise, lift, attempt, ◌>>=◌}

pub record LdapConfig : Type 0 where
  pub bind_dn : String
  pub bind_password : String
  pub user_base_dn : String
  pub user_filter : String
  pub username_attribute : String
  pub group_base_dn : String
  pub group_filter : String
  pub group_name_attribute : String

-- `values` is `GetEqualFoldAttributeValues`.
pub record Entry : Type 0 where
  pub dn : String
  pub values : String → List String

pub record SearchResult : Type 0 where
  pub entries : List (Option Entry)
  pub success : Bool
  pub referrals : ℕ

-- What `validLDAPIdentity` asks of libraries: `strings.TrimSpace`, `utf8.ValidString`, and whether a
-- text holds a control character.
pub record TextTests : Type 0 where
  pub trim_space : String → String
  pub is_valid_utf8 : String → Bool
  pub has_control : String → Bool

unfoldable pub valid_identity : TextTests → String → Bool
unfolding after
valid_identity t value =
    not (value == "")
    && (t.trim_space value == value
        && (not (is_some (after "system:" value))
            && (t.is_valid_utf8 value && not (t.has_control value))))

-- What the program asks of libraries: the connections of go-ldap, whether the context of the request
-- has ended, the error code of a refused password, DNs, filters, and texts.
-- `search_with_paging` stands for pages of 500 entries.
pub record Directory (W : Type 0) : Type 1 where
  pub Conn : Type 0
  pub connect : Exec W Conn
  pub close : Conn → W → W
  pub bind : Conn → String → String → Exec W (Unit {0})
  pub search : Conn → String → String → String → Exec W (Option SearchResult)
  pub search_with_paging : Conn → String → String → String → Exec W (Option SearchResult)
  pub ended : W → Bool
  pub is_invalid_credentials : GoError → Bool
  pub parse_dn : String → Result GoError ℕ
  pub escape_filter : String → String
  pub texts : TextTests

abbrev count : String → ℕ
count [] = 0
count (c ∷ s) = suc (count s)

-- `strings.ReplaceAll` for a text that is not empty; the number says how much of a match is left.
unfoldable pub replace_all : String → String → ℕ → String → String
unfolding after
replace_all old new skip [] = []
replace_all old new (suc skip) (c ∷ s) = replace_all old new skip s
replace_all old new zero (c ∷ s) =
    let matches = is_some (after old (c ∷ s)) in
    let rest = replace_all old new (if matches then count old - 1 else 0) s in
    if matches then new ⧺ rest else c ∷ rest

abbrev pub unavailable : GoError
unavailable = sentinel directory_unavailable
