-- ===== src/Auth/Ldap/Search.antt =====
-- internal/auth/ldap_directory.go: `verify` and its helpers.
use capp_backend.Prelude.{
  ℕ, suc, String, Bool, true, false, ◌&&◌, ◌||◌, Option, none, some, List, [], ◌∷◌, ◌++◌, Result,
  ok, err, ◌==◌, if◌then◌else◌, contains, nat_eq,
}
use capp_backend.ApiErrors.{GoError, sentinel, bad_credentials}
use capp_backend.Kubernetes.Exec.{Exec, pure, raise, lift, attempt, ◌>>=◌}
use capp_backend.Auth.Ldap.{
  valid_identity, LdapConfig, Entry, SearchResult, Directory, replace_all, unavailable,
}

unfoldable pub complete_result : Option SearchResult → Bool
complete_result none = false
complete_result (some r) = r.success && nat_eq r.referrals 0

abbrev pub the_entries : Option SearchResult → List (Option Entry)
the_entries none = []
the_entries (some r) = r.entries

module _ {W : Type 0} (d : Directory W) where
  abbrev pub only_value : List String → Result GoError String
  only_value (value ∷ []) = if valid_identity d.texts value then ok value else err unavailable
  only_value _ = err unavailable

  unfoldable pub ldap_identity : Option Entry → String → Result GoError String
  unfolding valid_identity
  ldap_identity none attribute = err unavailable
  ldap_identity (some entry) attribute = only_value (entry.values attribute)

  -- The names of the groups that are not yet in `seen`, in order. The list and the map of the loop
  -- hold the same names.
  unfoldable pub collect_groups :
      String → List String → List (Option Entry) → Result GoError (List String)
  unfolding ldap_identity
  collect_groups attribute seen [] = ok seen
  collect_groups attribute seen (entry ∷ rest) = elim (ldap_identity entry attribute) [
    | err e ↦ err e
    | ok group ↦
        collect_groups attribute (if contains seen group then seen else seen ++ group ∷ []) rest
  ]

  -- `err != nil || ctx.Err() != nil`
  unfoldable pub available : {A : Type 0} → Exec W A → Exec W A
  available m =
      attempt m (λ a w. (if d.ended w then err unavailable else ok a, w)) (λ e. raise unavailable)

  -- The connection is closed behind whatever is done with it.
  unfoldable pub with_connection : {A : Type 0} → (d.Conn → Exec W A) → Exec W A
  with_connection body =
      attempt d.connect (λ conn w. let r = body conn w in (r.0, d.close conn r.1))
        (λ e. raise unavailable)

  -- What the bind with the password of the user says.
  unfoldable pub bind_answer : Result GoError (Unit {0}) → Bool → Result GoError (Unit {0})
  bind_answer r true = err unavailable
  bind_answer (ok u) false = ok tt
  bind_answer (err e) false =
      if d.is_invalid_credentials e then err (sentinel bad_credentials) else err unavailable

  unfoldable pub verify_password : String → String → Exec W (Unit {0})
  unfolding with_connection bind_answer
  verify_password dn password =
      with_connection
        (λ conn w. let r = d.bind conn dn password w in (bind_answer r.0 (d.ended r.1), r.1))

  unfoldable pub complete : Option SearchResult → Result GoError (List (Option Entry))
  unfolding complete_result
  complete result = if complete_result result then ok (the_entries result) else err unavailable

  -- The only entry that was found.
  unfoldable pub only_entry : List (Option Entry) → Result GoError (Option Entry)
  only_entry (entry ∷ []) = ok entry
  only_entry _ = err (sentinel bad_credentials)

  abbrev pub has_parts : Result GoError ℕ → Bool
  has_parts (ok (suc n)) = true
  has_parts _ = false

  -- The DN of an entry, if it can be parsed.
  unfoldable pub entry_dn : Option Entry → Result GoError String
  entry_dn none = err unavailable
  entry_dn (some entry) = if has_parts (d.parse_dn entry.dn) then ok entry.dn else err unavailable

  module _ (cfg : LdapConfig) where
    unfoldable pub groups : d.Conn → String → Exec W (List String)
    unfolding available complete collect_groups replace_all
    groups conn dn = do
      result ← available (
          d.search_with_paging conn cfg.group_base_dn
            (replace_all "{userDN}" (d.escape_filter dn) 0 cfg.group_filter)
            cfg.group_name_attribute)
      entries ← lift (complete result)
      lift (collect_groups cfg.group_name_attribute [] entries)

    unfoldable pub find_user : String → d.Conn → Exec W (Option Entry)
    unfolding available complete only_entry replace_all
    find_user username conn = do
      bound ← available (d.bind conn cfg.bind_dn cfg.bind_password)
      result ← available (
          d.search conn cfg.user_base_dn
            (replace_all "{username}" (d.escape_filter username) 0 cfg.user_filter)
            cfg.username_attribute)
      entries ← lift (complete result)
      lift (only_entry entries)

    unfoldable pub verify_with : String → String → d.Conn → Exec W (String × List String)
    unfolding find_user ldap_identity entry_dn verify_password groups
    verify_with username password conn = do
      user ← find_user username conn
      canonical ← lift (ldap_identity user cfg.username_attribute)
      dn ← lift (entry_dn user)
      proved ← verify_password dn password
      found ← groups conn dn
      pure (canonical, found)

    unfoldable pub verify : String → String → Exec W (String × List String)
    unfolding with_connection verify_with
    verify username password w =
        if username == "" || password == ""
        then (err (sentinel bad_credentials), w)
        else if d.ended w
        then (err unavailable, w)
        else with_connection (verify_with username password) w
