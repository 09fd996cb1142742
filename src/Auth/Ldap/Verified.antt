-- ===== src/Auth/Ldap/Verified.antt =====
-- internal/auth/ldap_directory.go: what a login that succeeds has checked.
use capp_backend.Prelude.{
  String, ◌≡◌, sym, ap, ◌∙◌, subst, true, false, Option, some, List, [], ◌∷◌, ok, ◌==◌,
  ok-injective,
}
use capp_backend.Kubernetes.Exec.{continue-eq-ok, lift-eq-ok}
use capp_backend.Auth.Ldap.{LdapConfig, Entry, SearchResult, Directory, replace_all}
use capp_backend.Auth.Ldap.Search.{
  complete_result, the_entries, ldap_identity, available, verify_password, complete, entry_dn,
  groups, find_user, verify_with, verify,
}
use capp_backend.Auth.Ldap.Steps.{
  Accepted, Identifies, GoodGroups, with_connection-ok, verify_password-Accepted, ldap_identity-ok,
  available-ok, only_entry-ok, complete-ok, collect_groups-GoodGroups, not_refused,
}

module _ {W : Type 0} (d : Directory W) where
  -- What a login that was accepted has found: a complete answer of the directory with one entry for
  -- the user's filter, whose only username is the name that it returns, and a bind as this entry with
  -- the given password; the groups.
  pub record Proved (cfg : LdapConfig) (username password canonical : String) (names : List String)
      : Type 0 where
    pub conn : d.Conn
    pub before : W
    pub after : W
    pub answer : Option SearchResult
    pub entry : Entry
    pub searched :
        d.search conn cfg.user_base_dn
          (replace_all "{username}" (d.escape_filter username) 0 cfg.user_filter)
          cfg.username_attribute
          before
        ≡ (ok answer, after)
    pub whole : complete_result answer ≡ true
    pub alone : the_entries answer ≡ some entry ∷ []
    pub identified : Identifies d entry cfg.username_attribute canonical
    pub accepted : Accepted d entry.dn password
    pub good_groups : GoodGroups d names

  groups-GoodGroups :
      (cfg : LdapConfig) (conn : d.Conn) (dn : String) (w v : W) (names : List String)
      → groups d cfg conn dn w ≡ (ok names, v)
      → GoodGroups d names
  unfolding groups
  groups-GoodGroups cfg conn dn w v names h =
      let (r, w1, searched, h1) =
        continue-eq-ok (available d (d.search_with_paging conn _ _ _) w) _ h in
      let (entries, whole, h2) = lift-eq-ok (complete d r) w1 _ h1 in
      collect_groups-GoodGroups d cfg.group_name_attribute [] entries names (tt, tt)
        (ap (λ x. x.0) h2)

  verify_with-Proved :
      (cfg : LdapConfig) (username password canonical : String) (names : List String)
      (conn : d.Conn) (w v : W)
      → verify_with d cfg username password conn w ≡ (ok (canonical, names), v)
      → Proved cfg username password canonical names
  unfolding verify_with find_user
  verify_with-Proved cfg username password canonical names conn w v h =
      let (user, w1, found, h1) = continue-eq-ok (find_user d cfg username conn w) _ h in
      let (name, named, h2) = lift-eq-ok (ldap_identity d user cfg.username_attribute) w1 _ h1 in
      let (dn, parsed, h3) = lift-eq-ok (entry_dn d user) w1 _ h2 in
      let (u, w2, proved, h4) = continue-eq-ok (verify_password d dn password w1) _ h3 in
      let (list, w3, listed, h5) = continue-eq-ok (groups d cfg conn dn w2) _ h4 in
      let told = ok-injective (ap (λ x. x.0) h5) in
      let (b, w4, bound, f1) =
        continue-eq-ok (available d (d.bind conn cfg.bind_dn cfg.bind_password) w) _ found in
      let (r, w5, searched, f2) =
        continue-eq-ok (available d (d.search conn cfg.user_base_dn _ cfg.username_attribute) w4) _
          f1 in
      let (entries, completed, f3) = lift-eq-ok (complete d r) w5 _ f2 in
      let (whole, same) = complete-ok d r entries completed in
      let (entry, is, at_dn, identified) =
        ldap_identity-ok d user cfg.username_attribute name dn named parsed in
      record {
        conn = conn;
        before = w4;
        after = w5;
        answer = r;
        entry = entry;
        searched =
            (available-ok d (d.search conn cfg.user_base_dn _ cfg.username_attribute) w4
              searched).0;
        whole = whole;
        alone = same ∙ only_entry-ok d entries user (ap (λ x. x.0) f3) ∙ ap (λ o. o ∷ []) is;
        identified =
            subst (Identifies d entry cfg.username_attribute) (ap (λ x. x.0) told) identified;
        accepted =
            subst (λ n. Accepted d n password) (sym at_dn)
              (verify_password-Accepted d dn password w1 w2 proved);
        good_groups =
            subst (GoodGroups d) (ap (λ x. x.1) told)
              (groups-GoodGroups cfg conn dn w2 w3 list listed);
      }

  -- A login with a name and a password that the directory accepts: neither is empty, the name was the
  -- only match of the user filter in a complete answer, the directory accepted a bind as that entry
  -- with the given password before the request ended, the name that is returned is the entry's only
  -- username and may stand as an identity, and so may each of the groups, none of which comes twice.
  pub verify-Proved :
      (cfg : LdapConfig) (username password canonical : String) (names : List String) (w v : W)
      → verify d cfg username password w ≡ (ok (canonical, names), v)
      → ((username == "") ≡ false)
        × ((password == "") ≡ false)
        × Proved cfg username password canonical names
  unfolding verify
  verify-Proved cfg username password canonical names w v h =
      let (some_name, some_password, rest) =
        not_refused d (username == "") (password == "") (d.ended w) _ _ _ _ v (canonical, names) _
          h in
      let (conn, w1, w2, joined, inside) =
        with_connection-ok d (verify_with d cfg username password) w v (canonical, names) rest in
      (
        some_name,
        some_password,
        verify_with-Proved cfg username password canonical names conn w1 w2 inside,
      )
