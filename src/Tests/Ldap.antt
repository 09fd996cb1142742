-- ===== src/Tests/Ldap.antt =====
-- The directory login and its tokens at concrete inputs.
use Prim.Native.Nat.{◌/◌}
use capp_backend.Prelude.{
  ℕ, ◌+◌, ◌*◌, String, ◌≡◌, refl, sym, ap, Bool, true, false, Option, some, List, [], ◌∷◌, Result,
  ok, err, ◌==◌, if◌then◌else◌, leb, nat_eq, ◌&&◌, ◌∙◌, eq_iff, arith, pos,
}
use capp_backend.Prelude.Assoc.{lookup}
use capp_backend.ApiErrors.{GoError, sentinel, foreign, token_expired}
use capp_backend.Auth.Types.{TokenPair}
use capp_backend.Auth.OpenShift.{impersonating}
use capp_backend.Auth.Ldap.{TextTests, Directory, LdapConfig, Entry, SearchResult, valid_identity}
use capp_backend.Auth.Ldap.Search.{verify}
use capp_backend.Auth.Ldap.Verified.{Proved, verify-Proved}
use capp_backend.Auth.Ldap.Tokens
use capp_backend.Auth.Ldap.Tokens.{
  Claims, Header, Decoded, ParseError, Jwt, LdapTokens, second, issue,
}
use capp_backend.Auth.Ldap.Issued.{IsSound, decoded, failure, verify-issue}

abbrev texts : TextTests
texts = record { trim_space = λ s. s; is_valid_utf8 = λ s. true; has_control = λ s. false }

abbrev entry_of : String → String → Entry
entry_of dn name = record { dn = dn; values = λ attribute. name ∷ [] }

abbrev found : Entry → Option SearchResult
found entry = some (record { entries = some entry ∷ []; success = true; referrals = 0 })

abbrev password_of : String → String → Result GoError (Unit {0})
password_of dn password =
    if dn == "uid=ann"
    then (if password == "secret" then ok tt else err (foreign "wrong password"))
    else ok tt

-- A directory with one user and one group; connections and the world are trivial.
abbrev directory : Directory (Unit {0})
directory = record {
  Conn = Unit;
  connect = λ w. (ok tt, w);
  close = λ conn w. w;
  bind = λ conn dn password w. (password_of dn password, w);
  search = λ conn base filter attribute w. (ok (found (entry_of "uid=ann" "ann")), w);
  search_with_paging = λ conn base filter attribute w. (ok (found (entry_of "cn=dev" "dev")), w);
  ended = λ w. false;
  is_invalid_credentials = λ e. true;
  parse_dn = λ dn. ok 1;
  escape_filter = λ s. s;
  texts = texts;
}

abbrev config : LdapConfig
config = record {
  bind_dn = "cn=search";
  bind_password = "own";
  user_base_dn = "ou=users";
  user_filter = "(uid={username})";
  username_attribute = "uid";
  group_base_dn = "ou=groups";
  group_filter = "(member={userDN})";
  group_name_attribute = "cn";
}

logged_in : verify directory config "ann" "secret" tt ≡ (ok ("ann", "dev" ∷ []), tt)
unfolding verify
logged_in = refl

verify-Proved_example :
    (("ann" == "") ≡ false)
    × (("secret" == "") ≡ false)
    × Proved directory config "ann" "secret" "ann" ("dev" ∷ [])
verify-Proved_example =
    verify-Proved directory config "ann" "secret" "ann" ("dev" ∷ []) tt tt logged_in

-- A library that signs one set of claims, with one key.
abbrev ann_claims : Claims
ann_claims = record {
  iss = "capp";
  aud = "capp";
  sub = "ann";
  groups = "dev" ∷ [];
  iat = 3;
  exp = 63;
  token_use = "access";
}

abbrev is_dev : List String → Bool
is_dev (group ∷ []) = group == "dev"
is_dev _ = false

abbrev is_ann : Claims → Bool
is_ann c =
    c.iss == "capp"
    && (c.aud == "capp"
        && (c.sub == "ann"
            && (is_dev c.groups
                && (nat_eq c.iat 3 && (nat_eq c.exp 63 && c.token_use == "access")))))

split : (a b : Bool) → (a && b) ≡ true → (a ≡ true) × (b ≡ true)
split a b h = (ground arith, ground arith)

dev_groups : (groups : List String) → is_dev groups ≡ true → groups ≡ "dev" ∷ []
dev_groups [] h = absurd cc
dev_groups (group ∷ []) h = ap (λ g. g ∷ []) ((eq_iff group "dev").0 h)
dev_groups (group ∷ other ∷ rest) h = absurd cc

same_number : (a b : ℕ) → nat_eq a b ≡ true → a ≡ b
same_number a b h = ground arith

claims_by_fields :
    (c : Claims)
    → c.iss ≡ "capp"
    → c.aud ≡ "capp"
    → c.sub ≡ "ann"
    → c.groups ≡ "dev" ∷ []
    → c.iat ≡ 3
    → c.exp ≡ 63
    → c.token_use ≡ "access"
    → c ≡ ann_claims
claims_by_fields c iss aud sub groups iat exp token_use = cc

ann_by_test : (c : Claims) → is_ann c ≡ true → c ≡ ann_claims
ann_by_test c h =
    let (iss, h1) = split (c.iss == "capp") _ h in
    let (aud, h2) = split (c.aud == "capp") _ h1 in
    let (sub, h3) = split (c.sub == "ann") _ h2 in
    let (groups, h4) = split (is_dev c.groups) _ h3 in
    let (iat, h5) = split (nat_eq c.iat 3) _ h4 in
    let (exp, token_use) = split (nat_eq c.exp 63) _ h5 in
    claims_by_fields c ((eq_iff c.iss "capp").0 iss) ((eq_iff c.aud "capp").0 aud)
      ((eq_iff c.sub "ann").0 sub) (dev_groups c.groups groups) (same_number c.iat 3 iat)
      (same_number c.exp 63 exp) ((eq_iff c.token_use "access").0 token_use)

abbrev first_header : Header
first_header = record { kid = some "k1"; is_eddsa = true; is_jwt = true }

-- What the parse of the one token gives, by what the function for its key gave.
abbrev parsed : ℕ → Result GoError (Unit {0}) → Decoded × Option ParseError
parsed now (ok key) = (decoded ann_claims, failure (leb (63 * second) now))
parsed now (err e) = (decoded ann_claims, some (record { expired = false; other_invalid = true }))

abbrev library : Jwt
library = record {
  PrivateKey = Unit;
  PublicKey = Unit;
  sign = λ private id c.
      if id == "k1" && is_ann c then ok "ann's token" else err (foreign "unknown claims");
  parse = λ find issuer audience now text. parsed now (find first_header);
  size = λ s. 11;
  texts = texts;
}

signed :
    (id text : String) (c : Claims) (b : Bool)
    → (id == "k1" && is_ann c) ≡ b
    → ◌≡◌ {A = Result GoError String}
        (if b then ok "ann's token" else err (foreign "unknown claims"))
        (ok text)
    → (id ≡ "k1") × (c ≡ ann_claims)
signed id text c true e h =
    let (key, claims) = split (id == "k1") (is_ann c) e in
    ((eq_iff id "k1").0 key, ann_by_test c claims)
signed id text c false e h = absurd cc

parse_signed :
    (id : String) (c : Claims) (find : Header → Result GoError (Unit {0})) (now : ℕ)
    → id ≡ "k1"
    → c ≡ ann_claims
    → find (record { kid = some id; is_eddsa = true; is_jwt = true }) ≡ ok tt
    → parsed now (find first_header) ≡ (decoded c, failure (leb (c.exp * second) now))
parse_signed id c find now key claims there =
    let there' : find first_header ≡ ok tt =
      ap (λ i. find (record { kid = some i; is_eddsa = true; is_jwt = true })) (sym key) ∙ there in
    ap (parsed now) there' ∙ ap (λ x. (decoded x, failure (leb (x.exp * second) now))) (sym claims)

library-IsSound : IsSound library
library-IsSound = record {
  public_key = λ private. tt;
  parse-sign = λ private id text c find now made there issued.
      let (key, claims) = signed id text c (id == "k1" && is_ann c) refl made in
      parse_signed id c find now key claims there;
}

abbrev tokens : LdapTokens library
tokens = record {
  key_id = "k1";
  private = tt;
  keys = ("k1", tt) ∷ [];
  issuer = "capp";
  audience = "capp";
  ttl_seconds = 60;
}

abbrev pair : TokenPair
pair = record {
  access_token = "ann's token";
  refresh_token = "";
  expires_at = some (3 * second, pos 60);
}

known : lookup "k1" tokens.keys ≡ some tt
unfolding lookup
known = refl

made : issue library tokens (3 * second) "ann" ("dev" ∷ []) ≡ ok pair
unfolding issue valid_identity
made = refl

verify-issue_example : Tokens.verify library tokens (4 * second) pair.access_token ≡ (
    if leb ((3 * second / second + 60) * second) (4 * second)
    then err (sentinel token_expired)
    else ok (impersonating "ann" ("dev" ∷ [])))
verify-issue_example =
    verify-issue library tokens library-IsSound (3 * second) (4 * second) "ann" ("dev" ∷ []) pair
      refl known made (omega arith)
