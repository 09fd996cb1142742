-- ===== src/Auth/Ldap/Tokens.antt =====
-- internal/auth/ldap_tokens.go and ldap.go: the access tokens that follow a directory login.
use capp_backend.Prelude.{
  ℕ, ◌+◌, ◌*◌, String, Bool, true, false, ◌&&◌, ◌||◌, not, Option, none, some, List, [], ◌∷◌,
  Result, ok, err, ◌==◌, map, if◌then◌else◌, leb, ◌>>=◌,
}
use Prim.Native.Nat.{◌/◌}
use capp_backend.Prelude.Assoc.{Assoc, lookup}
use capp_backend.ApiErrors.{GoError, sentinel, errorf, literal, unauthenticated, token_expired}
use capp_backend.Clusters.{ClusterCredential}
use capp_backend.Auth.Ldap.{TextTests, valid_identity}
use capp_backend.Auth.Types.{TokenPair}

-- The claims of a token that the program issues; the times are in seconds.
pub record Claims : Type 0 where
  pub iss : String
  pub aud : String
  pub sub : String
  pub groups : List String
  pub iat : ℕ
  pub exp : ℕ
  pub token_use : String

-- What a token's header says: the key ID where it is a text, whether the method is EdDSA, and
-- whether the type is "JWT".
pub record Header : Type 0 where
  pub kid : Option String
  pub is_eddsa : Bool
  pub is_jwt : Bool

-- What `MapClaims` holds after the decoding of a token: whether `iat` is a number, `token_use` where
-- it is a text, the subject, and `groups` where it is a list, with `none` for an element that is no
-- text.
pub record Decoded : Type 0 where
  pub iat_is_number : Bool
  pub token_use : Option String
  pub subject : Result GoError String
  pub groups : Option (List (Option String))

-- The error of `ParseWithClaims`: for which of the library's errors `errors.Is` holds;
-- `other_invalid` stands for the six that make an expired token invalid.
pub record ParseError : Type 0 where
  pub expired : Bool
  pub other_invalid : Bool

-- What the program asks of golang-jwt: to sign claims under the header of the program with a key
-- ID, and to parse a token, with the function that finds its key, the issuer, the audience and the
-- time in nanoseconds. `size` is the number of bytes of a text.
pub record Jwt : Type 1 where
  pub PrivateKey : Type 0
  pub PublicKey : Type 0
  pub sign : PrivateKey → String → Claims → Result GoError String
  pub parse :
      (Header → Result GoError PublicKey)
      → String
      → String
      → ℕ
      → String
      → Decoded × Option ParseError
  pub size : String → ℕ
  pub texts : TextTests

pub record LdapTokens (j : Jwt) : Type 0 where
  pub key_id : String
  pub private : j.PrivateKey
  pub keys : Assoc j.PublicKey
  pub issuer : String
  pub audience : String
  pub ttl_seconds : ℕ

abbrev pub second : ℕ
second = 1000000000

abbrev pub refused : {A : Type 0} → Result GoError A
refused = err (sentinel unauthenticated)

abbrev pub all_valid : (String → Bool) → List String → Bool
all_valid valid [] = true
all_valid valid (group ∷ groups) = valid group && all_valid valid groups

-- The loop over the groups of the claims.
unfoldable pub group_names : (String → Bool) → List (Option String) → Result GoError (List String)
group_names valid [] = ok []
group_names valid (none ∷ rest) = refused
group_names valid (some group ∷ rest) =
    let others = group_names valid rest in
    if valid group then (others >>= λ names. ok (group ∷ names)) else refused

unfoldable pub claimed_groups :
    (String → Bool) → Option (List (Option String)) → Result GoError (List String)
unfolding group_names
claimed_groups valid none = refused
claimed_groups valid (some values) = group_names valid values

unfoldable pub claimed_user : (String → Bool) → Result GoError String → Result GoError String
claimed_user valid (err e) = refused
claimed_user valid (ok user) = if valid user then ok user else refused

abbrev is_access : Option String → Bool
is_access none = false
is_access (some value) = value == "access"

unfoldable pub token_credential : (String → Bool) → Decoded → Result GoError ClusterCredential
unfolding claimed_groups claimed_user
token_credential valid claims =
    if not claims.iat_is_number
    then refused
    else if not (is_access claims.token_use)
    then refused
    else claimed_user valid claims.subject >>= λ user.
        claimed_groups valid claims.groups >>= λ groups.
        ok (record { bearer_token = ""; impersonate_user = user; impersonate_groups = groups })

abbrev passes : Option ParseError → Bool
passes none = true
passes (some e) = e.expired

-- The credential, unless the parser had an error; only expiry has not been refused before.
unfoldable pub judge : Option ParseError → ClusterCredential → Result GoError ClusterCredential
judge none credential = ok credential
judge (some e) credential = if e.other_invalid then refused else err (sentinel token_expired)

module _ (j : Jwt) (t : LdapTokens j) where
  -- The key of a header; the ID "" is refused.
  abbrev known_key : Option j.PublicKey → Result GoError j.PublicKey
  known_key none = refused
  known_key (some key) = ok key

  unfoldable pub verification_key : Header → Result GoError j.PublicKey
  unfolding lookup
  verification_key header = elim header.kid [
    | none ↦ refused
    | some id ↦
        if id == "" || (not header.is_eddsa || not header.is_jwt)
        then refused
        else known_key (lookup id t.keys)
  ]

  unfoldable pub claims_of : ℕ → String → List String → Claims
  claims_of now username groups = record {
    iss = t.issuer;
    aud = t.audience;
    sub = username;
    groups = groups;
    iat = now / second;
    exp = now / second + t.ttl_seconds;
    token_use = "access";
  }

  unfoldable pub issued : ℕ → Result GoError String → Result GoError TokenPair
  issued now (err e) = err (errorf (literal "auth: LDAP token signing failed"))
  issued now (ok signed) =
      if leb (j.size signed) 8192
      then ok (record {
        access_token = signed;
        refresh_token = "";
        expires_at = some (now / second * second, capp_backend.Prelude.pos t.ttl_seconds);
      })
      else err (errorf (literal "auth: LDAP token exceeds size limit"))

  unfoldable pub issue : ℕ → String → List String → Result GoError TokenPair
  unfolding claims_of issued
  issue now username groups =
      if valid_identity j.texts username && all_valid (valid_identity j.texts) groups
      then issued now (j.sign t.private t.key_id (claims_of now username groups))
      else err (errorf (literal "auth: invalid LDAP token identity"))

  unfoldable pub verify_parsed : Decoded × Option ParseError → Result GoError ClusterCredential
  unfolding token_credential judge
  verify_parsed (claims, e) =
      if passes e then (token_credential (valid_identity j.texts) claims >>= judge e) else refused

  unfoldable pub verify : ℕ → String → Result GoError ClusterCredential
  unfolding verify_parsed verification_key
  verify now raw = verify_parsed (j.parse verification_key t.issuer t.audience now raw)
