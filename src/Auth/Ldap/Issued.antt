-- ===== src/Auth/Ldap/Issued.antt =====
-- internal/auth/ldap_tokens.go: a token that was issued is accepted until it expires.
use Prim.Native.Nat.{◌/◌}
use capp_backend.Prelude.{
  ℕ, ◌+◌, ◌*◌, ◌≤◌, ◌≡◌, refl, ap, ◌∙◌, String, Bool, true, false, ◌&&◌, Option, none, some, List,
  [], ◌∷◌, Result, ok, err, ◌==◌, map, if◌then◌else◌, leb, arith, inl, inr, Bool-cases,
  ok-injective,
}
use capp_backend.Prelude.Assoc.{lookup}
use capp_backend.ApiErrors.{GoError, sentinel, token_expired}
use capp_backend.Auth.Types.{TokenPair}
use capp_backend.Auth.OpenShift.{impersonating}
use capp_backend.Auth.Ldap.{valid_identity}
use capp_backend.Auth.Ldap.Tokens.{
  Claims, Header, Decoded, ParseError, Jwt, LdapTokens, second, all_valid, group_names,
  claimed_groups, claimed_user, token_credential, judge, verification_key, claims_of, issued, issue,
  verify_parsed, verify,
}

-- What `MapClaims` holds of claims that went through a token.
abbrev pub decoded : Claims → Decoded
decoded c = record {
  iat_is_number = true;
  token_use = some c.token_use;
  subject = ok c.sub;
  groups = some (map some c.groups);
}

abbrev pub failure : Bool → Option ParseError
failure true = some (record { expired = true; other_invalid = false })
failure false = none

-- What golang-jwt does with a token that it has signed: under the public key of the signer, for the
-- issuer and the audience of the claims, and not before their time of issue, the parse gives the
-- claims back, and fails exactly where the token has expired, with that error only.
pub record IsSound (j : Jwt) : Type 0 where
  pub public_key : j.PrivateKey → j.PublicKey
  pub parse-sign :
      (private : j.PrivateKey) (id text : String) (c : Claims)
      (find : Header → Result GoError j.PublicKey) (now : ℕ)
      → j.sign private id c ≡ ok text
      → find (record { kid = some id; is_eddsa = true; is_jwt = true }) ≡ ok (public_key private)
      → c.iat * second ≤ now
      → j.parse find c.iss c.aud now text ≡ (decoded c, failure (leb (c.exp * second) now))

both : (a b : Bool) → (a && b) ≡ true → (a ≡ true) × (b ≡ true)
both a b h = (ground arith, ground arith)

group_names-map :
    (valid : String → Bool) (groups : List String)
    → all_valid valid groups ≡ true
    → group_names valid (map some groups) ≡ ok groups
unfolding group_names
group_names-map valid [] h = refl
group_names-map valid (g ∷ groups) h =
    let (first, rest) = both (valid g) (all_valid valid groups) h in
    rw (first, group_names-map valid groups rest) refl

err≢ok : {e : GoError} {p : TokenPair} → ◌≡◌ {A = Result GoError TokenPair} (err e) (ok p) → ⊥
err≢ok h = absurd cc

module _ (j : Jwt) (t : LdapTokens j) (law : IsSound j) where
  key_found :
      (t.key_id == "") ≡ false
      → lookup t.key_id t.keys ≡ some (law.public_key t.private)
      → verification_key j t (record { kid = some t.key_id; is_eddsa = true; is_jwt = true })
        ≡ ok (law.public_key t.private)
  unfolding verification_key
  key_found named known = rw (named, known) refl

  issued-ok :
      (now : ℕ) (r : Result GoError String) (pair : TokenPair)
      → issued j t now r ≡ ok pair
      → r ≡ ok pair.access_token
  unfolding issued
  issued-ok now (err e) pair h = absurd cc
  issued-ok now (ok signed) pair h = elim (Bool-cases (leb (j.size signed) 8192)) [
    | inl small ↦ ap (λ p. ok p.access_token) (ok-injective (rw small at h))
    | inr large ↦ absurd (err≢ok (rw large at h))
  ]

  issue-ok :
      (now : ℕ) (username : String) (groups : List String) (pair : TokenPair)
      → issue j t now username groups ≡ ok pair
      → (valid_identity j.texts username ≡ true)
        × (all_valid (valid_identity j.texts) groups ≡ true)
        × (j.sign t.private t.key_id (claims_of j t now username groups) ≡ ok pair.access_token)
  unfolding issue
  issue-ok now username groups pair h =
      elim (Bool-cases
        (valid_identity j.texts username && all_valid (valid_identity j.texts) groups)) [
          | inl valid ↦
              let (user, all) =
                both (valid_identity j.texts username) (all_valid (valid_identity j.texts) groups)
                  valid in
              (user, all, issued-ok now _ pair (rw valid at h))
          | inr invalid ↦ absurd (err≢ok (rw invalid at h))
        ]

  parsed-issued :
      (now : ℕ) (username : String) (groups : List String) (expired : Bool)
      → valid_identity j.texts username ≡ true
      → all_valid (valid_identity j.texts) groups ≡ true
      → verify_parsed j t (decoded (claims_of j t now username groups), failure expired)
        ≡ (if expired then err (sentinel token_expired) else ok (impersonating username groups))
  unfolding verify_parsed token_credential claimed_user claimed_groups judge claims_of
  parsed-issued now username groups true user all =
      rw (user, group_names-map (valid_identity j.texts) groups all) refl
  parsed-issued now username groups false user all =
      rw (user, group_names-map (valid_identity j.texts) groups all) refl

  -- A token that the password login has issued is accepted for the user and the groups that it was
  -- issued for, until its lifetime is over, and reported as expired from then on. The keys hold the
  -- public key of the signing key under its ID, which is not empty, and the tokens are made and read
  -- as `IsSound` says.
  pub verify-issue :
      (now later : ℕ) (username : String) (groups : List String) (pair : TokenPair)
      → (t.key_id == "") ≡ false
      → lookup t.key_id t.keys ≡ some (law.public_key t.private)
      → issue j t now username groups ≡ ok pair
      → now ≤ later
      → verify j t later pair.access_token ≡ (
          if leb ((now / second + t.ttl_seconds) * second) later
          then err (sentinel token_expired)
          else ok (impersonating username groups))
  unfolding issue verify verify_parsed claims_of
  verify-issue now later username groups pair named known made order =
      let (user, all, signed) = issue-ok now username groups pair made in
      ap (verify_parsed j t) (
        law.parse-sign t.private t.key_id pair.access_token (claims_of j t now username groups)
          (verification_key j t) later signed (key_found named known) (omega (arith, order)))
      ∙ parsed-issued now username groups (leb ((now / second + t.ttl_seconds) * second) later) user
          all
