-- ===== src/Auth/State.antt =====
-- internal/auth/openshift.go: the signed state of the OAuth login, `signState`, `stateSignature` and
-- `ValidateState`.
use Prim.Native.Char.{Char, code}
use Prim.Native.String.{[], ◌∷◌}
use Prim.Native.Nat.{◌/◌}
use mathlib.Core.Option
use capp_backend.Prelude.{
  ℕ, ◌+◌, ◌*◌, ℤ, pos, negsuc, String, Bool, true, Option, none, some, Result, ok, err, ◌==◌,
  nat_eq, leb, not, ◌&&◌, ◌-◌, if◌then◌else◌,
}
use capp_backend.Prelude.Texts.{◌⧺◌}
use capp_backend.Prelude.Decimal.{format_int, parse_int}
use capp_backend.ApiErrors.{GoError, sentinel, unauthenticated, wrapped, literal}

abbrev pub extend : Char → String × String → String × String
extend c (before, after) = (c ∷ before, after)

-- `strings.Cut` at a separator of one character.
unfoldable pub cut : ℕ → String → Option (String × String)
cut sep [] = none
cut sep (c ∷ s) =
    let rest = cut sep s in if nat_eq (code c) sep then some ([], s) else Option.map (extend c) rest

abbrev pub nanoseconds : ℕ
nanoseconds = 1000000000

-- `oauthStateTTL`
abbrev pub oauth_state_ttl : ℕ
oauth_state_ttl = 600 * nanoseconds

-- `time.Now().Add(oauthStateTTL).Unix()`
unfoldable pub expiry_of : ℕ → ℕ
expiry_of now = (now + oauth_state_ttl) / nanoseconds

-- The last second that `time.Unix` can represent: it adds the seconds from the year 1 to 1970, in 64
-- bits.
abbrev pub max_unix : ℕ
max_unix = 9223372036854775807 - 62135596800

-- `time.Now().After(time.Unix(exp, 0))`; an instant before 1970 has passed, and so has one beyond the
-- last, which wraps around.
abbrev pub is_past : ℤ → ℕ → Bool
is_past (pos exp) now = not (leb exp max_unix && leb now (exp * nanoseconds))
is_past (negsuc n) now = true

abbrev refusal : String → GoError
refusal text = wrapped (literal text) (sentinel unauthenticated)

abbrev pub check_expiry : Option ℤ → ℕ → Result GoError (Unit {0})
check_expiry none now = err (refusal "malformed OAuth state parameter")
check_expiry (some exp) now =
    if is_past exp now then err (refusal "OAuth state parameter has expired") else ok tt

-- The part of `ValidateState` behind the signature, from the pieces of the payload.
unfoldable pub check_payload : Option (String × String) → ℕ → Result GoError (Unit {0})
unfolding parse_int
check_payload none now = err (refusal "malformed OAuth state parameter")
check_payload (some (exp, nonce)) now = check_expiry (parse_int exp) now

-- The payload of `signState`. The random bytes come as the hexadecimal text of them.
unfoldable pub payload_of : String → ℕ → String
unfolding expiry_of format_int
payload_of nonce_hex now = format_int (pos (expiry_of now)) ⧺ ":" ⧺ nonce_hex

-- `signature` is `stateSignature` under the key of the manager: the HMAC-SHA256 of the payload in
-- unpadded base64url. `hmac.Equal` compares the two texts.
module _ (signature : String → String) where
  unfoldable pub sign_state : String → ℕ → String
  unfolding payload_of
  sign_state nonce_hex now =
      let payload = payload_of nonce_hex now in payload ⧺ "." ⧺ signature payload

  -- `ValidateState` from the pieces of the state.
  unfoldable pub check_state : Option (String × String) → ℕ → Result GoError (Unit {0})
  unfolding cut check_payload
  check_state none now = err (refusal "malformed OAuth state parameter")
  check_state (some (payload, sig)) now =
      if signature payload == sig
      then check_payload (cut b':' payload) now
      else err (refusal "invalid OAuth state signature")

  unfoldable pub validate_state : String → ℕ → Result GoError (Unit {0})
  unfolding check_state
  validate_state state now = check_state (cut b'.' state) now
