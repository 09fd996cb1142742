-- ===== src/Tests/Auth.antt =====
-- The login state and the token cache at concrete inputs.
use mathlib.Core.List.{Mem, mem-cons_self}
use capp_backend.Prelude.{
  ℕ, ◌*◌, ◌≤◌, ◌⊎◌, String, ◌≡◌, ◌↔◌, refl, sym, ap, ◌∙◌, some, true, [], ◌∷◌, ok, arith,
}
use capp_backend.Prelude.Texts.{◌⧺◌}
use capp_backend.Prelude.Assoc.{insert}
use capp_backend.Clusters.{ClusterCredential}
use capp_backend.Auth.Bearer.{bearer_token}
use capp_backend.Auth.State.{
  nanoseconds, expiry_of, sign_state, validate_state, payload_of, cut, max_unix,
}
use capp_backend.Auth.Accepting.{
  Issue, IsUnforged, cut-append, validate_state-Issue, sign_state-validate,
}
use capp_backend.Auth.OpenShift.{Reviewer, impersonating, authenticate, accept}
use capp_backend.Auth.Cache.{
  Review, Session, Steps, waits, deals, stays, steps, Vouched, Reviewed, authenticate-Vouched,
}

-- A signature that depends on the payload.
abbrev seal : String → String
seal payload = "s" ⧺ payload

abbrev at_ten : ℕ
at_ten = 10 * nanoseconds

sign_state-validate_example :
    (validate_state seal (sign_state seal "ab" at_ten) (600 * nanoseconds) ≡ ok tt)
    ↔ (600 * nanoseconds ≤ expiry_of at_ten * nanoseconds)
unfolding expiry_of
sign_state-validate_example =
    sign_state-validate seal "ab" at_ten (600 * nanoseconds) (refl, (refl, tt)) (omega arith)

abbrev state : String
state = "610:ab.s610:ab"

signed_state : sign_state seal "ab" at_ten ≡ state
unfolding sign_state
signed_state = refl

small_time : expiry_of at_ten ≤ max_unix
unfolding expiry_of
small_time = omega arith

abbrev issue : Issue
issue = record { nonce = "ab"; at = at_ten; no_dot = (refl, (refl, tt)); in_range = small_time }

payload_state : payload_of "ab" at_ten ≡ "610:ab"
unfolding payload_of
payload_state = refl

first_dot : cut b'.' state ≡ some ("610:ab", "s610:ab")
unfolding cut
first_dot = refl

found_parts : {p q : String × String} → some p ≡ some q → p ≡ q
found_parts h = cc

-- The only payload in front of the first dot of the state is the one that was signed.
unforged : IsUnforged seal (issue ∷ []) state
unforged payload (dot, is, lacks, whole) = (
  issue,
  mem-cons_self,
  ap (λ p. p.0)
        (found_parts (
          sym (ap (cut b'.') whole ∙ cut-append b'.' payload (seal payload) dot lacks is)
          ∙ first_dot))
      ∙ sym payload_state,
)

validate_state-Issue_example : (validate_state seal state at_ten ≡ ok tt) ↔ (
    (i : Issue) × Mem i (issue ∷ [])
    × (state ≡ sign_state seal i.nonce i.at)
    × (at_ten ≤ expiry_of i.at * nanoseconds))
validate_state-Issue_example = validate_state-Issue seal (issue ∷ []) state at_ten unforged

-- The world of the reviewer is the time.
abbrev reviewer : Reviewer ℕ
reviewer = record {
  sha256_sum = λ token. token;
  now = λ w. w;
  review = λ token w. (ok (record { authenticated = true; username = token; groups = [] }), w);
}

abbrev first : Session
first = record { cache = []; reviews = []; now = 3 }

abbrev ann : Review
ann = record {
  token = "ann";
  status = record { authenticated = true; username = "ann"; groups = "dev" ∷ [] };
  at = 3;
}

abbrev second : Session
second = record { cache = (accept "ann" 60 3 ann.status []).1; reviews = ann ∷ []; now = 3 }

abbrev third : Session
third = record second { now = 10 }

ran : Steps (λ token. token) 60 first third
unfolding accept insert
ran = steps (steps (stays first) (deals first ann refl)) (waits second 7)

abbrev ann_credential : ClusterCredential
ann_credential = impersonating "ann" ("dev" ∷ [])

answered :
    authenticate reviewer 60 "Bearer ann" (third.cache, 10) ≡ (ok ann_credential, (third.cache, 10))
unfolding authenticate
answered = refl

authenticate-Vouched_example :
    (token : String) × (bearer_token "Bearer ann" ≡ ok token)
    × (Vouched (λ t. t) 60 (ann ∷ []) token 10 ann_credential
        ⊎ Reviewed reviewer 60 token 10 ann_credential 10)
authenticate-Vouched_example =
    authenticate-Vouched reviewer 60 "Bearer ann" 10 10 first third third.cache ann_credential refl
      ran refl answered
