-- ===== src/ApiErrors/Messages.antt =====
-- internal/apierrors/errors.go: the two regular expressions and the messages taken from Kubernetes
-- errors. The expressions are written out as functions on the characters of the text.
pub mod Identity
use Prim.Native.Char.{Char, code}
use Prim.Native.String.{[], ◌∷◌}
use mathlib.Core.Option
use capp_backend.Prelude.{
  ℕ, zero, suc, ◌+◌, ◌-◌, ◌≡◌, refl, Bool, true, false, String, Option, none, some, nat_eq,
  if◌then◌else◌, ◌==◌,
}
use capp_backend.ApiErrors.{GoError, K8sErrors, Message, literal}

-- What is left of `s` after the literal `p`.
unfoldable pub after : String → String → Option String
after [] s = some s
after (c ∷ p) [] = none
after (c ∷ p) (d ∷ s) = let rest = after p s in if nat_eq (code c) (code d) then rest else none

-- `[^"]*"`: the length of the text before the first quote, and what follows the quote.
unfoldable pub to_quote : String → Option (ℕ × String)
to_quote [] = none
to_quote (c ∷ s) =
    let rest = to_quote s in
    if nat_eq (code c) b'"' then some (0, s) else Option.map (λ r. (suc r.0, r.1)) rest

-- `(.+)$` without flags: at least one character, and no newline.
abbrev has_newline : String → Bool
has_newline [] = false
has_newline (c ∷ s) = if nat_eq (code c) 10 then true else has_newline s

whole_line : String → Option String
whole_line [] = none
whole_line (c ∷ s) = if has_newline (c ∷ s) then none else some (c ∷ s)

-- The quoted name of the webhook must not be empty.
abbrev named : ℕ × String → Option String
named (zero, s) = none
named (suc n, s) = some s

infixl 5 ◌>>=◌
abbrev ◌>>=◌ : {A B : Type 0} → Option A → (A → Option B) → Option B
none >>= f = none
some a >>= f = f a

-- `admissionWebhookDeniedRe`: the submatch `match[1]`.
unfoldable pub webhook_denial : String → Option String
unfolding after to_quote whole_line
webhook_denial msg = do
  quoted ← after "admission webhook \"" msg
  r ← to_quote quoted
  rest ← named r
  denial ← after " denied the request: " rest
  whole_line denial

-- `rbacIdentityRe` at the start of a text: the number of characters that it takes.
identity_length : String → Option ℕ
unfolding after to_quote
identity_length s = do
  quoted ← after "User \"" s
  r ← to_quote quoted
  _ ← after " " r.1
  some (r.0 + 8)

-- `ReplaceAllString(msg, "")`, left to right; `skip` characters of a match are still to be dropped.
replace_from : ℕ → String → String
unfolding identity_length
replace_from skip [] = []
replace_from (suc skip) (c ∷ s) = replace_from skip s
replace_from zero (c ∷ s) =
    let keep = c ∷ replace_from zero s in
    elim (identity_length (c ∷ s)) [ none ↦ keep | some n ↦ replace_from (n - 1) s ]

unfoldable pub without_identities : String → String
unfolding replace_from
without_identities msg = replace_from zero msg

-- `k8sForbiddenMessage` after the `errors.As`: the message of the status.
unfoldable pub forbidden_text : String → String
unfolding webhook_denial without_identities
forbidden_text msg =
    if msg == ""
    then "access denied"
    else elim (webhook_denial msg) [ some denial ↦ denial | none ↦ without_identities msg ]

unfoldable pub forbidden_message : K8sErrors → GoError → Message
unfolding forbidden_text
forbidden_message k e = elim (k.status_message e) [
  | none ↦ literal "access denied"
  | some msg ↦ literal (forbidden_text msg)
]
