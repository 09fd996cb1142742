-- ===== src/ApiErrors/Messages/Identity.antt =====
-- internal/apierrors/errors.go: the caller's identity does not get into an RBAC message.
use Prim.Native.Char.{Char, code}
use Prim.Native.String.{[], ◌∷◌}
use capp_backend.Prelude.{
  ℕ, zero, suc, ◌+◌, ◌-◌, ◌≡◌, ◌∙◌, refl, sym, ◌≢◌, String, none, some, arith, ap,
}
use capp_backend.Prelude.Texts.{◌⧺◌}
use capp_backend.ApiErrors.Messages.{to_quote, identity_length, replace_from, without_identities}

-- No character of the text is `"`.
abbrev pub NoQuote : String → Type 0
NoQuote [] = Unit
NoQuote (c ∷ s) = (code c ≢ b'"') × NoQuote s

-- No character of the text is `U`.
abbrev pub NoCapitalU : String → Type 0
NoCapitalU [] = Unit
NoCapitalU (c ∷ s) = (code c ≢ b'U') × NoCapitalU s

abbrev count : String → ℕ
count [] = 0
count (c ∷ s) = suc (count s)

to_quote-append : (u s : String) → NoQuote u → to_quote (u ⧺ "\"" ⧺ s) ≡ some (count u, s)
unfolding to_quote
to_quote-append [] s h = refl
to_quote-append (c ∷ u) s (p, h) = rw (to_quote-append u s h) (ground arith)

-- A match of length `n` is dropped from the text in front of which it stands.
drop_prefix : (n : ℕ) (u s : String) → n ≡ count u → replace_from n (u ⧺ s) ≡ replace_from zero s
unfolding replace_from
drop_prefix zero [] s e = refl
drop_prefix zero (c ∷ u) s e = absurd (omega arith)
drop_prefix (suc n) [] s e = absurd (omega arith)
drop_prefix (suc n) (c ∷ u) s e = drop_prefix n u s (omega arith)

⧺_assoc : (s t r : String) → (s ⧺ t) ⧺ r ≡ s ⧺ t ⧺ r
⧺_assoc [] t r = refl
⧺_assoc (c ∷ s) t r = ap (λ x. c ∷ x) (⧺_assoc s t r)

count-⧺ : (s t : String) → count (s ⧺ t) ≡ count s + count t
count-⧺ [] t = omega arith
count-⧺ (c ∷ s) t = omega (arith, count-⧺ s t)

identity_length-append :
    (u s : String) → NoQuote u → identity_length ("User \"" ⧺ u ⧺ "\" " ⧺ s) ≡ some (count u + 8)
unfolding identity_length
identity_length-append u s h = rw (to_quote-append u (" " ⧺ s) h)

replace_from-match :
    (n : ℕ) (c : Char) (s : String)
    → identity_length (c ∷ s) ≡ some n
    → replace_from zero (c ∷ s) ≡ replace_from (n - 1) s
unfolding replace_from
replace_from-match n c s e = rw (e, replace_from)

drop_identity :
    (u s : String) → NoQuote u → replace_from zero ("User \"" ⧺ u ⧺ "\" " ⧺ s) ≡ replace_from zero s
drop_identity u s h =
    replace_from-match (count u + 8) _ _ (identity_length-append u s h)
    ∙ ap (λ t. replace_from (count u + 8 - 1) ("ser \"" ⧺ t)) (sym (⧺_assoc u "\" " s))
    ∙ drop_prefix (count u + 8 - 1) ("ser \"" ⧺ (u ⧺ "\" ")) s (omega (arith, count-⧺ u "\" "))

not_identity : (c : Char) (s : String) → code c ≢ b'U' → identity_length (c ∷ s) ≡ none
unfolding identity_length
not_identity c s h = ground arith

-- The name of the caller is dropped from a forbidden message that the API server writes in the
-- form `... User "name" ...`, whatever the name: what the client reads is the rest of the message,
-- with nothing of the name. The text before it holds no `U`, and the name no quote.
pub without_identities-hides :
    (p u s : String)
    → NoCapitalU p
    → NoQuote u
    → without_identities (p ⧺ "User \"" ⧺ u ⧺ "\" " ⧺ s) ≡ p ⧺ without_identities s
unfolding without_identities
without_identities-hides [] u s hp hu = drop_identity u s hu
without_identities-hides (c ∷ p) u s (hc, hp) hu =
    rw (not_identity c (p ⧺ "User \"" ⧺ u ⧺ "\" " ⧺ s) hc, replace_from)
      (ap (λ x. c ∷ x) (without_identities-hides p u s hp hu))
