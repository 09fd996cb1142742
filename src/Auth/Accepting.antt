-- ===== src/Auth/Accepting.antt =====
-- internal/auth/openshift.go: which states the OAuth callback accepts.
use Prim.Native.Char.{Char, code}
use Prim.Native.String.{[], ◌∷◌}
use mathlib.Core.Option
use mathlib.Core.List.{Mem, List}
use text.Mathlib.TextEquality.{Char-path}
use capp_backend.Prelude.{
  ℕ, ◌*◌, ◌≤◌, ◌<◌, ◌⊎◌, ◌≡◌, ◌↔◌, refl, sym, ap, ◌∙◌, subst, pos, String, true, false, Option,
  none, some, Result, ok, err, ◌==◌, nat_eq, arith, inl, inr, Bool-cases, eq_iff, eq_refl,
}
use capp_backend.Prelude.Texts.{◌⧺◌}
use capp_backend.Prelude.Decimal.{
  format_int, parse_int, Digits, format_int-Digits, parse_int-format_int,
}
use capp_backend.ApiErrors.{GoError}
use capp_backend.Auth.State.{
  cut, extend, nanoseconds, expiry_of, sign_state, check_expiry, check_state, check_payload,
  validate_state, payload_of, max_unix,
}

-- The text has no such character.
abbrev pub Lacks : ℕ → String → Type 0
Lacks sep [] = Unit
Lacks sep (c ∷ s) = (nat_eq (code c) sep ≡ false) × Lacks sep s

pub cut-append :
    (sep : ℕ) (s t : String) (c : Char)
    → Lacks sep s
    → nat_eq (code c) sep ≡ true
    → cut sep (s ⧺ c ∷ t) ≡ some (s, t)
unfolding cut
cut-append sep [] t c h is = rw is refl
cut-append sep (d ∷ s) t c (p, h) is = rw (p, cut-append sep s t c h is) refl

-- What a cut has found.
abbrev pub Parts : ℕ → String → String → String → Type 0
Parts sep s a b = (c : Char) × (nat_eq (code c) sep ≡ true) × Lacks sep a × (s ≡ a ⧺ c ∷ b)

some_pair : {p q : String × String} → some p ≡ some q → p ≡ q
some_pair h = cc

cut_cons :
    (c : Char) (o : Option (String × String)) (a b : String)
    → Option.map (extend c) o ≡ some (a, b)
    → (a' : String) × (o ≡ some (a', b)) × (a ≡ c ∷ a')
cut_cons c none a b h = absurd cc
cut_cons c (some (x, y)) a b h =
    let same = some_pair h in (x, ap (λ r. some (x, r.1)) same, sym (ap (λ r. r.0) same))

cut-Parts : (sep : ℕ) (s a b : String) → cut sep s ≡ some (a, b) → Parts sep s a b
unfolding cut
cut-Parts sep [] a b h = absurd cc
cut-Parts sep (c ∷ s) a b h = elim (Bool-cases (nat_eq (code c) sep)) [
  | inl is ↦ subst (λ r. Parts sep (c ∷ s) r.0 r.1) (some_pair (rw is at h)) (c, is, tt, refl)
  | inr other ↦
      let (a', found, same) = cut_cons c (cut sep s) a b (rw other at h) in
      let (d, is, lacks, whole) = cut-Parts sep s a' b found in
      subst (λ t. Parts sep (c ∷ s) t b) (sym same) (d, is, (other, lacks), ap (λ t. c ∷ t) whole)
]

err≢ok : {e : GoError} → ◌≡◌ {A = Result GoError (Unit {0})} (err e) (ok tt) → ⊥
err≢ok h = absurd cc

check_expiry_iff :
    (n now : ℕ) → n ≤ max_unix → (check_expiry (some (pos n)) now ≡ ok tt) ↔ (now ≤ n * nanoseconds)
check_expiry_iff n now small = (λ h. ground arith, λ h. ground arith)

-- What `signState` has made a state of: a nonce, whose hexadecimal text holds no dot, at a time that
-- `time.Unix` can represent ten minutes later.
pub record Issue : Type 0 where
  pub nonce : String
  pub at : ℕ
  pub no_dot : Lacks b'.' nonce
  pub in_range : expiry_of at ≤ max_unix

Digits-Lacks : (s : String) (sep : ℕ) → sep < 48 ⊎ 57 < sep → Digits s → Lacks sep s
Digits-Lacks [] sep h d = tt
Digits-Lacks (c ∷ s) sep h (p, d) = (ground arith, Digits-Lacks s sep h d)

Lacks-append : (sep : ℕ) (s t : String) → Lacks sep s → Lacks sep t → Lacks sep (s ⧺ t)
Lacks-append sep [] t a b = b
Lacks-append sep (c ∷ s) t (p, a) b = (p, Lacks-append sep s t a b)

module _ (signature : String → String) where
  state-ok :
      (o : Option (String × String)) (now : ℕ)
      → check_state signature o now ≡ ok tt
      → (payload : String) × (o ≡ some (payload, signature payload))
        × (check_payload (cut b':' payload) now ≡ ok tt)
  unfolding check_state
  state-ok none now h = absurd cc
  state-ok (some (payload, sig)) now h = elim (Bool-cases (signature payload == sig)) [
    | inl same ↦ (
      payload,
      ap (λ t. some (payload, t)) (sym ((eq_iff (signature payload) sig).0 same)),
      rw same at h,
    )
    | inr other ↦ absurd (err≢ok (rw other at h))
  ]

  -- A state of the right form is judged by its time.
  validate_state-Parts :
      (state payload expiry nonce : String) (n now : ℕ)
      → Parts b'.' state payload (signature payload)
      → Parts b':' payload expiry nonce
      → parse_int expiry ≡ some (pos n)
      → validate_state signature state now ≡ check_expiry (some (pos n)) now
  unfolding validate_state check_state check_payload
  validate_state-Parts state payload expiry nonce n now (dot, is, lacks, whole)
        (colon, is', lacks', whole') reads =
      let first : cut b'.' state ≡ some (payload, signature payload) =
        ap (cut b'.') whole ∙ cut-append b'.' payload (signature payload) dot lacks is in
      let second : cut b':' payload ≡ some (expiry, nonce) =
        ap (cut b':') whole' ∙ cut-append b':' expiry nonce colon lacks' is' in
      rw (first, eq_refl (signature payload), second, reads) refl

  -- A state that was signed is accepted up to its time, ten minutes after the signing in whole
  -- seconds, and at no later time. `time.Unix` can represent the time, and the hexadecimal text of
  -- the nonce holds no dot.
  pub sign_state-validate :
      (nonce : String) (signed now : ℕ)
      → Lacks b'.' nonce
      → expiry_of signed ≤ max_unix
      → (validate_state signature (sign_state signature nonce signed) now ≡ ok tt)
        ↔ (now ≤ expiry_of signed * nanoseconds)
  unfolding sign_state payload_of
  sign_state-validate nonce signed now h small =
      let exp = format_int (pos (expiry_of signed)) in
      let ds = format_int-Digits (expiry_of signed) in
      let payload = exp ⧺ ":" ⧺ nonce in
      let same =
        validate_state-Parts (sign_state signature nonce signed) payload exp nonce
          (expiry_of signed) now
          (
            _,
            refl,
            Lacks-append b'.' exp (":" ⧺ nonce) (Digits-Lacks exp b'.' (inl (omega arith)) ds)
                (refl, h),
            refl,
          )
          (_, refl, Digits-Lacks exp b':' (inr (omega arith)) ds, refl)
          (parse_int-format_int (expiry_of signed) (omega arith)) in
      let (there, back) = check_expiry_iff (expiry_of signed) now small in
      (λ e. there (sym same ∙ e), λ e. same ∙ back e)

  -- The state carries no signature but that of a payload that `signState` has signed. This is what an
  -- HMAC under a secret key promises of a text that comes from outside.
  abbrev pub IsUnforged : List Issue → String → Type 0
  IsUnforged issued state =
      (payload : String)
      → Parts b'.' state payload (signature payload)
      → (i : Issue) × Mem i issued × (payload ≡ payload_of i.nonce i.at)

  validated-Parts :
      (state : String) (now : ℕ)
      → validate_state signature state now ≡ ok tt
      → (payload : String) × Parts b'.' state payload (signature payload)
  unfolding validate_state
  validated-Parts state now h =
      let (payload, cut_at_dot, rest) = state-ok (cut b'.' state) now h in
      (payload, cut-Parts b'.' state payload (signature payload) cut_at_dot)

  -- Where nobody else can sign, the OAuth callback accepts a text exactly if it is, to the
  -- character, a state that this program has issued at most ten minutes ago, in whole seconds.
  pub validate_state-Issue :
      (issued : List Issue) (state : String) (now : ℕ)
      → IsUnforged issued state
      → (validate_state signature state now ≡ ok tt) ↔ (
          (i : Issue) × Mem i issued
          × (state ≡ sign_state signature i.nonce i.at)
          × (now ≤ expiry_of i.at * nanoseconds))
  unfolding sign_state
  validate_state-Issue issued state now unforged = (
    λ accepted.
        let (payload, (dot, is, lacks, whole)) = validated-Parts state now accepted in
        let (i, known, same) = unforged payload (dot, is, lacks, whole) in
        let made : state ≡ sign_state signature i.nonce i.at =
          whole
          ∙ ap (λ c. payload ⧺ c ∷ signature payload) (Char-path dot "." (ground arith))
          ∙ ap (λ p. p ⧺ "." ⧺ signature p) same in
        (
          i,
          known,
          made,
          (sign_state-validate i.nonce i.at now i.no_dot i.in_range).0
              (ap (λ t. validate_state signature t now) (sym made) ∙ accepted),
        ),
    λ (i, known, made, current).
        ap (λ t. validate_state signature t now) made
        ∙ (sign_state-validate i.nonce i.at now i.no_dot i.in_range).1 current,
  )
