-- ===== src/Kubernetes/Exec.antt =====
-- Code that talks to a cluster: it reads and changes the world `W`, and returns a value or an error.
-- What was written before an error stays written, so the world comes back beside the error too.
use capp_backend.Prelude.{◌≡◌, refl, Result, ok, err, map_err}
use capp_backend.ApiErrors.{GoError}

abbrev pub Exec {ℓ} : Type ℓ → Type ℓ → Type ℓ
Exec W A = W → Result GoError A × W

module _ {ℓ} {W A : Type ℓ} where
  abbrev pub pure : A → Exec W A
  pure a w = (ok a, w)

  abbrev pub raise : GoError → Exec W A
  raise e w = (err e, w)

  -- A computation that touches nothing.
  abbrev pub lift : Result GoError A → Exec W A
  lift r w = (r, w)

  -- A read, which leaves the world as it is.
  abbrev pub read : (W → Result GoError A) → Exec W A
  read f w = (f w, w)

  -- The same with another error.
  abbrev pub fail_with : (GoError → GoError) → Exec W A → Exec W A
  fail_with f m w = let r = m w in (map_err f r.0, r.1)

  -- What a computation that only returns has returned.
  pub pure-eq-ok : {a b : A} {w v : W} → pure a w ≡ (ok b, v) → (w ≡ v) × (b ≡ a)
  pure-eq-ok h = (cc, cc)

module _ {ℓ} {W A B : Type ℓ} where
  abbrev pub continue : Result GoError A × W → (A → Exec W B) → Result GoError B × W
  continue (ok a, w) f = f a w
  continue (err e, w) f = (err e, w)

  -- Inversion of a sequence that succeeds.
  pub continue-eq-ok :
      (x : Result GoError A × W) (f : A → Exec W B) {b : B} {w : W}
      → continue x f ≡ (ok b, w)
      → (a : A) × (v : W) × (x ≡ (ok a, v)) × (f a v ≡ (ok b, w))
  continue-eq-ok (ok a, v) f h = (a, v, refl, h)
  continue-eq-ok (err e, v) f h = absurd cc

  -- The same where the first part touches nothing.
  pub lift-eq-ok :
      (r : Result GoError A) (w : W) (f : A → Exec W B) {b : B} {w' : W}
      → continue (r, w) f ≡ (ok b, w')
      → (a : A) × (r ≡ ok a) × (f a w ≡ (ok b, w'))
  lift-eq-ok (ok a) w f h = (a, refl, h)
  lift-eq-ok (err e) w f h = absurd cc

  -- To prove a property of a sequence, prove it of either way out of its first part.
  pub continue_cases {κ} :
      (P : Result GoError B × W → Type κ) (x : Result GoError A × W) (f : A → Exec W B)
      → ((a : A) (v : W) → x ≡ (ok a, v) → P (f a v))
      → ((e : GoError) (v : W) → x ≡ (err e, v) → P (err e, v))
      → P (continue x f)
  continue_cases P (ok a, v) f good bad = good a v refl
  continue_cases P (err e, v) f good bad = bad e v refl

  -- The same where the first part has its error replaced.
  pub fail_with_cases {κ} :
      (P : Result GoError B × W → Type κ) (g : GoError → GoError) (x : Result GoError A × W)
      (f : A → Exec W B)
      → ((a : A) (v : W) → x ≡ (ok a, v) → P (f a v))
      → ((e : GoError) (v : W) → x ≡ (err e, v) → P (err (g e), v))
      → P (continue (map_err g x.0, x.1) f)
  fail_with_cases P g (ok a, v) f good bad = good a v refl
  fail_with_cases P g (err e, v) f good bad = bad e v refl

  infixl 5 ◌>>=◌ ◌>>◌
  abbrev pub ◌>>=◌ : Exec W A → (A → Exec W B) → Exec W B
  ◌>>=◌ m f w = continue (m w) f

  abbrev pub ◌>>◌ : Exec W A → Exec W B → Exec W B
  m >> n = m >>= λ _. n

module _ {ℓ} {W A B : Type ℓ} where
  abbrev pub settle :
      Result GoError A × W → (A → Exec W B) → (GoError → Exec W B) → Result GoError B × W
  settle (ok a, w) f g = f a w
  settle (err e, w) f g = g e w

  -- `if err := m; err != nil { g } else { f }`
  abbrev pub attempt : Exec W A → (A → Exec W B) → (GoError → Exec W B) → Exec W B
  attempt m f g w = settle (m w) f g

  -- To prove a property of either way out, prove it of both.
  pub settle_cases {κ} :
      (P : Result GoError B × W → Type κ) (x : Result GoError A × W) (f : A → Exec W B)
      (g : GoError → Exec W B)
      → ((a : A) (w : W) → x ≡ (ok a, w) → P (f a w))
      → ((e : GoError) (w : W) → x ≡ (err e, w) → P (g e w))
      → P (settle x f g)
  settle_cases P (ok a, w) f g good bad = good a w refl
  settle_cases P (err e, w) f g good bad = bad e w refl

module _ {ℓ} {W A B : Type ℓ} where
  -- The same of a sequence whose first part is undone when it fails.
  pub undo_cases {κ} :
      (P : Result GoError B × W → Type κ) (x : Result GoError A × W) (f : A → Exec W B)
      (g : GoError → W → W)
      → ((a : A) (v : W) → x ≡ (ok a, v) → P (f a v))
      → ((e : GoError) (v : W) → x ≡ (err e, v) → P (err e, g e v))
      → P (continue (settle x pure (λ e w. (err e, g e w))) f)
  undo_cases P (ok a, v) f g good bad = good a v refl
  undo_cases P (err e, v) f g good bad = bad e v refl
