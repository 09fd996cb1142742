-- ===== src/Prelude/Assoc.antt =====
-- Go maps with text keys, as association lists with at most one entry for a key.
use Prim.Native.String.{String}
use mathlib.Core.Path.{◌≡◌, refl, ap, subst, ◌∙◌}
use mathlib.Core.Logic.{inl, inr}
use mathlib.Core.Option.{Option, none, some}
use mathlib.Core.List.{List, [], ◌∷◌}
use native.Mathlib.Omega.{arith}
use text.Mathlib.Text.{◌==◌}
use text.Mathlib.TextEquality.{eq_iff}
use capp_backend.Prelude.Tests.{if◌then◌else◌, Bool-cases}
use capp_backend.Prelude.Lists.{All}

abbrev pub Assoc {ℓ} : Type ℓ → Type ℓ
Assoc V = List (String × V)

module _ {ℓ} {V : Type ℓ} where
  unfoldable pub lookup : String → Assoc V → Option V
  lookup key [] = none
  lookup key ((other, value) ∷ entries) = if other == key then some value else lookup key entries

  unfoldable pub insert : String → V → Assoc V → Assoc V
  insert key value [] = (key, value) ∷ []
  insert key value ((other, old) ∷ entries) =
      if other == key then (key, value) ∷ entries else (other, old) ∷ insert key value entries

  unfoldable pub delete : String → Assoc V → Assoc V
  delete key [] = []
  delete key ((other, value) ∷ entries) =
      let rest = delete key entries in if other == key then rest else (other, value) ∷ rest

  pub lookup-insert :
      (key other : String) (value : V) (entries : Assoc V)
      → lookup other (insert key value entries)
        ≡ (if key == other then some value else lookup other entries)
  unfolding lookup insert
  lookup-insert key other value [] = refl
  lookup-insert key other value ((first, old) ∷ entries) = ground (
    arith,
    eq_iff key other,
    eq_iff first key,
    eq_iff first other,
    lookup-insert key other value entries,
  )

  pub lookup-delete :
      (key other : String) (entries : Assoc V)
      → lookup other (delete key entries) ≡ (if key == other then none else lookup other entries)
  unfolding lookup delete
  lookup-delete key other [] = ground arith
  lookup-delete key other ((first, old) ∷ entries) = ground (
    arith,
    lookup-delete key other entries,
    eq_iff first key,
    eq_iff first other,
    eq_iff key other,
  )

-- What holds of every entry.
module _ {ℓ κ} {V : Type ℓ} (P : String × V → Type κ) where
  pub All-insert :
      (key : String) (value : V) (entries : Assoc V)
      → P (key, value)
      → All P entries
      → All P (insert key value entries)
  unfolding insert
  All-insert key value [] p h = (p, tt)
  All-insert key value ((other, old) ∷ entries) p (q, h) = elim (Bool-cases (other == key)) [
    | inl same ↦ rw same (p, h)
    | inr apart ↦ rw apart (q, All-insert key value entries p h)
  ]

  pub All-delete : (key : String) (entries : Assoc V) → All P entries → All P (delete key entries)
  unfolding delete
  All-delete key [] h = tt
  All-delete key ((other, value) ∷ entries) (q, h) = elim (Bool-cases (other == key)) [
    | inl same ↦ rw same (All-delete key entries h)
    | inr apart ↦ rw apart (q, All-delete key entries h)
  ]

  pub All-lookup :
      (key : String) (entries : Assoc V) {value : V}
      → All P entries
      → lookup key entries ≡ some value
      → P (key, value)
  unfolding lookup
  All-lookup key [] h e = absurd cc
  All-lookup key ((other, first) ∷ entries) {value} (q, h) e = elim (Bool-cases (other == key)) [
    | inl same ↦
        let found : some first ≡ some value = rw same at e in
        subst P (ap (λ k. (k, first)) ((eq_iff other key).0 same) ∙ ap (λ v. (key, v)) (cc)) q
    | inr apart ↦ All-lookup key entries h (rw apart at e)
  ]
