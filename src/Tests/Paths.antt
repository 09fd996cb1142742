-- ===== src/Tests/Paths.antt =====
-- Paths that are joined and cleaned the way of `filepath.Join`, but for `..`, which is left.
use Prim.Native.Char.{Char, code}
use Prim.Native.String.{[], ◌∷◌}
use capp_backend.Prelude.{
  String, ◌≡◌, refl, sym, ap, ◌∙◌, Bool, true, ◌&&◌, nat_eq, if◌then◌else◌, inl, inr, Bool-cases,
}
use capp_backend.Prelude.Texts.{◌⧺◌}
use capp_backend.GitOps.Repository.{
  Segment, begin, one_dot, two_dots, inside, is_inside, next, is_local_from,
}

abbrev pub held : Segment → String
held begin = []
held (one_dot a) = a ∷ []
held (two_dots a b) = a ∷ b ∷ []
held inside = []

-- What of a segment is written with the next character.
abbrev pub release : Segment → Char → String
release q c = if is_inside (next q c) then held q ⧺ (c ∷ []) else []

abbrev pub ended : Segment → Char → String
ended begin c = []
ended (one_dot a) c = []
ended (two_dots a b) c = a ∷ b ∷ c ∷ []
ended inside c = c ∷ []

abbrev pub last : Segment → String
last begin = []
last (one_dot a) = []
last (two_dots a b) = a ∷ b ∷ []
last inside = []

unfoldable pub tidy : Segment → String → String
unfolding next
tidy q [] = last q
tidy q (c ∷ s) =
    let there = ended q c ⧺ tidy begin s in
    let on = release q c ⧺ tidy (next q c) s in if nat_eq (code c) b'/' then there else on

⧺-assoc : (r s t : String) → (r ⧺ s) ⧺ t ≡ r ⧺ (s ⧺ t)
⧺-assoc [] s t = refl
⧺-assoc (c ∷ r) s t = ap (λ u. c ∷ u) (⧺-assoc r s t)

release-held : (q : Segment) (c : Char) → release q c ⧺ held (next q c) ≡ held q ⧺ (c ∷ [])
unfolding next
release-held begin c = elim (Bool-cases (nat_eq (code c) b'.')) [
  | inl dot ↦ rw dot refl
  | inr other ↦ rw other refl
]
release-held (one_dot a) c = elim (Bool-cases (nat_eq (code c) b'.')) [
  | inl dot ↦ rw dot refl
  | inr other ↦ rw other refl
]
release-held (two_dots a b) c = refl
release-held inside c = refl

-- The end of a segment that is kept.
tidy_slash :
    (q : Segment) (c : Char) (s rest : String) (b : Bool)
    → (b ≡ true → rest ≡ s)
    → is_inside q && b ≡ true
    → ended q c ⧺ rest ≡ held q ⧺ (c ∷ s)
tidy_slash begin c s rest b same h = absurd cc
tidy_slash (one_dot a) c s rest b same h = absurd cc
tidy_slash (two_dots a d) c s rest b same h = absurd cc
tidy_slash inside c s rest b same h = ap (λ t. c ∷ t) (same h)

-- Below a directory, such a path stays as it is.
pub tidy_local : (q : Segment) (s : String) → is_local_from q s ≡ true → tidy q s ≡ held q ⧺ s
unfolding tidy is_local_from
tidy_local begin [] h = absurd cc
tidy_local (one_dot a) [] h = absurd cc
tidy_local (two_dots a b) [] h = absurd cc
tidy_local inside [] h = refl
tidy_local q (c ∷ s) h = elim (Bool-cases (nat_eq (code c) b'/')) [
  | inl slash ↦ rw slash (
      tidy_slash q c s (tidy begin s) (is_local_from begin s) (λ h. tidy_local begin s h)
        (rw slash at h))
  | inr other ↦ rw other (
      ap (λ t. release q c ⧺ t) (tidy_local (next q c) s (rw other at h))
      ∙ sym (⧺-assoc (release q c) (held (next q c)) s)
      ∙ ap (λ t. t ⧺ s) (release-held q c)
      ∙ ⧺-assoc (held q) (c ∷ []) s)
]
