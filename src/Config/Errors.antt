-- ===== src/Config/Errors.antt =====
-- internal/config/validation.go: what it says of a validator that it has no errors.
use Prim.Native.String.{[]}
use capp_backend.Prelude.{
  String, ◌≡◌, ◌≢◌, Bool, false, List, [], ◌∷◌, ◌++◌, ◌==◌, All, not, true, arith,
}
use capp_backend.ApiErrors.{Message}
use capp_backend.Config.{error_if, joined}
use capp_backend.Config.Clusters.{error_if-eq-nil, append-eq-nil, differs}

pub passes : (b : Bool) (e : Message) → error_if b e ≡ [] → b ≡ false
passes b e h = (error_if-eq-nil b e).0 h

pub filled : (s : String) (e : Message) → error_if (s == "") e ≡ [] → s ≢ ""
filled s e h = (differs s "").0 (passes (s == "") e h)

pub first : (xs ys : List Message) → xs ++ ys ≡ [] → xs ≡ []
first xs ys h = ((append-eq-nil xs ys).0 h).0

pub others : (xs ys : List Message) → xs ++ ys ≡ [] → ys ≡ []
others xs ys h = ((append-eq-nil xs ys).0 h).1

pub joined-eq-nil : (parts : List (List Message)) → joined parts ≡ [] → All (λ es. es ≡ []) parts
joined-eq-nil [] h = tt
joined-eq-nil (es ∷ parts) h = (first _ _ h, joined-eq-nil parts (others _ _ h))

pub holds : (b : Bool) (e : Message) → error_if (not b) e ≡ [] → b ≡ true
holds b e h = ground arith
