-- ===== src/Prelude/Texts.antt =====
-- Concatenation of texts, by clauses.
use Prim.Native.String.{String, [], ◌∷◌}

infixr 66 ◌⧺◌
abbrev pub ◌⧺◌ : String → String → String
[] ⧺ t = t
(c ∷ s) ⧺ t = c ∷ (s ⧺ t)
