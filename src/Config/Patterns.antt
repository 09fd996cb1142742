-- ===== src/Config/Patterns.antt =====
-- internal/config/validation.go: the two regular expressions, as automata on the characters, and the
-- searches in texts. `$` matches only at the end of a text.
use Prim.Native.Char.{Char, code}
use Prim.Native.String.{[], ◌∷◌}
use capp_backend.Prelude.{
  ℕ, zero, suc, ◌-◌, String, Bool, true, false, ◌&&◌, ◌||◌, leb, nat_eq, if◌then◌else◌, is_some,
}
use capp_backend.ApiErrors.Messages.{after}

abbrev between : ℕ → ℕ → Char → Bool
between low high c = leb low (code c) && leb (code c) high

abbrev is_letter : Char → Bool
is_letter c = between b'A' b'Z' c || between b'a' b'z' c

abbrev is_word : Char → Bool
is_word c = is_letter c || (between b'0' b'9' c || nat_eq (code c) b'-')

abbrev is_key_char : Char → Bool
is_key_char c =
    between b'a' b'z' c || (between b'0' b'9' c || (nat_eq (code c) b'_' || nat_eq (code c) b'-'))

all_key_chars : String → Bool
all_key_chars [] = true
all_key_chars (c ∷ s) = is_key_char c && all_key_chars s

-- `ldapKeyIDPattern`.
unfoldable pub is_key_id : String → Bool
unfolding all_key_chars
is_key_id [] = false
is_key_id (c ∷ s) = all_key_chars (c ∷ s)

-- Where a match of `ldapAttributePattern` stands. The Boolean of a number says whether a dot has
-- come.
pub data AttributeState : Type 0 where
  start : AttributeState
  descriptor : AttributeState
  leading_zero : Bool → AttributeState
  number : Bool → AttributeState
  after_dot : AttributeState
  after_semicolon : AttributeState
  option : AttributeState
  failed : AttributeState

first_of_number : Bool → Char → AttributeState
first_of_number dotted c =
    if nat_eq (code c) b'0'
    then leading_zero dotted
    else if between b'1' b'9' c
    then number dotted
    else failed

abbrev next_part : Bool → Char → AttributeState
next_part dotted c =
    if nat_eq (code c) b'.'
    then after_dot
    else if dotted && nat_eq (code c) b';'
    then after_semicolon
    else failed

attribute_step : AttributeState → Char → AttributeState
unfolding first_of_number
attribute_step start c = if is_letter c then descriptor else first_of_number false c
attribute_step descriptor c =
    if is_word c then descriptor else if nat_eq (code c) b';' then after_semicolon else failed
attribute_step (leading_zero dotted) c = next_part dotted c
attribute_step (number dotted) c = if between b'0' b'9' c then number dotted else next_part dotted c
attribute_step after_dot c = first_of_number true c
attribute_step after_semicolon c = if is_word c then option else failed
attribute_step option c =
    if is_word c then option else if nat_eq (code c) b';' then after_semicolon else failed
attribute_step failed c = failed

abbrev accepts : AttributeState → Bool
accepts descriptor = true
accepts (leading_zero dotted) = dotted
accepts (number dotted) = dotted
accepts option = true
accepts _ = false

run_attribute : AttributeState → String → Bool
unfolding attribute_step
run_attribute q [] = accepts q
run_attribute q (c ∷ s) = run_attribute (attribute_step q c) s

-- `ldapAttributePattern`.
unfoldable pub is_attribute : String → Bool
unfolding run_attribute
is_attribute s = run_attribute start s

-- `strings.ContainsAny` for the two characters.
unfoldable pub has_slash_or_space : String → Bool
has_slash_or_space [] = false
has_slash_or_space (c ∷ s) = (nat_eq (code c) b'/' || nat_eq (code c) b' ') || has_slash_or_space s

unfoldable pub has_hash : String → Bool
has_hash [] = false
has_hash (c ∷ s) = nat_eq (code c) b'#' || has_hash s

abbrev length : String → ℕ
length [] = 0
length (c ∷ s) = suc (length s)

-- `strings.Count` for a text that is not empty; the number says how much of a match is left.
unfoldable pub count_text : String → ℕ → String → ℕ
unfolding after
count_text old skip [] = 0
count_text old (suc skip) (c ∷ s) = count_text old skip s
count_text old zero (c ∷ s) =
    let matches = is_some (after old (c ∷ s)) in
    let rest = count_text old (if matches then length old - 1 else 0) s in
    if matches then suc rest else rest
