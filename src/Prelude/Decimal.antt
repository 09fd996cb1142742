-- ===== src/Prelude/Decimal.antt =====
-- Go's `strconv.FormatInt(n, 10)` and `strconv.ParseInt(s, 10, 64)`.
use Prim.Native.Nat.{ℕ, zero, suc, ◌+◌, ◌*◌, ◌-◌, ◌/◌, ◌%◌, ◌<◌, ◌≤◌}
use Prim.Native.Char.{Char, code}
use Prim.Native.String.{String, [], ◌∷◌}
use mathlib.Core.Path.{◌≡◌, refl, ◌∙◌, ap}
use mathlib.Core.Logic.{inl, inr}
use mathlib.Core.Bool.{Bool, true, false, ◌&&◌}
use mathlib.Core.Option.{Option, none, some}
use native.Mathlib.Omega.{arith}
use capp_backend.Prelude.Tests.{ltb, leb, nat_eq, if◌then◌else◌, Bool-cases, ℤ, pos, negsuc}
use capp_backend.Prelude.Texts.{◌⧺◌}

abbrev char_at : String → ℕ → String
char_at [] n = []
char_at (c ∷ s) zero = c ∷ []
char_at (c ∷ s) (suc n) = char_at s n

abbrev digit : ℕ → String
digit n = char_at "0123456789" n

-- The fuel is above the number.
unfoldable format_digits : ℕ → ℕ → String
format_digits zero n = ""
format_digits (suc fuel) n =
    let rest = format_digits fuel (n / 10) in if ltb n 10 then digit n else rest ⧺ digit (n % 10)

unfoldable pub format_int : ℤ → String
unfolding format_digits
format_int (pos n) = format_digits (suc n) n
format_int (negsuc n) = "-" ⧺ format_digits (suc (suc n)) (suc n)

abbrev pub is_digit : Char → Bool
is_digit c = leb 48 (code c) && leb (code c) 57

unfoldable digits_value : ℕ → String → Option ℕ
digits_value acc [] = some acc
digits_value acc (c ∷ s) =
    let rest = digits_value (acc * 10 + (code c - 48)) s in if is_digit c then rest else none

-- A text, if there is one, without a sign, and the value it stands for.
unfoldable parse_digits : String → Option ℕ
unfolding digits_value
parse_digits [] = none
parse_digits (c ∷ s) = digits_value 0 (c ∷ s)

abbrev pub max_int64 : ℕ
max_int64 = 9223372036854775807

abbrev positive : Option ℕ → Option ℤ
positive none = none
positive (some n) = if leb n max_int64 then some (pos n) else none

abbrev negative : Option ℕ → Option ℤ
negative none = none
negative (some zero) = some (pos zero)
negative (some (suc n)) = if leb n max_int64 then some (negsuc n) else none

abbrev signed : Char → String → Option ℤ
signed c s =
    if nat_eq (code c) b'-'
    then negative (parse_digits s)
    else if nat_eq (code c) b'+'
    then positive (parse_digits s)
    else positive (parse_digits (c ∷ s))

-- `none` for an error, of syntax or of range.
unfoldable pub parse_int : String → Option ℤ
unfolding parse_digits
parse_int [] = none
parse_int (c ∷ s) = signed c s

digits_value-digit : (n acc : ℕ) → n < 10 → digits_value acc (digit n) ≡ some (acc * 10 + n)
unfolding digits_value
digits_value-digit zero acc h = refl
digits_value-digit (suc zero) acc h = refl
digits_value-digit (suc (suc zero)) acc h = refl
digits_value-digit (suc (suc (suc zero))) acc h = refl
digits_value-digit (suc (suc (suc (suc zero)))) acc h = refl
digits_value-digit (suc (suc (suc (suc (suc zero))))) acc h = refl
digits_value-digit (suc (suc (suc (suc (suc (suc zero)))))) acc h = refl
digits_value-digit (suc (suc (suc (suc (suc (suc (suc zero))))))) acc h = refl
digits_value-digit (suc (suc (suc (suc (suc (suc (suc (suc zero)))))))) acc h = refl
digits_value-digit (suc (suc (suc (suc (suc (suc (suc (suc (suc zero))))))))) acc h = refl
digits_value-digit (suc (suc (suc (suc (suc (suc (suc (suc (suc (suc n)))))))))) acc h =
    absurd (omega (arith, h))

some-injective : {a b : ℕ} → some a ≡ some b → a ≡ b
some-injective h = cc

none≢some : {a : ℕ} → ◌≡◌ {A = Option ℕ} none (some a) → ⊥
none≢some h = absurd cc

digits_value-append :
    (s : String) (acc v n : ℕ)
    → n < 10
    → digits_value acc s ≡ some v
    → digits_value acc (s ⧺ digit n) ≡ some (v * 10 + n)
unfolding digits_value
digits_value-append [] acc v n small h =
    digits_value-digit n acc small ∙ ap (λ x. some (x * 10 + n)) (some-injective h)
digits_value-append (c ∷ s) acc v n small h = elim (Bool-cases (is_digit c)) [
  | inl numeric ↦
      rw numeric (digits_value-append s (acc * 10 + (code c - 48)) v n small (rw numeric at h))
  | inr other ↦ absurd (none≢some (rw other at h))
]

digits_value-format_digits :
    (fuel n : ℕ) → n < fuel → digits_value 0 (format_digits fuel n) ≡ some n
unfolding format_digits
digits_value-format_digits zero n h = absurd (omega (arith, h))
digits_value-format_digits (suc fuel) n h = elim (Bool-cases (ltb n 10)) [
  | inl small ↦ rw small (digits_value-digit n 0 (ground arith) ∙ ap some (omega arith))
  | inr large ↦
      let tenth : n / 10 < fuel = ground arith in
      rw large (
        digits_value-append (format_digits fuel (n / 10)) 0 (n / 10) (n % 10) (omega arith)
          (digits_value-format_digits fuel (n / 10) tenth)
        ∙ ap some (omega arith))
]

-- Every character of the text is a digit.
abbrev pub Digits : String → Type 0
Digits [] = Unit
Digits (c ∷ s) = (is_digit c ≡ true) × Digits s

abbrev NotEmpty : String → Type 0
NotEmpty [] = ⊥
NotEmpty (c ∷ s) = Unit

digits_value-Digits : (acc v : ℕ) (s : String) → digits_value acc s ≡ some v → Digits s
unfolding digits_value
digits_value-Digits acc v [] h = tt
digits_value-Digits acc v (c ∷ s) h = elim (Bool-cases (is_digit c)) [
  | inl numeric ↦ (numeric, digits_value-Digits (acc * 10 + (code c - 48)) v s (rw numeric at h))
  | inr other ↦ absurd (none≢some (rw other at h))
]

value-NotEmpty : (s : String) (n : ℕ) → digits_value 1 s ≡ some (1 * 10 + n) → NotEmpty s
unfolding digits_value
value-NotEmpty [] n h = absurd (omega (arith, some-injective h))
value-NotEmpty (c ∷ s) n h = tt

NotEmpty-append : (s t : String) → NotEmpty t → NotEmpty (s ⧺ t)
NotEmpty-append [] t h = h
NotEmpty-append (c ∷ s) t h = tt

format_digits-NotEmpty : (fuel n : ℕ) → NotEmpty (format_digits (suc fuel) n)
unfolding format_digits
format_digits-NotEmpty fuel n = elim (Bool-cases (ltb n 10)) [
  | inl small ↦ rw small (value-NotEmpty (digit n) n (digits_value-digit n 1 (ground arith)))
  | inr large ↦ rw large (
      NotEmpty-append (format_digits fuel (n / 10)) (digit (n % 10))
        (value-NotEmpty (digit (n % 10)) (n % 10) (digits_value-digit (n % 10) 1 (omega arith))))
]

parse_int-signed :
    (s : String) (n : ℕ)
    → NotEmpty s
    → Digits s
    → digits_value 0 s ≡ some n
    → n ≤ max_int64
    → parse_int s ≡ some (pos n)
unfolding parse_int parse_digits
parse_int-signed [] n some_text ds v small = absurd some_text
parse_int-signed (c ∷ s) n some_text (d, ds) v small =
    let minus : nat_eq (code c) b'-' ≡ false = ground arith in
    let plus : nat_eq (code c) b'+' ≡ false = ground arith in
    let fits : leb n max_int64 ≡ true = ground arith in rw (minus, plus, v, fits) refl

format_digits-Digits : (n : ℕ) → Digits (format_digits (suc n) n)
format_digits-Digits n =
    digits_value-Digits 0 n (format_digits (suc n) n)
      (digits_value-format_digits (suc n) n (omega arith))

-- A number that is not negative is written in digits only.
pub format_int-Digits : (n : ℕ) → Digits (format_int (pos n))
unfolding format_int
format_int-Digits n = format_digits-Digits n

-- What is written is read back.
pub parse_int-format_int : (n : ℕ) → n ≤ max_int64 → parse_int (format_int (pos n)) ≡ some (pos n)
unfolding format_int
parse_int-format_int n small =
    parse_int-signed (format_digits (suc n) n) n (format_digits-NotEmpty n n)
      (format_digits-Digits n) (digits_value-format_digits (suc n) n (omega arith)) small
