-- ===== src/Prelude/Distinct.antt =====
-- Lists of names without repetition, as a statement about the whole list and as a loop with a set
-- of the names already seen finds it.
use mathlib.Core.Path.{◌≡◌, refl}
use mathlib.Core.Bool.{false, true}
use mathlib.Core.List.{List, [], ◌∷◌, ◌++◌}
use Prim.Native.String.{String}
use native.Mathlib.Omega.{arith}
use text.Mathlib.TextEquality.{eq_iff}
use capp_backend.Prelude.Lists.{contains, IsNodup}

-- Every name differs from those before it and from those of `seen`.
abbrev pub Fresh : List String → List String → Type 0
Fresh seen [] = Unit
Fresh seen (x ∷ xs) = (contains seen x ≡ false) × Fresh (x ∷ seen) xs

-- The set after the loop.
abbrev pub seen_after : List String → List String → List String
seen_after seen [] = seen
seen_after seen (x ∷ xs) = seen_after (x ∷ seen) xs

pub Fresh-append :
    (seen xs ys : List String)
    → Fresh seen xs
    → Fresh (seen_after seen xs) ys
    → Fresh seen (xs ++ ys)
Fresh-append seen [] ys h k = k
Fresh-append seen (x ∷ xs) ys (p, h) k = (p, Fresh-append (x ∷ seen) xs ys h k)

pub Fresh-split :
    (seen xs ys : List String)
    → Fresh seen (xs ++ ys)
    → Fresh seen xs × Fresh (seen_after seen xs) ys
Fresh-split seen [] ys h = (tt, h)
Fresh-split seen (x ∷ xs) ys (p, h) = let (a, b) = Fresh-split (x ∷ seen) xs ys h in ((p, a), b)

abbrev Apart : List String → List String → Type 0
Apart seen [] = Unit
Apart seen (x ∷ xs) = (contains seen x ≡ false) × Apart seen xs

Apart-cons :
    (x : String) (seen ys : List String)
    → contains ys x ≡ false
    → Apart seen ys
    → Apart (x ∷ seen) ys
Apart-cons x seen [] h a = tt
Apart-cons x seen (y ∷ ys) h (p, a) =
    (ground (arith, eq_iff x y, eq_iff y x), Apart-cons x seen ys (ground arith) a)

Apart-uncons :
    (x : String) (seen ys : List String)
    → Apart (x ∷ seen) ys
    → (contains ys x ≡ false) × Apart seen ys
Apart-uncons x seen [] a = (refl, tt)
Apart-uncons x seen (y ∷ ys) (p, a) =
    let (q, b) = Apart-uncons x seen ys a in
    (ground (arith, eq_iff x y, eq_iff y x), (ground arith, b))

Apart-Fresh : (seen xs : List String) → Apart seen xs → IsNodup xs → Fresh seen xs
Apart-Fresh seen [] a h = tt
Apart-Fresh seen (x ∷ xs) (p, a) (q, h) =
    (p, Apart-Fresh (x ∷ seen) xs (Apart-cons x seen xs q a) h)

Fresh-Apart : (seen xs : List String) → Fresh seen xs → Apart seen xs × IsNodup xs
Fresh-Apart seen [] h = (tt, tt)
Fresh-Apart seen (x ∷ xs) (p, h) =
    let (a, n) = Fresh-Apart (x ∷ seen) xs h in
    let (q, b) = Apart-uncons x seen xs a in ((p, b), (q, n))

Apart-nil : (xs : List String) → Apart [] xs
Apart-nil [] = tt
Apart-nil (x ∷ xs) = (refl, Apart-nil xs)

pub IsNodup-Fresh : (xs : List String) → IsNodup xs → Fresh [] xs
IsNodup-Fresh xs h = Apart-Fresh [] xs (Apart-nil xs) h

pub Fresh-IsNodup : (xs : List String) → Fresh [] xs → IsNodup xs
Fresh-IsNodup xs h = (Fresh-Apart [] xs h).1

pub contains-append :
    (xs ys : List String) (x : String)
    → contains (xs ++ ys) x ≡ false
    → (contains xs x ≡ false) × (contains ys x ≡ false)
contains-append [] ys x h = (refl, h)
contains-append (z ∷ xs) ys x h = grind (arith, contains-append xs ys x)

pub IsNodup-append_right : (xs ys : List String) → IsNodup (xs ++ ys) → IsNodup ys
IsNodup-append_right [] ys h = h
IsNodup-append_right (x ∷ xs) ys (p, h) = IsNodup-append_right xs ys h

pub IsNodup-middle :
    (xs ys : List String) (y : String) → IsNodup (xs ++ y ∷ ys) → contains xs y ≡ false
IsNodup-middle [] ys y h = refl
IsNodup-middle (x ∷ xs) ys y (p, h) =
    ground
      (arith, IsNodup-middle xs ys y h, contains-append xs (y ∷ ys) x p, eq_iff x y, eq_iff y x)

pub contains-middle : (xs ys : List String) (y : String) → contains (xs ++ y ∷ ys) y ≡ true
contains-middle [] ys y = ground (arith, eq_iff y y)
contains-middle (x ∷ xs) ys y = ground (arith, contains-middle xs ys y)
