-- ===== src/Base/Text.antt =====
-- Python's `str` where the code compares whole texts or strips a prefix.
use Prim.Native.Nat.{ℕ, ◌≤◌}
use Prim.Native.Char.{code}
use Prim.Native.String.{String}
use mathlib.Core.Path.{◌≡◌, refl}
use mathlib.Core.Bool.{Bool, true, false, not, ◌&&◌, ◌||◌}
use mathlib.Core.Option.{Option, none, some}
use mathlib.Core.List.{List, [], ◌∷◌}
use native.Mathlib.Omega.{arith}
use text.Mathlib.Text.{◌==◌}
use text.Mathlib.TextEquality.{eq_iff}
use nexus_rag.Base.Tests.{leb, ◌==◌ as nat_eq, if◌then◌else◌}
use nexus_rag.Base.Lists.{In, length}

abbrev pub str_eq : String → String → Bool
str_eq s t = s == t

pub str_eq_iff : (s t : String) → (str_eq s t ≡ true → s ≡ t) × (s ≡ t → str_eq s t ≡ true)
str_eq_iff s t = eq_iff s t

pub str_eq_refl : (s : String) → str_eq s s ≡ true
str_eq_refl s = (eq_iff s s).1 refl

-- `a in xs`
abbrev pub contains : String → List String → Bool
contains a [] = false
contains a (x ∷ xs) = str_eq a x || contains a xs

pub contains-In : (a : String) (xs : List String) → contains a xs ≡ true → In a xs
contains-In a [] h = ground arith
contains-In a (x ∷ xs) h = ground (arith, eq_iff a x, contains-In a xs)

pub In-contains : (a : String) (xs : List String) → In a xs → contains a xs ≡ true
In-contains a [] h = absurd h
In-contains a (x ∷ xs) h = ground (arith, eq_iff a x, In-contains a xs)

-- `role[len(p):] if role.startswith(p)`, and `none` if it does not start so
abbrev pub strip_prefix : String → String → Option String
strip_prefix String.[] s = some s
strip_prefix (String.◌∷◌ c p) String.[] = none
strip_prefix (String.◌∷◌ c p) (String.◌∷◌ d s) =
    let rest = strip_prefix p s in if nat_eq (code c) (code d) then rest else none

-- the truth of a `str` in a condition
abbrev pub is_truthy : String → Bool
is_truthy String.[] = false
is_truthy (String.◌∷◌ c s) = true

-- the characters that `str.isspace` accepts
unfoldable pub is_space : ℕ → Bool
is_space c =
    (leb 9 c && leb c 13)
    || (leb 28 c && leb c 32)
    || nat_eq c 133
    || nat_eq c 160
    || nat_eq c 5760
    || (leb 8192 c && leb c 8202)
    || nat_eq c 8232
    || nat_eq c 8233
    || nat_eq c 8239
    || nat_eq c 8287
    || nat_eq c 12288

unfoldable pub lstrip : (ℕ → Bool) → String → String
lstrip p String.[] = String.[]
lstrip p (String.◌∷◌ c s) = let rest = lstrip p s in if p (code c) then rest else String.◌∷◌ c s

unfoldable pub rstrip : (ℕ → Bool) → String → String
rstrip p String.[] = String.[]
rstrip p (String.◌∷◌ c s) =
    let rest = rstrip p s in if is_truthy rest || not (p (code c)) then String.◌∷◌ c rest else rest

-- `s.strip()` takes off spaces, `s.strip("_")` that character
unfoldable pub strip : (ℕ → Bool) → String → String
unfolding lstrip rstrip
strip p s = rstrip p (lstrip p s)

-- `set(xs)`: each text once
abbrev pub to_set : List String → List String
to_set [] = []
to_set (x ∷ xs) = let rest = to_set xs in if contains x rest then rest else x ∷ rest

In-to_set : (a : String) (xs : List String) → In a xs → In a (to_set xs)
In-to_set a [] h = absurd h
In-to_set a (x ∷ xs) h = ground (arith, In-to_set a xs, contains-In x (to_set xs))

-- A set with at most one element has one value.
pub to_set_single :
    (xs : List String) → length (to_set xs) ≤ 1 → (a b : String) → In a xs → In b xs → a ≡ b
to_set_single xs h a b i j = single (to_set xs) h (In-to_set a xs i) (In-to_set b xs j)
  where
    single : (l : List String) → length l ≤ 1 → In a l → In b l → a ≡ b
    single [] k u v = absurd u
    single (c ∷ []) k u v = ground arith
    single (c ∷ d ∷ l) k u v = absurd (omega arith)
