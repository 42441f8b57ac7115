-- ===== src/Base/Texts.antt =====
-- C strings as the list of their bytes before the NUL, strcmp, and the comparison that the
-- commons library gives, which is a parameter of the development.
use Prim.Native.Nat.{ℕ, zero, suc, ◌+◌, ◌/◌, ◌%◌}
use Prim.Native.Char.{code}
use Prim.Native.String.{String}
use mathlib.Core.Path.{◌≡◌, refl}
use mathlib.Core.Bool.{Bool, true, false, ◌&&◌}
use mathlib.Core.List.{List, [], ◌∷◌, ◌++◌, map}
use native.Mathlib.Omega.{arith}
use tp_re_distinto_so.Base.Tests.{◌==◌, ltb, leb, if◌then◌else◌}

abbrev pub Text : Type 0
Text = List ℕ

abbrev pub codes : String → Text
codes String.[] = []
codes (String.◌∷◌ c s) = code c ∷ codes s

-- strcmp(a, b) == 0
unfoldable pub str_eq : Text → Text → Bool
str_eq [] [] = true
str_eq [] (b ∷ t) = false
str_eq (a ∷ s) [] = false
str_eq (a ∷ s) (b ∷ t) = (a == b) && str_eq s t

pub str_eq_refl : (s : Text) → str_eq s s ≡ true
unfolding str_eq
str_eq_refl [] = refl
str_eq_refl (a ∷ s) = ground (arith, str_eq_refl s)

pub str_eq→eq : (s t : Text) → str_eq s t ≡ true → s ≡ t
unfolding str_eq
str_eq→eq [] [] h = refl
str_eq→eq [] (b ∷ t) h = cc
str_eq→eq (a ∷ s) [] h = cc
str_eq→eq (a ∷ s) (b ∷ t) h = ground (arith, str_eq→eq s t)

-- The lower case of an ASCII letter.
unfoldable pub to_lower : ℕ → ℕ
to_lower c = if leb b'A' c && leb c b'Z' then c + 32 else c

-- The C string at the start of a buffer.
unfoldable pub c_string : List ℕ → Text
c_string [] = []
c_string (b ∷ bs) = if b == 0 then [] else b ∷ c_string bs

-- The decimal digits of a number; the fuel is the number itself.
unfoldable pub decimal : ℕ → ℕ → Text
decimal zero n = (48 + n % 10) ∷ []
decimal (suc fuel) n =
    let rest = decimal fuel (n / 10) in
    if ltb n 10 then (48 + n) ∷ [] else rest ++ (48 + n % 10) ∷ []

-- string_equals_ignore_case of the commons library, by its documentation an equality of texts
-- that does not look at the case of letters, which are those of ASCII.
pub record Commons : Type 0 where
  pub equals_ignore_case : Text → Text → Bool
  pub equals_refl : (s : Text) → equals_ignore_case s s ≡ true
  pub equals_symm : (s t : Text) → equals_ignore_case s t ≡ true → equals_ignore_case t s ≡ true
  pub equals_trans :
      (s t u : Text)
      → equals_ignore_case s t ≡ true
      → equals_ignore_case t u ≡ true
      → equals_ignore_case s u ≡ true
  pub equals_lower :
      (s t : Text) → equals_ignore_case s t ≡ str_eq (map to_lower s) (map to_lower t)
