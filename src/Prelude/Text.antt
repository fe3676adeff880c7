-- ===== src/Prelude/Text.antt =====
-- C strings as lists of character codes without the closing NUL (src/istgt/istgt_misc.c), and the
-- comparisons of <string.h>.
use Prim.Native.Nat.{ℕ, ◌+◌}
use mathlib.Core.Path.{◌≡◌, refl}
use mathlib.Core.Bool.{Bool, true, false, ◌&&◌}
use mathlib.Core.List.{List, [], ◌∷◌, map}
use native.Mathlib.Omega.{arith}
use istgt.Prelude.Tests.{leb, ◌==◌, if◌then◌else◌}

abbrev pub Name : Type 0
Name = List ℕ

-- `tolower` in the C locale
abbrev pub to_lower : ℕ → ℕ
to_lower c = if leb 65 c && leb c 90 then c + 32 else c

unfoldable pub strlwr : Name → Name
strlwr s = map to_lower s

-- `strcmp(a, b) == 0`
unfoldable pub str_eq : Name → Name → Bool
str_eq [] [] = true
str_eq [] (d ∷ t) = false
str_eq (c ∷ s) [] = false
str_eq (c ∷ s) (d ∷ t) = c == d && str_eq s t

-- `strcasecmp(a, b) == 0`
unfoldable pub str_case_eq : Name → Name → Bool
unfolding strlwr str_eq
str_case_eq a b = str_eq (strlwr a) (strlwr b)

pub to_lower_idem : (c : ℕ) → to_lower (to_lower c) ≡ to_lower c
to_lower_idem c = ground arith

-- A string is in lower case.
abbrev pub IsLower : Name → Type 0
IsLower s = strlwr s ≡ s

pub strlwr-IsLower : (s : Name) → IsLower (strlwr s)
unfolding strlwr
strlwr-IsLower [] = refl
strlwr-IsLower (c ∷ s) = λ i. to_lower_idem c i ∷ strlwr-IsLower s i

pub str_eq_refl : (s : Name) → str_eq s s ≡ true
unfolding str_eq
str_eq_refl [] = refl
str_eq_refl (c ∷ s) = ground (arith, str_eq_refl s)

pub eq_of_str_eq : (s t : Name) → str_eq s t ≡ true → s ≡ t
unfolding str_eq
eq_of_str_eq [] [] h = refl
eq_of_str_eq [] (d ∷ t) h = cc
eq_of_str_eq (c ∷ s) [] h = cc
eq_of_str_eq (c ∷ s) (d ∷ t) h = ground (arith, eq_of_str_eq s t)

-- A string equals another without regard to case if it equals it.
pub str_case_eq_of_str_eq : (s t : Name) → str_eq s t ≡ true → str_case_eq s t ≡ true
unfolding str_case_eq
str_case_eq_of_str_eq s t h = rw (eq_of_str_eq s t h) (str_eq_refl (strlwr t))

-- Between strings in lower case the two comparisons agree.
pub str_case_eq_lower : (s t : Name) → IsLower s → IsLower t → str_case_eq s t ≡ str_eq s t
unfolding str_case_eq
str_case_eq_lower s t p q = λ i. str_eq (p i) (q i)
