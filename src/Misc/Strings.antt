-- ===== src/Misc/Strings.antt =====
-- C strings (src/istgt/istgt_misc.c: strsepq; and strtol, strlcpy and `%d` of the C library). A
-- string is the list of its characters without the closing NUL. An `int` is its word, below 2 ^ 32.
pub mod Numbers
pub mod Tokens
use Prim.Native.Char.{code}
use Prim.Native.String.{String}
use istgt.Prelude.{
  ℕ, zero, suc, ◌+◌, ◌-◌, ◌*◌, ◌/◌, ◌%◌, ◌^◌, [], ◌∷◌, ◌++◌, Bool, true, false, ◌&&◌, ◌||◌, not,
  Option, none, some, if◌then◌else◌, ◌==◌, ◌!=◌, ltb, leb, take, any, min, Name,
}

-- A string literal.
abbrev pub codes : String → Name
codes String.[] = []
codes (String.◌∷◌ c s) = code c ∷ codes s

-- `strlcpy(dst, src, size)`
unfoldable pub strlcpy : Name → (size : ℕ) → Name
strlcpy src size = take (size - 1) src

-- What strsepq remembers: the quotation mark that is open, or 0; whether a backslash stands in
-- front; and whether a character has been left out, so that the copy lies in front of its source.
pub record Sep : Type 0 where
  pub quoted : ℕ
  pub bslash : Bool
  pub moved : Bool

-- What it does with a character: copy it, leave it out, end before it (at a newline), or end
-- behind it (at a separator).
pub data SepStep : Type 0 where
  copy : Sep → SepStep
  skip : Sep → SepStep
  stop : SepStep
  separate : SepStep

abbrev skip_with : Sep → (quoted : ℕ) → (bslash : Bool) → SepStep
skip_with s quoted bslash = skip (record { quoted = quoted; bslash = bslash; moved = true })

unfoldable pub sep_step : (delim : Name) → Sep → ℕ → SepStep
sep_step delim s c =
    if c == b'\n'
    then stop
    else if s.bslash
    then copy (record s { bslash = false })
    else if s.quoted != 0
    then if s.quoted == b'"' && c == b'\\'
      then skip_with s s.quoted true
      else if c == s.quoted
      then skip_with s 0 false
      else copy s
    else if c == b'\\'
    then skip_with s 0 true
    else if c == b'"' || c == b'\''
    then skip_with s c false
    else if not (any (λ d. d == c) delim)
    then copy s
    else separate

-- The token, and what is left. At a newline where nothing was left out, the closing NUL of the
-- token overwrites the newline.
unfoldable pub sep_scan : (delim : Name) → Sep → Name → Name × Name
unfolding sep_step
sep_scan delim s [] = ([], [])
sep_scan delim s (c ∷ cs) = elim (sep_step delim s c) [
  | copy s1 ↦ let r = sep_scan delim s1 cs in (c ∷ r.0, r.1)
  | skip s1 ↦ sep_scan delim s1 cs
  | stop ↦ if s.moved then ([], c ∷ cs) else ([], [])
  | separate ↦ ([], cs)
]

unfoldable pub skip_delim : (delim : Name) → Name → Name
skip_delim delim [] = []
skip_delim delim (c ∷ cs) = if any (λ d. d == c) delim then skip_delim delim cs else c ∷ cs

-- The token, and the string behind it, or NULL.
unfoldable pub strsepq : (delim : Name) → Name → Name × Option Name
unfolding sep_scan skip_delim
strsepq delim s =
    let r = sep_scan delim (record { quoted = 0; bslash = false; moved = false }) s in
    (r.0, elim (skip_delim delim r.1) [ [] ↦ none | c ∷ cs ↦ some (c ∷ cs) ])

abbrev pub is_digit : ℕ → Bool
is_digit c = leb b'0' c && leb c b'9'

-- `isspace` in the C locale
abbrev pub is_space : ℕ → Bool
is_space c = c == b' ' || leb 9 c && leb c 13

unfoldable pub skip_space : Name → Name
skip_space [] = []
skip_space (c ∷ cs) = if is_space c then skip_space cs else c ∷ cs

-- The number that the digits at the front stand for.
unfoldable pub decimal : (value : ℕ) → Name → ℕ
decimal value [] = value
decimal value (c ∷ cs) = if is_digit c then decimal (value * 10 + (c - b'0')) cs else value

-- `(int) strtol(s, NULL, 10)`, with a `long` of 64 bits.
unfoldable pub strtol_digits : (negative : Bool) → Name → ℕ
unfolding decimal
strtol_digits true s = (2 ^ 64 - min (decimal 0 s) (2 ^ 63)) % 2 ^ 32
strtol_digits false s = min (decimal 0 s) (2 ^ 63 - 1) % 2 ^ 32

unfoldable pub strtol_sign : Name → ℕ
unfolding strtol_digits
strtol_sign [] = 0
strtol_sign (c ∷ cs) =
    if c == b'-'
    then strtol_digits true cs
    else if c == b'+'
    then strtol_digits false cs
    else strtol_digits false (c ∷ cs)

unfoldable pub strtol : Name → ℕ
unfolding strtol_sign skip_space
strtol s = strtol_sign (skip_space s)

-- `a < b` between two `int`s
unfoldable pub int_ltb : ℕ → ℕ → Bool
int_ltb a b = ltb ((a + 2 ^ 31) % 2 ^ 32) ((b + 2 ^ 31) % 2 ^ 32)

-- The digits of a number, in at most `rounds` places. An `int` has ten.
unfoldable pub digits : (rounds : ℕ) → ℕ → Name
digits zero n = []
digits (suc rounds) n =
    let more = digits rounds (n / 10) in
    if ltb n 10 then (b'0' + n) ∷ [] else more ++ (b'0' + n % 10) ∷ []

-- `%d`
unfoldable pub print_int : ℕ → Name
unfolding digits
print_int w = if ltb w (2 ^ 31) then digits 10 w else b'-' ∷ digits 10 (2 ^ 32 - w)
