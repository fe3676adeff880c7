-- ===== src/Misc/Strings/Tokens.antt =====
-- What strsepq makes of text without quotation marks (src/istgt/istgt_misc.c: strsepq), and
-- strlcpy of a text that fits.
use istgt.Prelude.{
  ℕ, [], ◌∷◌, ◌++◌, false, none, some, Name, All, ◌≡◌, ◌≢◌, refl, arith, ◌<◌, ◌-◌, length, take-all,
}
use istgt.Misc.Strings.{Sep, sep_step, sep_scan, skip_delim, strsepq, strlcpy}
use istgt.Misc.Strings.Numbers.{AreDigits}

-- A character that is none of those that strsepq looks for, with a comma between the tokens.
abbrev pub IsPlain : ℕ → Type 0
IsPlain c = (c ≢ b'\n') × (c ≢ b'\\') × (c ≢ b'"') × (c ≢ b'\'') × (c ≢ b',')

abbrev at_start : Sep
at_start = record { quoted = 0; bslash = false; moved = false }

sep_scan-plain : (s : Name) → All IsPlain s → sep_scan (b',' ∷ []) at_start s ≡ (s, [])
unfolding sep_scan sep_step
sep_scan-plain [] h = refl
sep_scan-plain (c ∷ s) h = ground (arith, h.0.0, h.0.1, h.0.2, h.0.3, h.0.4, sep_scan-plain s h.1)

sep_scan-comma :
    (s rest : Name) → All IsPlain s → sep_scan (b',' ∷ []) at_start (s ++ b',' ∷ rest) ≡ (s, rest)
unfolding sep_scan sep_step
sep_scan-comma [] rest h = refl
sep_scan-comma (c ∷ s) rest h =
    ground (arith, h.0.0, h.0.1, h.0.2, h.0.3, h.0.4, sep_scan-comma s rest h.1)

-- A plain text is one token.
pub strsepq-plain : (s : Name) → All IsPlain s → strsepq (b',' ∷ []) s ≡ (s, none)
unfolding strsepq skip_delim
strsepq-plain s h = rw (sep_scan-plain s h) refl

-- In front of a comma it is the first token.
pub strsepq-comma :
    (s : Name) (c : ℕ) (rest : Name)
    → All IsPlain s
    → c ≢ b','
    → strsepq (b',' ∷ []) (s ++ b',' ∷ c ∷ rest) ≡ (s, some (c ∷ rest))
unfolding strsepq skip_delim
strsepq-comma s c rest h ne = rw (sep_scan-comma s (c ∷ rest) h) (ground (arith, ne))

pub AreDigits-IsPlain : (s : Name) → AreDigits s → All IsPlain s
AreDigits-IsPlain [] h = tt
AreDigits-IsPlain (c ∷ s) h = (
  (
    λ e. absurd (omega (arith, e, h.0.0, h.0.1)),
    λ e. absurd (omega (arith, e, h.0.0, h.0.1)),
    λ e. absurd (omega (arith, e, h.0.0, h.0.1)),
    λ e. absurd (omega (arith, e, h.0.0, h.0.1)),
    λ e. absurd (omega (arith, e, h.0.0, h.0.1)),
  ),
  AreDigits-IsPlain s h.1,
)

pub strlcpy-short : (s : Name) (size : ℕ) → length s < size → strlcpy s size ≡ s
unfolding strlcpy
strlcpy-short s size h = take-all (size - 1) s (omega (arith, h))
