-- ===== src/Misc/Strings/Numbers.antt =====
-- Printing an `int` and reading it back (`%d`, strtol).
use istgt.Prelude.{
  ℕ, zero, suc, ◌+◌, ◌-◌, ◌*◌, ◌/◌, ◌%◌, ◌^◌, ◌≤◌, ◌<◌, [], ◌∷◌, ◌++◌, true, false, ltb, Name,
  length, length-append, All, All-append, ◌≡◌, refl, subst, arith, inl, inr, ◌∙◌, ap, sym,
  Bool-cases,
}
use istgt.Misc.Strings.{skip_space, decimal, strtol, strtol_sign, strtol_digits, digits, print_int}

-- A string of digits.
abbrev pub AreDigits : Name → Type 0
AreDigits s = All (λ c. (b'0' ≤ c) × (c ≤ b'9')) s

digits-AreDigits : (rounds n : ℕ) → AreDigits (digits rounds n)
unfolding digits
digits-AreDigits zero n = tt
digits-AreDigits (suc rounds) n = elim (Bool-cases (ltb n 10)) [
  | inl e ↦ rw e (ground (arith, e), tt)
  | inr e ↦ rw e (
      All-append (λ c. (b'0' ≤ c) × (c ≤ b'9')) (digits rounds (n / 10)) ((b'0' + n % 10) ∷ [])
        (digits-AreDigits rounds (n / 10)) ((omega arith, omega arith), tt))
]

decimal-append :
    (s : Name) (value d : ℕ)
    → AreDigits s
    → d < 10
    → decimal value (s ++ (b'0' + d) ∷ []) ≡ decimal value s * 10 + d
unfolding decimal
decimal-append [] value d h k = ground arith
decimal-append (c ∷ s) value d h k =
    ground (arith, h.0.0, h.0.1, decimal-append s (value * 10 + (c - b'0')) d h.1 k)

-- A power that is written out.
abbrev pow10 : ℕ → ℕ
pow10 zero = 1
pow10 (suc n) = 10 * pow10 n

decimal-digits : (rounds n : ℕ) → n < pow10 rounds → decimal 0 (digits rounds n) ≡ n
unfolding digits decimal
decimal-digits zero n h = omega arith
decimal-digits (suc rounds) n h =
    let small : n / 10 < pow10 rounds = omega (arith, h) in
    elim (Bool-cases (ltb n 10)) [
      | inl e ↦ rw e (ground (arith, e))
      | inr e ↦
          rw
            (
              e,
              decimal-append (digits rounds (n / 10)) 0 (n % 10) (digits-AreDigits rounds (n / 10))
                  (omega arith),
              decimal-digits rounds (n / 10) small,
            )
            (omega arith)
    ]

-- strtol stands in front of a digit at once.
strtol-digit :
    (c : ℕ) (cs : Name) → b'0' ≤ c → c ≤ b'9' → strtol (c ∷ cs) ≡ strtol_digits false (c ∷ cs)
unfolding strtol strtol_sign skip_space
strtol-digit c cs h k = ground (arith, h, k)

strtol-AreDigits : (s : Name) → AreDigits s → strtol s ≡ strtol_digits false s
unfolding strtol strtol_sign strtol_digits skip_space decimal
strtol-AreDigits [] h = refl
strtol-AreDigits (c ∷ cs) h = strtol-digit c cs h.0.0 h.0.1

strtol_pos : (s : Name) (n : ℕ) → AreDigits s → decimal 0 s ≡ n → n < 2 ^ 31 → strtol s ≡ n
unfolding strtol_digits
strtol_pos s n h e k = strtol-AreDigits s h ∙ rw e (omega (arith, k))

strtol_neg :
    (s : Name) (n : ℕ) → decimal 0 s ≡ n → n ≤ 2 ^ 31 → 0 < n → strtol (b'-' ∷ s) ≡ 2 ^ 32 - n
unfolding strtol strtol_sign strtol_digits skip_space
strtol_neg s n e k pos = rw e (omega (arith, k, pos))

print_int-pos : (w : ℕ) → ltb w (2 ^ 31) ≡ true → print_int w ≡ digits 10 w
unfolding print_int
print_int-pos w e = rw e refl

print_int-neg : (w : ℕ) → ltb w (2 ^ 31) ≡ false → print_int w ≡ b'-' ∷ digits 10 (2 ^ 32 - w)
unfolding print_int
print_int-neg w e = rw e refl

-- The decimal form of an `int`, negative ones included, reads back as the same word.
pub strtol-print_int : (w : ℕ) → w < 2 ^ 32 → strtol (print_int w) ≡ w
strtol-print_int w h = elim (Bool-cases (ltb w (2 ^ 31))) as (λ _. strtol (print_int w) ≡ w) [
  | inl e ↦
      let small : w < 2 ^ 31 = ground (arith, e) in
      ap strtol (print_int-pos w e)
      ∙ strtol_pos (digits 10 w) w (digits-AreDigits 10 w)
          (decimal-digits 10 w (omega (arith, small))) small
  | inr e ↦
      let large : 2 ^ 31 ≤ w = ground (arith, e) in
      let n = 2 ^ 32 - w in
      ap strtol (print_int-neg w e)
      ∙ strtol_neg (digits 10 n) n (decimal-digits 10 n (omega (arith, large)))
          (omega (arith, large)) (omega (arith, h))
      ∙ omega (arith, h)
]

-- The decimal form of a number below 2 ^ 31 has digits alone.
pub print_int-AreDigits : (w : ℕ) → w < 2 ^ 31 → AreDigits (print_int w)
print_int-AreDigits w h =
    subst AreDigits (sym (print_int-pos w (ground (arith, h)))) (digits-AreDigits 10 w)

strtol_sign-bound : (s : Name) → strtol_sign s < 2 ^ 32
unfolding strtol_sign strtol_digits
strtol_sign-bound [] = omega arith
strtol_sign-bound (c ∷ cs) = ground arith

-- The value of any string is a word.
pub strtol-bound : (s : Name) → strtol s < 2 ^ 32
unfolding strtol
strtol-bound s = strtol_sign-bound (skip_space s)

digits-cons : (rounds n : ℕ) → (c : ℕ) × (cs : Name) × (digits (suc rounds) n ≡ c ∷ cs)
unfolding digits
digits-cons rounds n = elim (Bool-cases (ltb n 10)) [
  | inl e ↦ (b'0' + n, [], rw e refl)
  | inr e ↦ let r = snoc (digits rounds (n / 10)) (b'0' + n % 10) in (r.0, r.1, rw e r.2)
]
  where
    snoc : (s : Name) (d : ℕ) → (c : ℕ) × (cs : Name) × (s ++ d ∷ [] ≡ c ∷ cs)
    snoc [] d = (d, [], refl)
    snoc (c ∷ s) d = (c, s ++ d ∷ [], refl)

-- The decimal form of a number below 2 ^ 31 starts with a digit.
pub print_int-cons :
    (n : ℕ) → n < 2 ^ 31 → (c : ℕ) × (cs : Name) × (print_int n ≡ c ∷ cs) × (b'0' ≤ c)
print_int-cons n h =
    let r = digits-cons 9 n in
    let e = print_int-pos n (ground (arith, h)) ∙ r.2 in
    let all = subst AreDigits e (print_int-AreDigits n h) in (r.0, r.1, e, all.0.0)

length-digits : (rounds n : ℕ) → length (digits rounds n) ≤ rounds
unfolding digits
length-digits zero n = omega arith
length-digits (suc rounds) n = ground (
  arith,
  length-append (digits rounds (n / 10)) ((b'0' + n % 10) ∷ []),
  length-digits rounds (n / 10),
)

-- The decimal form of a word has at most 11 characters.
pub length-print_int : (w : ℕ) → length (print_int w) ≤ 11
unfolding print_int
length-print_int w = elim (Bool-cases (ltb w (2 ^ 31))) [
  | inl e ↦ rw e (short (digits 10 w) (length-digits 10 w)).0
  | inr e ↦ rw e (short (digits 10 (2 ^ 32 - w)) (length-digits 10 (2 ^ 32 - w))).1
]
  where
    short : (s : Name) → length s ≤ 10 → (length s ≤ 11) × (length (b'-' ∷ s) ≤ 11)
    short s h = (omega arith, omega arith)
