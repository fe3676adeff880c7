-- ===== src/Lu/Access/Netmask.antt =====
-- Netmasks of IPv4 (src/istgt/istgt_lu.c: istgt_lu_allow_ipv4).
use native.Mathlib.Omega.{pow_step}
use native.Mathlib.Nat.{mul-div_cancel}
use istgt.Prelude.{
  ℕ, zero, suc, ◌-◌, ◌/◌, ◌^◌, ◌≤◌, ◌<◌, [], ◌∷◌, ◌++◌, length, Option, some, ◌==◌, Name, All, ◌≡◌,
  ◌≢◌, sym, ap, ◌∙◌, arith, inl, inr, Bool-cases,
}
use istgt.Misc.Strings.{print_int, int_ltb}
use istgt.Misc.Strings.Numbers.{strtol-print_int}
use istgt.Misc.Bytes.{Buf}
use istgt.Lu.Access.{split_at, mask_bits, same_ipv4, clear_low, allow_ipv4, max_maskbuf}

split_at-append :
    (c : ℕ) (s rest : Name) → All (λ d. d ≢ c) s → split_at c (s ++ c ∷ rest) ≡ (s, some rest)
unfolding split_at
split_at-append c [] rest h = ground arith
split_at-append c (d ∷ s) rest h = ground (arith, h.0, split_at-append c s rest h.1)

pow_pos : (n : ℕ) → 0 < 2 ^ n
pow_pos zero = omega arith
pow_pos (suc n) = omega (arith, pow_step 2 n, pow_pos n)

clear_low_iff : (low x y : ℕ) → (clear_low low x == clear_low low y) ≡ (x / 2 ^ low == y / 2 ^ low)
clear_low_iff low x y = elim (Bool-cases (x / 2 ^ low == y / 2 ^ low)) [
  | inl same ↦ let e : x / 2 ^ low ≡ y / 2 ^ low = ground (arith, same) in rw e (ground arith)
  | inr differ ↦
      let p = pow_pos low in
      let f : clear_low low x ≢ clear_low low y = λ e. absurd (
        ground (
          arith,
          differ,
          sym (mul-div_cancel (x / 2 ^ low) p)
              ∙ ap (λ n. n / 2 ^ low) e
              ∙ mul-div_cancel (y / 2 ^ low) p,
        )) in
      ground (arith, f, differ)
]

-- Masks with a number of bits from 0 to 32 compare the quotients by the power of the others.
same_ipv4_lem :
    (bits x y : ℕ)
    → bits ≤ 32
    → x < 2 ^ 32
    → y < 2 ^ 32
    → same_ipv4 bits x y ≡ (x / 2 ^ (32 - bits) == y / 2 ^ (32 - bits))
unfolding same_ipv4
same_ipv4_lem zero x y h k m = ground (arith, k, m)
same_ipv4_lem (suc n) x y h k m = rw (clear_low_iff (32 - suc n) x y) (ground arith)

mask_bits-print_int :
    (host : Name) (bits : ℕ)
    → All (λ d. d ≢ b'/') host
    → bits ≤ 32
    → mask_bits 32 (split_at b'/' (host ++ b'/' ∷ print_int bits)).1 ≡ bits
unfolding mask_bits
mask_bits-print_int host bits hs hb =
    ap (λ r. mask_bits 32 r.1) (split_at-append b'/' host (print_int bits) hs)
    ∙ strtol-print_int bits (omega (arith, hb))

-- A netmask of an IPv4 address, a '/' and a number of bits from 0 to 32 admits an address exactly
-- if both agree in that many of the highest bits, where inet_pton reads the two as numbers below
-- 2 ^ 32, and the text in front of the '/' has at most 127 characters and no other '/'.
pub allow_ipv4_lem :
    (inet4 : Name → Option ℕ) (inet6 : Name → Option Buf) (host addr : Name) (bits x y : ℕ)
    → inet4 host ≡ some x
    → inet4 addr ≡ some y
    → x < 2 ^ 32
    → y < 2 ^ 32
    → bits ≤ 32
    → All (λ d. d ≢ b'/') host
    → length host < max_maskbuf
    → allow_ipv4 inet4 inet6 (host ++ b'/' ∷ print_int bits) addr
      ≡ (x / 2 ^ (32 - bits) == y / 2 ^ (32 - bits))
unfolding allow_ipv4 int_ltb
allow_ipv4_lem inet4 inet6 host addr bits x y ex ey hx hy hb hs hl =
    rw
      (
        mask_bits-print_int host bits hs hb,
        split_at-append b'/' host (print_int bits) hs,
        ex,
        ey,
        mask_bits-print_int host bits hs hb,
        same_ipv4_lem bits x y hb hx hy,
      )
      (ground (arith, hb, hl))
