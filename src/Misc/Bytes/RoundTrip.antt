-- ===== src/Misc/Bytes/RoundTrip.antt =====
-- What the macros write, they read back.
use istgt.Prelude.{
  ℕ, zero, suc, ◌+◌, ◌*◌, ◌^◌, ◌<◌, ◌≡◌, refl, List, [], ◌∷◌, ◌++◌, arith, drop, All,
}
use mathlib.Core.Path.{fun_ext}
use native.Mathlib.Nat.{zero-add, suc-add}
use istgt.Misc.Bytes.{
  Buf, at_offset, IsBytes, dget16, dget32, dget64, dset16, dset32, dset64, bget8w, buf_of,
}

pub dget16-lt : (b : Buf) → b 0 < 256 → b 1 < 256 → dget16 b < 2 ^ 16
unfolding dget16
dget16-lt b p q = omega arith

pub dget32-dset32 : (d : ℕ) (rest : List ℕ) → d < 2 ^ 32 → dget32 (buf_of (dset32 d ++ rest)) ≡ d
unfolding dget32 dset32 buf_of
dget32-dset32 d rest h = omega arith

pub dget16-dset16 : (d : ℕ) (rest : List ℕ) → d < 2 ^ 16 → dget16 (buf_of (dset16 d ++ rest)) ≡ d
unfolding dget16 dset16 buf_of
dget16-dset16 d rest h = omega arith

pub dget64-dset64 : (d : ℕ) (rest : List ℕ) → d < 2 ^ 64 → dget64 (buf_of (dset64 d ++ rest)) ≡ d
unfolding dget64 dset64 buf_of
dget64-dset64 d rest h = omega arith

pub dget64-lt : (b : Buf) → IsBytes b → dget64 b < 2 ^ 64
unfolding dget64
dget64-lt b h = omega (arith, h 0, h 1, h 2, h 3, h 4, h 5, h 6, h 7)

pub dget32-lt : (b : Buf) → IsBytes b → dget32 b < 2 ^ 32
unfolding dget32
dget32-lt b h = omega (arith, h 0, h 1, h 2, h 3)

-- The top byte of a number below 2 ^ 27 leaves no room for the identifier 8 in its low nibble.
pub dget32_top : (b : Buf) → IsBytes b → dget32 b < 2 ^ 27 → b 0 < 8
unfolding dget32
dget32_top b h lt = omega (arith, h 0, h 1, h 2, h 3)

pub bget8w-bfield_low : (d e : ℕ) → d < 16 → bget8w (e * 16 + d) 3 4 ≡ d
unfolding bget8w
bget8w-bfield_low d e h = omega arith

pub bget8w-bfield_high : (d e : ℕ) → d < 16 → e < 16 → bget8w (e * 16 + d) 7 4 ≡ e
unfolding bget8w
bget8w-bfield_high d e h k = omega arith

buf_of_at : (n : ℕ) (xs : List ℕ) (i : ℕ) → buf_of xs (n + i) ≡ buf_of (drop n xs) i
unfolding buf_of
buf_of_at zero xs i = rw zero-add
buf_of_at (suc n) [] i = refl
buf_of_at (suc n) (x ∷ xs) i = rw suc-add (buf_of_at n xs i)

-- A buffer from an offset on holds the list without its first bytes.
pub buf_of-drop : (n : ℕ) (xs : List ℕ) → at_offset (buf_of xs) n ≡ buf_of (drop n xs)
buf_of-drop n xs = fun_ext (buf_of_at n xs)

pub buf_of-IsBytes : (xs : List ℕ) → All (λ x. x < 256) xs → IsBytes (buf_of xs)
unfolding buf_of
buf_of-IsBytes [] h i = omega arith
buf_of-IsBytes (x ∷ xs) h zero = h.0
buf_of-IsBytes (x ∷ xs) h (suc i) = buf_of-IsBytes xs h.1 i
