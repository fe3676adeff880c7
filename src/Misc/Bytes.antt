-- ===== src/Misc/Bytes.antt =====
-- The macros of src/istgt/istgt_misc.h that read and write big-endian numbers and bit fields.
-- A buffer is the function from an offset to the byte there. The bytes that a macro joins by `|`
-- do not overlap, so the joined number is a sum.
pub mod RoundTrip
use istgt.Prelude.{
  ℕ, zero, suc, ◌+◌, ◌-◌, ◌*◌, ◌/◌, ◌%◌, ◌^◌, ◌≤◌, ◌<◌, ◌≡◌, List, [], ◌∷◌, ◌++◌, get_elem?, Option,
  none, some, if◌then◌else◌, ltb,
}

abbrev pub Buf : Type 0
Buf = ℕ → ℕ

-- `&data[n]`
abbrev pub at_offset : Buf → ℕ → Buf
at_offset b n i = b (n + i)

-- Every byte is a `uint8_t`.
abbrev pub IsBytes : Buf → Type 0
IsBytes b = (i : ℕ) → b i < 256

unfoldable pub dget16 : Buf → ℕ
dget16 b = b 0 * 2 ^ 8 + b 1

unfoldable pub dget24 : Buf → ℕ
dget24 b = b 0 * 2 ^ 16 + b 1 * 2 ^ 8 + b 2

unfoldable pub dget32 : Buf → ℕ
dget32 b = b 0 * 2 ^ 24 + b 1 * 2 ^ 16 + b 2 * 2 ^ 8 + b 3

unfoldable pub dget64 : Buf → ℕ
dget64 b =
    b 0 * 2 ^ 56
    + b 1 * 2 ^ 48
    + b 2 * 2 ^ 40
    + b 3 * 2 ^ 32
    + b 4 * 2 ^ 24
    + b 5 * 2 ^ 16
    + b 6 * 2 ^ 8
    + b 7

-- The bytes that `DSET16` to `DSET64` store, in order of address.
unfoldable pub dset16 : ℕ → List ℕ
dset16 d = (d / 2 ^ 8 % 256) ∷ (d % 256) ∷ []

unfoldable pub dset24 : ℕ → List ℕ
dset24 d = (d / 2 ^ 16 % 256) ∷ (d / 2 ^ 8 % 256) ∷ (d % 256) ∷ []

unfoldable pub dset32 : ℕ → List ℕ
dset32 d = (d / 2 ^ 24 % 256) ∷ (d / 2 ^ 16 % 256) ∷ (d / 2 ^ 8 % 256) ∷ (d % 256) ∷ []

unfoldable pub dset64 : ℕ → List ℕ
dset64 d =
    (d / 2 ^ 56 % 256)
    ∷ (d / 2 ^ 48 % 256)
    ∷ (d / 2 ^ 40 % 256)
    ∷ (d / 2 ^ 32 % 256)
    ∷ (d / 2 ^ 24 % 256)
    ∷ (d / 2 ^ 16 % 256)
    ∷ (d / 2 ^ 8 % 256)
    ∷ (d % 256)
    ∷ []

-- `BGET8W(B, N, W)`: the field of `w` bits whose highest bit is bit `n`, for `0 < w ≤ n + 1`.
unfoldable pub bget8w : ℕ → ℕ → ℕ → ℕ
bget8w byte n w = byte / 2 ^ (n - (w - 1)) % 2 ^ w

-- `BGET8(B, N)`
unfoldable pub bget8 : ℕ → ℕ → ℕ
unfolding bget8w
bget8 byte n = bget8w byte n 1

-- The value of `D` shifted to its place by `BDSET8W` and `BDADD8W`. `BDADD8W` adds it to a byte in
-- which the field is clear.
unfoldable pub bfield : ℕ → ℕ → ℕ → ℕ
bfield d n w = d % 2 ^ w * 2 ^ (n - (w - 1))

-- The buffer that holds the bytes of a list, and zeros behind them.
unfoldable pub buf_of : List ℕ → Buf
buf_of [] i = 0
buf_of (x ∷ xs) zero = x
buf_of (x ∷ xs) (suc i) = buf_of xs i

-- What `DMIN32` and `DMIN64` give for arguments of their width.
unfoldable pub dmin : ℕ → ℕ → ℕ
dmin a b = if ltb b a then b else a
