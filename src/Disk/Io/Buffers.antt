-- ===== src/Disk/Io/Buffers.antt =====
-- Bytes of buffers: slices, copies of a block, and offsets of blocks that do not wrap.
use istgt.Prelude.{
  ℕ, zero, suc, ◌+◌, ◌-◌, ◌*◌, ◌%◌, ◌^◌, ◌≤◌, ◌<◌, ◌≡◌, refl, sym, ◌∙◌, ap, subst, List, [], ◌∷◌,
  ◌++◌, false, ◌↔◌, arith, length, take, length-append,
}
use mathlib.Core.List.{append_assoc}
use native.Mathlib.Nat.{mul-le-mul_right, add-mul}
use istgt.Misc.Bytes.{Buf, buf_of, dmin, at_offset}
use istgt.Disk.Io.{slice}
use istgt.Disk.Io.Block.{is_beyond, mul64, filled, copies}

pub length-slice : (b : Buf) (offset n : ℕ) → length (slice b offset n) ≡ n
unfolding slice
length-slice b offset zero = refl
length-slice b offset (suc n) = omega (arith, length-slice b (suc offset) n)

pub buf_of-slice : (b : Buf) (offset n i : ℕ) → i < n → buf_of (slice b offset n) i ≡ b (offset + i)
unfolding slice buf_of
buf_of-slice b offset zero i h = absurd (omega arith)
buf_of-slice b offset (suc n) zero h = ap b (omega arith)
buf_of-slice b offset (suc n) (suc i) h =
    subst (λ k. buf_of (slice b (suc offset) n) i ≡ b k) (omega arith)
      (buf_of-slice b (suc offset) n i (omega arith))

buf_of-filled :
    (bytes : List ℕ) (b : Buf) (i : ℕ) → i < length bytes → filled bytes b i ≡ buf_of bytes i
unfolding filled buf_of
buf_of-filled [] b i h = absurd (omega arith)
buf_of-filled (x ∷ xs) b zero h = refl
buf_of-filled (x ∷ xs) b (suc i) h = buf_of-filled xs (at_offset b 1) i (omega arith)

pub slice_ext :
    (a b : Buf) (offset offset1 n : ℕ)
    → ((i : ℕ) → i < n → a (offset + i) ≡ b (offset1 + i))
    → slice a offset n ≡ slice b offset1 n
unfolding slice
slice_ext a b offset offset1 zero h = refl
slice_ext a b offset offset1 (suc n) h =
    let first : a offset ≡ b offset1 = ground (arith, h 0 (omega arith)) in
    let rest : slice a (suc offset) n ≡ slice b (suc offset1) n =
      slice_ext a b (suc offset) (suc offset1) n (λ i k. ground (arith, h (suc i) (omega arith))) in
    cc

pub is_beyond_iff :
    (maxlba lba llen : ℕ)
    → (is_beyond maxlba lba llen ≡ false) ↔ ((lba < maxlba) × (lba + llen ≤ maxlba))
unfolding is_beyond
is_beyond_iff maxlba lba llen = ground arith

-- Blocks of the medium have offsets that do not wrap.
pub mul64_lem :
    (blocks cnt blen : ℕ) → blocks ≤ cnt → cnt * blen < 2 ^ 64 → mul64 blocks blen ≡ blocks * blen
unfolding mul64
mul64_lem blocks cnt blen h fits = grind (arith, mul-le-mul_right)

pub length-copies : (n : ℕ) (block : List ℕ) → length (copies n block) ≡ n * length block
unfolding copies
length-copies zero block = omega arith
length-copies (suc n) block =
    grind (arith, length-append block (copies n block), length-copies n block)

take-append : (m n : ℕ) (xs ys : List ℕ) → m ≡ length xs + n → take m (xs ++ ys) ≡ xs ++ take n ys
take-append m n [] ys h = ap (λ k. take k ys) (omega arith)
take-append zero n (x ∷ xs) ys h = absurd (omega arith)
take-append (suc m) n (x ∷ xs) ys h = ap (λ t. x ∷ t) (take-append m n xs ys (omega arith))

pub take-copies :
    (m r w : ℕ) (block : List ℕ)
    → m ≡ r * length block
    → r ≤ w
    → take m (copies w block) ≡ copies r block
unfolding copies
take-copies zero zero w block e h = refl
take-copies (suc m) zero w block e h = absurd (omega arith)
take-copies m (suc r) zero block e h = absurd (omega arith)
take-copies m (suc r) (suc w) block e h = ground (
  arith,
  take-append m (r * length block) block (copies w block) (grind arith),
  take-copies (r * length block) r w block refl (omega arith),
)

pub copies_add :
    (k m n : ℕ) (block : List ℕ) → k ≡ m + n → copies k block ≡ copies m block ++ copies n block
unfolding copies
copies_add k zero n block e = ap (λ k. copies k block) (omega arith)
copies_add zero (suc m) n block e = absurd (omega arith)
copies_add (suc k) (suc m) n block e =
    ap (λ t. block ++ t) (copies_add k m n block (omega arith))
    ∙ sym (append_assoc block (copies m block) (copies n block))

pub slice_add :
    (b : Buf) (offset offset1 k m n : ℕ)
    → k ≡ m + n
    → offset1 ≡ offset + m
    → slice b offset k ≡ slice b offset m ++ slice b offset1 n
unfolding slice
slice_add b offset offset1 k zero n e h =
    let same : offset1 ≡ offset = omega arith in let size : k ≡ n = omega arith in cc
slice_add b offset offset1 zero (suc m) n e h = absurd (omega arith)
slice_add b offset offset1 (suc k) (suc m) n e h =
    ap (λ t. b offset ∷ t) (slice_add b (suc offset) offset1 k m n (omega arith) (omega arith))

-- A buffer that has the bytes of a list from an offset on.
pub slice_of :
    (b : Buf) (bytes : List ℕ) (offset : ℕ)
    → ((i : ℕ) → i < length bytes → b (offset + i) ≡ buf_of bytes i)
    → slice b offset (length bytes) ≡ bytes
unfolding slice buf_of
slice_of b [] offset h = refl
slice_of b (x ∷ bytes) offset h =
    let first : b offset ≡ x = ground (arith, h 0 (omega arith)) in
    let rest : slice b (suc offset) (length bytes) ≡ bytes =
      slice_of b bytes (suc offset) (λ i k. ground (arith, h (suc i) (omega arith))) in
    cc

pub slice-filled : (bytes : List ℕ) (b : Buf) → slice (filled bytes b) 0 (length bytes) ≡ bytes
slice-filled bytes b =
    slice_of (filled bytes b) bytes 0 (λ i h. ground (arith, buf_of-filled bytes b i h))

-- The pieces of WRITE SAME add up, and nothing of them wraps.
pub record IsPiece (blen offset rest q : ℕ) : Type 0 where
  pub below : q ≤ rest
  pub bytes : mul64 q blen ≡ q * blen
  pub next : (offset + mul64 q blen) % 2 ^ 64 ≡ offset + q * blen
  pub total : q * blen + (rest - q) * blen ≡ rest * blen

pub dmin-IsPiece :
    (blen wblocks offset rest : ℕ)
    → offset + rest * blen < 2 ^ 64
    → IsPiece blen offset rest (dmin wblocks rest)
unfolding dmin
dmin-IsPiece blen wblocks offset rest fits =
    let q = dmin wblocks rest in
    let below : q ≤ rest = ground arith in
    let bytes : mul64 q blen ≡ q * blen = mul64_lem q rest blen below (omega arith) in
    let total : q * blen + (rest - q) * blen ≡ rest * blen =
      sym (add-mul q (rest - q) blen) ∙ ap (λ k. k * blen) (omega arith) in
    record { below = below; bytes = bytes; next = ground (arith, bytes); total = total }

-- The blocks that a command names, where the guard lets it pass.
pub record IsInside (cnt blen lba llen : ℕ) : Type 0 where
  pub bytes : mul64 llen blen ≡ llen * blen
  pub start : mul64 lba blen ≡ lba * blen
  pub total : lba * blen + llen * blen ≡ (lba + llen) * blen
  pub fits : (lba + llen) * blen ≤ cnt * blen

pub is_beyond-IsInside :
    (cnt blen lba llen : ℕ)
    → cnt * blen < 2 ^ 64
    → is_beyond cnt lba llen ≡ false
    → IsInside cnt blen lba llen
is_beyond-IsInside cnt blen lba llen sized h =
    let range : (lba < cnt) × (lba + llen ≤ cnt) = (is_beyond_iff cnt lba llen).0 h in
    record {
      bytes = mul64_lem llen cnt blen (omega arith) sized;
      start = mul64_lem lba cnt blen (omega arith) sized;
      total = sym (add-mul lba llen blen);
      fits = mul-le-mul_right blen range.1;
    }
