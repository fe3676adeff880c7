-- ===== src/Disk/Io/Frame.antt =====
-- What the writing commands leave alone, whatever the back end answers.
use istgt.Prelude.{
  ℕ, zero, suc, ◌+◌, ◌-◌, ◌*◌, ◌%◌, ◌/◌, [], ◌^◌, ◌≤◌, ◌<◌, ◌≡◌, ◌⊎◌, inl, inr, refl, List, true,
  false, ◌==◌, if◌then◌else◌, arith, length, take, length-take, Option-cases, some,
}
use istgt.Misc.Bytes.{Buf, dmin}
use istgt.Disk.Io.{Backend, IsMedium, IoDisk, IoConn, IoCmd, Transfer, slice}
use istgt.Disk.Io.Block.{
  is_beyond, mul64, write_out, lbwrite, same_loop, same_out, lbwrite_same, test_and_set, ats_out,
  lbwrite_ats, copies, worksize, transfer_data,
}
use istgt.Disk.Io.Buffers.{length-slice, IsInside, is_beyond-IsInside, dmin-IsPiece}

-- The size of the medium is a `uint64_t`.
abbrev pub IsSized {ℓ} : {σ : Type ℓ} → IoDisk σ → Type 0
IsSized spec = spec.blockcnt * spec.blocklen < 2 ^ 64

-- A byte of no block that a command of `llen` blocks from `lba` on names.
abbrev pub IsOutside {ℓ} : {σ : Type ℓ} → IoDisk σ → (lba llen i : ℕ) → Type 0
IsOutside spec lba llen i =
    (i < lba * spec.blocklen)
    ⊎ ((lba + llen) * spec.blocklen ≤ i)
    ⊎ (spec.blockcnt * spec.blocklen ≤ i)

-- The number of blocks that WRITE SAME writes: a length of 0 is all blocks from `lba` on.
abbrev pub same_length {ℓ} : {σ : Type ℓ} → IoDisk σ → (lba len : ℕ) → ℕ
same_length spec lba len = if len == 0 then spec.blockcnt - lba else len

module _ {ℓ} {σ : Type ℓ} (b : Backend σ) (contents : σ → Buf) (laws : IsMedium b contents) where
  write_out-frame :
      (spec : IoDisk σ) (conn : IoConn) (cmd : IoCmd) (bytes : List ℕ) (n offset m i : ℕ)
      → (i < offset) ⊎ (offset + length bytes ≤ i)
      → contents (write_out b spec conn cmd bytes n offset m).spec.medium i ≡ contents spec.medium i
  unfolding write_out
  write_out-frame spec conn cmd bytes n offset m i h =
      ground (arith, laws.pwrite_frame spec.medium bytes offset i h)

  pub same_loop-frame :
      (rounds : ℕ) (s : σ) (workbuf : List ℕ) (blen wblocks offset rest i : ℕ)
      → offset + rest * blen < 2 ^ 64
      → (i < offset) ⊎ (offset + rest * blen ≤ i)
      → contents (same_loop b rounds s workbuf blen wblocks offset rest).0 i ≡ contents s i
  unfolding same_loop
  same_loop-frame zero s workbuf blen wblocks offset rest i fits h = refl
  same_loop-frame (suc rounds) s workbuf blen wblocks offset rest i fits h =
      let q = dmin wblocks rest in
      let n = mul64 q blen in
      let p = dmin-IsPiece blen wblocks offset rest fits in
      ground (
        arith,
        p,
        laws.pwrite_frame s (take n workbuf) offset i,
        length-take n workbuf,
        same_loop-frame rounds (b.pwrite s (take n workbuf) offset).0 workbuf blen wblocks
            ((offset + n) % 2 ^ 64) (rest - q) i,
      )

  lbwrite-frame :
      (transfer : Transfer) (spec : IoDisk σ) (conn : IoConn) (cmd : IoCmd) (lba len i : ℕ)
      → IsSized spec
      → IsOutside spec lba len i
      → contents (lbwrite b transfer spec conn cmd lba len).spec.medium i ≡ contents spec.medium i
  unfolding lbwrite
  lbwrite-frame transfer spec conn cmd lba len i sized h =
      let nbytes = mul64 len spec.blocklen in
      let inside = is_beyond-IsInside spec.blockcnt spec.blocklen lba len sized in
      elim (Option-cases (transfer_data transfer spec cmd nbytes)) [
        | inl e ↦ ground arith
        | inr (cmd1, e) ↦ ground (
          arith,
          inside,
          length-slice cmd1.iobuf 0 nbytes,
          write_out-frame spec conn cmd1 (slice cmd1.iobuf 0 nbytes) nbytes
              (mul64 lba spec.blocklen) nbytes i,
        )
      ]

  same_out-frame :
      (spec : IoDisk σ) (conn : IoConn) (cmd : IoCmd) (lba llen i : ℕ)
      → IsInside spec.blockcnt spec.blocklen lba llen
      → IsSized spec
      → IsOutside spec lba llen i
      → contents (same_out b spec conn cmd lba llen).spec.medium i ≡ contents spec.medium i
  unfolding same_out
  same_out-frame spec conn cmd lba llen i inside sized h =
      let wblocks = worksize conn.worksize / spec.blocklen in
      ground (
        arith,
        inside,
        same_loop-frame llen spec.medium (copies wblocks (slice cmd.iobuf 0 spec.blocklen))
            spec.blocklen wblocks (mul64 lba spec.blocklen) llen i,
      )

  test_and_set-frame :
      (spec : IoDisk σ) (conn : IoConn) (cmd : IoCmd) (n offset i : ℕ)
      → (i < offset) ⊎ (offset + n ≤ i)
      → contents (test_and_set b spec conn cmd n offset).spec.medium i ≡ contents spec.medium i
  unfolding test_and_set
  test_and_set-frame spec conn cmd n offset i h = ground (
    arith,
    length-slice cmd.iobuf n n,
    write_out-frame spec conn cmd (slice cmd.iobuf n n) n offset (mul64 n 2) i,
  )

  ats_out-frame :
      (spec : IoDisk σ) (conn : IoConn) (cmd : IoCmd) (n offset i : ℕ)
      → (i < offset) ⊎ (offset + n ≤ i)
      → contents (ats_out b spec conn cmd n offset).spec.medium i ≡ contents spec.medium i
  unfolding ats_out
  ats_out-frame spec conn cmd n offset i h =
      let spec1 = record spec {
        watssize = some (worksize spec.watssize);
        req_write_cache = false;
      } in
      ground (arith, test_and_set-frame spec1 conn cmd n offset i h)

  lbwrite_ats-frame :
      (transfer : Transfer) (spec : IoDisk σ) (conn : IoConn) (cmd : IoCmd) (lba len i : ℕ)
      → IsSized spec
      → IsOutside spec lba len i
      → contents (lbwrite_ats b transfer spec conn cmd lba len).spec.medium i
        ≡ contents spec.medium i
  unfolding lbwrite_ats
  lbwrite_ats-frame transfer spec conn cmd lba len i sized h =
      let nbytes = mul64 len spec.blocklen in
      let inside = is_beyond-IsInside spec.blockcnt spec.blocklen lba len sized in
      elim (Option-cases
        (transfer_data transfer spec (record cmd { sense = [] }) (mul64 nbytes 2))) [
          | inl e ↦ ground arith
          | inr (cmd1, e) ↦
              ground
                (arith, inside, ats_out-frame spec conn cmd1 nbytes (mul64 lba spec.blocklen) i)
        ]

  lbwrite_same-frame :
      (transfer : Transfer) (spec : IoDisk σ) (conn : IoConn) (cmd : IoCmd) (lba len i : ℕ)
      → IsSized spec
      → IsOutside spec lba (same_length spec lba len) i
      → contents (lbwrite_same b transfer spec conn cmd lba len).spec.medium i
        ≡ contents spec.medium i
  unfolding lbwrite_same
  lbwrite_same-frame transfer spec conn cmd lba len i sized h =
      let llen = same_length spec lba len in
      let inside = is_beyond-IsInside spec.blockcnt spec.blocklen lba llen sized in
      elim (Option-cases (transfer_data transfer spec (record cmd { sense = [] }) spec.blocklen)) [
        | inl e ↦ ground arith
        | inr (cmd1, e) ↦ ground (arith, same_out-frame spec conn cmd1 lba llen i)
      ]

  -- On a unit of a size below 2 ^ 64 bytes, WRITE, WRITE SAME and COMPARE AND WRITE change no byte
  -- outside the blocks that they name (for a length of 0, the blocks from `lba` on), and none
  -- behind the last block of the unit: whatever the initiator sends and the back end answers, and
  -- whether they succeed or fail.
  pub writes-frame :
      (transfer : Transfer) (spec : IoDisk σ) (conn : IoConn) (cmd : IoCmd) (lba len i : ℕ)
      → IsSized spec
      → IsOutside spec lba (same_length spec lba len) i
      → (contents (lbwrite b transfer spec conn cmd lba len).spec.medium i ≡ contents spec.medium i)
        × (contents (lbwrite_same b transfer spec conn cmd lba len).spec.medium i
            ≡ contents spec.medium i)
        × (contents (lbwrite_ats b transfer spec conn cmd lba len).spec.medium i
            ≡ contents spec.medium i)
  unfolding lbwrite lbwrite_ats
  writes-frame transfer spec conn cmd lba zero i sized h =
      (ground arith, lbwrite_same-frame transfer spec conn cmd lba 0 i sized h, refl)
  writes-frame transfer spec conn cmd lba (suc len) i sized h = (
    lbwrite-frame transfer spec conn cmd lba (suc len) i sized (ground arith),
    lbwrite_same-frame transfer spec conn cmd lba (suc len) i sized h,
    lbwrite_ats-frame transfer spec conn cmd lba (suc len) i sized (ground arith),
  )

module _ {σ : Type 0} (b : Backend σ) where
  -- On a read-only unit, WRITE, WRITE SAME and COMPARE AND WRITE leave the medium as it was; and
  -- they do so on every unit where they name a block behind its last one.
  pub refused-unchanged :
      (transfer : Transfer) (spec : IoDisk σ) (conn : IoConn) (cmd : IoCmd) (lba len : ℕ)
      → (spec.readonly ≡ true) ⊎ (spec.blockcnt < lba + len)
      → ((lbwrite b transfer spec conn cmd lba len).spec.medium ≡ spec.medium)
        × ((lbwrite_same b transfer spec conn cmd lba len).spec.medium ≡ spec.medium)
        × ((lbwrite_ats b transfer spec conn cmd lba len).spec.medium ≡ spec.medium)
  unfolding lbwrite lbwrite_same lbwrite_ats is_beyond
  refused-unchanged transfer spec conn cmd lba len h = ground arith
