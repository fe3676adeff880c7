-- ===== src/Disk/Io/Same.antt =====
-- What WRITE SAME writes on a back end that does not fail: its loop over pieces of the work buffer
-- is the copying of one block.
use istgt.Prelude.{
  ℕ, zero, suc, ◌+◌, ◌-◌, ◌*◌, ◌/◌, ◌%◌, ◌^◌, ◌≤◌, ◌<◌, ◌≡◌, inl, refl, ap, sym, ◌∙◌, List, [],
  ◌++◌, true, false, some, arith, length, take, ◌==◌,
}
use native.Mathlib.Nat.{le-div_iff_mul-le}
use istgt.Misc.Bytes.{Buf, dmin}
use istgt.Disk.Types.{ret}
use istgt.Disk.Io.{Backend, IsMedium, IoDisk, IoConn, IoCmd, Transfer, slice}
use istgt.Disk.Io.Block.{mul64, copies, worksize, transfer_data, same_loop, same_out, lbwrite_same}
use istgt.Disk.Io.Buffers.{
  length-slice, slice_ext, slice_add, copies_add, take-copies, length-copies, dmin-IsPiece,
  is_beyond_iff, is_beyond-IsInside,
}
use istgt.Disk.Io.Frame.{IsSized, same_length, same_loop-frame}
use istgt.Disk.Io.Written.{CanWrite, pwrite_lem}

-- A WRITE SAME to blocks of a unit of less than 2 ^ 64 bytes, with room for one block in the
-- command's buffer and in the work buffer.
pub record IsSameCommand {ℓ} {σ : Type ℓ} (spec : IoDisk σ) (conn : IoConn) (cmd : IoCmd)
    (lba len : ℕ) : Type 0 where
  pub sized : IsSized spec
  pub starts : lba < spec.blockcnt
  pub ends : lba + len ≤ spec.blockcnt
  pub has_block : 0 < spec.blocklen
  pub has_room : spec.blocklen ≤ cmd.iobufsize
  pub work_room : spec.blocklen ≤ worksize conn.worksize

no_copies : (c : Buf) (offset : ℕ) (block : List ℕ) → slice c offset 0 ≡ copies 0 block
unfolding slice copies
no_copies c offset block = refl

dmin_le : (a b : ℕ) → dmin a b ≤ a
unfolding dmin
dmin_le a b = ground arith

dmin_pos : (a b : ℕ) → 0 < a → 0 < b → 0 < dmin a b
unfolding dmin
dmin_pos a b h k = ground arith

module _ {ℓ} {σ : Type ℓ} (b : Backend σ) (contents : σ → Buf) (laws : IsMedium b contents) where
  -- One piece of the loop.
  piece_lem :
      (s : σ) (block : List ℕ) (blen w q offset n limit : ℕ)
      → CanWrite b limit
      → length block ≡ blen
      → q ≤ w
      → n ≡ q * blen
      → offset + n ≤ limit
      → let r = b.pwrite s (take n (copies w block)) offset in
        (r.1 ≡ some n) × (slice (contents r.0) offset n ≡ copies q block)
  piece_lem s block blen w q offset n limit writes e h en fits =
      let bytes : take n (copies w block) ≡ copies q block =
        take-copies n q w block (ground arith) h in
      let size : length (copies q block) ≡ n = ground (arith, length-copies q block) in
      rw bytes (
        writes s (copies q block) offset (omega arith) ∙ ap some size,
        pwrite_lem b contents laws s (copies q block) offset n
            (writes s (copies q block) offset (omega arith)) size,
      )

  same_loop_done :
      (rounds : ℕ) (s : σ) (workbuf : List ℕ) (blen w offset : ℕ)
      → same_loop b rounds s workbuf blen w offset 0 ≡ (s, true)
  unfolding same_loop
  same_loop_done zero s workbuf blen w offset = refl
  same_loop_done (suc rounds) s workbuf blen w offset = refl

  same_loop_step :
      (rounds : ℕ) (s : σ) (workbuf : List ℕ) (blen w offset rest n : ℕ)
      → n ≡ mul64 (dmin w (suc rest)) blen
      → (b.pwrite s (take n workbuf) offset).1 ≡ some n
      → same_loop b (suc rounds) s workbuf blen w offset (suc rest)
        ≡ same_loop b rounds
            (b.pwrite s (take n workbuf) offset).0
            workbuf
            blen
            w
            ((offset + n) % 2 ^ 64)
            (suc rest - dmin w (suc rest))
  unfolding same_loop
  same_loop_step rounds s workbuf blen w offset rest n en h =
      let left : (suc rest == 0) ≡ false = ground arith in
      let complete : (n == n) ≡ true = ground arith in simp (sym en, left, h, complete)

  same_loop_lem :
      (rounds : ℕ) (s : σ) (block : List ℕ) (blen w offset rest limit : ℕ)
      → CanWrite b limit
      → limit < 2 ^ 64
      → length block ≡ blen
      → 0 < w
      → rest ≤ rounds
      → offset + rest * blen ≤ limit
      → let r = same_loop b rounds s (copies w block) blen w offset rest in
        (r.1 ≡ true) × (slice (contents r.0) offset (rest * blen) ≡ copies rest block)
  same_loop_lem rounds s block blen w offset zero limit writes sized e pos enough fits =
      rw (same_loop_done rounds s (copies w block) blen w offset)
        (refl, ap (slice (contents s) offset) (omega arith) ∙ no_copies (contents s) offset block)
  same_loop_lem zero s block blen w offset (suc rest) limit writes sized e pos enough fits =
      absurd (omega arith)
  same_loop_lem (suc rounds) s block blen w offset (suc rest) limit writes sized e pos enough fits =
      let q = dmin w (suc rest) in
      let p = dmin-IsPiece blen w offset (suc rest) (omega arith) in
      let n = mul64 q blen in
      let s1 = (b.pwrite s (take n (copies w block)) offset).0 in
      let piece =
        piece_lem s block blen w q offset n limit writes e (dmin_le w (suc rest)) p.bytes
          (ground (arith, p)) in
      let positive = dmin_pos w (suc rest) pos (omega arith) in
      let rest_lem =
        same_loop_lem rounds s1 block blen w (offset + q * blen) (suc rest - q) limit writes sized e
          pos (ground (arith, p, positive)) (ground (arith, p)) in
      let r = same_loop b rounds s1 (copies w block) blen w (offset + q * blen) (suc rest - q) in
      let kept : slice (contents r.0) offset n ≡ slice (contents s1) offset n =
        slice_ext (contents r.0) (contents s1) offset offset n (λ i h.
          same_loop-frame b contents laws rounds s1 (copies w block) blen w (offset + q * blen)
            (suc rest - q) (offset + i) (ground (arith, p)) (inl (ground (arith, p)))) in
      let whole : slice (contents r.0) offset (suc rest * blen) ≡ copies (suc rest) block =
        slice_add (contents r.0) offset (offset + q * blen) (suc rest * blen) n
          ((suc rest - q) * blen) (ground (arith, p)) (ground (arith, p))
        ∙ (λ i. (kept ∙ piece.1) i ++ rest_lem.1 i)
        ∙ sym (copies_add (suc rest) q (suc rest - q) block (ground (arith, p))) in
      rw (same_loop_step rounds s (copies w block) blen w offset rest n refl piece.0, p.next)
        (rest_lem.0, whole)

  -- WRITE SAME to blocks of a unit that may be written succeeds on a back end whose writes are
  -- complete, where the block of the command arrives and fits the work buffer; then every block
  -- that is named (for a length of 0, every block from `lba` on) is that block.
  pub lbwrite_same_lem :
      (transfer : Transfer) (spec : IoDisk σ) (conn : IoConn) (cmd cmd1 : IoCmd) (lba len : ℕ)
      → CanWrite b (spec.blockcnt * spec.blocklen)
      → IsSameCommand spec conn cmd lba len
      → spec.readonly ≡ false
      → transfer_data transfer spec (record cmd { sense = [] }) spec.blocklen ≡ some cmd1
      → let llen = same_length spec lba len in
        let r = lbwrite_same b transfer spec conn cmd lba len in
        (r.rc ≡ ret 0)
        × (slice (contents r.spec.medium) (lba * spec.blocklen) (llen * spec.blocklen)
            ≡ copies llen (slice cmd1.iobuf 0 spec.blocklen))
  unfolding lbwrite_same same_out
  lbwrite_same_lem transfer spec conn cmd cmd1 lba len writes c w e =
      let llen = same_length spec lba len in
      let ends : lba + llen ≤ spec.blockcnt = ground (arith, c) in
      let within = (is_beyond_iff spec.blockcnt lba llen).1 (c.starts, ends) in
      let inside = is_beyond-IsInside spec.blockcnt spec.blocklen lba llen c.sized within in
      let block = slice cmd1.iobuf 0 spec.blocklen in
      let wblocks = worksize conn.worksize / spec.blocklen in
      let pos : 1 ≤ wblocks = (le-div_iff_mul-le c.has_block).1 (ground (arith, c.work_room)) in
      let loop =
        same_loop_lem llen spec.medium block spec.blocklen wblocks (lba * spec.blocklen) llen
          (spec.blockcnt * spec.blocklen) writes c.sized (length-slice cmd1.iobuf 0 spec.blocklen)
          pos (omega arith) (ground (arith, inside)) in
      ground (arith, c, within, inside, pos, loop)
