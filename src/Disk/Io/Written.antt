-- ===== src/Disk/Io/Written.antt =====
-- What the block commands read and write on a back end that does not fail.
use istgt.Prelude.{
  ℕ, ◌+◌, ◌*◌, ◌≤◌, ◌<◌, ◌≡◌, ◌≢◌, ◌⊎◌, ◌↔◌, subst, inl, inr, List, [], true, false, some, arith,
  length, str_eq, str_eq_refl, eq_of_str_eq, Bool-cases, ◌==◌, ltb,
}
use istgt.Misc.Bytes.{Buf}
use istgt.Disk.Types.{ret, fail}
use istgt.Disk.Sense.{build_sense_data, miscompare}
use istgt.Disk.Io.{Backend, IsMedium, IoDisk, IoConn, IoCmd, Transfer, slice}
use istgt.Disk.Io.Block.{
  is_beyond, mul64, memcmp_eq, worksize, transfer_data, lbread, write_out, lbwrite, test_and_set,
  ats_out, lbwrite_ats,
}
use istgt.Disk.Io.Buffers.{
  length-slice, slice-filled, slice_of, is_beyond_iff, IsInside, is_beyond-IsInside,
}
use istgt.Disk.Io.Frame.{IsSized}

-- Within the first `limit` bytes, reads are complete.
abbrev pub CanRead {ℓ} : {σ : Type ℓ} → Backend σ → (contents : σ → Buf) (limit : ℕ) → Type ℓ
CanRead {σ = σ} b contents limit =
    (s : σ) (n offset : ℕ)
    → offset + n ≤ limit
    → b.pread s n offset ≡ some (slice (contents s) offset n)

-- Within the first `limit` bytes, writes are complete.
abbrev pub CanWrite {ℓ} : {σ : Type ℓ} → Backend σ → (limit : ℕ) → Type ℓ
CanWrite {σ = σ} b limit =
    (s : σ) (bytes : List ℕ) (offset : ℕ)
    → offset + length bytes ≤ limit
    → (b.pwrite s bytes offset).1 ≡ some (length bytes)

-- A command of one block or more, all of them blocks of a unit of less than 2 ^ 64 bytes, that the
-- command's buffer has room for.
pub record IsCommand {ℓ} {σ : Type ℓ} (spec : IoDisk σ) (cmd : IoCmd) (lba len : ℕ) : Type 0 where
  pub sized : IsSized spec
  pub some_blocks : 0 < len
  pub starts : lba < spec.blockcnt
  pub ends : lba + len ≤ spec.blockcnt
  pub has_room : len * spec.blocklen ≤ cmd.iobufsize

memcmp_eq_iff : (xs ys : List ℕ) → (memcmp_eq xs ys ≡ true) ↔ (xs ≡ ys)
unfolding memcmp_eq
memcmp_eq_iff xs ys = (eq_of_str_eq xs ys, λ p. subst (λ t. str_eq xs t ≡ true) p (str_eq_refl xs))

module _ {ℓ} {σ : Type ℓ} (b : Backend σ) (contents : σ → Buf) where
  IsCommand-IsInside :
      (spec : IoDisk σ) (cmd : IoCmd) (lba len : ℕ)
      → IsCommand spec cmd lba len
      → (is_beyond spec.blockcnt lba len ≡ false) × IsInside spec.blockcnt spec.blocklen lba len
  IsCommand-IsInside spec cmd lba len c =
      let h = (is_beyond_iff spec.blockcnt lba len).1 (c.starts, c.ends) in
      (h, is_beyond-IsInside spec.blockcnt spec.blocklen lba len c.sized h)

  -- READ of blocks of the unit succeeds on a back end whose reads are complete, and returns
  -- exactly their bytes; it leaves the unit as it was.
  pub lbread_lem :
      (spec : IoDisk σ) (conn : IoConn) (cmd : IoCmd) (lba len : ℕ)
      → CanRead b contents (spec.blockcnt * spec.blocklen)
      → IsCommand spec cmd lba len
      → let r = lbread b spec conn cmd lba len in
        (r.rc ≡ ret 0)
        × (r.spec ≡ spec)
        × (r.cmd.data_len ≡ len * spec.blocklen)
        × (r.cmd.data_buf ≡ some r.cmd.iobuf)
        × (slice r.cmd.iobuf 0 (len * spec.blocklen)
            ≡ slice (contents spec.medium) (lba * spec.blocklen) (len * spec.blocklen))
  unfolding lbread
  lbread_lem spec conn cmd lba len reads c =
      let inside = IsCommand-IsInside spec cmd lba len c in
      let n = len * spec.blocklen in
      let bytes = slice (contents spec.medium) (lba * spec.blocklen) n in
      ground (
        arith,
        inside,
        reads spec.medium n (lba * spec.blocklen),
        length-slice (contents spec.medium) (lba * spec.blocklen) n,
        slice-filled bytes cmd.iobuf,
      )

module _ {ℓ} {σ : Type ℓ} (b : Backend σ) (contents : σ → Buf) (laws : IsMedium b contents) where
  -- A complete write leaves its bytes on the medium.
  pub pwrite_lem :
      (s : σ) (bytes : List ℕ) (offset n : ℕ)
      → (b.pwrite s bytes offset).1 ≡ some (length bytes)
      → length bytes ≡ n
      → slice (contents (b.pwrite s bytes offset).0) offset n ≡ bytes
  pwrite_lem s bytes offset n h e =
      subst (λ k. slice (contents (b.pwrite s bytes offset).0) offset k ≡ bytes) e
        (slice_of (contents (b.pwrite s bytes offset).0) bytes offset
          (λ i k. laws.pwrite_sound s bytes offset i h k))

  write_out_lem :
      (spec : IoDisk σ) (conn : IoConn) (cmd : IoCmd) (bytes : List ℕ) (n offset m limit : ℕ)
      → CanWrite b limit
      → length bytes ≡ n
      → offset + n ≤ limit
      → let r = write_out b spec conn cmd bytes n offset m in
        (r.rc ≡ ret 0)
        × (r.spec ≡ record spec { medium = r.spec.medium })
        × (r.cmd ≡ record cmd { data_len = m })
        × (slice (contents r.spec.medium) offset n ≡ bytes)
  unfolding write_out
  write_out_lem spec conn cmd bytes n offset m limit writes e fits =
      ground (
        arith,
        writes spec.medium bytes offset (omega arith),
        pwrite_lem spec.medium bytes offset n,
      )

  -- WRITE of blocks of a unit that may be written succeeds on a back end whose writes are
  -- complete, where the data of the command arrives; the blocks then hold that data, the whole
  -- length is reported, and nothing but the medium changes of the unit.
  pub lbwrite_lem :
      (transfer : Transfer) (spec : IoDisk σ) (conn : IoConn) (cmd cmd1 : IoCmd) (lba len : ℕ)
      → CanWrite b (spec.blockcnt * spec.blocklen)
      → IsCommand spec cmd lba len
      → spec.readonly ≡ false
      → transfer_data transfer spec cmd (len * spec.blocklen) ≡ some cmd1
      → let r = lbwrite b transfer spec conn cmd lba len in
        (r.rc ≡ ret 0)
        × (r.spec ≡ record spec { medium = r.spec.medium })
        × (r.cmd ≡ record cmd1 { data_len = len * spec.blocklen })
        × (slice (contents r.spec.medium) (lba * spec.blocklen) (len * spec.blocklen)
            ≡ slice cmd1.iobuf 0 (len * spec.blocklen))
  unfolding lbwrite
  lbwrite_lem transfer spec conn cmd cmd1 lba len writes c w e =
      let inside = IsCommand-IsInside b contents spec cmd lba len c in
      let n = len * spec.blocklen in
      ground (
        arith,
        inside,
        write_out_lem spec conn cmd1 (slice cmd1.iobuf 0 n) n (lba * spec.blocklen) n
            (spec.blockcnt * spec.blocklen) writes (length-slice cmd1.iobuf 0 n),
      )

  -- Reading the blocks that a WRITE has written, by any command with room for them, returns the
  -- data of the WRITE.
  pub lbread-lbwrite :
      (transfer : Transfer) (spec : IoDisk σ) (conn : IoConn) (cmd cmd1 cmd2 : IoCmd) (lba len : ℕ)
      → CanRead b contents (spec.blockcnt * spec.blocklen)
      → CanWrite b (spec.blockcnt * spec.blocklen)
      → IsCommand spec cmd lba len
      → len * spec.blocklen ≤ cmd2.iobufsize
      → spec.readonly ≡ false
      → transfer_data transfer spec cmd (len * spec.blocklen) ≡ some cmd1
      → let r = lbread b (lbwrite b transfer spec conn cmd lba len).spec conn cmd2 lba len in
        (r.rc ≡ ret 0)
        × (r.cmd.data_buf ≡ some r.cmd.iobuf)
        × (r.cmd.data_len ≡ len * spec.blocklen)
        × (slice r.cmd.iobuf 0 (len * spec.blocklen) ≡ slice cmd1.iobuf 0 (len * spec.blocklen))
  lbread-lbwrite transfer spec conn cmd cmd1 cmd2 lba len reads writes c room w e =
      let written = lbwrite_lem transfer spec conn cmd cmd1 lba len writes c w e in
      let s = (lbwrite b transfer spec conn cmd lba len).spec.medium in
      let spec1 = record spec { medium = s } in
      let c1 : IsCommand spec1 cmd2 lba len = record {
        sized = c.sized;
        some_blocks = c.some_blocks;
        starts = c.starts;
        ends = c.ends;
        has_room = room;
      } in
      ground (arith, written, lbread_lem b contents spec1 conn cmd2 lba len reads c1)

  -- Where no guard stops it, COMPARE AND WRITE comes to its test.
  lbwrite_ats-test_and_set :
      (transfer : Transfer) (spec : IoDisk σ) (conn : IoConn) (cmd cmd1 : IoCmd) (lba len : ℕ)
      → IsCommand spec cmd lba len
      → spec.readonly ≡ false
      → len * spec.blocklen ≤ worksize spec.watssize
      → transfer_data transfer spec (record cmd { sense = [] }) (mul64 (len * spec.blocklen) 2)
        ≡ some cmd1
      → lbwrite_ats b transfer spec conn cmd lba len
        ≡ test_and_set b
            (record spec { watssize = some (worksize spec.watssize); req_write_cache = false })
            conn
            cmd1
            (len * spec.blocklen)
            (lba * spec.blocklen)
  unfolding lbwrite_ats ats_out
  lbwrite_ats-test_and_set transfer spec conn cmd cmd1 lba len c w room e =
      let inside = IsCommand-IsInside b contents spec cmd lba len c in
      let n = len * spec.blocklen in
      let some_blocks : (len == 0) ≡ false = ground (arith, c.some_blocks) in
      let has_room : ltb cmd.iobufsize n ≡ false = ground (arith, c.has_room) in
      let work_room : ltb (worksize spec.watssize) n ≡ false = ground (arith, room) in
      simp (some_blocks, inside.0, inside.1.bytes, inside.1.start, has_room, e, w, work_room)

  test_and_set_lem :
      (spec : IoDisk σ) (conn : IoConn) (cmd : IoCmd) (n offset limit : ℕ)
      → CanRead b contents limit
      → CanWrite b limit
      → offset + n ≤ limit
      → let old = slice (contents spec.medium) offset n in
        let r = test_and_set b spec conn cmd n offset in
        ((old ≡ slice cmd.iobuf 0 n)
          × (r.rc ≡ ret 0)
          × (slice (contents r.spec.medium) offset n ≡ slice cmd.iobuf n n))
        ⊎ ((old ≢ slice cmd.iobuf 0 n)
            × (r.rc ≡ fail)
            × (r.cmd.sense ≡ build_sense_data miscompare 0x1d 0x00)
            × (r.spec.medium ≡ spec.medium))
  unfolding test_and_set
  test_and_set_lem spec conn cmd n offset limit reads writes fits =
      let old = slice (contents spec.medium) offset n in
      let read = reads spec.medium n offset fits in
      let size = length-slice (contents spec.medium) offset n in
      let same = memcmp_eq_iff old (slice cmd.iobuf 0 n) in
      let out =
        write_out_lem spec conn cmd (slice cmd.iobuf n n) n offset (mul64 n 2) limit writes
          (length-slice cmd.iobuf n n) fits in
      elim (Bool-cases (memcmp_eq old (slice cmd.iobuf 0 n))) [
        | inl e ↦ inl (same.0 e, ground (arith, read, size, out), ground (arith, read, size, out))
        | inr e ↦ inr (
          λ p. ground (arith, same),
          ground (arith, read, size),
          ground (arith, read, size),
          ground (arith, read, size),
        )
      ]

  -- COMPARE AND WRITE of at least one block, inside a unit that may be written and has fewer than
  -- 2 ^ 64 bytes, with room for the blocks in the buffer of the command and in the work buffer,
  -- where both halves of the data of the command arrive, on a back end that reads and writes
  -- completely: if the blocks hold the first half of the data, they hold the second half afterwards,
  -- and the command succeeds; otherwise it ends with MISCOMPARE, and the medium is as it was.
  pub lbwrite_ats_lem :
      (transfer : Transfer) (spec : IoDisk σ) (conn : IoConn) (cmd cmd1 : IoCmd) (lba len : ℕ)
      → CanRead b contents (spec.blockcnt * spec.blocklen)
      → CanWrite b (spec.blockcnt * spec.blocklen)
      → IsCommand spec cmd lba len
      → spec.readonly ≡ false
      → len * spec.blocklen ≤ worksize spec.watssize
      → transfer_data transfer spec (record cmd { sense = [] }) (mul64 (len * spec.blocklen) 2)
        ≡ some cmd1
      → let n = len * spec.blocklen in
        let old = slice (contents spec.medium) (lba * spec.blocklen) n in
        let r = lbwrite_ats b transfer spec conn cmd lba len in
        ((old ≡ slice cmd1.iobuf 0 n)
          × (r.rc ≡ ret 0)
          × (slice (contents r.spec.medium) (lba * spec.blocklen) n ≡ slice cmd1.iobuf n n))
        ⊎ ((old ≢ slice cmd1.iobuf 0 n)
            × (r.rc ≡ fail)
            × (r.cmd.sense ≡ build_sense_data miscompare 0x1d 0x00)
            × (r.spec.medium ≡ spec.medium))
  lbwrite_ats_lem transfer spec conn cmd cmd1 lba len reads writes c w room e =
      let spec1 = record spec {
        watssize = some (worksize spec.watssize);
        req_write_cache = false;
      } in
      rw (lbwrite_ats-test_and_set transfer spec conn cmd cmd1 lba len c w room e) (
        test_and_set_lem spec1 conn cmd1 (len * spec.blocklen) (lba * spec.blocklen)
          (spec.blockcnt * spec.blocklen) reads writes
          (ground (arith, IsCommand-IsInside b contents spec cmd lba len c)))
