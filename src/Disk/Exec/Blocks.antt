-- ===== src/Disk/Exec/Blocks.antt =====
-- The cases of istgt_lu_disk_execute (src/istgt/istgt_lu_disk.c) that read, write, verify and
-- flush blocks.
use istgt.Prelude.{ℕ, ◌/◌, ◌%◌, ◌^◌, ◌&&◌, ◌||◌, not, if◌then◌else◌, ◌==◌, ◌!=◌, ltb}
use istgt.Misc.Bytes.{Buf, at_offset, dget16, dget24, dget32, dget64, bget8}
use istgt.Disk.Types.{ret}
use istgt.Disk.Sense.{illegal_request}
use istgt.Disk.Io.Block.{lbread, lbwrite, lbwrite_same, lbwrite_ats, lbsync, work_block_size}
use istgt.Disk.Pr.Check.{allow_read, allow_write}
use istgt.Disk.Exec.{State, Env, rejected, rejected_with, accepted, if_admitted, after_io}

-- LOGICAL BLOCK ADDRESS and TRANSFER LENGTH of the forms of a CDB.
unfoldable pub lba6 : Buf → ℕ
unfolding dget24
lba6 cdb = dget24 (at_offset cdb 1) % 2 ^ 21

-- A length of 0 is 256 blocks.
unfoldable pub len6 : Buf → ℕ
len6 cdb = if cdb 4 == 0 then 256 else cdb 4

unfoldable pub lba10 : Buf → ℕ
unfolding dget32
lba10 cdb = dget32 (at_offset cdb 2)

unfoldable pub len10 : Buf → ℕ
unfolding dget16
len10 cdb = dget16 (at_offset cdb 7)

unfoldable pub len12 : Buf → ℕ
unfolding dget32
len12 cdb = dget32 (at_offset cdb 6)

unfoldable pub lba16 : Buf → ℕ
unfolding dget64
lba16 cdb = dget64 (at_offset cdb 2)

unfoldable pub len16 : Buf → ℕ
unfolding dget32
len16 cdb = dget32 (at_offset cdb 10)

module _ {ℓ} {σ : Type ℓ} (env : Env σ) where
  unfoldable pub read_blocks : (lba len : ℕ) → State σ → State σ
  unfolding after_io
  read_blocks lba len s = after_io (lbread env.backend s.unit.blocks s.io_conn s.cmd.io lba len) s

  unfoldable pub read_6 : State σ → State σ
  unfolding if_admitted read_blocks
  read_6 =
      if_admitted env allow_read
        λ s. if not s.cmd.r_bit then rejected s else read_blocks (lba6 s.cmd.cdb) (len6 s.cmd.cdb) s

  -- The longer forms want the R bit only for a length that is not 0.
  unfoldable pub read_long : (lba len : ℕ) → State σ → State σ
  unfolding read_blocks
  read_long lba len s = if not s.cmd.r_bit && ltb 0 len then rejected s else read_blocks lba len s

  unfoldable pub read_10 : State σ → State σ
  unfolding if_admitted read_long
  read_10 = if_admitted env allow_read λ s. read_long (lba10 s.cmd.cdb) (len10 s.cmd.cdb) s

  unfoldable pub read_12 : State σ → State σ
  unfolding if_admitted read_long
  read_12 = if_admitted env allow_read λ s. read_long (lba10 s.cmd.cdb) (len12 s.cmd.cdb) s

  unfoldable pub read_16 : State σ → State σ
  unfolding if_admitted read_long
  read_16 = if_admitted env allow_read λ s. read_long (lba16 s.cmd.cdb) (len16 s.cmd.cdb) s

  unfoldable pub write_blocks : (lba len : ℕ) → State σ → State σ
  unfolding after_io
  write_blocks lba len s =
      after_io (lbwrite env.backend env.transfer s.unit.blocks s.io_conn s.cmd.io lba len) s

  unfoldable pub write_6 : State σ → State σ
  unfolding if_admitted write_blocks
  write_6 =
      if_admitted env allow_write λ s.
        if not s.cmd.w_bit then rejected s else write_blocks (lba6 s.cmd.cdb) (len6 s.cmd.cdb) s

  unfoldable pub write_long : (lba len : ℕ) → State σ → State σ
  unfolding write_blocks
  write_long lba len s = if not s.cmd.w_bit && ltb 0 len then rejected s else write_blocks lba len s

  -- WRITE (10) and WRITE AND VERIFY (10)
  unfoldable pub write_10 : State σ → State σ
  unfolding if_admitted write_long
  write_10 = if_admitted env allow_write λ s. write_long (lba10 s.cmd.cdb) (len10 s.cmd.cdb) s

  unfoldable pub write_12 : State σ → State σ
  unfolding if_admitted write_long
  write_12 = if_admitted env allow_write λ s. write_long (lba10 s.cmd.cdb) (len12 s.cmd.cdb) s

  unfoldable pub write_16 : State σ → State σ
  unfolding if_admitted write_long
  write_16 = if_admitted env allow_write λ s. write_long (lba16 s.cmd.cdb) (len16 s.cmd.cdb) s

  -- VERIFY (10), (12) and (16) verify nothing.
  unfoldable pub verify : State σ → State σ
  unfolding if_admitted
  verify = if_admitted env allow_read λ s. accepted 0 s

  unfoldable pub same_blocks : (lba len : ℕ) → State σ → State σ
  unfolding after_io
  same_blocks lba len s =
      after_io (lbwrite_same env.backend env.transfer s.unit.blocks s.io_conn s.cmd.io lba len) s

  unfoldable pub write_same_10 : State σ → State σ
  unfolding if_admitted same_blocks
  write_same_10 = if_admitted env allow_write λ s.
      if not s.cmd.w_bit
      then rejected s
      else if bget8 (s.cmd.cdb 1) 2 != 0 || bget8 (s.cmd.cdb 1) 1 != 0
      then rejected_with illegal_request 0x24 0x00 s
      else same_blocks (lba10 s.cmd.cdb) (len10 s.cmd.cdb) s

  unfoldable pub write_same_16 : State σ → State σ
  unfolding if_admitted same_blocks
  write_same_16 = if_admitted env allow_write λ s.
      if not s.cmd.w_bit
      then rejected s
      else if bget8 (s.cmd.cdb 1) 2 != 0 || bget8 (s.cmd.cdb 1) 1 != 0
      then rejected_with illegal_request 0x24 0x00 s
      else if bget8 (s.cmd.cdb 1) 4 != 0
      then rejected_with illegal_request 0x24 0x00 s
      else same_blocks (lba16 s.cmd.cdb) (len16 s.cmd.cdb) s

  -- The blocks that fit the work buffer, and no more than 255.
  unfoldable pub ats_maxlen : (blocklen : ℕ) → ℕ
  ats_maxlen blocklen =
      let maxlen = work_block_size / blocklen in if ltb 0xff maxlen then 0xff else maxlen

  unfoldable pub compare_and_write : State σ → State σ
  unfolding if_admitted after_io
  compare_and_write = if_admitted env allow_write λ s.
      if not s.cmd.w_bit
      then rejected s
      else if ltb (ats_maxlen s.unit.blocks.blocklen) (s.cmd.cdb 13)
      then rejected_with illegal_request 0x24 0x00 s
      else after_io
          (lbwrite_ats env.backend env.transfer s.unit.blocks s.io_conn s.cmd.io (lba16 s.cmd.cdb)
            (s.cmd.cdb 13))
          s

  -- `len` is a `uint32_t`, to which `blockcnt` is cut off.
  unfoldable pub flush : (lba len : ℕ) → State σ → State σ
  flush lba len s =
      let blocks = if len == 0 then s.unit.blocks.blockcnt % 2 ^ 32 else len in
      let r = lbsync env.backend s.unit.blocks s.io_conn s.cmd.io lba blocks in
      let s1 = record s { unit = record s.unit { blocks = r.spec }; io_conn = r.conn } in
      elim r.rc [ ret _ ↦ accepted 0 s1 | _ ↦ rejected s1 ]

  unfoldable pub synchronize_cache_10 : State σ → State σ
  unfolding if_admitted flush
  synchronize_cache_10 =
      if_admitted env allow_write λ s. flush (lba10 s.cmd.cdb) (len10 s.cmd.cdb) s

  unfoldable pub synchronize_cache_16 : State σ → State σ
  unfolding if_admitted flush
  synchronize_cache_16 =
      if_admitted env allow_write λ s. flush (lba16 s.cmd.cdb) (len16 s.cmd.cdb) s
