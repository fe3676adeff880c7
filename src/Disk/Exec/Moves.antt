-- ===== src/Disk/Exec/Moves.antt =====
-- What each command leaves of the medium of its unit (src/istgt/istgt_lu_disk.c,
-- istgt_lu_disk_execute).
use istgt.Prelude.{ℕ, Bool, true, false, ◌≡◌, ◌≢◌, refl, arith, ◌==◌, ◌%◌, ◌^◌, if◌then◌else◌}
use istgt.Misc.Bytes.{Buf}
use istgt.Disk.Io.{IsMedium}
use istgt.Disk.Exec.{State, Env, if_admitted, after_io}
use istgt.Disk.Exec.Blocks.{
  lba6, len6, lba10, len10, len12, lba16, len16, read_blocks, read_long, write_blocks, write_long,
  same_blocks, flush, read_6, read_10, read_12, read_16, write_6, write_10, write_12, write_16,
  write_same_10, write_same_16, compare_and_write, synchronize_cache_10, synchronize_cache_16,
}
use istgt.Disk.Exec.Medium.{
  Keeps, same-Keeps, lbread-Keeps, lbsync-Keeps, lbwrite-Keeps, lbwrite_same-Keeps,
  lbwrite_ats-Keeps,
}
use istgt.Disk.Exec.Opcode.{Opcode}
use istgt.Disk.Exec.Execute.{run}
use istgt.Disk.Exec.Effects.{
  part_of, reading, writing, run-nothing, run-caches, run-groups, run-reserving,
}

module _ {σ : Type 0} (contents : σ → Buf) (env : Env σ) (s : State σ) where
  read_blocks-Keeps :
      (lba len : ℕ) → Keeps contents false s.unit.blocks (read_blocks env lba len s).unit.blocks
  unfolding read_blocks after_io
  read_blocks-Keeps lba len =
      lbread-Keeps env.backend contents s.unit.blocks s.io_conn s.cmd.io lba len

  write_blocks-Keeps :
      (lba len : ℕ) → Keeps contents true s.unit.blocks (write_blocks env lba len s).unit.blocks
  unfolding write_blocks after_io
  write_blocks-Keeps lba len =
      lbwrite-Keeps env.backend contents env.transfer s.unit.blocks s.io_conn s.cmd.io lba len

  same_blocks-Keeps :
      (lba len : ℕ) → Keeps contents true s.unit.blocks (same_blocks env lba len s).unit.blocks
  unfolding same_blocks after_io
  same_blocks-Keeps lba len =
      lbwrite_same-Keeps env.backend contents env.transfer s.unit.blocks s.io_conn s.cmd.io lba len

  flush-Keeps :
      IsMedium env.backend contents
      → (lba len : ℕ) → Keeps contents false s.unit.blocks (flush env lba len s).unit.blocks
  unfolding flush
  flush-Keeps law lba len =
      let blocks = if len == 0 then s.unit.blocks.blockcnt % 2 ^ 32 else len in
      ground
        (arith, lbsync-Keeps env.backend contents law s.unit.blocks s.io_conn s.cmd.io lba blocks)

  -- Commands that are not about blocks.
  pub run-aside :
      (op : Opcode)
      → part_of op ≢ reading
      → part_of op ≢ writing
      → Keeps contents false s.unit.blocks (run env op s).unit.blocks
  run-aside op h k = same-Keeps env.backend contents false s.unit.blocks _ (
      ground (
        arith,
        run-nothing env s op,
        run-caches env s op,
        run-groups env s op,
        run-reserving env s op,
      ))

  unmoved : (may_write : Bool) → Keeps contents may_write s.unit.blocks s.unit.blocks
  unmoved may_write = same-Keeps env.backend contents may_write s.unit.blocks s.unit.blocks refl

  read_long-Keeps :
      (lba len : ℕ) → Keeps contents false s.unit.blocks (read_long env lba len s).unit.blocks
  unfolding read_long
  read_long-Keeps lba len = ground (arith, unmoved false, read_blocks-Keeps lba len)

  write_long-Keeps :
      (lba len : ℕ) → Keeps contents true s.unit.blocks (write_long env lba len s).unit.blocks
  unfolding write_long
  write_long-Keeps lba len = ground (arith, unmoved true, write_blocks-Keeps lba len)

  pub run-reading :
      IsMedium env.backend contents
      → (op : Opcode) → part_of op ≡ reading
      → Keeps contents false s.unit.blocks (run env op s).unit.blocks
  unfolding run read_6 read_10 read_12 read_16 synchronize_cache_10 synchronize_cache_16 if_admitted
  run-reading law op h = ground (
    arith,
    unmoved false,
    read_blocks-Keeps (lba6 s.cmd.cdb) (len6 s.cmd.cdb),
    read_long-Keeps (lba10 s.cmd.cdb) (len10 s.cmd.cdb),
    read_long-Keeps (lba10 s.cmd.cdb) (len12 s.cmd.cdb),
    read_long-Keeps (lba16 s.cmd.cdb) (len16 s.cmd.cdb),
    flush-Keeps law (lba10 s.cmd.cdb) (len10 s.cmd.cdb),
    flush-Keeps law (lba16 s.cmd.cdb) (len16 s.cmd.cdb),
  )

  pub run-writing :
      (op : Opcode)
      → part_of op ≡ writing
      → Keeps contents true s.unit.blocks (run env op s).unit.blocks
  unfolding run write_6 write_10 write_12 write_16 write_same_10 write_same_16 compare_and_write
      if_admitted after_io
  run-writing op h = ground (
    arith,
    unmoved true,
    write_blocks-Keeps (lba6 s.cmd.cdb) (len6 s.cmd.cdb),
    write_long-Keeps (lba10 s.cmd.cdb) (len10 s.cmd.cdb),
    write_long-Keeps (lba10 s.cmd.cdb) (len12 s.cmd.cdb),
    write_long-Keeps (lba16 s.cmd.cdb) (len16 s.cmd.cdb),
    same_blocks-Keeps (lba10 s.cmd.cdb) (len10 s.cmd.cdb),
    same_blocks-Keeps (lba16 s.cmd.cdb) (len16 s.cmd.cdb),
    lbwrite_ats-Keeps env.backend contents env.transfer s.unit.blocks s.io_conn s.cmd.io
        (lba16 s.cmd.cdb) (s.cmd.cdb 13),
  )
