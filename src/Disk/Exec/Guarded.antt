-- ===== src/Disk/Exec/Guarded.antt =====
-- The commands that a reservation guards (src/istgt/istgt_lu_disk.c, istgt_lu_disk_execute).
use istgt.Prelude.{false, ◌≡◌, arith, Option, none, some}
use istgt.Disk.Types.{status_reservation_conflict}
use istgt.Disk.Pr.Check.{PrAllow, allow_read, allow_write, admits}
use istgt.Disk.Exec.{State, Env, if_admitted, finish_with}
use istgt.Disk.Exec.Blocks.{
  read_6, read_10, read_12, read_16, write_6, write_10, write_12, write_16, verify, write_same_10,
  write_same_16, compare_and_write, synchronize_cache_10, synchronize_cache_16,
}
use istgt.Disk.Exec.Info.{mode_sense_6, mode_sense_10}
use istgt.Disk.Exec.Select.{mode_select_6, mode_select_10}
use istgt.Disk.Exec.Opcode.{
  opcode_of, Opcode, mode_select_6_op, mode_select_10_op, mode_sense_6_op, mode_sense_10_op,
  read_6_op, read_10_op, read_12_op, read_16_op, write_6_op, write_10_op, write_12_op, write_16_op,
  verify_op, write_same_10_op, write_same_16_op, compare_and_write_op, synchronize_10_op,
  synchronize_16_op,
}
use istgt.Disk.Exec.Execute.{run, execute_unit}

-- What a nexus must be allowed, for the commands that move, verify or flush blocks, and for the
-- mode pages.
abbrev pub wants : Opcode → Option PrAllow
wants read_6_op = some allow_read
wants read_10_op = some allow_read
wants read_12_op = some allow_read
wants read_16_op = some allow_read
wants verify_op = some allow_read
wants write_6_op = some allow_write
wants write_10_op = some allow_write
wants write_12_op = some allow_write
wants write_16_op = some allow_write
wants write_same_10_op = some allow_write
wants write_same_16_op = some allow_write
wants compare_and_write_op = some allow_write
wants synchronize_10_op = some allow_write
wants synchronize_16_op = some allow_write
wants mode_select_6_op = some allow_write
wants mode_select_10_op = some allow_write
wants mode_sense_6_op = some allow_write
wants mode_sense_10_op = some allow_write
wants _ = none

module _ {σ : Type 0} (env : Env σ) (s : State σ) where
  refused :
      (allow : PrAllow) (k : State σ → State σ)
      → admits s.unit.reservations env.conn allow ≡ false
      → if_admitted env allow k s ≡ finish_with status_reservation_conflict s
  unfolding if_admitted
  refused allow k h = rw h

  run-conflict :
      (op : Opcode) (allow : PrAllow)
      → wants op ≡ some allow
      → admits s.unit.reservations env.conn allow ≡ false
      → run env op s ≡ finish_with status_reservation_conflict s
  unfolding run read_6 read_10 read_12 read_16 write_6 write_10 write_12 write_16 verify
      write_same_10 write_same_16 compare_and_write synchronize_cache_10 synchronize_cache_16
      mode_sense_6 mode_sense_10 mode_select_6 mode_select_10
  run-conflict op allow w h = ground arith

  -- Where the reservation of a unit does not allow a nexus what a command needs, the command ends
  -- with RESERVATION CONFLICT and nothing else of the state changes: this for READ, WRITE, WRITE
  -- SAME, COMPARE AND WRITE, VERIFY, SYNCHRONIZE CACHE, MODE SENSE and MODE SELECT, in all their
  -- forms, on a unit with no pending sense data and no deferred error.
  pub execute_unit-conflict :
      (allow : PrAllow)
      → wants (opcode_of (s.cmd.cdb 0)) ≡ some allow
      → admits s.unit.reservations env.conn allow ≡ false
      → s.unit.unit_sense ≡ 0
      → s.unit.err_write_cache ≡ false
      → execute_unit env s ≡ finish_with status_reservation_conflict s
  unfolding execute_unit
  execute_unit-conflict allow w h sense deferred =
      ground (arith, run-conflict (opcode_of (s.cmd.cdb 0)) allow w h)
