-- ===== src/Disk/Exec/Execute.antt =====
-- istgt_lu_disk_execute (src/istgt/istgt_lu_disk.c): pending sense data, the deferred error of the
-- write cache, and the `switch` on the operation code; and the unit that a command goes to.
use istgt.Prelude.{
  ℕ, zero, suc, ◌+◌, ◌-◌, ◌/◌, ◌%◌, ◌^◌, List, [], ◌∷◌, ◌++◌, Bool, false, ◌&&◌, Option, none, some,
  if◌then◌else◌, ◌!=◌, ltb, get_elem?, take, drop, replicate,
}
use istgt.Misc.Bytes.{at_offset, dget16, dset32, bfield, dmin}
use istgt.Disk.Types.{status_good, status_check_condition}
use istgt.Disk.Sense.{illegal_request, medium_error, build_sense_data, build_sense_data2}
use istgt.Disk.Io.{IoConn}
use istgt.Disk.Io.Block.{filled}
use istgt.Disk.Exec.{DiskUnit, PortMap, Cmd, State, Env}
use istgt.Disk.Exec.Lun.{islun2lun}
use istgt.Disk.Exec.Blocks.{
  read_6, read_10, read_12, read_16, write_6, write_10, write_12, write_16, verify, write_same_10,
  write_same_16, compare_and_write, synchronize_cache_10, synchronize_cache_16,
}
use istgt.Disk.Exec.Info.{
  inquiry_case, report_luns_case, test_unit_ready, start_stop_unit, read_capacity_10,
  service_action_in, mode_sense_6, mode_sense_10, unsupported, request_sense, read_defect_data_10,
  read_defect_data_12,
}
use istgt.Disk.Exec.Select.{mode_select_6, mode_select_10}
use istgt.Disk.Exec.Groups.{maintenance_in, maintenance_out}
use istgt.Disk.Exec.Reservation.{reserve_in_case, reserve_out_case, release_case, reserve_case}
use istgt.Disk.Exec.Opcode.{
  Opcode, inquiry_op, report_luns_op, test_unit_ready_op, start_stop_op, read_capacity_op,
  service_action_in_op, mode_select_6_op, mode_select_10_op, mode_sense_6_op, mode_sense_10_op,
  request_sense_op, read_6_op, read_10_op, read_12_op, read_16_op, write_6_op, write_10_op,
  write_12_op, write_16_op, verify_op, write_same_10_op, write_same_16_op, compare_and_write_op,
  synchronize_10_op, synchronize_16_op, read_defect_10_op, read_defect_12_op, maintenance_in_op,
  maintenance_out_op, reserve_in_op, reserve_out_op, release_op, reserve_op, unsupported_op,
  opcode_of,
}

module _ {ℓ} {σ : Type ℓ} (env : Env σ) where
  -- The `switch`.
  unfoldable pub run : Opcode → State σ → State σ
  run inquiry_op s = inquiry_case env s
  run report_luns_op s = report_luns_case env s
  run test_unit_ready_op s = test_unit_ready env s
  run start_stop_op s = start_stop_unit env s
  run read_capacity_op s = read_capacity_10 env s
  run service_action_in_op s = service_action_in env s
  run mode_select_6_op s = mode_select_6 env s
  run mode_select_10_op s = mode_select_10 env s
  run mode_sense_6_op s = mode_sense_6 env s
  run mode_sense_10_op s = mode_sense_10 env s
  run request_sense_op s = request_sense env s
  run read_6_op s = read_6 env s
  run read_10_op s = read_10 env s
  run read_12_op s = read_12 env s
  run read_16_op s = read_16 env s
  run write_6_op s = write_6 env s
  run write_10_op s = write_10 env s
  run write_12_op s = write_12 env s
  run write_16_op s = write_16 env s
  run verify_op s = verify env s
  run write_same_10_op s = write_same_10 env s
  run write_same_16_op s = write_same_16 env s
  run compare_and_write_op s = compare_and_write env s
  run synchronize_10_op s = synchronize_cache_10 env s
  run synchronize_16_op s = synchronize_cache_16 env s
  run read_defect_10_op s = read_defect_data_10 env s
  run read_defect_12_op s = read_defect_data_12 env s
  run maintenance_in_op s = maintenance_in env s
  run maintenance_out_op s = maintenance_out env s
  run reserve_in_op s = reserve_in_case env s
  run reserve_out_op s = reserve_out_case env s
  run release_op s = release_case env s
  run reserve_op s = reserve_case env s
  run unsupported_op s = unsupported env s

  -- Pending sense data is reported once, by a command other than INQUIRY and REPORT LUNS.
  unfoldable pub report_attention : State σ → State σ
  report_attention s =
      let sense = s.unit.unit_sense in
      record s {
        unit = record s.unit { unit_sense = 0 };
        cmd = record s.cmd {
          status = status_check_condition;
          io = record s.cmd.io {
            sense =
                build_sense_data (sense / 2 ^ 16 % 2 ^ 8) (sense / 2 ^ 8 % 2 ^ 8) (sense % 2 ^ 8);
            data_len = 0;
          };
        };
      }

  -- COMMAND-SPECIFIC INFORMATION at byte 8 is the block of the write that failed.
  unfoldable pub deferred_sense : (lba : ℕ) → List ℕ
  unfolding dset32
  deferred_sense lba =
      let bytes = build_sense_data2 medium_error 0x0c 0x02 in
      take 8 bytes ++ (dset32 lba ++ drop 12 bytes)

  unfoldable pub report_deferred : State σ → State σ
  report_deferred s = record s {
    unit = record s.unit { err_write_cache = false };
    cmd = record s.cmd {
      status = status_check_condition;
      io = record s.cmd.io {
        sense = deferred_sense (s.unit.woffset / s.unit.blocks.blocklen);
        data_len = 0;
      };
    };
  }

  -- A command on a unit that there is, from the test of `spec->sense` on.
  unfoldable pub execute_unit : State σ → State σ
  unfolding report_attention report_deferred
  execute_unit s =
      if s.unit.unit_sense != 0 && (s.cmd.cdb 0 != 0x12 && s.cmd.cdb 0 != 0xa0)
      then report_attention s
      else if s.unit.err_write_cache
      then report_deferred s
      else run (opcode_of (s.cmd.cdb 0)) s

-- A logical unit, ISTGT_LU, and a command on it: a slot for each number below `maxlun`, empty
-- where the unit was not set up.
pub record LuState {ℓ} (σ : Type ℓ) : Type ℓ where
  pub slots : List (Option (DiskUnit σ))
  pub map : List PortMap
  pub io_conn : IoConn
  pub cmd : Cmd
  pub faulted : Bool

module _ {ℓ} {A : Type ℓ} where
  -- A write out of bounds changes nothing.
  abbrev pub set : List A → ℕ → A → List A
  set [] i v = []
  set (x ∷ xs) zero v = v ∷ xs
  set (x ∷ xs) (suc i) v = x ∷ set xs i v

-- PERIPHERAL QUALIFIER 3 and DEVICE TYPE 0x1f, and zeros: no unit can be there.
unfoldable pub no_unit_data : List ℕ
unfolding bfield
no_unit_data = (bfield 0x03 7 3 + bfield 0x1f 4 5) ∷ 0 ∷ 0 ∷ 0 ∷ (96 - 5) ∷ replicate 91 0

-- LOGICAL UNIT NOT SUPPORTED
unfoldable pub not_supported : Cmd → Cmd
not_supported cmd = record cmd {
  status = status_check_condition;
  io = record cmd.io { sense = build_sense_data illegal_request 0x25 0x00; data_len = 0 };
}

-- A command for a number that is too large.
unfoldable pub without_unit : Cmd → Cmd
unfolding no_unit_data not_supported filled dget16 dmin
without_unit cmd =
    if cmd.cdb 0 != 0x12
    then not_supported cmd
    else if ltb cmd.alloc_len (dget16 (at_offset cmd.cdb 3))
    then record cmd { status = status_check_condition }
    else record cmd {
      status = status_good;
      io = record cmd.io {
        data_buf = some (filled no_unit_data (λ i. 0));
        data_len = dmin 96 cmd.transfer_len;
      };
    }

module _ {ℓ} {σ : Type ℓ} (env : Env σ) where
  unfoldable pub execute : LuState σ → LuState σ
  unfolding without_unit not_supported
  execute t =
      let i = islun2lun t.cmd.lun in
      let cmd = record t.cmd { io = record t.cmd.io { sense = [] } } in
      elim (get_elem? t.slots i) [
        | none ↦ record t { cmd = without_unit cmd }
        | some slot ↦ elim slot [
          | none ↦ record t { cmd = not_supported cmd }
          | some unit ↦
              let s = execute_unit env (record {
                unit = unit;
                map = t.map;
                io_conn = t.io_conn;
                cmd = cmd;
                faulted = t.faulted;
              }) in
              record {
                slots = set t.slots i (some s.unit);
                map = s.map;
                io_conn = s.io_conn;
                cmd = s.cmd;
                faulted = s.faulted;
              }
        ]
      ]
