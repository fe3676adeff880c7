-- ===== src/Disk/Exec/Reservation.antt =====
-- The cases of istgt_lu_disk_execute (src/istgt/istgt_lu_disk.c) for PERSISTENT RESERVE IN and OUT,
-- RESERVE and RELEASE.
use istgt.Prelude.{ℕ, ◌^◌, not, none, some, if◌then◌else◌, ltb, leb}
use istgt.Misc.Bytes.{at_offset, dget16, dget32, bget8w}
use istgt.Disk.Types.{ret}
use istgt.Disk.Sense.{illegal_request}
use istgt.Disk.Io.Block.{transfer_data}
use istgt.Disk.Pr.In.{persistent_reserve_in}
use istgt.Disk.Pr.Out.{persistent_reserve_out}
use istgt.Disk.Pr.Legacy.{scsi_reserve, scsi_release}
use istgt.Disk.Exec.{State, Env, lu_cmd_of, rejected, rejected_with, accepted, respond, after_reply}

-- A parameter list length as an `int`. From 2 ^ 31 on it is negative; the only test of it is
-- whether it is below 28, and 0 is too.
unfoldable pub int_length : ℕ → ℕ
int_length parameter_len = if leb (2 ^ 31) parameter_len then 0 else parameter_len

module _ {ℓ} {σ : Type ℓ} (env : Env σ) where
  unfoldable pub reserve_in_case : State σ → State σ
  unfolding respond
  reserve_in_case s =
      let r =
        persistent_reserve_in s.unit.reservations (lu_cmd_of s.cmd) (bget8w (s.cmd.cdb 1) 4 5) in
      let s1 = record s {
        cmd = record s.cmd { status = r.1.status; io = record s.cmd.io { sense = r.1.sense } };
      } in
      if not s.cmd.r_bit
      then rejected s
      else if ltb s.cmd.alloc_len (dget16 (at_offset s.cmd.cdb 7))
      then rejected s
      else elim r.0 [ none ↦ s1 | some bytes ↦ respond bytes s1 ]

  -- The parameter list of PERSISTENT RESERVE OUT, once it has arrived.
  unfoldable pub reserve_out_from : (parameter_len : ℕ) → State σ → State σ
  unfolding after_reply
  reserve_out_from parameter_len s =
      let r =
        persistent_reserve_out env.os s.unit.reservations env.conn (lu_cmd_of s.cmd)
          (bget8w (s.cmd.cdb 1) 4 5) (bget8w (s.cmd.cdb 2) 7 4) (bget8w (s.cmd.cdb 2) 3 4)
          s.cmd.io.iobuf (int_length parameter_len) in
      if ltb parameter_len 24
      then rejected_with illegal_request 0x24 0x00 s
      else elim r.rc [ ret _ ↦ accepted parameter_len (after_reply r s) | _ ↦ after_reply r s ]

  unfoldable pub reserve_out_case : State σ → State σ
  unfolding reserve_out_from
  reserve_out_case s =
      let parameter_len = dget32 (at_offset s.cmd.cdb 5) in
      if not s.cmd.w_bit
      then rejected s
      else elim (transfer_data env.transfer s.unit.blocks s.cmd.io parameter_len) [
        | none ↦ rejected s
        | some io ↦ reserve_out_from parameter_len (record s { cmd = record s.cmd { io = io } })
      ]

  -- RELEASE (6) and (10); a success is GOOD already.
  unfoldable pub release_case : State σ → State σ
  unfolding after_reply
  release_case s =
      after_reply (scsi_release env.os env.ids s.unit.reservations env.conn (lu_cmd_of s.cmd)) s

  -- RESERVE (6) and (10)
  unfoldable pub reserve_case : State σ → State σ
  unfolding after_reply
  reserve_case s =
      after_reply (scsi_reserve env.os env.ids s.unit.reservations env.conn (lu_cmd_of s.cmd)) s
