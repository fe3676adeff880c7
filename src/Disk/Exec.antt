-- ===== src/Disk/Exec.antt =====
-- Executing a SCSI command on a unit (src/istgt/istgt_lu_disk.c, istgt_lu_disk_execute): the state
-- that a command reads and changes, and the steps that the cases of its `switch` share.
pub mod Lun
pub mod Blocks
pub mod Info
pub mod Select
pub mod Groups
pub mod Reservation
pub mod Opcode
pub mod Execute
pub mod Guarded
pub mod Medium
pub mod Effects
pub mod Moves
pub mod Sound
pub mod Pending
pub mod Boundary
pub mod Pages
pub mod Units
mod Tests
use istgt.Prelude.{
  ℕ, ◌<◌, List, [], ◌∷◌, Bool, true, false, Option, none, some, if◌then◌else◌, ltb, length,
}
use istgt.Misc.Bytes.{Buf, dmin}
use istgt.Disk.Types.{
  LuDisk, Conn, LuCmd, Reply, Pthread, Rc, ret, fail, fault, status_good, status_check_condition,
  status_reservation_conflict,
}
use istgt.Disk.Sense.{build_sense_data}
use istgt.Disk.Io.{Backend, IoDisk, IoConn, IoCmd, IoReply, Transfer}
use istgt.Disk.Io.Block.{filled}
use istgt.Disk.Pr.Check.{PrAllow, admits}
use istgt.Disk.Pr.Legacy.{Identity}

-- ISTGT_LU_DISK: what the reservations use of it, what block I/O uses of it, and the rest.
-- `unit_sense` is the field `sense`, a pending unit attention, or 0.
pub record DiskUnit {ℓ} (σ : Type ℓ) : Type ℓ where
  pub reservations : LuDisk
  pub blocks : IoDisk σ
  pub unit_sense : ℕ
  pub err_write_cache : Bool
  pub woffset : ℕ
  pub read_cache : Bool
  pub write_cache : Bool

-- ISTGT_LU_MAP: a portal group, and its asymmetric access state.
pub record PortMap : Type 0 where
  pub pg_tag : ℕ
  pub pg_aas : ℕ

-- PORTAL_GROUP
pub record PortalGroup : Type 0 where
  pub tag : ℕ
  pub nportals : ℕ

-- ISTGT_LU_CMD: `io` has the buffers, the length of the data and the sense data.
pub record Cmd : Type 0 where
  pub cdb : Buf
  pub lun : ℕ
  pub r_bit : Bool
  pub w_bit : Bool
  pub transfer_len : ℕ
  pub alloc_len : ℕ
  pub status : ℕ
  pub io : IoCmd

-- Everything that a command on a unit may change. `map` is that of the logical unit. `faulted` is
-- a read through a NULL pointer.
pub record State {ℓ} (σ : Type ℓ) : Type ℓ where
  pub unit : DiskUnit σ
  pub map : List PortMap
  pub io_conn : IoConn
  pub cmd : Cmd
  pub faulted : Bool

-- What a command runs with: the back end, <pthread.h>, what the initiator sends, what fcntl(2)
-- answers to F_GETFL, the portal groups, which logical units there are, and the connection. The responses of INQUIRY and of
-- MODE SENSE are arguments too: none where the function that makes them returns a negative number.
pub record Env {ℓ} (σ : Type ℓ) : Type ℓ where
  pub backend : Backend σ
  pub os : Pthread
  pub transfer : Transfer
  pub fcntl_ok : Bool
  pub portal_groups : List PortalGroup
  pub lun_present : List Bool
  pub ids : Identity
  pub conn : Conn
  pub inquiry : DiskUnit σ → Buf → (alloc_len : ℕ) → Option (List ℕ)
  pub mode_sense6 : DiskUnit σ → Buf → (alloc_len : ℕ) → Option (List ℕ)
  pub mode_sense10 : DiskUnit σ → Buf → (alloc_len : ℕ) → Option (List ℕ)

-- What a reservation command sees of a command.
abbrev pub lu_cmd_of : Cmd → LuCmd
lu_cmd_of cmd = record { status = cmd.status; sense = cmd.io.sense }

module _ {ℓ} {σ : Type ℓ} where
  abbrev pub with_cmd : Cmd → State σ → State σ
  with_cmd cmd s = record s { cmd = cmd }

  -- `lu_cmd->status = status`
  abbrev pub finish_with : ℕ → State σ → State σ
  finish_with status s = record s { cmd = record s.cmd { status = status } }

  abbrev pub rejected : State σ → State σ
  rejected s = finish_with status_check_condition s

  -- BUILD_SENSE and CHECK CONDITION
  abbrev pub rejected_with : (sk asc ascq : ℕ) → State σ → State σ
  rejected_with sk asc ascq s = record s {
    cmd = record s.cmd {
      status = status_check_condition;
      io = record s.cmd.io { sense = build_sense_data sk asc ascq };
    };
  }

  -- `lu_cmd->data_len = n` and GOOD
  abbrev pub accepted : ℕ → State σ → State σ
  accepted n s = record s {
    cmd = record s.cmd { status = status_good; io = record s.cmd.io { data_len = n } };
  }

  -- The test of the reservation in front of a case.
  unfoldable pub if_admitted : Env σ → PrAllow → (State σ → State σ) → State σ → State σ
  if_admitted env allow k s =
      if admits s.unit.reservations env.conn allow
      then k s
      else finish_with status_reservation_conflict s

  -- The response to a command that reads parameters. Of the data, `data_len` bytes are shown: the
  -- length of the response, or what the initiator has room for if that is less.
  unfoldable pub respond : List ℕ → State σ → State σ
  respond bytes s = record s {
    cmd = record s.cmd {
      status = status_good;
      io = record s.cmd.io {
        data_buf = some (filled bytes (λ i. 0));
        data_len = dmin (length bytes) s.cmd.transfer_len;
      };
    };
  }

  -- A response, for which the initiator allows `allocation_len` bytes, after the test of the buffer.
  unfoldable pub respond_within :
      (allocation_len : ℕ) → Option (List ℕ) → (State σ → State σ) → State σ → State σ
  unfolding respond
  respond_within allocation_len response on_error s =
      if ltb s.cmd.alloc_len allocation_len
      then rejected s
      else elim response [ none ↦ on_error s | some bytes ↦ respond bytes s ]

  -- What a block command leaves.
  unfoldable pub after_io : IoReply σ → State σ → State σ
  after_io r s = record s {
    unit = record s.unit { blocks = r.spec };
    io_conn = r.conn;
    cmd = record s.cmd {
      status = elim r.rc [ ret _ ↦ status_good | _ ↦ status_check_condition ];
      io = r.cmd;
    };
  }

  -- What a reservation command leaves, with the status that it set itself.
  unfoldable pub after_reply : Reply → State σ → State σ
  after_reply r s = record s {
    unit = record s.unit { reservations = r.spec };
    cmd = record s.cmd { status = r.cmd.status; io = record s.cmd.io { sense = r.cmd.sense } };
    faulted = elim r.rc [ fault ↦ true | _ ↦ s.faulted ];
  }
