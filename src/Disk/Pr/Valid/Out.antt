-- ===== src/Disk/Pr/Valid/Out.antt =====
-- PERSISTENT RESERVE OUT and the commands made of it keep the invariant, from every connection and
-- over every history of commands (src/istgt/istgt_lu_disk.c).
use istgt.Prelude.{ℕ, [], false, none, Name, true, arith, Bool}
use istgt.Misc.Bytes.{Buf}
use istgt.Disk.Types.{LuDisk, Conn, LuCmd, Reply, Pthread}
use istgt.Disk.Tasks.{queue_clear_internal}
use istgt.Disk.Tasks.Clear.{queue_clear_internal-SameReservation}
use istgt.Disk.Pr.Params.{Params, read_params}
use istgt.Disk.Pr.Out.{
  Action, register_action, reserve_action, release_action, clear_action, preempt_action,
  preempt_abort_action, register_ignore_action, register_move_action, unsupported_action, action_of,
  dispatch, persistent_reserve_out,
}
use istgt.Disk.Pr.Legacy.{
  Identity, get_rkey, nested, nested_failed, finish, scsi_release, scsi_reserve,
}
use istgt.Disk.Pr.Valid.{IsValid, Keeps, SameReservation-IsValid}
use istgt.Disk.Pr.Valid.Actions.{reserve-Keeps, release-Keeps, clear-Keeps, preempt-Keeps}
use istgt.Disk.Pr.Valid.Register.{register-Keeps, register_ignore-Keeps}

dispatch-Keeps :
    (os : Pthread) (spec : LuDisk) (conn : Conn) (cmd : LuCmd) (a : Action) (p : Params)
    → IsValid spec
    → Keeps (dispatch os spec conn cmd a p)
unfolding dispatch
dispatch-Keeps os spec conn cmd register_action p v = register-Keeps conn cmd p spec v
dispatch-Keeps os spec conn cmd reserve_action p v = reserve-Keeps spec conn cmd p v
dispatch-Keeps os spec conn cmd release_action p v = release-Keeps spec conn cmd p v
dispatch-Keeps os spec conn cmd clear_action p v = clear-Keeps spec conn cmd p v
dispatch-Keeps os spec conn cmd preempt_action p v = preempt-Keeps os conn cmd p false spec v
dispatch-Keeps os spec conn cmd preempt_abort_action p v = preempt-Keeps os conn cmd p true spec v
dispatch-Keeps os spec conn cmd register_ignore_action p v = register_ignore-Keeps conn cmd p spec v
dispatch-Keeps os spec conn cmd register_move_action p v = ground arith
dispatch-Keeps os spec conn cmd unsupported_action p v = ground arith

-- From a valid unit, every PERSISTENT RESERVE OUT, with any service action, scope, type and
-- parameter list, from any connection, leaves a valid unit (at most 256 registrations, each with
-- a key other than 0 and with port names in lower case, a generation below 2 ^ 32, and a port for
-- the reservation if there is one), and reads through no NULL pointer.
pub persistent_reserve_out-Keeps :
    (os : Pthread) (spec : LuDisk) (conn : Conn) (cmd : LuCmd) (sa scope rsv_type : ℕ) (bytes : Buf)
    (len : ℕ)
    → IsValid spec
    → Keeps (persistent_reserve_out os spec conn cmd sa scope rsv_type bytes len)
unfolding persistent_reserve_out
persistent_reserve_out-Keeps os spec conn cmd sa scope rsv_type bytes len v =
    dispatch-Keeps os spec conn _ (action_of sa) (read_params scope rsv_type bytes len) v

nested-Keeps :
    (os : Pthread) (spec : LuDisk) (conn : Conn) (sa rsv_type rkey sarkey : ℕ)
    → IsValid spec
    → Keeps (nested os spec conn sa rsv_type rkey sarkey)
unfolding nested
nested-Keeps os spec conn sa rsv_type rkey sarkey v =
    persistent_reserve_out-Keeps os spec conn _ sa 0 rsv_type _ 24 v

nested_failed-Keeps : (cmd : LuCmd) (r : Reply) → Keeps r → Keeps (nested_failed cmd r)
unfolding nested_failed
nested_failed-Keeps cmd r k = ground (arith, k.valid)

finish-Keeps : (cmd : LuCmd) (r : Reply) → Keeps r → Keeps (finish cmd r)
unfolding finish
finish-Keeps cmd r k = ground (arith, k.valid, nested_failed-Keeps cmd r k)

module _ (os : Pthread) (ids : Identity) (conn : Conn) (cmd : LuCmd) where
  pub scsi_release-Keeps :
      (spec : LuDisk) → IsValid spec → Keeps (scsi_release os ids spec conn cmd)
  unfolding scsi_release
  scsi_release-Keeps spec v =
      let rkey = get_rkey ids conn.initiator_name in
      let r = nested os spec conn 0x02 0x03 rkey 0 in
      let k : Keeps r = nested-Keeps os spec conn 0x02 0x03 rkey 0 v in
      ground (
        arith,
        k,
        nested_failed-Keeps (record cmd { sense = [] }) r k,
        finish-Keeps (record cmd { sense = [] }) _
            (nested-Keeps os r.spec conn 0x06 0 rkey 0 k.valid),
      )

  pub scsi_reserve-Keeps :
      (spec : LuDisk) → IsValid spec → Keeps (scsi_reserve os ids spec conn cmd)
  unfolding scsi_reserve
  scsi_reserve-Keeps spec v =
      let rkey = get_rkey ids conn.initiator_name in
      let r = nested os spec conn 0x06 0 0 rkey in
      let k : Keeps r = nested-Keeps os spec conn 0x06 0 0 rkey v in
      ground (
        arith,
        k,
        nested_failed-Keeps (record cmd { sense = [] }) r k,
        finish-Keeps (record cmd { sense = [] }) _
            (nested-Keeps os r.spec conn 0x01 0x03 rkey 0 k.valid),
      )

-- A unit as `istgt_lu_disk_init` makes it: its memory is cleared.
abbrev pub fresh : LuDisk
fresh = record {
  cmd_queue = [];
  wait_lu_task = none;
  pr_keys = [];
  pr_generation = 0;
  rsv_port = none;
  rsv_key = 0;
  rsv_scope = 0;
  rsv_type = 0;
}

-- What the connections of a unit may do to it, in any order.
pub data Step (os : Pthread) (ids : Identity) : LuDisk → LuDisk → Type 0 where
  reserve_out :
      (s : LuDisk) (conn : Conn) (cmd : LuCmd) (sa scope rsv_type : ℕ) (bytes : Buf) (len : ℕ)
      → Step os ids s (persistent_reserve_out os s conn cmd sa scope rsv_type bytes len).spec
  legacy_reserve :
      (s : LuDisk) (conn : Conn) (cmd : LuCmd) → Step os ids s (scsi_reserve os ids s conn cmd).spec
  legacy_release :
      (s : LuDisk) (conn : Conn) (cmd : LuCmd) → Step os ids s (scsi_release os ids s conn cmd).spec
  queue_clear :
      (s : LuDisk) (port : Name) (all_cmds : Bool) (cmd_sn : ℕ)
      → Step os ids s (queue_clear_internal os s port all_cmds cmd_sn).0

pub data Reach (os : Pthread) (ids : Identity) : LuDisk → Type 0 where
  start : Reach os ids fresh
  next : {s t : LuDisk} → Reach os ids s → Step os ids s t → Reach os ids t

Step-IsValid :
    {os : Pthread} {ids : Identity} {s t : LuDisk} → Step os ids s t → IsValid s → IsValid t
Step-IsValid {os} {ids} (reserve_out s conn cmd sa scope rsv_type bytes len) v =
    (persistent_reserve_out-Keeps os s conn cmd sa scope rsv_type bytes len v).valid
Step-IsValid {os} {ids} (legacy_reserve s conn cmd) v =
    (scsi_reserve-Keeps os ids conn cmd s v).valid
Step-IsValid {os} {ids} (legacy_release s conn cmd) v =
    (scsi_release-Keeps os ids conn cmd s v).valid
Step-IsValid {os} {ids} (queue_clear s port all_cmds cmd_sn) v =
    SameReservation-IsValid (queue_clear_internal-SameReservation os s port all_cmds cmd_sn) v

-- Whatever the connections of a unit send, in whatever order (PERSISTENT RESERVE OUT, RESERVE,
-- RELEASE, and the clearing of queued commands), the unit stays valid from its start on.
pub Reach-IsValid : {os : Pthread} {ids : Identity} {s : LuDisk} → Reach os ids s → IsValid s
Reach-IsValid start = ground arith
Reach-IsValid (next r st) = Step-IsValid st (Reach-IsValid r)
