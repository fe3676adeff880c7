-- ===== src/Disk/Pr/Out.antt =====
-- PERSISTENT RESERVE OUT (src/istgt/istgt_lu_disk.c,
-- istgt_lu_disk_scsi_persistent_reserve_out): the service actions by their codes.
use istgt.Prelude.{ℕ, [], if◌then◌else◌, ◌==◌, true, false}
use istgt.Misc.Bytes.{Buf}
use istgt.Disk.Types.{LuDisk, Conn, LuCmd, Reply, Pthread, check_condition}
use istgt.Disk.Sense.{illegal_request}
use istgt.Disk.Pr.Params.{Params, read_params}
use istgt.Disk.Pr.Reserve.{reserve, release, clear}
use istgt.Disk.Pr.Preempt.{preempt}
use istgt.Disk.Pr.Register.{register, register_ignore}

-- The service actions of Table 34 of SPC-3 that `switch (sa)` tells apart.
pub data Action : Type 0 where
  register_action reserve_action release_action clear_action preempt_action : Action
  preempt_abort_action register_ignore_action register_move_action unsupported_action : Action

unfoldable pub action_of : ℕ → Action
action_of sa =
    if sa == 0x00
    then register_action
    else if sa == 0x01
    then reserve_action
    else if sa == 0x02
    then release_action
    else if sa == 0x03
    then clear_action
    else if sa == 0x04
    then preempt_action
    else if sa == 0x05
    then preempt_abort_action
    else if sa == 0x06
    then register_ignore_action
    else if sa == 0x07
    then register_move_action
    else unsupported_action

unfoldable pub dispatch : Pthread → LuDisk → Conn → LuCmd → Action → Params → Reply
dispatch os spec conn cmd register_action p = register spec conn cmd p
dispatch os spec conn cmd reserve_action p = reserve spec conn cmd p
dispatch os spec conn cmd release_action p = release spec conn cmd p
dispatch os spec conn cmd clear_action p = clear spec conn cmd
dispatch os spec conn cmd preempt_action p = preempt os spec conn cmd p false
dispatch os spec conn cmd preempt_abort_action p = preempt os spec conn cmd p true
dispatch os spec conn cmd register_ignore_action p = register_ignore spec conn cmd p
dispatch os spec conn cmd register_move_action p =
    check_condition illegal_request 0x24 0x00 spec cmd
dispatch os spec conn cmd unsupported_action p = check_condition illegal_request 0x24 0x00 spec cmd

unfoldable pub persistent_reserve_out :
    Pthread → LuDisk → Conn → LuCmd → ℕ → ℕ → ℕ → Buf → ℕ → Reply
unfolding dispatch action_of read_params
persistent_reserve_out os spec conn cmd sa scope rsv_type bytes len =
    dispatch os spec conn (record cmd { sense = [] }) (action_of sa)
      (read_params scope rsv_type bytes len)
