-- ===== src/Disk/Pr/Preempt.antt =====
-- The service actions PREEMPT and PREEMPT AND ABORT of PERSISTENT RESERVE OUT
-- (src/istgt/istgt_lu_disk.c). The removals always return 0, so their error paths are not taken.
pub mod Takeover
use istgt.Prelude.{
  ℕ, Bool, true, false, ◌||◌, not, Option, none, some, if◌then◌else◌, Name, ◌==◌, ◌!=◌,
}
use istgt.Disk.Types.{
  LuDisk, Conn, LuCmd, Reply, Pthread, Rc, ret, fail, fault, check_condition, reservation_conflict,
  good, null_fault,
}
use istgt.Disk.Sense.{illegal_request, hardware_error}
use istgt.Disk.Tasks.{queue_abort_itl}
use istgt.Disk.Pr.Keys.{find_pr_key, remove_pr_key, remove_other_pr_key}
use istgt.Disk.Pr.Params.{
  Params, write_exclusive_all_registrants, exclusive_access_all_registrants, is_supported_type,
  establish, release_reservation, next_generation,
}

-- The tasks of the port that held the reservation are aborted, if that is asked for.
unfoldable pub abort_preempted : Pthread → LuDisk → LuCmd → Bool → Option Name → Reply
abort_preempted os spec cmd false old_rsv_port = good spec cmd
abort_preempted os spec cmd true none = good spec cmd
abort_preempted os spec cmd true (some port) = elim (queue_abort_itl os spec port).1 [
  | ret _ ↦ good (queue_abort_itl os spec port).0 cmd
  | fail ↦ check_condition hardware_error 0x44 0x00 (queue_abort_itl os spec port).0 cmd
  | fault ↦ null_fault (queue_abort_itl os spec port).0 cmd
]

-- The reservation passes to the connection, after registrations were removed.
unfoldable pub take_over : Pthread → LuDisk → Conn → LuCmd → Params → Bool → Reply
unfolding abort_preempted is_supported_type establish release_reservation next_generation
take_over os spec conn cmd p task_abort =
    if p.scope != 0
    then check_condition illegal_request 0x24 0x00 spec cmd
    else if not (is_supported_type p.rsv_type)
    then check_condition illegal_request 0x24 0x00 spec cmd
    else abort_preempted os (next_generation (establish (release_reservation spec) conn p)) cmd
        task_abort spec.rsv_port

-- PREEMPT of a reservation for all registrants.
unfoldable pub preempt_all_registrants : Pthread → LuDisk → Conn → LuCmd → Params → Bool → Reply
unfolding take_over next_generation
preempt_all_registrants os spec conn cmd p task_abort =
    if p.sarkey != 0
    then good (next_generation (remove_pr_key spec none none p.sarkey)) cmd
    else take_over os
        (remove_other_pr_key spec (some conn.initiator_port) (some conn.target_port) p.rkey) conn
        cmd p task_abort

-- PREEMPT of a reservation of another type.
unfoldable pub preempt_holder : Pthread → LuDisk → Conn → LuCmd → Params → Bool → Reply
unfolding take_over
preempt_holder os spec conn cmd p task_abort =
    if elim (find_pr_key spec (some conn.initiator_port) (some conn.target_port) p.rkey) [
      | none ↦ true
      | some _ ↦ p.sarkey != spec.rsv_key
    ]
    then if p.sarkey != 0
      then good (remove_pr_key spec none none p.sarkey) cmd
      else check_condition illegal_request 0x26 0x00 spec cmd
    else take_over os (remove_pr_key spec none none p.sarkey) conn cmd p task_abort

unfoldable pub preempt : Pthread → LuDisk → Conn → LuCmd → Params → Bool → Reply
unfolding preempt_all_registrants preempt_holder next_generation
preempt os spec conn cmd p task_abort =
    elim (find_pr_key spec (some conn.initiator_port) (some conn.target_port) 0) [
      | none ↦ reservation_conflict spec cmd
      | some _ ↦
          if spec.rsv_key == 0
          then good (next_generation (remove_pr_key spec none none p.sarkey)) cmd
          else if spec.rsv_type == write_exclusive_all_registrants
              || spec.rsv_type == exclusive_access_all_registrants
          then preempt_all_registrants os spec conn cmd p task_abort
          else preempt_holder os spec conn cmd p task_abort
    ]
