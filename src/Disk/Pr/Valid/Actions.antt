-- ===== src/Disk/Pr/Valid/Actions.antt =====
-- Every service action of PERSISTENT RESERVE OUT keeps the invariant, and reads through no NULL
-- pointer (src/istgt/istgt_lu_disk.c).
use istgt.Prelude.{Bool, Option, none, some, Name, arith}
use istgt.Disk.Types.{LuDisk, Conn, LuCmd, Pthread}
use istgt.Disk.Tasks.Clear.{queue_abort_itl-SameReservation, queue_abort_itl-no_fault}
use istgt.Disk.Pr.Keys.{remove_pr_key, remove_other_pr_key}
use istgt.Disk.Pr.Params.{Params, establish, release_reservation, next_generation}
use istgt.Disk.Pr.Reserve.{
  reserve_held, reserve_free, reserve, release_held, release_found, release, clear,
}
use istgt.Disk.Pr.Preempt.{
  abort_preempted, take_over, preempt_all_registrants, preempt_holder, preempt,
}
use istgt.Disk.Pr.Valid.{
  IsValid, Keeps, remove_pr_key-IsValid, remove_other_pr_key-IsValid, establish-IsValid,
  release_reservation-IsValid, next_generation-IsValid, SameReservation-IsValid,
}

module _ (spec : LuDisk) (conn : Conn) (cmd : LuCmd) (p : Params) where
  pub reserve-Keeps : IsValid spec → Keeps (reserve spec conn cmd p)
  unfolding reserve reserve_held reserve_free
  reserve-Keeps v = ground (arith, establish-IsValid spec conn p)

  pub release-Keeps : IsValid spec → Keeps (release spec conn cmd p)
  unfolding release release_found release_held
  release-Keeps v = ground (arith, release_reservation-IsValid spec)

  pub clear-Keeps : IsValid spec → Keeps (clear spec conn cmd)
  unfolding clear
  clear-Keeps v = ground (arith, release_reservation-IsValid spec)

module _ (os : Pthread) (conn : Conn) (cmd : LuCmd) (p : Params) (task_abort : Bool) where
  abort_preempted-Keeps :
      (spec : LuDisk) (port : Option Name)
      → IsValid spec
      → Keeps (abort_preempted os spec cmd task_abort port)
  unfolding abort_preempted
  abort_preempted-Keeps spec none v = ground arith
  abort_preempted-Keeps spec (some port) v = ground (
    arith,
    SameReservation-IsValid (queue_abort_itl-SameReservation os spec port) v,
    queue_abort_itl-no_fault os spec port,
  )

  take_over-Keeps : (spec : LuDisk) → IsValid spec → Keeps (take_over os spec conn cmd p task_abort)
  unfolding take_over
  take_over-Keeps spec v =
      let s = next_generation (establish (release_reservation spec) conn p) in
      let w : IsValid s =
        next_generation-IsValid _
          (establish-IsValid _ conn p (release_reservation-IsValid spec v)) in
      ground (arith, abort_preempted-Keeps s spec.rsv_port w)

  pub preempt-Keeps : (spec : LuDisk) → IsValid spec → Keeps (preempt os spec conn cmd p task_abort)
  unfolding preempt preempt_all_registrants preempt_holder
  preempt-Keeps spec v =
      let removed = remove_pr_key spec none none p.sarkey in
      let others =
        remove_other_pr_key spec (some conn.initiator_port) (some conn.target_port) p.rkey in
      let w : IsValid removed = remove_pr_key-IsValid spec none none p.sarkey v in
      let u : IsValid others = remove_other_pr_key-IsValid spec _ _ p.rkey v in
      ground (
        arith,
        w,
        u,
        next_generation-IsValid removed w,
        take_over-Keeps removed w,
        take_over-Keeps others u,
      )
