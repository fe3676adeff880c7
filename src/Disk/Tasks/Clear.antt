-- ===== src/Disk/Tasks/Clear.antt =====
-- What clearing the queue leaves.
use istgt.Prelude.{
  ℕ, List, [], ◌∷◌, ◌++◌, Bool, true, false, ◌&&◌, ◌||◌, Option, none, some, Name, str_case_eq,
  ◌==◌, ◌≡◌, ◌≢◌, refl, ◌∙◌, arith, remove_if, sym, inl, inr, Bool-cases,
}
use mathlib.Core.Option
use mathlib.Core.List.{append_assoc, append-nil}
use istgt.Disk.Types.{Task, LuDisk, Pthread, ret, fault}
use istgt.Disk.Tasks.{
  is_cleared, scanned, scan, restore, abort_wait, queue_clear_internal, queue_abort_itl,
}

-- The system can destroy every task.
abbrev pub CanDestroy : Pthread → Type 0
CanDestroy os = (t : Task) → os.destroy_ok t ≡ true

scan-remove_if :
    (os : Pthread) (p : Task → Bool) (queue saved : List Task)
    → CanDestroy os
    → scan os p queue saved ≡ scanned (saved ++ remove_if p queue)
unfolding scan
scan-remove_if os p [] saved h = rw (append-nil)
scan-remove_if os p (t ∷ queue) saved h = ground (
  arith,
  h t,
  scan-remove_if os p queue saved h,
  scan-remove_if os p queue (saved ++ t ∷ []) h,
  append_assoc saved (t ∷ []) (remove_if p queue),
)

restore-append : (saved queue : List Task) → restore saved queue ≡ queue ++ saved
unfolding restore
restore-append [] queue = sym (append-nil queue)
restore-append (t ∷ saved) queue =
    restore-append saved (queue ++ t ∷ []) ∙ append_assoc queue (t ∷ []) saved

-- The two loops and the waiting task.
queue_clear_internal-remove_if :
    (os : Pthread) (spec : LuDisk) (port : Name) (all_cmds : Bool) (cmd_sn : ℕ)
    → CanDestroy os
    → queue_clear_internal os spec port all_cmds cmd_sn ≡ (
      record spec {
        cmd_queue = remove_if (is_cleared port all_cmds cmd_sn) spec.cmd_queue;
        wait_lu_task = abort_wait os (is_cleared port all_cmds cmd_sn) spec.wait_lu_task;
      },
      ret 0,
    )
unfolding queue_clear_internal
queue_clear_internal-remove_if os spec port all_cmds cmd_sn h =
    rw
      (
        scan-remove_if os (is_cleared port all_cmds cmd_sn) spec.cmd_queue [] h,
        queue_clear_internal,
      )
      (rw (restore-append (remove_if (is_cleared port all_cmds cmd_sn) spec.cmd_queue) []))

-- The commands of a port: all of them, or those with one CmdSN.
unfoldable pub belongs : (port : Name) (all_cmds : Bool) (cmd_sn : ℕ) → Task → Bool
belongs port true cmd_sn t = str_case_eq t.initiator_port port
belongs port false cmd_sn t = str_case_eq t.initiator_port port && t.cmd_sn == cmd_sn

is_cleared-belongs :
    (port : Name) (all_cmds : Bool) (cmd_sn : ℕ) (t : Task)
    → is_cleared port all_cmds cmd_sn t ≡ belongs port all_cmds cmd_sn t
unfolding is_cleared belongs
is_cleared-belongs port true cmd_sn t = refl
is_cleared-belongs port false cmd_sn t = ground arith

-- The flags that a waiting task has afterwards.
unfoldable pub marked_if : Bool → Task → Task
marked_if b t = record t { error = t.error || b; abort = t.abort || b }

abort_wait-marked_if :
    (os : Pthread) (p q : Task → Bool) (wait : Option Task)
    → ((t : Task) → p t ≡ q t)
    → abort_wait os p wait ≡ Option.map (λ t. marked_if (q t && os.trylock_ok t) t) wait
unfolding abort_wait marked_if
abort_wait-marked_if os p q none e = refl
abort_wait-marked_if os p q (some t) e = rw (e t) (elim (Bool-cases (q t && os.trylock_ok t)) [
  | inl h ↦ rw h (ground arith)
  | inr h ↦ rw h (ground arith)
])

-- Where every task can be destroyed, clearing succeeds: the queue keeps, in their order, exactly the
-- tasks that are not of the port, or have another CmdSN where not all are cleared; the waiting
-- task is marked with an error and as aborted if it is of the port, has that CmdSN or all are
-- cleared, and its mutex is free, and else keeps its marks; and nothing else of the unit changes.
pub queue_clear_internal_lem :
    (os : Pthread) (spec : LuDisk) (port : Name) (all_cmds : Bool) (cmd_sn : ℕ)
    → CanDestroy os
    → queue_clear_internal os spec port all_cmds cmd_sn ≡ (
      record spec {
        cmd_queue = remove_if (belongs port all_cmds cmd_sn) spec.cmd_queue;
        wait_lu_task =
            Option.map
              (λ t. marked_if (belongs port all_cmds cmd_sn t && os.trylock_ok t) t)
              spec.wait_lu_task;
      },
      ret 0,
    )
queue_clear_internal_lem os spec port all_cmds cmd_sn h =
    let same = is_cleared-belongs port all_cmds cmd_sn in
    let queue : remove_if (is_cleared port all_cmds cmd_sn) spec.cmd_queue
        ≡ remove_if (belongs port all_cmds cmd_sn) spec.cmd_queue =
      λ i. remove_if (λ t. same t i) spec.cmd_queue in
    queue_clear_internal-remove_if os spec port all_cmds cmd_sn h
    ∙ rw
        (
          queue,
          abort_wait-marked_if os (is_cleared port all_cmds cmd_sn) (belongs port all_cmds cmd_sn)
              spec.wait_lu_task same,
        )
        refl

-- Two units that differ in their tasks only.
pub record SameReservation (s t : LuDisk) : Type 0 where
  pub pr_keys : s.pr_keys ≡ t.pr_keys
  pub pr_generation : s.pr_generation ≡ t.pr_generation
  pub rsv_port : s.rsv_port ≡ t.rsv_port
  pub rsv_key : s.rsv_key ≡ t.rsv_key
  pub rsv_scope : s.rsv_scope ≡ t.rsv_scope
  pub rsv_type : s.rsv_type ≡ t.rsv_type

-- Clearing tasks leaves the reservation state alone, also where it fails.
pub queue_clear_internal-SameReservation :
    (os : Pthread) (spec : LuDisk) (port : Name) (all_cmds : Bool) (cmd_sn : ℕ)
    → SameReservation (queue_clear_internal os spec port all_cmds cmd_sn).0 spec
unfolding queue_clear_internal
queue_clear_internal-SameReservation os spec port all_cmds cmd_sn = ground arith

pub queue_abort_itl-SameReservation :
    (os : Pthread) (spec : LuDisk) (port : Name)
    → SameReservation (queue_abort_itl os spec port).0 spec
unfolding queue_abort_itl
queue_abort_itl-SameReservation os spec port = ground arith

-- Clearing tasks reads through no NULL pointer.
pub queue_abort_itl-no_fault :
    (os : Pthread) (spec : LuDisk) (port : Name) → (queue_abort_itl os spec port).1 ≢ fault
unfolding queue_abort_itl
queue_abort_itl-no_fault os spec port = ground arith

-- The commands of a port that are aborted.
pub queue_abort_itl_lem :
    (os : Pthread) (spec : LuDisk) (port : Name)
    → CanDestroy os
    → queue_abort_itl os spec port ≡ (
      record spec {
        cmd_queue = remove_if (is_cleared port true 0) spec.cmd_queue;
        wait_lu_task = abort_wait os (is_cleared port true 0) spec.wait_lu_task;
      },
      ret 0,
    )
queue_abort_itl_lem os spec port h =
    unfold queue_abort_itl in queue_clear_internal-remove_if os spec port true 0 h
