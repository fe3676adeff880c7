-- ===== src/Disk/Tasks.antt =====
-- Clearing queued commands (src/istgt/istgt_lu_disk.c, istgt_lu_disk_queue_clear_internal and its
-- callers). The queue is the list of its elements, first to be dequeued first.
pub mod Clear
use istgt.Prelude.{
  ℕ, List, [], ◌∷◌, ◌++◌, Bool, true, false, ◌&&◌, ◌||◌, Option, none, some, if◌then◌else◌, Name,
  str_case_eq, ◌==◌,
}
use istgt.Disk.Types.{Task, LuDisk, Pthread, Rc, ret, fail}

-- The test that both loops make: all commands, or one CmdSN, of the port.
unfoldable pub is_cleared : Name → Bool → ℕ → Task → Bool
is_cleared port all_cmds cmd_sn t =
    (all_cmds || t.cmd_sn == cmd_sn) && str_case_eq t.initiator_port port

-- How the first loop ends: with what is left in `cmd_queue` and what was put in `saved_queue`.
pub data Scan : Type 0 where
  scanned : List Task → Scan
  destroy_failed : List Task → Scan

-- The first loop: it takes each task off `cmd_queue`, destroys those that are cleared, and puts
-- the others in `saved_queue`. Where a task cannot be destroyed, the rest stays in `cmd_queue`.
unfoldable pub scan : Pthread → (Task → Bool) → List Task → List Task → Scan
scan os p [] saved = scanned saved
scan os p (t ∷ queue) saved = elim (p t) [
  | true ↦ elim (os.destroy_ok t) [ true ↦ scan os p queue saved | false ↦ destroy_failed queue ]
  | false ↦ scan os p queue (saved ++ t ∷ [])
]

-- The second loop: every saved task goes back to the end of `cmd_queue`.
unfoldable pub restore : List Task → List Task → List Task
restore [] queue = queue
restore (t ∷ saved) queue = restore saved (queue ++ t ∷ [])

-- A waiting task that is cleared is marked, if its mutex is free.
unfoldable pub abort_wait : Pthread → (Task → Bool) → Option Task → Option Task
abort_wait os p none = none
abort_wait os p (some t) =
    some (if p t && os.trylock_ok t then record t { error = true; abort = true } else t)

unfoldable pub queue_clear_internal : Pthread → LuDisk → Name → Bool → ℕ → LuDisk × Rc
unfolding is_cleared scan restore abort_wait
queue_clear_internal os spec port all_cmds cmd_sn =
    elim (scan os (is_cleared port all_cmds cmd_sn) spec.cmd_queue []) [
      | scanned saved ↦ (
        record spec {
          cmd_queue = restore saved [];
          wait_lu_task = abort_wait os (is_cleared port all_cmds cmd_sn) spec.wait_lu_task;
        },
        ret 0,
      )
      | destroy_failed queue ↦ (record spec { cmd_queue = queue }, fail)
    ]

-- istgt_lu_disk_queue_abort_ITL: all commands of a port
unfoldable pub queue_abort_itl : Pthread → LuDisk → Name → LuDisk × Rc
unfolding queue_clear_internal
queue_abort_itl os spec port = queue_clear_internal os spec port true 0
