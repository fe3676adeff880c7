-- ===== src/Disk/Pr/Preempt/Takeover.antt =====
-- What PREEMPT and PREEMPT AND ABORT do to a reservation that is not for all registrants
-- (src/istgt/istgt_lu_disk.c).
use istgt.Prelude.{
  ℕ, ◌+◌, ◌%◌, ◌^◌, List, [], ◌∷◌, Bool, true, false, none, some, Name, ◌≡◌, ◌≢◌, ◌⊎◌, refl, sym,
  ap, arith, strlwr, remove_if, any, any-remove_if, ◌==◌, ◌∙◌,
}
use istgt.Disk.Types.{PrKey, LuDisk, Conn, LuCmd, ret, fail, Pthread}
use istgt.Disk.Tasks.{is_cleared, abort_wait}
use istgt.Disk.Tasks.Clear.{CanDestroy, queue_abort_itl_lem}
use istgt.Disk.Pr.Keys.{find_pr_key, is_removed, remove_pr_key}
use istgt.Disk.Pr.Keys.Remove.{remove_pr_key_lem}
use istgt.Disk.Pr.Params.{
  Params, is_supported_type, establish, release_reservation, next_generation,
  write_exclusive_all_registrants, exclusive_access_all_registrants,
}
use istgt.Disk.Pr.Preempt.{abort_preempted, take_over, preempt_holder, preempt}

-- The registrations of a key.
abbrev pub has_key : ℕ → PrKey → Bool
has_key key k = k.key == key

remove_if_ext :
    (p q : PrKey → Bool) (keys : List PrKey)
    → ((k : PrKey) → p k ≡ q k)
    → remove_if p keys ≡ remove_if q keys
remove_if_ext p q [] h = refl
remove_if_ext p q (k ∷ keys) h = ground (arith, h k, remove_if_ext p q keys h)

is_removed-has_key : (key : ℕ) (k : PrKey) → key ≢ 0 → is_removed none none key k ≡ has_key key k
unfolding is_removed
is_removed-has_key key k h = ground arith

-- Removing a key other than 0 for every port removes the registrations of that key.
pub remove_pr_key-has_key :
    (spec : LuDisk) (key : ℕ)
    → key ≢ 0
    → remove_pr_key spec none none key
      ≡ record spec { pr_keys = remove_if (has_key key) spec.pr_keys }
remove_pr_key-has_key spec key h =
    remove_pr_key_lem spec none none key
    ∙ ap (λ keys. record spec { pr_keys = keys })
        (remove_if_ext (is_removed none none key) (has_key key) spec.pr_keys
          (λ k. is_removed-has_key key k h))

-- When a PREEMPT is to take a reservation over: the nexus is registered with the key given, and
-- the service action key is that of the reservation, which is not for all registrants.
pub record CanPreempt (spec : LuDisk) (conn : Conn) (p : Params) : Type 0 where
  pub reserved : spec.rsv_key ≢ 0
  pub by_key : p.sarkey ≡ spec.rsv_key
  pub not_we_all : spec.rsv_type ≢ write_exclusive_all_registrants
  pub not_ea_all : spec.rsv_type ≢ exclusive_access_all_registrants
  pub registered : find_pr_key spec (some conn.initiator_port) (some conn.target_port) 0 ≢ none
  pub registered_by_key :
      find_pr_key spec (some conn.initiator_port) (some conn.target_port) p.rkey ≢ none

module _ (os : Pthread) (spec : LuDisk) (conn : Conn) (cmd : LuCmd) (p : Params) where
  preempt_lem :
      (task_abort : Bool)
      → CanPreempt spec conn p
      → preempt os spec conn cmd p task_abort
        ≡ take_over os
            (record spec { pr_keys = remove_if (has_key p.sarkey) spec.pr_keys })
            conn
            cmd
            p
            task_abort
  unfolding preempt preempt_holder
  preempt_lem task_abort c =
      let e = remove_pr_key-has_key spec p.sarkey (λ z. c.reserved (sym c.by_key ∙ z)) in
      ground (arith, e)

  -- A PREEMPT that may take the reservation over, with the scope of the logical unit and a
  -- supported type, succeeds: the reservation is then of the connection's port with the key, scope
  -- and type given, the registrations of the service action key are gone and the others stay in
  -- their order, the generation goes up by one modulo 2 ^ 32, and no task is touched.
  pub preempt-takes_over :
      CanPreempt spec conn p
      → p.scope ≡ 0
      → is_supported_type p.rsv_type ≡ true
      → ((preempt os spec conn cmd p false).rc ≡ ret 0)
        × ((preempt os spec conn cmd p false).spec ≡ record spec {
          rsv_port = some (strlwr conn.initiator_port);
          rsv_key = p.rkey;
          rsv_scope = p.scope;
          rsv_type = p.rsv_type;
          pr_keys = remove_if (has_key p.sarkey) spec.pr_keys;
          pr_generation = (spec.pr_generation + 1) % 2 ^ 32;
        })
  unfolding take_over abort_preempted next_generation establish release_reservation
  preempt-takes_over c s t = rw (preempt_lem false c) (ground arith, ground arith)

  -- A PREEMPT AND ABORT does the same on a system that can destroy every task, and the commands
  -- of the port that held the reservation leave the queue: exactly the others stay, in their order.
  pub preempt_abort-takes_over :
      (port : Name)
      → CanPreempt spec conn p
      → CanDestroy os
      → spec.rsv_port ≡ some port
      → p.scope ≡ 0
      → is_supported_type p.rsv_type ≡ true
      → ((preempt os spec conn cmd p true).rc ≡ ret 0)
        × ((preempt os spec conn cmd p true).spec ≡ record (preempt os spec conn cmd p false).spec {
          cmd_queue = remove_if (is_cleared port true 0) spec.cmd_queue;
          wait_lu_task = abort_wait os (is_cleared port true 0) spec.wait_lu_task;
        })
  unfolding take_over abort_preempted next_generation establish release_reservation
  preempt_abort-takes_over port c d e s t =
      rw (preempt_lem true c, preempt_lem false c)
        (let u = next_generation (
            establish
              (release_reservation
                (record spec { pr_keys = remove_if (has_key p.sarkey) spec.pr_keys }))
              conn p) in
          (
            ground (arith, queue_abort_itl_lem os u port d),
            ground (arith, queue_abort_itl_lem os u port d),
          ))

  -- A PREEMPT that could take the reservation over but has another scope or an unsupported type
  -- fails, and still removes the registrations of the service action key; the reservation stays.
  pub preempt-fails_removes :
      (task_abort : Bool)
      → CanPreempt spec conn p
      → (p.scope ≢ 0) ⊎ (is_supported_type p.rsv_type ≡ false)
      → ((preempt os spec conn cmd p task_abort).rc ≡ fail)
        × ((preempt os spec conn cmd p task_abort).spec
            ≡ record spec { pr_keys = remove_if (has_key p.sarkey) spec.pr_keys })
  unfolding take_over
  preempt-fails_removes task_abort c bad =
      rw (preempt_lem task_abort c) (ground arith, ground arith)

  -- Where the key given is the key of the reservation itself, such a PREEMPT leaves the unit
  -- reserved with a key that no registration has.
  pub preempt-self_orphans :
      CanPreempt spec conn p
      → p.scope ≡ 0
      → is_supported_type p.rsv_type ≡ true
      → p.rkey ≡ p.sarkey
      → ((preempt os spec conn cmd p false).spec.rsv_key ≡ spec.rsv_key)
        × (any (has_key spec.rsv_key) (preempt os spec conn cmd p false).spec.pr_keys ≡ false)
  preempt-self_orphans c s t e =
      rw (preempt-takes_over c s t).1
        (e ∙ c.by_key, rw c.by_key (any-remove_if (has_key spec.rsv_key) spec.pr_keys))
