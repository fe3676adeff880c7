-- ===== src/Disk/Pr/Reserve/Anomaly.antt =====
-- CLEAR, and commands that succeed and leave no usable reservation (src/istgt/istgt_lu_disk.c).
use istgt.Prelude.{[], true, false, Option, none, some, ◌≡◌, ◌≢◌, ◌⊎◌, inl, inr, refl, arith}
use istgt.Disk.Types.{PrKey, LuDisk, Conn, LuCmd, Pthread, ret, fail, good, reservation_conflict}
use istgt.Disk.Pr.Keys.{find_pr_key}
use istgt.Disk.Pr.Params.{
  Params, is_supported_type, establish, release_reservation, write_exclusive, exclusive_access,
}
use istgt.Disk.Pr.Reserve.{reserve, reserve_free, release, clear}
use istgt.Disk.Pr.Preempt.{preempt}
use istgt.Disk.Pr.Out.{
  Action, reserve_action, release_action, clear_action, preempt_action, preempt_abort_action,
  dispatch,
}
use istgt.Disk.Pr.Register.{register}
use istgt.Disk.Pr.Register.Nexus.{register-Unregistered}
use istgt.Disk.Pr.Check.{
  PrAllow, allow_write, check_any_nexus, check_unregistered, check_pr, admits,
}

-- The unit behind a CLEAR.
abbrev pub cleared : LuDisk → LuDisk
cleared spec = record spec {
  pr_keys = [];
  rsv_port = none;
  rsv_key = 0;
  rsv_scope = 0;
  rsv_type = 0;
}

-- What needs a registration.
unfoldable pub Refused : Action → Type 0
Refused a =
    (a ≡ reserve_action)
    ⊎ (a ≡ release_action)
    ⊎ (a ≡ clear_action)
    ⊎ (a ≡ preempt_action)
    ⊎ (a ≡ preempt_abort_action)

dispatch-cleared :
    (os : Pthread) (spec : LuDisk) (other : Conn) (c : LuCmd) (p : Params) (a : Action)
    → Refused a
    → dispatch os (cleared spec) other c a p ≡ reservation_conflict (cleared spec) c
unfolding Refused dispatch reserve release clear preempt find_pr_key
dispatch-cleared os spec other c p a (inl e) = rw e refl
dispatch-cleared os spec other c p a (inr (inl e)) = rw e refl
dispatch-cleared os spec other c p a (inr (inr (inl e))) = rw e refl
dispatch-cleared os spec other c p a (inr (inr (inr (inl e)))) = rw e refl
dispatch-cleared os spec other c p a (inr (inr (inr (inr e)))) = rw e refl

cleared-admits :
    (spec : LuDisk) (other : Conn) (allow : PrAllow) → admits (cleared spec) other allow ≡ true
unfolding admits
cleared-admits spec other allow = refl

clear-cleared :
    (spec : LuDisk) (conn : Conn) (cmd : LuCmd)
    → find_pr_key spec (some conn.initiator_port) (some conn.target_port) 0 ≢ none
    → clear spec conn cmd ≡ good (cleared spec) cmd
unfolding clear release_reservation
clear-cleared spec conn cmd found = ground arith

-- CLEAR from a registered nexus leaves a unit without registrations and without a reservation,
-- on which every command of every connection is admitted, and no task is touched; from another
-- nexus it fails and changes nothing.
clear_lem :
    (spec : LuDisk) (conn : Conn) (cmd : LuCmd)
    → (find_pr_key spec (some conn.initiator_port) (some conn.target_port) 0 ≢ none)
        × ((clear spec conn cmd).rc ≡ ret 0)
        × ((clear spec conn cmd).spec.pr_keys ≡ [])
        × ((clear spec conn cmd).spec.cmd_queue ≡ spec.cmd_queue)
        × ((other : Conn) (allow : PrAllow) → admits (clear spec conn cmd).spec other allow ≡ true)
      ⊎ (find_pr_key spec (some conn.initiator_port) (some conn.target_port) 0 ≡ none)
        × ((clear spec conn cmd).rc ≡ fail)
        × ((clear spec conn cmd).spec ≡ spec)
unfolding clear release_reservation admits
clear_lem spec conn cmd =
    go (find_pr_key spec (some conn.initiator_port) (some conn.target_port) 0) refl
  where
    go :
        (o : Option PrKey)
        → find_pr_key spec (some conn.initiator_port) (some conn.target_port) 0 ≡ o
        → (find_pr_key spec (some conn.initiator_port) (some conn.target_port) 0 ≢ none)
            × ((clear spec conn cmd).rc ≡ ret 0)
            × ((clear spec conn cmd).spec.pr_keys ≡ [])
            × ((clear spec conn cmd).spec.cmd_queue ≡ spec.cmd_queue)
            × ((other : Conn) (allow : PrAllow)
                → admits (clear spec conn cmd).spec other allow ≡ true)
          ⊎ (find_pr_key spec (some conn.initiator_port) (some conn.target_port) 0 ≡ none)
            × ((clear spec conn cmd).rc ≡ fail)
            × ((clear spec conn cmd).spec ≡ spec)
    go none e = inr (ground arith)
    go (some k) e =
        inl (ground arith, ground arith, ground arith, ground arith, λ other allow. ground arith)

-- CLEAR from a registered nexus succeeds, and leaves a unit without registrations and without a
-- reservation that is else as it was, its tasks and the generation with it. Then every command of
-- every connection is admitted; and RESERVE, RELEASE, CLEAR, PREEMPT and PREEMPT AND ABORT end with
-- RESERVATION CONFLICT for every connection, the one that cleared too, and change nothing.
pub clear-dispatch :
    (os : Pthread) (spec : LuDisk) (conn other : Conn) (cmd c : LuCmd) (p : Params)
    → (a : Action) (allow : PrAllow)
    → find_pr_key spec (some conn.initiator_port) (some conn.target_port) 0 ≢ none
    → Refused a
    → let r = clear spec conn cmd in
      (r ≡ good (cleared spec) cmd)
      × (admits r.spec other allow ≡ true)
      × (dispatch os r.spec other c a p ≡ reservation_conflict r.spec c)
clear-dispatch os spec conn other cmd c p a allow found h =
    rw (clear-cleared spec conn cmd found)
      (refl, cleared-admits spec other allow, dispatch-cleared os spec other c p a h)

-- A RESERVE with a key of 0, from a registered nexus of a unit that is not reserved, with the
-- scope of the logical unit and a supported type, succeeds and leaves the unit unreserved: every
-- command of every connection is still admitted.
pub reserve-zero_key :
    (spec : LuDisk) (conn : Conn) (cmd : LuCmd) (p : Params) (other : Conn) (allow : PrAllow)
    → spec.rsv_key ≡ 0
    → p.rkey ≡ 0
    → find_pr_key spec (some conn.initiator_port) (some conn.target_port) 0 ≢ none
    → p.scope ≡ 0
    → is_supported_type p.rsv_type ≡ true
    → ((reserve spec conn cmd p).rc ≡ ret 0)
      × (admits (reserve spec conn cmd p).spec other allow ≡ true)
unfolding reserve reserve_free establish admits
reserve-zero_key spec conn cmd p other allow free zero found s t =
    rw zero (ground arith, ground arith)

-- A nexus that unregisters by REGISTER while the unit is reserved write exclusive or exclusive
-- access leaves the unit reserved, and may no longer write itself, though no registration of its
-- own is left with which it could release the reservation.
pub register-orphans :
    (spec : LuDisk) (conn : Conn) (cmd : LuCmd) (p : Params)
    → p.sarkey ≡ 0
    → spec.rsv_key ≢ 0
    → (spec.rsv_type ≡ write_exclusive) ⊎ (spec.rsv_type ≡ exclusive_access)
    → (register spec conn cmd p).rc ≡ ret 0
    → ((register spec conn cmd p).spec.rsv_key ≡ spec.rsv_key)
      × (admits (register spec conn cmd p).spec conn allow_write ≡ false)
unfolding admits check_pr check_unregistered check_any_nexus
register-orphans spec conn cmd p z held t ok =
    let (gone, key_same, type_same) = register-Unregistered conn cmd p spec z ok in
    ground (arith, gone 0, key_same, type_same)
