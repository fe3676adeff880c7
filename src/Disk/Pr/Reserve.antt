-- ===== src/Disk/Pr/Reserve.antt =====
-- The service actions RESERVE, RELEASE and CLEAR of PERSISTENT RESERVE OUT
-- (src/istgt/istgt_lu_disk.c).
pub mod Exclusion
pub mod Anomaly
use istgt.Prelude.{
  ℕ, List, [], Bool, true, false, ◌||◌, not, Option, none, some, if◌then◌else◌, Name, str_case_eq,
  ◌==◌, ◌!=◌,
}
use istgt.Disk.Types.{
  PrKey, LuDisk, Conn, LuCmd, Reply, check_condition, reservation_conflict, good, null_fault,
}
use istgt.Disk.Sense.{illegal_request}
use istgt.Disk.Pr.Keys.{find_pr_key}
use istgt.Disk.Pr.Params.{Params, is_supported_type, establish, release_reservation}

-- RESERVE where the unit is reserved, by the registration that was found. A repeated reservation
-- of the holder changes nothing.
unfoldable pub reserve_held : LuDisk → Conn → LuCmd → PrKey → Reply
reserve_held spec conn cmd k =
    if k.key != spec.rsv_key then reservation_conflict spec cmd else elim spec.rsv_port [
      | none ↦ null_fault spec cmd
      | some port ↦
          if not (str_case_eq port conn.initiator_port)
          then reservation_conflict spec cmd
          else good spec cmd
    ]

unfoldable pub reserve_free : LuDisk → Conn → LuCmd → Params → Reply
unfolding is_supported_type establish
reserve_free spec conn cmd p =
    if p.scope != 0
    then check_condition illegal_request 0x24 0x00 spec cmd
    else if not (is_supported_type p.rsv_type)
    then check_condition illegal_request 0x24 0x00 spec cmd
    else good (establish spec conn p) cmd

unfoldable pub reserve : LuDisk → Conn → LuCmd → Params → Reply
unfolding reserve_held reserve_free
reserve spec conn cmd p =
    elim (find_pr_key spec (some conn.initiator_port) (some conn.target_port) 0) [
      | none ↦ reservation_conflict spec cmd
      | some _ ↦ elim (find_pr_key spec (some conn.initiator_port) (some conn.target_port) p.rkey) [
        | none ↦ reservation_conflict spec cmd
        | some k ↦
            if spec.rsv_key == 0 then reserve_free spec conn cmd p else reserve_held spec conn cmd k
      ]
    ]

-- RELEASE once the port of the reservation is known to be that of the connection.
unfoldable pub release_held : LuDisk → LuCmd → Params → Reply
unfolding is_supported_type release_reservation
release_held spec cmd p =
    if p.scope != 0
    then check_condition illegal_request 0x24 0x00 spec cmd
    else if not (is_supported_type p.rsv_type)
    then check_condition illegal_request 0x24 0x00 spec cmd
    else if spec.rsv_scope != p.scope || spec.rsv_type != p.rsv_type
    then check_condition illegal_request 0x26 0x04 spec cmd
    else good (release_reservation spec) cmd

unfoldable pub release_found : LuDisk → Conn → LuCmd → Params → PrKey → Reply
unfolding release_held
release_found spec conn cmd p k =
    if spec.rsv_key == 0
    then good spec cmd
    else if k.key != spec.rsv_key
    then check_condition illegal_request 0x26 0x04 spec cmd
    else elim spec.rsv_port [
      | none ↦ null_fault spec cmd
      | some port ↦
          if not (str_case_eq port conn.initiator_port)
          then check_condition illegal_request 0x26 0x04 spec cmd
          else release_held spec cmd p
    ]

unfoldable pub release : LuDisk → Conn → LuCmd → Params → Reply
unfolding release_found
release spec conn cmd p =
    elim (find_pr_key spec (some conn.initiator_port) (some conn.target_port) 0) [
      | none ↦ reservation_conflict spec cmd
      | some _ ↦ elim (find_pr_key spec (some conn.initiator_port) (some conn.target_port) p.rkey) [
        | none ↦ reservation_conflict spec cmd
        | some k ↦ release_found spec conn cmd p k
      ]
    ]

unfoldable pub clear : LuDisk → Conn → LuCmd → Reply
unfolding release_reservation
clear spec conn cmd = elim (find_pr_key spec (some conn.initiator_port) (some conn.target_port) 0) [
  | none ↦ reservation_conflict spec cmd
  | some _ ↦ good (record (release_reservation spec) { pr_keys = [] }) cmd
]
