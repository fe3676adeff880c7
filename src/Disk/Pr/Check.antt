-- ===== src/Disk/Pr/Check.antt =====
-- The check of a command against the reservation (src/istgt/istgt_lu_disk.c,
-- istgt_lu_disk_check_pr).
pub mod Table
use istgt.Prelude.{
  ℕ, Bool, true, false, ◌&&◌, ◌||◌, not, Option, none, some, if◌then◌else◌, ◌==◌, ◌!=◌,
}
use istgt.Disk.Types.{PrKey, LuDisk, Conn}
use istgt.Disk.Pr.Keys.{find_pr_key}
use istgt.Disk.Pr.Params.{
  write_exclusive, exclusive_access, write_exclusive_registrants_only,
  exclusive_access_registrants_only, write_exclusive_all_registrants,
  exclusive_access_all_registrants,
}

-- The bits of PR_ALLOW: for a reservation of any I_T nexus that is write exclusive (`we`) or
-- exclusive access (`ea`), for a registered I_T nexus under a reservation of registrants
-- (`allrr`), and for an unregistered one under such a reservation that is write exclusive
-- (`werr`) or exclusive access (`earr`).
pub record PrAllow : Type 0 where
  pub we : Bool
  pub ea : Bool
  pub allrr : Bool
  pub werr : Bool
  pub earr : Bool

-- PR_ALLOW(1, 0, 1, 1, 0): the commands that read the medium
abbrev pub allow_read : PrAllow
allow_read = record { we = true; ea = false; allrr = true; werr = true; earr = false }

-- PR_ALLOW(0, 0, 1, 0, 0): the commands that write the medium or set parameters
abbrev pub allow_write : PrAllow
allow_write = record { we = false; ea = false; allrr = true; werr = false; earr = false }

-- The last `switch`.
unfoldable pub check_any_nexus : ℕ → PrAllow → Bool
check_any_nexus rsv_type allow =
    if rsv_type == write_exclusive
    then allow.we
    else if rsv_type == exclusive_access
    then allow.ea
    else false

unfoldable pub check_registered : ℕ → PrAllow → Bool
unfolding check_any_nexus
check_registered rsv_type allow =
    if rsv_type == write_exclusive_all_registrants
    then allow.allrr
    else if rsv_type == exclusive_access_all_registrants
    then allow.allrr
    else if rsv_type == write_exclusive_registrants_only
    then allow.allrr
    else if rsv_type == exclusive_access_registrants_only
    then allow.allrr
    else check_any_nexus rsv_type allow

unfoldable pub check_unregistered : ℕ → PrAllow → Bool
unfolding check_any_nexus
check_unregistered rsv_type allow =
    if rsv_type == write_exclusive_all_registrants
    then allow.werr
    else if rsv_type == write_exclusive_registrants_only
    then allow.werr
    else if rsv_type == exclusive_access_all_registrants
    then allow.earr
    else if rsv_type == exclusive_access_registrants_only
    then allow.earr
    else check_any_nexus rsv_type allow

-- `true` is `return 0`, and `false` is `return -1`.
unfoldable pub check_pr : LuDisk → Conn → PrAllow → Bool
unfolding check_registered check_unregistered
check_pr spec conn allow =
    elim (find_pr_key spec (some conn.initiator_port) (some conn.target_port) 0) [
      | none ↦ check_unregistered spec.rsv_type allow
      | some k ↦ if spec.rsv_key == k.key then true else check_registered spec.rsv_type allow
    ]

-- The test in front of every command that the reservation may refuse.
unfoldable pub admits : LuDisk → Conn → PrAllow → Bool
unfolding check_pr
admits spec conn allow = if spec.rsv_key != 0 then check_pr spec conn allow else true
