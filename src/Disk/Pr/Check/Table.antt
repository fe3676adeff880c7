-- ===== src/Disk/Pr/Check/Table.antt =====
-- The check against the reservation decides the table of SPC-3 for commands that read and that
-- write the medium (src/istgt/istgt_lu_disk.c, istgt_lu_disk_check_pr).
use istgt.Prelude.{ℕ, Bool, true, false, none, some, if◌then◌else◌, ◌==◌, ◌≡◌, ◌≢◌, arith}
use istgt.Disk.Types.{LuDisk, Conn}
use istgt.Disk.Pr.Keys.{find_pr_key}
use istgt.Disk.Pr.Params.{is_supported_type}
use istgt.Disk.Pr.Check.{
  allow_read, allow_write, check_any_nexus, check_registered, check_unregistered, check_pr, admits,
}

-- What an I_T nexus is to the reservation of a unit.
pub data Standing : Type 0 where
  holder registrant stranger : Standing

-- A registered nexus holds the reservation if its key is that of the reservation.
pub standing : LuDisk → Conn → Standing
standing spec conn = elim (find_pr_key spec (some conn.initiator_port) (some conn.target_port) 0) [
  | none ↦ stranger
  | some k ↦ if k.key == spec.rsv_key then holder else registrant
]

-- The types of a reservation.
pub data Kind : Type 0 where
  write_exclusive exclusive_access : Kind
  write_exclusive_registrants exclusive_access_registrants : Kind

pub kind : ℕ → Kind
kind t =
    if t == 1
    then write_exclusive
    else if t == 3
    then exclusive_access
    else if t == 5
    then write_exclusive_registrants
    else if t == 7
    then write_exclusive_registrants
    else exclusive_access_registrants

-- Who may write under a reservation.
abbrev pub may_write : Kind → Standing → Bool
may_write _ holder = true
may_write write_exclusive_registrants registrant = true
may_write exclusive_access_registrants registrant = true
may_write _ _ = false

-- Who may read under a reservation.
abbrev pub may_read : Kind → Standing → Bool
may_read _ holder = true
may_read write_exclusive _ = true
may_read write_exclusive_registrants _ = true
may_read exclusive_access_registrants registrant = true
may_read _ _ = false

-- On a reserved unit with a reservation of a supported type, the check admits a command that
-- writes exactly where the table lets the nexus write, and a command that reads exactly where it
-- lets the nexus read.
pub admits-table :
    (spec : LuDisk) (conn : Conn)
    → spec.rsv_key ≢ 0
    → is_supported_type spec.rsv_type ≡ true
    → (admits spec conn allow_write ≡ may_write (kind spec.rsv_type) (standing spec conn))
      × (admits spec conn allow_read ≡ may_read (kind spec.rsv_type) (standing spec conn))
unfolding admits standing kind is_supported_type check_pr check_registered check_unregistered
    check_any_nexus
admits-table spec conn h t = (ground arith, ground arith)
