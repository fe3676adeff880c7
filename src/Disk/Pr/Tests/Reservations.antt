-- ===== src/Disk/Pr/Tests/Reservations.antt =====
-- The theorems on reservations, and on all histories, at concrete units.
use istgt.Prelude.{◌++◌, ◌≡◌, refl, arith, str_eq}
use istgt.Misc.Bytes.{buf_of, dset64}
use istgt.Disk.Types.{ret}
use istgt.Disk.Pr.Keys.{find_pr_key}
use istgt.Disk.Pr.Params.{is_supported_type}
use istgt.Disk.Pr.Reserve.{reserve}
use istgt.Disk.Pr.Reserve.Exclusion.{holds_key, reserve-admits}
use istgt.Disk.Pr.Check.{allow_read, allow_write, admits}
use istgt.Disk.Pr.Check.Table.{standing, kind, may_write, may_read, admits-table}
use istgt.Disk.Pr.Out.{persistent_reserve_out}
use istgt.Disk.Pr.Legacy.{scsi_reserve}
use istgt.Disk.Pr.Valid.{IsValid, Keeps}
use istgt.Disk.Pr.Valid.Out.{
  fresh, start, next, legacy_reserve, persistent_reserve_out-Keeps, Reach-IsValid,
}
use istgt.Disk.Pr.Tests.{os, ids, alice, bob, shared, held, blank, params, held-IsValid}

Reach-IsValid_example : IsValid (scsi_reserve os ids fresh alice blank).spec
Reach-IsValid_example = Reach-IsValid (next start (legacy_reserve fresh alice blank))

persistent_reserve_out-Keeps_example :
    Keeps (persistent_reserve_out os held bob blank 0x05 0 3 (buf_of (dset64 6 ++ dset64 5)) 24)
persistent_reserve_out-Keeps_example =
    persistent_reserve_out-Keeps os held bob blank 0x05 0 3 (buf_of (dset64 6 ++ dset64 5)) 24
      held-IsValid

admits-table_example :
    (admits held bob allow_write ≡ may_write (kind 3) (standing held bob))
    × (admits held bob allow_read ≡ may_read (kind 3) (standing held bob))
admits-table_example = admits-table held bob (omega arith) (unfold is_supported_type in refl)

-- Alice reserves the shared unit.
alice_reserves : (reserve shared alice blank (params 5 0 3)).rc ≡ ret 0
unfolding reserve find_pr_key str_eq
alice_reserves = refl

reserve-admits_example :
    let s = (reserve shared alice blank (params 5 0 3)).spec in
    (admits s bob allow_read ≡ holds_key shared bob 5)
    × (admits s bob allow_write ≡ holds_key shared bob 5)
reserve-admits_example =
    reserve-admits shared alice blank (params 5 0 3) bob refl (omega arith) refl alice_reserves
