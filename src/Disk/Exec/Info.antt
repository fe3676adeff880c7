-- ===== src/Disk/Exec/Info.antt =====
-- The cases of istgt_lu_disk_execute (src/istgt/istgt_lu_disk.c) that report on the unit, and
-- istgt_lu_disk_scsi_report_luns and istgt_lu_disk_scsi_read_defect10 and 12.
use mathlib.Core.Option
use istgt.Prelude.{
  ℕ, suc, ◌+◌, ◌-◌, ◌*◌, ◌/◌, ◌%◌, ◌^◌, List, [], ◌∷◌, ◌++◌, Bool, true, false, ◌||◌, not, Option,
  none, some, if◌then◌else◌, ◌==◌, ◌!=◌, ltb, leb, length, drop, replicate,
}
use istgt.Misc.Bytes.{Buf, at_offset, dget16, dget32, dset32, dset64, bget8, bget8w, bfield}
use istgt.Disk.Sense.{illegal_request, build_sense_data}
use istgt.Disk.Io.Block.{filled}
use istgt.Disk.Pr.Check.{allow_write}
use istgt.Disk.Exec.{State, Env, rejected, rejected_with, accepted, if_admitted, respond_within}

-- One entry of the LUN list, in the form for the number of units.
unfoldable pub lun_entry : (lun maxlun : ℕ) → ℕ
lun_entry lun maxlun =
    if leb maxlun 0x0100
    then lun % 2 ^ 8 * 2 ^ 48
    else if leb maxlun 0x4000
    then 2 ^ 62 + lun % 2 ^ 14 * 2 ^ 48
    else 0

-- The loop over the units from `lun` on, with the room that is left in the buffer.
unfoldable pub lun_entries : (maxlun lun room : ℕ) → List Bool → Option (List ℕ)
unfolding lun_entry dset64
lun_entries maxlun lun room [] = some []
lun_entries maxlun lun room (false ∷ present) = lun_entries maxlun (suc lun) room present
lun_entries maxlun lun room (true ∷ present) =
    let rest = lun_entries maxlun (suc lun) (room - 8) present in
    if ltb room 8 then none else Option.map (λ bytes. dset64 (lun_entry lun maxlun) ++ bytes) rest

unfoldable pub report_luns : List Bool → (sel alloc_len : ℕ) → Option (List ℕ)
unfolding lun_entries dset32
report_luns present sel alloc_len =
    if ltb alloc_len 8
    then none
    else if ltb 0x02 sel
    then none
    else Option.map (λ bytes. dset32 (length bytes) ++ (dset32 0 ++ bytes))
        (lun_entries (length present) 0 (alloc_len - 8) present)

-- `blockcnt - 1` on a `uint64_t`
unfoldable pub last_block : ℕ → ℕ
last_block blockcnt = (blockcnt + 2 ^ 64 - 1) % 2 ^ 64

unfoldable pub capacity_10 : (blockcnt blocklen : ℕ) → List ℕ
unfolding last_block dset32
capacity_10 blockcnt blocklen =
    (if ltb 0xffffffff (last_block blockcnt)
      then dset32 0xffffffff
      else dset32 (last_block blockcnt))
    ++ dset32 blocklen

unfoldable pub capacity_16 : (blockcnt blocklen : ℕ) → List ℕ
unfolding last_block dset32 dset64
capacity_16 blockcnt blocklen =
    dset64 (last_block blockcnt) ++ (dset32 blocklen ++ 0 ∷ replicate (32 - (8 + 4 + 1)) 0)

-- PLISTV, GLISTV and DEFECT LIST FORMAT
unfoldable pub defect_flags : Buf → ℕ
unfolding bget8 bget8w bfield
defect_flags cdb =
    bfield (if bget8 (cdb 2) 4 != 0 then 1 else 0) 4 1
    + bfield (if bget8 (cdb 2) 3 != 0 then 1 else 0) 3 1
    + bfield (bget8w (cdb 2) 2 3) 2 3

-- The list of defects is empty.
unfoldable pub read_defect10 : Buf → (alloc_len : ℕ) → Option (List ℕ)
unfolding defect_flags
read_defect10 cdb alloc_len =
    if ltb alloc_len 4 then none else some (0 ∷ defect_flags cdb ∷ 0 ∷ 0 ∷ [])

unfoldable pub read_defect12 : Buf → (alloc_len : ℕ) → Option (List ℕ)
unfolding defect_flags dset32
read_defect12 cdb alloc_len =
    if ltb alloc_len 8 then none else some (0 ∷ defect_flags cdb ∷ 0 ∷ 0 ∷ dset32 0)

module _ {ℓ} {σ : Type ℓ} (env : Env σ) where
  unfoldable pub inquiry_case : State σ → State σ
  unfolding respond_within
  inquiry_case s =
      if not s.cmd.r_bit
      then rejected s
      else respond_within (dget16 (at_offset s.cmd.cdb 3))
          (env.inquiry s.unit s.cmd.cdb s.cmd.alloc_len) rejected s

  -- Without the R bit the status stays as it was.
  unfoldable pub report_luns_case : State σ → State σ
  unfolding respond_within
  report_luns_case s =
      let allocation_len = dget32 (at_offset s.cmd.cdb 6) in
      if not s.cmd.r_bit
      then s
      else if ltb s.cmd.alloc_len allocation_len
      then rejected s
      else if ltb allocation_len 16
      then rejected_with illegal_request 0x24 0x00 s
      else respond_within allocation_len (report_luns env.lun_present (s.cmd.cdb 2) s.cmd.alloc_len)
          rejected s

  unfoldable pub test_unit_ready : State σ → State σ
  test_unit_ready s = accepted 0 s

  unfoldable pub start_stop_unit : State σ → State σ
  unfolding if_admitted
  start_stop_unit s =
      if bget8 (s.cmd.cdb 4) 0 != 0 || bget8w (s.cmd.cdb 4) 7 4 != 0
      then if_admitted env allow_write (λ s. accepted 0 s) s
      else accepted 0 s

  -- Eight bytes are reported, whatever the initiator has room for.
  unfoldable pub read_capacity_10 : State σ → State σ
  read_capacity_10 s =
      let bytes = capacity_10 s.unit.blocks.blockcnt s.unit.blocks.blocklen in
      let io = record s.cmd.io { data_buf = some (filled bytes (λ i. 0)) } in
      if not s.cmd.r_bit
      then rejected s
      else accepted 8 (record s { cmd = record s.cmd { io = io } })

  unfoldable pub read_capacity_16 : State σ → State σ
  unfolding respond_within
  read_capacity_16 s =
      if not s.cmd.r_bit
      then rejected s
      else respond_within (dget32 (at_offset s.cmd.cdb 10))
          (some (capacity_16 s.unit.blocks.blockcnt s.unit.blocks.blocklen)) rejected s

  -- SERVICE ACTION IN (16), of which only READ CAPACITY (16) is supported.
  unfoldable pub service_action_in : State σ → State σ
  unfolding read_capacity_16
  service_action_in s =
      if bget8w (s.cmd.cdb 1) 4 5 == 0x10
      then read_capacity_16 s
      else rejected_with illegal_request 0x20 0x00 s

  unfoldable pub mode_sense_6 : State σ → State σ
  unfolding if_admitted respond_within
  mode_sense_6 = if_admitted env allow_write λ s.
      if not s.cmd.r_bit
      then rejected s
      else respond_within (s.cmd.cdb 4) (env.mode_sense6 s.unit s.cmd.cdb s.cmd.alloc_len)
          (rejected_with illegal_request 0x24 0x00) s

  unfoldable pub mode_sense_10 : State σ → State σ
  unfolding if_admitted respond_within
  mode_sense_10 = if_admitted env allow_write λ s.
      if not s.cmd.r_bit
      then rejected s
      else respond_within (dget16 (at_offset s.cmd.cdb 7))
          (env.mode_sense10 s.unit s.cmd.cdb s.cmd.alloc_len)
          (rejected_with illegal_request 0x24 0x00) s

  -- INVALID COMMAND OPERATION CODE: LOG SELECT, LOG SENSE, EXTENDED COPY, ATA PASS-THROUGH, and
  -- every other code.
  unfoldable pub unsupported : State σ → State σ
  unsupported s = rejected_with illegal_request 0x20 0x00 s

  -- The sense data of the unit, without the length in front.
  unfoldable pub request_sense : State σ → State σ
  unfolding respond_within
  request_sense s =
      let sense = s.unit.unit_sense in
      if not s.cmd.r_bit
      then rejected s
      else if bget8 (s.cmd.cdb 1) 0 != 0
      then rejected_with illegal_request 0x24 0x00 s
      else respond_within (s.cmd.cdb 4)
          (some (
            drop 2
              (build_sense_data (sense / 2 ^ 16 % 2 ^ 8) (sense / 2 ^ 8 % 2 ^ 8) (sense % 2 ^ 8))))
          rejected s

  unfoldable pub read_defect_data_10 : State σ → State σ
  unfolding respond_within
  read_defect_data_10 s =
      if not s.cmd.r_bit
      then rejected s
      else respond_within (dget16 (at_offset s.cmd.cdb 7)) (read_defect10 s.cmd.cdb s.cmd.alloc_len)
          rejected s

  unfoldable pub read_defect_data_12 : State σ → State σ
  unfolding respond_within
  read_defect_data_12 s =
      if not s.cmd.r_bit
      then rejected s
      else respond_within (dget32 (at_offset s.cmd.cdb 6)) (read_defect12 s.cmd.cdb s.cmd.alloc_len)
          rejected s
