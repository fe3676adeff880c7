-- ===== src/Disk/Exec/Opcode.antt =====
-- The operation codes that istgt_lu_disk_execute (src/istgt/istgt_lu_disk.c) tells apart, by their
-- values in src/istgt/istgt_scsi.h.
use istgt.Prelude.{ℕ, List, [], ◌∷◌, ◌==◌, if◌then◌else◌}

-- The cases of the `switch`. Codes that share a body are one case.
pub data Opcode : Type 0 where
  inquiry_op report_luns_op test_unit_ready_op start_stop_op read_capacity_op : Opcode
  service_action_in_op mode_select_6_op mode_select_10_op mode_sense_6_op : Opcode
  mode_sense_10_op request_sense_op read_6_op read_10_op read_12_op read_16_op : Opcode
  write_6_op write_10_op write_12_op write_16_op verify_op write_same_10_op : Opcode
  write_same_16_op compare_and_write_op synchronize_10_op synchronize_16_op : Opcode
  read_defect_10_op read_defect_12_op maintenance_in_op maintenance_out_op : Opcode
  reserve_in_op reserve_out_op release_op reserve_op unsupported_op : Opcode

-- The codes, each with its case.
abbrev codes : List (ℕ × Opcode)
codes =
    (0x12, inquiry_op)
    ∷ (0xa0, report_luns_op)
    ∷ (0x00, test_unit_ready_op)
    ∷ (0x1b, start_stop_op)
    ∷ (0x25, read_capacity_op)
    ∷ (0x9e, service_action_in_op)
    ∷ (0x15, mode_select_6_op)
    ∷ (0x55, mode_select_10_op)
    ∷ (0x1a, mode_sense_6_op)
    ∷ (0x5a, mode_sense_10_op)
    ∷ (0x03, request_sense_op)
    ∷ (0x08, read_6_op)
    ∷ (0x28, read_10_op)
    ∷ (0xa8, read_12_op)
    ∷ (0x88, read_16_op)
    ∷ (0x0a, write_6_op)
    ∷ (0x2a, write_10_op)
    ∷ (0x2e, write_10_op)
    ∷ (0xaa, write_12_op)
    ∷ (0xae, write_12_op)
    ∷ (0x8a, write_16_op)
    ∷ (0x8e, write_16_op)
    ∷ (0x2f, verify_op)
    ∷ (0xaf, verify_op)
    ∷ (0x8f, verify_op)
    ∷ (0x41, write_same_10_op)
    ∷ (0x93, write_same_16_op)
    ∷ (0x89, compare_and_write_op)
    ∷ (0x35, synchronize_10_op)
    ∷ (0x91, synchronize_16_op)
    ∷ (0x37, read_defect_10_op)
    ∷ (0xb7, read_defect_12_op)
    ∷ (0xa3, maintenance_in_op)
    ∷ (0xa4, maintenance_out_op)
    ∷ (0x5e, reserve_in_op)
    ∷ (0x5f, reserve_out_op)
    ∷ (0x17, release_op)
    ∷ (0x57, release_op)
    ∷ (0x16, reserve_op)
    ∷ (0x56, reserve_op)
    ∷ []

unfoldable pub find_op : ℕ → List (ℕ × Opcode) → Opcode
find_op code [] = unsupported_op
find_op code ((c, op) ∷ rest) = if c == code then op else find_op code rest

unfoldable pub opcode_of : ℕ → Opcode
unfolding find_op
opcode_of code = find_op code codes
