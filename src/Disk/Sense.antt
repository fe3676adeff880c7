-- ===== src/Disk/Sense.antt =====
-- Sense data in fixed format (src/istgt/istgt_lu_disk.c, istgt_lu_scsi_build_sense_data and
-- istgt_lu_scsi_build_sense_data2). The result is what is stored from `data[0]` on; its length is
-- the returned total.
pub mod Decode
use istgt.Prelude.{ℕ, ◌+◌, ◌%◌, ◌-◌, List, [], ◌∷◌, ◌++◌}
use istgt.Misc.Bytes.{dset16, bfield}

-- sense keys of src/istgt/istgt_scsi.h
abbrev pub medium_error : ℕ
medium_error = 0x03

abbrev pub hardware_error : ℕ
hardware_error = 0x04

abbrev pub illegal_request : ℕ
illegal_request = 0x05

abbrev pub miscompare : ℕ
miscompare = 0x0e

-- The eighteen bytes behind the length, for a response code.
unfoldable pub fixed_format : ℕ → ℕ → ℕ → ℕ → List ℕ
unfolding bfield
fixed_format resp_code sk asc ascq =
    let plen = 18 - 8 in
    (bfield 1 7 1 + bfield resp_code 6 7)
    ∷ 0
    ∷ bfield sk 3 4
    ∷ 0
    ∷ 0
    ∷ 0
    ∷ 0
    ∷ plen
    ∷ 0
    ∷ 0
    ∷ 0
    ∷ 0
    ∷ (asc % 256)
    ∷ (ascq % 256)
    ∷ 0
    ∷ 0
    ∷ 0
    ∷ 0
    ∷ []

-- 0x70 is the current error, in fixed format.
unfoldable pub build_sense_data : ℕ → ℕ → ℕ → List ℕ
unfolding fixed_format dset16
build_sense_data sk asc ascq = dset16 (2 + 8 + 10 - 2) ++ fixed_format 0x70 sk asc ascq

-- 0x71 is a deferred error, in fixed format.
unfoldable pub build_sense_data2 : ℕ → ℕ → ℕ → List ℕ
unfolding fixed_format dset16
build_sense_data2 sk asc ascq = dset16 (2 + 8 + 10 - 2) ++ fixed_format 0x71 sk asc ascq
