-- ===== src/Disk/Exec/Lun.antt =====
-- The two forms of a logical unit number (src/istgt/istgt_lu.c: istgt_lu_islun2lun,
-- istgt_lu_lun2islun). `|` joins fields that do not overlap, so it is a sum.
use istgt.Prelude.{ℕ, ◌+◌, ◌-◌, ◌*◌, ◌/◌, ◌%◌, ◌^◌, if◌then◌else◌, ◌==◌, leb}

unfoldable pub islun2lun : ℕ → ℕ
islun2lun islun =
    let method = islun / 2 ^ 62 % 4 in
    let fmt_lun = islun / 2 ^ 48 in
    if method == 0x00 then fmt_lun % 2 ^ 8 else if method == 0x01 then fmt_lun % 2 ^ 14 else 0xffff

-- For `lun` from 0 on.
unfoldable pub lun2islun : (lun maxlun : ℕ) → ℕ
lun2islun lun maxlun =
    if leb maxlun 0x0100
    then lun % 2 ^ 8 * 2 ^ 48
    else if leb maxlun 0x4000
    then 2 ^ 62 + lun % 2 ^ 14 * 2 ^ 48
    else 2 ^ 64 - 1
