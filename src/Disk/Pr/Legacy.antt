-- ===== src/Disk/Pr/Legacy.antt =====
-- RESERVE(6), RESERVE(10), RELEASE(6) and RELEASE(10) by persistent reservations
-- (src/istgt/istgt_lu_disk.c: istgt_get_rkey, istgt_lu_disk_scsi_release,
-- istgt_lu_disk_scsi_reserve).
pub mod Laws
use istgt.Prelude.{
  ℕ, ◌+◌, ◌*◌, ◌%◌, ◌^◌, List, [], ◌∷◌, ◌++◌, if◌then◌else◌, Name, ◌==◌, drop, replicate,
}
use istgt.Misc.Bytes.{dset64, buf_of}
use istgt.Disk.Types.{
  LuDisk, Conn, LuCmd, Reply, Pthread, Rc, ret, fail, fault, status_reservation_conflict,
  check_condition, reservation_conflict, good, null_fault,
}
use istgt.Disk.Sense.{hardware_error}
use istgt.Disk.Pr.Out.{persistent_reserve_out}

-- What the key of an initiator is computed from: the identifier of the unit, which
-- `istgt_get_lui` makes, and the MD5 digest of an initiator's name and such an identifier.
pub record Identity : Type 0 where
  pub lui : ℕ
  pub digest : Name → ℕ → List ℕ

-- One round of the loop over the digest: `rkey |= b`, where the low byte of `rkey` is 0, and
-- `rkey << 8` on a `uint64_t`.
unfoldable pub rkey_step : ℕ → List ℕ → ℕ
rkey_step rkey [] = rkey
rkey_step rkey (b ∷ bytes) = rkey_step ((rkey + b) * 2 ^ 8 % 2 ^ 64) bytes

-- The last eight bytes of the sixteen.
unfoldable pub get_rkey : Identity → Name → ℕ
unfolding rkey_step
get_rkey ids initiator_name = rkey_step 0 (drop 8 (ids.digest initiator_name ids.lui))

-- The parameter list of a nested command: RESERVATION KEY and SERVICE ACTION RESERVATION KEY.
unfoldable pub pro_data : ℕ → ℕ → List ℕ
unfolding dset64
pro_data rkey sarkey = dset64 rkey ++ (dset64 sarkey ++ replicate 8 0)

-- A nested PERSISTENT RESERVE OUT with a command of its own.
unfoldable pub nested : Pthread → LuDisk → Conn → ℕ → ℕ → ℕ → ℕ → Reply
unfolding pro_data buf_of
nested os spec conn sa rsv_type rkey sarkey =
    persistent_reserve_out os spec conn (record { status = 0; sense = [] }) sa 0 rsv_type
      (buf_of (pro_data rkey sarkey)) 24

-- What the caller reports of a nested command that failed.
unfoldable pub nested_failed : LuCmd → Reply → Reply
nested_failed cmd r =
    if r.cmd.status == status_reservation_conflict
    then reservation_conflict r.spec cmd
    else check_condition hardware_error 0x44 0x00 r.spec cmd

unfoldable pub finish : LuCmd → Reply → Reply
unfolding nested_failed
finish cmd r = elim r.rc [
  | ret _ ↦ good r.spec cmd
  | fail ↦ nested_failed cmd r
  | fault ↦ null_fault r.spec cmd
]

-- RELEASE, and then REGISTER AND IGNORE EXISTING KEY with a key of 0, which unregisters.
unfoldable pub scsi_release : Pthread → Identity → LuDisk → Conn → LuCmd → Reply
unfolding nested nested_failed finish
scsi_release os ids spec conn cmd0 =
    let cmd = record cmd0 { sense = [] } in
    let rkey = get_rkey ids conn.initiator_name in
    let r = nested os spec conn 0x02 0x03 rkey 0 in
    elim r.rc [
      | ret _ ↦ finish cmd (nested os r.spec conn 0x06 0 rkey 0)
      | fail ↦ nested_failed cmd r
      | fault ↦ null_fault r.spec cmd
    ]

-- REGISTER AND IGNORE EXISTING KEY, and then RESERVE.
unfoldable pub scsi_reserve : Pthread → Identity → LuDisk → Conn → LuCmd → Reply
unfolding nested nested_failed finish
scsi_reserve os ids spec conn cmd0 =
    let cmd = record cmd0 { sense = [] } in
    let rkey = get_rkey ids conn.initiator_name in
    let r = nested os spec conn 0x06 0 0 rkey in
    elim r.rc [
      | ret _ ↦ finish cmd (nested os r.spec conn 0x01 0x03 rkey 0)
      | fail ↦ nested_failed cmd r
      | fault ↦ null_fault r.spec cmd
    ]
