-- ===== src/Disk/Pr/In.antt =====
-- PERSISTENT RESERVE IN (src/istgt/istgt_lu_disk.c, istgt_lu_disk_scsi_persistent_reserve_in).
-- The handler writes the response in order of address, and the length into the header at the end;
-- here it is the list of the bytes of `data`, which the caller has cleared.
pub mod Decode
use istgt.Prelude.{
  ℕ, ◌+◌, ◌-◌, ◌*◌, ◌%◌, ◌<◌, List, [], ◌∷◌, ◌++◌, Bool, true, false, Option, none, some,
  if◌then◌else◌, Name, ◌==◌, ◌!=◌, length, take, replicate, of_bool, ◌&&◌,
}
use istgt.Misc.Bytes.{dset16, dset32, dset64, bfield}
use istgt.Disk.Types.{PrKey, LuDisk, LuCmd, status_good, status_check_condition}
use istgt.Disk.Sense.{illegal_request, build_sense_data}

abbrev pub max_initiator_name : ℕ
max_initiator_name = 256

-- READ KEYS: the keys, one behind the other.
unfoldable pub key_list : List PrKey → List ℕ
unfolding dset64
key_list [] = []
key_list (k ∷ keys) = dset64 k.key ++ key_list keys

-- PRGENERATION and ADDITIONAL LENGTH in front of a body.
unfoldable pub with_header : LuDisk → List ℕ → List ℕ
unfolding dset32
with_header spec body = dset32 spec.pr_generation ++ (dset32 (length body) ++ body)

unfoldable pub read_keys : LuDisk → List ℕ
unfolding with_header key_list
read_keys spec = with_header spec (key_list spec.pr_keys)

-- READ RESERVATION
unfoldable pub read_reservation : LuDisk → List ℕ
unfolding with_header dset64 dset32 dset16 bfield
read_reservation spec = with_header spec (
    if spec.rsv_key != 0
    then dset64 spec.rsv_key
      ++ (dset32 0 ++ (0 ∷ (bfield spec.rsv_scope 7 4 + bfield spec.rsv_type 3 4) ∷ dset16 0))
    else [])

-- REPORT CAPABILITIES
unfoldable pub report_capabilities : List ℕ
unfolding dset16 bfield
report_capabilities = dset16 0x0008 ++ ((bfield 1 3 1 + bfield 1 2 1) ∷ 0 ∷ (dset16 0 ++ dset16 0))

-- `snprintf` of a name into MAX_INITIATOR_NAME bytes of cleared memory, as far as its result
-- reaches.
unfoldable pub transport_id : Name → List ℕ
transport_id name =
    take (max_initiator_name - 1) name ++ replicate (length name - (max_initiator_name - 1)) 0

-- READ FULL STATUS: the descriptor of a registration.
unfoldable pub full_status : LuDisk → PrKey → List ℕ
unfolding dset64 dset32 dset16 bfield transport_id
full_status spec k =
    let holder = spec.rsv_key != 0 && spec.rsv_key == k.key in
    dset64 k.key
    ++ (dset32 0
        ++ ((bfield (of_bool k.all_tpg) 1 1 + bfield (of_bool holder) 0 1)
            ∷ (if holder then bfield spec.rsv_scope 7 4 + bfield spec.rsv_type 3 4 else 0)
            ∷ (dset32 0
                ++ (dset16 (1 + k.pg_idx)
                    ++ (dset32 (length k.registered_initiator_port)
                        ++ transport_id k.registered_initiator_port)))))

unfoldable pub full_status_list : LuDisk → List PrKey → List ℕ
unfolding full_status
full_status_list spec [] = []
full_status_list spec (k ∷ keys) = full_status spec k ++ full_status_list spec keys

unfoldable pub read_full_status : LuDisk → List ℕ
unfolding with_header full_status_list
read_full_status spec = with_header spec (full_status_list spec spec.pr_keys)

-- The response, of which the handler returns the length, or `none` where it returns -1; and the
-- command with its status.
unfoldable pub persistent_reserve_in : LuDisk → LuCmd → ℕ → Option (List ℕ) × LuCmd
unfolding read_keys read_reservation report_capabilities read_full_status
persistent_reserve_in spec cmd sa =
    let done = record cmd { status = status_good; sense = [] } in
    if sa == 0x00
    then (some (read_keys spec), done)
    else if sa == 0x01
    then (some (read_reservation spec), done)
    else if sa == 0x02
    then (some report_capabilities, done)
    else if sa == 0x03
    then (some (read_full_status spec), done)
    else (
      none,
      record cmd {
        status = status_check_condition;
        sense = build_sense_data illegal_request 0x24 0x00;
      },
    )
