-- ===== src/Disk/Pr/Params.antt =====
-- What the service actions of PERSISTENT RESERVE OUT share (src/istgt/istgt_lu_disk.c,
-- istgt_lu_disk_scsi_persistent_reserve_out): the parameter list, the reservation types, and the
-- fields that establish and release a reservation.
use istgt.Prelude.{ℕ, ◌+◌, ◌%◌, ◌^◌, Bool, ◌||◌, none, some, strlwr, ◌==◌, ◌!=◌}
use istgt.Misc.Bytes.{Buf, at_offset, dget64, bget8}
use istgt.Disk.Types.{LuDisk, Conn}

abbrev pub write_exclusive : ℕ
write_exclusive = 0x01

abbrev pub exclusive_access : ℕ
exclusive_access = 0x03

abbrev pub write_exclusive_registrants_only : ℕ
write_exclusive_registrants_only = 0x05

abbrev pub exclusive_access_registrants_only : ℕ
exclusive_access_registrants_only = 0x06

abbrev pub write_exclusive_all_registrants : ℕ
write_exclusive_all_registrants = 0x07

abbrev pub exclusive_access_all_registrants : ℕ
exclusive_access_all_registrants = 0x08

-- The arguments of a service action, and the fields of its parameter list. `len` is the length of
-- the list in the buffer `bytes`.
pub record Params : Type 0 where
  pub scope : ℕ
  pub rsv_type : ℕ
  pub rkey : ℕ
  pub sarkey : ℕ
  pub spec_i_pt : Bool
  pub all_tg_pt : Bool
  pub aptpl : Bool
  pub bytes : Buf
  pub len : ℕ

unfoldable pub read_params : ℕ → ℕ → Buf → ℕ → Params
unfolding dget64 bget8
read_params scope rsv_type bytes len = record {
  scope = scope;
  rsv_type = rsv_type;
  rkey = dget64 bytes;
  sarkey = dget64 (at_offset bytes 8);
  spec_i_pt = bget8 (bytes 20) 3 != 0;
  all_tg_pt = bget8 (bytes 20) 2 != 0;
  aptpl = bget8 (bytes 20) 0 != 0;
  bytes = bytes;
  len = len;
}

unfoldable pub is_supported_type : ℕ → Bool
is_supported_type t =
    t == write_exclusive
    || t == exclusive_access
    || t == write_exclusive_registrants_only
    || t == exclusive_access_registrants_only
    || t == write_exclusive_all_registrants
    || t == exclusive_access_all_registrants

unfoldable pub establish : LuDisk → Conn → Params → LuDisk
establish spec conn p = record spec {
  rsv_port = some (strlwr conn.initiator_port);
  rsv_key = p.rkey;
  rsv_scope = p.scope;
  rsv_type = p.rsv_type;
}

unfoldable pub release_reservation : LuDisk → LuDisk
release_reservation spec = record spec { rsv_port = none; rsv_key = 0; rsv_scope = 0; rsv_type = 0 }

-- `spec->pr_generation++` on a `uint32_t`
unfoldable pub next_generation : LuDisk → LuDisk
next_generation spec = record spec { pr_generation = (spec.pr_generation + 1) % 2 ^ 32 }
