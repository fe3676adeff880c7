-- ===== src/Disk/Types.antt =====
-- The structures of src/istgt/istgt_lu.h and src/istgt/istgt_core.h that the persistent
-- reservations of src/istgt/istgt_lu_disk.c use, and what a handler returns. Each record has the
-- fields that these functions read or write. A `char *` that may be NULL is an `Option`.
use istgt.Prelude.{ℕ, List, Bool, Option, Name}
use istgt.Disk.Sense.{build_sense_data}

abbrev pub max_lu_reserve : ℕ
max_lu_reserve = 256

abbrev pub max_lu_reserve_ipt : ℕ
max_lu_reserve_ipt = 256

abbrev pub max_iscsi_name : ℕ
max_iscsi_name = 256

-- ISTGT_LU_PR_KEY
pub record PrKey : Type 0 where
  pub key : ℕ
  pub registered_initiator_port : Name
  pub registered_target_port : Name
  pub pg_idx : ℕ
  pub pg_tag : ℕ
  pub initiator_ports : List Name
  pub all_tpg : Bool

-- ISTGT_LU_TASK
pub record Task : Type 0 where
  pub initiator_port : Name
  pub cmd_sn : ℕ
  pub error : Bool
  pub abort : Bool

-- ISTGT_LU_DISK. `pr_keys` holds the first `npr_keys` entries of the array.
pub record LuDisk : Type 0 where
  pub cmd_queue : List Task
  pub wait_lu_task : Option Task
  pub pr_keys : List PrKey
  pub pr_generation : ℕ
  pub rsv_port : Option Name
  pub rsv_key : ℕ
  pub rsv_scope : ℕ
  pub rsv_type : ℕ

-- CONN. `initiator_port` is in lower case once a login has set it.
pub record Conn : Type 0 where
  pub initiator_name : Name
  pub initiator_port : Name
  pub target_port : Name
  pub portal_idx : ℕ
  pub portal_tag : ℕ

-- ISTGT_LU_CMD. `sense` holds the first `sense_data_len` bytes of `sense_data`.
pub record LuCmd : Type 0 where
  pub status : ℕ
  pub sense : List ℕ

-- What <pthread.h> answers: whether a task's mutex and conditions can be destroyed, and whether
-- its `trans_mutex` can be locked at once.
pub record Pthread : Type 0 where
  pub destroy_ok : Task → Bool
  pub trylock_ok : Task → Bool

-- What an `int` function returns: a number that is not negative, or -1. `fault` is a NULL pointer
-- that was read through.
pub data Rc : Type 0 where
  ret : ℕ → Rc
  fail : Rc
  fault : Rc

pub record Reply : Type 0 where
  pub spec : LuDisk
  pub cmd : LuCmd
  pub rc : Rc

abbrev pub status_good : ℕ
status_good = 0x00

abbrev pub status_check_condition : ℕ
status_check_condition = 0x02

abbrev pub status_reservation_conflict : ℕ
status_reservation_conflict = 0x18

-- BUILD_SENSE, CHECK CONDITION and `return -1`
abbrev pub check_condition : ℕ → ℕ → ℕ → LuDisk → LuCmd → Reply
check_condition sk asc ascq spec cmd = record {
  spec = spec;
  cmd = record cmd { status = status_check_condition; sense = build_sense_data sk asc ascq };
  rc = fail;
}

-- RESERVATION CONFLICT and `return -1`
abbrev pub reservation_conflict : LuDisk → LuCmd → Reply
reservation_conflict spec cmd = record {
  spec = spec;
  cmd = record cmd { status = status_reservation_conflict };
  rc = fail;
}

-- GOOD and `return 0`
abbrev pub good : LuDisk → LuCmd → Reply
good spec cmd = record { spec = spec; cmd = record cmd { status = status_good }; rc = ret 0 }

abbrev pub null_fault : LuDisk → LuCmd → Reply
null_fault spec cmd = record { spec = spec; cmd = cmd; rc = fault }
