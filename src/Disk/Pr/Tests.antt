-- ===== src/Disk/Pr/Tests.antt =====
-- Concrete units, connections and commands, for the theorems on reservations.
mod Reservations
mod Registrations
mod Preemptions
mod Responses
use istgt.Prelude.{
  ℕ, ◌+◌, ◌*◌, ◌%◌, ◌^◌, ◌<◌, [], ◌∷◌, ◌++◌, true, false, none, some, ◌≡◌, ◌≢◌, ◌⊎◌, inr, refl,
  arith, length, remove_if, any, replicate, strlwr, str_eq, str_case_eq,
}
use istgt.Misc.Bytes.{at_offset, IsBytes, dget32, dget64, bget8w, buf_of, dset32, dset64}
use istgt.Misc.Bytes.RoundTrip.{buf_of-IsBytes}
use istgt.Disk.Types.{PrKey, Task, LuDisk, Conn, LuCmd, ret, fail, Pthread, check_condition, good}
use istgt.Disk.Sense.{illegal_request}
use istgt.Disk.Tasks.{is_cleared, abort_wait, queue_clear_internal}
use istgt.Disk.Tasks.Clear.{queue_clear_internal_lem}
use istgt.Disk.Pr.Keys.{find_pr_key, is_removed, remove_pr_key}
use istgt.Disk.Pr.Keys.Remove.{remove_pr_key_lem}
use istgt.Disk.Pr.Params.{Params, is_supported_type, establish}
use istgt.Disk.Pr.Register.{register, register_ignore, do_register}
use istgt.Disk.Pr.Register.Laws.{register-atomic}
use istgt.Disk.Pr.Register.Nexus.{
  Unregistered, Registered, register-Registered, register-Unregistered,
}
use istgt.Disk.Pr.Register.Ports.{do_register-ports_refused}
use istgt.Disk.Pr.Reserve.{reserve, release, clear}
use istgt.Disk.Pr.Reserve.Exclusion.{
  holds_key, reserve_free_iff, reserve-held_unchanged, reserve-admits, release-reserve,
}
use istgt.Disk.Pr.Reserve.Anomaly.{reserve-zero_key, register-orphans}
use istgt.Disk.Pr.Preempt.{preempt}
use istgt.Disk.Pr.Preempt.Takeover.{
  has_key, CanPreempt, preempt-takes_over, preempt_abort-takes_over, preempt-fails_removes,
  preempt-self_orphans,
}
use istgt.Disk.Pr.Check.{allow_read, allow_write, admits}
use istgt.Disk.Pr.Check.Table.{standing, kind, may_write, may_read, admits-table}
use istgt.Disk.Pr.Out.{persistent_reserve_out}
use istgt.Disk.Pr.Legacy.{Identity, get_rkey, scsi_reserve}
use istgt.Disk.Pr.Legacy.Laws.{
  get_rkey_low, scsi_reserve_lem, scsi_reserve-admits, registered, reserve_list,
}
use istgt.Disk.Pr.In.{read_keys, read_reservation, persistent_reserve_in}
use istgt.Disk.Pr.In.Decode.{
  decode_keys, persistent_reserve_in-keys, persistent_reserve_in-reservation,
}
use istgt.Disk.Pr.Valid.{IsValid, Keeps}
use istgt.Disk.Pr.Valid.Out.{
  fresh, start, next, legacy_reserve, persistent_reserve_out-Keeps, Reach-IsValid,
}

abbrev pub os : Pthread
os = record { destroy_ok = λ _. true; trylock_ok = λ _. true }

-- A digest that is not 0 in its last eight bytes.
abbrev pub ids : Identity
ids = record { lui = 7; digest = λ name lui. replicate 15 0 ++ (length name + 1) ∷ [] }

abbrev pub alice : Conn
alice = record {
  initiator_name = 97 ∷ [];
  initiator_port = 97 ∷ [];
  target_port = 116 ∷ [];
  portal_idx = 0;
  portal_tag = 1;
}

abbrev pub bob : Conn
bob = record {
  initiator_name = 98 ∷ 98 ∷ [];
  initiator_port = 98 ∷ [];
  target_port = 116 ∷ [];
  portal_idx = 0;
  portal_tag = 1;
}

abbrev pub key_of : Conn → ℕ → PrKey
key_of conn key = record {
  key = key;
  registered_initiator_port = conn.initiator_port;
  registered_target_port = conn.target_port;
  pg_idx = 0;
  pg_tag = 1;
  initiator_ports = [];
  all_tpg = false;
}

abbrev pub task_of : Conn → ℕ → Task
task_of conn sn = record {
  initiator_port = conn.initiator_port;
  cmd_sn = sn;
  error = false;
  abort = false;
}

-- Alice and Bob are registered, and each has a command queued.
abbrev pub shared : LuDisk
shared = record fresh {
  cmd_queue = task_of alice 1 ∷ task_of bob 2 ∷ [];
  pr_keys = key_of alice 5 ∷ key_of bob 6 ∷ [];
}

-- Alice holds a reservation for exclusive access.
abbrev pub held : LuDisk
held = record shared { rsv_port = some (97 ∷ []); rsv_key = 5; rsv_scope = 0; rsv_type = 3 }

abbrev pub blank : LuCmd
blank = record { status = 0; sense = [] }

abbrev pub params : ℕ → ℕ → ℕ → Params
params rkey sarkey rsv_type = record {
  scope = 0;
  rsv_type = rsv_type;
  rkey = rkey;
  sarkey = sarkey;
  spec_i_pt = false;
  all_tg_pt = false;
  aptpl = false;
  bytes = buf_of [];
  len = 24;
}

pub held-IsValid : IsValid held
unfolding strlwr
held-IsValid = record {
  bounded = omega arith;
  registrations = (
    record { keyed = omega arith; initiator_lower = refl; target_lower = refl },
    (record { keyed = omega arith; initiator_lower = refl; target_lower = refl }, tt),
  );
  generation = omega arith;
  held = λ h e. cc;
}
