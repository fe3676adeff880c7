-- ===== src/Disk/Pr/Tests/Responses.antt =====
-- The theorems on the arrays and lists of a unit, on its responses, and on RESERVE, at concrete
-- units.
use istgt.Prelude.{
  ℕ, Name, false, str_case_eq, str_eq, ◌+◌, ◌*◌, [], ◌∷◌, ◌++◌, true, some, ◌≡◌, refl, arith,
  length, replicate, strlwr,
}
use istgt.Misc.Bytes.{at_offset, IsBytes, dget32, buf_of, dset32}
use istgt.Misc.Bytes.RoundTrip.{buf_of-IsBytes}
use istgt.Disk.Types.{Task, LuDisk, ret, check_condition}
use istgt.Disk.Sense.{illegal_request}
use istgt.Disk.Tasks.{queue_clear_internal}
use istgt.Disk.Tasks.Clear.{belongs, marked_if, queue_clear_internal_lem}
use istgt.Disk.Pr.Params.{Params}
use istgt.Disk.Pr.Register.{do_register}
use istgt.Disk.Pr.Register.Ports.{do_register-ports_refused}
use istgt.Disk.Pr.Reserve.Exclusion.{holds_key}
use istgt.Disk.Pr.Check.{allow_read, allow_write, admits}
use istgt.Disk.Pr.Legacy.{get_rkey, scsi_reserve}
use istgt.Disk.Pr.Legacy.Laws.{scsi_reserve-admits, registered}
use istgt.Disk.Pr.In.{read_keys, persistent_reserve_in}
use istgt.Disk.Pr.In.Decode.{decode_keys, persistent_reserve_in-keys}
use istgt.Disk.Pr.Valid.Out.{fresh}
use istgt.Disk.Pr.Tests.{os, ids, alice, bob, held, blank, params}

-- A command of `a` waits, and one of `a` and one of `b` are queued; the command 3 of `a` is cleared.
abbrev command : Name → ℕ → Task
command port cmd_sn = record {
  initiator_port = port;
  cmd_sn = cmd_sn;
  error = false;
  abort = false;
}

abbrev busy : LuDisk
busy = record held {
  cmd_queue = command (97 ∷ []) 4 ∷ command (98 ∷ []) 3 ∷ command (97 ∷ []) 3 ∷ [];
  wait_lu_task = some (command (97 ∷ []) 3);
}

queue_clear_internal_lem_example : queue_clear_internal os busy (97 ∷ []) false 3 ≡ (
  record held {
    cmd_queue = command (97 ∷ []) 4 ∷ command (98 ∷ []) 3 ∷ [];
    wait_lu_task = some (record (command (97 ∷ []) 3) { error = true; abort = true });
  },
  ret 0,
)
unfolding belongs marked_if str_case_eq str_eq strlwr
queue_clear_internal_lem_example = queue_clear_internal_lem os busy (97 ∷ []) false 3 (λ t. refl)

-- A parameter list that specifies one initiator port, as SPC-3 lays it out.
abbrev one_port : Params
one_port = record (params 0 5 0) {
  spec_i_pt = true;
  bytes = buf_of (replicate 24 0 ++ (dset32 8 ++ 5 ∷ 0 ∷ 0 ∷ 4 ∷ 97 ∷ 98 ∷ 99 ∷ 0 ∷ []));
  len = 36;
}

one_port-IsBytes : IsBytes one_port.bytes
unfolding buf_of dset32
one_port-IsBytes i =
    buf_of-IsBytes (replicate 24 0 ++ (dset32 8 ++ 5 ∷ 0 ∷ 0 ∷ 4 ∷ 97 ∷ 98 ∷ 99 ∷ 0 ∷ []))
      (omega arith) i

do_register-ports_refused_example :
    do_register fresh alice blank one_port ≡ check_condition illegal_request 0x26 0x00 fresh blank
unfolding buf_of dset32 dget32
do_register-ports_refused_example =
    do_register-ports_refused fresh alice blank one_port one_port-IsBytes refl (omega arith)
      (omega arith)

scsi_reserve-admits_example :
    let s = (scsi_reserve os ids fresh alice blank).spec in
    (admits s alice allow_read ≡ true)
    × (admits s alice allow_write ≡ true)
    × (admits s bob allow_read
        ≡ holds_key (registered os ids fresh alice blank) bob (get_rkey ids (97 ∷ [])))
    × (admits s bob allow_write
        ≡ holds_key (registered os ids fresh alice blank) bob (get_rkey ids (97 ∷ [])))
unfolding get_rkey strlwr
scsi_reserve-admits_example =
    scsi_reserve-admits os ids fresh alice blank refl refl (omega arith) refl (omega arith) bob

persistent_reserve_in-keys_example :
    ((persistent_reserve_in held blank 0x00).0 ≡ some (read_keys held))
    × (dget32 (buf_of (read_keys held)) ≡ 0)
    × (dget32 (at_offset (buf_of (read_keys held)) 4) ≡ 8 * 2)
    × (decode_keys 2 (at_offset (buf_of (read_keys held)) 8) ≡ 5 ∷ 6 ∷ [])
    × (length (read_keys held) ≡ 8 + 8 * 2)
persistent_reserve_in-keys_example =
    persistent_reserve_in-keys held blank (omega arith) (omega arith) (omega arith)
