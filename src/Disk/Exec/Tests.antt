-- ===== src/Disk/Exec/Tests.antt =====
-- The theorems on commands at a unit of four blocks of two bytes, in memory.
use istgt.Prelude.{
  List, map, inl, replicate, ◌≡◌, inr, refl, [], ◌∷◌, length, get_elem?, true, false, none, some,
  arith,
}
use istgt.Misc.Bytes.{Buf, buf_of, bget8}
use istgt.Disk.Types.{Conn, status_check_condition, status_reservation_conflict}
use istgt.Disk.Sense.{build_sense_data}
use istgt.Disk.Io.Memory.{memory, memory-IsMedium}
use istgt.Disk.Pr.Keys.{find_pr_key}
use istgt.Disk.Pr.Check.{allow_write, admits}
use istgt.Disk.Pr.Valid.{IsValid}
use istgt.Disk.Pr.Valid.Out.{fresh}
use istgt.Disk.Exec.{DiskUnit, PortMap, Cmd, State, Env, finish_with, with_cmd}
use istgt.Disk.Exec.Lun.{islun2lun}
use istgt.Disk.Exec.Select.{mode_select_page}
use istgt.Disk.Exec.Groups.{set_target_port_groups, apply_descriptor}
use istgt.Disk.Exec.Opcode.{opcode_of}
use istgt.Disk.Exec.Execute.{execute_unit, LuState}
use istgt.Disk.Exec.Guarded.{execute_unit-conflict}
use istgt.Disk.Exec.Sound.{IsSound, step, start, next, execute_unit-contents, Reach-IsSound}
use istgt.Disk.Exec.Pending.{AsksIdentity, OnlyDeferred, execute_all, execute_all-unit_sense}
use istgt.Disk.Exec.Boundary.{set_target_port_groups_lem}
use istgt.Disk.Exec.Units.{is_present, execute_each, execute_each-others}
use istgt.Disk.Exec.Pages.{ModePage, IsPlain, page_list, mode_select_page_lem}

abbrev alice : Conn
alice = record {
  initiator_name = 97 ∷ [];
  initiator_port = 97 ∷ [];
  target_port = 116 ∷ [];
  portal_idx = 0;
  portal_tag = 1;
}

abbrev unit : DiskUnit Buf
unit = record {
  reservations = fresh;
  blocks = record {
    medium = buf_of (10 ∷ 11 ∷ 12 ∷ 13 ∷ 14 ∷ 15 ∷ 16 ∷ 17 ∷ []);
    blockcnt = 4;
    blocklen = 2;
    readonly = false;
    queue_depth = 0;
    watssize = none;
    req_write_cache = false;
  };
  unit_sense = 0;
  err_write_cache = false;
  woffset = 0;
  read_cache = true;
  write_cache = true;
}

-- Reserved for exclusive access by another port.
abbrev reserved : DiskUnit Buf
reserved = record unit {
  reservations = record fresh { rsv_port = some (98 ∷ []); rsv_key = 1; rsv_type = 0x03 };
}

abbrev archive : DiskUnit Buf
archive = record unit { blocks = record unit.blocks { readonly = true } }

-- WRITE (10) of one block at address 1; READ (10) of it; SYNCHRONIZE CACHE (10) from address 1 on.
abbrev cmd : Buf → Cmd
cmd cdb = record {
  cdb = cdb;
  lun = 0;
  r_bit = true;
  w_bit = true;
  transfer_len = 16;
  alloc_len = 16;
  status = 0;
  io = record { iobuf = buf_of []; iobufsize = 16; data_buf = none; data_len = 0; sense = [] };
}

abbrev write_one : Cmd
write_one = cmd (buf_of (0x2a ∷ 0 ∷ 0 ∷ 0 ∷ 0 ∷ 1 ∷ 0 ∷ 0 ∷ 1 ∷ 0 ∷ []))

abbrev read_one : Cmd
read_one = cmd (buf_of (0x28 ∷ 0 ∷ 0 ∷ 0 ∷ 0 ∷ 1 ∷ 0 ∷ 0 ∷ 1 ∷ 0 ∷ []))

abbrev sync_rest : Cmd
sync_rest = cmd (buf_of (0x35 ∷ 0 ∷ 0 ∷ 0 ∷ 0 ∷ 1 ∷ 0 ∷ 0 ∷ 0 ∷ 0 ∷ []))

abbrev env : Env Buf
env = record {
  backend = memory 8;
  os = record { destroy_ok = λ _. true; trylock_ok = λ _. true };
  transfer = λ b bufsize len. some (buf_of (1 ∷ 2 ∷ []));
  fcntl_ok = true;
  portal_groups = [];
  lun_present = true ∷ [];
  ids = record { lui = 7; digest = λ name lui. 1 ∷ [] };
  conn = alice;
  inquiry = λ u cdb n. none;
  mode_sense6 = λ u cdb n. none;
  mode_sense10 = λ u cdb n. none;
}

abbrev with_unit : DiskUnit Buf → Cmd → State Buf
with_unit u c = record {
  unit = u;
  map = [];
  io_conn = record { worksize = none };
  cmd = c;
  faulted = false;
}

conflicting : admits reserved.reservations alice allow_write ≡ false
unfolding admits find_pr_key
conflicting = refl

execute_unit-conflict_example :
    execute_unit env (with_unit reserved write_one)
    ≡ finish_with status_reservation_conflict (with_unit reserved write_one)
unfolding opcode_of buf_of
execute_unit-conflict_example =
    execute_unit-conflict env (with_unit reserved write_one) allow_write refl conflicting refl refl

execute_unit-contents_example :
    (execute_unit env (with_unit archive write_one)).unit.blocks.medium 2 ≡ 12
unfolding buf_of
execute_unit-contents_example =
    execute_unit-contents (λ s. s) env (memory-IsMedium 8) (with_unit archive write_one) 2
      (inr refl)

abbrev who_are_you : Cmd
who_are_you = cmd (buf_of (0x12 ∷ 0 ∷ 0 ∷ 0 ∷ 96 ∷ 0 ∷ []))

execute_all-unit_sense_example :
    let s = with_unit (record unit { unit_sense = 0x062900 }) read_one in
    let u = execute_all ((env, who_are_you) ∷ (env, who_are_you) ∷ []) s in
    let t = execute_unit env (with_cmd read_one u) in
    OnlyDeferred s.unit u.unit
    × (t.cmd.status ≡ status_check_condition)
    × (t.cmd.io.sense ≡ build_sense_data 0x06 0x29 0x00)
    × (t.unit ≡ record u.unit { unit_sense = 0 })
unfolding buf_of AsksIdentity
execute_all-unit_sense_example =
    execute_all-unit_sense ((env, who_are_you) ∷ (env, who_are_you) ∷ []) env read_one
      (with_unit (record unit { unit_sense = 0x062900 }) read_one) (inl refl, (inl refl, tt))
      (omega arith) (omega arith) (omega arith)

-- Two descriptors, of which the second one names another group.
abbrev descriptors : Buf
descriptors = buf_of (0x01 ∷ 0 ∷ 0 ∷ 1 ∷ 0x01 ∷ 0 ∷ 0 ∷ 2 ∷ [])

abbrev groups : List PortMap
groups = record { pg_tag = 1; pg_aas = 0 } ∷ record { pg_tag = 2; pg_aas = 0 } ∷ []

set_target_port_groups_lem_example :
    set_target_port_groups descriptors 8 groups
    ≡ (record { pg_tag = 1; pg_aas = 0x0101 } ∷ record { pg_tag = 2; pg_aas = 0 } ∷ [], true)
unfolding apply_descriptor buf_of
set_target_port_groups_lem_example = set_target_port_groups_lem descriptors 1 groups

-- The control page, and the caching page with WCE and RCD.
abbrev pages : List ModePage
pages =
    record { code = 0x0a; body = 0 ∷ 0 ∷ [] }
    ∷ record { code = 0x08; body = 0x05 ∷ replicate 17 0 }
    ∷ []

mode_select_page_lem_example :
    mode_select_page true true (buf_of (page_list pages)) (length (page_list pages)) unit
    ≡ record unit { write_cache = true; read_cache = false }
unfolding IsPlain buf_of bget8
mode_select_page_lem_example = mode_select_page_lem true pages unit (refl, (refl, tt))

-- A WRITE and a READ, on a read-only unit.
unit-IsValid : IsValid fresh
unit-IsValid = ground arith

Reach-IsSound_example :
    IsSound
      (λ s. s)
      archive.blocks
      (execute_unit env (with_cmd read_one (execute_unit env (with_unit archive write_one))))
Reach-IsSound_example =
    Reach-IsSound (memory 8) (λ s. s) (memory-IsMedium 8)
      (record { valid = unit-IsValid; no_fault = refl })
      (next (next start (step env (with_unit archive write_one) write_one refl))
        (step env (execute_unit env (with_unit archive write_one)) read_one refl))

-- Two units, and a command to the first one.
abbrev two_units : LuState Buf
two_units = record {
  slots = some unit ∷ some archive ∷ [];
  map = [];
  io_conn = record { worksize = none };
  cmd = write_one;
  faulted = false;
}

execute_each-others_example :
    (get_elem? (execute_each ((env, write_one) ∷ (env, read_one) ∷ []) two_units).slots 1
      ≡ some (some archive))
    × (map is_present (execute_each ((env, write_one) ∷ (env, read_one) ∷ []) two_units).slots
        ≡ true ∷ true ∷ [])
unfolding islun2lun
execute_each-others_example =
    execute_each-others ((env, write_one) ∷ (env, read_one) ∷ []) two_units 1
      (omega arith, (omega arith, tt))
