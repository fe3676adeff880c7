-- ===== src/Disk/Pr/Register.antt =====
-- The service actions REGISTER and REGISTER AND IGNORE EXISTING KEY of PERSISTENT RESERVE OUT
-- (src/istgt/istgt_lu_disk.c).
pub mod Laws
pub mod Ports
pub mod Nexus
use istgt.Prelude.{
  ℕ, ◌+◌, ◌-◌, ◌%◌, ◌^◌, List, [], ◌∷◌, ◌++◌, Bool, true, false, ◌&&◌, ◌||◌, not, Option, none,
  some, if◌then◌else◌, Name, strlwr, ◌==◌, ◌!=◌, ltb, leb, any, length, replicate,
}
use istgt.Misc.Bytes.{Buf, at_offset, dget32}
use istgt.Disk.Types.{
  PrKey, LuDisk, Conn, LuCmd, Reply, max_lu_reserve, max_lu_reserve_ipt, check_condition,
  reservation_conflict, good,
}
use istgt.Disk.Sense.{illegal_request}
use istgt.Disk.Pr.Keys.{find_pr_key, remove_pr_key}
use istgt.Disk.Pr.Params.{Params, next_generation}
use istgt.Disk.Pr.TransportId.{Ids, ports, too_many, malformed, parse_ids}

-- A registration of the I_T nexus that the command came through.
unfoldable pub new_key : Conn → Params → List Name → PrKey
new_key conn p initiator_ports = record {
  key = p.sarkey;
  registered_initiator_port = strlwr conn.initiator_port;
  registered_target_port = strlwr conn.target_port;
  pg_idx = conn.portal_idx;
  pg_tag = conn.portal_tag;
  initiator_ports = initiator_ports;
  all_tpg = p.all_tg_pt;
}

-- Everything from `idx = spec->npr_keys` behind the specified ports on.
unfoldable pub register_nexus : LuDisk → Conn → LuCmd → Params → List Name → Reply
unfolding new_key next_generation
register_nexus spec conn cmd p initiator_ports =
    if leb max_lu_reserve (length spec.pr_keys)
    then check_condition illegal_request 0x55 0x04 spec cmd
    else good
        (next_generation (record spec {
          rsv_key = if p.rkey != 0 && spec.rsv_key == p.rkey then p.sarkey else spec.rsv_key;
          pr_keys = spec.pr_keys ++ new_key conn p initiator_ports ∷ [];
        }))
        cmd

-- A registered port of any target port.
unfoldable pub is_registered : LuDisk → Name → Bool
is_registered spec port = elim (find_pr_key spec (some port) none 0) [
  | none ↦ false
  | some _ ↦ true
]

-- The specified ports, once their names are read.
unfoldable pub register_ports : LuDisk → Conn → LuCmd → Params → List Name → Reply
unfolding register_nexus is_registered new_key
register_ports spec conn cmd p initiator_ports =
    if any (is_registered spec) initiator_ports
    then check_condition illegal_request 0x24 0x00 spec cmd
    else if leb max_lu_reserve (length spec.pr_keys + length initiator_ports)
    then check_condition illegal_request 0x55 0x04 spec cmd
    else register_nexus
        (record spec {
          pr_keys = spec.pr_keys ++ replicate (length initiator_ports) (new_key conn p []);
        })
        conn cmd p initiator_ports

-- The names behind a length that an `int` holds: a length from 2 ^ 31 on is negative there, and
-- the loop ends at once.
unfoldable pub read_ids : Params → ℕ → Ids
read_ids p plen =
    if leb (2 ^ 31) plen
    then ports []
    else parse_ids max_lu_reserve_ipt (at_offset p.bytes 24) plen 0 []

-- `28 + plen > len` on `int`s: from 2 ^ 31 - 28 on the sum wraps to a negative number.
unfoldable pub exceeds : ℕ → ℕ → Bool
exceeds plen len =
    if leb (2 ^ 31) plen
    then leb (2 ^ 32) (28 + plen) && ltb len (28 + plen - 2 ^ 32)
    else if leb (2 ^ 31) (28 + plen)
    then false
    else ltb len (28 + plen)

-- What follows the loop over the TransportIDs.
unfoldable pub register_ids : LuDisk → Conn → LuCmd → Params → Ids → Reply
unfolding register_ports
register_ids spec conn cmd p (ports names) = register_ports spec conn cmd p names
register_ids spec conn cmd p too_many = check_condition illegal_request 0x55 0x04 spec cmd
register_ids spec conn cmd p malformed = check_condition illegal_request 0x26 0x00 spec cmd

-- The label `do_register`.
unfoldable pub do_register : LuDisk → Conn → LuCmd → Params → Reply
unfolding register_nexus register_ids exceeds dget32
do_register spec conn cmd p =
    if not p.spec_i_pt
    then register_nexus spec conn cmd p []
    else if ltb p.len 28
    then check_condition illegal_request 0x26 0x00 spec cmd
    else if exceeds (dget32 (at_offset p.bytes 24)) p.len
    then check_condition illegal_request 0x26 0x00 spec cmd
    else register_ids spec conn cmd p (read_ids p (dget32 (at_offset p.bytes 24)))

-- `unregister?`, and the jump to `do_register`
unfoldable pub unregister_or_register : LuDisk → Conn → LuCmd → Params → Reply
unfolding do_register
unregister_or_register spec conn cmd p =
    if p.sarkey == 0 then good spec cmd else do_register spec conn cmd p

-- The existing registrations of the I_T nexus go.
unfoldable pub without_nexus : LuDisk → Conn → LuDisk
without_nexus spec conn = remove_pr_key spec (some conn.initiator_port) (some conn.target_port) 0

unfoldable pub register : LuDisk → Conn → LuCmd → Params → Reply
unfolding unregister_or_register without_nexus
register spec conn cmd p =
    if p.aptpl
    then check_condition illegal_request 0x26 0x00 spec cmd
    else elim (find_pr_key spec (some conn.initiator_port) (some conn.target_port) 0) [
      | none ↦
          if p.rkey != 0
          then reservation_conflict spec cmd
          else unregister_or_register spec conn cmd p
      | some _ ↦
          if p.spec_i_pt
          then check_condition illegal_request 0x24 0x00 spec cmd
          else elim (find_pr_key spec (some conn.initiator_port) (some conn.target_port) p.rkey) [
            | none ↦ reservation_conflict spec cmd
            | some _ ↦ unregister_or_register (without_nexus spec conn) conn cmd p
          ]
    ]

unfoldable pub register_ignore : LuDisk → Conn → LuCmd → Params → Reply
unfolding unregister_or_register without_nexus
register_ignore spec conn cmd p =
    if p.aptpl
    then check_condition illegal_request 0x26 0x00 spec cmd
    else elim (find_pr_key spec (some conn.initiator_port) (some conn.target_port) 0) [
      | none ↦
          if p.sarkey != 0 && p.spec_i_pt
          then check_condition illegal_request 0x24 0x00 spec cmd
          else if p.sarkey == 0
          then good spec cmd
          else unregister_or_register (without_nexus spec conn) conn cmd p
      | some _ ↦
          if p.spec_i_pt
          then check_condition illegal_request 0x24 0x00 spec cmd
          else unregister_or_register (without_nexus spec conn) conn cmd p
    ]
