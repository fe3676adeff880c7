-- ===== src/Disk/Pr/Register/Ports.antt =====
-- Specified initiator ports (SPEC_I_PT) in a registration (src/istgt/istgt_lu_disk.c).
use istgt.Prelude.{ℕ, suc, ◌+◌, ◌-◌, ◌^◌, ◌<◌, [], true, none, ◌≡◌, arith}
use istgt.Misc.Bytes.{Buf, IsBytes, at_offset, dget32}
use istgt.Misc.Bytes.RoundTrip.{dget32_top}
use istgt.Disk.Types.{LuDisk, Conn, LuCmd, check_condition}
use istgt.Disk.Sense.{illegal_request}
use istgt.Disk.Pr.Params.{Params}
use istgt.Disk.Pr.TransportId.{malformed, parse_transport_id, parse_ids}
use istgt.Disk.Pr.Register.{register_ids, read_ids, do_register}

-- The parser refuses a TransportID whose first byte is below 8: its protocol identifier is not 8.
parse_transport_id_low : (b : Buf) (len : ℕ) → b 0 < 8 → parse_transport_id b len ≡ none
unfolding parse_transport_id
parse_transport_id_low b len h = ground arith

-- With room for a port the loop stops at the first TransportID.
parse_ids_low :
    (room : ℕ) (b : Buf) (plen : ℕ)
    → b 0 < 8
    → 0 < plen
    → parse_ids (suc room) b plen 0 [] ≡ malformed
unfolding parse_ids
parse_ids_low room b plen low pos = ground (arith, parse_transport_id_low b (plen - 0) low)

read_ids-malformed :
    (p : Params) (plen : ℕ)
    → p.bytes 24 < 8
    → 0 < plen
    → plen < 2 ^ 27
    → read_ids p plen ≡ malformed
unfolding read_ids
read_ids-malformed p plen low pos small =
    ground (arith, parse_ids_low 255 (at_offset p.bytes 24) plen low pos)

-- A registration that specifies initiator ports never succeeds: for every parameter list of bytes
-- that announces at least one and fewer than 2 ^ 27 bytes of TransportIDs, it is refused with
-- INVALID FIELD IN PARAMETER LIST and the unit is left as it was, also where the list is well
-- formed.
pub do_register-ports_refused :
    (spec : LuDisk) (conn : Conn) (cmd : LuCmd) (p : Params)
    → IsBytes p.bytes
    → p.spec_i_pt ≡ true
    → 0 < dget32 (at_offset p.bytes 24)
    → dget32 (at_offset p.bytes 24) < 2 ^ 27
    → do_register spec conn cmd p ≡ check_condition illegal_request 0x26 0x00 spec cmd
unfolding do_register register_ids
do_register-ports_refused spec conn cmd p b s pos small =
    let low : p.bytes 24 < 8 = dget32_top (at_offset p.bytes 24) (λ i. b (24 + i)) small in
    ground (arith, read_ids-malformed p (dget32 (at_offset p.bytes 24)) low pos small)
