-- ===== src/Disk/Pr/TransportId.antt =====
-- The TransportIDs of a registration (src/istgt/istgt_lu_disk.c, istgt_lu_parse_transport_id and
-- the loop that calls it).
use istgt.Prelude.{
  ℕ, zero, suc, ◌+◌, ◌-◌, List, [], ◌∷◌, ◌++◌, true, false, Option, none, some, if◌then◌else◌, Name,
  strlwr, ◌==◌, ◌!=◌, ltb,
}
use istgt.Misc.Bytes.{Buf, at_offset, dget16, bget8w}
use istgt.Disk.Types.{max_iscsi_name}

-- SPC_VPD_IDENTIFIER_TYPE_SCSI_NAME
abbrev pub identifier_type_scsi_name : ℕ
identifier_type_scsi_name = 0x08

-- The string that `n` bytes and a NUL behind them make.
unfoldable pub c_string : Buf → ℕ → Name
c_string b zero = []
c_string b (suc n) = let rest = c_string (at_offset b 1) n in if b 0 == 0 then [] else b 0 ∷ rest

-- The name, and the length of the TransportID.
unfoldable pub parse_transport_id : Buf → ℕ → Option (Name × ℕ)
unfolding dget16 bget8w c_string strlwr
parse_transport_id b len =
    let plen = dget16 (at_offset b 2) in
    if bget8w (b 0) 7 2 != 0
    then none
    else if bget8w (b 0) 3 4 != identifier_type_scsi_name
    then none
    else if ltb len plen
    then none
    else if ltb max_iscsi_name plen
    then none
    else some (strlwr (c_string b plen), 4 + plen)

-- How the loop over the TransportIDs ends.
pub data Ids : Type 0 where
  ports : List Name → Ids
  too_many : Ids
  malformed : Ids

-- The loop while `total < plen`, with room for `room` more ports, from `&data[24]` on.
unfoldable pub parse_ids : ℕ → Buf → ℕ → ℕ → List Name → Ids
unfolding parse_transport_id
parse_ids zero b plen total acc = if ltb total plen then too_many else ports acc
parse_ids (suc room) b plen total acc = elim (ltb total plen) [
  | true ↦ elim (parse_transport_id (at_offset b total) (plen - total)) [
    | none ↦ malformed
    | some (tid, n) ↦ parse_ids room b plen (total + n) (acc ++ tid ∷ [])
  ]
  | false ↦ ports acc
]
