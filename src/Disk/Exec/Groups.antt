-- ===== src/Disk/Exec/Groups.antt =====
-- REPORT TARGET PORT GROUPS and SET TARGET PORT GROUPS (src/istgt/istgt_lu_disk.c:
-- istgt_lu_disk_scsi_report_target_port_groups, istgt_lu_disk_scsi_set_target_port_groups, and
-- their cases of istgt_lu_disk_execute).
use mathlib.Core.Option
use istgt.Prelude.{
  ℕ, zero, suc, ◌+◌, ◌-◌, ◌/◌, ◌%◌, ◌^◌, List, [], ◌∷◌, ◌++◌, map, Bool, true, false, ◌||◌, not,
  Option, none, some, if◌then◌else◌, ◌==◌, ltb, leb, length, any,
}
use istgt.Misc.Bytes.{Buf, at_offset, dget16, dget32, dset16, dset32, bget8w}
use istgt.Disk.Sense.{illegal_request}
use istgt.Disk.Io.Block.{transfer_data}
use istgt.Disk.Pr.Check.{allow_write}
use istgt.Disk.Exec.{
  PortMap, PortalGroup, State, Env, rejected, rejected_with, accepted, if_admitted, respond_within,
}

-- The ports of one portal group, numbered from `1 + ridx` on.
unfoldable pub port_descriptors : (ridx nports : ℕ) → List ℕ
unfolding dset16
port_descriptors ridx zero = []
port_descriptors ridx (suc n) = dset16 0 ++ (dset16 (1 + ridx) ++ port_descriptors (suc ridx) n)

-- The ports of the portal groups with the tag.
unfoldable pub group_ports : (pg_tag ridx : ℕ) → List PortalGroup → List ℕ
unfolding port_descriptors
group_ports pg_tag ridx [] = []
group_ports pg_tag ridx (g ∷ groups) =
    (if g.tag == pg_tag then port_descriptors ridx g.nportals else [])
    ++ group_ports pg_tag (ridx + g.nportals) groups

-- The access states that the report knows: active/optimized, active/non-optimized, standby,
-- unavailable and transitioning.
unfoldable pub reported_aas : ℕ → ℕ
reported_aas aas = let state = aas % 2 ^ 4 in if leb state 0x03 || state == 0x0f then state else 0

unfoldable pub status_code : ℕ → ℕ
status_code aas = if aas / 0x0200 % 2 == 1 then 0x02 else if aas / 0x0100 % 2 == 1 then 0x01 else 0

-- One target port group descriptor, or `none` where it has more than 255 ports.
unfoldable pub group_descriptor : List PortalGroup → PortMap → Option (List ℕ)
unfolding reported_aas status_code group_ports dset16
group_descriptor groups m =
    let ports = group_ports m.pg_tag 0 groups in
    let nports = length ports / 4 in
    if ltb 0xff nports
    then none
    else some (
        (0x80 + reported_aas m.pg_aas)
        ∷ 0x03
        ∷ (dset16 m.pg_tag ++ 0 ∷ status_code m.pg_aas ∷ 0 ∷ nports ∷ ports))

-- The descriptors of the entries whose tag no entry in front of them has.
unfoldable pub group_descriptors : List PortalGroup → List ℕ → List PortMap → Option (List ℕ)
unfolding group_descriptor
group_descriptors groups seen [] = some []
group_descriptors groups seen (m ∷ ms) =
    let rest = group_descriptors groups (m.pg_tag ∷ seen) ms in
    if any (λ tag. tag == m.pg_tag) seen then rest else elim (group_descriptor groups m) [
      | none ↦ none
      | some bytes ↦ Option.map (λ more. bytes ++ more) rest
    ]

unfoldable pub report_target_port_groups :
    List PortalGroup → List PortMap → (alloc_len : ℕ) → Option (List ℕ)
unfolding group_descriptors dset32
report_target_port_groups groups ms alloc_len =
    if ltb alloc_len 0xfff then none else elim (group_descriptors groups [] ms) [
      | none ↦ none
      | some bytes ↦
          if ltb alloc_len (4 + length bytes) then none else some (dset32 (length bytes) ++ bytes)
    ]

-- AAS_STATUS_STPG
abbrev pub status_stpg : ℕ
status_stpg = 0x0100

-- Only the two active states can be set.
unfoldable pub is_settable : ℕ → Bool
is_settable aas = leb aas 0x01

unfoldable pub set_group : (pg aas : ℕ) → PortMap → PortMap
set_group pg aas m = if m.pg_tag == pg then record m { pg_aas = aas + status_stpg } else m

-- One descriptor, or `none` where its state cannot be set for a group that there is.
unfoldable pub apply_descriptor : Buf → List PortMap → Option (List PortMap)
unfolding is_settable set_group dget16 bget8w
apply_descriptor bytes ms =
    let aas = bget8w (bytes 0) 3 4 in
    let pg = dget16 (at_offset bytes 2) in
    if any (λ m. m.pg_tag == pg) ms
    then (if is_settable aas then some (map (set_group pg aas) ms) else none)
    else some ms

-- The map that is left, and whether the function returns 0. Every round takes four bytes off the
-- length, so as many rounds as there are bytes are enough. The call for the next descriptor is
-- given the same `data`.
unfoldable pub set_groups : (rounds : ℕ) → Buf → (len : ℕ) → List PortMap → List PortMap × Bool
unfolding apply_descriptor
set_groups zero bytes len ms = (ms, false)
set_groups (suc rounds) bytes len ms =
    if ltb len 4 then (ms, false) else elim (apply_descriptor bytes ms) [
      | none ↦ (ms, false)
      | some ms1 ↦ elim (len - 4) [
        | zero ↦ (ms1, true)
        | suc n ↦ set_groups rounds bytes (suc n) ms1
      ]
    ]

unfoldable pub set_target_port_groups : Buf → (len : ℕ) → List PortMap → List PortMap × Bool
unfolding set_groups
set_target_port_groups bytes len ms = set_groups (suc len) bytes len ms

-- `parameter_len - 4` as an `int`: from 2 ^ 31 on it is negative, which every test takes as 0.
unfoldable pub descriptors_length : ℕ → ℕ
descriptors_length parameter_len = if leb (2 ^ 31) (parameter_len - 4) then 0 else parameter_len - 4

module _ {ℓ} {σ : Type ℓ} (env : Env σ) where
  -- MAINTENANCE IN
  unfoldable pub maintenance_in : State σ → State σ
  unfolding respond_within
  maintenance_in s =
      if not (bget8w (s.cmd.cdb 1) 4 5 == 0x0a)
      then rejected_with illegal_request 0x20 0x00 s
      else if not s.cmd.r_bit
      then rejected s
      else respond_within (dget32 (at_offset s.cmd.cdb 6))
          (report_target_port_groups env.portal_groups s.map s.cmd.alloc_len) rejected s

  -- The parameter list of SET TARGET PORT GROUPS, once it has arrived.
  unfoldable pub set_groups_from : (parameter_len : ℕ) → State σ → State σ
  set_groups_from parameter_len s =
      let r =
        set_target_port_groups (at_offset s.cmd.io.iobuf 4) (descriptors_length parameter_len)
          s.map in
      if ltb parameter_len 4
      then rejected_with illegal_request 0x24 0x00 s
      else if r.1
      then accepted parameter_len (record s { map = r.0 })
      else rejected_with illegal_request 0x26 0x00 (record s { map = r.0 })

  unfoldable pub set_groups_case : State σ → State σ
  unfolding if_admitted set_groups_from
  set_groups_case = if_admitted env allow_write λ s.
      let parameter_len = dget32 (at_offset s.cmd.cdb 6) in
      if not s.cmd.w_bit
      then rejected s
      else if parameter_len == 0
      then accepted 0 s
      else elim (transfer_data env.transfer s.unit.blocks s.cmd.io parameter_len) [
        | none ↦ rejected s
        | some io ↦ set_groups_from parameter_len (record s { cmd = record s.cmd { io = io } })
      ]

  -- MAINTENANCE OUT
  unfoldable pub maintenance_out : State σ → State σ
  unfolding set_groups_case
  maintenance_out s =
      if bget8w (s.cmd.cdb 1) 4 5 == 0x0a
      then set_groups_case s
      else rejected_with illegal_request 0x20 0x00 s
