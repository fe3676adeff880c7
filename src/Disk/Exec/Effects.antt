-- ===== src/Disk/Exec/Effects.antt =====
-- Which part of the state each case of istgt_lu_disk_execute can change
-- (src/istgt/istgt_lu_disk.c).
use istgt.Prelude.{
  ℕ, zero, suc, ◌+◌, ◌-◌, ◌%◌, ◌^◌, Bool, true, false, ◌≡◌, ◌⊎◌, ◌∙◌, inl, inr, refl, arith,
  Option-cases, ◌==◌, ◌!=◌, ltb, if◌then◌else◌,
}
use istgt.Misc.Bytes.{Buf, at_offset, bget8, dget16}
use istgt.Disk.Io.Block.{transfer_data}
use istgt.Disk.Exec.{
  DiskUnit, State, Env, if_admitted, respond, respond_within, after_io, after_reply,
}
use istgt.Disk.Exec.Blocks.{
  read_blocks, read_long, write_blocks, write_long, same_blocks, flush, read_6, read_10, read_12,
  read_16, write_6, write_10, write_12, write_16, verify, write_same_10, write_same_16,
  compare_and_write, synchronize_cache_10, synchronize_cache_16,
}
use istgt.Disk.Exec.Info.{
  inquiry_case, report_luns_case, test_unit_ready, start_stop_unit, read_capacity_10,
  read_capacity_16, service_action_in, mode_sense_6, mode_sense_10, unsupported, request_sense,
  read_defect_data_10, read_defect_data_12,
}
use istgt.Disk.Exec.Select.{
  select_caching, select_pages, mode_select_page, mode_select, mode_select_6, mode_select_10,
  page_header, page_length, page_bytes,
}
use istgt.Disk.Exec.Groups.{set_groups_from, set_groups_case, maintenance_in, maintenance_out}
use istgt.Disk.Exec.Reservation.{
  reserve_in_case, reserve_out_from, reserve_out_case, release_case, reserve_case,
}
use istgt.Disk.Exec.Opcode.{
  Opcode, mode_select_6_op, mode_select_10_op, read_6_op, read_10_op, read_12_op, read_16_op,
  write_6_op, write_10_op, write_12_op, write_16_op, write_same_10_op, write_same_16_op,
  compare_and_write_op, synchronize_10_op, synchronize_16_op, maintenance_out_op, reserve_out_op,
  release_op, reserve_op,
}
use istgt.Disk.Exec.Execute.{run}

-- The part of the state that a command is about.
pub data Part : Type 0 where
  nothing : Part
  caches : Part
  groups : Part
  reserving : Part
  reading : Part
  writing : Part

abbrev pub part_of : Opcode → Part
part_of mode_select_6_op = caches
part_of mode_select_10_op = caches
part_of maintenance_out_op = groups
part_of reserve_out_op = reserving
part_of release_op = reserving
part_of reserve_op = reserving
part_of read_6_op = reading
part_of read_10_op = reading
part_of read_12_op = reading
part_of read_16_op = reading
part_of synchronize_10_op = reading
part_of synchronize_16_op = reading
part_of write_6_op = writing
part_of write_10_op = writing
part_of write_12_op = writing
part_of write_16_op = writing
part_of write_same_10_op = writing
part_of write_same_16_op = writing
part_of compare_and_write_op = writing
part_of _ = nothing

module _ {σ : Type 0} (env : Env σ) (s : State σ) where
  pub run-nothing :
      (op : Opcode)
      → part_of op ≡ nothing
      → ((run env op s).unit ≡ s.unit)
        × ((run env op s).map ≡ s.map)
        × ((run env op s).faulted ≡ s.faulted)
  unfolding run inquiry_case report_luns_case test_unit_ready start_stop_unit read_capacity_10
      service_action_in read_capacity_16 mode_sense_6 mode_sense_10 unsupported request_sense
      read_defect_data_10 read_defect_data_12 verify maintenance_in reserve_in_case respond_within
      respond if_admitted
  run-nothing op h = ground arith

-- Two states of a unit that differ in its caches at most.
record SameUnit {σ : Type 0} (u v : DiskUnit σ) : Type 0 where
  blocks_same : v.blocks ≡ u.blocks
  reservations_same : v.reservations ≡ u.reservations

if-SameUnit :
    {σ : Type 0} {u v w : DiskUnit σ} (c : Bool)
    → SameUnit u v
    → SameUnit u w
    → SameUnit u (if c then v else w)
if-SameUnit true h k = h
if-SameUnit false h k = k

module _ {σ : Type 0} (fcntl_ok : Bool) where
  SameUnit-refl : (u : DiskUnit σ) → SameUnit u u
  SameUnit-refl u = record { blocks_same = refl; reservations_same = refl }

  select_caching-SameUnit :
      (page : Buf) (u : DiskUnit σ) → SameUnit u (select_caching fcntl_ok page u)
  unfolding select_caching
  select_caching-SameUnit page u =
      if-SameUnit _ (SameUnit-refl u)
        (if-SameUnit _ (SameUnit-refl u) (record { blocks_same = refl; reservations_same = refl }))

  one_page-SameUnit :
      (page : Buf) (u : DiskUnit σ)
      → SameUnit u (if page 0 % 2 ^ 6 == 0x08 then select_caching fcntl_ok page u else u)
  one_page-SameUnit page u = if-SameUnit _ (select_caching-SameUnit page u) (SameUnit-refl u)

  SameUnit-trans : {u v w : DiskUnit σ} → SameUnit u v → SameUnit v w → SameUnit u w
  SameUnit-trans h k = record {
    blocks_same = k.blocks_same ∙ h.blocks_same;
    reservations_same = k.reservations_same ∙ h.reservations_same;
  }

  select_pages-SameUnit :
      (rounds : ℕ) (page : Buf) (len : ℕ) (u : DiskUnit σ)
      → SameUnit u (select_pages fcntl_ok rounds page len u)
  unfolding select_pages
  select_pages-SameUnit zero page len u = SameUnit-refl u
  select_pages-SameUnit (suc rounds) page len u =
      let one = one_page-SameUnit page u in
      let rest =
        select_pages-SameUnit rounds (at_offset page (page_length page)) (len - page_length page)
          (if page 0 % 2 ^ 6 == 0x08 then select_caching fcntl_ok page u else u) in
      if-SameUnit (ltb len 1) (SameUnit-refl u) (
        if-SameUnit (ltb len (page_header page)) (SameUnit-refl u) (
          if-SameUnit (ltb len (page_length page)) (SameUnit-refl u)
            (if-SameUnit (len - page_length page == 0) one (SameUnit-trans one rest))))

  mode_select_page-SameUnit :
      (pf : Bool) (page : Buf) (len : ℕ) (u : DiskUnit σ)
      → SameUnit u (mode_select_page fcntl_ok pf page len u)
  unfolding mode_select_page
  mode_select_page-SameUnit pf page len u =
      if-SameUnit _ (select_pages-SameUnit len page len u) (SameUnit-refl u)

module _ {σ : Type 0} (env : Env σ) (s : State σ) where
  -- MODE SELECT changes the caches of the unit and the command.
  mode_select-same :
      (pllen header : ℕ) (f : Buf → ℕ)
      → let t = mode_select env pllen header f s in
        (t.unit.blocks ≡ s.unit.blocks)
        × (t.unit.reservations ≡ s.unit.reservations)
        × (t.map ≡ s.map)
        × (t.faulted ≡ s.faulted)
  unfolding mode_select
  mode_select-same pllen header f =
      elim (Option-cases (transfer_data env.transfer s.unit.blocks s.cmd.io pllen)) [
        | inl e ↦ ground (arith, e)
        | inr (io, e) ↦
            let start = header + f io.iobuf in
            let same =
              mode_select_page-SameUnit env.fcntl_ok (bget8 (s.cmd.cdb 1) 4 != 0)
                (at_offset io.iobuf start) (page_bytes pllen start) s.unit in
            ground (arith, e, same.blocks_same, same.reservations_same)
      ]

  pub run-caches :
      (op : Opcode)
      → part_of op ≡ caches
      → ((run env op s).unit.blocks ≡ s.unit.blocks)
        × ((run env op s).unit.reservations ≡ s.unit.reservations)
        × ((run env op s).map ≡ s.map)
        × ((run env op s).faulted ≡ s.faulted)
  unfolding run mode_select_6 mode_select_10 if_admitted
  run-caches mode_select_6_op h = ground (arith, mode_select-same (s.cmd.cdb 4) 4 (λ b. b 3))
  run-caches mode_select_10_op h =
      ground
        (arith, mode_select-same (dget16 (at_offset s.cmd.cdb 7)) 8 (λ b. dget16 (at_offset b 6)))
  run-caches _ h = ground arith

  -- SET TARGET PORT GROUPS changes the map and the command.
  pub run-groups :
      (op : Opcode)
      → part_of op ≡ groups
      → ((run env op s).unit ≡ s.unit) × ((run env op s).faulted ≡ s.faulted)
  unfolding run maintenance_out set_groups_case set_groups_from if_admitted
  run-groups op h = ground arith

  -- PERSISTENT RESERVE OUT, RESERVE and RELEASE leave the blocks and the map.
  pub run-reserving :
      (op : Opcode)
      → part_of op ≡ reserving
      → ((run env op s).unit.blocks ≡ s.unit.blocks) × ((run env op s).map ≡ s.map)
  unfolding run reserve_out_case reserve_out_from release_case reserve_case after_reply
  run-reserving op h = ground arith

  -- Block commands leave the reservation and the map.
  pub run-blocks :
      (op : Opcode)
      → (part_of op ≡ reading) ⊎ (part_of op ≡ writing)
      → ((run env op s).unit.reservations ≡ s.unit.reservations)
        × ((run env op s).map ≡ s.map)
        × ((run env op s).faulted ≡ s.faulted)
  unfolding run read_6 read_10 read_12 read_16 read_long read_blocks write_6 write_10 write_12
      write_16 write_long write_blocks write_same_10 write_same_16 same_blocks compare_and_write
      synchronize_cache_10 synchronize_cache_16 flush if_admitted after_io
  run-blocks op h = ground arith
