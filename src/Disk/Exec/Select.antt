-- ===== src/Disk/Exec/Select.antt =====
-- MODE SELECT (src/istgt/istgt_lu_disk.c: istgt_lu_disk_scsi_mode_select_page, and its cases of
-- istgt_lu_disk_execute).
use istgt.Prelude.{
  ℕ, zero, suc, ◌+◌, ◌-◌, ◌%◌, ◌^◌, Bool, not, none, some, if◌then◌else◌, ◌==◌, ◌!=◌, ltb,
}
use istgt.Misc.Bytes.{Buf, at_offset, dget16, bget8}
use istgt.Disk.Sense.{illegal_request}
use istgt.Disk.Io.Block.{transfer_data}
use istgt.Disk.Pr.Check.{allow_write}
use istgt.Disk.Exec.{DiskUnit, State, Env, rejected, rejected_with, accepted, if_admitted}

-- SPF: the page has a subpage code, and a length of two bytes.
unfoldable pub has_subpage : Buf → Bool
unfolding bget8
has_subpage page = bget8 (page 0) 6 != 0

unfoldable pub page_header : Buf → ℕ
unfolding has_subpage
page_header page = if has_subpage page then 4 else 2

-- The length of a page with its header.
unfoldable pub page_length : Buf → ℕ
unfolding page_header has_subpage dget16
page_length page =
    page_header page + (if has_subpage page then dget16 (at_offset page 2) else page 1)

module _ {ℓ} {σ : Type ℓ} (fcntl_ok : Bool) where
  -- The caching page, 0x08. Where F_GETFL fails, WCE is not taken over.
  unfoldable pub select_caching : Buf → DiskUnit σ → DiskUnit σ
  unfolding page_length page_header has_subpage bget8
  select_caching page u =
      let subpage = if has_subpage page then page 1 else 0 in
      if subpage != 0x00
      then u
      else if page_length page != 0x12 + page_header page
      then u
      else record u {
        write_cache = if fcntl_ok then bget8 (page 2) 2 != 0 else u.write_cache;
        read_cache = not (bget8 (page 2) 0 != 0);
      }

  -- The pages of a list, one behind the other. Each has a header of two bytes or more, so as many
  -- rounds as there are bytes are enough.
  unfoldable pub select_pages : (rounds : ℕ) → Buf → (len : ℕ) → DiskUnit σ → DiskUnit σ
  unfolding select_caching page_length page_header
  select_pages zero page len u = u
  select_pages (suc rounds) page len u =
      let plen = page_length page in
      let u1 = if page 0 % 2 ^ 6 == 0x08 then select_caching page u else u in
      let rest = select_pages rounds (at_offset page plen) (len - plen) u1 in
      if ltb len 1
      then u
      else if ltb len (page_header page)
      then u
      else if ltb len plen
      then u
      else if len - plen == 0
      then u1
      else rest

  -- istgt_lu_disk_scsi_mode_select_page, which always returns 0. `PF` is 0 for a vendor specific
  -- list.
  unfoldable pub mode_select_page : (pf : Bool) → Buf → (len : ℕ) → DiskUnit σ → DiskUnit σ
  unfolding select_pages
  mode_select_page pf page len u = if pf then select_pages len page len u else u

-- `pllen - header` as a `size_t`
unfoldable pub page_bytes : (pllen header : ℕ) → ℕ
page_bytes pllen header = if ltb pllen header then pllen + 2 ^ 64 - header else pllen - header

module _ {ℓ} {σ : Type ℓ} (env : Env σ) where
  -- Both forms, from the length of the list, the length of its header, and where the length of
  -- the block descriptors is read.
  unfoldable pub mode_select : (pllen header : ℕ) → (Buf → ℕ) → State σ → State σ
  mode_select pllen header descriptors_length s =
      if pllen == 0
      then accepted 0 s
      else elim (transfer_data env.transfer s.unit.blocks s.cmd.io pllen) [
        | none ↦ rejected s
        | some io ↦
            let s1 = record s { cmd = record s.cmd { io = io } } in
            let start = header + descriptors_length io.iobuf in
            let unit =
              mode_select_page env.fcntl_ok (bget8 (s.cmd.cdb 1) 4 != 0) (at_offset io.iobuf start)
                (page_bytes pllen start) s.unit in
            if ltb pllen 4
            then rejected_with illegal_request 0x24 0x00 s1
            else accepted pllen (record s1 { unit = unit })
      ]

  unfoldable pub mode_select_6 : State σ → State σ
  unfolding if_admitted mode_select
  mode_select_6 = if_admitted env allow_write λ s. mode_select (s.cmd.cdb 4) 4 (λ b. b 3) s

  unfoldable pub mode_select_10 : State σ → State σ
  unfolding if_admitted mode_select
  mode_select_10 =
      if_admitted env allow_write
        λ s. mode_select (dget16 (at_offset s.cmd.cdb 7)) 8 (λ b. dget16 (at_offset b 6)) s
