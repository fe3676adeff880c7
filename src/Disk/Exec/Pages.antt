-- ===== src/Disk/Exec/Pages.antt =====
-- The parameter list of MODE SELECT, page by page (src/istgt/istgt_lu_disk.c,
-- istgt_lu_disk_scsi_mode_select_page).
use mathlib.Core.Path.{fun_ext}
use istgt.Prelude.{
  ℕ, zero, suc, ◌+◌, ◌-◌, ◌%◌, ◌^◌, ◌≤◌, List, [], ◌∷◌, ◌++◌, length, length-append, Bool, true,
  not, ◌&&◌, ◌≡◌, ◌==◌, ◌!=◌, ltb, ◌∙◌, ap, refl, arith, if◌then◌else◌, All,
}
use istgt.Misc.Bytes.{Buf, buf_of, at_offset, bget8}
use istgt.Disk.Exec.{DiskUnit}
use istgt.Disk.Exec.Select.{
  has_subpage, page_header, page_length, select_caching, select_pages, mode_select_page,
}

-- A mode page with the short header: its code, and what stands behind its length.
pub record ModePage : Type 0 where
  pub code : ℕ
  pub body : List ℕ

-- PS and PAGE CODE, without SPF.
unfoldable pub IsPlain : ModePage → Type 0
IsPlain p = bget8 p.code 6 ≡ 0

abbrev pub page_list : List ModePage → List ℕ
page_list [] = []
page_list (p ∷ ps) = p.code ∷ length p.body ∷ (p.body ++ page_list ps)

buf_of-append : (xs ys : List ℕ) (i : ℕ) → buf_of (xs ++ ys) (length xs + i) ≡ buf_of ys i
unfolding buf_of
buf_of-append [] ys i = ap (buf_of ys) (omega arith)
buf_of-append (x ∷ xs) ys i =
    let next : suc (length xs) + i ≡ suc (length xs + i) = omega arith in
    rw next (buf_of-append xs ys i)

header-plain :
    (p : ModePage) (ps : List ModePage) → IsPlain p → page_header (buf_of (page_list (p ∷ ps))) ≡ 2
unfolding IsPlain page_header has_subpage buf_of
header-plain p ps h = rw h refl

page_length-plain :
    (p : ModePage) (ps : List ModePage)
    → IsPlain p
    → page_length (buf_of (page_list (p ∷ ps))) ≡ suc (suc (length p.body))
unfolding IsPlain page_length page_header has_subpage buf_of
page_length-plain p ps h = rw h (omega arith)

module _ {σ : Type 0} (fcntl_ok : Bool) where
  -- What a page means: the caching page of the right length has WCE in bit 2 of its first byte, and RCD in bit 0.
  abbrev pub apply_page : ModePage → DiskUnit σ → DiskUnit σ
  apply_page p u =
      if p.code % 2 ^ 6 == 0x08 && length p.body == 0x12
      then record u {
        write_cache = if fcntl_ok then bget8 (buf_of p.body 0) 2 != 0 else u.write_cache;
        read_cache = not (bget8 (buf_of p.body 0) 0 != 0);
      }
      else u

  abbrev pub apply_pages : List ModePage → DiskUnit σ → DiskUnit σ
  apply_pages [] u = u
  apply_pages (p ∷ ps) u = apply_pages ps (apply_page p u)

  select_caching_lem :
      (code : ℕ) (body rest : List ℕ) (u : DiskUnit σ)
      → bget8 code 6 ≡ 0
      → (if code % 2 ^ 6 == 0x08
          then select_caching fcntl_ok (buf_of (code ∷ length body ∷ (body ++ rest))) u
          else u)
        ≡ apply_page (record { code = code; body = body }) u
  unfolding select_caching buf_of
  select_caching_lem code [] rest u h = ground arith
  select_caching_lem code (x ∷ xs) rest u h = ground arith

  select_pages-empty :
      (rounds : ℕ) (page : Buf) (u : DiskUnit σ) → select_pages fcntl_ok rounds page 0 u ≡ u
  unfolding select_pages
  select_pages-empty zero page u = refl
  select_pages-empty (suc rounds) page u = refl

  -- A round, from what is known of the page.
  select_pages-round :
      (rounds len : ℕ) (page : Buf) (u : DiskUnit σ)
      → let u1 = if page 0 % 2 ^ 6 == 0x08 then select_caching fcntl_ok page u else u in
        let plen = page_length page in
        select_pages fcntl_ok (suc rounds) page len u ≡ (
          if ltb len 1
          then u
          else if ltb len (page_header page)
          then u
          else if ltb len plen
          then u
          else if len - plen == 0
          then u1
          else select_pages fcntl_ok rounds (at_offset page plen) (len - plen) u1)
  unfolding select_pages
  select_pages-round rounds len page u = refl

  select_pages-suc :
      (rounds len plen : ℕ) (page : Buf) (u u1 : DiskUnit σ)
      → page_header page ≡ 2
      → page_length page ≡ plen
      → 2 ≤ plen
      → plen ≤ len
      → (if page 0 % 2 ^ 6 == 0x08 then select_caching fcntl_ok page u else u) ≡ u1
      → select_pages fcntl_ok (suc rounds) page len u
        ≡ select_pages fcntl_ok rounds (at_offset page plen) (len - plen) u1
  select_pages-suc rounds len plen page u u1 header e two fits one =
      let empty = select_pages-empty rounds (at_offset page plen) u1 in
      rw (select_pages-round rounds len page u, header, e, one) (ground (arith, empty))

  select_pages_lem :
      (ps : List ModePage) (rounds len : ℕ) (u : DiskUnit σ)
      → All IsPlain ps
      → len ≡ length (page_list ps)
      → len ≤ rounds
      → select_pages fcntl_ok rounds (buf_of (page_list ps)) len u ≡ apply_pages ps u
  unfolding IsPlain buf_of
  select_pages_lem [] rounds len u h e k = rw e (select_pages-empty rounds (buf_of []) u)
  select_pages_lem (p ∷ ps) zero len u h e k = absurd (omega arith)
  select_pages_lem (p ∷ ps) (suc rounds) len u h e k =
      let page = buf_of (page_list (p ∷ ps)) in
      let plen = suc (suc (length p.body)) in
      let total : length (p.body ++ page_list ps) ≡ length p.body + length (page_list ps) =
        length-append p.body (page_list ps) in
      let rest : at_offset page plen ≡ buf_of (page_list ps) =
        fun_ext λ i. buf_of-append (p.code ∷ length p.body ∷ p.body) (page_list ps) i in
      select_pages-suc rounds len plen page u (apply_page p u) (header-plain p ps h.0)
        (page_length-plain p ps h.0) (omega arith) (omega arith)
        (select_caching_lem p.code p.body (page_list ps) u h.0)
      ∙ rw rest
          (select_pages_lem ps rounds (len - plen) (apply_page p u) h.1 (omega arith) (omega arith))

  -- MODE SELECT takes over a list of any number of pages with the short header, one behind the
  -- other: each caching page of 18 bytes sets the caches from its two bits, if F_GETFL works for
  -- the write cache, each other page changes nothing, and the last one for a cache wins.
  pub mode_select_page_lem :
      (ps : List ModePage) (u : DiskUnit σ)
      → All IsPlain ps
      → mode_select_page fcntl_ok true (buf_of (page_list ps)) (length (page_list ps)) u
        ≡ apply_pages ps u
  unfolding mode_select_page
  mode_select_page_lem ps u h =
      select_pages_lem ps (length (page_list ps)) (length (page_list ps)) u h refl (omega arith)
