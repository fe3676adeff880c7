-- ===== src/Disk/Exec/Boundary.antt =====
-- Unusual inputs of commands (src/istgt/istgt_lu.c, src/istgt/istgt_lu_disk.c).
use istgt.Prelude.{
  ℕ, suc, zero, ◌+◌, ◌-◌, ◌*◌, ◌^◌, ◌≤◌, ◌<◌, List, [], ◌∷◌, map, true, false, ◌≡◌, ◌≢◌, ◌==◌, ◌∙◌,
  inl, inr, Option-cases, refl, arith, none, some, any,
}
use istgt.Misc.Bytes.{Buf, at_offset, bget8w, dget16}
use istgt.Disk.Io.Block.{lbsync, is_beyond}
use istgt.Disk.Pr.Check.{allow_write, admits}
use istgt.Disk.Exec.{PortMap, State, Env, if_admitted, rejected}
use istgt.Disk.Exec.Lun.{islun2lun, lun2islun}
use istgt.Disk.Exec.Blocks.{
  synchronize_cache_10, synchronize_cache_16, flush, lba10, len10, lba16, len16,
}
use istgt.Disk.Exec.Groups.{apply_descriptor, set_group, set_groups, set_target_port_groups}

-- A number below `maxlun`, where a logical unit has at most 16384 units, is found again in the
-- form in which the initiator sees it.
pub islun2lun-lun2islun :
    (lun maxlun : ℕ) → lun < maxlun → maxlun ≤ 0x4000 → islun2lun (lun2islun lun maxlun) ≡ lun
unfolding islun2lun lun2islun
islun2lun-lun2islun lun maxlun h k = ground arith

module _ {σ : Type 0} (env : Env σ) (s : State σ) where
  flush_all :
      (lba : ℕ)
      → lba ≢ 0
      → 0 < s.unit.blocks.blockcnt
      → s.unit.blocks.blockcnt < 2 ^ 32
      → flush env lba 0 s ≡ rejected s
  unfolding flush lbsync is_beyond
  flush_all lba h k l = ground arith

  -- SYNCHRONIZE CACHE (10) and (16) with a length of 0 flush nothing and end with CHECK
  -- CONDITION, if their address is not 0, the unit has a block or more and fewer than 2 ^ 32, and the reservation
  -- allows a write.
  pub synchronize_cache-rejected :
      s.unit.blocks.blockcnt < 2 ^ 32
      → 0 < s.unit.blocks.blockcnt
      → admits s.unit.reservations env.conn allow_write ≡ true
      → len10 s.cmd.cdb ≡ 0
      → len16 s.cmd.cdb ≡ 0
      → lba10 s.cmd.cdb ≢ 0
      → lba16 s.cmd.cdb ≢ 0
      → (synchronize_cache_10 env s ≡ rejected s) × (synchronize_cache_16 env s ≡ rejected s)
  unfolding synchronize_cache_10 synchronize_cache_16 if_admitted
  synchronize_cache-rejected small some_blocks allowed l10 l16 a10 a16 =
      ground (arith, flush_all (lba10 s.cmd.cdb), flush_all (lba16 s.cmd.cdb))

module _ (pg aas : ℕ) where
  any-set_group :
      (ms : List PortMap)
      → any (λ m. m.pg_tag == pg) (map (set_group pg aas) ms) ≡ any (λ m. m.pg_tag == pg) ms
  unfolding set_group
  any-set_group [] = refl
  any-set_group (m ∷ ms) = ground (arith, any-set_group ms)

  map-set_group :
      (ms : List PortMap)
      → map (set_group pg aas) (map (set_group pg aas) ms) ≡ map (set_group pg aas) ms
  unfolding set_group
  map-set_group [] = refl
  map-set_group (m ∷ ms) = ground (arith, map-set_group ms)

apply_descriptor-apply_descriptor :
    (bytes : Buf) (ms ms1 : List PortMap)
    → apply_descriptor bytes ms ≡ some ms1
    → apply_descriptor bytes ms1 ≡ some ms1
unfolding apply_descriptor
apply_descriptor-apply_descriptor bytes ms ms1 h =
    let aas = bget8w (bytes 0) 3 4 in
    let pg = dget16 (at_offset bytes 2) in
    ground (arith, h, any-set_group pg aas ms, map-set_group pg aas ms)

-- A round in which the descriptor applies.
set_groups-suc :
    (rounds len k : ℕ) (bytes : Buf) (ms ms1 : List PortMap)
    → len ≡ 4 + k
    → apply_descriptor bytes ms ≡ some ms1
    → set_groups (suc rounds) bytes len ms
      ≡ elim k [ zero ↦ (ms1, true) | suc n ↦ set_groups rounds bytes (suc n) ms1 ]
unfolding set_groups
set_groups-suc rounds len k bytes ms ms1 e h =
    let rest : len - 4 ≡ k = omega arith in rw (h, rest) (ground arith)

set_groups-more :
    (rounds len k : ℕ) (bytes : Buf) (ms ms1 : List PortMap)
    → len ≡ 4 + k
    → apply_descriptor bytes ms ≡ some ms1
    → k ≢ 0
    → set_groups (suc rounds) bytes len ms ≡ set_groups rounds bytes k ms1
set_groups-more rounds len zero bytes ms ms1 e h nonzero = absurd (nonzero refl)
set_groups-more rounds len (suc n) bytes ms ms1 e h nonzero =
    set_groups-suc rounds len (suc n) bytes ms ms1 e h

set_groups-same :
    (n rounds len : ℕ) (bytes : Buf) (ms : List PortMap)
    → len ≡ 4 + 4 * n
    → apply_descriptor bytes ms ≡ some ms
    → len < rounds
    → set_groups rounds bytes len ms ≡ (ms, true)
set_groups-same n zero len bytes ms e h k = absurd (omega arith)
set_groups-same zero (suc rounds) len bytes ms e h k =
    set_groups-suc rounds len 0 bytes ms ms (omega arith) h
set_groups-same (suc n) (suc rounds) len bytes ms e h k =
    set_groups-more rounds len (4 * suc n) bytes ms ms e h (omega arith)
    ∙ set_groups-same n rounds (4 * suc n) bytes ms (omega arith) h (omega arith)

-- A list whose first descriptor applies.
set_groups-first :
    (n len : ℕ) (bytes : Buf) (ms ms1 : List PortMap)
    → len ≡ 4 + 4 * n
    → apply_descriptor bytes ms ≡ some ms1
    → set_groups (suc len) bytes len ms ≡ (ms1, true)
set_groups-first zero len bytes ms ms1 e h = set_groups-suc len len 0 bytes ms ms1 (omega arith) h
set_groups-first (suc n) len bytes ms ms1 e h =
    set_groups-more len len (4 * suc n) bytes ms ms1 e h (omega arith)
    ∙ set_groups-same n len (4 * suc n) bytes ms1 (omega arith)
        (apply_descriptor-apply_descriptor bytes ms ms1 h) (omega arith)

set_groups-none :
    (rounds len : ℕ) (bytes : Buf) (ms : List PortMap)
    → apply_descriptor bytes ms ≡ none
    → set_groups rounds bytes len ms ≡ (ms, false)
unfolding set_groups
set_groups-none zero len bytes ms h = refl
set_groups-none (suc rounds) len bytes ms h = rw h (ground arith)

set_groups_lem :
    (bytes : Buf) (n len : ℕ) (ms : List PortMap)
    → len ≡ 4 + 4 * n
    → set_groups (suc len) bytes len ms
      ≡ elim (apply_descriptor bytes ms) [ none ↦ (ms, false) | some ms1 ↦ (ms1, true) ]
set_groups_lem bytes n len ms h = elim (Option-cases (apply_descriptor bytes ms)) [
  | inl e ↦ rw e (set_groups-none (suc len) len bytes ms e)
  | inr (ms1, e) ↦ rw e (set_groups-first n len bytes ms ms1 h e)
]

-- SET TARGET PORT GROUPS with any number of descriptors applies the first one only, over and over: the
-- result depends on no byte behind it.
pub set_target_port_groups_lem :
    (bytes : Buf) (n : ℕ) (ms : List PortMap)
    → set_target_port_groups bytes (4 + 4 * n) ms
      ≡ elim (apply_descriptor bytes ms) [ none ↦ (ms, false) | some ms1 ↦ (ms1, true) ]
unfolding set_target_port_groups
set_target_port_groups_lem bytes n ms = set_groups_lem bytes n (4 + 4 * n) ms refl
