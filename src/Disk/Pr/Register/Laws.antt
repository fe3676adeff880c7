-- ===== src/Disk/Pr/Register/Laws.antt =====
-- What REGISTER and REGISTER AND IGNORE EXISTING KEY do to the registrations of a nexus
-- (src/istgt/istgt_lu_disk.c).
use istgt.Prelude.{
  ℕ, ◌<◌, ◌≤◌, List, [], ◌++◌, false, some, Name, ◌≡◌, ◌≢◌, refl, arith, length, length-remove_if,
  length-remove_if-any, inl, inr, Option-cases, length-append, length-replicate, replicate,
}
use istgt.Disk.Types.{PrKey, LuDisk, Conn, LuCmd, ret, fail, max_lu_reserve}
use istgt.Disk.Pr.Keys.{find_pr_key, is_removed, remove_pr_key}
use istgt.Disk.Pr.Keys.Remove.{remove_pr_key_lem}
use istgt.Disk.Pr.Keys.Find.{any-is_removed}
use istgt.Disk.Pr.Params.{Params, next_generation}
use istgt.Disk.Pr.TransportId.{Ids, ports, too_many, malformed}
use istgt.Misc.Bytes.{at_offset, dget32}
use istgt.Disk.Pr.Register.{
  new_key, register_nexus, register_ports, register_ids, read_ids, do_register,
  unregister_or_register, without_nexus, register, register_ignore,
}

module _ (conn : Conn) (cmd : LuCmd) (p : Params) where
  -- Where it fails, registering leaves the unit alone; where there is room it does not fail.
  register_nexus_room :
      (spec : LuDisk) (names : List Name)
      → length spec.pr_keys < max_lu_reserve
      → (register_nexus spec conn cmd p names).rc ≡ ret 0
  unfolding register_nexus
  register_nexus_room spec names h = ground arith

  register_nexus_fail :
      (spec : LuDisk) (names : List Name)
      → (register_nexus spec conn cmd p names).rc ≡ fail
      → (register_nexus spec conn cmd p names).spec ≡ spec
  unfolding register_nexus
  register_nexus_fail spec names h = ground arith

  register_ports_fail :
      (spec : LuDisk) (names : List Name)
      → (register_ports spec conn cmd p names).rc ≡ fail
      → (register_ports spec conn cmd p names).spec ≡ spec
  unfolding register_ports
  register_ports_fail spec names h =
      let s = record spec {
        pr_keys = spec.pr_keys ++ replicate (length names) (new_key conn p []);
      } in
      ground (
        arith,
        register_nexus_room s names,
        length-append spec.pr_keys (replicate (length names) (new_key conn p [])),
        length-replicate (length names) (new_key conn p []),
      )

  register_ids_fail :
      (spec : LuDisk) (ids : Ids)
      → (register_ids spec conn cmd p ids).rc ≡ fail
      → (register_ids spec conn cmd p ids).spec ≡ spec
  unfolding register_ids
  register_ids_fail spec (ports names) h = register_ports_fail spec names h
  register_ids_fail spec too_many h = refl
  register_ids_fail spec malformed h = refl

  unregister_or_register_fail :
      (spec : LuDisk)
      → (unregister_or_register spec conn cmd p).rc ≡ fail
      → (unregister_or_register spec conn cmd p).spec ≡ spec
  unfolding unregister_or_register do_register
  unregister_or_register_fail spec h = ground (
    arith,
    register_nexus_fail spec [],
    register_ids_fail spec (read_ids p (dget32 (at_offset p.bytes 24))),
  )

  -- With room, and without specified ports, the last step succeeds.
  unregister_or_register_room :
      (spec : LuDisk)
      → p.spec_i_pt ≡ false
      → length spec.pr_keys < max_lu_reserve
      → (unregister_or_register spec conn cmd p).rc ≡ ret 0
  unfolding unregister_or_register do_register
  unregister_or_register_room spec h room = ground (arith, register_nexus_room spec [])

  -- The registrations of a nexus for which one is found make room by going.
  without_nexus_room :
      (spec : LuDisk) (key : ℕ) (k : PrKey)
      → length spec.pr_keys ≤ max_lu_reserve
      → find_pr_key spec (some conn.initiator_port) (some conn.target_port) key ≡ some k
      → length (without_nexus spec conn).pr_keys < max_lu_reserve
  unfolding without_nexus
  without_nexus_room spec key k b h =
      rw (remove_pr_key_lem spec (some conn.initiator_port) (some conn.target_port) 0) (
        omega (
          arith,
          length-remove_if-any (is_removed (some conn.initiator_port) (some conn.target_port) 0)
              spec.pr_keys (any-is_removed spec conn.initiator_port conn.target_port key k h),
        ))

  -- On a unit with at most 256 registrations, a REGISTER that fails leaves the unit as it was:
  -- the registration that it would replace is not lost.
  pub register-atomic :
      (spec : LuDisk)
      → length spec.pr_keys ≤ max_lu_reserve
      → (register spec conn cmd p).rc ≡ fail
      → (register spec conn cmd p).spec ≡ spec
  unfolding register
  register-atomic spec b h =
      elim (Option-cases (find_pr_key spec (some conn.initiator_port) (some conn.target_port) 0)) [
        | inl e ↦ ground (arith, unregister_or_register_fail spec)
        | inr (k, e) ↦ ground (
          arith,
          unregister_or_register_room (without_nexus spec conn),
          without_nexus_room spec 0 k b e,
        )
      ]

  without_nexus_le :
      (spec : LuDisk) → length (without_nexus spec conn).pr_keys ≤ length spec.pr_keys
  unfolding without_nexus
  without_nexus_le spec =
      rw (remove_pr_key_lem spec (some conn.initiator_port) (some conn.target_port) 0)
        (length-remove_if _ spec.pr_keys)

  -- With room, and without flags, a key other than 0 is registered, and the reservation stays.
  pub register_ignore_room :
      (spec : LuDisk)
      → length spec.pr_keys < max_lu_reserve
      → p.spec_i_pt ≡ false
      → p.aptpl ≡ false
      → p.sarkey ≢ 0
      → p.rkey ≡ 0
      → ((register_ignore spec conn cmd p).rc ≡ ret 0)
        × ((register_ignore spec conn cmd p).spec.rsv_key ≡ spec.rsv_key)
        × ((register_ignore spec conn cmd p).spec.rsv_port ≡ spec.rsv_port)
  unfolding register_ignore unregister_or_register do_register register_nexus next_generation
  register_ignore_room spec room n a ne z =
      let s = without_nexus spec conn in
      let le : length s.pr_keys ≤ length spec.pr_keys = without_nexus_le spec in
      let k : s.rsv_key ≡ spec.rsv_key = unfold without_nexus remove_pr_key in refl in
      let q : s.rsv_port ≡ spec.rsv_port = unfold without_nexus remove_pr_key in refl in
      (ground arith, ground arith, ground arith)
