-- ===== src/Disk/Pr/Valid/Register.antt =====
-- The registering service actions keep the invariant (src/istgt/istgt_lu_disk.c).
use istgt.Prelude.{
  ◌+◌, ◌<◌, List, [], ◌∷◌, ◌++◌, Name, ◌≢◌, arith, length, replicate, All, All-append,
  All-replicate, length-append, length-replicate, ℕ, if◌then◌else◌, ◌!=◌, ◌==◌, ◌&&◌,
}
use istgt.Disk.Types.{PrKey, LuDisk, Conn, LuCmd}
use istgt.Disk.Pr.Params.{Params, next_generation}
use istgt.Disk.Pr.Register.{
  new_key, register_nexus, register_ports, register_ids, read_ids, do_register,
  unregister_or_register, without_nexus, register, register_ignore,
}
use istgt.Disk.Pr.TransportId.{Ids, ports, too_many, malformed}
use istgt.Misc.Bytes.{at_offset, dget32}
use istgt.Disk.Pr.Valid.{
  IsRegistration, IsValid, Keeps, remove_pr_key-IsValid, next_generation-IsValid,
  new_key-IsRegistration,
}

-- Registrations added behind the others.
add_keys :
    (s : LuDisk) (keys : List PrKey) (rsv_key : ℕ)
    → IsValid s
    → length s.pr_keys + length keys < 257
    → All IsRegistration keys
    → (rsv_key ≢ 0 → s.rsv_key ≢ 0)
    → IsValid (record s { rsv_key = rsv_key; pr_keys = s.pr_keys ++ keys })
add_keys s keys rsv_key v room all same = record {
  bounded = omega (arith, length-append s.pr_keys keys);
  registrations = All-append IsRegistration s.pr_keys keys v.registrations all;
  generation = v.generation;
  held = λ h. v.held (same h);
}

-- The key that replaces the key of the reservation, and the unit with a registration more.
abbrev replaced_key : LuDisk → Params → ℕ
replaced_key spec p = if p.rkey != 0 && spec.rsv_key == p.rkey then p.sarkey else spec.rsv_key

replaced_key_held : (spec : LuDisk) (p : Params) → replaced_key spec p ≢ 0 → spec.rsv_key ≢ 0
replaced_key_held spec p h e = ground arith

module _ (conn : Conn) (cmd : LuCmd) (p : Params) where
  registered-IsValid :
      (spec : LuDisk) (names : List Name)
      → p.sarkey ≢ 0
      → IsValid spec
      → length spec.pr_keys < 256
      → IsValid (
          next_generation (record spec {
            rsv_key = replaced_key spec p;
            pr_keys = spec.pr_keys ++ new_key conn p names ∷ [];
          }))
  registered-IsValid spec names h v room = next_generation-IsValid _ (
      add_keys spec (new_key conn p names ∷ []) (replaced_key spec p) v (omega arith)
        (new_key-IsRegistration conn p names h, tt) (replaced_key_held spec p))

  pub register_nexus-Keeps :
      (spec : LuDisk) (names : List Name)
      → p.sarkey ≢ 0
      → IsValid spec
      → Keeps (register_nexus spec conn cmd p names)
  unfolding register_nexus
  register_nexus-Keeps spec names h v = ground (arith, registered-IsValid spec names h v)

  replicated-IsValid :
      (spec : LuDisk) (n : ℕ)
      → p.sarkey ≢ 0
      → IsValid spec
      → length spec.pr_keys + n < 256
      → IsValid (record spec { pr_keys = spec.pr_keys ++ replicate n (new_key conn p []) })
  replicated-IsValid spec n h v room =
      add_keys spec (replicate n (new_key conn p [])) spec.rsv_key v
        (omega (arith, length-replicate n (new_key conn p [])))
        (All-replicate IsRegistration n _ (new_key-IsRegistration conn p [] h)) (λ e. e)

  register_ports-Keeps :
      (spec : LuDisk) (names : List Name)
      → p.sarkey ≢ 0
      → IsValid spec
      → Keeps (register_ports spec conn cmd p names)
  unfolding register_ports
  register_ports-Keeps spec names h v = ground (
    arith,
    replicated-IsValid spec (length names) h v,
    register_nexus-Keeps
        (record spec { pr_keys = spec.pr_keys ++ replicate (length names) (new_key conn p []) })
        names h,
  )

  register_ids-Keeps :
      (spec : LuDisk) (ids : Ids)
      → p.sarkey ≢ 0
      → IsValid spec
      → Keeps (register_ids spec conn cmd p ids)
  unfolding register_ids
  register_ids-Keeps spec (ports names) h v = register_ports-Keeps spec names h v
  register_ids-Keeps spec too_many h v = ground arith
  register_ids-Keeps spec malformed h v = ground arith

  do_register-Keeps :
      (spec : LuDisk) → p.sarkey ≢ 0 → IsValid spec → Keeps (do_register spec conn cmd p)
  unfolding do_register
  do_register-Keeps spec h v = ground (
    arith,
    register_nexus-Keeps spec [] h v,
    register_ids-Keeps spec (read_ids p (dget32 (at_offset p.bytes 24))) h v,
  )

  unregister_or_register-Keeps :
      (spec : LuDisk) → IsValid spec → Keeps (unregister_or_register spec conn cmd p)
  unfolding unregister_or_register
  unregister_or_register-Keeps spec v = ground (arith, do_register-Keeps spec)

  without_nexus-IsValid : (spec : LuDisk) → IsValid spec → IsValid (without_nexus spec conn)
  unfolding without_nexus
  without_nexus-IsValid spec v = remove_pr_key-IsValid spec _ _ 0 v

  pub register-Keeps : (spec : LuDisk) → IsValid spec → Keeps (register spec conn cmd p)
  unfolding register
  register-Keeps spec v = ground (
    arith,
    unregister_or_register-Keeps spec v,
    unregister_or_register-Keeps (without_nexus spec conn) (without_nexus-IsValid spec v),
  )

  pub register_ignore-Keeps :
      (spec : LuDisk) → IsValid spec → Keeps (register_ignore spec conn cmd p)
  unfolding register_ignore
  register_ignore-Keeps spec v =
      ground (
        arith,
        unregister_or_register-Keeps (without_nexus spec conn) (without_nexus-IsValid spec v),
      )
