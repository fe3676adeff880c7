-- ===== src/Disk/Pr/Register/Nexus.antt =====
-- A nexus after REGISTER and REGISTER AND IGNORE EXISTING KEY: registered under the new key, or
-- not at all (src/istgt/istgt_lu_disk.c).
use istgt.Prelude.{
  ℕ, ◌+◌, ◌%◌, ◌^◌, [], ◌∷◌, ◌++◌, false, none, some, ◌≡◌, ◌≢◌, refl, arith, IsLower, inl, inr,
  Option-cases,
}
use istgt.Disk.Types.{LuDisk, Conn, LuCmd, ret}
use istgt.Disk.Pr.Keys.{find_pr_key, remove_pr_key}
use istgt.Disk.Pr.Keys.Find.{find_pr_key-remove_pr_key, find_pr_key-none, find_pr_key-append}
use istgt.Disk.Pr.Params.{Params, next_generation}
use istgt.Disk.Pr.Register.{
  new_key, register_nexus, do_register, unregister_or_register, without_nexus, register,
  register_ignore,
}

-- No registration of the nexus is found, under any key.
abbrev pub Unregistered : LuDisk → Conn → Type 0
Unregistered spec conn =
    (key : ℕ) → find_pr_key spec (some conn.initiator_port) (some conn.target_port) key ≡ none

-- The nexus is registered by what the command says, found without a key and by its key.
pub record Registered (spec : LuDisk) (conn : Conn) (p : Params) : Type 0 where
  pub found :
      find_pr_key spec (some conn.initiator_port) (some conn.target_port) 0
      ≡ some (new_key conn p [])
  pub found_by_key :
      find_pr_key spec (some conn.initiator_port) (some conn.target_port) p.sarkey
      ≡ some (new_key conn p [])

module _ (conn : Conn) (cmd : LuCmd) (p : Params) where
  without_nexus-Unregistered : (spec : LuDisk) → Unregistered (without_nexus spec conn) conn
  unfolding without_nexus
  without_nexus-Unregistered spec key =
      find_pr_key-remove_pr_key spec conn.initiator_port conn.target_port key

  registers :
      (spec : LuDisk)
      → IsLower conn.initiator_port
      → IsLower conn.target_port
      → p.spec_i_pt ≡ false
      → p.sarkey ≢ 0
      → Unregistered spec conn
      → (unregister_or_register spec conn cmd p).rc ≡ ret 0
      → Registered (unregister_or_register spec conn cmd p).spec conn p
        × ((unregister_or_register spec conn cmd p).spec.pr_generation
            ≡ (spec.pr_generation + 1) % 2 ^ 32)
  unfolding unregister_or_register do_register register_nexus next_generation new_key
  registers spec li lt n ne none_found ok =
      let u = (unregister_or_register spec conn cmd p).spec in
      let e : u.pr_keys ≡ spec.pr_keys ++ new_key conn p [] ∷ [] = ground arith in
      (
        record {
          found =
              find_pr_key-append spec u conn.initiator_port conn.target_port 0 (new_key conn p [])
                (none_found 0) e li lt (inl refl);
          found_by_key =
              find_pr_key-append spec u conn.initiator_port conn.target_port p.sarkey
                (new_key conn p []) (none_found p.sarkey) e li lt (inr refl);
        },
        ground arith,
      )

  -- A REGISTER without specified ports, with a service action key other than 0, that succeeds on a
  -- connection whose port names are in lower case, leaves the nexus registered: the new
  -- registration is found for it, with no key given and by the new key, whatever was registered
  -- before. The generation goes up by one, modulo 2 ^ 32.
  pub register-Registered :
      (spec : LuDisk)
      → IsLower conn.initiator_port
      → IsLower conn.target_port
      → p.spec_i_pt ≡ false
      → p.sarkey ≢ 0
      → (register spec conn cmd p).rc ≡ ret 0
      → Registered (register spec conn cmd p).spec conn p
        × ((register spec conn cmd p).spec.pr_generation ≡ (spec.pr_generation + 1) % 2 ^ 32)
  unfolding register
  register-Registered spec li lt n ne ok =
      let s = without_nexus spec conn in
      let fresh_nexus = registers s li lt n ne (without_nexus-Unregistered spec) in
      let g : s.pr_generation ≡ spec.pr_generation = unfold without_nexus remove_pr_key in refl in
      elim (Option-cases (find_pr_key spec (some conn.initiator_port) (some conn.target_port) 0)) [
        | inl e ↦
            let old =
              registers spec li lt n ne
                (λ key. find_pr_key-none spec conn.initiator_port (some conn.target_port) key e) in
            ground (arith, old, g)
        | inr (k, e) ↦ ground (arith, fresh_nexus, g)
      ]

  -- A REGISTER AND IGNORE EXISTING KEY without specified ports, with a service action key other
  -- than 0, that succeeds on a connection whose port names are in lower case, leaves the nexus
  -- registered under that key, whatever was registered before. The generation goes up by one,
  -- modulo 2 ^ 32.
  pub register_ignore-Registered :
      (spec : LuDisk)
      → IsLower conn.initiator_port
      → IsLower conn.target_port
      → p.spec_i_pt ≡ false
      → p.sarkey ≢ 0
      → (register_ignore spec conn cmd p).rc ≡ ret 0
      → Registered (register_ignore spec conn cmd p).spec conn p
        × ((register_ignore spec conn cmd p).spec.pr_generation ≡ (spec.pr_generation + 1) % 2 ^ 32)
  unfolding register_ignore
  register_ignore-Registered spec li lt n ne ok =
      let s = without_nexus spec conn in
      let fresh_nexus = registers s li lt n ne (without_nexus-Unregistered spec) in
      let g : s.pr_generation ≡ spec.pr_generation = unfold without_nexus remove_pr_key in refl in
      elim (Option-cases (find_pr_key spec (some conn.initiator_port) (some conn.target_port) 0)) [
        | inl e ↦ ground (arith, fresh_nexus, g)
        | inr (k, e) ↦ ground (arith, fresh_nexus, g)
      ]

  -- A REGISTER with a service action key of 0 that succeeds leaves the nexus unregistered under
  -- every key. It leaves the reservation as it was, also if the nexus held it.
  pub register-Unregistered :
      (spec : LuDisk)
      → p.sarkey ≡ 0
      → (register spec conn cmd p).rc ≡ ret 0
      → Unregistered (register spec conn cmd p).spec conn
        × ((register spec conn cmd p).spec.rsv_key ≡ spec.rsv_key)
        × ((register spec conn cmd p).spec.rsv_type ≡ spec.rsv_type)
  unfolding register unregister_or_register
  register-Unregistered spec z ok =
      let s = without_nexus spec conn in
      let none_left = without_nexus-Unregistered spec in
      let k_same : s.rsv_key ≡ spec.rsv_key = unfold without_nexus remove_pr_key in refl in
      let t_same : s.rsv_type ≡ spec.rsv_type = unfold without_nexus remove_pr_key in refl in
      elim (Option-cases (find_pr_key spec (some conn.initiator_port) (some conn.target_port) 0)) [
        | inl e ↦
            let old = λ (key : ℕ).
              find_pr_key-none spec conn.initiator_port (some conn.target_port) key e in
            (λ key. ground (arith, old key), ground arith, ground arith)
        | inr (k, e) ↦
            (λ key. ground (arith, none_left key), ground (arith, k_same), ground (arith, t_same))
      ]
