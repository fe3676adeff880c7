-- ===== src/Disk/Pr/Tests/Registrations.antt =====
-- The theorems on registrations at concrete units.
use istgt.Prelude.{◌+◌, ◌%◌, ◌^◌, ◌≡◌, refl, arith, strlwr, str_eq, str_case_eq}
use istgt.Disk.Types.{ret}
use istgt.Disk.Pr.Keys.{find_pr_key, remove_pr_key}
use istgt.Disk.Pr.Register.{register}
use istgt.Disk.Pr.Register.Laws.{register-atomic}
use istgt.Disk.Pr.Register.Nexus.{Registered, register-Registered}
use istgt.Disk.Pr.Tests.{alice, bob, held, blank, params}

-- Bob registers under another key.
bob_registers : (register held bob blank (params 6 9 0)).rc ≡ ret 0
unfolding register find_pr_key str_eq remove_pr_key str_case_eq strlwr
bob_registers = refl

register-Registered_example :
    Registered (register held bob blank (params 6 9 0)).spec bob (params 6 9 0)
    × ((register held bob blank (params 6 9 0)).spec.pr_generation ≡ (0 + 1) % 2 ^ 32)
register-Registered_example =
    register-Registered bob blank (params 6 9 0) held (unfold strlwr in refl)
      (unfold strlwr in refl) refl (omega arith) bob_registers

-- Alice unregisters while she holds the reservation.
alice_leaves : (register held alice blank (params 5 0 0)).rc ≡ ret 0
unfolding register find_pr_key str_eq remove_pr_key str_case_eq strlwr
alice_leaves = refl

register-atomic_example : (register held bob blank (params 7 9 0)).spec ≡ held
unfolding register find_pr_key str_eq
register-atomic_example = register-atomic bob blank (params 7 9 0) held (omega arith) refl
