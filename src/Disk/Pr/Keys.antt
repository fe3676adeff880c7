-- ===== src/Disk/Pr/Keys.antt =====
-- The registrations of a unit (src/istgt/istgt_lu_disk.c: istgt_lu_disk_find_pr_key,
-- istgt_lu_disk_remove_other_pr_key, istgt_lu_disk_remove_pr_key).
pub mod Remove
pub mod Find
use istgt.Prelude.{
  ℕ, zero, suc, List, [], ◌∷◌, Bool, true, false, ◌&&◌, ◌||◌, not, Option, none, some,
  if◌then◌else◌, Name, str_eq, str_case_eq, ◌==◌, ◌!=◌, find?, get_elem?, erase_idx, length,
}
use istgt.Disk.Types.{PrKey, LuDisk}

-- The tests of the loop of `find_pr_key`: a key of 0, and a target port of NULL, fit every entry.
unfoldable pub is_found : Name → Option Name → ℕ → PrKey → Bool
is_found initiator_port none key k =
    not (key != 0 && k.key != key) && str_eq k.registered_initiator_port initiator_port
is_found initiator_port (some target_port) key k =
    not (key != 0 && k.key != key)
    && (str_eq k.registered_initiator_port initiator_port
        && (k.all_tpg || str_eq k.registered_target_port target_port))

unfoldable pub find_pr_key : LuDisk → Option Name → Option Name → ℕ → Option PrKey
unfolding is_found
find_pr_key spec none target_port key = none
find_pr_key spec (some initiator_port) target_port key =
    find? (is_found initiator_port target_port key) spec.pr_keys

-- The registrations that `remove_pr_key` does not pass over.
unfoldable pub is_removed : Option Name → Option Name → ℕ → PrKey → Bool
is_removed initiator_port target_port key k =
    not (key != 0 && k.key != key)
    && (elim initiator_port [ none ↦ true | some p ↦ str_case_eq k.registered_initiator_port p ]
        && (k.all_tpg
            || elim target_port [ none ↦ true | some p ↦ str_case_eq k.registered_target_port p ]))

-- The registrations that `remove_other_pr_key` does not pass over.
unfoldable pub is_other : Option Name → Option Name → ℕ → PrKey → Bool
is_other initiator_port target_port key k =
    not (key == 0 || k.key == key)
    && (not
          (elim initiator_port [ none ↦ true | some p ↦ str_case_eq k.registered_initiator_port p ])
        && not (
            k.all_tpg
            || elim target_port [ none ↦ true | some p ↦ str_case_eq k.registered_target_port p ]))

-- One round of the loop: an entry that passes the test is freed and the entries behind it move
-- down.
unfoldable pub erase_at : (PrKey → Bool) → ℕ → List PrKey → List PrKey
erase_at p i keys = elim (get_elem? keys i) [
  | none ↦ keys
  | some k ↦ if p k then erase_idx keys i else keys
]

-- The loop over the array from index `i - 1` down to 0.
unfoldable pub remove_loop : (PrKey → Bool) → ℕ → List PrKey → List PrKey
unfolding erase_at
remove_loop p zero keys = keys
remove_loop p (suc i) keys = remove_loop p i (erase_at p i keys)

unfoldable pub remove_pr_key : LuDisk → Option Name → Option Name → ℕ → LuDisk
unfolding is_removed remove_loop
remove_pr_key spec initiator_port target_port key = record spec {
  pr_keys =
      remove_loop (is_removed initiator_port target_port key) (length spec.pr_keys) spec.pr_keys;
}

unfoldable pub remove_other_pr_key : LuDisk → Option Name → Option Name → ℕ → LuDisk
unfolding is_other remove_loop
remove_other_pr_key spec initiator_port target_port key = record spec {
  pr_keys =
      remove_loop (is_other initiator_port target_port key) (length spec.pr_keys) spec.pr_keys;
}
