-- ===== src/Disk/Pr/Keys/Remove.antt =====
-- The removal loops that shift the array in place remove what their tests name and keep the order
-- of the rest.
use istgt.Prelude.{
  ℕ, zero, suc, List, [], ◌∷◌, Bool, Option, Name, if◌then◌else◌, ◌≡◌, refl, ◌∙◌, ap, arith,
  remove_if, length,
}
use istgt.Disk.Types.{PrKey, LuDisk}
use istgt.Disk.Pr.Keys.{
  is_removed, is_other, erase_at, remove_loop, remove_pr_key, remove_other_pr_key,
}

erase_at-cons :
    (p : PrKey → Bool) (i : ℕ) (x : PrKey) (keys : List PrKey)
    → erase_at p (suc i) (x ∷ keys) ≡ x ∷ erase_at p i keys
unfolding erase_at
erase_at-cons p i x keys = ground arith

-- The rounds down to index 1 leave the first element alone, and act on the rest.
remove_loop-cons :
    (p : PrKey → Bool) (i : ℕ) (x : PrKey) (keys : List PrKey)
    → remove_loop p (suc i) (x ∷ keys)
      ≡ (if p x then remove_loop p i keys else x ∷ remove_loop p i keys)
unfolding remove_loop
remove_loop-cons p zero x keys = ground arith
remove_loop-cons p (suc i) x keys =
    ap (remove_loop p (suc i)) (erase_at-cons p i x keys)
    ∙ remove_loop-cons p i x (erase_at p i keys)

pub remove_loop-remove_if :
    (p : PrKey → Bool) (keys : List PrKey) → remove_loop p (length keys) keys ≡ remove_if p keys
unfolding remove_loop
remove_loop-remove_if p [] = refl
remove_loop-remove_if p (x ∷ keys) =
    remove_loop-cons p (length keys) x keys
    ∙ ap (λ t. if p x then t else x ∷ t) (remove_loop-remove_if p keys)

-- Removing registrations keeps exactly those that the test does not name, in their order: those
-- of another key (for a key other than 0), of another initiator port (if one is given), or of
-- another target port (if one is given, and the registration is not for all target ports).
-- Nothing else of the unit changes.
pub remove_pr_key_lem :
    (spec : LuDisk) (initiator_port target_port : Option Name) (key : ℕ)
    → remove_pr_key spec initiator_port target_port key
      ≡ record spec { pr_keys = remove_if (is_removed initiator_port target_port key) spec.pr_keys }
unfolding remove_pr_key
remove_pr_key_lem spec initiator_port target_port key =
    rw (remove_loop-remove_if (is_removed initiator_port target_port key) spec.pr_keys)

pub remove_other_pr_key_lem :
    (spec : LuDisk) (initiator_port target_port : Option Name) (key : ℕ)
    → remove_other_pr_key spec initiator_port target_port key
      ≡ record spec { pr_keys = remove_if (is_other initiator_port target_port key) spec.pr_keys }
unfolding remove_other_pr_key
remove_other_pr_key_lem spec initiator_port target_port key =
    rw (remove_loop-remove_if (is_other initiator_port target_port key) spec.pr_keys)
