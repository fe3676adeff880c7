-- ===== src/Disk/Pr/Keys/Find.antt =====
-- What `find_pr_key` finds (src/istgt/istgt_lu_disk.c).
use istgt.Prelude.{
  ℕ, List, [], ◌∷◌, ◌++◌, Bool, true, Option, none, some, Name, ◌≡◌, ◌≢◌, arith, find?, find?_sound,
  any, any_of_find?, str_case_eq_of_str_eq, find?-remove_if, find?-append_none, str_eq_refl,
}
use mathlib.Core.Logic.{◌⊎◌}
use istgt.Disk.Types.{PrKey, LuDisk}
use istgt.Disk.Pr.Keys.{is_found, find_pr_key, is_removed, remove_pr_key}
use istgt.Disk.Pr.Keys.Remove.{remove_pr_key_lem}

-- A registration that is found by a key other than 0 has that key.
pub find_pr_key-key :
    (s : LuDisk) (i : Name) (t : Option Name) (key : ℕ) (k : PrKey)
    → find_pr_key s (some i) t key ≡ some k
    → key ≢ 0
    → k.key ≡ key
unfolding find_pr_key is_found
find_pr_key-key s i none key k h ne =
    ground (arith, find?_sound (is_found i none key) s.pr_keys k h)
find_pr_key-key s i (some t) key k h ne =
    ground (arith, find?_sound (is_found i (some t) key) s.pr_keys k h)

-- What is found by a key is one of the registrations that removing by the port names alone removes.
is_found-is_removed :
    (i t : Name) (key : ℕ) (k : PrKey)
    → is_found i (some t) key k ≡ true
    → is_removed (some i) (some t) 0 k ≡ true
unfolding is_found is_removed
is_found-is_removed i t key k h = ground (
  arith,
  str_case_eq_of_str_eq k.registered_initiator_port i,
  str_case_eq_of_str_eq k.registered_target_port t,
)

-- After the registrations of an I_T nexus are removed, none is found for it under any key.
pub find_pr_key-remove_pr_key :
    (s : LuDisk) (i t : Name) (key : ℕ)
    → find_pr_key (remove_pr_key s (some i) (some t) 0) (some i) (some t) key ≡ none
unfolding find_pr_key
find_pr_key-remove_pr_key s i t key = rw (remove_pr_key_lem s (some i) (some t) 0) (
    find?-remove_if (is_removed (some i) (some t) 0) (is_found i (some t) key) s.pr_keys
      (is_found-is_removed i t key))

-- If a registration is found, one is removed.
pub any-is_removed :
    (s : LuDisk) (i t : Name) (key : ℕ) (k : PrKey)
    → find_pr_key s (some i) (some t) key ≡ some k
    → any (is_removed (some i) (some t) 0) s.pr_keys ≡ true
unfolding find_pr_key
any-is_removed s i t key k h =
    any_mono (is_found i (some t) key) (is_removed (some i) (some t) 0) s.pr_keys
      (is_found-is_removed i t key) (any_of_find? (is_found i (some t) key) s.pr_keys k h)
  where
    any_mono :
        (p q : PrKey → Bool) (xs : List PrKey)
        → ((x : PrKey) → p x ≡ true → q x ≡ true)
        → any p xs ≡ true
        → any q xs ≡ true
    any_mono p q [] h e = e
    any_mono p q (x ∷ xs) h e = ground (arith, h x, any_mono p q xs h)

find?-none_mono :
    (p q : PrKey → Bool) (xs : List PrKey)
    → ((x : PrKey) → q x ≡ true → p x ≡ true)
    → find? p xs ≡ none
    → find? q xs ≡ none
find?-none_mono p q [] h e = e
find?-none_mono p q (x ∷ xs) h e = ground (arith, h x, find?-none_mono p q xs h)

is_found-zero :
    (i : Name) (t : Option Name) (key : ℕ) (k : PrKey)
    → is_found i t key k ≡ true
    → is_found i t 0 k ≡ true
unfolding is_found
is_found-zero i none key k h = ground arith
is_found-zero i (some t) key k h = ground arith

-- A nexus for which no registration is found has none under any key.
pub find_pr_key-none :
    (s : LuDisk) (i : Name) (t : Option Name) (key : ℕ)
    → find_pr_key s (some i) t 0 ≡ none
    → find_pr_key s (some i) t key ≡ none
unfolding find_pr_key
find_pr_key-none s i t key h =
    find?-none_mono (is_found i t 0) (is_found i t key) s.pr_keys (is_found-zero i t key) h

-- A registration of the nexus that stands behind others, of which none is found, is found.
pub find_pr_key-append :
    (s u : LuDisk) (i t : Name) (key : ℕ) (k : PrKey)
    → find_pr_key s (some i) (some t) key ≡ none
    → u.pr_keys ≡ s.pr_keys ++ k ∷ []
    → k.registered_initiator_port ≡ i
    → k.registered_target_port ≡ t
    → (key ≡ 0) ⊎ (key ≡ k.key)
    → find_pr_key u (some i) (some t) key ≡ some k
unfolding find_pr_key is_found
find_pr_key-append s u i t key k h e hi ht hk =
    rw (e, find?-append_none (is_found i (some t) key) s.pr_keys (k ∷ []) h, hi, ht)
      (ground (arith, str_eq_refl i, str_eq_refl t))
