-- ===== src/Disk/Pr/Valid.antt =====
-- The invariant of the reservation state, and that the functions which write the state keep it
-- (src/istgt/istgt_lu_disk.c).
pub mod Actions
pub mod Register
pub mod Out
use istgt.Prelude.{
  ℕ, ◌+◌, ◌^◌, ◌≤◌, ◌<◌, List, [], ◌∷◌, ◌++◌, Bool, true, false, Option, none, some, Name, ◌≡◌, ◌≢◌,
  ◌⊎◌, inl, inr, refl, sym, subst, arith, remove_if, length, replicate, All, All-append,
  All-remove_if, All-replicate, length-append, length-replicate, length-remove_if, IsLower,
  strlwr-IsLower, Bool-cases, Option-cases, any, find?, any_of_find?, length-remove_if-any, leb,
  if◌then◌else◌, ◌==◌, ◌!=◌, ◌&&◌,
}
use istgt.Disk.Types.{PrKey, LuDisk, Conn, Reply, fault, max_lu_reserve}
use istgt.Disk.Tasks.Clear.{SameReservation}
use istgt.Disk.Pr.Keys.{remove_pr_key, remove_other_pr_key}
use istgt.Disk.Pr.Keys.Remove.{remove_pr_key_lem, remove_other_pr_key_lem}
use istgt.Disk.Pr.Params.{Params, establish, release_reservation, next_generation}
use istgt.Disk.Pr.Register.{new_key}

-- A registration has a key, and its port names are in lower case.
pub record IsRegistration (k : PrKey) : Type 0 where
  pub keyed : k.key ≢ 0
  pub initiator_lower : IsLower k.registered_initiator_port
  pub target_lower : IsLower k.registered_target_port

-- The registrations fit the array, each is one, the generation fits its word, and a unit that is
-- reserved has the port that reserved it.
pub record IsValid (s : LuDisk) : Type 0 where
  pub bounded : length s.pr_keys ≤ max_lu_reserve
  pub registrations : All IsRegistration s.pr_keys
  pub generation : s.pr_generation < 2 ^ 32
  pub held : s.rsv_key ≢ 0 → s.rsv_port ≢ none

-- What a handler leaves: a valid unit, and no read through a NULL pointer.
pub record Keeps (r : Reply) : Type 0 where
  pub valid : IsValid r.spec
  pub no_fault : r.rc ≢ fault

keep_keys :
    {s : LuDisk} (p : PrKey → Bool)
    → IsValid s
    → IsValid (record s { pr_keys = remove_if p s.pr_keys })
keep_keys {s} p v = record {
  bounded = omega (arith, length-remove_if p s.pr_keys);
  registrations = All-remove_if IsRegistration p s.pr_keys v.registrations;
  generation = v.generation;
  held = v.held;
}

pub remove_pr_key-IsValid :
    (s : LuDisk) (i t : Option Name) (key : ℕ) → IsValid s → IsValid (remove_pr_key s i t key)
remove_pr_key-IsValid s i t key v = rw (remove_pr_key_lem s i t key) (keep_keys _ v)

pub remove_other_pr_key-IsValid :
    (s : LuDisk) (i t : Option Name) (key : ℕ) → IsValid s → IsValid (remove_other_pr_key s i t key)
remove_other_pr_key-IsValid s i t key v = rw (remove_other_pr_key_lem s i t key) (keep_keys _ v)

pub establish-IsValid :
    (s : LuDisk) (conn : Conn) (p : Params) → IsValid s → IsValid (establish s conn p)
unfolding establish
establish-IsValid s conn p v = record {
  bounded = v.bounded;
  registrations = v.registrations;
  generation = v.generation;
  held = λ _ e. cc;
}

pub release_reservation-IsValid : (s : LuDisk) → IsValid s → IsValid (release_reservation s)
unfolding release_reservation
release_reservation-IsValid s v = record {
  bounded = v.bounded;
  registrations = v.registrations;
  generation = v.generation;
  held = λ h. absurd (h refl);
}

pub next_generation-IsValid : (s : LuDisk) → IsValid s → IsValid (next_generation s)
unfolding next_generation
next_generation-IsValid s v = record {
  bounded = v.bounded;
  registrations = v.registrations;
  generation = omega arith;
  held = v.held;
}

pub SameReservation-IsValid : {s t : LuDisk} → SameReservation s t → IsValid t → IsValid s
SameReservation-IsValid {s} {t} e v = record {
  bounded = rw e.pr_keys v.bounded;
  registrations = rw e.pr_keys v.registrations;
  generation = rw e.pr_generation v.generation;
  held = rw (e.rsv_key, e.rsv_port) v.held;
}

pub new_key-IsRegistration :
    (conn : Conn) (p : Params) (names : List Name)
    → p.sarkey ≢ 0
    → IsRegistration (new_key conn p names)
unfolding new_key
new_key-IsRegistration conn p names h = record {
  keyed = h;
  initiator_lower = strlwr-IsLower conn.initiator_port;
  target_lower = strlwr-IsLower conn.target_port;
}
