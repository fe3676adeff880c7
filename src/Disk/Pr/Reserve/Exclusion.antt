-- ===== src/Disk/Pr/Reserve/Exclusion.antt =====
-- What a reservation does: it excludes the others, and it can be released again
-- (src/istgt/istgt_lu_disk.c).
use istgt.Prelude.{
  ℕ, Bool, true, false, none, some, ◌==◌, ◌≡◌, ◌≢◌, arith, refl, str_case_eq, strlwr,
  strlwr-IsLower, str_eq_refl, Name, ◌⊎◌, inl, inr, Option-cases,
}
use istgt.Disk.Types.{PrKey, LuDisk, Conn, LuCmd, ret, fail, good}
use istgt.Disk.Pr.Keys.{find_pr_key}
use istgt.Disk.Pr.Keys.Find.{find_pr_key-key}
use istgt.Disk.Pr.Params.{
  Params, is_supported_type, establish, release_reservation, exclusive_access,
}
use istgt.Disk.Pr.Reserve.{
  reserve_held, reserve_free, reserve, release_held, release_found, release,
}
use istgt.Disk.Pr.Check.{
  allow_read, allow_write, check_any_nexus, check_registered, check_unregistered, check_pr, admits,
}

-- The port names compare equal to themselves without regard to case.
pub str_case_eq_self : (s : Name) → str_case_eq (strlwr s) s ≡ true
unfolding str_case_eq
str_case_eq_self s = rw (strlwr-IsLower s) (str_eq_refl (strlwr s))

-- The nexus of a connection is registered with a key.
unfoldable pub holds_key : LuDisk → Conn → ℕ → Bool
holds_key spec conn key =
    elim (find_pr_key spec (some conn.initiator_port) (some conn.target_port) 0) [
      | none ↦ false
      | some k ↦ k.key == key
    ]

-- A reservation does not change what is registered.
find_pr_key-establish :
    (spec : LuDisk) (conn : Conn) (p : Params) (other : Conn) (key : ℕ)
    → find_pr_key (establish spec conn p) (some other.initiator_port) (some other.target_port) key
      ≡ find_pr_key spec (some other.initiator_port) (some other.target_port) key
unfolding find_pr_key establish
find_pr_key-establish spec conn p other key = refl

module _ (spec : LuDisk) (conn : Conn) (cmd : LuCmd) (p : Params) where
  -- RESERVE of a unit that is not reserved succeeds exactly if the nexus is registered, with the
  -- key that is given, and the scope is the logical unit and the type supported; then it puts
  -- the key, the scope, the type and the port of the connection into the unit and changes
  -- nothing else. Where it fails, the unit is unchanged.
  pub reserve_free_iff :
      spec.rsv_key ≡ 0
      → ((reserve spec conn cmd p).rc ≡ ret 0)
          × (find_pr_key spec (some conn.initiator_port) (some conn.target_port) 0 ≢ none)
          × (find_pr_key spec (some conn.initiator_port) (some conn.target_port) p.rkey ≢ none)
          × (p.scope ≡ 0)
          × (is_supported_type p.rsv_type ≡ true)
          × ((reserve spec conn cmd p).spec ≡ establish spec conn p)
        ⊎ ((reserve spec conn cmd p).rc ≡ fail) × ((reserve spec conn cmd p).spec ≡ spec)
  unfolding reserve reserve_free
  reserve_free_iff h = ground arith

  -- RESERVE of a unit that is reserved never changes the unit, whatever it returns.
  pub reserve-held_unchanged : spec.rsv_key ≢ 0 → (reserve spec conn cmd p).spec ≡ spec
  unfolding reserve reserve_held
  reserve-held_unchanged h = ground arith

  -- A RESERVE by a registered nexus, with its key, of a unit without a reservation.
  pub reserve_ok :
      {k l : PrKey}
      → spec.rsv_key ≡ 0
      → find_pr_key spec (some conn.initiator_port) (some conn.target_port) 0 ≡ some k
      → find_pr_key spec (some conn.initiator_port) (some conn.target_port) p.rkey ≡ some l
      → p.scope ≡ 0
      → is_supported_type p.rsv_type ≡ true
      → reserve spec conn cmd p ≡ good (establish spec conn p) cmd
  unfolding reserve reserve_free
  reserve_ok h a b s t = ground arith

  -- What a RESERVE that succeeds on a unit without a reservation says and does.
  reserve_free_lem :
      spec.rsv_key ≡ 0
      → (reserve spec conn cmd p).rc ≡ ret 0
      → (find_pr_key spec (some conn.initiator_port) (some conn.target_port) 0 ≢ none)
        × (find_pr_key spec (some conn.initiator_port) (some conn.target_port) p.rkey ≢ none)
        × (p.scope ≡ 0)
        × (is_supported_type p.rsv_type ≡ true)
        × ((reserve spec conn cmd p).spec ≡ establish spec conn p)
  reserve_free_lem h ok = ground (arith, reserve_free_iff h)

  release_established :
      spec.rsv_key ≡ 0
      → spec.rsv_port ≡ none
      → spec.rsv_scope ≡ 0
      → spec.rsv_type ≡ 0
      → p.rkey ≢ 0
      → find_pr_key spec (some conn.initiator_port) (some conn.target_port) 0 ≢ none
      → find_pr_key spec (some conn.initiator_port) (some conn.target_port) p.rkey ≢ none
      → p.scope ≡ 0
      → is_supported_type p.rsv_type ≡ true
      → release (establish spec conn p) conn cmd p ≡ good spec cmd
  unfolding release release_found release_held release_reservation establish
  release_established a b c d ne found by_key scope supported =
      elim (Option-cases
        (find_pr_key spec (some conn.initiator_port) (some conn.target_port) p.rkey)) [
          | inl e ↦ absurd (by_key e)
          | inr (k, e) ↦ ground (
            arith,
            find_pr_key-key spec conn.initiator_port (some conn.target_port) p.rkey k e ne,
            find_pr_key-establish spec conn p conn 0,
            find_pr_key-establish spec conn p conn p.rkey,
            str_case_eq_self conn.initiator_port,
          )
        ]

  -- A unit that a connection has reserved for exclusive access, with a key other than 0, admits no
  -- command that reads or writes from a nexus whose registration does not have that key, or that
  -- has none; it admits every command from a nexus whose registration has it.
  pub reserve-admits :
      (other : Conn)
      → spec.rsv_key ≡ 0
      → p.rkey ≢ 0
      → p.rsv_type ≡ exclusive_access
      → (reserve spec conn cmd p).rc ≡ ret 0
      → let holds = holds_key spec other p.rkey in
        (admits (reserve spec conn cmd p).spec other allow_read ≡ holds)
        × (admits (reserve spec conn cmd p).spec other allow_write ≡ holds)
  unfolding establish admits check_pr check_registered check_unregistered check_any_nexus holds_key
  reserve-admits other h ne t ok =
      ground (arith, reserve_free_lem h ok, find_pr_key-establish spec conn p other 0)

  -- On a unit without a reservation, RELEASE undoes a RESERVE that succeeded: with the key (other
  -- than 0), scope and type of the RESERVE it succeeds, and the unit is again what it was.
  pub release-reserve :
      spec.rsv_key ≡ 0
      → spec.rsv_port ≡ none
      → spec.rsv_scope ≡ 0
      → spec.rsv_type ≡ 0
      → p.rkey ≢ 0
      → (reserve spec conn cmd p).rc ≡ ret 0
      → release (reserve spec conn cmd p).spec conn cmd p ≡ good spec cmd
  release-reserve a b c d ne ok =
      let (found, by_key, scope, supported, e) = reserve_free_lem a ok in
      rw e (release_established a b c d ne found by_key scope supported)
