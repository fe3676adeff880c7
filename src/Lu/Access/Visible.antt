-- ===== src/Lu/Access/Visible.antt =====
-- Who may use a target sees it (src/istgt/istgt_lu.c: istgt_lu_access, istgt_lu_visible).
use istgt.Prelude.{
  ℕ, List, [], ◌∷◌, Bool, true, false, Option, none, some, Name, All, ◌≡◌, refl, arith, inl, inr,
  Option-cases,
}
use istgt.Misc.Bytes.{Buf}
use istgt.Lu.Access.{
  LuMap, InitiatorGroup, Verdict, deny, allow, go_on, or_else, is_allow, check_initiator,
  check_group, check_maps, lu_access, see_initiator, see_group, see_maps, lu_visible,
  find_initiatorgroup,
}

-- With the addresses, a loop allows no more than without, and goes on only where that does not
-- deny.
abbrev at_most : Verdict → Verdict → Bool
at_most allow v = is_allow v
at_most deny v = true
at_most go_on deny = false
at_most go_on allow = true
at_most go_on go_on = true

at_most-or_else :
    (v v1 w w1 : Verdict)
    → at_most v w ≡ true
    → at_most v1 w1 ≡ true
    → at_most (or_else v v1) (or_else w w1) ≡ true
at_most-or_else allow v1 allow w1 h k = refl
at_most-or_else allow v1 deny w1 h k = h
at_most-or_else allow v1 go_on w1 h k = cc
at_most-or_else deny v1 w w1 h k = refl
at_most-or_else go_on v1 deny w1 h k = cc
at_most-or_else go_on v1 go_on w1 h k = k
at_most-or_else go_on allow allow w1 h k = refl
at_most-or_else go_on deny allow w1 h k = refl
at_most-or_else go_on go_on allow w1 h k = refl

see-none :
    (groups : List InitiatorGroup) (iqn : Name) (m : LuMap) (ms : List LuMap)
    → find_initiatorgroup groups m.ig_tag ≡ none
    → see_maps groups iqn (m ∷ ms) ≡ see_maps groups iqn ms
unfolding see_maps
see-none groups iqn m ms e = rw (see_maps, e) refl

see-some :
    (groups : List InitiatorGroup) (iqn : Name) (m : LuMap) (ms : List LuMap) (igp : InitiatorGroup)
    → find_initiatorgroup groups m.ig_tag ≡ some igp
    → see_maps groups iqn (m ∷ ms) ≡ or_else (see_group iqn igp.initiators) (see_maps groups iqn ms)
unfolding see_maps
see-some groups iqn m ms igp e = rw (see_maps, e) refl

module _ (inet4 : Name → Option ℕ) (inet6 : Name → Option Buf) where
  check_initiator-at_most :
      (igp : InitiatorGroup) (iqn addr name : Name)
      → at_most (check_initiator inet4 inet6 igp iqn addr name) (see_initiator iqn name) ≡ true
  unfolding check_initiator see_initiator
  check_initiator-at_most igp iqn addr name = ground arith

  check_group-at_most :
      (igp : InitiatorGroup) (iqn addr : Name) (names : List Name)
      → at_most (check_group inet4 inet6 igp iqn addr names) (see_group iqn names) ≡ true
  unfolding check_group see_group
  check_group-at_most igp iqn addr [] = refl
  check_group-at_most igp iqn addr (name ∷ names) =
      at_most-or_else (check_initiator inet4 inet6 igp iqn addr name)
        (check_group inet4 inet6 igp iqn addr names) (see_initiator iqn name) (see_group iqn names)
        (check_initiator-at_most igp iqn addr name) (check_group-at_most igp iqn addr names)

  check-none :
      (groups : List InitiatorGroup) (pg_tag : ℕ) (iqn addr : Name) (m : LuMap) (ms : List LuMap)
      → find_initiatorgroup groups m.ig_tag ≡ none
      → check_maps inet4 inet6 groups pg_tag iqn addr (m ∷ ms)
        ≡ check_maps inet4 inet6 groups pg_tag iqn addr ms
  unfolding check_maps
  check-none groups pg_tag iqn addr m ms e = rw e (ground arith)

  check-some :
      (groups : List InitiatorGroup) (pg_tag : ℕ) (iqn addr : Name) (m : LuMap) (ms : List LuMap)
      (igp : InitiatorGroup)
      → m.pg_tag ≡ pg_tag
      → find_initiatorgroup groups m.ig_tag ≡ some igp
      → check_maps inet4 inet6 groups pg_tag iqn addr (m ∷ ms)
        ≡ or_else
            (check_group inet4 inet6 igp iqn addr igp.initiators)
            (check_maps inet4 inet6 groups pg_tag iqn addr ms)
  unfolding check_maps
  check-some groups pg_tag iqn addr m ms igp p e = rw e (ground (arith, p))

  check_maps-at_most :
      (groups : List InitiatorGroup) (pg_tag : ℕ) (iqn addr : Name) (maps : List LuMap)
      → All (λ (m : LuMap). m.pg_tag ≡ pg_tag) maps
      → at_most (check_maps inet4 inet6 groups pg_tag iqn addr maps) (see_maps groups iqn maps)
        ≡ true
  unfolding check_maps see_maps
  check_maps-at_most groups pg_tag iqn addr [] h = refl
  check_maps-at_most groups pg_tag iqn addr (m ∷ ms) h =
      let next = check_maps-at_most groups pg_tag iqn addr ms h.1 in
      elim (Option-cases (find_initiatorgroup groups m.ig_tag)) [
        | inl e ↦ rw (check-none groups pg_tag iqn addr m ms e, see-none groups iqn m ms e) next
        | inr (igp, e) ↦
            rw (check-some groups pg_tag iqn addr m ms igp h.0 e, see-some groups iqn m ms igp e)
              (at_most-or_else (check_group inet4 inet6 igp iqn addr igp.initiators)
                (check_maps inet4 inet6 groups pg_tag iqn addr ms) (see_group iqn igp.initiators)
                (see_maps groups iqn ms) (check_group-at_most igp iqn addr igp.initiators) next)
      ]

  is_allow-at_most : (v w : Verdict) → at_most v w ≡ true → is_allow v ≡ true → is_allow w ≡ true
  is_allow-at_most allow w h k = h
  is_allow-at_most deny w h k = cc
  is_allow-at_most go_on w h k = cc

  -- Where all maps of a target are for the portal group of the connection, an initiator that may
  -- use the target from its address also sees the target, whatever inet_pton reads from the
  -- netmasks.
  pub lu_visible-lu_access :
      (groups : List InitiatorGroup) (pg_tag : ℕ) (iqn addr : Name) (maps : List LuMap)
      → All (λ (m : LuMap). m.pg_tag ≡ pg_tag) maps
      → lu_access inet4 inet6 groups pg_tag iqn addr maps ≡ true
      → lu_visible groups iqn pg_tag maps ≡ true
  unfolding lu_access lu_visible check_maps
  lu_visible-lu_access groups pg_tag iqn addr [] h ok = cc
  lu_visible-lu_access groups pg_tag iqn addr (m ∷ ms) h ok =
      let seen =
        is_allow-at_most (check_maps inet4 inet6 groups pg_tag iqn addr (m ∷ ms))
          (see_maps groups iqn (m ∷ ms)) (check_maps-at_most groups pg_tag iqn addr (m ∷ ms) h)
          ok in
      ground (arith, h.0, seen)
