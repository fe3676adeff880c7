-- ===== src/Lu/SendTargets/Overrun.antt =====
-- What SendTargets does where the buffer is too small (src/istgt/istgt_lu.c: istgt_lu_sendtargets).
use istgt.Prelude.{
  ℕ, ◌<◌, List, [], ◌∷◌, ◌++◌, Bool, true, false, ◌||◌, not, Option, none, some, if◌then◌else◌,
  ◌==◌, ltb, Name, any, ◌≡◌, arith, inl, inr, Option-cases,
}
use istgt.Lu.Access.{LuMap, pg_visible}
use istgt.Lu.SendTargets.{
  Portal, PortalGroupList, Target, Istgt, Caller, Listing, put_line, shown_host, name_line,
  address_line, put_portal, put_portals, put_groups, put_maps, is_listed, put_target, put_targets,
}

put_line-overrun :
    (alloc_len : ℕ) (line : Name) (out : Listing)
    → (out.overrun || ltb alloc_len out.total) ≡ true
    → (put_line alloc_len line out).overrun ≡ true
unfolding put_line
put_line-overrun alloc_len line out h = h

overrun-if :
    (b : Bool) (x y : Listing)
    → x.overrun ≡ true
    → y.overrun ≡ true
    → (if b then x else y).overrun ≡ true
overrun-if true x y h k = h
overrun-if false x y h k = k

module _ (conn : Caller) (alloc_len : ℕ) where
  put_portal-overrun :
      (p : Portal) (out : Listing)
      → out.overrun ≡ true
      → (put_portal conn alloc_len p out).overrun ≡ true
  unfolding put_portal
  put_portal-overrun p out h = elim (Option-cases (shown_host conn p.host)) [
    | inl e ↦ rw e (ground (arith, h))
    | inr (host, e) ↦ rw e (ground (arith, h, put_line-overrun alloc_len (address_line host p) out))
  ]

  put_portals-overrun :
      (ps : List Portal) (out : Listing)
      → out.overrun ≡ true
      → (put_portals conn alloc_len ps out).overrun ≡ true
  unfolding put_portals
  put_portals-overrun [] out h = h
  put_portals-overrun (p ∷ ps) out h =
      put_portals-overrun ps (put_portal conn alloc_len p out) (put_portal-overrun p out h)

  put_groups-overrun :
      (pg_tag : ℕ) (gs : List PortalGroupList) (out : Listing)
      → out.overrun ≡ true
      → (put_groups conn alloc_len pg_tag gs out).overrun ≡ true
  unfolding put_groups
  put_groups-overrun pg_tag [] out h = h
  put_groups-overrun pg_tag (g ∷ gs) out h = put_groups-overrun pg_tag gs _ (
      overrun-if (g.tag == pg_tag) (put_portals conn alloc_len g.portals out) out
        (put_portals-overrun g.portals out h) h)

  module _ (istgt : Istgt) (iiqn : Name) where
    put_maps-overrun :
        (lu : Target) (seen : List ℕ) (ms : List LuMap) (out : Listing)
        → out.overrun ≡ true
        → (put_maps istgt conn iiqn lu alloc_len seen ms out).overrun ≡ true
    unfolding put_maps
    put_maps-overrun lu seen [] out h = h
    put_maps-overrun lu seen (m ∷ ms) out h = put_maps-overrun lu (m.pg_tag ∷ seen) ms _ (
        overrun-if
          (any (λ t. t == m.pg_tag) seen
            || not (pg_visible istgt.initiator_groups iiqn m.pg_tag lu.maps))
          out (put_groups conn alloc_len m.pg_tag istgt.portal_groups out) h
          (put_groups-overrun m.pg_tag istgt.portal_groups out h))

    put_target-overrun :
        (tiqn : Name) (lu : Target) (out : Listing)
        → out.overrun ≡ true
        → (put_target istgt conn iiqn tiqn alloc_len lu out).overrun ≡ true
    unfolding put_target
    put_target-overrun tiqn lu out h = ground (
      arith,
      h,
      put_maps-overrun lu [] lu.maps (put_line alloc_len (name_line lu.name) out),
      put_line-overrun alloc_len (name_line lu.name) out,
    )

    put_targets-overrun :
        (tiqn : Name) (lus : List (Option Target)) (out : Listing)
        → out.overrun ≡ true
        → (put_targets istgt conn iiqn tiqn alloc_len lus out).overrun ≡ true
    unfolding put_targets
    put_targets-overrun tiqn [] out h = h
    put_targets-overrun tiqn (none ∷ lus) out h = put_targets-overrun tiqn lus out h
    put_targets-overrun tiqn (some lu ∷ lus) out h =
        put_targets-overrun tiqn lus (put_target istgt conn iiqn tiqn alloc_len lu out)
          (put_target-overrun tiqn lu out h)

-- Where the loop of SendTargets has come behind some targets, the text so far is longer than the
-- buffer (its last line was cut off), and one more target is listed, the call writes behind the
-- buffer, whatever comes after that target.
pub put_targets-append :
    (istgt : Istgt) (conn : Caller) (iiqn tiqn : Name) (alloc_len : ℕ)
    (before after : List (Option Target)) (lu : Target) (out : Listing)
    → (put_targets istgt conn iiqn tiqn alloc_len before out).ended ≡ false
    → alloc_len < (put_targets istgt conn iiqn tiqn alloc_len before out).total
    → is_listed istgt conn iiqn tiqn lu ≡ true
    → (put_targets istgt conn iiqn tiqn alloc_len (before ++ some lu ∷ after) out).overrun ≡ true
unfolding put_targets put_target
put_targets-append istgt conn iiqn tiqn alloc_len [] after lu out e long l =
    put_targets-overrun conn alloc_len istgt iiqn tiqn after
      (put_target istgt conn iiqn tiqn alloc_len lu out)
      (ground (
        arith,
        e,
        l,
        put_maps-overrun conn alloc_len istgt iiqn lu [] lu.maps
            (put_line alloc_len (name_line lu.name) out)
            (put_line-overrun alloc_len (name_line lu.name) out (ground (arith, long))),
      ))
put_targets-append istgt conn iiqn tiqn alloc_len (none ∷ before) after lu out e long l =
    put_targets-append istgt conn iiqn tiqn alloc_len before after lu out e long l
put_targets-append istgt conn iiqn tiqn alloc_len (some t ∷ before) after lu out e long l =
    put_targets-append istgt conn iiqn tiqn alloc_len before after lu
      (put_target istgt conn iiqn tiqn alloc_len t out) e long l
