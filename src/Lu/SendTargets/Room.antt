-- ===== src/Lu/SendTargets/Room.antt =====
-- What SendTargets answers where the buffer has room (src/istgt/istgt_lu.c: istgt_lu_sendtargets).
use mathlib.Core.List.{append-nil, append_assoc}
use istgt.Prelude.{
  ℕ, ◌+◌, ◌-◌, ◌<◌, List, [], ◌∷◌, ◌++◌, length, length-append, take-all, Bool, true, false, ◌||◌,
  not, Option, none, some, if◌then◌else◌, ◌==◌, ltb, Name, any, ◌≡◌, refl, subst, sym, ap, ◌∙◌,
  arith, inl, inr, Bool-cases, Option-cases,
}
use istgt.Lu.Access.{LuMap, pg_visible}
use istgt.Lu.SendTargets.{
  Portal, PortalGroupList, Target, Istgt, Caller, Listing, put_line, shown_host, name_line,
  address_line, put_portal, put_portals, put_groups, put_maps, is_listed, put_target, put_targets,
  sendtargets,
}
use istgt.Lu.SendTargets.Lines.{
  flat, portal_line, portal_lines, group_lines, map_lines, target_lines,
}

-- The listing with more lines.
abbrev pub after : List Name → Listing → Listing
after lines out = record out {
  bytes = out.bytes ++ flat lines;
  total = out.total + length (flat lines);
}

flat-append : (xs ys : List Name) → flat (xs ++ ys) ≡ flat xs ++ flat ys
flat-append [] ys = refl
flat-append (x ∷ xs) ys =
    ap (λ t. x ++ 0 ∷ t) (flat-append xs ys) ∙ sym (append_assoc x (0 ∷ flat xs) (flat ys))

length-flat : (xs ys : List Name) → length (flat (xs ++ ys)) ≡ length (flat xs) + length (flat ys)
length-flat xs ys = ap length (flat-append xs ys) ∙ length-append (flat xs) (flat ys)

after-nil : (out : Listing) → after [] out ≡ out
after-nil out = λ i. record out { bytes = append-nil out.bytes i; total = zero_right i }
  where
    zero_right : out.total + 0 ≡ out.total
    zero_right = omega arith

after-append : (xs ys : List Name) (out : Listing) → after ys (after xs out) ≡ after (xs ++ ys) out
after-append xs ys out = λ i. record out { bytes = same_bytes i; total = same_total i }
  where
    same_bytes : (out.bytes ++ flat xs) ++ flat ys ≡ out.bytes ++ flat (xs ++ ys)
    same_bytes =
        append_assoc out.bytes (flat xs) (flat ys)
        ∙ ap (λ t. out.bytes ++ t) (sym (flat-append xs ys))

    same_total :
        out.total + length (flat xs) + length (flat ys) ≡ out.total + length (flat (xs ++ ys))
    same_total = omega (arith, length-flat xs ys)

-- The function goes on, and has not written behind the buffer.
abbrev pub IsOpen : Listing → Type 0
IsOpen out = (out.ended ≡ false) × (out.overrun ≡ false)

put_line-after :
    (alloc_len : ℕ) (line : Name) (out : Listing)
    → IsOpen out
    → out.total + length (flat (line ∷ [])) < alloc_len
    → put_line alloc_len line out ≡ after (line ∷ []) out
unfolding put_line
put_line-after alloc_len line out o room =
    let n = length-append line (0 ∷ []) in
    rw (take-all (alloc_len - out.total - 1) line (omega (arith, n, room)))
      (ground (arith, n, room, o.1))

-- There is room for the lines, and a byte more.
abbrev pub HasRoom : (alloc_len : ℕ) → List Name → Listing → Type 0
HasRoom alloc_len lines out = out.total + length (flat lines) < alloc_len

HasRoom-left :
    (alloc_len : ℕ) (xs ys : List Name) (out : Listing)
    → HasRoom alloc_len (xs ++ ys) out
    → HasRoom alloc_len xs out
HasRoom-left alloc_len xs ys out h = omega (arith, length-flat xs ys, h)

HasRoom-after :
    (alloc_len : ℕ) (xs ys : List Name) (out : Listing)
    → HasRoom alloc_len (xs ++ ys) out
    → HasRoom alloc_len ys (after xs out)
HasRoom-after alloc_len xs ys out h = omega (arith, length-flat xs ys, h)

module _ (conn : Caller) (alloc_len : ℕ) where
  put_portal-none :
      (p : Portal) (out : Listing)
      → shown_host conn p.host ≡ none
      → IsOpen out
      → HasRoom alloc_len [] out
      → (put_portal conn alloc_len p out ≡ out) × (portal_line conn p ≡ [])
  unfolding put_portal portal_line
  put_portal-none p out e o room =
      let goes_on : ltb (alloc_len - out.total) 1 ≡ false = ground (arith, room) in
      (simp (o.0, goes_on, e) refl, rw (portal_line, e) refl)

  put_portal-some :
      (p : Portal) (host : Name) (out : Listing)
      → shown_host conn p.host ≡ some host
      → IsOpen out
      → HasRoom alloc_len [] out
      → (put_portal conn alloc_len p out ≡ put_line alloc_len (address_line host p) out)
        × (portal_line conn p ≡ address_line host p ∷ [])
  unfolding put_portal portal_line
  put_portal-some p host out e o room =
      let goes_on : ltb (alloc_len - out.total) 1 ≡ false = ground (arith, room) in
      (simp (o.0, goes_on, e) refl, rw (portal_line, e) refl)

  put_portal-after :
      (p : Portal) (out : Listing)
      → IsOpen out
      → HasRoom alloc_len (portal_line conn p) out
      → put_portal conn alloc_len p out ≡ after (portal_line conn p) out
  put_portal-after p out o room =
      let some_room : HasRoom alloc_len [] out = omega (arith, room) in
      elim (Option-cases (shown_host conn p.host)) [
        | inl e ↦
            let r = put_portal-none p out e o some_room in
            r.0 ∙ sym (after-nil out) ∙ ap (λ l. after l out) (sym r.1)
        | inr (host, e) ↦
            let r = put_portal-some p host out e o some_room in
            r.0
            ∙ put_line-after alloc_len (address_line host p) out o
                (subst (λ l. HasRoom alloc_len l out) r.1 room)
            ∙ ap (λ l. after l out) (sym r.1)
      ]

  put_portals-after :
      (ps : List Portal) (out : Listing)
      → IsOpen out
      → HasRoom alloc_len (portal_lines conn ps) out
      → put_portals conn alloc_len ps out ≡ after (portal_lines conn ps) out
  unfolding put_portals portal_lines
  put_portals-after [] out o room = sym (after-nil out)
  put_portals-after (p ∷ ps) out o room =
      let xs = portal_line conn p in
      let ys = portal_lines conn ps in
      ap (λ r. put_portals conn alloc_len ps r)
        (put_portal-after p out o (HasRoom-left alloc_len xs ys out room))
      ∙ put_portals-after ps (after xs out) o (HasRoom-after alloc_len xs ys out room)
      ∙ after-append xs ys out

  -- A step that is taken or not.
  after-if :
      (b : Bool) (xs : List Name) (out stepped : Listing)
      → (HasRoom alloc_len xs out → stepped ≡ after xs out)
      → HasRoom alloc_len (if b then xs else []) out
      → (if b then stepped else out) ≡ after (if b then xs else []) out
  after-if true xs out stepped h room = h room
  after-if false xs out stepped h room = sym (after-nil out)

  put_groups-after :
      (pg_tag : ℕ) (gs : List PortalGroupList) (out : Listing)
      → IsOpen out
      → HasRoom alloc_len (group_lines conn pg_tag gs) out
      → put_groups conn alloc_len pg_tag gs out ≡ after (group_lines conn pg_tag gs) out
  unfolding put_groups group_lines
  put_groups-after pg_tag [] out o room = sym (after-nil out)
  put_groups-after pg_tag (g ∷ gs) out o room =
      let xs = if g.tag == pg_tag then portal_lines conn g.portals else [] in
      let ys = group_lines conn pg_tag gs in
      ap (λ r. put_groups conn alloc_len pg_tag gs r)
        (after-if (g.tag == pg_tag) (portal_lines conn g.portals) out
          (put_portals conn alloc_len g.portals out) (put_portals-after g.portals out o)
          (HasRoom-left alloc_len xs ys out room))
      ∙ put_groups-after pg_tag gs (after xs out) o (HasRoom-after alloc_len xs ys out room)
      ∙ after-append xs ys out

  after-unless :
      (b : Bool) (xs : List Name) (out stepped : Listing)
      → (HasRoom alloc_len xs out → stepped ≡ after xs out)
      → HasRoom alloc_len (if b then [] else xs) out
      → (if b then out else stepped) ≡ after (if b then [] else xs) out
  after-unless true xs out stepped h room = sym (after-nil out)
  after-unless false xs out stepped h room = h room

  module _ (istgt : Istgt) (iiqn : Name) where
    put_maps-after :
        (lu : Target) (seen : List ℕ) (ms : List LuMap) (out : Listing)
        → IsOpen out
        → HasRoom alloc_len (map_lines istgt conn iiqn lu seen ms) out
        → put_maps istgt conn iiqn lu alloc_len seen ms out
          ≡ after (map_lines istgt conn iiqn lu seen ms) out
    unfolding put_maps map_lines
    put_maps-after lu seen [] out o room = sym (after-nil out)
    put_maps-after lu seen (m ∷ ms) out o room =
        let skip =
          any (λ t. t == m.pg_tag) seen
          || not (pg_visible istgt.initiator_groups iiqn m.pg_tag lu.maps) in
        let gl = group_lines conn m.pg_tag istgt.portal_groups in
        let xs = if skip then [] else gl in
        let ys = map_lines istgt conn iiqn lu (m.pg_tag ∷ seen) ms in
        ap (λ r. put_maps istgt conn iiqn lu alloc_len (m.pg_tag ∷ seen) ms r)
          (after-unless skip gl out (put_groups conn alloc_len m.pg_tag istgt.portal_groups out)
            (put_groups-after m.pg_tag istgt.portal_groups out o)
            (HasRoom-left alloc_len xs ys out room))
        ∙ put_maps-after lu (m.pg_tag ∷ seen) ms (after xs out) o
            (HasRoom-after alloc_len xs ys out room)
        ∙ after-append xs ys out

    put_target-listed :
        (tiqn : Name) (lu : Target) (out : Listing)
        → out.ended ≡ false
        → is_listed istgt conn iiqn tiqn lu ≡ true
        → put_target istgt conn iiqn tiqn alloc_len lu out
          ≡ put_maps istgt conn iiqn lu alloc_len [] lu.maps
              (put_line alloc_len (name_line lu.name) out)
    unfolding put_target
    put_target-listed tiqn lu out o e = simp (o, e) refl

    put_target-other :
        (tiqn : Name) (lu : Target) (out : Listing)
        → is_listed istgt conn iiqn tiqn lu ≡ false
        → put_target istgt conn iiqn tiqn alloc_len lu out ≡ out
    unfolding put_target
    put_target-other tiqn lu out e = ground (arith, e)

    put_target-after :
        (tiqn : Name) (lu : Target) (out : Listing)
        → IsOpen out
        → let ls = name_line lu.name ∷ map_lines istgt conn iiqn lu [] lu.maps in
          HasRoom alloc_len (if is_listed istgt conn iiqn tiqn lu then ls else []) out
          → put_target istgt conn iiqn tiqn alloc_len lu out
            ≡ after (if is_listed istgt conn iiqn tiqn lu then ls else []) out
    put_target-after tiqn lu out o room = elim (Bool-cases (is_listed istgt conn iiqn tiqn lu)) [
      | inr e ↦ rw e (put_target-other tiqn lu out e ∙ sym (after-nil out))
      | inl e ↦
          let first = name_line lu.name ∷ [] in
          let ml = map_lines istgt conn iiqn lu [] lu.maps in
          let enough : HasRoom alloc_len (first ++ ml) out =
            subst (λ b. HasRoom alloc_len (if b then first ++ ml else []) out) e room in
          rw e (
            put_target-listed tiqn lu out o.0 e
            ∙ ap (λ r. put_maps istgt conn iiqn lu alloc_len [] lu.maps r)
                (put_line-after alloc_len (name_line lu.name) out o
                  (HasRoom-left alloc_len first ml out enough))
            ∙ put_maps-after lu [] lu.maps (after first out) o
                (HasRoom-after alloc_len first ml out enough)
            ∙ after-append first ml out)
    ]

    put_targets-after :
        (tiqn : Name) (lus : List (Option Target)) (out : Listing)
        → IsOpen out
        → HasRoom alloc_len (target_lines istgt conn iiqn tiqn lus) out
        → put_targets istgt conn iiqn tiqn alloc_len lus out
          ≡ after (target_lines istgt conn iiqn tiqn lus) out
    unfolding put_targets target_lines
    put_targets-after tiqn [] out o room = sym (after-nil out)
    put_targets-after tiqn (none ∷ lus) out o room = put_targets-after tiqn lus out o room
    put_targets-after tiqn (some lu ∷ lus) out o room =
        let ls = name_line lu.name ∷ map_lines istgt conn iiqn lu [] lu.maps in
        let xs = if is_listed istgt conn iiqn tiqn lu then ls else [] in
        let ys = target_lines istgt conn iiqn tiqn lus in
        ap (λ r. put_targets istgt conn iiqn tiqn alloc_len lus r)
          (put_target-after tiqn lu out o (HasRoom-left alloc_len xs ys out room))
        ∙ put_targets-after tiqn lus (after xs out) o (HasRoom-after alloc_len xs ys out room)
        ∙ after-append xs ys out

-- Where the buffer has more room than the text and the lines that are due need, SendTargets adds
-- exactly these: for each target that is asked for and that the initiator sees, its name and the
-- addresses of its portal groups that the initiator sees, each group once; and it neither stops
-- early nor writes behind the buffer.
pub sendtargets-target_lines :
    (istgt : Istgt) (conn : Caller) (iiqn tiqn : Name) (alloc_len : ℕ) (bytes : List ℕ)
    → length bytes + length (flat (target_lines istgt conn iiqn tiqn istgt.logical_unit))
      < alloc_len
    → sendtargets istgt conn iiqn tiqn alloc_len bytes ≡ record {
      bytes = bytes ++ flat (target_lines istgt conn iiqn tiqn istgt.logical_unit);
      total = length bytes + length (flat (target_lines istgt conn iiqn tiqn istgt.logical_unit));
      overrun = false;
      ended = false;
    }
unfolding sendtargets
sendtargets-target_lines istgt conn iiqn tiqn alloc_len bytes room =
    let a : ltb alloc_len 1 ≡ false = ground (arith, room) in
    let b : ltb alloc_len (length bytes) ≡ false = ground (arith, room) in
    let c : ltb (alloc_len - length bytes) 1 ≡ false = ground (arith, room) in
    rw (a, b, c)
      (put_targets-after conn alloc_len istgt iiqn tiqn istgt.logical_unit
        (record { bytes = bytes; total = length bytes; overrun = false; ended = false })
        (refl, refl) room)
