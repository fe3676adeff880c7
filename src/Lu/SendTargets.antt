-- ===== src/Lu/SendTargets.antt =====
-- The list of targets that an initiator gets (src/istgt/istgt_lu.c: istgt_lu_sendtargets), without
-- the mutex.
pub mod Lines
pub mod Room
pub mod Overrun
use istgt.Prelude.{
  ℕ, ◌+◌, ◌-◌, List, [], ◌∷◌, ◌++◌, length, take, Bool, true, false, ◌&&◌, ◌||◌, not, Option, none,
  some, if◌then◌else◌, ◌==◌, ltb, Name, str_case_eq, any,
}
use istgt.Misc.Strings.{codes, print_int}
use istgt.Lu.Access.{LuMap, InitiatorGroup, lu_visible, pg_visible}

-- AF_INET, AF_INET6 and the rest
pub data Family : Type 0 where
  af_inet : Family
  af_inet6 : Family
  af_other : Family

pub record Portal : Type 0 where
  pub host : Name
  pub port : Name
  pub tag : ℕ

pub record PortalGroupList : Type 0 where
  pub tag : ℕ
  pub portals : List Portal

-- A target: ISTGT_LU.
pub record Target : Type 0 where
  pub name : Name
  pub maps : List LuMap

-- What is used of the daemon: a slot of `logical_unit` may be empty.
pub record Istgt : Type 0 where
  pub logical_unit : List (Option Target)
  pub initiator_groups : List InitiatorGroup
  pub portal_groups : List PortalGroupList

-- What is used of the connection.
pub record Caller : Type 0 where
  pub portal_tag : ℕ
  pub initiator_family : Family
  pub target_addr : Name

-- The text so far; whether snprintf was given a negative length, which is a large size_t, so that
-- it wrote behind the buffer; and whether the function has returned.
pub record Listing : Type 0 where
  pub bytes : List ℕ
  pub total : ℕ
  pub overrun : Bool
  pub ended : Bool

-- `len = snprintf(data + total, alloc_len - total, ...); total += len + 1`
unfoldable pub put_line : (alloc_len : ℕ) → (line : Name) → Listing → Listing
put_line alloc_len line out = record out {
  bytes =
      if ltb out.total alloc_len
      then out.bytes ++ (take (alloc_len - out.total - 1) line ++ 0 ∷ [])
      else out.bytes;
  total = out.total + length line + 1;
  overrun = out.overrun || ltb alloc_len out.total;
}

unfoldable pub is_wildcard : Name → Name → Name → Bool
is_wildcard a b host = str_case_eq host a || str_case_eq host b

abbrev pub is_inet6 : Family → Bool
is_inet6 af_inet6 = true
is_inet6 af_inet = false
is_inet6 af_other = false

abbrev pub is_inet : Family → Bool
is_inet af_inet = true
is_inet af_inet6 = false
is_inet af_other = false

-- The address to show for a portal, unless it is skipped.
unfoldable pub shown_host : Caller → (host : Name) → Option Name
shown_host conn host =
    let any6 = is_wildcard (codes "[::]") (codes "[*]") host in
    let any4 = is_wildcard (codes "0.0.0.0") (codes "*") host in
    if any6 || any4
    then if any6 && is_inet6 conn.initiator_family
      then some (b'[' ∷ (conn.target_addr ++ b']' ∷ []))
      else if any4 && is_inet conn.initiator_family
      then some conn.target_addr
      else none
    else some host

abbrev pub name_line : Name → Name
name_line name = codes "TargetName=" ++ name

abbrev pub address_line : (host : Name) → Portal → Name
address_line host p = codes "TargetAddress=" ++ host ++ b':' ∷ (p.port ++ b',' ∷ print_int p.tag)

unfoldable pub put_portal : Caller → (alloc_len : ℕ) → Portal → Listing → Listing
put_portal conn alloc_len p out =
    if out.ended
    then out
    else if ltb (alloc_len - out.total) 1
    then record out { ended = true }
    else elim (shown_host conn p.host) [
      | none ↦ out
      | some host ↦ put_line alloc_len (address_line host p) out
    ]

unfoldable pub put_portals : Caller → (alloc_len : ℕ) → List Portal → Listing → Listing
put_portals conn alloc_len [] out = out
put_portals conn alloc_len (p ∷ ps) out =
    put_portals conn alloc_len ps (put_portal conn alloc_len p out)

unfoldable pub put_groups :
    Caller → (alloc_len pg_tag : ℕ) → List PortalGroupList → Listing → Listing
put_groups conn alloc_len pg_tag [] out = out
put_groups conn alloc_len pg_tag (g ∷ gs) out =
    put_groups conn alloc_len pg_tag gs
      (if g.tag == pg_tag then put_portals conn alloc_len g.portals out else out)

-- The maps of a target, behind those with the tags `seen`.
unfoldable pub put_maps :
    Istgt
    → Caller
    → (iiqn : Name) → Target
    → (alloc_len : ℕ) → (seen : List ℕ) → List LuMap
    → Listing
    → Listing
put_maps istgt conn iiqn lu alloc_len seen [] out = out
put_maps istgt conn iiqn lu alloc_len seen (m ∷ ms) out =
    put_maps istgt conn iiqn lu alloc_len (m.pg_tag ∷ seen) ms (
      if any (λ t. t == m.pg_tag) seen
        || not (pg_visible istgt.initiator_groups iiqn m.pg_tag lu.maps)
      then out
      else put_groups conn alloc_len m.pg_tag istgt.portal_groups out)

-- A target that is asked for and that the initiator sees.
unfoldable pub is_listed : Istgt → Caller → (iiqn tiqn : Name) → Target → Bool
is_listed istgt conn iiqn tiqn lu =
    (str_case_eq tiqn (codes "ALL") || str_case_eq tiqn lu.name)
    && lu_visible istgt.initiator_groups iiqn conn.portal_tag lu.maps

unfoldable pub put_target :
    Istgt → Caller → (iiqn tiqn : Name) → (alloc_len : ℕ) → Target → Listing → Listing
put_target istgt conn iiqn tiqn alloc_len lu out =
    if out.ended || not (is_listed istgt conn iiqn tiqn lu)
    then out
    else put_maps istgt conn iiqn lu alloc_len [] lu.maps
        (put_line alloc_len (name_line lu.name) out)

unfoldable pub put_targets :
    Istgt → Caller → (iiqn tiqn : Name) → (alloc_len : ℕ) → List (Option Target) → Listing → Listing
put_targets istgt conn iiqn tiqn alloc_len [] out = out
put_targets istgt conn iiqn tiqn alloc_len (none ∷ lus) out =
    put_targets istgt conn iiqn tiqn alloc_len lus out
put_targets istgt conn iiqn tiqn alloc_len (some lu ∷ lus) out =
    put_targets istgt conn iiqn tiqn alloc_len lus
      (put_target istgt conn iiqn tiqn alloc_len lu out)

-- From a text of which nothing is cut off, `bytes`.
unfoldable pub sendtargets :
    Istgt → Caller → (iiqn tiqn : Name) → (alloc_len : ℕ) → (bytes : List ℕ) → Listing
sendtargets istgt conn iiqn tiqn alloc_len bytes =
    let out : Listing = record {
      bytes = bytes;
      total = length bytes;
      overrun = false;
      ended = false;
    } in
    if ltb alloc_len 1
    then record { bytes = []; total = 0; overrun = false; ended = true }
    else if ltb alloc_len (length bytes)
    then record {
      bytes = take (alloc_len - 1) bytes ++ 0 ∷ [];
      total = alloc_len;
      overrun = false;
      ended = true;
    }
    else if ltb (alloc_len - length bytes) 1
    then record out { ended = true }
    else put_targets istgt conn iiqn tiqn alloc_len istgt.logical_unit out
