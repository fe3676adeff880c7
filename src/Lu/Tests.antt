-- ===== src/Lu/Tests.antt =====
-- The theorems on session handles and access at small tables.
use istgt.Prelude.{
  false, ℕ, ◌+◌, ◌<◌, length, List, [], ◌∷◌, ◌++◌, true, Option, none, some, ◌==◌, ◌/◌, ◌-◌, ◌^◌,
  Name, if◌then◌else◌, ◌≡◌, ◌≢◌, refl, arith, All, str_eq, str_case_eq, strlwr,
}
use istgt.Misc.Strings.{codes, print_int, digits}
use istgt.Misc.Bytes.{Buf}
use istgt.Lu.Tsih.{
  LuTsih, no_tsih, allocate_tsih, free_tsih, try_tsih, take_tsih, fill_slot, has_tsih,
}
use istgt.Lu.Tsih.Table.{IsTable, IsFresh, in_use, allocate_tsih-IsFresh}
use istgt.Lu.Tsih.Free.{free_tsih-allocate_tsih}
use istgt.Lu.Access.{
  LuMap, InitiatorGroup, lu_access, lu_visible, allow_ipv4, check_maps, check_group,
  check_initiator, find_initiatorgroup, denies, allows_name, pg_visible, see_maps, see_group,
  see_initiator,
}
use istgt.Lu.SendTargets.{
  Portal, Target, Istgt, Caller, af_inet, Listing, put_targets, put_target, put_maps, put_groups,
  put_portals, put_portal, put_line, shown_host, is_wildcard, is_listed, sendtargets,
}
use istgt.Lu.SendTargets.Lines.{
  flat, target_lines, map_lines, group_lines, portal_lines, portal_line,
}
use istgt.Lu.SendTargets.Room.{sendtargets-target_lines}
use istgt.Lu.SendTargets.Overrun.{put_targets-append}
use istgt.Lu.Access.Netmask.{allow_ipv4_lem}
use istgt.Lu.Access.Visible.{lu_visible-lu_access}

no_tsih-IsTable : IsTable no_tsih
unfolding IsTable has_tsih
no_tsih-IsTable = (refl, refl, refl, refl)

allocate_tsih-IsFresh_example :
    IsFresh no_tsih (some (codes "a")) (allocate_tsih no_tsih (some (codes "a")) 1) 1
allocate_tsih-IsFresh_example = allocate_tsih-IsFresh no_tsih (some (codes "a")) 1 1 no_tsih-IsTable

first_handle : (allocate_tsih no_tsih (some (codes "a")) 1).0 ≡ 1
unfolding allocate_tsih try_tsih take_tsih fill_slot has_tsih
first_handle = refl

first_handle-nonzero : (allocate_tsih no_tsih (some (codes "a")) 1).0 ≢ 0
first_handle-nonzero e = absurd (omega (arith, e, first_handle))

abbrev one_session : ℕ × LuTsih
one_session = allocate_tsih no_tsih (some (codes "a")) 1

free_tsih-allocate_tsih_example :
    IsTable (free_tsih one_session.1 one_session.0 (some (codes "a")))
    × (in_use 1 (free_tsih one_session.1 one_session.0 (some (codes "a"))).slots
        ≡ in_use 1 no_tsih.slots)
free_tsih-allocate_tsih_example =
    free_tsih-allocate_tsih no_tsih (codes "a") 1 1 no_tsih-IsTable first_handle-nonzero

-- inet_pton of two addresses, 10.0.0.1 and 10.0.0.9.
abbrev inet4 : Name → Option ℕ
inet4 s = if str_eq s (codes "10.0.0.1") then some 0x0a000001 else some 0x0a000009

abbrev inet6 : Name → Option Buf
inet6 s = none

abbrev groups : List InitiatorGroup
groups = (record { tag = 1; initiators = codes "ALL" ∷ []; netmasks = [] }) ∷ []

abbrev maps : List LuMap
maps = (record { pg_tag = 1; ig_tag = 1 }) ∷ []

may_use : lu_access inet4 inet6 groups 1 (codes "iqn.a") (codes "10.0.0.1") maps ≡ true
unfolding lu_access check_maps check_group check_initiator find_initiatorgroup denies allows_name
    str_case_eq str_eq strlwr
may_use = refl

lu_visible-lu_access_example : lu_visible groups (codes "iqn.a") 1 maps ≡ true
lu_visible-lu_access_example =
    lu_visible-lu_access inet4 inet6 groups 1 (codes "iqn.a") (codes "10.0.0.1") maps (refl, tt)
      may_use

host-one : inet4 (codes "10.0.0.1") ≡ some 0x0a000001
unfolding str_eq
host-one = refl

host-nine : inet4 (codes "10.0.0.9") ≡ some 0x0a000009
unfolding str_eq
host-nine = refl

no_slash : All (λ d. d ≢ b'/') (codes "10.0.0.1")
no_slash = (
  (λ e. absurd (omega (arith, e))),
  (
    (λ e. absurd (omega (arith, e))),
    (
      (λ e. absurd (omega (arith, e))),
      (
        (λ e. absurd (omega (arith, e))),
        (
          (λ e. absurd (omega (arith, e))),
          (
            (λ e. absurd (omega (arith, e))),
            ((λ e. absurd (omega (arith, e))), ((λ e. absurd (omega (arith, e))), tt)),
          ),
        ),
      ),
    ),
  ),
)

allow_ipv4_lem_example :
    allow_ipv4 inet4 inet6 (codes "10.0.0.1" ++ b'/' ∷ print_int 24) (codes "10.0.0.9")
    ≡ (0x0a000001 / 2 ^ (32 - 24) == 0x0a000009 / 2 ^ (32 - 24))
allow_ipv4_lem_example =
    allow_ipv4_lem inet4 inet6 (codes "10.0.0.1") (codes "10.0.0.9") 24 0x0a000001 0x0a000009
      host-one host-nine (omega arith) (omega arith) (omega arith) no_slash (omega arith)

-- Two targets behind one portal.
abbrev portal : Portal
portal = record { host = codes "h"; port = codes "1"; tag = 1 }

abbrev target_a : Target
target_a = record { name = codes "a"; maps = maps }

abbrev target_b : Target
target_b = record { name = codes "b"; maps = maps }

abbrev daemon : Istgt
daemon = record {
  logical_unit = some target_a ∷ some target_b ∷ [];
  initiator_groups = groups;
  portal_groups = (record { tag = 1; portals = portal ∷ [] }) ∷ [];
}

abbrev caller : Caller
caller = record { portal_tag = 1; initiator_family = af_inet; target_addr = codes "10.0.0.1" }

abbrev all : Name
all = codes "ALL"

lines-fit : length (flat (target_lines daemon caller (codes "i") all daemon.logical_unit)) < 100
unfolding target_lines map_lines group_lines portal_lines portal_line shown_host is_wildcard
    is_listed lu_visible pg_visible see_maps see_group see_initiator find_initiatorgroup denies
    allows_name str_case_eq str_eq strlwr print_int digits
lines-fit = omega arith

sendtargets-target_lines_example : sendtargets daemon caller (codes "i") all 100 [] ≡ record {
  bytes = [] ++ flat (target_lines daemon caller (codes "i") all daemon.logical_unit);
  total = 0 + length (flat (target_lines daemon caller (codes "i") all daemon.logical_unit));
  overrun = false;
  ended = false;
}
sendtargets-target_lines_example =
    sendtargets-target_lines daemon caller (codes "i") all 100 [] (omega (arith, lines-fit))

-- A buffer of 20 bytes, in which the first name fits and the address behind it does not.
abbrev nothing : Listing
nothing = record { bytes = []; total = 0; overrun = false; ended = false }

abbrev behind_a : Listing
behind_a = put_targets daemon caller (codes "i") all 20 (some target_a ∷ []) nothing

cut_off :
    (behind_a.ended ≡ false)
    × (behind_a.total ≡ 33)
    × (is_listed daemon caller (codes "i") all target_b ≡ true)
unfolding put_targets put_target put_maps put_groups put_portals put_portal put_line shown_host
    is_wildcard is_listed lu_visible pg_visible see_maps see_group see_initiator find_initiatorgroup
    denies allows_name str_case_eq str_eq strlwr print_int digits
cut_off = (refl, refl, refl)

put_targets-append_example :
    (put_targets daemon caller
      (codes "i")
      all
      20
      ((some target_a ∷ []) ++ some target_b ∷ [])
      nothing).overrun
    ≡ true
put_targets-append_example =
    put_targets-append daemon caller (codes "i") all 20 (some target_a ∷ []) [] target_b nothing
      cut_off.0 (omega (arith, cut_off.1)) cut_off.2
