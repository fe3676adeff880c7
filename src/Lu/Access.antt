-- ===== src/Lu/Access.antt =====
-- Who may use a target, and who sees it (src/istgt/istgt_lu.c: istgt_lu_allow_ipv6,
-- istgt_lu_allow_ipv4, istgt_lu_allow_netmask, istgt_lu_access, istgt_lu_visible,
-- istgt_pg_visible, istgt_lu_find_initiatorgroup). inet_pton is an argument: for AF_INET the
-- address as a 32-bit number, for AF_INET6 its 16 bytes.
pub mod Netmask
pub mod Visible
use Prim.Native.String.{String}
use istgt.Prelude.{
  ℕ, zero, suc, ◌+◌, ◌-◌, ◌*◌, ◌/◌, ◌%◌, ◌^◌, List, [], ◌∷◌, length, Bool, true, false, ◌&&◌, ◌||◌,
  not, Option, none, some, if◌then◌else◌, ◌==◌, ◌!=◌, ltb, Name, str_case_eq, find?, any,
}
use istgt.Misc.Strings.{codes, strtol, int_ltb}
use istgt.Misc.Bytes.{Buf}

-- MAX_MASKBUF
abbrev pub max_maskbuf : ℕ
max_maskbuf = 128

-- What stands in front of a character, and behind it, if it is there.
unfoldable pub split_at : (c : ℕ) → Name → Name × Option Name
split_at c [] = ([], none)
split_at c (d ∷ s) =
    let rest = split_at c s in if d == c then ([], some s) else (d ∷ rest.0, rest.1)

-- The number behind the '/', and else all bits.
unfoldable pub mask_bits : (width : ℕ) → Option Name → ℕ
mask_bits width none = width
mask_bits width (some s) = strtol s

abbrev pub is_bad_mask : (width bits : ℕ) → Bool
is_bad_mask width bits = int_ltb bits 0 || int_ltb width bits

-- `x & bmask`, where the mask clears the lowest `low` bits.
abbrev pub clear_low : (low x : ℕ) → ℕ
clear_low low x = x / 2 ^ low * 2 ^ low

-- `bmask` has 0 to 31 bits of 0.
unfoldable pub same_ipv4 : (bits : ℕ) → (mask addr : ℕ) → Bool
same_ipv4 bits mask addr =
    if ltb 0 bits then clear_low (32 - bits) mask == clear_low (32 - bits) addr else true

-- The bytes from `i` on: `whole` bytes, and then the highest `part` bits of one.
unfoldable pub same_ipv6 : (whole part i : ℕ) → (mask addr : Buf) → Bool
same_ipv6 zero part i mask addr =
    part == 0 || clear_low (8 - part) (mask i) == clear_low (8 - part) (addr i)
same_ipv6 (suc whole) part i mask addr =
    let rest = same_ipv6 whole part (suc i) mask addr in if mask i != addr i then false else rest

-- The map of a target, and the initiator groups.
pub record LuMap : Type 0 where
  pub pg_tag : ℕ
  pub ig_tag : ℕ

pub record InitiatorGroup : Type 0 where
  pub tag : ℕ
  pub initiators : List Name
  pub netmasks : List Name

unfoldable pub find_initiatorgroup : List InitiatorGroup → (tag : ℕ) → Option InitiatorGroup
find_initiatorgroup groups tag = find? (λ igp. igp.tag == tag) groups

-- `!NAME`: the name is "ALL" or the initiator's.
unfoldable pub denies : (iqn : Name) → Name → Bool
denies iqn [] = false
denies iqn (c ∷ name) = c == b'!' && (str_case_eq name (codes "ALL") || str_case_eq name iqn)

unfoldable pub allows_name : (iqn : Name) → Name → Bool
allows_name iqn name = str_case_eq name (codes "ALL") || str_case_eq name iqn

-- What an entry decides: to return 0, to return 1, or to go on.
pub data Verdict : Type 0 where
  deny : Verdict
  allow : Verdict
  go_on : Verdict

-- The rest of a loop counts if it goes on.
abbrev pub or_else : Verdict → Verdict → Verdict
or_else deny rest = deny
or_else allow rest = allow
or_else go_on rest = rest

-- A loop that ends without a decision returns 0.
abbrev pub is_allow : Verdict → Bool
is_allow deny = false
is_allow allow = true
is_allow go_on = false

module _ (inet4 : Name → Option ℕ) (inet6 : Name → Option Buf) where
  unfoldable pub allow_ipv6 : (netmask addr : Name) → Bool
  allow_ipv6 [] addr = false
  allow_ipv6 (c ∷ netmask) addr =
      let r = split_at b']' netmask in
      if c != b'[' then false else elim r.1 [
        | none ↦ false
        | some rest ↦
            let bits : ℕ = elim rest [ [] ↦ 128 | d ∷ ds ↦ if d == b'/' then strtol ds else 128 ] in
            if ltb max_maskbuf (length r.0 + 1)
            then false
            else if is_bad_mask 128 bits
            then false
            else elim (inet6 r.0) [
              | none ↦ false
              | some mask ↦ elim (inet6 addr) [
                | none ↦ false
                | some own ↦ same_ipv6 (bits / 8) (bits % 8) 0 mask own
              ]
            ]
      ]

  unfoldable pub allow_ipv4 : (netmask addr : Name) → Bool
  allow_ipv4 netmask addr =
      let r = split_at b'/' netmask in
      let bits = mask_bits 32 r.1 in
      if ltb max_maskbuf (length r.0 + 1)
      then false
      else if is_bad_mask 32 bits
      then false
      else elim (inet4 r.0) [
        | none ↦ false
        | some mask ↦ elim (inet4 addr) [ none ↦ false | some own ↦ same_ipv4 bits mask own ]
      ]

  unfoldable pub allow_netmask : (netmask addr : Name) → Bool
  allow_netmask [] addr = if str_case_eq [] (codes "ALL") then true else allow_ipv4 [] addr
  allow_netmask (c ∷ s) addr =
      if str_case_eq (c ∷ s) (codes "ALL")
      then true
      else if c == b'['
      then allow_ipv6 (c ∷ s) addr
      else allow_ipv4 (c ∷ s) addr

  -- An entry of an initiator group.
  unfoldable pub check_initiator : InitiatorGroup → (iqn addr : Name) → Name → Verdict
  check_initiator igp iqn addr name =
      if denies iqn name
      then deny
      else if allows_name iqn name
      then if length igp.netmasks == 0
        then allow
        else if any (λ netmask. allow_netmask netmask addr) igp.netmasks
        then allow
        else go_on
      else go_on

  unfoldable pub check_group : InitiatorGroup → (iqn addr : Name) → List Name → Verdict
  check_group igp iqn addr [] = go_on
  check_group igp iqn addr (name ∷ names) =
      or_else (check_initiator igp iqn addr name) (check_group igp iqn addr names)

  unfoldable pub check_maps :
      List InitiatorGroup → (pg_tag : ℕ) → (iqn addr : Name) → List LuMap → Verdict
  check_maps groups pg_tag iqn addr [] = go_on
  check_maps groups pg_tag iqn addr (m ∷ ms) =
      let rest = check_maps groups pg_tag iqn addr ms in
      if pg_tag != m.pg_tag then rest else elim (find_initiatorgroup groups m.ig_tag) [
        | none ↦ rest
        | some igp ↦ or_else (check_group igp iqn addr igp.initiators) rest
      ]

  unfoldable pub lu_access :
      List InitiatorGroup → (pg_tag : ℕ) → (iqn addr : Name) → List LuMap → Bool
  lu_access groups pg_tag iqn addr maps = is_allow (check_maps groups pg_tag iqn addr maps)

-- The same without the addresses.
unfoldable pub see_initiator : (iqn : Name) → Name → Verdict
see_initiator iqn name =
    if denies iqn name then deny else if allows_name iqn name then allow else go_on

unfoldable pub see_group : (iqn : Name) → List Name → Verdict
see_group iqn [] = go_on
see_group iqn (name ∷ names) = or_else (see_initiator iqn name) (see_group iqn names)

unfoldable pub see_maps : List InitiatorGroup → (iqn : Name) → List LuMap → Verdict
see_maps groups iqn [] = go_on
see_maps groups iqn (m ∷ ms) =
    let rest = see_maps groups iqn ms in
    elim (find_initiatorgroup groups m.ig_tag) [
      | none ↦ rest
      | some igp ↦ or_else (see_group iqn igp.initiators) rest
    ]

unfoldable pub lu_visible : List InitiatorGroup → (iqn : Name) → (pg_tag : ℕ) → List LuMap → Bool
lu_visible groups iqn pg_tag maps =
    if any (λ (m : LuMap). m.pg_tag == pg_tag) maps
    then is_allow (see_maps groups iqn maps)
    else false

unfoldable pub pg_visible : List InitiatorGroup → (iqn : Name) → (pg_tag : ℕ) → List LuMap → Bool
pg_visible groups iqn pg_tag maps = elim (find? (λ (m : LuMap). m.pg_tag == pg_tag) maps) [
  | none ↦ false
  | some m ↦ elim (find_initiatorgroup groups m.ig_tag) [
    | none ↦ false
    | some igp ↦ is_allow (see_group iqn igp.initiators)
  ]
]
