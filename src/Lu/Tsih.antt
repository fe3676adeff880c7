-- ===== src/Lu/Tsih.antt =====
-- The session handles of a target (src/istgt/istgt_lu.c: istgt_lu_allocate_tsih,
-- istgt_lu_free_tsih).
pub mod Table
pub mod Free
use istgt.Prelude.{
  ℕ, zero, suc, ◌+◌, ◌-◌, ◌%◌, ◌^◌, List, [], ◌∷◌, Bool, true, false, ◌&&◌, ◌||◌, not, Option, none,
  some, if◌then◌else◌, ◌==◌, ltb, any, replicate, Name, str_case_eq,
}

-- MAX_LU_TSIH
abbrev pub max_lu_tsih : ℕ
max_lu_tsih = 256

-- ISTGT_LU_TSIH; a slot without a port is free.
pub record TsihSlot : Type 0 where
  pub tag : ℕ
  pub tsih : ℕ
  pub initiator_port : Option Name

-- The fields of the target. The slots are those from 1 on, for slot 0 is never used.
pub record LuTsih : Type 0 where
  pub slots : List TsihSlot
  pub maxtsih : ℕ
  pub last_tsih : ℕ

abbrev pub free_slot : TsihSlot
free_slot = record { tag = 0; tsih = 0; initiator_port = none }

-- The state after istgt_lu_add_unit.
abbrev pub no_tsih : LuTsih
no_tsih = record { slots = replicate (max_lu_tsih - 1) free_slot; maxtsih = 1; last_tsih = 0 }

abbrev pub is_used : TsihSlot → Bool
is_used s = elim s.initiator_port [ none ↦ false | some port ↦ true ]

-- A slot holds the handle.
unfoldable pub has_tsih : ℕ → TsihSlot → Bool
has_tsih tsih s = is_used s && s.tsih == tsih

-- The new entry goes to the first free slot, if there is one.
unfoldable pub fill_slot : TsihSlot → List TsihSlot → Bool × List TsihSlot
fill_slot entry [] = (false, [])
fill_slot entry (s ∷ ss) =
    let rest = fill_slot entry ss in if is_used s then (rest.0, s ∷ rest.1) else (true, entry ∷ ss)

unfoldable pub take_tsih : (tsih : ℕ) → LuTsih → (port : Name) → (tag : ℕ) → ℕ × LuTsih
take_tsih tsih lu port tag =
    let filled =
      fill_slot (record { tag = tag; tsih = tsih; initiator_port = some port }) lu.slots in
    if filled.0
    then (tsih, record lu { slots = filled.1; maxtsih = lu.maxtsih + 1 })
    else (tsih, lu)

-- The attempts: the next number, unless it is 0 or in the list, and the slot that gets it.
unfoldable pub try_tsih : (retry : ℕ) → LuTsih → (port : Name) → (tag : ℕ) → ℕ × LuTsih
try_tsih zero lu port tag =
    let tsih = (lu.last_tsih + 1) % 2 ^ 16 in
    let lu1 = record lu { last_tsih = tsih } in
    if tsih == 0 || any (has_tsih tsih) lu.slots then (0, lu1) else take_tsih tsih lu1 port tag
try_tsih (suc retry) lu port tag =
    let tsih = (lu.last_tsih + 1) % 2 ^ 16 in
    let lu1 = record lu { last_tsih = tsih } in
    let again = try_tsih retry lu1 port tag in
    if tsih == 0 || any (has_tsih tsih) lu.slots then again else take_tsih tsih lu1 port tag

unfoldable pub allocate_tsih : LuTsih → (port : Option Name) → (tag : ℕ) → ℕ × LuTsih
allocate_tsih lu none tag = (0, lu)
allocate_tsih lu (some port) tag =
    if tag == 0
    then (0, lu)
    else if not (ltb lu.maxtsih max_lu_tsih)
    then (0, lu)
    else try_tsih 10 lu port tag

-- A slot holds the handle for the port.
unfoldable pub has_session : (tsih : ℕ) → Name → TsihSlot → Bool
has_session tsih port s =
    has_tsih tsih s && elim s.initiator_port [ none ↦ false | some p ↦ str_case_eq port p ]

-- The first slot of that handle and port is cleared, if there is one.
unfoldable pub clear_slot : (tsih : ℕ) → Name → List TsihSlot → Bool × List TsihSlot
clear_slot tsih port [] = (false, [])
clear_slot tsih port (s ∷ ss) =
    let rest = clear_slot tsih port ss in
    if has_session tsih port s then (true, free_slot ∷ ss) else (rest.0, s ∷ rest.1)

unfoldable pub free_tsih : LuTsih → (tsih : ℕ) → (port : Option Name) → LuTsih
free_tsih lu tsih none = lu
free_tsih lu tsih (some port) =
    let cleared = clear_slot tsih port lu.slots in
    if tsih == 0
    then lu
    else if cleared.0
    then record lu { slots = cleared.1; maxtsih = lu.maxtsih - 1 }
    else lu
