-- ===== src/Lu/Tsih/Table.antt =====
-- The table of session handles (src/istgt/istgt_lu.c: istgt_lu_allocate_tsih).
use istgt.Prelude.{
  ℕ, zero, suc, ◌+◌, ◌-◌, ◌%◌, ◌^◌, ◌≤◌, ◌<◌, List, [], ◌∷◌, length, Bool, true, false, ◌&&◌, ◌||◌,
  not, Option, none, some, ◌==◌, ltb, any, of_bool, Name, str_case_eq, str_eq_refl, strlwr, ◌≡◌,
  refl, sym, ap, ◌∙◌, arith, inl, inr, Bool-cases,
}
use istgt.Lu.Tsih.{
  TsihSlot, LuTsih, is_used, has_tsih, fill_slot, has_session, take_tsih, try_tsih, allocate_tsih,
  max_lu_tsih,
}

-- A session has the handle.
abbrev pub in_use : ℕ → List TsihSlot → Bool
in_use tsih slots = any (has_tsih tsih) slots

abbrev pub used_slots : List TsihSlot → ℕ
used_slots [] = 0
used_slots (s ∷ ss) = of_bool (is_used s) + used_slots ss

-- No two sessions have the same handle.
abbrev pub are_distinct : List TsihSlot → Bool
are_distinct [] = true
are_distinct (s ∷ ss) = not (is_used s && in_use s.tsih ss) && are_distinct ss

-- The handles in use are distinct and not 0, the table has its size, and `maxtsih` counts them.
unfoldable pub IsTable : LuTsih → Type 0
IsTable lu =
    (are_distinct lu.slots ≡ true)
    × (in_use 0 lu.slots ≡ false)
    × (length lu.slots ≡ max_lu_tsih - 1)
    × (lu.maxtsih ≡ suc (used_slots lu.slots))

used_slots-bound : (ss : List TsihSlot) → used_slots ss ≤ length ss
used_slots-bound [] = omega arith
used_slots-bound (s ∷ ss) = ground (arith, used_slots-bound ss)

-- Filling a free slot.
fill_slot_lem :
    (e : TsihSlot) (ss : List TsihSlot) (tsih : ℕ)
    → is_used e ≡ true
    → ((fill_slot e ss).0 ≡ ltb (used_slots ss) (length ss))
      × (length (fill_slot e ss).1 ≡ length ss)
      × (used_slots (fill_slot e ss).1 ≡ used_slots ss + of_bool (fill_slot e ss).0)
      × (in_use tsih (fill_slot e ss).1 ≡ (in_use tsih ss || (fill_slot e ss).0 && e.tsih == tsih))
unfolding fill_slot has_tsih
fill_slot_lem e [] tsih u = (refl, refl, refl, refl)
fill_slot_lem e (s ∷ ss) tsih u =
    let r = fill_slot_lem e ss tsih u in
    let b = used_slots-bound ss in
    elim (Bool-cases (is_used s)) [
      | inl taken ↦
          rw taken
            (ground (arith, r.0), ground (arith, r.1), ground (arith, r.2), ground (arith, r.3))
      | inr free ↦ rw (free, u) (ground (arith, b), refl, ground arith, ground arith)
    ]

fill_slot-are_distinct :
    (e : TsihSlot) (ss : List TsihSlot)
    → is_used e ≡ true
    → in_use e.tsih ss ≡ false
    → are_distinct ss ≡ true
    → are_distinct (fill_slot e ss).1 ≡ true
unfolding fill_slot has_tsih
fill_slot-are_distinct e [] u n d = refl
fill_slot-are_distinct e (s ∷ ss) u n d =
    let r = fill_slot-are_distinct e ss u (ground (arith, n)) (ground (arith, d)) in
    let i = (fill_slot_lem e ss s.tsih u).3 in
    elim (Bool-cases (is_used s)) [
      | inl taken ↦ rw taken (ground (arith, r, i, n, d, taken))
      | inr free ↦ rw (free, u) (ground (arith, n, d, free))
    ]

-- The table has the handle for the port.
abbrev pub is_recorded : ℕ → Option Name → List TsihSlot → Bool
is_recorded tsih none slots = false
is_recorded tsih (some port) slots = any (has_session tsih port) slots

fill_slot-has_session :
    (tag tsih : ℕ) (port : Name) (ss : List TsihSlot)
    → let f = fill_slot (record { tag = tag; tsih = tsih; initiator_port = some port }) ss in
      f.0 ≡ true → any (has_session tsih port) f.1 ≡ true
unfolding fill_slot has_session has_tsih str_case_eq
fill_slot-has_session tag tsih port [] h = cc
fill_slot-has_session tag tsih port (s ∷ ss) h = elim (Bool-cases (is_used s)) [
  | inl taken ↦ rw taken (ground (arith, h, taken, fill_slot-has_session tag tsih port ss))
  | inr free ↦ rw free (ground (arith, str_eq_refl (strlwr port)))
]

-- What an allocation may give, and what it does to the handles in use.
unfoldable pub IsFresh : LuTsih → Option Name → ℕ × LuTsih → (other : ℕ) → Type 0
IsFresh lu port r other =
    IsTable r.1
    × ((r.0 == 0 || not (in_use r.0 lu.slots)) ≡ true)
    × ((r.0 == 0 || is_recorded r.0 port r.1.slots) ≡ true)
    × (in_use other r.1.slots ≡ (in_use other lu.slots || not (r.0 == 0) && r.0 == other))

none-IsFresh :
    (lu lu1 : LuTsih) (port : Option Name) (other : ℕ)
    → IsTable lu
    → lu1.slots ≡ lu.slots
    → lu1.maxtsih ≡ lu.maxtsih
    → IsFresh lu port (0, lu1) other
unfolding IsFresh IsTable
none-IsFresh lu lu1 port other h e m = rw (e, m) (h, refl, refl, ground arith)

take_tsih-IsFresh :
    (lu lu1 : LuTsih) (tsih : ℕ) (port : Name) (tag other : ℕ)
    → IsTable lu
    → lu1.slots ≡ lu.slots
    → lu1.maxtsih ≡ lu.maxtsih
    → lu.maxtsih < max_lu_tsih
    → (tsih == 0 || in_use tsih lu.slots) ≡ false
    → IsFresh lu (some port) (take_tsih tsih lu1 port tag) other
unfolding IsFresh IsTable take_tsih
take_tsih-IsFresh lu lu1 tsih port tag other h e m room new =
    let entry : TsihSlot = record { tag = tag; tsih = tsih; initiator_port = some port } in
    let f = fill_slot_lem entry lu.slots other refl in
    let z = fill_slot_lem entry lu.slots 0 refl in
    let full : (fill_slot entry lu.slots).0 ≡ true = ground (arith, f.0, h.2, h.3, room) in
    let d = fill_slot-are_distinct entry lu.slots refl (ground (arith, new)) h.0 in
    rw (e, m, full)
      (
        (
          d,
          ground (arith, z.3, h.1, new),
          ground (arith, f.1, h.2),
          ground (arith, f.2, full, h.3),
        ),
        ground (arith, new),
        ground (arith, new, full, fill_slot-has_session tag tsih port lu.slots),
        ground (arith, f.3, full, new),
      )

try_tsih-IsFresh :
    (retry : ℕ) (lu lu1 : LuTsih) (port : Name) (tag other : ℕ)
    → IsTable lu
    → lu1.slots ≡ lu.slots
    → lu1.maxtsih ≡ lu.maxtsih
    → lu.maxtsih < max_lu_tsih
    → IsFresh lu (some port) (try_tsih retry lu1 port tag) other
unfolding try_tsih
try_tsih-IsFresh zero lu lu1 port tag other h e m room =
    let tsih = (lu1.last_tsih + 1) % 2 ^ 16 in
    elim (Bool-cases (tsih == 0 || in_use tsih lu1.slots)) [
      | inl bad ↦ rw bad (none-IsFresh lu (record lu1 { last_tsih = tsih }) (some port) other h e m)
      | inr good ↦ rw good (
          take_tsih-IsFresh lu (record lu1 { last_tsih = tsih }) tsih port tag other h e m room
            (ap (λ ss. tsih == 0 || in_use tsih ss) (sym e) ∙ good))
    ]
try_tsih-IsFresh (suc retry) lu lu1 port tag other h e m room =
    let tsih = (lu1.last_tsih + 1) % 2 ^ 16 in
    elim (Bool-cases (tsih == 0 || in_use tsih lu1.slots)) [
      | inl bad ↦
          rw bad
            (try_tsih-IsFresh retry lu (record lu1 { last_tsih = tsih }) port tag other h e m room)
      | inr good ↦ rw good (
          take_tsih-IsFresh lu (record lu1 { last_tsih = tsih }) tsih port tag other h e m room
            (ap (λ ss. tsih == 0 || in_use tsih ss) (sym e) ∙ good))
    ]

-- On a table of handles, an allocation gives 0 and leaves the handles in use as they are, or it
-- gives a handle that no session has, which is then recorded for the port and in use beside the others; the handles in use
-- stay distinct and not 0, the size of the table is kept, and `maxtsih` counts them.
pub allocate_tsih-IsFresh :
    (lu : LuTsih) (port : Option Name) (tag other : ℕ)
    → IsTable lu
    → IsFresh lu port (allocate_tsih lu port tag) other
unfolding allocate_tsih
allocate_tsih-IsFresh lu none tag other h = none-IsFresh lu lu none other h refl refl
allocate_tsih-IsFresh lu (some port) tag other h = elim (Bool-cases (tag == 0)) [
  | inl zero_tag ↦ rw zero_tag (none-IsFresh lu lu (some port) other h refl refl)
  | inr tagged ↦ rw tagged (elim (Bool-cases (ltb lu.maxtsih max_lu_tsih)) [
    | inr full ↦ rw full (none-IsFresh lu lu (some port) other h refl refl)
    | inl room ↦
        rw room (try_tsih-IsFresh 10 lu lu port tag other h refl refl (ground (arith, room)))
  ])
]
