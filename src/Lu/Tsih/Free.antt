-- ===== src/Lu/Tsih/Free.antt =====
-- Freeing a session handle (src/istgt/istgt_lu.c: istgt_lu_free_tsih).
use istgt.Prelude.{
  ℕ, ◌+◌, List, [], ◌∷◌, length, true, false, ◌&&◌, not, Option, none, some, ◌==◌, any, of_bool,
  Name, ◌≡◌, ◌≢◌, refl, ap, arith, inl, inr, Bool-cases,
}
use istgt.Lu.Tsih.{TsihSlot, LuTsih, has_tsih, clear_slot, has_session, allocate_tsih, free_tsih}
use istgt.Lu.Tsih.Table.{in_use, used_slots, are_distinct, IsTable, IsFresh, allocate_tsih-IsFresh}

has_session-has_tsih :
    (tsih : ℕ) (port : Name) (s : TsihSlot)
    → has_session tsih port s ≡ true
    → has_tsih tsih s ≡ true
unfolding has_session
has_session-has_tsih tsih port s h = ground (arith, h)

in_use_eq : (a b : ℕ) (ss : List TsihSlot) → (a == b) ≡ true → in_use a ss ≡ in_use b ss
in_use_eq a b ss e = let same : a ≡ b = ground (arith, e) in ap (λ n. in_use n ss) same

clear_slot-in_use :
    (tsih : ℕ) (port : Name) (ss : List TsihSlot)
    → (clear_slot tsih port ss).0 ≡ true
    → in_use tsih ss ≡ true
unfolding clear_slot
clear_slot-in_use tsih port [] h = cc
clear_slot-in_use tsih port (s ∷ ss) h =
    ground (arith, h, has_session-has_tsih tsih port s, clear_slot-in_use tsih port ss)

-- Clearing a slot.
clear_slot_lem :
    (tsih : ℕ) (port : Name) (ss : List TsihSlot) (other : ℕ)
    → tsih ≢ 0
    → are_distinct ss ≡ true
    → (length (clear_slot tsih port ss).1 ≡ length ss)
      × (used_slots (clear_slot tsih port ss).1 + of_bool (clear_slot tsih port ss).0
          ≡ used_slots ss)
      × (are_distinct (clear_slot tsih port ss).1 ≡ true)
      × (in_use other (clear_slot tsih port ss).1
          ≡ (in_use other ss && not ((clear_slot tsih port ss).0 && tsih == other)))
unfolding clear_slot has_tsih
clear_slot_lem tsih port [] other ne d = (refl, refl, refl, refl)
clear_slot_lem tsih port (s ∷ ss) other ne d =
    let r = clear_slot_lem tsih port ss other ne (ground (arith, d)) in
    let i = clear_slot_lem tsih port ss s.tsih ne (ground (arith, d)) in
    elim (Bool-cases (has_session tsih port s)) [
      | inl found ↦
          let k = has_session-has_tsih tsih port s found in
          rw found (refl, ground (arith, k), ground (arith, d), ground (arith, k, d, ne))
      | inr differs ↦ rw differs (
        ground (arith, r.0),
        ground (arith, r.1),
        ground (arith, r.2, i.3, d),
        ground (
          arith,
          r.3,
          d,
          clear_slot-in_use tsih port ss,
          in_use_eq tsih other ss,
          in_use_eq s.tsih other ss,
        ),
      )
    ]

-- Freeing a handle for a port keeps a table of handles.
free_tsih-IsTable :
    (lu : LuTsih) (tsih : ℕ) (port : Option Name) → IsTable lu → IsTable (free_tsih lu tsih port)
unfolding free_tsih IsTable
free_tsih-IsTable lu tsih none h = h
free_tsih-IsTable lu tsih (some port) h = elim (Bool-cases (tsih == 0)) [
  | inl z ↦ rw z h
  | inr nz ↦
      let ne : tsih ≢ 0 = λ e. absurd (ground (arith, e, nz)) in
      let c = clear_slot_lem tsih port lu.slots 0 ne h.0 in
      elim (Bool-cases (clear_slot tsih port lu.slots).0) [
        | inl found ↦
            rw (nz, found)
              (
                c.2,
                ground (arith, c.3, h.1),
                ground (arith, c.0, h.2),
                ground (arith, c.1, h.3, found),
              )
        | inr missing ↦ rw (nz, missing) h
      ]
]

clear_slot-has_session :
    (tsih : ℕ) (port : Name) (ss : List TsihSlot)
    → any (has_session tsih port) ss ≡ true
    → (clear_slot tsih port ss).0 ≡ true
unfolding clear_slot
clear_slot-has_session tsih port [] h = cc
clear_slot-has_session tsih port (s ∷ ss) h = ground (arith, h, clear_slot-has_session tsih port ss)

-- On a table of handles, freeing the handle that an allocation gave for a port leaves a table in
-- which exactly the handles are in use that were before.
pub free_tsih-allocate_tsih :
    (lu : LuTsih) (port : Name) (tag other : ℕ)
    → IsTable lu
    → (allocate_tsih lu (some port) tag).0 ≢ 0
    → let r = allocate_tsih lu (some port) tag in
      IsTable (free_tsih r.1 r.0 (some port))
      × (in_use other (free_tsih r.1 r.0 (some port)).slots ≡ in_use other lu.slots)
unfolding free_tsih IsFresh IsTable
free_tsih-allocate_tsih lu port tag other h ne =
    let r = allocate_tsih lu (some port) tag in
    let f = allocate_tsih-IsFresh lu (some port) tag other h in
    let nz : (r.0 == 0) ≡ false = ground (arith, ne) in
    let found : (clear_slot r.0 port r.1.slots).0 ≡ true =
      clear_slot-has_session r.0 port r.1.slots (ground (arith, nz, f.2)) in
    let c = clear_slot_lem r.0 port r.1.slots other ne f.0.0 in
    (
      free_tsih-IsTable r.1 r.0 (some port) f.0,
      rw (nz, found) (ground (arith, c.3, f.3, f.1, nz, found, in_use_eq r.0 other lu.slots)),
    )
