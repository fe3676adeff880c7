-- ===== src/Disk/Exec/Units.antt =====
-- The units that a command does not go to (src/istgt/istgt_lu_disk.c, istgt_lu_disk_execute).
use istgt.Prelude.{
  ℕ, zero, suc, ◌≡◌, ◌≢◌, List, [], ◌∷◌, Option, none, some, get_elem?, length, ap, refl, Bool,
  true, false, map, All, ◌∙◌, ◌⊎◌, inl, inr, Option-cases,
}
use istgt.Disk.Exec.{DiskUnit, Env, Cmd}
use istgt.Disk.Exec.Lun.{islun2lun}
use istgt.Disk.Exec.Execute.{LuState, set, execute_unit, execute}

module _ {A : Type 0} where
  get_elem?-set :
      (xs : List A) (i j : ℕ) (v : A) → j ≢ i → get_elem? (set xs i v) j ≡ get_elem? xs j
  get_elem?-set [] i j v h = refl
  get_elem?-set (x ∷ xs) zero zero v h = absurd (h refl)
  get_elem?-set (x ∷ xs) zero (suc j) v h = refl
  get_elem?-set (x ∷ xs) (suc i) zero v h = refl
  get_elem?-set (x ∷ xs) (suc i) (suc j) v h = get_elem?-set xs i j v (λ e. h (ap suc e))

  length-set : (xs : List A) (i : ℕ) (v : A) → length (set xs i v) ≡ length xs
  length-set [] i v = refl
  length-set (x ∷ xs) zero v = refl
  length-set (x ∷ xs) (suc i) v = ap suc (length-set xs i v)

-- At most the slot that the LUN names is written.
execute-slots :
    {σ : Type 0} (env : Env σ) (t : LuState σ)
    → ((execute env t).slots ≡ t.slots)
      ⊎ ((v : Option (DiskUnit σ)) × ((execute env t).slots ≡ set t.slots (islun2lun t.cmd.lun) v))
unfolding execute
execute-slots env t = elim (Option-cases (get_elem? t.slots (islun2lun t.cmd.lun))) [
  | inl e ↦ inl (rw (execute, e) refl)
  | inr (none, e) ↦ inl (rw (execute, e) refl)
  | inr (some unit, e) ↦ inr (
    some
        (execute_unit env (record {
          unit = unit;
          map = t.map;
          io_conn = t.io_conn;
          cmd = record t.cmd { io = record t.cmd.io { sense = [] } };
          faulted = t.faulted;
        })).unit,
    rw (execute, e) refl,
  )
]

-- A command leaves every unit but the one that its LUN names as it was.
execute-others :
    {σ : Type 0} (env : Env σ) (t : LuState σ) (j : ℕ)
    → j ≢ islun2lun t.cmd.lun
    → (length (execute env t).slots ≡ length t.slots)
      × (get_elem? (execute env t).slots j ≡ get_elem? t.slots j)
execute-others env t j h = elim (execute-slots env t) [
  | inl e ↦ (ap length e, ap (λ xs. get_elem? xs j) e)
  | inr (v, e) ↦
      let i = islun2lun t.cmd.lun in
      (
        ap length e ∙ length-set t.slots i v,
        ap (λ xs. get_elem? xs j) e ∙ get_elem?-set t.slots i j v h,
      )
]

-- Whether a slot has a unit.
abbrev pub is_present : {A : Type 0} → Option A → Bool
is_present none = false
is_present (some _) = true

is_present-set :
    {A : Type 0} (xs : List (Option A)) (i : ℕ) (u v : A)
    → get_elem? xs i ≡ some (some u)
    → map is_present (set xs i (some v)) ≡ map is_present xs
is_present-set [] i u v e = refl
is_present-set (none ∷ xs) zero u v e = cc
is_present-set (some x ∷ xs) zero u v e = refl
is_present-set (x ∷ xs) (suc i) u v e = ap (λ bs. is_present x ∷ bs) (is_present-set xs i u v e)

-- Exactly the slots that had a unit have one.
execute-is_present :
    {σ : Type 0} (env : Env σ) (t : LuState σ)
    → map is_present (execute env t).slots ≡ map is_present t.slots
unfolding execute
execute-is_present env t = elim (Option-cases (get_elem? t.slots (islun2lun t.cmd.lun))) [
  | inl e ↦ rw (execute, e) refl
  | inr (none, e) ↦ rw (execute, e) refl
  | inr (some unit, e) ↦
      rw (execute, e)
        (is_present-set t.slots (islun2lun t.cmd.lun) unit
          (execute_unit env (record {
            unit = unit;
            map = t.map;
            io_conn = t.io_conn;
            cmd = record t.cmd { io = record t.cmd.io { sense = [] } };
            faulted = t.faulted;
          })).unit
          e)
]

-- Commands on a logical unit, one after the other, each with what it runs with.
unfoldable pub execute_each : {σ : Type 0} → List (Env σ × Cmd) → LuState σ → LuState σ
execute_each [] t = t
execute_each ((env, cmd) ∷ cs) t = execute_each cs (execute env (record t { cmd = cmd }))

-- Any number of commands, from any connections, of which none names the unit of a number j, leaves
-- that unit as it was; and, whatever units they name, exactly the numbers that had a unit have one
-- afterwards: none is removed, and none is set up.
pub execute_each-others :
    {σ : Type 0} (cs : List (Env σ × Cmd)) (t : LuState σ) (j : ℕ)
    → All (λ (c : Env σ × Cmd). j ≢ islun2lun c.1.lun) cs
    → (get_elem? (execute_each cs t).slots j ≡ get_elem? t.slots j)
      × (map is_present (execute_each cs t).slots ≡ map is_present t.slots)
unfolding execute_each
execute_each-others [] t j h = (refl, refl)
execute_each-others ((env, cmd) ∷ cs) t j (h, hs) =
    let next = execute env (record t { cmd = cmd }) in
    let (same, present) = execute_each-others cs next j hs in
    (
      same ∙ (execute-others env (record t { cmd = cmd }) j h).1,
      present ∙ execute-is_present env (record t { cmd = cmd }),
    )
