-- ===== src/Disk/Exec/Pending.antt =====
-- Pending sense data over the commands of a unit (src/istgt/istgt_lu_disk.c,
-- istgt_lu_disk_execute).
use istgt.Prelude.{
  ◌/◌, ◌%◌, ◌^◌, List, [], ◌∷◌, Bool, false, ◌&&◌, ◌!=◌, if◌then◌else◌, All, ◌≡◌, ◌≢◌, ◌⊎◌, inl,
  inr, ap, refl, sym, ◌∙◌, arith, Bool-cases,
}
use istgt.Disk.Types.{status_check_condition}
use istgt.Disk.Sense.{build_sense_data}
use istgt.Disk.Exec.{DiskUnit, State, Env, Cmd, with_cmd}
use istgt.Disk.Exec.Opcode.{inquiry_op, report_luns_op, opcode_of}
use istgt.Disk.Exec.Effects.{run-nothing}
use istgt.Disk.Exec.Execute.{run, execute_unit, report_attention, report_deferred}

-- Commands on a unit, one after the other, each with what it runs with.
unfoldable pub execute_all : {σ : Type 0} → List (Env σ × Cmd) → State σ → State σ
execute_all [] s = s
execute_all ((env, cmd) ∷ cs) s = execute_all cs (execute_unit env (with_cmd cmd s))

-- INQUIRY and REPORT LUNS
unfoldable pub AsksIdentity : Cmd → Type 0
AsksIdentity cmd = (cmd.cdb 0 ≡ 0x12) ⊎ (cmd.cdb 0 ≡ 0xa0)

AsksIdentity-passes :
    (cmd : Cmd) (b : Bool)
    → AsksIdentity cmd
    → (b && (cmd.cdb 0 != 0x12 && cmd.cdb 0 != 0xa0)) ≡ false
unfolding AsksIdentity
AsksIdentity-passes cmd b (inl e) = ground (arith, e)
AsksIdentity-passes cmd b (inr e) = ground (arith, e)

module _ {σ : Type 0} where
  run-unit :
      (env : Env σ) (s : State σ)
      → AsksIdentity s.cmd
      → (run env (opcode_of (s.cmd.cdb 0)) s).unit ≡ s.unit
  unfolding AsksIdentity opcode_of
  run-unit env s (inl e) = rw e (run-nothing env s inquiry_op refl).0
  run-unit env s (inr e) = rw e (run-nothing env s report_luns_op refl).0

  -- At most the deferred error of the write cache is reported.
  unfoldable pub OnlyDeferred : (s t : DiskUnit σ) → Type 0
  OnlyDeferred s t = (b : Bool) × (t ≡ record s { err_write_cache = b })

  execute_unit-OnlyDeferred :
      (env : Env σ) (s : State σ)
      → AsksIdentity s.cmd
      → OnlyDeferred s.unit (execute_unit env s).unit
  unfolding OnlyDeferred AsksIdentity execute_unit report_deferred
  execute_unit-OnlyDeferred env s h =
      rw (AsksIdentity-passes s.cmd (s.unit.unit_sense != 0) h)
        (elim (Bool-cases s.unit.err_write_cache) [
          | inl e ↦ (false, rw e refl)
          | inr e ↦ (
            s.unit.err_write_cache,
            ap
                  (λ b.
                    (if b then report_deferred env s else run env (opcode_of (s.cmd.cdb 0)) s).unit)
                  e
                ∙ run-unit env s h,
          )
        ])

-- A command that reports it.
reports :
    {σ : Type 0} (env : Env σ) (s : State σ)
    → s.unit.unit_sense ≢ 0
    → s.cmd.cdb 0 ≢ 0x12
    → s.cmd.cdb 0 ≢ 0xa0
    → execute_unit env s ≡ report_attention env s
unfolding execute_unit
reports env s h inquiry luns = ground (arith, h, inquiry, luns)

-- Pending sense data stays pending behind any number of INQUIRY and REPORT LUNS commands, from any
-- connections, which change nothing of the unit but the mark of a deferred error of the write cache;
-- and then the first other command, from any connection, ends with CHECK CONDITION and that sense
-- data, and changes nothing of the unit but that the sense data is no longer pending.
pub execute_all-unit_sense :
    {σ : Type 0} (cs : List (Env σ × Cmd)) (env : Env σ) (cmd : Cmd) (s : State σ)
    → All (λ (c : Env σ × Cmd). AsksIdentity c.1) cs
    → s.unit.unit_sense ≢ 0
    → cmd.cdb 0 ≢ 0x12
    → cmd.cdb 0 ≢ 0xa0
    → let u = execute_all cs s in
      let t = execute_unit env (with_cmd cmd u) in
      let sense = s.unit.unit_sense in
      OnlyDeferred s.unit u.unit
      × (t.cmd.status ≡ status_check_condition)
      × (t.cmd.io.sense
          ≡ build_sense_data (sense / 2 ^ 16 % 2 ^ 8) (sense / 2 ^ 8 % 2 ^ 8) (sense % 2 ^ 8))
      × (t.unit ≡ record u.unit { unit_sense = 0 })
unfolding execute_all OnlyDeferred report_attention
execute_all-unit_sense [] env cmd s none h inquiry luns =
    let r = reports env (with_cmd cmd s) h inquiry luns in
    rw r ((s.unit.err_write_cache, refl), refl, refl, refl)
execute_all-unit_sense ((e, c) ∷ cs) env cmd s (ask, asks) h inquiry luns =
    let next = execute_unit e (with_cmd c s) in
    let (b, same) = execute_unit-OnlyDeferred e (with_cmd c s) ask in
    let kept : next.unit.unit_sense ≡ s.unit.unit_sense =
      ap (λ (v : DiskUnit _). v.unit_sense) same in
    let ((b1, same1), status, sense, unit) =
      execute_all-unit_sense cs env cmd next asks (λ z. h (sym kept ∙ z)) inquiry luns in
    (
      (b1, same1 ∙ ap (λ (v : DiskUnit _). record v { err_write_cache = b1 }) same),
      status,
      sense ∙ ap (λ n. build_sense_data (n / 2 ^ 16 % 2 ^ 8) (n / 2 ^ 8 % 2 ^ 8) (n % 2 ^ 8)) kept,
      unit,
    )
