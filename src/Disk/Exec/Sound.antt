-- ===== src/Disk/Exec/Sound.antt =====
-- The invariant of a unit over every history of commands, and the bytes that no command changes
-- (src/istgt/istgt_lu_disk.c, istgt_lu_disk_execute).
use istgt.Prelude.{
  ℕ, Bool, true, false, ◌≡◌, ◌⊎◌, inl, inr, refl, arith, ◌∙◌, sym, subst, Option-cases,
}
use istgt.Misc.Bytes.{Buf, dget32, at_offset, bget8w}
use istgt.Disk.Io.{Backend, IsMedium, IoDisk, IoCmd}
use istgt.Disk.Io.Block.{transfer_data}
use istgt.Disk.Pr.Valid.{IsValid}
use istgt.Disk.Pr.Valid.Out.{persistent_reserve_out-Keeps, scsi_reserve-Keeps, scsi_release-Keeps}
use istgt.Disk.Exec.{State, Env, Cmd, lu_cmd_of, with_cmd, after_reply}
use istgt.Disk.Exec.Reservation.{
  int_length, reserve_out_from, reserve_out_case, release_case, reserve_case,
}
use istgt.Disk.Exec.Opcode.{Opcode, reserve_out_op, release_op, reserve_op, opcode_of}
use istgt.Disk.Exec.Execute.{run, execute_unit, report_attention, report_deferred}
use istgt.Disk.Exec.Effects.{
  Part, part_of, reading, writing, run-nothing, run-caches, run-groups, run-blocks,
}
use istgt.Disk.Exec.Medium.{Keeps, same-Keeps}
use istgt.Disk.Exec.Moves.{run-aside, run-reading, run-writing}

-- Reservations that are valid, reached without a read through a NULL pointer.
pub record IsIntact {σ : Type 0} (s : State σ) : Type 0 where
  pub valid : IsValid s.unit.reservations
  pub no_fault : s.faulted ≡ false

module _ {σ : Type 0} (env : Env σ) (s : State σ) (intact : IsIntact s) where
  reserve_out_from-IsIntact :
      (parameter_len : ℕ) (io : IoCmd)
      → IsIntact (reserve_out_from env parameter_len (record s { cmd = record s.cmd { io = io } }))
  unfolding reserve_out_from after_reply
  reserve_out_from-IsIntact parameter_len io =
      let k =
        persistent_reserve_out-Keeps env.os s.unit.reservations env.conn
          (lu_cmd_of (record s.cmd { io = io })) (bget8w (s.cmd.cdb 1) 4 5)
          (bget8w (s.cmd.cdb 2) 7 4) (bget8w (s.cmd.cdb 2) 3 4) io.iobuf (int_length parameter_len)
          intact.valid in
      record {
        valid = ground (arith, intact.valid, k.valid);
        no_fault = ground (arith, intact.no_fault, k.no_fault);
      }

  reserve_out_case-IsIntact : IsIntact (reserve_out_case env s)
  unfolding reserve_out_case
  reserve_out_case-IsIntact =
      let from = reserve_out_from-IsIntact (dget32 (at_offset s.cmd.cdb 5)) in
      elim (Option-cases
        (transfer_data env.transfer s.unit.blocks s.cmd.io (dget32 (at_offset s.cmd.cdb 5)))) [
          | inl e ↦ record {
            valid = ground (arith, e, intact.valid);
            no_fault = ground (arith, e, intact.no_fault);
          }
          | inr (io, e) ↦ record {
            valid = ground (arith, e, intact.valid, (from io).valid);
            no_fault = ground (arith, e, intact.no_fault, (from io).no_fault);
          }
        ]

  release_case-IsIntact : IsIntact (release_case env s)
  unfolding release_case after_reply
  release_case-IsIntact =
      let k =
        scsi_release-Keeps env.os env.ids env.conn (lu_cmd_of s.cmd) s.unit.reservations
          intact.valid in
      record { valid = k.valid; no_fault = ground (arith, intact.no_fault, k.no_fault) }

  reserve_case-IsIntact : IsIntact (reserve_case env s)
  unfolding reserve_case after_reply
  reserve_case-IsIntact =
      let k =
        scsi_reserve-Keeps env.os env.ids env.conn (lu_cmd_of s.cmd) s.unit.reservations
          intact.valid in
      record { valid = k.valid; no_fault = ground (arith, intact.no_fault, k.no_fault) }

  run-IsIntact : (op : Opcode) → IsIntact (run env op s)
  unfolding run
  run-IsIntact reserve_out_op = reserve_out_case-IsIntact
  run-IsIntact release_op = release_case-IsIntact
  run-IsIntact reserve_op = reserve_case-IsIntact
  run-IsIntact op =
      let same : ((run env op s).unit.reservations ≡ s.unit.reservations)
          × ((run env op s).faulted ≡ s.faulted) =
        ground (
          arith,
          run-nothing env s op,
          run-caches env s op,
          run-groups env s op,
          run-blocks env s op,
        ) in
      record {
        valid = subst IsValid (sym same.0) intact.valid;
        no_fault = same.1 ∙ intact.no_fault;
      }

  execute_unit-IsIntact : IsIntact (execute_unit env s)
  unfolding execute_unit report_attention report_deferred
  execute_unit-IsIntact =
      let r = run-IsIntact (opcode_of (s.cmd.cdb 0)) in
      record {
        valid = ground (arith, intact.valid, r.valid);
        no_fault = ground (arith, intact.no_fault, r.no_fault);
      }

-- Whether a command is one of the WRITEs, WRITE SAMEs or COMPARE AND WRITE.
abbrev pub is_writing : Part → Bool
is_writing writing = true
is_writing _ = false

module _ {σ : Type 0} (contents : σ → Buf) (env : Env σ) (law : IsMedium env.backend contents)
    (s : State σ) where
  run-Keeps-part :
      (op : Opcode) (p : Part)
      → part_of op ≡ p
      → Keeps contents (is_writing p) s.unit.blocks (run env op s).unit.blocks
  run-Keeps-part op reading e = run-reading contents env s law op e
  run-Keeps-part op writing e = run-writing contents env s op e
  run-Keeps-part op p e = run-aside contents env s op (ground arith) (ground arith)

  execute_unit-Keeps :
      Keeps contents
        (is_writing (part_of (opcode_of (s.cmd.cdb 0))))
        s.unit.blocks
        (execute_unit env s).unit.blocks
  unfolding execute_unit report_attention report_deferred
  execute_unit-Keeps =
      let op = opcode_of (s.cmd.cdb 0) in
      ground (
        arith,
        run-Keeps-part op (part_of op) refl,
        same-Keeps env.backend contents (is_writing (part_of op)) s.unit.blocks s.unit.blocks refl,
      )

  -- A command whose operation code is not a WRITE, WRITE SAME or COMPARE AND WRITE changes no byte
  -- of the medium, whatever else it holds; and on a read-only unit no command does.
  pub execute_unit-contents :
      (i : ℕ)
      → (is_writing (part_of (opcode_of (s.cmd.cdb 0))) ≡ false) ⊎ (s.unit.blocks.readonly ≡ true)
      → contents (execute_unit env s).unit.blocks.medium i ≡ contents s.unit.blocks.medium i
  execute_unit-contents i h = execute_unit-Keeps.unwritten h i

-- A unit receives a command, from any connection, and runs it: only the back end is given.
pub data Step {σ : Type 0} (b : Backend σ) : State σ → State σ → Type 0 where
  step :
      (env : Env σ) (s : State σ) (cmd : Cmd)
      → env.backend ≡ b
      → Step b s (execute_unit env (with_cmd cmd s))

pub data Reach {σ : Type 0} (b : Backend σ) (s : State σ) : State σ → Type 0 where
  start : Reach b s s
  next : {t u : State σ} → Reach b s t → Step b t u → Reach b s u

-- What holds of `t` where the unit was `u` at first: the reservations are valid, nothing was read
-- through a NULL pointer, the geometry is that of `u`, and if `u` is read-only, so are the bytes.
pub record IsSound {σ : Type 0} (contents : σ → Buf) (u : IoDisk σ) (t : State σ) : Type 0 where
  pub intact : IsIntact t
  pub medium : Keeps contents true u t.unit.blocks

Keeps-trans :
    {σ : Type 0} {contents : σ → Buf} {w : Bool} {u v t : IoDisk σ}
    → Keeps contents true u v
    → Keeps contents w v t
    → Keeps contents true u t
Keeps-trans {w = w} {u = u} h k = record {
  blockcnt_same = k.blockcnt_same ∙ h.blockcnt_same;
  blocklen_same = k.blocklen_same ∙ h.blocklen_same;
  readonly_same = k.readonly_same ∙ h.readonly_same;
  unwritten = λ r i.
      let e : u.readonly ≡ true = ground arith in
      k.unwritten (inr (h.readonly_same ∙ e)) i ∙ h.unwritten r i;
}

module _ {σ : Type 0} (b : Backend σ) (contents : σ → Buf) (law : IsMedium b contents) where
  Step-IsSound :
      {u : IoDisk σ} {s t : State σ} → Step b s t → IsSound contents u s → IsSound contents u t
  Step-IsSound (step env s cmd e) h =
      let law1 = subst (λ b. IsMedium b contents) (sym e) law in
      record {
        intact =
            execute_unit-IsIntact env (with_cmd cmd s)
              (record { valid = h.intact.valid; no_fault = h.intact.no_fault });
        medium = Keeps-trans h.medium (execute_unit-Keeps contents env law1 (with_cmd cmd s));
      }

  -- Whatever commands a unit receives, from whatever connections and in whatever order, with any
  -- operation code and any parameters: if its reservations were valid at first, they are valid
  -- (at most 256 registrations with keys other than 0, and a port for the reservation if there is
  -- one), nothing was read through a NULL pointer, the number and the length of its blocks are
  -- what they were, and if it is read-only its bytes are too.
  pub Reach-IsSound : {s t : State σ} → IsIntact s → Reach b s t → IsSound contents s.unit.blocks t
  Reach-IsSound {s} h start = record {
    intact = h;
    medium = same-Keeps b contents true s.unit.blocks s.unit.blocks refl;
  }
  Reach-IsSound h (next r st) = Step-IsSound st (Reach-IsSound h r)
