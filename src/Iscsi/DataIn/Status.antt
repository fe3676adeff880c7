-- ===== src/Iscsi/DataIn/Status.antt =====
-- The status that the last PDU of a transfer carries, and the counters behind it
-- (src/istgt/istgt_iscsi.c: istgt_iscsi_transfer_in_internal).
use istgt.Prelude.{
  ℕ, zero, suc, ◌+◌, ◌-◌, ◌%◌, ◌^◌, ◌≤◌, ◌<◌, min, [], ◌∷◌, Bool, true, false, ◌&&◌, not,
  if◌then◌else◌, ◌==◌, ltb, any, All, ◌≡◌, refl, ap, ◌∙◌, arith, inl, inr, Bool-cases,
}
use istgt.Iscsi.Conn.{IscsiConn}
use istgt.Iscsi.DataIn.{
  InCmd, DataIn, Transfer, with_status, without_status, transfer_of, carries_status, count_status,
  data_in, transfer_in, to_int,
}
use istgt.Iscsi.DataIn.Pieces.{int_ltb_lem}
use istgt.Iscsi.DataIn.Loop.{loop-step, loop-end, loop}
use istgt.Iscsi.DataIn.Segments.{transfer_of-length}

-- The commands whose status a Data-In PDU may carry (RFC 3720, 10.7.3 and 10.4.2): no sense data
-- goes with it, and it is GOOD, CONDITION MET, INTERMEDIATE or INTERMEDIATE-CONDITION MET.
unfoldable pub may_carry : InCmd → Bool
may_carry cmd =
    if ltb 0 cmd.sense_data_len
    then false
    else any (λ v. v == cmd.status) (0x00 ∷ 0x04 ∷ 0x10 ∷ 0x14 ∷ [])

carries_status-may_carry : (cmd : InCmd) → carries_status cmd ≡ may_carry cmd
unfolding carries_status may_carry
carries_status-may_carry cmd = ground arith

-- The connection behind a transfer.
unfoldable pub counted : InCmd → IscsiConn → IscsiConn
counted cmd conn = record conn {
  stat_sn = if may_carry cmd then (conn.stat_sn + 1) % 2 ^ 32 else conn.stat_sn;
  sess = record conn.sess {
    max_cmd_sn =
        if may_carry cmd && not cmd.i_bit
        then (conn.sess.max_cmd_sn + 1) % 2 ^ 32
        else conn.sess.max_cmd_sn;
  };
}

-- A PDU has the status if it is the last and may carry it, and with it StatSN, by how much the
-- length that the initiator expects and that of the data differ, and which one is larger.
unfoldable pub HasStatus : InCmd → IscsiConn → DataIn → Type 0
HasStatus cmd conn p =
    (p.s_bit ≡ (p.f_bit && may_carry cmd))
    × (p.status ≡ (if p.s_bit then cmd.status else 0))
    × (p.residual_count ≡ (
        if p.s_bit then cmd.transfer_len - cmd.data_len + (cmd.data_len - cmd.transfer_len) else 0))
    × (p.o_bit ≡ (p.s_bit && ltb cmd.transfer_len cmd.data_len))
    × (p.u_bit ≡ (p.s_bit && ltb cmd.data_len cmd.transfer_len))
    × (p.stat_sn ≡ (if p.s_bit then conn.stat_sn else 0))
    × (p.exp_cmd_sn ≡ conn.sess.exp_cmd_sn)
    × (p.max_cmd_sn ≡ (
        if p.s_bit && not cmd.i_bit
        then (conn.sess.max_cmd_sn + 1) % 2 ^ 32
        else conn.sess.max_cmd_sn))

count_status-counted :
    (cmd : InCmd) (conn : IscsiConn) → count_status cmd (may_carry cmd) conn ≡ counted cmd conn
unfolding count_status counted
count_status-counted cmd conn = elim (Bool-cases (may_carry cmd)) [
  | inl e ↦ rw e (elim (Bool-cases cmd.i_bit) [ inl i ↦ rw i refl | inr i ↦ rw i refl ])
  | inr e ↦ rw e refl
]

count_status-sess :
    (cmd : InCmd) (s_bit : Bool) (conn : IscsiConn)
    → ((count_status cmd s_bit conn).sess.exp_cmd_sn ≡ conn.sess.exp_cmd_sn)
      × ((count_status cmd s_bit conn).sess.max_cmd_sn ≡ (
          if s_bit && not cmd.i_bit
          then (conn.sess.max_cmd_sn + 1) % 2 ^ 32
          else conn.sess.max_cmd_sn))
unfolding count_status
count_status-sess cmd false conn = (refl, refl)
count_status-sess cmd true conn = elim (Bool-cases cmd.i_bit) [
  | inl i ↦ rw i (refl, refl)
  | inr i ↦ rw i (refl, refl)
]

-- How a transfer reports the two lengths.
Reports : InCmd → Transfer → Type 0
Reports cmd t =
    (t.residual_len ≡ cmd.transfer_len - cmd.data_len + (cmd.data_len - cmd.transfer_len))
    × (t.o_bit ≡ ltb cmd.transfer_len cmd.data_len)
    × (t.u_bit ≡ ltb cmd.data_len cmd.transfer_len)

transfer_of-Reports :
    (cmd : InCmd)
    → cmd.transfer_len < 2 ^ 31
    → cmd.data_len < 2 ^ 31
    → Reports cmd (transfer_of cmd)
unfolding transfer_of Reports
transfer_of-Reports cmd h k =
    let wanted : to_int cmd.transfer_len ≡ cmd.transfer_len = omega (arith, h) in
    let there : to_int cmd.data_len ≡ cmd.data_len = omega (arith, k) in
    rw
      (
        wanted,
        there,
        int_ltb_lem cmd.data_len cmd.transfer_len k h,
        int_ltb_lem cmd.transfer_len cmd.data_len h k,
      )
      (ground (arith, h, k))

data_in-HasStatus :
    (cmd : InCmd) (t : Transfer) (data_sn offset len : ℕ) (f_bit : Bool) (conn : IscsiConn)
    → Reports cmd t
    → HasStatus cmd conn (data_in cmd t data_sn offset len f_bit conn)
unfolding HasStatus data_in Reports count_status
data_in-HasStatus cmd t data_sn offset len false conn (r, o, u) =
    (refl, refl, refl, refl, refl, refl, refl, refl)
data_in-HasStatus cmd t data_sn offset len true conn (r, o, u) =
    let s_bit = carries_status cmd in
    (
      carries_status-may_carry cmd,
      refl,
      ap (λ n. if s_bit then n else 0) r,
      ap (λ v. s_bit && v) o,
      ap (λ v. s_bit && v) u,
      refl,
      (count_status-sess cmd s_bit conn).0,
      (count_status-sess cmd s_bit conn).1,
    )

module _ (write_ok : ℕ → Bool) (ok : (n : ℕ) → write_ok n ≡ true) (cmd : InCmd) (t : Transfer)
    (seg : ℕ) (small : t.transfer_len + seg ≤ 2 ^ 31) (pos : 0 < seg)
    (reports : Reports cmd t) where
  loop-status :
      (rounds data_sn offset : ℕ) (conn : IscsiConn)
      → conn.max_recv_data_segment_length ≡ seg
      → offset < t.transfer_len
      → t.transfer_len - offset ≤ rounds
      → let s = loop write_ok ok cmd t seg small pos rounds data_sn offset false conn in
        (s.rc ≡ (if carries_status cmd then with_status else without_status))
        × (s.conn ≡ count_status cmd (carries_status cmd) conn)
        × All (HasStatus cmd conn) s.pdus
  unfolding count_status
  loop-status zero data_sn offset conn es more fuel = absurd (omega (arith, more, fuel))
  loop-status (suc rounds) data_sn offset conn es more fuel =
      let len = min seg (t.transfer_len - offset) in
      rw (loop-step write_ok ok cmd t seg small pos rounds data_sn offset false conn es more)
        (elim (Bool-cases (ltb (offset + seg) t.transfer_len)) [
          | inl on ↦
              let f : (offset + len == t.transfer_len) ≡ false = ground (arith, on) in
              let next =
                loop-status rounds ((data_sn + 1) % 2 ^ 32) (offset + seg) conn es
                  (ground (arith, on)) (ground (arith, on, fuel, pos)) in
              rw f (
                next.0,
                next.1,
                (data_in-HasStatus cmd t data_sn offset len false conn reports, next.2),
              )
          | inr off ↦
              let f : (offset + len == t.transfer_len) ≡ true = ground (arith, off, more) in
              rw
                (
                  f,
                  loop-end write_ok ok cmd t seg small pos rounds ((data_sn + 1) % 2 ^ 32)
                      (offset + seg) (carries_status cmd)
                      (count_status cmd (carries_status cmd) conn) (ground (arith, off))
                      (omega (arith, small, more)),
                )
                (refl, refl, (data_in-HasStatus cmd t data_sn offset len true conn reports, tt))
        ])

-- Where every PDU can be written, the segment length is not 0, the length that the initiator
-- expects is below 2 ^ 31, the length of the data and the segment length are at most 2 ^ 31
-- together, and there is data to send: the call returns 1 exactly if there is no sense data and the
-- status is GOOD, CONDITION MET, INTERMEDIATE or INTERMEDIATE-CONDITION MET; then StatSN has moved on
-- by one, and MaxCmdSN too for a command that is not immediate, and nothing else of the connection
-- has changed. Then too, and only then, the PDU with the F bit has the S bit, the status, StatSN, the
-- O bit if the data is longer than expected, the U bit if it is shorter, and the difference of the
-- two lengths as residual count; every PDU has ExpCmdSN, and MaxCmdSN as it then is.
pub transfer_in-HasStatus :
    (write_ok : ℕ → Bool) (cmd : InCmd) (conn : IscsiConn)
    → ((n : ℕ) → write_ok n ≡ true)
    → 0 < conn.max_recv_data_segment_length
    → cmd.transfer_len < 2 ^ 31
    → cmd.data_len + conn.max_recv_data_segment_length ≤ 2 ^ 31
    → 0 < min cmd.transfer_len cmd.data_len
    → let s = transfer_in write_ok cmd conn in
      (s.rc ≡ (if may_carry cmd then with_status else without_status))
      × (s.conn ≡ counted cmd conn)
      × All (HasStatus cmd conn) s.pdus
unfolding transfer_in
transfer_in-HasStatus write_ok cmd conn ok pos h bound some =
    let t = transfer_of cmd in
    let d : cmd.data_len < 2 ^ 31 = omega (arith, bound, pos) in
    let e = transfer_of-length cmd h d in
    let r =
      loop-status write_ok ok cmd t conn.max_recv_data_segment_length (omega (arith, e, bound)) pos
        (transfer_of-Reports cmd h d) t.transfer_len 0 0 conn refl (omega (arith, e, some))
        (omega arith) in
    let same = carries_status-may_carry cmd in
    (
      r.0 ∙ ap (λ b. if b then with_status else without_status) same,
      r.1 ∙ ap (λ b. count_status cmd b conn) same ∙ count_status-counted cmd conn,
      r.2,
    )
