-- ===== src/Iscsi/DataIn/Loop.antt =====
-- The loop over the segments of a transfer (src/istgt/istgt_iscsi.c: istgt_iscsi_transfer_in_internal).
use istgt.Prelude.{
  ℕ, zero, suc, ◌+◌, ◌-◌, ◌%◌, ◌^◌, ◌≤◌, ◌<◌, min, List, [], ◌∷◌, ◌++◌, take, drop, length,
  length-take, length-drop, Bool, true, false, ◌&&◌, ◌||◌, if◌then◌else◌, ◌==◌, ltb, All, ◌≡◌, refl,
  ap, ◌∙◌, arith, inl, inr, Bool-cases,
}
use istgt.Iscsi.Conn.{IscsiConn}
use istgt.Iscsi.DataIn.Pieces.{
  piece, int_ltb_lem, min_int_lem, concat_segments, AreConsecutive, EndsFinal, AreConsecutive-next,
  EndsFinal-one, EndsFinal-more,
}
use istgt.Iscsi.DataIn.{
  InCmd, DataIn, Transfer, Sent, with_status, without_status, carries_status, count_status, data_in,
  transfer_loop, to_int, sub_int,
}

count_status-segment :
    (cmd : InCmd) (s_bit : Bool) (conn : IscsiConn)
    → (count_status cmd s_bit conn).max_recv_data_segment_length ≡ conn.max_recv_data_segment_length
unfolding count_status
count_status-segment cmd false conn = refl
count_status-segment cmd true conn = elim (Bool-cases cmd.i_bit) [
  | inl e ↦ rw e refl
  | inr e ↦ rw e refl
]

module _ (write_ok : ℕ → Bool) (ok : (n : ℕ) → write_ok n ≡ true) (cmd : InCmd) (t : Transfer)
    (seg : ℕ) (small : t.transfer_len + seg ≤ 2 ^ 31) (pos : 0 < seg) where
  abbrev pub loop : (rounds data_sn offset : ℕ) → Bool → IscsiConn → Sent
  loop rounds data_sn offset sent_status conn =
      transfer_loop write_ok cmd t rounds data_sn offset sent_status conn

  -- A round with something left.
  pub loop-step :
      (rounds data_sn offset : ℕ) (sent_status : Bool) (conn : IscsiConn)
      → conn.max_recv_data_segment_length ≡ seg
      → offset < t.transfer_len
      → let len = min seg (t.transfer_len - offset) in
        let f_bit = offset + len == t.transfer_len in
        let s_bit = f_bit && carries_status cmd in
        let rest =
          loop rounds
            ((data_sn + 1) % 2 ^ 32)
            (offset + seg)
            (sent_status || s_bit)
            (count_status cmd s_bit conn) in
        loop (suc rounds) data_sn offset sent_status conn
        ≡ record rest { pdus = data_in cmd t data_sn offset len f_bit conn ∷ rest.pdus }
  unfolding transfer_loop
  loop-step rounds data_sn offset sent_status conn es more =
      let left : sub_int t.transfer_len offset ≡ t.transfer_len - offset =
        omega (arith, more, small, pos) in
      let len = min seg (t.transfer_len - offset) in
      let stop : to_int (offset + len) ≡ offset + len = omega (arith, more, small, pos) in
      let next : to_int (offset + seg) ≡ offset + seg = omega (arith, more, small, pos) in
      rw
        (
          es,
          left,
          min_int_lem seg (t.transfer_len - offset) (omega (arith, more, small, pos))
              (omega (arith, more, small, pos)),
          stop,
          next,
          int_ltb_lem offset t.transfer_len (omega (arith, more, small, pos))
              (omega (arith, more, small, pos)),
          int_ltb_lem t.transfer_len (offset + len) (omega (arith, more, small, pos))
              (omega (arith, more, small, pos)),
          ok data_sn,
        )
        (ground (arith, more))

  -- A round with nothing left.
  pub loop-end :
      (rounds data_sn offset : ℕ) (sent_status : Bool) (conn : IscsiConn)
      → t.transfer_len ≤ offset
      → offset < 2 ^ 31
      → loop rounds data_sn offset sent_status conn ≡ record {
        rc = if sent_status then with_status else without_status;
        conn = conn;
        pdus = [];
      }
  unfolding transfer_loop
  loop-end zero data_sn offset sent_status conn done low = refl
  loop-end (suc rounds) data_sn offset sent_status conn done low =
      rw (int_ltb_lem offset t.transfer_len low (omega (arith, done, low))) (ground (arith, done))

  -- The data, from an offset.
  pub loop-concat :
      (rounds data_sn offset : ℕ) (sent_status : Bool) (conn : IscsiConn)
      → conn.max_recv_data_segment_length ≡ seg
      → t.transfer_len - offset ≤ rounds
      → offset < 2 ^ 31
      → concat_segments (loop rounds data_sn offset sent_status conn).pdus
        ≡ take (t.transfer_len - offset) (drop offset cmd.«data»)
  unfolding concat_segments data_in
  loop-concat zero data_sn offset sent_status conn es fuel low =
      let none : t.transfer_len - offset ≡ 0 = omega (arith, fuel) in
      rw (loop-end zero data_sn offset sent_status conn (omega (arith, fuel)) low, none) refl
  loop-concat (suc rounds) data_sn offset sent_status conn es fuel low =
      elim (Bool-cases (ltb offset t.transfer_len)) [
        | inr done ↦
            let none : t.transfer_len - offset ≡ 0 = ground (arith, done) in
            rw
              (
                loop-end (suc rounds) data_sn offset sent_status conn (ground (arith, done)) low,
                none,
              )
              refl
        | inl more ↦
            let len = min seg (t.transfer_len - offset) in
            let f_bit = offset + len == t.transfer_len in
            let s_bit = f_bit && carries_status cmd in
            let conn1 = count_status cmd s_bit conn in
            let next =
              loop-concat rounds ((data_sn + 1) % 2 ^ 32) (offset + seg) (sent_status || s_bit)
                conn1 (count_status-segment cmd s_bit conn ∙ es) (ground (arith, more, fuel, pos))
                (ground (arith, more, small, pos)) in
            rw (loop-step rounds data_sn offset sent_status conn es (ground (arith, more))) (
              ap (λ s. take len (drop offset cmd.«data») ++ s) next
              ∙ piece t.transfer_len offset seg cmd.«data»)
      ]

  -- No PDU is left where the transfer is done.
  loop-none :
      (rounds data_sn offset : ℕ) (sent_status : Bool) (conn : IscsiConn)
      → t.transfer_len ≤ offset
      → offset < 2 ^ 31
      → (loop rounds data_sn offset sent_status conn).pdus ≡ []
  loop-none rounds data_sn offset sent_status conn done low =
      ap (λ s. s.pdus) (loop-end rounds data_sn offset sent_status conn done low)

  -- And one is left where it is not.
  loop-some :
      (rounds data_sn offset : ℕ) (sent_status : Bool) (conn : IscsiConn)
      → conn.max_recv_data_segment_length ≡ seg
      → offset < t.transfer_len
      → t.transfer_len - offset ≤ rounds
      → (q : DataIn) × (qs : List DataIn) × ((loop rounds data_sn offset sent_status conn).pdus
          ≡ q ∷ qs)
  loop-some zero data_sn offset sent_status conn es more fuel = absurd (omega (arith, more, fuel))
  loop-some (suc rounds) data_sn offset sent_status conn es more fuel =
      (_, _, ap (λ s. s.pdus) (loop-step rounds data_sn offset sent_status conn es more))

  -- Their lengths, numbers and offsets, and F bits.
  pub loop-order :
      (rounds data_sn offset : ℕ) (sent_status : Bool) (conn : IscsiConn)
      → conn.max_recv_data_segment_length ≡ seg
      → t.transfer_len - offset ≤ rounds
      → offset < 2 ^ 31
      → t.transfer_len ≤ length cmd.«data»
      → let pdus = (loop rounds data_sn offset sent_status conn).pdus in
        All (λ (p : DataIn). (0 < length p.segment) × (length p.segment ≤ seg)) pdus
        × AreConsecutive data_sn offset pdus
        × EndsFinal pdus
  unfolding AreConsecutive EndsFinal data_in
  loop-order zero data_sn offset sent_status conn es fuel low fits =
      rw (loop-none zero data_sn offset sent_status conn (omega (arith, fuel)) low) (tt, tt, tt)
  loop-order (suc rounds) data_sn offset sent_status conn es fuel low fits =
      elim (Bool-cases (ltb offset t.transfer_len)) [
        | inr done ↦
            rw (loop-none (suc rounds) data_sn offset sent_status conn (ground (arith, done)) low)
              (tt, tt, tt)
        | inl more ↦
            let len = min seg (t.transfer_len - offset) in
            let f_bit = offset + len == t.transfer_len in
            let s_bit = f_bit && carries_status cmd in
            let conn1 = count_status cmd s_bit conn in
            let rest =
              loop rounds ((data_sn + 1) % 2 ^ 32) (offset + seg) (sent_status || s_bit) conn1 in
            let next =
              loop-order rounds ((data_sn + 1) % 2 ^ 32) (offset + seg) (sent_status || s_bit) conn1
                (count_status-segment cmd s_bit conn ∙ es) (ground (arith, more, fuel, pos))
                (ground (arith, more, small, pos)) fits in
            let size : length (take len (drop offset cmd.«data»)) ≡ len = ground (
              arith,
              length-take len (drop offset cmd.«data»),
              length-drop offset cmd.«data»,
              more,
              fits,
            ) in
            let pos1 : 0 < len = ground (arith, pos, more) in
            let short : len ≤ seg = omega arith in
            let pdu = data_in cmd t data_sn offset len f_bit conn in
            let final : EndsFinal (pdu ∷ rest.pdus) =
              elim (Bool-cases (ltb (offset + seg) t.transfer_len)) [
                | inl on ↦
                    let r =
                      loop-some rounds ((data_sn + 1) % 2 ^ 32) (offset + seg)
                        (sent_status || s_bit) conn1 (count_status-segment cmd s_bit conn ∙ es)
                        (ground (arith, on)) (ground (arith, more, fuel, pos)) in
                    EndsFinal-more pdu r.0 rest.pdus r.1 r.2 (ground (arith, on)) next.2
                | inr off ↦
                    EndsFinal-one pdu rest.pdus
                      (loop-none rounds ((data_sn + 1) % 2 ^ 32) (offset + seg)
                        (sent_status || s_bit) conn1 (ground (arith, off))
                        (ground (arith, more, small, pos)))
                      (ground (arith, off, more))
              ] in
            rw (loop-step rounds data_sn offset sent_status conn es (ground (arith, more))) (
              ((omega (arith, size, pos1), omega (arith, size, short)), next.0),
              (
                refl,
                refl,
                AreConsecutive-next ((data_sn + 1) % 2 ^ 32) t.transfer_len offset seg
                    (length (take len (drop offset cmd.«data»))) rest.pdus size
                    (λ off.
                      loop-none rounds ((data_sn + 1) % 2 ^ 32) (offset + seg)
                        (sent_status || s_bit) conn1 off (ground (arith, more, small, pos)))
                    next.1,
              ),
              final,
            )
      ]
