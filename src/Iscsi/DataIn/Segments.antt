-- ===== src/Iscsi/DataIn/Segments.antt =====
-- The segments of a transfer (src/istgt/istgt_iscsi.c: istgt_iscsi_transfer_in_internal).
use istgt.Prelude.{
  ℕ, zero, suc, ◌+◌, ◌-◌, ◌^◌, ◌≤◌, ◌<◌, min, [], take, length, Bool, true, false, if◌then◌else◌,
  ltb, All, ◌≡◌, refl, ap, ◌∙◌, arith, inl, inr, Bool-cases,
}
use istgt.Misc.Strings.{int_ltb}
use istgt.Iscsi.Conn.{IscsiConn}
use istgt.Iscsi.DataIn.Pieces.{int_ltb_lem, concat_segments, AreConsecutive, EndsFinal}
use istgt.Iscsi.DataIn.Loop.{loop-concat, loop-order}
use istgt.Iscsi.DataIn.{InCmd, DataIn, Transfer, transfer_of, transfer_loop, transfer_in, to_int}

-- The length of a transfer, where neither length is negative as an `int`.
pub transfer_of-length :
    (cmd : InCmd)
    → cmd.transfer_len < 2 ^ 31
    → cmd.data_len < 2 ^ 31
    → (transfer_of cmd).transfer_len ≡ min cmd.transfer_len cmd.data_len
unfolding transfer_of
transfer_of-length cmd h k =
    let wanted : to_int cmd.transfer_len ≡ cmd.transfer_len = omega (arith, h) in
    let there : to_int cmd.data_len ≡ cmd.data_len = omega (arith, k) in
    rw
      (
        wanted,
        there,
        int_ltb_lem cmd.data_len cmd.transfer_len k h,
        int_ltb_lem cmd.transfer_len cmd.data_len h k,
      )
      (ground arith)

-- And where the initiator expects so much that the length is negative: the loop makes no round.
transfer_of-negative :
    (cmd : InCmd)
    → 2 ^ 31 ≤ cmd.transfer_len
    → cmd.transfer_len < 2 ^ 32
    → cmd.data_len < 2 ^ 31
    → int_ltb 0 (transfer_of cmd).transfer_len ≡ false
unfolding transfer_of int_ltb
transfer_of-negative cmd h k d = ground (arith, h, k, d)

loop-negative :
    (write_ok : ℕ → Bool) (cmd : InCmd) (t : Transfer) (rounds : ℕ) (conn : IscsiConn)
    → int_ltb 0 t.transfer_len ≡ false
    → (transfer_loop write_ok cmd t rounds 0 0 false conn).pdus ≡ []
unfolding transfer_loop
loop-negative write_ok cmd t zero conn e = refl
loop-negative write_ok cmd t (suc rounds) conn e = rw e refl

transfer_in-negative :
    (write_ok : ℕ → Bool) (cmd : InCmd) (conn : IscsiConn)
    → 2 ^ 31 ≤ cmd.transfer_len
    → cmd.transfer_len < 2 ^ 32
    → cmd.data_len < 2 ^ 31
    → (transfer_in write_ok cmd conn).pdus ≡ []
unfolding transfer_in
transfer_in-negative write_ok cmd conn h k d =
    let t = transfer_of cmd in
    loop-negative write_ok cmd t t.transfer_len conn (transfer_of-negative cmd h k d)

transfer_in-sent :
    (write_ok : ℕ → Bool) (cmd : InCmd) (conn : IscsiConn)
    → ((n : ℕ) → write_ok n ≡ true)
    → 0 < conn.max_recv_data_segment_length
    → cmd.data_len + conn.max_recv_data_segment_length ≤ 2 ^ 31
    → cmd.data_len ≤ length cmd.«data»
    → cmd.transfer_len < 2 ^ 31
    → let pdus = (transfer_in write_ok cmd conn).pdus in
      (concat_segments pdus ≡ take (min cmd.transfer_len cmd.data_len) cmd.«data»)
      × All
          (λ (p : DataIn).
            (0 < length p.segment) × (length p.segment ≤ conn.max_recv_data_segment_length))
          pdus
      × AreConsecutive 0 0 pdus
      × EndsFinal pdus
unfolding transfer_in
transfer_in-sent write_ok cmd conn ok pos bound fits h =
    let t = transfer_of cmd in
    let seg = conn.max_recv_data_segment_length in
    let e = transfer_of-length cmd h (omega (arith, bound, pos)) in
    let zero_off : t.transfer_len - 0 ≡ min cmd.transfer_len cmd.data_len = omega (arith, e) in
    let small : t.transfer_len + seg ≤ 2 ^ 31 = omega (arith, e, bound) in
    let o =
      loop-order write_ok ok cmd t seg small pos t.transfer_len 0 0 false conn refl (omega arith)
        (omega arith) (omega (arith, e, fits)) in
    (
      loop-concat write_ok ok cmd t seg small pos t.transfer_len 0 0 false conn refl (omega arith)
            (omega arith)
          ∙ ap (λ n. take n cmd.«data») zero_off,
      o.0,
      o.1,
      o.2,
    )

-- Where every PDU can be written, the segment length is not 0, the length of the data and the
-- segment length are at most 2 ^ 31 together, and the command has the data that it counts, the data
-- in the Data-In PDUs is what the command has, cut at the length that the initiator expects if that
-- is below 2 ^ 31, and nothing if it is not; no segment is empty or longer than the segment
-- length; the PDUs are numbered from 0 on modulo 2 ^ 32, each starts at the offset where the one
-- before it ends, and the last alone has the F bit.
pub transfer_in-segments :
    (write_ok : ℕ → Bool) (cmd : InCmd) (conn : IscsiConn)
    → ((n : ℕ) → write_ok n ≡ true)
    → 0 < conn.max_recv_data_segment_length
    → cmd.transfer_len < 2 ^ 32
    → cmd.data_len + conn.max_recv_data_segment_length ≤ 2 ^ 31
    → cmd.data_len ≤ length cmd.«data»
    → let pdus = (transfer_in write_ok cmd conn).pdus in
      (concat_segments pdus
        ≡ take
            (if ltb cmd.transfer_len (2 ^ 31) then min cmd.transfer_len cmd.data_len else 0)
            cmd.«data»)
      × All
          (λ (p : DataIn).
            (0 < length p.segment) × (length p.segment ≤ conn.max_recv_data_segment_length))
          pdus
      × AreConsecutive 0 0 pdus
      × EndsFinal pdus
unfolding concat_segments AreConsecutive EndsFinal
transfer_in-segments write_ok cmd conn ok pos word bound fits =
    elim (Bool-cases (ltb cmd.transfer_len (2 ^ 31))) [
      | inl h ↦ rw h (transfer_in-sent write_ok cmd conn ok pos bound fits (ground (arith, h)))
      | inr h ↦
          rw
            (
              h,
              transfer_in-negative write_ok cmd conn (ground (arith, h)) word
                  (omega (arith, bound, pos)),
            )
            (refl, tt, tt, tt)
    ]
