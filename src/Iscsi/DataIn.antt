-- ===== src/Iscsi/DataIn.antt =====
-- The data that a command returns, in Data-In PDUs (src/istgt/istgt_iscsi.c:
-- istgt_iscsi_transfer_in_internal, istgt_iscsi_transfer_in). Whether istgt_iscsi_write_pdu_internal
-- can send the n-th PDU is an argument. An `int` is its word, below 2 ^ 32; one that overflows, which C
-- leaves undefined, wraps around here.
pub mod Pieces
pub mod Loop
pub mod Segments
pub mod Status
use istgt.Prelude.{
  ℕ, zero, suc, ◌+◌, ◌-◌, ◌%◌, ◌^◌, List, [], ◌∷◌, ◌++◌, take, drop, replicate, length, Bool, true,
  false, ◌&&◌, ◌||◌, not, if◌then◌else◌, ◌==◌, of_bool,
}
use istgt.Misc.Bytes.{bfield, dset24, dset32}
use istgt.Misc.Strings.{int_ltb}
use istgt.Iscsi.Conn.{IscsiConn, Sess}

-- The fields of ISTGT_LU_CMD that are used: `transfer_len` is an uint32_t, as the initiator sent it,
-- and `data_len` a size_t.
pub record InCmd : Type 0 where
  pub «data» : List ℕ
  pub transfer_len : ℕ
  pub data_len : ℕ
  pub task_tag : ℕ
  pub i_bit : Bool
  pub status : ℕ
  pub sense_data_len : ℕ

-- What a Data-In PDU is made of.
pub record DataIn : Type 0 where
  pub f_bit : Bool
  pub o_bit : Bool
  pub u_bit : Bool
  pub s_bit : Bool
  pub status : ℕ
  pub task_tag : ℕ
  pub transfer_tag : ℕ
  pub stat_sn : ℕ
  pub exp_cmd_sn : ℕ
  pub max_cmd_sn : ℕ
  pub data_sn : ℕ
  pub buffer_offset : ℕ
  pub residual_count : ℕ
  pub segment : List ℕ

-- The 48 bytes of its header.
unfoldable pub bhs : DataIn → List ℕ
bhs pdu =
    0x25
    ∷ (bfield (of_bool pdu.f_bit) 7 1
        + bfield 0 6 1
        + bfield (of_bool pdu.o_bit) 2 1
        + bfield (of_bool pdu.u_bit) 1 1
        + bfield (of_bool pdu.s_bit) 0 1)
    ∷ 0
    ∷ pdu.status
    ∷ 0
    ∷ (dset24 (length pdu.segment)
        ++ replicate 8 0
        ++ dset32 pdu.task_tag
        ++ dset32 pdu.transfer_tag
        ++ dset32 pdu.stat_sn
        ++ dset32 pdu.exp_cmd_sn
        ++ dset32 pdu.max_cmd_sn
        ++ dset32 pdu.data_sn
        ++ dset32 pdu.buffer_offset
        ++ dset32 pdu.residual_count)

-- `(int)`, and the smaller of two `int`s (DMIN32)
abbrev pub to_int : ℕ → ℕ
to_int n = n % 2 ^ 32

unfoldable pub min_int : (a b : ℕ) → ℕ
min_int a b = if int_ltb b a then b else a

-- `a - b`
abbrev pub sub_int : (a b : ℕ) → ℕ
sub_int a b = (a + 2 ^ 32 - b) % 2 ^ 32

-- What the command says of the whole transfer, as `int`s: its length, and how that differs from the
-- length of the data.
pub record Transfer : Type 0 where
  pub transfer_len : ℕ
  pub residual_len : ℕ
  pub o_bit : Bool
  pub u_bit : Bool

unfoldable pub transfer_of : InCmd → Transfer
transfer_of cmd =
    let transfer_len = to_int cmd.transfer_len in
    let data_len = to_int cmd.data_len in
    if int_ltb data_len transfer_len
    then record {
      transfer_len = data_len;
      residual_len = sub_int transfer_len data_len;
      o_bit = false;
      u_bit = true;
    }
    else if int_ltb transfer_len data_len
    then record {
      transfer_len = transfer_len;
      residual_len = sub_int data_len transfer_len;
      o_bit = true;
      u_bit = false;
    }
    else record { transfer_len = transfer_len; residual_len = 0; o_bit = false; u_bit = false }

-- The last PDU can carry the status: there is no sense data, and the status is GOOD, CONDITION MET,
-- INTERMEDIATE or INTERMEDIATE-CONDITION MET.
unfoldable pub carries_status : InCmd → Bool
carries_status cmd =
    cmd.sense_data_len == 0
    && (cmd.status == 0x00 || cmd.status == 0x04 || cmd.status == 0x10 || cmd.status == 0x14)

-- StatSN and MaxCmdSN behind a PDU.
unfoldable pub count_status : InCmd → (s_bit : Bool) → IscsiConn → IscsiConn
count_status cmd false conn = conn
count_status cmd true conn =
    let counted = record conn { stat_sn = (conn.stat_sn + 1) % 2 ^ 32 } in
    if cmd.i_bit then counted else record counted {
      sess = record conn.sess { max_cmd_sn = (conn.sess.max_cmd_sn + 1) % 2 ^ 32 };
    }

unfoldable pub data_in :
    InCmd → Transfer → (data_sn offset len : ℕ) → (f_bit : Bool) → IscsiConn → DataIn
data_in cmd t data_sn offset len f_bit conn =
    let s_bit = f_bit && carries_status cmd in
    let counted = count_status cmd s_bit conn in
    record {
      f_bit = f_bit;
      o_bit = f_bit && s_bit && t.o_bit;
      u_bit = f_bit && s_bit && t.u_bit;
      s_bit = s_bit;
      status = if s_bit then cmd.status else 0;
      task_tag = cmd.task_tag;
      transfer_tag = 0xffffffff;
      stat_sn = if s_bit then conn.stat_sn else 0;
      exp_cmd_sn = counted.sess.exp_cmd_sn;
      max_cmd_sn = counted.sess.max_cmd_sn;
      data_sn = data_sn;
      buffer_offset = offset;
      residual_count = if f_bit && s_bit then t.residual_len else 0;
      segment = take len (drop offset cmd.«data»);
    }

-- The return value: -1, 0, or 1 where the status has been sent.
pub data Transferred : Type 0 where
  failed : Transferred
  without_status : Transferred
  with_status : Transferred

-- It, the connection, and the PDUs that were written.
pub record Sent : Type 0 where
  pub rc : Transferred
  pub conn : IscsiConn
  pub pdus : List DataIn

-- The loop over the segments. Each takes at least a byte.
unfoldable pub transfer_loop :
    (write_ok : ℕ → Bool)
    → InCmd
    → Transfer
    → (rounds data_sn offset : ℕ) → (sent_status : Bool) → IscsiConn
    → Sent
transfer_loop write_ok cmd t zero data_sn offset sent_status conn = record {
  rc = if sent_status then with_status else without_status;
  conn = conn;
  pdus = [];
}
transfer_loop write_ok cmd t (suc rounds) data_sn offset sent_status conn =
    let len = min_int conn.max_recv_data_segment_length (sub_int t.transfer_len offset) in
    let stop = to_int (offset + len) in
    let f_bit = stop == t.transfer_len in
    let s_bit = f_bit && carries_status cmd in
    let pdu = data_in cmd t data_sn offset len f_bit conn in
    let conn1 = count_status cmd s_bit conn in
    let rest =
      transfer_loop write_ok cmd t rounds ((data_sn + 1) % 2 ^ 32)
        (to_int (offset + conn.max_recv_data_segment_length)) (sent_status || s_bit) conn1 in
    if not (int_ltb offset t.transfer_len)
    then record { rc = if sent_status then with_status else without_status; conn = conn; pdus = [] }
    else if int_ltb t.transfer_len stop
    then record { rc = failed; conn = conn; pdus = [] }
    else if not (write_ok data_sn)
    then record { rc = failed; conn = conn1; pdus = pdu ∷ [] }
    else record rest { pdus = pdu ∷ rest.pdus }

unfoldable pub transfer_in : (write_ok : ℕ → Bool) → InCmd → IscsiConn → Sent
transfer_in write_ok cmd conn =
    let t = transfer_of cmd in transfer_loop write_ok cmd t t.transfer_len 0 0 false conn
