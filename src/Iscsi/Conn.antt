-- ===== src/Iscsi/Conn.antt =====
-- A connection and its session (src/istgt/istgt_iscsi.h), their parameters, and the variables made
-- of these (src/istgt/istgt_iscsi.c: the parameter tables, istgt_iscsi_params_init_internal,
-- istgt_iscsi_copy_param2var, istgt_iscsi_check_values). An `int` is its word, below 2 ^ 32.
pub mod Tables
use istgt.Prelude.{
  ℕ, List, [], ◌∷◌, Bool, true, false, Option, none, some, if◌then◌else◌, ◌==◌, ◌!=◌, Name,
  str_case_eq,
}
use istgt.Misc.Strings.{codes, strtol, int_ltb}
use istgt.Iscsi.Param.{Param, param_get_val}

-- The fields of SESS that the modelled functions use.
pub record Sess : Type 0 where
  pub params : List Param
  pub max_connections : ℕ
  pub max_outstanding_r2t : ℕ
  pub first_burst_length : ℕ
  pub max_burst_length : ℕ
  pub initial_r2t : Bool
  pub immediate_data : Bool
  pub exp_cmd_sn : ℕ
  pub max_cmd_sn : ℕ

-- Those of CONN. The session is not shared with other connections here.
pub record IscsiConn : Type 0 where
  pub sess : Sess
  pub params : List Param
  pub full_feature : Bool
  pub target_max_recv_data_segment_length : ℕ
  pub max_recv_data_segment_length : ℕ
  pub max_outstanding_r2t : ℕ
  pub first_burst_length : ℕ
  pub max_burst_length : ℕ
  pub header_digest : Bool
  pub data_digest : Bool
  pub recvbufsize : ℕ
  pub sendbufsize : ℕ
  pub stat_sn : ℕ

-- ISCSI_GETVAL of a key that the tables have, so that it is not NULL.
unfoldable pub getval : List Param → (key : Name) → Name
getval params key = elim (param_get_val params key) [ none ↦ [] | some val ↦ val ]

abbrev pub getint : List Param → Name → ℕ
getint params key = strtol (getval params key)

-- The sizes of the receive and the send buffer.
unfoldable pub resize_buffers : IscsiConn → IscsiConn
resize_buffers conn =
    let len = conn.max_recv_data_segment_length in
    if conn.sendbufsize != len
    then if int_ltb len 8192
      then record conn { recvbufsize = 8192; sendbufsize = 8192 }
      else record conn { recvbufsize = len; sendbufsize = len }
    else conn

unfoldable pub copy_sess : Sess → Sess
copy_sess sess = record sess {
  max_connections = getint sess.params (codes "MaxConnections");
  max_outstanding_r2t = getint sess.params (codes "MaxOutstandingR2T");
  first_burst_length = getint sess.params (codes "FirstBurstLength");
  max_burst_length = getint sess.params (codes "MaxBurstLength");
  initial_r2t = str_case_eq (getval sess.params (codes "InitialR2T")) (codes "Yes");
  immediate_data = str_case_eq (getval sess.params (codes "ImmediateData")) (codes "Yes");
}

unfoldable pub copy_param2var : IscsiConn → IscsiConn
copy_param2var conn =
    let len = getint conn.params (codes "MaxRecvDataSegmentLength") in
    let conn1 = resize_buffers (record conn { max_recv_data_segment_length = len }) in
    let sess1 = copy_sess conn.sess in
    record conn1 {
      header_digest = str_case_eq (getval conn.params (codes "HeaderDigest")) (codes "CRC32C");
      data_digest = str_case_eq (getval conn.params (codes "DataDigest")) (codes "CRC32C");
      sess = sess1;
      max_outstanding_r2t = sess1.max_outstanding_r2t;
      first_burst_length = sess1.first_burst_length;
      max_burst_length = sess1.max_burst_length;
    }

-- The result of `check_values`: 0, or -1; and whether the mutex of the session is left locked.
pub record Checked : Type 0 where
  pub ok : Bool
  pub left_locked : Bool

unfoldable pub check_values : IscsiConn → Checked
check_values conn =
    if int_ltb conn.sess.max_burst_length conn.sess.first_burst_length
    then record { ok = false; left_locked = false }
    else if int_ltb 0x00ffffff conn.sess.max_burst_length
    then record { ok = false; left_locked = false }
    else if int_ltb conn.target_max_recv_data_segment_length 512
    then record { ok = false; left_locked = true }
    else if int_ltb 0x00ffffff conn.target_max_recv_data_segment_length
    then record { ok = false; left_locked = false }
    else if int_ltb conn.max_recv_data_segment_length 512
    then record { ok = false; left_locked = true }
    else if int_ltb 0x00ffffff conn.max_recv_data_segment_length
    then record { ok = false; left_locked = false }
    else record { ok = true; left_locked = false }
