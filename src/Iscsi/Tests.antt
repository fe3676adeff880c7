-- ===== src/Iscsi/Tests.antt =====
-- The theorems on parameters and Data-In PDUs at small inputs.
use Prim.Native.Nat.{max}
use istgt.Prelude.{
  ℕ, ◌≤◌, ◌<◌, min, List, [], ◌∷◌, take, length, Bool, true, false, ◌||◌, none, some, if◌then◌else◌,
  ltb, leb, All, str_case_eq, str_eq, strlwr, ◌≡◌, refl, arith,
}
use istgt.Misc.Strings.{codes, print_int}
use istgt.Iscsi.Param.{
  Param, ispt_list, ispt_numerical, ispt_numerical_max, param_add, param_find, has_key,
}
use istgt.Iscsi.Param.Lookup.{KeysAreUnique, same_key, param_find-param_add}
use istgt.Iscsi.Text.{parse_params}
use istgt.Iscsi.Text.RoundTrip.{
  Pair, IsPair, text_of, add_all, append_all, empty_segment, parse_params-append_text,
}
use istgt.Iscsi.Conn.{IscsiConn, copy_param2var, check_values}
use istgt.Iscsi.Conn.Tables.{conn_params_init, sess_params_init}
use istgt.Iscsi.Value.{update_val, reject, negotiate_value}
use istgt.Iscsi.Value.Numerical.{range_text, negotiate_value-range_text}
use istgt.Iscsi.Value.Choice.{pair_text, IsToken, negotiate_value-pair_text}
use istgt.Misc.Strings.Tokens.{IsPlain}
use istgt.Iscsi.Negotiate.{negotiate_params}
use istgt.Iscsi.Negotiate.Values.{IsNegotiated}
use istgt.Iscsi.Negotiate.Checked.{negotiate_params-IsNegotiated, check_values-copy_param2var}
use istgt.Iscsi.Negotiate.Start.{params_init-IsNegotiated}
use istgt.Iscsi.DataIn.{InCmd, DataIn, transfer_in, with_status}
use istgt.Iscsi.DataIn.Pieces.{concat_segments, AreConsecutive, EndsFinal}
use istgt.Iscsi.DataIn.Segments.{transfer_in-segments}
use istgt.Iscsi.DataIn.Status.{may_carry, counted, HasStatus, transfer_in-HasStatus}

-- A connection that has just been accepted.
abbrev start : IscsiConn
start = record {
  sess = record {
    params = sess_params_init [];
    max_connections = 1;
    max_outstanding_r2t = 1;
    first_burst_length = 65536;
    max_burst_length = 262144;
    initial_r2t = true;
    immediate_data = true;
    exp_cmd_sn = 1;
    max_cmd_sn = 32;
  };
  params = conn_params_init [];
  full_feature = false;
  target_max_recv_data_segment_length = 262144;
  max_recv_data_segment_length = 8192;
  max_outstanding_r2t = 1;
  first_burst_length = 65536;
  max_burst_length = 262144;
  header_digest = false;
  data_digest = false;
  recvbufsize = 8192;
  sendbufsize = 8192;
  stat_sn = 1;
}

start-IsNegotiated : IsNegotiated start
start-IsNegotiated = params_init-IsNegotiated start refl refl (omega arith) (omega arith)

-- The parameters MaxBurstLength=1024 and HeaderDigest=CRC32C of a request.
abbrev request : List Param
request =
    (record { key = codes "MaxBurstLength"; val = codes "1024"; list = none; type = ispt_list })
    ∷ (record { key = codes "HeaderDigest"; val = codes "CRC32C"; list = none; type = ispt_list })
    ∷ []

negotiate_params-IsNegotiated_example :
    IsNegotiated (negotiate_params start request 8192 empty_segment).0
negotiate_params-IsNegotiated_example =
    negotiate_params-IsNegotiated start request 8192 empty_segment start-IsNegotiated

check_values-copy_param2var_example :
    (512 ≤ (copy_param2var start).max_recv_data_segment_length)
    × ((copy_param2var start).max_recv_data_segment_length ≤ 16777215)
    × (check_values (copy_param2var start) ≡ record {
      ok =
          leb
            (copy_param2var start).sess.first_burst_length
            (copy_param2var start).sess.max_burst_length;
      left_locked = false;
    })
check_values-copy_param2var_example = check_values-copy_param2var start start-IsNegotiated

abbrev pairs : List Pair
pairs = (codes "A", codes "1") ∷ (codes "B", codes "2") ∷ []

pairs-IsPair : All IsPair pairs
unfolding IsPair
pairs-IsPair = (
  (
    (((λ e. absurd (omega (arith, e))), (λ e. absurd (omega (arith, e)))), tt),
    ((λ e. absurd (omega (arith, e))), tt),
    omega arith,
    omega arith,
  ),
  (
    (
      (((λ e. absurd (omega (arith, e))), (λ e. absurd (omega (arith, e)))), tt),
      ((λ e. absurd (omega (arith, e))), tt),
      omega arith,
      omega arith,
    ),
    tt,
  ),
)

pairs-fit : length (text_of pairs) ≤ 8192
unfolding text_of
pairs-fit = omega arith

parse_params-append_text_example :
    parse_params [] (append_all 8192 pairs empty_segment).bytes ≡ (true, add_all [] pairs)
parse_params-append_text_example = parse_params-append_text pairs 8192 [] pairs-IsPair pairs-fit

unique-request : KeysAreUnique request
unfolding KeysAreUnique has_key str_case_eq str_eq strlwr
unique-request = (refl, (refl, tt))

param_find-param_add_example :
    KeysAreUnique (param_add request (codes "HeaderDigest") (codes "None") none ispt_list)
    × (param_find
          (param_add request (codes "HeaderDigest") (codes "None") none ispt_list)
          (codes "DataDigest")
        ≡ (if same_key (codes "HeaderDigest") (codes "DataDigest")
            then some (record {
              key = codes "HeaderDigest";
              val = codes "None";
              list = none;
              type = ispt_list;
            })
            else param_find request (codes "DataDigest")))
param_find-param_add_example =
    param_find-param_add request (codes "HeaderDigest") (codes "None") none ispt_list
      (codes "DataDigest") unique-request

-- The initiator offers 1024 for the segments that it receives, and the target's own are of 8192.
negotiate_value-range_text_example :
    (negotiate_value start
        (codes "MaxRecvDataSegmentLength")
        (print_int 1024)
        ispt_numerical
        (range_text 512 16777215)
        (print_int 65536)
      ≡ (if ltb 1024 512 || ltb 16777215 1024
          then reject
          else update_val (
              print_int (
                min 1024 (
                  if str_case_eq
                    (codes "MaxRecvDataSegmentLength")
                    (codes "MaxRecvDataSegmentLength")
                  then start.target_max_recv_data_segment_length
                  else 65536)))))
    × (negotiate_value start
          (codes "MaxRecvDataSegmentLength")
          (print_int 1024)
          ispt_numerical_max
          (range_text 512 16777215)
          (print_int 65536)
        ≡ (if ltb 1024 512 || ltb 16777215 1024
            then reject
            else update_val (print_int (max 1024 65536))))
negotiate_value-range_text_example =
    negotiate_value-range_text start (codes "MaxRecvDataSegmentLength") 512 16777215 1024 65536
      (omega arith) (omega arith) (omega arith) (omega arith) (omega arith)

IsPlain-a : All IsPlain (codes "a")
IsPlain-a = (
  (
    (λ e. absurd (omega (arith, e))),
    (λ e. absurd (omega (arith, e))),
    (λ e. absurd (omega (arith, e))),
    (λ e. absurd (omega (arith, e))),
    (λ e. absurd (omega (arith, e))),
  ),
  tt,
)

IsToken-n : IsToken (codes "n")
IsToken-n = (
  (
    (
      (λ e. absurd (omega (arith, e))),
      (λ e. absurd (omega (arith, e))),
      (λ e. absurd (omega (arith, e))),
      (λ e. absurd (omega (arith, e))),
      (λ e. absurd (omega (arith, e))),
    ),
    tt,
  ),
  omega arith,
)

IsPlain-z : All IsPlain (codes "z")
IsPlain-z = (
  (
    (λ e. absurd (omega (arith, e))),
    (λ e. absurd (omega (arith, e))),
    (λ e. absurd (omega (arith, e))),
    (λ e. absurd (omega (arith, e))),
    (λ e. absurd (omega (arith, e))),
  ),
  tt,
)

negotiate_value-pair_text_example :
    negotiate_value start
      (codes "HeaderDigest")
      (pair_text (codes "z") (codes "n"))
      ispt_list
      (pair_text (codes "a") (codes "n"))
      (codes "n")
    ≡ (if str_case_eq (codes "z") (codes "a") || str_case_eq (codes "z") (codes "n")
        then update_val (codes "z")
        else if str_case_eq (codes "n") (codes "a")
        then update_val (codes "n")
        else reject)
negotiate_value-pair_text_example =
    negotiate_value-pair_text start (codes "HeaderDigest") (codes "n") (codes "a") (codes "n")
      (codes "z") (codes "n") IsPlain-a IsToken-n IsPlain-z IsToken-n (omega arith)

-- A READ of five bytes, with eight in the buffer, over segments of two bytes.
abbrev short : IscsiConn
short = record start { max_recv_data_segment_length = 2 }

abbrev read_cmd : InCmd
read_cmd = record {
  «data» = 1 ∷ 2 ∷ 3 ∷ 4 ∷ 5 ∷ 6 ∷ 7 ∷ 8 ∷ [];
  transfer_len = 5;
  data_len = 8;
  task_tag = 7;
  i_bit = false;
  status = 0;
  sense_data_len = 0;
}

abbrev always : ℕ → Bool
always n = true

transfer_in-segments_example :
    let pdus = (transfer_in always read_cmd short).pdus in
    (concat_segments pdus ≡ take (min 5 8) read_cmd.«data»)
    × All (λ (p : DataIn). (0 < length p.segment) × (length p.segment ≤ 2)) pdus
    × AreConsecutive 0 0 pdus
    × EndsFinal pdus
transfer_in-segments_example =
    transfer_in-segments always read_cmd short (λ n. refl) (omega arith) (omega arith) (omega arith)
      (omega arith)

transfer_in-HasStatus_example :
    let s = transfer_in always read_cmd short in
    (s.rc ≡ with_status) × (s.conn ≡ counted read_cmd short) × All (HasStatus read_cmd short) s.pdus
unfolding may_carry
transfer_in-HasStatus_example =
    transfer_in-HasStatus always read_cmd short (λ n. refl) (omega arith) (omega arith)
      (omega arith) (omega arith)
