-- ===== src/Iscsi/Conn/Tables.antt =====
-- The tables of parameters (src/istgt/istgt_iscsi.c: conn_param_table, sess_param_table,
-- istgt_iscsi_params_init_internal).
use Prim.Native.String.{String}
use istgt.Prelude.{List, [], ◌∷◌, some}
use istgt.Misc.Strings.{codes}
use istgt.Iscsi.Param.{
  Param, ParamType, ispt_list, ispt_numerical, ispt_numerical_max, ispt_declarative,
  ispt_boolean_or, ispt_boolean_and, param_add,
}

-- A row of a table.
abbrev entry : String → String → String → ParamType → Param
entry key val list type = record {
  key = codes key;
  val = codes val;
  list = some (codes list);
  type = type;
}

abbrev pub conn_param_table : List Param
conn_param_table =
    entry "HeaderDigest" "None" "CRC32C,None" ispt_list
    ∷ entry "DataDigest" "None" "CRC32C,None" ispt_list
    ∷ entry "MaxRecvDataSegmentLength" "8192" "512,16777215" ispt_numerical
    ∷ entry "OFMarker" "No" "Yes,No" ispt_boolean_and
    ∷ entry "IFMarker" "No" "Yes,No" ispt_boolean_and
    ∷ entry "OFMarkInt" "1" "1,65535" ispt_numerical
    ∷ entry "IFMarkInt" "1" "1,65535" ispt_numerical
    ∷ entry "AuthMethod" "None" "CHAP,None" ispt_list
    ∷ entry "CHAP_A" "5" "5" ispt_list
    ∷ entry "CHAP_N" "" "" ispt_declarative
    ∷ entry "CHAP_R" "" "" ispt_declarative
    ∷ entry "CHAP_I" "" "" ispt_declarative
    ∷ entry "CHAP_C" "" "" ispt_declarative
    ∷ []

abbrev pub sess_param_table : List Param
sess_param_table =
    entry "MaxConnections" "1" "1,65535" ispt_numerical
    ∷ entry "TargetName" "" "" ispt_declarative
    ∷ entry "InitiatorName" "" "" ispt_declarative
    ∷ entry "TargetAlias" "" "" ispt_declarative
    ∷ entry "InitiatorAlias" "" "" ispt_declarative
    ∷ entry "TargetAddress" "" "" ispt_declarative
    ∷ entry "TargetPortalGroupTag" "1" "1,65535" ispt_numerical
    ∷ entry "InitialR2T" "Yes" "Yes,No" ispt_boolean_or
    ∷ entry "ImmediateData" "Yes" "Yes,No" ispt_boolean_and
    ∷ entry "MaxBurstLength" "262144" "512,16777215" ispt_numerical
    ∷ entry "FirstBurstLength" "65536" "512,16777215" ispt_numerical
    ∷ entry "DefaultTime2Wait" "2" "0,3600" ispt_numerical_max
    ∷ entry "DefaultTime2Retain" "20" "0,3600" ispt_numerical
    ∷ entry "MaxOutstandingR2T" "1" "1,65536" ispt_numerical
    ∷ entry "DataPDUInOrder" "Yes" "Yes,No" ispt_boolean_or
    ∷ entry "DataSequenceInOrder" "Yes" "Yes,No" ispt_boolean_or
    ∷ entry "ErrorRecoveryLevel" "0" "0,2" ispt_numerical
    ∷ entry "SessionType" "Normal" "Normal,Discovery" ispt_declarative
    ∷ []

-- The rows are added to the list one by one.
unfoldable pub params_init_internal : List Param → (table : List Param) → List Param
unfolding param_add
params_init_internal params [] = params
params_init_internal params (row ∷ table) =
    params_init_internal (param_add params row.key row.val row.list row.type) table

unfoldable pub conn_params_init : List Param → List Param
unfolding params_init_internal
conn_params_init params = params_init_internal params conn_param_table

unfoldable pub sess_params_init : List Param → List Param
unfolding params_init_internal
sess_params_init params = params_init_internal params sess_param_table
