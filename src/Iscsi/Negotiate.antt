-- ===== src/Iscsi/Negotiate.antt =====
-- The negotiation of text parameters (src/istgt/istgt_iscsi.c: istgt_iscsi_negotiate_params).
pub mod Range
pub mod Values
pub mod Checked
pub mod Start
use Prim.Native.String.{String}
use istgt.Prelude.{
  ℕ, zero, suc, ◌+◌, ◌-◌, List, [], ◌∷◌, Bool, true, false, ◌&&◌, ◌||◌, not, Option, none, some,
  if◌then◌else◌, ltb, length, take, map, Name, str_case_eq, any,
}
use istgt.Misc.Strings.{codes, strlcpy, strsepq, strtol, int_ltb, print_int}
use istgt.Iscsi.Param.{
  Param, ParamType, ispt_invalid, ispt_notspecified, ispt_list, ispt_numerical, ispt_numerical_max,
  ispt_declarative, ispt_boolean_or, ispt_boolean_and, param_find, param_set, param_eq_val,
}
use istgt.Iscsi.Text.{Segment, put_text, cut_text, text_max_val_len}
use istgt.Iscsi.Value.{Outcome, update_val, add_val, negotiate_value}
use istgt.Iscsi.Conn.{IscsiConn, Sess}

-- The names of keys that the code compares with, in its order.
abbrev skipped_keys : List Name
skipped_keys =
    codes "SendTargets"
    ∷ codes "CHAP_A"
    ∷ codes "CHAP_N"
    ∷ codes "CHAP_R"
    ∷ codes "CHAP_I"
    ∷ codes "CHAP_C"
    ∷ []

abbrev irrelevant_keys : List Name
irrelevant_keys =
    codes "MaxConnections"
    ∷ codes "InitialR2T"
    ∷ codes "ImmediateData"
    ∷ codes "MaxBurstLength"
    ∷ codes "FirstBurstLength"
    ∷ codes "MaxOutstandingR2T"
    ∷ codes "DataPDUInOrder"
    ∷ codes "DataSequenceInOrder"
    ∷ []

unfoldable pub is_skipped : (key : Name) → Bool
is_skipped key = any (str_case_eq key) skipped_keys

unfoldable pub is_irrelevant : (key : Name) → Bool
is_irrelevant key = any (str_case_eq key) irrelevant_keys

-- `discovery`: the session type of the request, or else of the session.
unfoldable pub is_discovery : IscsiConn → (params : List Param) → Bool
is_discovery conn params = elim (param_find params (codes "SessionType")) [
  | some cur_param ↦ str_case_eq cur_param.val (codes "Discovery")
  | none ↦ elim (param_find conn.sess.params (codes "SessionType")) [
    | some cur_param ↦ str_case_eq cur_param.val (codes "Discovery")
    | none ↦ false
  ]
]

-- The parameters in which a value is stored: of the connection, or of the session (`sw`).
unfoldable pub store_val : (sw : Bool) → IscsiConn → (key new_val : Name) → IscsiConn
store_val true conn key new_val = record conn {
  sess = record conn.sess { params = (param_set conn.sess.params key new_val).1 };
}
store_val false conn key new_val = record conn { params = (param_set conn.params key new_val).1 }

-- What is added to the answer: the key with a value, of a parameter of the type `cur_type`.
pub record Answer : Type 0 where
  pub conn : IscsiConn
  pub cur_type : ParamType
  pub new_val : Name

unfoldable pub apply_outcome : (sw : Bool) → IscsiConn → ParamType → (key : Name) → Outcome → Answer
apply_outcome sw conn cur_type key (update_val new_val) = record {
  conn = store_val sw conn key new_val;
  cur_type = cur_type;
  new_val = new_val;
}
apply_outcome sw conn cur_type key (add_val new_val) = record {
  conn = conn;
  cur_type = cur_type;
  new_val = new_val;
}

-- A parameter that is found. Those of the tables have a list.
unfoldable pub negotiate_found :
    (sw : Bool) → IscsiConn → (cur_param : Param) → (key val : Name) → Answer
negotiate_found sw conn cur_param key val =
    let list : Name = elim cur_param.list [ none ↦ [] | some list ↦ list ] in
    apply_outcome sw conn cur_param.type key (
      negotiate_value conn key val cur_param.type (strlcpy list text_max_val_len)
        (strlcpy cur_param.val text_max_val_len))

-- The body of the loop in front of `add_val`.
unfoldable pub negotiate_param : (discovery : Bool) → IscsiConn → Param → Answer
negotiate_param discovery conn param =
    if discovery && is_irrelevant param.key
    then record { conn = conn; cur_type = ispt_invalid; new_val = codes "Irrelevant" }
    else elim (param_find conn.params param.key) [
      | some cur_param ↦ negotiate_found false conn cur_param param.key param.val
      | none ↦ elim (param_find conn.sess.params param.key) [
        | some cur_param ↦ negotiate_found true conn cur_param param.key param.val
        | none ↦ record { conn = conn; cur_type = ispt_invalid; new_val = codes "NotUnderstood" }
      ]
    ]

abbrev pub is_declarative : ParamType → Bool
is_declarative ispt_declarative = true
is_declarative type = false

-- Where a round leaves the connection and the answer, and whether the loop goes on: it returns
-- where the buffer is full.
pub record Round : Type 0 where
  pub conn : IscsiConn
  pub text : Segment
  pub goes_on : Bool

unfoldable pub negotiate_round :
    (discovery : Bool) → IscsiConn → Param → (alloc_len : ℕ) → Segment → Round
negotiate_round discovery conn param alloc_len text =
    let answer = negotiate_param discovery conn param in
    if is_skipped param.key
    then record { conn = conn; text = text; goes_on = true }
    else if is_declarative answer.cur_type
    then record { conn = answer.conn; text = text; goes_on = true }
    else if ltb (alloc_len - text.total) 1
    then record { conn = answer.conn; text = text; goes_on = false }
    else record {
      conn = answer.conn;
      text = put_text param.key answer.new_val alloc_len text;
      goes_on = true;
    }

-- The loop over the parameters of the request.
unfoldable pub negotiate_loop :
    (discovery : Bool)
    → IscsiConn
    → (params : List Param) → (alloc_len : ℕ) → Segment
    → IscsiConn × Segment
negotiate_loop discovery conn [] alloc_len text = (conn, text)
negotiate_loop discovery conn (param ∷ params) alloc_len text =
    let r = negotiate_round discovery conn param alloc_len text in
    let rest = negotiate_loop discovery r.conn params alloc_len r.text in
    if r.goes_on then rest else (r.conn, r.text)

unfoldable pub negotiate_params :
    IscsiConn → (params : List Param) → (alloc_len : ℕ) → Segment → IscsiConn × Segment
negotiate_params conn params alloc_len text =
    if ltb alloc_len 1
    then (conn, record { bytes = []; total = 0 })
    else if ltb alloc_len text.total
    then (conn, cut_text alloc_len text)
    else negotiate_loop (is_discovery conn params) conn params alloc_len text
