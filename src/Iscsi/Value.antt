-- ===== src/Iscsi/Value.antt =====
-- The value that a parameter gets in a negotiation (src/istgt/istgt_iscsi.c: the switch of
-- istgt_iscsi_negotiate_params).
pub mod Numerical
pub mod Boolean
pub mod Choice
use Prim.Native.String.{String}
use istgt.Prelude.{
  ℕ, zero, suc, ◌+◌, ◌-◌, List, [], ◌∷◌, Bool, true, false, ◌&&◌, ◌||◌, not, Option, none, some,
  if◌then◌else◌, ltb, length, take, map, Name, str_case_eq, any,
}
use istgt.Misc.Strings.{codes, strlcpy, strsepq, strtol, int_ltb, print_int}
use istgt.Iscsi.Param.{
  Param, ParamType, ispt_invalid, ispt_notspecified, ispt_list, ispt_numerical, ispt_numerical_max,
  ispt_declarative, ispt_boolean_or, ispt_boolean_and, param_find, param_set, param_eq_val,
}
use istgt.Iscsi.Text.{Segment, put_text, cut_text, text_max_val_len}
use istgt.Iscsi.Conn.{IscsiConn, Sess}

-- What happens to an offer: the value is stored and added to the answer, or only added.
pub data Outcome : Type 0 where
  update_val : Name → Outcome
  add_val : Name → Outcome

abbrev pub reject : Outcome
reject = add_val (codes "Reject")

abbrev pub comma : Name
comma = b',' ∷ []

-- The tokens that a loop with strsepq takes from a list. A token takes at least a character of
-- what stands before the last.
unfoldable pub tokens : (rounds : ℕ) → Option Name → List Name
tokens rounds none = []
tokens zero (some s) = []
tokens (suc rounds) (some s) = let r = strsepq comma s in r.0 ∷ tokens rounds r.1

-- `while ((valid_val = strsepq(&valid_next, ",")) != NULL)`, up to the first match
unfoldable pub is_valid : (valid_list : Name) → (new_val : Name) → Bool
is_valid valid_list new_val =
    any (str_case_eq new_val) (tokens (suc (length valid_list)) (some valid_list))

-- The loop over the offered values. strsepq writes a NUL behind the first token of `valid_list`,
-- so that a second round finds only that one there.
unfoldable pub choose : (rounds : ℕ) → Option Name → (valid_list : Name) → Outcome
choose rounds none valid_list = reject
choose zero (some in_next) valid_list = reject
choose (suc rounds) (some in_next) valid_list =
    let r = strsepq comma in_next in
    let rest = choose rounds r.1 (strsepq comma valid_list).0 in
    if is_valid valid_list r.0 then update_val r.0 else rest

-- `min_i` and `max_i`
unfoldable pub valid_range : (valid_list : Name) → ℕ × ℕ
valid_range valid_list =
    let r = strsepq comma valid_list in
    (strtol r.0, elim r.1 [ none ↦ 0 | some valid_next ↦ strtol (strsepq comma valid_next).0 ])

-- `val_i < min_i || val_i > max_i`
unfoldable pub is_outside : (val_i : ℕ) → (valid_list : Name) → Bool
is_outside val_i valid_list =
    int_ltb val_i (valid_range valid_list).0 || int_ltb (valid_range valid_list).1 val_i

-- ISPT_NUMERICAL, from the number to compare with
unfoldable pub take_min : (cur_val_i : ℕ) → (valid_list val : Name) → Outcome
take_min cur_val_i valid_list val =
    let val_i = strtol val in
    if is_outside val_i valid_list
    then reject
    else update_val (print_int (if int_ltb cur_val_i val_i then cur_val_i else val_i))

-- ISPT_NUMERICAL_MAX
unfoldable pub take_max : (cur_val_i : ℕ) → (valid_list val : Name) → Outcome
take_max cur_val_i valid_list val =
    let val_i = strtol val in
    if is_outside val_i valid_list
    then reject
    else update_val (print_int (if int_ltb val_i cur_val_i then cur_val_i else val_i))

-- ISPT_BOOLEAN_OR with "Yes", and ISPT_BOOLEAN_AND with "No"
unfoldable pub take_bool : (fixed : Name) → (cur_val val : Name) → Outcome
take_bool fixed cur_val val =
    if str_case_eq cur_val fixed
    then update_val fixed
    else if str_case_eq val (codes "Yes") || str_case_eq val (codes "No")
    then update_val val
    else reject

-- `switch (cur_type)`
unfoldable pub negotiate_value :
    IscsiConn → (key val : Name) → ParamType → (valid_list cur_val : Name) → Outcome
negotiate_value conn key val ispt_list valid_list cur_val =
    let in_val = strlcpy val text_max_val_len in
    choose (suc (length in_val)) (some in_val) valid_list
negotiate_value conn key val ispt_numerical valid_list cur_val =
    if str_case_eq key (codes "MaxRecvDataSegmentLength")
    then take_min conn.target_max_recv_data_segment_length valid_list val
    else take_min (strtol cur_val) valid_list val
negotiate_value conn key val ispt_numerical_max valid_list cur_val =
    take_max (strtol cur_val) valid_list val
negotiate_value conn key val ispt_boolean_or valid_list cur_val =
    take_bool (codes "Yes") cur_val val
negotiate_value conn key val ispt_boolean_and valid_list cur_val =
    take_bool (codes "No") cur_val val
negotiate_value conn key val ispt_declarative valid_list cur_val =
    update_val (strlcpy val text_max_val_len)
negotiate_value conn key val ispt_invalid valid_list cur_val =
    update_val (strlcpy val text_max_val_len)
negotiate_value conn key val ispt_notspecified valid_list cur_val =
    update_val (strlcpy val text_max_val_len)
