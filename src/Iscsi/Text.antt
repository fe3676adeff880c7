-- ===== src/Iscsi/Text.antt =====
-- Text segments: `KEY=VAL` pairs, each closed by a NUL (src/istgt/istgt_iscsi_param.c:
-- istgt_iscsi_parse_params; src/istgt/istgt_iscsi.c: istgt_iscsi_append_text,
-- istgt_iscsi_append_param).
pub mod RoundTrip
use istgt.Prelude.{
  ℕ, zero, suc, ◌+◌, ◌-◌, List, [], ◌∷◌, ◌++◌, length, take, Bool, true, false, Option, none, some,
  if◌then◌else◌, ◌==◌, ltb, Name,
}
use istgt.Iscsi.Param.{Param, ParamType, ispt_notspecified, param_add}

-- ISCSI_TEXT_MAX_KEY_LEN and ISCSI_TEXT_MAX_VAL_LEN
abbrev pub text_max_key_len : ℕ
text_max_key_len = 64

abbrev pub text_max_val_len : ℕ
text_max_val_len = 8192

-- What stands in front of the first '=' and behind it, if it comes before any NUL.
unfoldable pub scan_key : List ℕ → Option (Name × List ℕ)
scan_key [] = none
scan_key (c ∷ cs) =
    let rest = scan_key cs in
    if c == 0
    then none
    else if c == b'='
    then some ([], cs)
    else elim rest [ none ↦ none | some r ↦ some (c ∷ r.0, r.1) ]

-- What stands in front of the first NUL, or the end, and behind it.
unfoldable pub scan_val : List ℕ → Name × List ℕ
scan_val [] = ([], [])
scan_val (c ∷ cs) = let rest = scan_val cs in if c == 0 then ([], cs) else (c ∷ rest.0, rest.1)

unfoldable pub skip_nul : List ℕ → List ℕ
skip_nul [] = []
skip_nul (c ∷ cs) = let rest = skip_nul cs in if c == 0 then rest else c ∷ cs

-- The loop of `parse_params`, where no NUL stands in front but at the start; false is the return value of -1. An entry
-- takes at least the byte of its '='.
unfoldable pub parse_loop : (rounds : ℕ) → List Param → List ℕ → Bool × List Param
unfolding scan_key scan_val skip_nul param_add
parse_loop rounds params [] = (true, params)
parse_loop zero params (c ∷ cs) = (false, params)
parse_loop (suc rounds) params (c ∷ cs) =
    if c == 0 then (true, params) else elim (scan_key (c ∷ cs)) [
      | none ↦ (false, params)
      | some k ↦
          let v = scan_val k.1 in
          if ltb text_max_key_len (length k.0)
          then (false, params)
          else if ltb text_max_val_len (length v.0)
          then (false, params)
          else parse_loop rounds (param_add params k.0 v.0 none ispt_notspecified) (skip_nul v.1)
    ]

unfoldable pub parse_params : List Param → (input : List ℕ) → Bool × List Param
unfolding parse_loop
parse_params params input = parse_loop (length input) params input

-- A data segment that is being written: the first `total` bytes of the buffer, as far as they
-- lie within its `alloc_len`, and `total`, which may count bytes that were cut off.
pub record Segment : Type 0 where
  pub bytes : List ℕ
  pub total : ℕ

-- `snprintf(data + total, alloc_len - total, "%s=%s", key, val)`, and `total += len + 1`
unfoldable pub put_text : (key : Name) → (val : Name) → (alloc_len : ℕ) → Segment → Segment
put_text key val alloc_len text =
    let pair = key ++ b'=' ∷ val in
    record {
      bytes = text.bytes ++ (take (alloc_len - text.total - 1) pair ++ 0 ∷ []);
      total = text.total + length pair + 1;
    }

-- The last byte that there is room for is a NUL.
unfoldable pub cut_text : (alloc_len : ℕ) → Segment → Segment
cut_text alloc_len text = record {
  bytes = take (alloc_len - 1) text.bytes ++ 0 ∷ [];
  total = alloc_len;
}

unfoldable pub append_text : (key : Name) → (val : Name) → (alloc_len : ℕ) → Segment → Segment
unfolding put_text cut_text
append_text key val alloc_len text =
    if ltb alloc_len 1
    then record { bytes = []; total = 0 }
    else if ltb alloc_len text.total
    then cut_text alloc_len text
    else if ltb (alloc_len - text.total) 1
    then text
    else put_text key val alloc_len text
