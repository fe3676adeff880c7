-- ===== src/Iscsi/Param.antt =====
-- Lists of text parameters (src/istgt/istgt_iscsi_param.h and istgt_iscsi_param.c).
pub mod Lookup
use istgt.Prelude.{
  ℕ, List, [], ◌∷◌, ◌++◌, Bool, true, false, ◌&&◌, Option, none, some, if◌then◌else◌, ◌==◌, Name,
  str_case_eq, find?, any,
}
use istgt.Misc.Strings.{print_int}

-- ISPT_*
pub data ParamType : Type 0 where
  ispt_invalid : ParamType
  ispt_notspecified : ParamType
  ispt_list : ParamType
  ispt_numerical : ParamType
  ispt_numerical_max : ParamType
  ispt_declarative : ParamType
  ispt_boolean_or : ParamType
  ispt_boolean_and : ParamType

-- The linked list of parameters is the list of these.
pub record Param : Type 0 where
  pub key : Name
  pub val : Name
  pub list : Option Name
  pub type : ParamType

-- `s[0]`
abbrev pub first : Name → ℕ
first [] = 0
first (c ∷ s) = c

-- The test that `find` and `del` make of an entry.
unfoldable pub has_key : (key : Name) → Param → Bool
has_key key param = first param.key == first key && str_case_eq param.key key

unfoldable pub param_find : List Param → (key : Name) → Option Param
unfolding has_key
param_find params key = find? (has_key key) params

-- The list without its first entry of that key, and whether there is one.
unfoldable pub param_del : List Param → (key : Name) → Bool × List Param
unfolding has_key
param_del [] key = (false, [])
param_del (param ∷ params) key =
    let rest = param_del params key in
    if has_key key param then (true, params) else (rest.0, param ∷ rest.1)

unfoldable pub param_add :
    List Param → (key : Name) → (val : Name) → (list : Option Name) → ParamType → List Param
unfolding param_find param_del
param_add params key val list type =
    let kept : List Param = elim (param_find params key) [
      | none ↦ params
      | some param ↦ (param_del params key).1
    ] in
    kept ++ (record { key = key; val = val; list = list; type = type }) ∷ []

-- The first entry of that key gets the value; without one the call returns -1.
unfoldable pub param_set : List Param → (key : Name) → (val : Name) → Bool × List Param
unfolding has_key
param_set [] key val = (false, [])
param_set (param ∷ params) key val =
    let rest = param_set params key val in
    if has_key key param
    then (true, (record param { val = val }) ∷ params)
    else (rest.0, param ∷ rest.1)

unfoldable pub param_set_int : List Param → (key : Name) → (val : ℕ) → Bool × List Param
unfolding param_set
param_set_int params key val = param_set params key (print_int val)

unfoldable pub param_get_val : List Param → (key : Name) → Option Name
unfolding param_find
param_get_val params key = elim (param_find params key) [ none ↦ none | some p ↦ some p.val ]

unfoldable pub param_eq_val : List Param → (key : Name) → (val : Name) → Bool
unfolding param_find
param_eq_val params key val = elim (param_find params key) [
  | none ↦ false
  | some p ↦ str_case_eq p.val val
]
