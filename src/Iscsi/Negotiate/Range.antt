-- ===== src/Iscsi/Negotiate/Range.antt =====
-- The values of the parameters stay in their ranges (src/istgt/istgt_iscsi.c:
-- istgt_iscsi_negotiate_params).
use istgt.Prelude.{
  ℕ, ◌^◌, ◌<◌, [], length, Bool, true, false, not, ◌||◌, none, some, Name, str_case_eq, str_eq,
  strlwr, ◌≡◌, refl, arith, subst, sym, inl, inr, Bool-cases,
}
use istgt.Misc.Strings.{codes, strlcpy, strtol, int_ltb, print_int}
use istgt.Misc.Strings.Numbers.{strtol-print_int, strtol-bound, length-print_int}
use istgt.Misc.Strings.Tokens.{strlcpy-short}
use istgt.Iscsi.Param.{
  Param, ParamType, ispt_invalid, ispt_notspecified, ispt_list, ispt_numerical, ispt_numerical_max,
  ispt_declarative, ispt_boolean_or, ispt_boolean_and,
}
use istgt.Iscsi.Text.{text_max_val_len}
use istgt.Iscsi.Conn.{IscsiConn}
use istgt.Iscsi.Value.{
  Outcome, update_val, add_val, is_outside, take_min, take_max, take_bool, negotiate_value,
}
use istgt.Iscsi.Value.Boolean.{yes_no}

-- A value that a parameter of the type may have, for its list: a number in the range, or a Boolean.
unfoldable pub Allows : ParamType → (list val : Name) → Type 0
Allows ispt_numerical list val =
    (is_outside (strtol val) list ≡ false) × (length val < text_max_val_len)
Allows ispt_numerical_max list val =
    (is_outside (strtol val) list ≡ false) × (length val < text_max_val_len)
Allows ispt_boolean_or list val =
    (str_case_eq val (codes "Yes") || str_case_eq val (codes "No")) ≡ true
Allows ispt_boolean_and list val =
    (str_case_eq val (codes "Yes") || str_case_eq val (codes "No")) ≡ true
Allows ispt_list list val = Unit
Allows ispt_declarative list val = Unit
Allows ispt_invalid list val = Unit
Allows ispt_notspecified list val = Unit

-- What is stored is allowed.
abbrev pub Stores : ParamType → (list : Name) → Outcome → Type 0
Stores type list (update_val val) = Allows type list val
Stores type list (add_val val) = Unit

print_int-Allows :
    (list : Name) (n : ℕ)
    → n < 2 ^ 32
    → is_outside n list ≡ false
    → Allows ispt_numerical list (print_int n)
unfolding Allows
print_int-Allows list n h e = (rw (strtol-print_int n h) e, omega (arith, length-print_int n))

take_min-Stores :
    (c : ℕ) (list val : Name)
    → c < 2 ^ 32
    → is_outside c list ≡ false
    → Stores ispt_numerical list (take_min c list val)
unfolding take_min
take_min-Stores c list val h e = elim (Bool-cases (is_outside (strtol val) list)) [
  | inl out ↦ rw out tt
  | inr fits ↦ elim (Bool-cases (int_ltb c (strtol val))) [
    | inl less ↦ rw (fits, less) (print_int-Allows list c h e)
    | inr more ↦ rw (fits, more) (print_int-Allows list (strtol val) (strtol-bound val) fits)
  ]
]

take_max-Stores :
    (c : ℕ) (list val : Name)
    → c < 2 ^ 32
    → is_outside c list ≡ false
    → Stores ispt_numerical list (take_max c list val)
unfolding take_max
take_max-Stores c list val h e = elim (Bool-cases (is_outside (strtol val) list)) [
  | inl out ↦ rw out tt
  | inr fits ↦ elim (Bool-cases (int_ltb (strtol val) c)) [
    | inl less ↦ rw (fits, less) (print_int-Allows list c h e)
    | inr more ↦ rw (fits, more) (print_int-Allows list (strtol val) (strtol-bound val) fits)
  ]
]

take_bool-Stores :
    (list fixed cur val : Name)
    → (str_case_eq fixed (codes "Yes") || str_case_eq fixed (codes "No")) ≡ true
    → Stores ispt_boolean_or list (take_bool fixed cur val)
unfolding take_bool Allows
take_bool-Stores list fixed cur val h = elim (Bool-cases (str_case_eq cur fixed)) [
  | inl e ↦ rw e h
  | inr e ↦ elim (Bool-cases (str_case_eq val (codes "Yes") || str_case_eq val (codes "No"))) [
    | inl k ↦ rw (e, k) k
    | inr k ↦ rw (e, k) tt
  ]
]

abbrev pub list_of : Param → Name
list_of p = elim p.list [ none ↦ [] | some list ↦ list ]

abbrev pub target_key : Name
target_key = codes "MaxRecvDataSegmentLength"

-- A parameter with an allowed value, and, for the segment length, a range in which that of the
-- target lies.
unfoldable pub IsInRange : (target : ℕ) → Param → Type 0
IsInRange target p =
    Allows p.type (list_of p) p.val
    × (length (list_of p) < text_max_val_len)
    × ((not (str_case_eq p.key target_key) || not (is_outside target (list_of p))) ≡ true)

Stores-list : (list : Name) (o : Outcome) → Stores ispt_list list o
unfolding Allows
Stores-list list (update_val val) = tt
Stores-list list (add_val val) = tt

known :
    (b : Bool)
    → (str_case_eq (yes_no b) (codes "Yes") || str_case_eq (yes_no b) (codes "No")) ≡ true
unfolding str_case_eq str_eq strlwr
known true = refl
known false = refl

-- The value that is stored, from the type and the value of the parameter. `fits` says of the key
-- of the parameter what IsInRange says.
value-Stores :
    (conn : IscsiConn) (key val : Name) (type : ParamType) (list cur : Name)
    → (not (str_case_eq key target_key)
        || not (is_outside conn.target_max_recv_data_segment_length list))
      ≡ true
    → conn.target_max_recv_data_segment_length < 2 ^ 32
    → Allows type list cur
    → Stores type list (negotiate_value conn key val type list (strlcpy cur text_max_val_len))
unfolding negotiate_value Allows
value-Stores conn key val ispt_numerical list cur fits w a =
    rw (strlcpy-short cur text_max_val_len a.1) (elim (Bool-cases (str_case_eq key target_key)) [
      | inl is ↦ rw is (
          take_min-Stores conn.target_max_recv_data_segment_length list val w
            (ground (arith, is, fits)))
      | inr other ↦ rw other (take_min-Stores (strtol cur) list val (strtol-bound cur) a.0)
    ])
value-Stores conn key val ispt_numerical_max list cur fits w a =
    rw (strlcpy-short cur text_max_val_len a.1)
      (take_max-Stores (strtol cur) list val (strtol-bound cur) a.0)
value-Stores conn key val ispt_boolean_or list cur fits w a =
    take_bool-Stores list (codes "Yes") (strlcpy cur text_max_val_len) val (known true)
value-Stores conn key val ispt_boolean_and list cur fits w a =
    take_bool-Stores list (codes "No") (strlcpy cur text_max_val_len) val (known false)
value-Stores conn key val ispt_list list cur fits w a =
    Stores-list list (negotiate_value conn key val ispt_list list (strlcpy cur text_max_val_len))
value-Stores conn key val ispt_declarative list cur fits w a = tt
value-Stores conn key val ispt_invalid list cur fits w a = tt
value-Stores conn key val ispt_notspecified list cur fits w a = tt

-- The value that is stored for a found parameter is allowed.
pub negotiate_value-Stores :
    (conn : IscsiConn) (key val : Name) (p : Param)
    → str_case_eq key target_key ≡ str_case_eq p.key target_key
    → conn.target_max_recv_data_segment_length < 2 ^ 32
    → IsInRange conn.target_max_recv_data_segment_length p
    → Stores p.type (list_of p) (
        negotiate_value conn key val p.type
          (strlcpy (list_of p) text_max_val_len)
          (strlcpy p.val text_max_val_len))
unfolding IsInRange
negotiate_value-Stores conn key val p same w h =
    rw (strlcpy-short (list_of p) text_max_val_len h.1) (
      value-Stores conn key val p.type (list_of p) p.val
        (subst
          (λ b.
            (not b || not (is_outside conn.target_max_recv_data_segment_length (list_of p))) ≡ true)
          (sym same) h.2)
        w h.0)
