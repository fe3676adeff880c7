-- ===== src/Iscsi/Negotiate/Start.antt =====
-- The parameters that a connection starts with (src/istgt/istgt_iscsi.c: the parameter tables,
-- istgt_iscsi_params_init_internal).
use istgt.Prelude.{
  ℕ, ◌≤◌, List, [], ◌∷◌, length, Bool, true, false, not, ◌&&◌, ◌||◌, ltb, Name, All, str_case_eq,
  str_eq, strlwr, eq_of_str_eq, ◌≡◌, refl, sym, ap, ◌∙◌, subst, arith, inl, inr, Bool-cases,
}
use istgt.Misc.Strings.{
  codes, strtol, int_ltb, strsepq, strtol_sign, strtol_digits, decimal, skip_space, sep_scan,
  sep_step, skip_delim,
}
use istgt.Iscsi.Param.{
  Param, ParamType, ispt_invalid, ispt_notspecified, ispt_list, ispt_numerical, ispt_numerical_max,
  ispt_declarative, ispt_boolean_or, ispt_boolean_and, has_key, param_find, param_add, param_del,
}
use istgt.Iscsi.Text.{text_max_val_len}
use istgt.Iscsi.Conn.{IscsiConn}
use istgt.Iscsi.Conn.Tables.{
  conn_param_table, sess_param_table, params_init_internal, conn_params_init, sess_params_init,
}
use istgt.Iscsi.Value.{is_outside, valid_range}
use istgt.Iscsi.Negotiate.Range.{IsInRange, Allows, list_of, target_key}
use istgt.Iscsi.Negotiate.Values.{IsNegotiated, shape}
use istgt.Iscsi.Negotiate.Checked.{lengths, valid_range-lengths}

allows : ParamType → (list val : Name) → Bool
allows ispt_numerical list val =
    not (is_outside (strtol val) list) && ltb (length val) text_max_val_len
allows ispt_numerical_max list val =
    not (is_outside (strtol val) list) && ltb (length val) text_max_val_len
allows ispt_boolean_or list val = str_case_eq val (codes "Yes") || str_case_eq val (codes "No")
allows ispt_boolean_and list val = str_case_eq val (codes "Yes") || str_case_eq val (codes "No")
allows type list val = true

Allows-allows :
    (type : ParamType) (list val : Name) → allows type list val ≡ true → Allows type list val
unfolding allows Allows
Allows-allows ispt_numerical list val h = (ground (arith, h), ground (arith, h))
Allows-allows ispt_numerical_max list val h = (ground (arith, h), ground (arith, h))
Allows-allows ispt_boolean_or list val h = h
Allows-allows ispt_boolean_and list val h = h
Allows-allows ispt_list list val h = tt
Allows-allows ispt_declarative list val h = tt
Allows-allows ispt_invalid list val h = tt
Allows-allows ispt_notspecified list val h = tt

-- What can be tested of a row: only the segment length has the range of the target's.
is_sound : Param → Bool
is_sound p =
    allows p.type (list_of p) p.val
    && ltb (length (list_of p)) text_max_val_len
    && (not (str_case_eq p.key target_key) || str_eq (list_of p) lengths)

are_sound : List Param → Bool
are_sound [] = true
are_sound (p ∷ ps) = is_sound p && are_sound ps

inside-target : (target : ℕ) → 512 ≤ target → target ≤ 16777215 → is_outside target lengths ≡ false
unfolding is_outside int_ltb
inside-target target h k =
    ground (arith, h, k, ap (λ r. r.0) valid_range-lengths, ap (λ r. r.1) valid_range-lengths)

is_sound-IsInRange :
    (target : ℕ) (p : Param)
    → is_outside target lengths ≡ false
    → is_sound p ≡ true
    → IsInRange target p
unfolding is_sound IsInRange
is_sound-IsInRange target p t h = (
  Allows-allows p.type (list_of p) p.val (ground (arith, h)),
  ground (arith, h),
  elim (Bool-cases (str_case_eq p.key target_key)) [
    | inr other ↦ rw other (ground arith)
    | inl is ↦
        let e = eq_of_str_eq (list_of p) lengths (ground (arith, h, is)) in
        rw is (subst (λ l. (not true || not (is_outside target l)) ≡ true) (sym e) (rw t refl))
  ],
)

are_sound-IsInRange :
    (target : ℕ) (ps : List Param)
    → is_outside target lengths ≡ false
    → are_sound ps ≡ true
    → All (IsInRange target) ps
unfolding are_sound
are_sound-IsInRange target [] t h = tt
are_sound-IsInRange target (p ∷ ps) t h = (
  is_sound-IsInRange target p t (ground (arith, h)),
  are_sound-IsInRange target ps t (ground (arith, h)),
)

-- Adding the rows one by one to an empty list gives the tables.
init-tables :
    (conn_params_init [] ≡ conn_param_table)
    × (sess_params_init [] ≡ sess_param_table)
    × (are_sound conn_param_table ≡ true)
    × (are_sound sess_param_table ≡ true)
unfolding conn_params_init sess_params_init params_init_internal param_add param_del param_find
    has_key are_sound is_sound allows is_outside int_ltb valid_range strsepq strtol strtol_sign
    strtol_digits decimal skip_space sep_scan sep_step skip_delim str_case_eq str_eq strlwr
init-tables = (refl, refl, refl, refl)

-- Where the own segment length of a connection is from 512 to 2 ^ 24 - 1, the parameters that
-- params_init gives it and its session have the rows of the tables, with every number in the range
-- of its row and every Boolean Yes or No.
pub params_init-IsNegotiated :
    (conn : IscsiConn)
    → conn.params ≡ conn_params_init []
    → conn.sess.params ≡ sess_params_init []
    → 512 ≤ conn.target_max_recv_data_segment_length
    → conn.target_max_recv_data_segment_length ≤ 16777215
    → IsNegotiated conn
unfolding IsNegotiated
params_init-IsNegotiated conn c s low high =
    let t = conn.target_max_recv_data_segment_length in
    let inside = inside-target t low high in
    let i = init-tables in
    (
      omega (arith, high),
      subst (λ ps. All (IsInRange t) ps) (sym (c ∙ i.0))
          (are_sound-IsInRange t conn_param_table inside i.2),
      subst (λ ps. All (IsInRange t) ps) (sym (s ∙ i.1))
          (are_sound-IsInRange t sess_param_table inside i.3),
      ap (λ ps. shape ps) (c ∙ i.0),
      ap (λ ps. shape ps) (s ∙ i.1),
    )
