-- ===== src/Iscsi/Negotiate/Checked.antt =====
-- What a request does to the parameters, and the variables that are made of them then
-- (src/istgt/istgt_iscsi.c: istgt_iscsi_negotiate_params, istgt_iscsi_copy_param2var,
-- istgt_iscsi_check_values).
use istgt.Prelude.{
  ℕ, ◌^◌, ◌<◌, ◌≤◌, List, [], ◌∷◌, true, false, not, ◌||◌, Option, none, some, ◌!=◌, ltb, leb, Name,
  All, str_case_eq, str_eq, strlwr, ◌≡◌, refl, sym, ap, ◌∙◌, subst, arith, inl, inr, Bool-cases,
}
use istgt.Misc.Strings.{
  codes, strtol, int_ltb, strsepq, strtol_sign, strtol_digits, decimal, skip_space, sep_scan,
  sep_step, skip_delim,
}
use istgt.Misc.Strings.Numbers.{strtol-bound}
use istgt.Iscsi.Param.{Param, has_key, param_find, param_get_val, ispt_numerical}
use istgt.Iscsi.Text.{Segment}
use istgt.Iscsi.Conn.{
  IscsiConn, getval, getint, copy_param2var, copy_sess, resize_buffers, check_values,
}
use istgt.Iscsi.Conn.Tables.{conn_param_table, sess_param_table}
use istgt.Iscsi.Value.{is_outside, valid_range}
use istgt.Iscsi.Negotiate.{negotiate_params, is_discovery}
use istgt.Iscsi.Negotiate.Range.{IsInRange, Allows, list_of, target_key}
use istgt.Iscsi.Negotiate.Values.{
  IsNegotiated, strip, shape, negotiate_loop-IsNegotiated, All-param_find,
}

-- Negotiating any request keeps the rows of the tables, with every number in the range of its row
-- and every Boolean Yes or No up to case, on a connection where they are so, and whose own segment
-- length lies in the range for it.
pub negotiate_params-IsNegotiated :
    (conn : IscsiConn) (params : List Param) (alloc_len : ℕ) (text : Segment)
    → IsNegotiated conn
    → IsNegotiated (negotiate_params conn params alloc_len text).0
unfolding negotiate_params
negotiate_params-IsNegotiated conn params alloc_len text h = elim (Bool-cases (ltb alloc_len 1)) [
  | inl e ↦ rw e h
  | inr e ↦ rw e (elim (Bool-cases (ltb alloc_len text.total)) [
    | inl f ↦ rw f h
    | inr f ↦
        rw f (negotiate_loop-IsNegotiated (is_discovery conn params) conn params alloc_len text h)
  ])
]

-- A lookup by the keys alone.
find-shape :
    (ps : List Param) (key : Name)
    → param_find (shape ps) key ≡ elim (param_find ps key) [ none ↦ none | some p ↦ some (strip p) ]
unfolding param_find has_key
find-shape [] key = refl
find-shape (p ∷ ps) key = elim (Bool-cases (has_key key p)) [
  | inl e ↦ rw e refl
  | inr e ↦ rw e (find-shape ps key)
]

-- The row of a key, with the value that it has now.
find-row :
    (ps table : List Param) (key : Name) (row : Param)
    → shape ps ≡ shape table
    → param_find (shape table) key ≡ some (strip row)
    → (p : Param) × (param_find ps key ≡ some p) × (strip p ≡ strip row)
find-row ps table key row h e =
    go (param_find ps key) (sym (find-shape ps key) ∙ ap (λ s. param_find s key) h ∙ e)
  where
    go :
        (o : Option Param)
        → elim o as (λ _. Option Param) [ none ↦ none | some p ↦ some (strip p) ] ≡ some (strip row)
        → (p : Param) × (o ≡ some p) × (strip p ≡ strip row)
    go none k = cc
    go (some p) k = (p, refl, cc)

getval-found :
    (ps : List Param) (key : Name) (p : Param) → param_find ps key ≡ some p → getval ps key ≡ p.val
unfolding getval param_get_val
getval-found ps key p h = rw (getval, param_get_val, h) refl

abbrev number_row : (key list : Name) → Param
number_row key list = record { key = key; val = []; list = some list; type = ispt_numerical }

-- The number that a row has lies in its range.
getint-inside :
    (target : ℕ) (ps table : List Param) (key list : Name)
    → All (IsInRange target) ps
    → shape ps ≡ shape table
    → param_find (shape table) key ≡ some (number_row key list)
    → is_outside (getint ps key) list ≡ false
unfolding IsInRange Allows
getint-inside target ps table key list all h e =
    let (p, found, same) = find-row ps table key (number_row key list) h e in
    let r = All-param_find (IsInRange target) ps key p found all in
    let a : Allows ispt_numerical list p.val =
      subst (λ t. Allows t list p.val) (ap (λ (q : Param). q.type) same)
        (subst (λ l. Allows p.type l p.val) (ap (λ (q : Param). list_of q) same) r.0.0) in
    rw (getval-found ps key p found) a.0

-- The table's range for a length.
abbrev pub lengths : Name
lengths = codes "512,16777215"

pub valid_range-lengths : valid_range lengths ≡ (512, 16777215)
unfolding valid_range strsepq strtol strtol_sign strtol_digits decimal skip_space sep_scan sep_step
    skip_delim
valid_range-lengths = refl

inside-lengths : (n : ℕ) → n < 2 ^ 32 → is_outside n lengths ≡ false → (512 ≤ n) × (n ≤ 16777215)
unfolding is_outside int_ltb
inside-lengths n w h =
    ground (arith, w, h, ap (λ r. r.0) valid_range-lengths, ap (λ r. r.1) valid_range-lengths)

-- The lengths of a connection with negotiated parameters.
length-bounds :
    (target : ℕ) (ps table : List Param) (key : Name)
    → All (IsInRange target) ps
    → shape ps ≡ shape table
    → param_find (shape table) key ≡ some (number_row key lengths)
    → (512 ≤ getint ps key) × (getint ps key ≤ 16777215)
length-bounds target ps table key all h e =
    inside-lengths (getint ps key) (strtol-bound (getval ps key))
      (getint-inside target ps table key lengths all h e)

-- The own length of the target lies in the range of its row.
target-inside :
    (target : ℕ) (ps : List Param)
    → All (IsInRange target) ps
    → shape ps ≡ shape conn_param_table
    → is_outside target lengths ≡ false
unfolding IsInRange param_find has_key str_case_eq str_eq strlwr
target-inside target ps all h =
    let (p, found, same) =
      find-row ps conn_param_table target_key (number_row target_key lengths) h refl in
    let r = All-param_find (IsInRange target) ps target_key p found all in
    let keyed : (not (str_case_eq target_key target_key) || not (is_outside target lengths))
        ≡ true =
      subst (λ k. (not (str_case_eq k target_key) || not (is_outside target lengths)) ≡ true)
        (ap (λ (q : Param). q.key) same)
        (subst (λ l. (not (str_case_eq p.key target_key) || not (is_outside target l)) ≡ true)
          (ap (λ (q : Param). list_of q) same) r.0.2) in
    ground (arith, keyed)

-- The lengths in question.
lengths-bounds :
    (conn : IscsiConn)
    → IsNegotiated conn
    → ((512 ≤ getint conn.params target_key) × (getint conn.params target_key ≤ 16777215))
      × (getint conn.sess.params (codes "MaxBurstLength") ≤ 16777215)
      × (getint conn.sess.params (codes "FirstBurstLength") ≤ 16777215)
      × ((512 ≤ conn.target_max_recv_data_segment_length)
          × (conn.target_max_recv_data_segment_length ≤ 16777215))
unfolding IsNegotiated param_find has_key str_case_eq str_eq strlwr
lengths-bounds conn h =
    let t = conn.target_max_recv_data_segment_length in
    let len = length-bounds t conn.params conn_param_table target_key h.1 h.3 refl in
    let burst =
      length-bounds t conn.sess.params sess_param_table (codes "MaxBurstLength") h.2 h.4 refl in
    let burst1 =
      length-bounds t conn.sess.params sess_param_table (codes "FirstBurstLength") h.2 h.4 refl in
    (len, burst.1, burst1.1, inside-lengths t h.0 (target-inside t conn.params h.1 h.3))

check_values-bounded :
    (conn : IscsiConn)
    → conn.sess.first_burst_length ≤ 16777215
    → conn.sess.max_burst_length ≤ 16777215
    → 512 ≤ conn.target_max_recv_data_segment_length
    → conn.target_max_recv_data_segment_length ≤ 16777215
    → 512 ≤ conn.max_recv_data_segment_length
    → conn.max_recv_data_segment_length ≤ 16777215
    → check_values conn ≡ record {
      ok = leb conn.sess.first_burst_length conn.sess.max_burst_length;
      left_locked = false;
    }
unfolding check_values int_ltb
check_values-bounded conn a b c d e f = ground (arith, a, b, c, d, e, f)

copied-lengths :
    (conn : IscsiConn)
    → ((copy_param2var conn).max_recv_data_segment_length ≡ getint conn.params target_key)
      × ((copy_param2var conn).target_max_recv_data_segment_length
          ≡ conn.target_max_recv_data_segment_length)
      × ((copy_param2var conn).sess.first_burst_length
          ≡ getint conn.sess.params (codes "FirstBurstLength"))
      × ((copy_param2var conn).sess.max_burst_length
          ≡ getint conn.sess.params (codes "MaxBurstLength"))
unfolding copy_param2var resize_buffers copy_sess
copied-lengths conn = elim (Bool-cases (conn.sendbufsize != getint conn.params target_key)) [
  | inr same ↦ rw same (refl, refl, refl, refl)
  | inl other ↦ rw other (elim (Bool-cases (int_ltb (getint conn.params target_key) 8192)) [
    | inl small ↦ rw small (refl, refl, refl, refl)
    | inr large ↦ rw large (refl, refl, refl, refl)
  ])
]

-- With negotiated parameters, the variables made of them have a segment length from 512 to
-- 2 ^ 24 - 1, and their check fails exactly if the first burst is longer than the longest burst;
-- it never leaves the mutex locked.
pub check_values-copy_param2var :
    (conn : IscsiConn)
    → IsNegotiated conn
    → (512 ≤ (copy_param2var conn).max_recv_data_segment_length)
      × ((copy_param2var conn).max_recv_data_segment_length ≤ 16777215)
      × (check_values (copy_param2var conn) ≡ record {
        ok =
            leb
              (copy_param2var conn).sess.first_burst_length
              (copy_param2var conn).sess.max_burst_length;
        left_locked = false;
      })
check_values-copy_param2var conn h =
    let c = copied-lengths conn in
    let b = lengths-bounds conn h in
    let low : 512 ≤ (copy_param2var conn).max_recv_data_segment_length =
      omega (arith, c.0, b.0.0) in
    let high : (copy_param2var conn).max_recv_data_segment_length ≤ 16777215 =
      omega (arith, c.0, b.0.1) in
    (
      low,
      high,
      check_values-bounded (copy_param2var conn) (omega (arith, c.2, b.2)) (omega (arith, c.3, b.1))
          (omega (arith, c.1, b.3.0)) (omega (arith, c.1, b.3.1)) low high,
    )
