-- ===== src/Iscsi/Negotiate/Values.antt =====
-- What a negotiation keeps of the parameters of a connection and its session
-- (src/istgt/istgt_iscsi.c: istgt_iscsi_negotiate_params).
use istgt.Prelude.{
  ℕ, ◌^◌, ◌<◌, ◌-◌, List, [], ◌∷◌, map, Bool, true, false, ◌&&◌, some, if◌then◌else◌, ltb, Name,
  All, str_case_eq, strlwr, ◌≡◌, refl, sym, ap, ◌∙◌, subst, arith, inl, inr, Bool-cases,
  Option-cases,
}
use istgt.Iscsi.Param.{Param, has_key, param_find, param_set}
use istgt.Iscsi.Param.Lookup.{str_eq_trans}
use istgt.Iscsi.Text.{Segment}
use istgt.Iscsi.Conn.{IscsiConn}
use istgt.Iscsi.Conn.Tables.{conn_param_table, sess_param_table}
use istgt.Iscsi.Value.{Outcome, update_val, add_val}
use istgt.Iscsi.Negotiate.{
  store_val, apply_outcome, negotiate_found, negotiate_param, negotiate_round, negotiate_loop,
  is_skipped, is_irrelevant, is_declarative,
}
use istgt.Iscsi.Negotiate.Range.{IsInRange, Stores, list_of, target_key, negotiate_value-Stores}

-- A parameter without its value.
abbrev pub strip : Param → Param
strip p = record p { val = [] }

abbrev pub shape : List Param → List Param
shape ps = map strip ps

-- The rows of the tables, each with an allowed value, on a connection whose own segment length is an `int`.
unfoldable pub IsNegotiated : IscsiConn → Type 0
IsNegotiated conn =
    (conn.target_max_recv_data_segment_length < 2 ^ 32)
    × All (IsInRange conn.target_max_recv_data_segment_length) conn.params
    × All (IsInRange conn.target_max_recv_data_segment_length) conn.sess.params
    × (shape conn.params ≡ shape conn_param_table)
    × (shape conn.sess.params ≡ shape sess_param_table)

shape-param_set : (ps : List Param) (key val : Name) → shape (param_set ps key val).1 ≡ shape ps
unfolding param_set
shape-param_set [] key val = refl
shape-param_set (p ∷ ps) key val = elim (Bool-cases (has_key key p)) [
  | inl e ↦ rw e refl
  | inr e ↦ rw e (ap (λ r. strip p ∷ r) (shape-param_set ps key val))
]

find-here :
    (p cur : Param) (ps : List Param) (key : Name)
    → has_key key p ≡ true
    → param_find (p ∷ ps) key ≡ some cur
    → p ≡ cur
unfolding param_find
find-here p cur ps key is e = some_inj (sym (rw is refl) ∙ e)
  where
    some_inj : some p ≡ some cur → p ≡ cur
    some_inj h = cc

find-later :
    (p : Param) (ps : List Param) (key : Name)
    → has_key key p ≡ false
    → param_find (p ∷ ps) key ≡ param_find ps key
unfolding param_find
find-later p ps key other = rw other refl

module _ (P : Param → Type 0) where
  -- Storing a value in the parameter that a lookup finds.
  All-param_set :
      (ps : List Param) (key val : Name) (cur : Param)
      → param_find ps key ≡ some cur
      → P (record cur { val = val })
      → All P ps
      → All P (param_set ps key val).1
  unfolding param_set param_find
  All-param_set [] key val cur e h all = tt
  All-param_set (p ∷ ps) key val cur e h all = elim (Bool-cases (has_key key p)) [
    | inl is ↦
        rw is (subst (λ q. P (record q { val = val })) (sym (find-here p cur ps key is e)) h, all.1)
    | inr other ↦
        rw other (all.0, All-param_set ps key val cur (sym (find-later p ps key other) ∙ e) h all.1)
  ]

  pub All-param_find :
      (ps : List Param) (key : Name) (cur : Param)
      → param_find ps key ≡ some cur
      → All P ps
      → P cur × (has_key key cur ≡ true)
  unfolding param_find
  All-param_find [] key cur e all = cc
  All-param_find (p ∷ ps) key cur e all = elim (Bool-cases (has_key key p)) [
    | inl is ↦ subst (λ q. P q × (has_key key q ≡ true)) (find-here p cur ps key is e) (all.0, is)
    | inr other ↦ All-param_find ps key cur (sym (find-later p ps key other) ∙ e) all.1
  ]

-- The key of the request stands for that of the parameter.
same-target_key :
    (key : Name) (p : Param)
    → has_key key p ≡ true
    → str_case_eq key target_key ≡ str_case_eq p.key target_key
unfolding has_key str_case_eq
same-target_key key p h =
    str_eq_trans (strlwr p.key) (strlwr key) (strlwr target_key) (ground (arith, h))

store_val-IsNegotiated :
    (conn : IscsiConn) (sw : Bool) (key val : Name) (p : Param)
    → IsNegotiated conn
    → param_find (if sw then conn.sess.params else conn.params) key ≡ some p
    → IsInRange conn.target_max_recv_data_segment_length (record p { val = val })
    → IsNegotiated (store_val sw conn key val)
unfolding store_val IsNegotiated
store_val-IsNegotiated conn true key val p h e r = (
  h.0,
  h.1,
  All-param_set (IsInRange conn.target_max_recv_data_segment_length) conn.sess.params key val p e r
      h.2,
  h.3,
  shape-param_set conn.sess.params key val ∙ h.4,
)
store_val-IsNegotiated conn false key val p h e r = (
  h.0,
  All-param_set (IsInRange conn.target_max_recv_data_segment_length) conn.params key val p e r h.1,
  h.2,
  shape-param_set conn.params key val ∙ h.3,
  h.4,
)

apply_outcome-IsNegotiated :
    (conn : IscsiConn) (sw : Bool) (key : Name) (p : Param) (o : Outcome)
    → IsNegotiated conn
    → param_find (if sw then conn.sess.params else conn.params) key ≡ some p
    → IsInRange conn.target_max_recv_data_segment_length p
    → Stores p.type (list_of p) o
    → IsNegotiated (apply_outcome sw conn p.type key o).conn
unfolding apply_outcome IsInRange
apply_outcome-IsNegotiated conn sw key p (update_val val) h e r s =
    store_val-IsNegotiated conn sw key val p h e (s, r.1, r.2)
apply_outcome-IsNegotiated conn sw key p (add_val val) h e r s = h

negotiate_found-IsNegotiated :
    (conn : IscsiConn) (sw : Bool) (key val : Name) (p : Param)
    → IsNegotiated conn
    → param_find (if sw then conn.sess.params else conn.params) key ≡ some p
    → All
        (IsInRange conn.target_max_recv_data_segment_length)
        (if sw then conn.sess.params else conn.params)
    → IsNegotiated (negotiate_found sw conn p key val).conn
unfolding negotiate_found IsNegotiated
negotiate_found-IsNegotiated conn sw key val p h e all =
    let r =
      All-param_find (IsInRange conn.target_max_recv_data_segment_length)
        (if sw then conn.sess.params else conn.params) key p e all in
    apply_outcome-IsNegotiated conn sw key p _ h e r.0
      (negotiate_value-Stores conn key val p (same-target_key key p r.1) h.0 r.0)

in_range :
    (conn : IscsiConn)
    → IsNegotiated conn
    → All (IsInRange conn.target_max_recv_data_segment_length) conn.params
      × All (IsInRange conn.target_max_recv_data_segment_length) conn.sess.params
unfolding IsNegotiated
in_range conn h = (h.1, h.2)

negotiate_param-IsNegotiated :
    (discovery : Bool) (conn : IscsiConn) (param : Param)
    → IsNegotiated conn
    → IsNegotiated (negotiate_param discovery conn param).conn
unfolding negotiate_param
negotiate_param-IsNegotiated discovery conn param h =
    elim (Bool-cases (discovery && is_irrelevant param.key)) [
      | inl e ↦ rw e h
      | inr e ↦ rw e (elim (Option-cases (param_find conn.params param.key)) [
        | inr (p, found) ↦ rw found (
            negotiate_found-IsNegotiated conn false param.key param.val p h found
              (in_range conn h).0)
        | inl none_here ↦
            rw none_here (elim (Option-cases (param_find conn.sess.params param.key)) [
              | inr (p, found) ↦ rw found (
                  negotiate_found-IsNegotiated conn true param.key param.val p h found
                    (in_range conn h).1)
              | inl unknown ↦ rw unknown h
            ])
      ])
    ]

negotiate_round-IsNegotiated :
    (discovery : Bool) (conn : IscsiConn) (param : Param) (alloc_len : ℕ) (text : Segment)
    → IsNegotiated conn
    → IsNegotiated (negotiate_round discovery conn param alloc_len text).conn
unfolding negotiate_round
negotiate_round-IsNegotiated discovery conn param alloc_len text h =
    let next = negotiate_param-IsNegotiated discovery conn param h in
    elim (Bool-cases (is_skipped param.key)) [
      | inl e ↦ rw e h
      | inr e ↦
          rw e (elim (Bool-cases (is_declarative (negotiate_param discovery conn param).cur_type)) [
            | inl d ↦ rw d next
            | inr d ↦ rw d (elim (Bool-cases (ltb (alloc_len - text.total) 1)) [
              | inl full ↦ rw full next
              | inr room ↦ rw room next
            ])
          ])
    ]

pub negotiate_loop-IsNegotiated :
    (discovery : Bool) (conn : IscsiConn) (params : List Param) (alloc_len : ℕ) (text : Segment)
    → IsNegotiated conn
    → IsNegotiated (negotiate_loop discovery conn params alloc_len text).0
unfolding negotiate_loop
negotiate_loop-IsNegotiated discovery conn [] alloc_len text h = h
negotiate_loop-IsNegotiated discovery conn (param ∷ params) alloc_len text h =
    let r = negotiate_round discovery conn param alloc_len text in
    let next = negotiate_round-IsNegotiated discovery conn param alloc_len text h in
    elim (Bool-cases r.goes_on) [
      | inl e ↦ rw e (negotiate_loop-IsNegotiated discovery r.conn params alloc_len r.text next)
      | inr e ↦ rw e next
    ]
