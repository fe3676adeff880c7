-- ===== src/Iscsi/Value/Numerical.antt =====
-- Numbers in a negotiation (src/istgt/istgt_iscsi.c: ISPT_NUMERICAL, ISPT_NUMERICAL_MAX).
use Prim.Native.Nat.{max}
use istgt.Prelude.{
  ℕ, ◌^◌, ◌<◌, ◌∷◌, ◌++◌, ◌||◌, none, if◌then◌else◌, ltb, Name, str_case_eq, inl, inr, Bool-cases,
  ◌≡◌, subst, arith, sym, min,
}
use istgt.Misc.Strings.{codes, print_int, strsepq, int_ltb}
use istgt.Misc.Strings.Numbers.{strtol-print_int, print_int-AreDigits, print_int-cons}
use istgt.Misc.Strings.Tokens.{strsepq-plain, strsepq-comma, AreDigits-IsPlain}
use istgt.Iscsi.Conn.{IscsiConn}
use istgt.Iscsi.Param.{ispt_numerical, ispt_numerical_max}
use istgt.Iscsi.Value.{
  update_val, reject, comma, valid_range, is_outside, take_min, take_max, negotiate_value,
}

-- The list of the valid values of a number: the smallest and the largest.
abbrev pub range_text : (lo hi : ℕ) → Name
range_text lo hi = print_int lo ++ b',' ∷ print_int hi

valid_range_lem :
    (lo hi : ℕ) → lo < 2 ^ 31 → hi < 2 ^ 31 → valid_range (range_text lo hi) ≡ (lo, hi)
unfolding valid_range
valid_range_lem lo hi h k =
    let (c, cs, e, digit) = print_int-cons hi k in
    let second : strsepq comma (c ∷ cs) ≡ (c ∷ cs, none) =
      subst (λ s. strsepq comma s ≡ (s, none)) e
        (strsepq-plain (print_int hi)
          (AreDigits-IsPlain (print_int hi) (print_int-AreDigits hi k))) in
    rw
      (
        e,
        strsepq-comma (print_int lo) c cs
            (AreDigits-IsPlain (print_int lo) (print_int-AreDigits lo h))
            (λ e1. absurd (omega (arith, e1, digit))),
        second,
      )
      (rw (sym e)
        (λ i. (strtol-print_int lo (omega (arith, h)) i, strtol-print_int hi (omega (arith, k)) i)))

is_outside_lem :
    (lo hi a : ℕ)
    → lo < 2 ^ 31
    → hi < 2 ^ 31
    → a < 2 ^ 31
    → is_outside a (range_text lo hi) ≡ (ltb a lo || ltb hi a)
unfolding is_outside int_ltb
is_outside_lem lo hi a h k m = rw (valid_range_lem lo hi h k) (ground (arith, h, k, m))

-- The two kinds of a numerical parameter.
take_min_lem :
    (lo hi a c : ℕ)
    → lo < 2 ^ 31
    → hi < 2 ^ 31
    → a < 2 ^ 31
    → c < 2 ^ 31
    → (take_min c (range_text lo hi) (print_int a)
        ≡ (if ltb a lo || ltb hi a then reject else update_val (print_int (min a c))))
      × (take_max c (range_text lo hi) (print_int a)
          ≡ (if ltb a lo || ltb hi a then reject else update_val (print_int (max a c))))
unfolding take_min take_max int_ltb
take_min_lem lo hi a c h k m n = (
  rw (strtol-print_int a (omega (arith, m)), is_outside_lem lo hi a h k m) (ground (arith, m, n)),
  rw (strtol-print_int a (omega (arith, m)), is_outside_lem lo hi a h k m) (ground (arith, m, n)),
)

-- The offer of a number a to a parameter that has the value c and the range from lo to hi, all
-- below 2 ^ 31, as the segment length of the target is: out of the range it is rejected. Else a
-- parameter of the type ISPT_NUMERICAL gets the smaller one of a and c, but
-- MaxRecvDataSegmentLength the smaller one of a and the segment length of the target, whatever c
-- is; and a parameter of the type ISPT_NUMERICAL_MAX gets the larger one of a and c.
pub negotiate_value-range_text :
    (conn : IscsiConn) (key : Name) (lo hi a c : ℕ)
    → lo < 2 ^ 31
    → hi < 2 ^ 31
    → a < 2 ^ 31
    → c < 2 ^ 31
    → conn.target_max_recv_data_segment_length < 2 ^ 31
    → (negotiate_value conn key (print_int a) ispt_numerical (range_text lo hi) (print_int c) ≡ (
        if ltb a lo || ltb hi a
        then reject
        else update_val (
            print_int (
              min a (
                if str_case_eq key (codes "MaxRecvDataSegmentLength")
                then conn.target_max_recv_data_segment_length
                else c)))))
      × (negotiate_value conn key (print_int a) ispt_numerical_max (range_text lo hi) (print_int c)
          ≡ (if ltb a lo || ltb hi a then reject else update_val (print_int (max a c))))
unfolding negotiate_value
negotiate_value-range_text conn key lo hi a c h k m n r =
    let back = strtol-print_int c (omega (arith, n)) in
    let target = conn.target_max_recv_data_segment_length in
    (
      elim (Bool-cases (str_case_eq key (codes "MaxRecvDataSegmentLength"))) [
        | inl e ↦ rw e (take_min_lem lo hi a target h k m r).0
        | inr e ↦ rw (e, back) (take_min_lem lo hi a c h k m n).0
      ],
      rw back (take_min_lem lo hi a c h k m n).1,
    )
