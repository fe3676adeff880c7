-- ===== src/Iscsi/Value/Choice.antt =====
-- The choice of a value from two lists (src/istgt/istgt_iscsi.c: ISPT_LIST).
use istgt.Prelude.{
  ℕ, suc, ◌+◌, ◌-◌, ◌<◌, [], ◌∷◌, ◌++◌, length, length-append, take-all, ◌||◌, some, if◌then◌else◌,
  Name, str_case_eq, All, any, ◌≡◌, refl, arith, ◌∙◌, ap,
}
use istgt.Misc.Strings.{strsepq, strlcpy}
use istgt.Misc.Strings.Tokens.{IsPlain, strsepq-plain, strsepq-comma}
use istgt.Iscsi.Conn.{IscsiConn}
use istgt.Iscsi.Param.{ispt_list}
use istgt.Iscsi.Text.{text_max_val_len}
use istgt.Iscsi.Value.{update_val, reject, comma, tokens, is_valid, choose, negotiate_value}

-- A text without quotation marks, backslashes, commas and newlines, and not empty.
abbrev pub IsToken : Name → Type 0
IsToken s = All IsPlain s × (0 < length s)

abbrev pub pair_text : (a b : Name) → Name
pair_text a b = a ++ b',' ∷ b

length-pair_text : (a b : Name) → length (pair_text a b) ≡ suc (length a + length b)
length-pair_text a b = omega (arith, length-append a (b',' ∷ b))

strsepq-pair_text :
    (a b : Name) → All IsPlain a → IsToken b → strsepq comma (pair_text a b) ≡ (a, some b)
strsepq-pair_text a [] h k = absurd (omega (arith, k.1))
strsepq-pair_text a (c ∷ b) h k = strsepq-comma a c b h k.0.0.4

tokens-pair_text :
    (rounds : ℕ) (v w : Name)
    → All IsPlain v
    → IsToken w
    → tokens (suc (suc rounds)) (some (pair_text v w)) ≡ v ∷ w ∷ []
unfolding tokens
tokens-pair_text rounds v w h k = rw (strsepq-pair_text v w h k, strsepq-plain w k.0) refl

is_valid-pair_text :
    (v w a : Name)
    → All IsPlain v
    → IsToken w
    → is_valid (pair_text v w) a ≡ (str_case_eq a v || str_case_eq a w)
unfolding is_valid
is_valid-pair_text v w a h k =
    ap (λ n. any (str_case_eq a) (tokens (suc n) (some (pair_text v w)))) (length-pair_text v w)
    ∙ rw (tokens-pair_text (length v + length w) v w h k) (ground arith)

is_valid-plain : (v a : Name) → All IsPlain v → is_valid v a ≡ str_case_eq a v
unfolding is_valid tokens
is_valid-plain v a h = rw (strsepq-plain v h) (ground arith)

choose_lem :
    (rounds : ℕ) (v w a b : Name)
    → All IsPlain v
    → IsToken w
    → All IsPlain a
    → IsToken b
    → choose (suc (suc rounds)) (some (pair_text a b)) (pair_text v w) ≡ (
        if str_case_eq a v || str_case_eq a w
        then update_val a
        else if str_case_eq b v
        then update_val b
        else reject)
unfolding choose
choose_lem rounds v w a b hv hw ha hb =
    rw
      (
        strsepq-pair_text a b ha hb,
        strsepq-pair_text v w hv hw,
        is_valid-pair_text v w a hv hw,
        strsepq-plain b hb.0,
        is_valid-plain v b hv,
      )
      refl

-- An initiator that offers two values a and b for a parameter with the valid values v and w gets
-- a if it is one of these, and else b if it is v, up to case; where b is w instead, the
-- offer is rejected, though b is valid.
pub negotiate_value-pair_text :
    (conn : IscsiConn) (key cur v w a b : Name)
    → All IsPlain v
    → IsToken w
    → All IsPlain a
    → IsToken b
    → length (pair_text a b) < text_max_val_len
    → negotiate_value conn key (pair_text a b) ispt_list (pair_text v w) cur ≡ (
        if str_case_eq a v || str_case_eq a w
        then update_val a
        else if str_case_eq b v
        then update_val b
        else reject)
unfolding negotiate_value strlcpy
negotiate_value-pair_text conn key cur v w a b hv hw ha hb short =
    rw
      (take-all (text_max_val_len - 1) (pair_text a b) (omega (arith, short)), length-pair_text a b)
      (choose_lem (length a + length b) v w a b hv hw ha hb)
