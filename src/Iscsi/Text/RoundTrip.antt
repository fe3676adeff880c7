-- ===== src/Iscsi/Text/RoundTrip.antt =====
-- Writing a text segment and parsing it (src/istgt/istgt_iscsi_param.c: istgt_iscsi_parse_params;
-- src/istgt/istgt_iscsi.c: istgt_iscsi_append_text).
use istgt.Prelude.{
  ℕ, zero, suc, ◌+◌, ◌-◌, ◌≤◌, List, [], ◌∷◌, ◌++◌, length, length-append, take-all, true, none,
  some, Name, All, ◌≡◌, ◌≢◌, refl, ap, sym, ◌∙◌, arith,
}
use mathlib.Core.List.{append-nil, append_assoc}
use istgt.Iscsi.Param.{Param, ispt_notspecified, param_add}
use istgt.Iscsi.Text.{
  scan_key, scan_val, skip_nul, parse_loop, parse_params, Segment, append_text, put_text,
  text_max_key_len, text_max_val_len,
}

-- A pair of a key and its value.
abbrev pub Pair : Type 0
Pair = Name × Name

abbrev IsKeyChar : ℕ → Type 0
IsKeyChar c = (c ≢ 0) × (c ≢ b'=')

-- A key and a value that a segment can hold.
unfoldable pub IsPair : Pair → Type 0
IsPair p =
    All IsKeyChar p.0
    × All (λ c. c ≢ 0) p.1
    × (length p.0 ≤ text_max_key_len)
    × (length p.1 ≤ text_max_val_len)

-- The text of the pairs.
unfoldable pub text_of : List Pair → List ℕ
text_of [] = []
text_of (p ∷ ps) = p.0 ++ b'=' ∷ (p.1 ++ 0 ∷ text_of ps)

-- `param_add` for each pair.
unfoldable pub add_all : List Param → List Pair → List Param
add_all params [] = params
add_all params (p ∷ ps) = add_all (param_add params p.0 p.1 none ispt_notspecified) ps

-- `append_text` for each pair.
unfoldable pub append_all : (alloc_len : ℕ) → List Pair → Segment → Segment
append_all alloc_len [] text = text
append_all alloc_len (p ∷ ps) text = append_all alloc_len ps (append_text p.0 p.1 alloc_len text)

scan_key-append :
    (key : Name) (rest : List ℕ)
    → All IsKeyChar key
    → scan_key (key ++ b'=' ∷ rest) ≡ some (key, rest)
unfolding scan_key
scan_key-append [] rest h = refl
scan_key-append (c ∷ cs) rest h = rw (scan_key-append cs rest h.1) (ground (arith, h.0.0, h.0.1))

scan_val-append :
    (val : Name) (rest : List ℕ) → All (λ c. c ≢ 0) val → scan_val (val ++ 0 ∷ rest) ≡ (val, rest)
unfolding scan_val
scan_val-append [] rest h = refl
scan_val-append (c ∷ cs) rest h = rw (scan_val-append cs rest h.1) (ground (arith, h.0))

skip_nul-text_of : (ps : List Pair) → All IsPair ps → skip_nul (text_of ps) ≡ text_of ps
unfolding skip_nul text_of IsPair
skip_nul-text_of [] h = refl
skip_nul-text_of (([], v) ∷ ps) h = refl
skip_nul-text_of ((c ∷ k, v) ∷ ps) h = ground (arith, h.0.0.0.0)

parse_loop-pair :
    (p : Pair) (ps : List Pair) (rounds : ℕ) (params : List Param)
    → IsPair p
    → All IsPair ps
    → parse_loop (suc rounds) params (text_of (p ∷ ps))
      ≡ parse_loop rounds (param_add params p.0 p.1 none ispt_notspecified) (text_of ps)
unfolding parse_loop IsPair text_of
parse_loop-pair ([], v) ps rounds params h k =
    rw (scan_val-append v (text_of ps) h.1, skip_nul-text_of ps k) (ground (arith, h.2, h.3))
parse_loop-pair (c ∷ cs, v) ps rounds params h k =
    rw
      (
        scan_key-append (c ∷ cs) (v ++ 0 ∷ text_of ps) h.0,
        scan_val-append v (text_of ps) h.1,
        skip_nul-text_of ps k,
      )
      (ground (arith, h.0.0.0, h.0.0.1, h.2, h.3))

parse_loop-text_of :
    (ps : List Pair) (rounds : ℕ) (params : List Param)
    → All IsPair ps
    → length ps ≤ rounds
    → parse_loop rounds params (text_of ps) ≡ (true, add_all params ps)
unfolding text_of add_all parse_loop
parse_loop-text_of [] rounds params h n = refl
parse_loop-text_of (p ∷ ps) zero params h n = absurd (omega arith)
parse_loop-text_of (p ∷ ps) (suc rounds) params h n =
    parse_loop-pair p ps rounds params h.0 h.1
    ∙ parse_loop-text_of ps rounds (param_add params p.0 p.1 none ispt_notspecified) h.1
        (omega arith)

length-text_of :
    (p : Pair) (ps : List Pair)
    → length (text_of (p ∷ ps)) ≡ length (p.0 ++ b'=' ∷ p.1) + 1 + length (text_of ps)
unfolding text_of
length-text_of p ps = omega (
  arith,
  length-append p.0 (b'=' ∷ (p.1 ++ 0 ∷ text_of ps)),
  length-append p.1 (0 ∷ text_of ps),
  length-append p.0 (b'=' ∷ p.1),
)

-- A segment in which nothing has been cut off.
abbrev IsWhole : Segment → Type 0
IsWhole text = length text.bytes ≡ text.total

append_text-fits :
    (p : Pair) (alloc_len : ℕ) (text : Segment)
    → text.total + length (p.0 ++ b'=' ∷ p.1) + 1 ≤ alloc_len
    → append_text p.0 p.1 alloc_len text ≡ record {
      bytes = text.bytes ++ ((p.0 ++ b'=' ∷ p.1) ++ 0 ∷ []);
      total = text.total + length (p.0 ++ b'=' ∷ p.1) + 1;
    }
unfolding append_text put_text
append_text-fits p alloc_len text h =
    rw (take-all (alloc_len - text.total - 1) (p.0 ++ b'=' ∷ p.1) (omega arith)) (ground (arith, h))

append_all_lem :
    (ps : List Pair) (alloc_len : ℕ) (text : Segment)
    → IsWhole text
    → text.total + length (text_of ps) ≤ alloc_len
    → (append_all alloc_len ps text).bytes ≡ text.bytes ++ text_of ps
unfolding append_all text_of
append_all_lem [] alloc_len text w h = sym (append-nil text.bytes)
append_all_lem (p ∷ ps) alloc_len text w h =
    let pair = p.0 ++ b'=' ∷ p.1 in
    let next : Segment = record {
      bytes = text.bytes ++ (pair ++ 0 ∷ []);
      total = text.total + length pair + 1;
    } in
    let n = length-text_of p ps in
    let whole : IsWhole next =
      omega (arith, length-append text.bytes (pair ++ 0 ∷ []), length-append pair (0 ∷ [])) in
    let room : text.total + length pair + 1 ≤ alloc_len = omega (arith, n, h) in
    rw (append_all, append_text-fits p alloc_len text room)
      (append_all_lem ps alloc_len next whole (omega (arith, n, h))
        ∙ append_assoc text.bytes (pair ++ 0 ∷ []) (text_of ps)
        ∙ ap (λ t. text.bytes ++ t)
            (append_assoc pair (0 ∷ []) (text_of ps)
              ∙ append_assoc p.0 (b'=' ∷ p.1) (0 ∷ text_of ps)))

length-pairs : (ps : List Pair) → length ps ≤ length (text_of ps)
unfolding text_of
length-pairs [] = omega arith
length-pairs (p ∷ ps) = omega (arith, length-text_of p ps, length-pairs ps)

-- A buffer in which nothing has been written.
abbrev pub empty_segment : Segment
empty_segment = record { bytes = []; total = 0 }

-- Where the text of the pairs fits in the buffer, their keys are of at most 64 characters without
-- '=' and NUL, and their values of at most 8192 characters without NUL, what append_text writes
-- for one pair behind the other is parsed without an error, and adds the pairs to the list of
-- parameters one by one.
pub parse_params-append_text :
    (ps : List Pair) (alloc_len : ℕ) (params : List Param)
    → All IsPair ps
    → length (text_of ps) ≤ alloc_len
    → parse_params params (append_all alloc_len ps empty_segment).bytes ≡ (true, add_all params ps)
unfolding parse_params
parse_params-append_text ps alloc_len params h room =
    rw (append_all_lem ps alloc_len empty_segment refl (omega (arith, room)))
      (parse_loop-text_of ps (length (text_of ps)) params h (length-pairs ps))
