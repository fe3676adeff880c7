-- ===== src/Iscsi/DataIn/Pieces.antt =====
-- Lists of segments: a part of the data, and what a reader of the PDUs sees of their order (src/istgt/istgt_iscsi.c: istgt_iscsi_transfer_in_internal).
use istgt.Prelude.{
  ℕ, zero, suc, ◌+◌, ◌-◌, ◌%◌, ◌^◌, ◌≤◌, ◌<◌, min, List, [], ◌∷◌, ◌++◌, take, drop, length, true,
  false, ltb, ◌≡◌, refl, sym, ap, ◌∙◌, subst, arith, inl, inr, Bool-cases,
}
use mathlib.Core.List.{append-nil}
use istgt.Misc.Strings.{int_ltb}
use istgt.Iscsi.DataIn.{DataIn, min_int}

take-nil : (n : ℕ) → take {A = ℕ} n [] ≡ []
take-nil zero = refl
take-nil (suc n) = refl

drop-nil : (n : ℕ) → drop {A = ℕ} n [] ≡ []
drop-nil zero = refl
drop-nil (suc n) = refl

take_add : (a b : ℕ) (xs : List ℕ) → take (a + b) xs ≡ take a xs ++ take b (drop a xs)
take_add zero b xs = ap (λ n. take n xs) (omega arith)
take_add (suc a) b [] = take-nil (suc a + b) ∙ sym (take-nil b)
take_add (suc a) b (x ∷ xs) =
    let s : suc a + b ≡ suc (a + b) = omega arith in
    ap (λ n. take n (x ∷ xs)) s ∙ ap (λ t. x ∷ t) (take_add a b xs)

drop_add : (a b : ℕ) (xs : List ℕ) → drop b (drop a xs) ≡ drop (a + b) xs
drop_add zero b xs = ap (λ n. drop n xs) (omega arith)
drop_add (suc a) b [] = drop-nil b ∙ sym (drop-nil (suc a + b))
drop_add (suc a) b (x ∷ xs) =
    let s : suc (a + b) ≡ suc a + b = omega arith in drop_add a b xs ∙ ap (λ n. drop n (x ∷ xs)) s

-- A piece of at most `seg` bytes, and what stands behind it.
pub piece :
    (total offset seg : ℕ) (xs : List ℕ)
    → take (min seg (total - offset)) (drop offset xs)
        ++ take (total - (offset + seg)) (drop (offset + seg) xs)
      ≡ take (total - offset) (drop offset xs)
piece total offset seg xs = elim (Bool-cases (ltb (total - offset) seg)) [
  | inl last ↦
      let whole : min seg (total - offset) ≡ total - offset = ground (arith, last) in
      let rest : total - (offset + seg) ≡ 0 = ground (arith, last) in
      rw (whole, rest) (append-nil (take (total - offset) (drop offset xs)))
  | inr more ↦
      let full : min seg (total - offset) ≡ seg = ground (arith, more) in
      let sum : total - offset ≡ seg + (total - (offset + seg)) = ground (arith, more) in
      ap (λ n. take n (drop offset xs) ++ take (total - (offset + seg)) (drop (offset + seg) xs))
        full
      ∙ ap (λ l. take seg (drop offset xs) ++ take (total - (offset + seg)) l)
          (sym (drop_add offset seg xs))
      ∙ sym (take_add seg (total - (offset + seg)) (drop offset xs))
      ∙ ap (λ n. take n (drop offset xs)) (sym sum)
]

-- `int`s that are not negative.
pub int_ltb_lem : (a b : ℕ) → a < 2 ^ 31 → b < 2 ^ 31 → int_ltb a b ≡ ltb a b
unfolding int_ltb
int_ltb_lem a b h k = ground (arith, h, k)

pub min_int_lem : (a b : ℕ) → a < 2 ^ 31 → b < 2 ^ 31 → min_int a b ≡ min a b
unfolding min_int
min_int_lem a b h k = rw (int_ltb_lem b a k h) (ground arith)

-- The data of the PDUs, one behind the other.
unfoldable pub concat_segments : List DataIn → List ℕ
concat_segments [] = []
concat_segments (p ∷ ps) = p.segment ++ concat_segments ps

-- DataSN counts the PDUs, and each starts where the one before ends.
unfoldable pub AreConsecutive : (data_sn offset : ℕ) → List DataIn → Type 0
AreConsecutive data_sn offset [] = Unit
AreConsecutive data_sn offset (p ∷ ps) =
    (p.data_sn ≡ data_sn)
    × (p.buffer_offset ≡ offset)
    × AreConsecutive ((data_sn + 1) % 2 ^ 32) (offset + length p.segment) ps

-- The F bit is set in the last PDU alone.
unfoldable pub EndsFinal : List DataIn → Type 0
EndsFinal [] = Unit
EndsFinal (p ∷ []) = p.f_bit ≡ true
EndsFinal (p ∷ q ∷ ps) = (p.f_bit ≡ false) × EndsFinal (q ∷ ps)

-- A list that goes on at the next segment, if the transfer does, goes on behind this one.
pub AreConsecutive-next :
    (data_sn total offset seg len : ℕ) (ps : List DataIn)
    → len ≡ min seg (total - offset)
    → (total ≤ offset + seg → ps ≡ [])
    → AreConsecutive data_sn (offset + seg) ps
    → AreConsecutive data_sn (offset + len) ps
unfolding AreConsecutive
AreConsecutive-next data_sn total offset seg len ps e none h =
    elim (Bool-cases (ltb (total - offset) seg)) [
      | inl last ↦ rw (none (ground (arith, last))) tt
      | inr more ↦ let same : len ≡ seg = ground (arith, e, more) in rw same h
    ]

pub EndsFinal-one : (p : DataIn) (ps : List DataIn) → ps ≡ [] → p.f_bit ≡ true → EndsFinal (p ∷ ps)
unfolding EndsFinal
EndsFinal-one p ps e f = rw e f

pub EndsFinal-more :
    (p q : DataIn) (ps qs : List DataIn)
    → ps ≡ q ∷ qs
    → p.f_bit ≡ false
    → EndsFinal ps
    → EndsFinal (p ∷ ps)
unfolding EndsFinal
EndsFinal-more p q ps qs e f h = subst (λ l. EndsFinal (p ∷ l)) (sym e) (f, subst EndsFinal e h)
