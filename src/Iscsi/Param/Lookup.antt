-- ===== src/Iscsi/Param/Lookup.antt =====
-- What a lookup finds after a change of the list (src/istgt/istgt_iscsi_param.c).
use istgt.Prelude.{
  List, [], ◌∷◌, ◌++◌, Bool, true, false, ◌&&◌, ◌||◌, Option, none, some, Name, str_case_eq, str_eq,
  str_eq_refl, strlwr, find?, any, remove_if, ◌≡◌, refl, ◌∙◌, arith, inl, inr, Option-cases, ◌==◌,
  find?-append_none, find?-remove_if, any-remove_if, remove_if_none, Bool-cases, if◌then◌else◌,
}
use istgt.Iscsi.Param.{Param, ParamType, has_key, param_find, param_add, param_del, first}

-- Two keys that a lookup takes for the same.
unfoldable pub same_key : Name → Name → Bool
same_key a b = first a == first b && str_case_eq a b

-- No two entries of the list have the same key.
unfoldable pub KeysAreUnique : List Param → Type 0
KeysAreUnique [] = Unit
KeysAreUnique (p ∷ ps) = (any (has_key p.key) ps ≡ false) × KeysAreUnique ps

str_eq_sym : (s t : Name) → str_eq s t ≡ str_eq t s
unfolding str_eq
str_eq_sym [] [] = refl
str_eq_sym [] (d ∷ t) = refl
str_eq_sym (c ∷ s) [] = refl
str_eq_sym (c ∷ s) (d ∷ t) = ground (arith, str_eq_sym s t)

pub str_eq_trans : (s t u : Name) → str_eq s t ≡ true → str_eq t u ≡ str_eq s u
unfolding str_eq
str_eq_trans [] [] u h = refl
str_eq_trans [] (d ∷ t) u h = cc
str_eq_trans (c ∷ s) [] u h = cc
str_eq_trans (c ∷ s) (d ∷ t) [] h = refl
str_eq_trans (c ∷ s) (d ∷ t) (e ∷ u) h = ground (arith, str_eq_trans s t u)

same_key_self : (a : Name) → same_key a a ≡ true
unfolding same_key str_case_eq
same_key_self a = ground (arith, str_eq_refl (strlwr a))

same_key_sym : (a b : Name) → same_key a b ≡ same_key b a
unfolding same_key str_case_eq
same_key_sym a b = rw (str_eq_sym (strlwr a) (strlwr b)) (ground arith)

same_key_trans : (a b c : Name) → same_key a b ≡ true → same_key b c ≡ same_key a c
unfolding same_key str_case_eq
same_key_trans a b c h = ground (arith, str_eq_trans (strlwr a) (strlwr b) (strlwr c))

-- The test of an entry, by its key.
has_key_lem : (key : Name) (p : Param) → has_key key p ≡ same_key p.key key
unfolding has_key same_key
has_key_lem key p = refl

-- Tests for the same key agree on every entry.
any-has_key :
    (a b : Name) (ps : List Param) → same_key a b ≡ true → any (has_key a) ps ≡ any (has_key b) ps
any-has_key a b [] h = refl
any-has_key a b (p ∷ ps) h =
    rw (has_key_lem a p, has_key_lem b p)
      (ground (
        arith,
        same_key_trans a b p.key h,
        same_key_sym a p.key,
        same_key_sym b p.key,
        any-has_key a b ps h,
      ))

param_del-remove_if :
    (ps : List Param) (key : Name)
    → KeysAreUnique ps
    → (param_del ps key).1 ≡ remove_if (has_key key) ps
unfolding param_del KeysAreUnique
param_del-remove_if [] key u = refl
param_del-remove_if (p ∷ ps) key u = ground (
  arith,
  has_key_lem key p,
  any-has_key p.key key ps,
  remove_if_none (has_key key) ps,
  param_del-remove_if ps key u.1,
  u.0,
)

any_of_find?-none : (p : Param → Bool) (ps : List Param) → find? p ps ≡ none → any p ps ≡ false
any_of_find?-none p [] h = refl
any_of_find?-none p (x ∷ xs) h = ground (arith, any_of_find?-none p xs)

-- A parameter is added behind those of another key.
param_add_lem :
    (ps : List Param) (key val : Name) (list : Option Name) (type : ParamType)
    → KeysAreUnique ps
    → param_add ps key val list type
      ≡ remove_if (has_key key) ps
        ++ (record { key = key; val = val; list = list; type = type }) ∷ []
unfolding param_add param_find
param_add_lem ps key val list type u = elim (Option-cases (find? (has_key key) ps)) [
  | inl e ↦ rw (e, remove_if_none (has_key key) ps (any_of_find?-none (has_key key) ps e)) refl
  | inr (p, e) ↦ rw (e, param_del-remove_if ps key u) refl
]

find?-append :
    (p : Param → Bool) (ps : List Param) (q : Param)
    → p q ≡ false
    → find? p (ps ++ q ∷ []) ≡ find? p ps
find?-append p [] q h = ground arith
find?-append p (x ∷ xs) q h = ground (arith, find?-append p xs q h)

-- Removing what a test does not name leaves what it finds.
find?-remove_if_other :
    (p q : Param → Bool) (ps : List Param)
    → ((x : Param) → p x ≡ true → q x ≡ false)
    → find? q (remove_if p ps) ≡ find? q ps
find?-remove_if_other p q [] h = refl
find?-remove_if_other p q (x ∷ xs) h = ground (arith, h x, find?-remove_if_other p q xs h)

any-append :
    (p : Param → Bool) (ps : List Param) (q : Param) → any p (ps ++ q ∷ []) ≡ any p ps || p q
any-append p [] q = ground arith
any-append p (x ∷ xs) q = ground (arith, any-append p xs q)

any-remove_if_of :
    (p q : Param → Bool) (ps : List Param) → any q ps ≡ false → any q (remove_if p ps) ≡ false
any-remove_if_of p q [] h = refl
any-remove_if_of p q (x ∷ xs) h = ground (arith, any-remove_if_of p q xs)

-- One more entry, of a key that no other has.
KeysAreUnique-append :
    (ps : List Param) (q : Param)
    → KeysAreUnique ps
    → any (has_key q.key) ps ≡ false
    → KeysAreUnique (ps ++ q ∷ [])
unfolding KeysAreUnique
KeysAreUnique-append [] q u h = (refl, tt)
KeysAreUnique-append (p ∷ ps) q u h = (
  ground (
    arith,
    any-append (has_key p.key) ps q,
    has_key_lem p.key q,
    has_key_lem q.key p,
    same_key_sym q.key p.key,
    u.0,
  ),
  KeysAreUnique-append ps q u.1 (ground arith),
)

KeysAreUnique-remove_if :
    (r : Param → Bool) (ps : List Param) → KeysAreUnique ps → KeysAreUnique (remove_if r ps)
unfolding KeysAreUnique
KeysAreUnique-remove_if r [] u = tt
KeysAreUnique-remove_if r (p ∷ ps) u = elim (Bool-cases (r p)) [
  | inl e ↦ rw e (KeysAreUnique-remove_if r ps u.1)
  | inr e ↦ rw e (any-remove_if_of r (has_key p.key) ps u.0, KeysAreUnique-remove_if r ps u.1)
]

param_add-KeysAreUnique :
    (ps : List Param) (key val : Name) (list : Option Name) (type : ParamType)
    → KeysAreUnique ps
    → KeysAreUnique (param_add ps key val list type)
param_add-KeysAreUnique ps key val list type u = rw (param_add_lem ps key val list type u) (
    KeysAreUnique-append (remove_if (has_key key) ps)
      (record { key = key; val = val; list = list; type = type })
      (KeysAreUnique-remove_if (has_key key) ps u) (any-remove_if (has_key key) ps))

-- In a list without duplicate keys, adding a parameter makes its key stand for it alone: a lookup
-- of that key, with its first character the same and the others up to case, finds the new
-- parameter, each other lookup finds what it found before, and no key stands twice.
pub param_find-param_add :
    (ps : List Param) (key val : Name) (list : Option Name) (type : ParamType) (other : Name)
    → KeysAreUnique ps
    → KeysAreUnique (param_add ps key val list type)
      × (param_find (param_add ps key val list type) other ≡ (
          if same_key key other
          then some (record { key = key; val = val; list = list; type = type })
          else param_find ps other))
unfolding param_find
param_find-param_add ps key val list type other u =
    let new : Param = record { key = key; val = val; list = list; type = type } in
    let kept = remove_if (has_key key) ps in
    (
      param_add-KeysAreUnique ps key val list type u,
      rw (param_add_lem ps key val list type u) (elim (Bool-cases (same_key key other)) [
        | inl same ↦ rw same (
            find?-append_none (has_key other) kept (new ∷ []) (
              find?-remove_if (has_key key) (has_key other) ps (λ x h. ground (
                arith,
                has_key_lem key x,
                has_key_lem other x,
                same_key_trans key other x.key same,
                same_key_sym other x.key,
                same_key_sym key x.key,
              )))
            ∙ rw (has_key_lem other new, same) refl)
        | inr differs ↦ rw differs (
            find?-append (has_key other) kept new (has_key_lem other new ∙ differs)
            ∙ find?-remove_if_other (has_key key) (has_key other) ps (λ x h. ground (
              arith,
              has_key_lem key x,
              has_key_lem other x,
              same_key_trans key x.key other,
              same_key_sym key x.key,
            )))
      ]),
    )
