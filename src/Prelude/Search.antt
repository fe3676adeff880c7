-- ===== src/Prelude/Search.antt =====
-- Predicates on lists: `All` as a type, and the Boolean searches that the C loops make.
use Prim.Native.Nat.{ℕ, zero, suc, ◌≤◌, ◌<◌}
use mathlib.Core.Path.{◌≡◌, refl}
use mathlib.Core.Bool.{Bool, true, false, ◌||◌}
use mathlib.Core.List.{List, [], ◌∷◌, ◌++◌}
use mathlib.Core.Option.{Option, none, some}
use native.Mathlib.Omega.{arith}
use istgt.Prelude.Tests.{if◌then◌else◌}
use istgt.Prelude.Lists.{length, replicate}

abbrev pub All {ℓ κ} : {A : Type ℓ} → (A → Type κ) → List A → Type κ
All P [] = Unit
All P (x ∷ xs) = P x × All P xs

module _ {ℓ} {A : Type ℓ} where
  abbrev pub any : (A → Bool) → List A → Bool
  any p [] = false
  any p (x ∷ xs) = p x || any p xs

  -- The first element that passes the test.
  abbrev pub find? : (A → Bool) → List A → Option A
  find? p [] = none
  find? p (x ∷ xs) = if p x then some x else find? p xs

  -- The elements that the test does not name, in their order.
  abbrev pub remove_if : (A → Bool) → List A → List A
  remove_if p [] = []
  remove_if p (x ∷ xs) = if p x then remove_if p xs else x ∷ remove_if p xs

module _ {ℓ κ} {A : Type ℓ} (P : A → Type κ) where
  pub All-append : (xs ys : List A) → All P xs → All P ys → All P (xs ++ ys)
  All-append [] ys h k = k
  All-append (x ∷ xs) ys h k = (h.0, All-append xs ys h.1 k)

  All-unless : (b : Bool) (x : A) (xs : List A) → P x → All P xs → All P (if b then xs else x ∷ xs)
  All-unless true x xs p h = h
  All-unless false x xs p h = (p, h)

  pub All-remove_if : (p : A → Bool) (xs : List A) → All P xs → All P (remove_if p xs)
  All-remove_if p [] h = h
  All-remove_if p (x ∷ xs) h = All-unless (p x) x _ h.0 (All-remove_if p xs h.1)

  pub All-replicate : (n : ℕ) (a : A) → P a → All P (replicate n a)
  All-replicate zero a h = tt
  All-replicate (suc n) a h = (h, All-replicate n a h)

module _ {ℓ} {A : Type ℓ} where
  pub length-remove_if : (p : A → Bool) (xs : List A) → length (remove_if p xs) ≤ length xs
  length-remove_if p [] = omega arith
  length-remove_if p (x ∷ xs) = ground (arith, length-remove_if p xs)

  -- A list in which something passes the test is shorter without it.
  pub length-remove_if-any :
      (p : A → Bool) (xs : List A) → any p xs ≡ true → length (remove_if p xs) < length xs
  length-remove_if-any p [] h = ground arith
  length-remove_if-any p (x ∷ xs) h =
      ground (arith, length-remove_if p xs, length-remove_if-any p xs)

  pub any-remove_if : (p : A → Bool) (xs : List A) → any p (remove_if p xs) ≡ false
  any-remove_if p [] = refl
  any-remove_if p (x ∷ xs) = ground (arith, any-remove_if p xs)

  pub any_of_find? : (p : A → Bool) (xs : List A) (a : A) → find? p xs ≡ some a → any p xs ≡ true
  any_of_find? p [] a h = cc
  any_of_find? p (x ∷ xs) a h = ground (arith, any_of_find? p xs a)

  pub find?-none_of_any : (p : A → Bool) (xs : List A) → any p xs ≡ false → find? p xs ≡ none
  find?-none_of_any p [] h = refl
  find?-none_of_any p (x ∷ xs) h = ground (arith, find?-none_of_any p xs)

  -- What is found passes the test.
  pub find?_sound : (p : A → Bool) (xs : List A) (a : A) → find? p xs ≡ some a → p a ≡ true
  find?_sound p [] a h = cc
  find?_sound p (x ∷ xs) a h = ground (arith, find?_sound p xs a)

  pub find?-append_none :
      (p : A → Bool) (xs ys : List A) → find? p xs ≡ none → find? p (xs ++ ys) ≡ find? p ys
  find?-append_none p [] ys h = refl
  find?-append_none p (x ∷ xs) ys h = ground (arith, find?-append_none p xs ys)

  pub remove_if_none : (p : A → Bool) (xs : List A) → any p xs ≡ false → remove_if p xs ≡ xs
  remove_if_none p [] h = refl
  remove_if_none p (x ∷ xs) h = ground (arith, remove_if_none p xs)

  -- A test that follows from another finds nothing once that other has been removed.
  pub find?-remove_if :
      (p q : A → Bool) (xs : List A)
      → ((x : A) → q x ≡ true → p x ≡ true)
      → find? q (remove_if p xs) ≡ none
  find?-remove_if p q [] h = refl
  find?-remove_if p q (x ∷ xs) h = ground (arith, h x, find?-remove_if p q xs h)
