-- ===== src/Queue/Splice.antt =====
-- The step that istgt_queue_enqueue and istgt_queue_enqueue_first share: a node is put between two
-- others (src/istgt/istgt_queue.c).
use mathlib.Core.Path.{fun_ext}
use mathlib.Core.Option
use istgt.Prelude.{ℕ, suc, ◌≡◌, ◌≢◌, ◌∙◌, some, if◌then◌else◌, ◌==◌, refl, arith}
use istgt.Disk.Types.{Rc, ret}
use istgt.Queue.{Node, Heap, Code, pure, ◌>>=◌, ◌>>◌, with_node, modify, set_prev, set_next}

-- One node changed.
abbrev pub over : Heap → ℕ → (Node → Node) → Heap
over h p f q = if p == q then Option.map f (h q) else h q

abbrev pub IsAllocated : Heap → ℕ → Type 0
IsAllocated h p = (p ≢ 0) × (n : Node) × (h p ≡ some n)

pub over-IsAllocated :
    (h : Heap) (p q : ℕ) (f : Node → Node) → IsAllocated h q → IsAllocated (over h p f) q
over-IsAllocated h p q f (nonzero, n, e) = (nonzero, (if p == q then f n else n), ground (arith, e))

pub modify_lem :
    (h : Heap) (p : ℕ) (f : Node → Node) → IsAllocated h p → modify p f h ≡ some (tt, over h p f)
unfolding modify
modify_lem h p f (nonzero, n, e) =
    let same : with_node h p (some (f n)) ≡ over h p f = fun_ext λ q. ground (arith, e) in
    ground (arith, e, same)

-- A change, and what comes after it.
pub >>-modify :
    {B : Type 0} (h : Heap) (p : ℕ) (f : Node → Node) (k : Code B)
    → IsAllocated h p
    → (modify p f >> k) h ≡ k (over h p f)
>>-modify h p f k a = rw (◌>>◌, ◌>>=◌, modify_lem h p f a) refl

-- `q` between `a` and `b`
abbrev pub links : (a b q : ℕ) → Code (Unit {0})
links a b q = do set_next a q; set_prev b q; set_next q b; set_prev q a

-- and one element more at `head`.
abbrev pub splice : (a b q head : ℕ) → Code Rc
splice a b q head = do links a b q; modify head λ n. record n { num = suc n.num }; pure (ret 0)

abbrev pub linked : Heap → (a b q : ℕ) → Heap
linked h a b q =
    let h1 = over h a λ n. record n { next = q } in
    let h2 = over h1 b λ n. record n { prev = q } in
    let h3 = over h2 q λ n. record n { next = b } in over h3 q λ n. record n { prev = a }

abbrev pub spliced : Heap → (a b q head : ℕ) → Heap
spliced h a b q head = over (linked h a b q) head λ n. record n { num = suc n.num }

module _ (h : Heap) (a b q head : ℕ) (ha : IsAllocated h a) (hb : IsAllocated h b)
    (hq : IsAllocated h q) where
  links_lem : links a b q h ≡ some (tt, linked h a b q)
  links_lem =
      let h1 = over h a λ n. record n { next = q } in
      let h2 = over h1 b λ n. record n { prev = q } in
      let h3 = over h2 q λ n. record n { next = b } in
      let q1 = over-IsAllocated h a q _ hq in
      let q2 = over-IsAllocated h1 b q _ q1 in
      >>-modify h a _ _ ha
      ∙ >>-modify h1 b _ _ (over-IsAllocated h a b _ hb)
      ∙ >>-modify h2 q _ _ q2
      ∙ modify_lem h3 q _ (over-IsAllocated h2 q q _ q2)

  linked-IsAllocated : (p : ℕ) → IsAllocated h p → IsAllocated (linked h a b q) p
  linked-IsAllocated p hp =
      let h1 = over h a λ n. record n { next = q } in
      let h2 = over h1 b λ n. record n { prev = q } in
      let h3 = over h2 q λ n. record n { next = b } in
      let p2 = over-IsAllocated h1 b p (λ n. record n { prev = q }) (over-IsAllocated h a p _ hp) in
      over-IsAllocated h3 q p (λ n. record n { prev = a }) (over-IsAllocated h2 q p _ p2)

  pub splice_lem : IsAllocated h head → splice a b q head h ≡ some (ret 0, spliced h a b q head)
  splice_lem hh = rw (◌>>◌, ◌>>=◌, links_lem, modify_lem _ head _ (linked-IsAllocated head hh)) refl
