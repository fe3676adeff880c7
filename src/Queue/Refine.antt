-- ===== src/Queue/Refine.antt =====
-- Putting an element in, on the heap and on the list (src/istgt/istgt_queue.c).
use istgt.Prelude.{
  ℕ, ◌≡◌, ◌≢◌, inl, inr, ◌∙◌, sym, List, [], ◌∷◌, ◌++◌, none, some, arith, map, subst, length,
}
use istgt.Disk.Types.{Rc, ret}
use istgt.Queue.{Node, Heap, Code, cleared, queue_enqueue, queue_enqueue_first}
use istgt.Queue.Chain.{Cell, last_of, Seg, Fresh, Distinct}
use istgt.Queue.Splice.{IsAllocated, splice, spliced, splice_lem}
use istgt.Queue.State.{IsHead, circular, unlinked, IsQueue, fresh_heap}
use istgt.Queue.Insert.{only-IsQueue, append-IsQueue, prepend-IsQueue}
use istgt.Queue.Calls.{enqueue-unlinked, enqueue-linked, first-empty, first-linked}

-- A call that succeeds and leaves a queue with the elements `xs`.
abbrev pub Leaves : {A : Type 0} → Code A → Heap → (head : ℕ) → A → List ℕ → Type 0
Leaves m h head a xs = (h' : Heap) × (m h ≡ some (a, h')) × IsQueue h' head xs

-- The node in front of the head.
last_of-IsAllocated :
    (h : Heap) (b a : ℕ) (c : Cell) (cs : List Cell)
    → Seg h b (c ∷ cs) a
    → Distinct (c ∷ cs)
    → IsAllocated h (last_of c.addr cs)
last_of-IsAllocated h b a c [] s d = (d.0, _, s.0)
last_of-IsAllocated h b a c (y ∷ ys) s d = last_of-IsAllocated h c.addr a y ys s.1 d.2

module _ (malloc : Heap → ℕ) (h : Heap) (head elem : ℕ) (mallocated : malloc h ≢ 0)
    (unused : h (malloc h) ≡ none) (n : Node) (e : h head ≡ some n) (nonzero : head ≢ 0) where
  apart : malloc h ≢ head
  apart = ground (arith, e, unused)

  old-IsAllocated : (p : ℕ) → IsAllocated h p → IsAllocated (fresh_heap malloc h elem) p
  old-IsAllocated p (h0, m, at) = (h0, m, ground (arith, at, unused))

  head-IsAllocated : IsAllocated (fresh_heap malloc h elem) head
  head-IsAllocated = old-IsAllocated head (nonzero, n, e)

  new-IsAllocated : IsAllocated (fresh_heap malloc h elem) (malloc h)
  new-IsAllocated = (mallocated, record cleared { elem_of = elem }, ground arith)

  empty-Leaves :
      (m : Code Rc)
      → n.num ≡ 0
      → m h ≡ splice head head (malloc h) head (fresh_heap malloc h elem)
      → Leaves m h head (ret 0) (elem ∷ [])
  empty-Leaves m counted run = (
    spliced (fresh_heap malloc h elem) head head (malloc h) head,
    run
        ∙ splice_lem (fresh_heap malloc h elem) head head (malloc h) head head-IsAllocated
            head-IsAllocated new-IsAllocated head-IsAllocated,
    only-IsQueue malloc h head elem mallocated unused n e nonzero counted,
  )

  enqueue-cells :
      (cs : List Cell)
      → n.num ≡ length cs
      → IsHead head n cs
      → Fresh head cs
      → Distinct cs
      → Seg h head cs head
      → Leaves (queue_enqueue malloc head elem) h head (ret 0) (map (λ c. c.value) cs ++ elem ∷ [])
  enqueue-cells [] counted (circular next prev) f d s =
      let linked =
        enqueue-linked malloc h head elem n e nonzero apart (ground (arith, prev, nonzero)) in
      empty-Leaves (queue_enqueue malloc head elem) counted (
        subst
          (λ p.
            queue_enqueue malloc head elem h
            ≡ splice p head (malloc h) head (fresh_heap malloc h elem))
          prev linked)
  enqueue-cells [] counted (unlinked next prev empty) f d s =
      empty-Leaves (queue_enqueue malloc head elem) counted
        (enqueue-unlinked malloc h head elem n e nonzero apart prev)
  enqueue-cells (c ∷ cs) counted (unlinked next prev empty) f d s = absurd (ground (arith, empty))
  enqueue-cells (c ∷ cs) counted (circular next prev) f d s =
      let last : IsAllocated h n.prev =
        subst (IsAllocated h) (sym prev) (last_of-IsAllocated h head head c cs s d) in
      (
        spliced (fresh_heap malloc h elem) n.prev head (malloc h) head,
        enqueue-linked malloc h head elem n e nonzero apart last.0
            ∙ splice_lem (fresh_heap malloc h elem) n.prev head (malloc h) head
                (old-IsAllocated n.prev last) head-IsAllocated new-IsAllocated head-IsAllocated,
        append-IsQueue malloc h head elem mallocated unused n e nonzero c cs counted f d s prev
            next,
      )

  first-cells :
      (cs : List Cell)
      → n.num ≡ length cs
      → IsHead head n cs
      → Fresh head cs
      → Distinct cs
      → Seg h head cs head
      → Leaves (queue_enqueue_first malloc head elem) h head (ret 0) (elem ∷ map (λ c. c.value) cs)
  first-cells [] counted (circular next prev) f d s =
      empty-Leaves (queue_enqueue_first malloc head elem) counted
        (first-empty malloc h head elem n e nonzero apart (inr next))
  first-cells [] counted (unlinked next prev empty) f d s =
      empty-Leaves (queue_enqueue_first malloc head elem) counted
        (first-empty malloc h head elem n e nonzero apart (inl next))
  first-cells (c ∷ cs) counted (unlinked next prev empty) f d s = absurd (ground (arith, empty))
  first-cells (c ∷ cs) counted (circular next prev) f d s =
      let first : IsAllocated h n.next = subst (IsAllocated h) (sym next) (d.0, _, s.0) in
      (
        spliced (fresh_heap malloc h elem) head n.next (malloc h) head,
        first-linked malloc h head elem n e nonzero apart first.0 (ground (arith, next, f.0))
            ∙ splice_lem (fresh_heap malloc h elem) head n.next (malloc h) head head-IsAllocated
                (old-IsAllocated n.next first) new-IsAllocated head-IsAllocated,
        prepend-IsQueue malloc h head elem mallocated unused n e nonzero c cs counted f d s prev
            next,
      )

module _ (malloc : Heap → ℕ) (h : Heap) (head elem : ℕ) (xs : List ℕ) (mallocated : malloc h ≢ 0)
    (unused : h (malloc h) ≡ none) (q : IsQueue h head xs) where
  pub enqueue-Leaves : Leaves (queue_enqueue malloc head elem) h head (ret 0) (xs ++ elem ∷ [])
  enqueue-Leaves =
      subst (λ ys. Leaves (queue_enqueue malloc head elem) h head (ret 0) (ys ++ elem ∷ []))
        q.values
        (enqueue-cells malloc h head elem mallocated unused q.node q.at_head q.nonzero q.cells
          q.counted q.links q.fresh q.distinct q.seg)

  pub enqueue_first-Leaves :
      Leaves (queue_enqueue_first malloc head elem) h head (ret 0) (elem ∷ xs)
  enqueue_first-Leaves =
      subst (λ ys. Leaves (queue_enqueue_first malloc head elem) h head (ret 0) (elem ∷ ys))
        q.values
        (first-cells malloc h head elem mallocated unused q.node q.at_head q.nonzero q.cells
          q.counted q.links q.fresh q.distinct q.seg)
