-- ===== src/Queue/Remove.antt =====
-- Taking the first element out, on the heap and on the list (src/istgt/istgt_queue.c:
-- istgt_queue_dequeue).
use istgt.Prelude.{
  ℕ, ◌-◌, ◌≡◌, ◌≢◌, ◌⊎◌, List, [], ◌∷◌, none, some, refl, arith, map, subst, length, true, false,
  ◌==◌, ◌||◌,
}
use istgt.Queue.{Node, Heap, ◌>>=◌, ◌>>◌, with_node, load, free_node, queue_dequeue}
use istgt.Queue.Chain.{Cell, first_of, last_of, link, Seg, Fresh, Distinct, Seg-same}
use istgt.Queue.Splice.{over, over-IsAllocated, IsAllocated, modify_lem}
use istgt.Queue.State.{IsHead, circular, unlinked, IsQueue}
use istgt.Queue.Refine.{Leaves}

-- The first element of a list, or NULL, and the others.
abbrev pub head_or : List ℕ → ℕ
head_or [] = 0
head_or (x ∷ xs) = x

abbrev pub tail_of : List ℕ → List ℕ
tail_of [] = []
tail_of (x ∷ xs) = xs

-- The heap after the node at `p` was taken out, with `next` behind it.
abbrev removed : Heap → (head p next : ℕ) → Heap
removed h head p next =
    let h1 = with_node h p none in
    let h2 = over h1 head λ n. record n { next = next } in
    let h3 = over h2 next λ n. record n { prev = head } in
    over h3 head λ n. record n { num = n.num - 1 }

module _ (h : Heap) (head : ℕ) (n : Node) (e : h head ≡ some n) (nonzero : head ≢ 0) where
  live : (head == 0) ≡ false
  live = ground (arith, nonzero)

  load-head : load head h ≡ some (n, h)
  unfolding load
  load-head = ground (arith, e)

  dequeue-empty : (n.next ≡ 0) ⊎ (n.next ≡ head) → queue_dequeue head h ≡ some (0, h)
  unfolding queue_dequeue
  dequeue-empty b =
      let empty : (n.next == 0 || n.next == head) ≡ true = ground arith in
      rw (queue_dequeue, live, ◌>>=◌, load-head, empty) refl

  module _ (first : Node) (at : h n.next ≡ some first) (some_next : n.next ≢ 0)
      (other : n.next ≢ head) where
    load-first : load n.next h ≡ some (first, h)
    unfolding load
    load-first = ground (arith, at)

    free_node-first : free_node n.next h ≡ some (tt, with_node h n.next none)
    unfolding free_node
    free_node-first = ground (arith, at)

    dequeue-removed :
        IsAllocated (with_node h n.next none) first.next
        → queue_dequeue head h ≡ some (first.elem_of, removed h head n.next first.next)
    unfolding queue_dequeue
    dequeue-removed next =
        let empty : (n.next == 0 || n.next == head) ≡ false = ground arith in
        let linked : (first.next == 0) ≡ false = ground (arith, next.0) in
        let h1 = with_node h n.next none in
        let h2 = over h1 head λ n. record n { next = first.next } in
        let h3 = over h2 first.next λ n. record n { prev = head } in
        let a1 : IsAllocated h1 head = (nonzero, n, ground (arith, e, other)) in
        let a2 = over-IsAllocated h1 head head (λ n. record n { next = first.next }) a1 in
        let a3 = over-IsAllocated h2 first.next head (λ n. record n { prev = head }) a2 in
        rw
          (
            queue_dequeue,
            live,
            ◌>>=◌,
            load-head,
            empty,
            load-first,
            ◌>>◌,
            free_node-first,
            linked,
            modify_lem h1 head (λ n. record n { next = first.next }) a1,
            modify_lem h2 first.next (λ n. record n { prev = head })
                (over-IsAllocated h1 head first.next (λ n. record n { next = first.next }) next),
            modify_lem h3 head (λ n. record n { num = n.num - 1 }) a3,
          )
          refl

  -- What is left when the only node is taken out: a list of none through the head.
  last-IsQueue :
      (c : Cell)
      → n.num ≡ 1
      → n.next ≡ c.addr
      → head ≢ c.addr
      → IsQueue (removed h head n.next head) head []
  last-IsQueue c counted next f = record {
    cells = [];
    values = refl;
    node = record { prev = head; next = head; elem_of = n.elem_of; num = n.num - 1 };
    at_head = ground (arith, e, next, f);
    nonzero = nonzero;
    counted = omega arith;
    links = circular refl refl;
    fresh = tt;
    distinct = tt;
    seg = tt;
  }

  more-IsQueue :
      (c d : Cell) (ds : List Cell)
      → n.num ≡ length (c ∷ d ∷ ds)
      → n.next ≡ c.addr
      → n.prev ≡ last_of d.addr ds
      → Fresh head (c ∷ d ∷ ds)
      → Distinct (c ∷ d ∷ ds)
      → Seg h head (c ∷ d ∷ ds) head
      → IsQueue (removed h head n.next d.addr) head (map (λ c. c.value) (d ∷ ds))
  more-IsQueue c d ds counted next prev f k s = record {
    cells = d ∷ ds;
    values = refl;
    node = record { prev = n.prev; next = d.addr; elem_of = n.elem_of; num = n.num - 1 };
    at_head = ground (arith, e, next, f.0, f.1.0);
    nonzero = nonzero;
    counted = omega arith;
    links = circular refl prev;
    fresh = f.1;
    distinct = k.2;
    seg = (
      ground (arith, next, f.1.0, k.1.0, s.1.0),
      Seg-same h (removed h head n.next d.addr) d.addr head head c.addr d.addr ds s.1.1 f.1.1 k.1.1
          k.2.1 (λ p a b d. ground (arith, next, a, b, d)),
    );
  }

  -- The answer is the first element, or NULL.
  dequeue-cells :
      (cs : List Cell)
      → n.num ≡ length cs
      → IsHead head n cs
      → Fresh head cs
      → Distinct cs
      → Seg h head cs head
      → let xs = map (λ c. c.value) cs in
        Leaves (queue_dequeue head) h head (head_or xs) (tail_of xs)
  dequeue-cells [] counted links f d s = (
    h,
    dequeue-empty (ground (arith, links)),
    record {
      cells = [];
      values = refl;
      node = n;
      at_head = e;
      nonzero = nonzero;
      counted = counted;
      links = links;
      fresh = f;
      distinct = d;
      seg = s;
    },
  )
  dequeue-cells (c ∷ cs) counted (unlinked next prev empty) f d s = absurd (ground (arith, empty))
  dequeue-cells (c ∷ []) counted (circular next prev) f d s =
      let at : h n.next ≡ link head head c.value = rw next s.0 in
      (
        removed h head n.next head,
        dequeue-removed (record { prev = head; next = head; elem_of = c.value; num = 0 }) at
            (ground (arith, next, d.0)) (ground (arith, next, f.0))
            (nonzero, n, ground (arith, e, next, f.0)),
        last-IsQueue c counted next f.0,
      )
  dequeue-cells (c ∷ (x ∷ xs)) counted (circular next prev) f d s =
      let at : h n.next ≡ link head x.addr c.value = rw next s.0 in
      (
        removed h head n.next x.addr,
        dequeue-removed (record { prev = head; next = x.addr; elem_of = c.value; num = 0 }) at
            (ground (arith, next, d.0)) (ground (arith, next, f.0))
            (
              d.2.0,
              record { prev = c.addr; next = first_of xs head; elem_of = x.value; num = 0 },
              ground (arith, next, d.1.0, s.1.0),
            ),
        more-IsQueue c x xs counted next prev f d s,
      )

-- The code.
pub dequeue-Leaves :
    (h : Heap) (head : ℕ) (xs : List ℕ)
    → IsQueue h head xs
    → Leaves (queue_dequeue head) h head (head_or xs) (tail_of xs)
dequeue-Leaves h head xs q =
    subst (λ ys. Leaves (queue_dequeue head) h head (head_or ys) (tail_of ys)) q.values
      (dequeue-cells h head q.node q.at_head q.nonzero q.cells q.counted q.links q.fresh q.distinct
        q.seg)
