-- ===== src/Queue/Insert.antt =====
-- The nodes after an element was put in (src/istgt/istgt_queue.c: istgt_queue_enqueue,
-- istgt_queue_enqueue_first).
use istgt.Prelude.{
  ℕ, suc, ◌≡◌, ◌≢◌, sym, ap, List, [], ◌∷◌, ◌++◌, none, some, refl, arith, map, subst, length,
  length-append,
}
use istgt.Queue.{Node, Heap}
use istgt.Queue.Chain.{
  Cell, first_of, last_of, Seg, Fresh, Distinct, Seg-append, Fresh-append, Distinct-append,
  last_of-Fresh, last_of-append, Seg-same,
}
use istgt.Queue.Splice.{spliced}
use istgt.Queue.State.{circular, IsQueue, fresh_heap}

values-append :
    (cs : List Cell) (c : Cell)
    → map (λ c. c.value) (cs ++ c ∷ []) ≡ map (λ c. c.value) cs ++ c.value ∷ []
values-append [] c = refl
values-append (x ∷ xs) c = ap (λ vs. x.value ∷ vs) (values-append xs c)

-- Where nothing is allocated, no cell stands.
pub none-Fresh : (h : Heap) (b a p : ℕ) (cs : List Cell) → h p ≡ none → Seg h b cs a → Fresh p cs
none-Fresh h b a p [] e s = tt
none-Fresh h b a p (c ∷ cs) e s = (ground (arith, s.0), none-Fresh h c.addr a p cs e s.1)

module _ (malloc : Heap → ℕ) (h : Heap) (head elem : ℕ) where
  -- What xmalloc answers: an address that is not NULL and where nothing is allocated.
  module _ (mallocated : malloc h ≢ 0) (unused : h (malloc h) ≡ none) where
    -- Into a queue without elements.
    pub only-IsQueue :
        (n : Node)
        → h head ≡ some n
        → head ≢ 0
        → n.num ≡ 0
        → IsQueue (spliced (fresh_heap malloc h elem) head head (malloc h) head) head (elem ∷ [])
    only-IsQueue n e nonzero counted = record {
      cells = record { addr = malloc h; value = elem } ∷ [];
      values = refl;
      node = record { prev = malloc h; next = malloc h; elem_of = n.elem_of; num = suc n.num };
      at_head = ground (arith, e, unused);
      nonzero = nonzero;
      counted = omega arith;
      links = circular refl refl;
      fresh = (ground (arith, e, unused), tt);
      distinct = (mallocated, tt, tt);
      seg = (ground (arith, e, unused), tt);
    }

    module _ (n : Node) (e : h head ≡ some n) (nonzero : head ≢ 0) (c0 : Cell) (cs : List Cell)
        (counted : n.num ≡ length (c0 ∷ cs)) (fresh : Fresh head (c0 ∷ cs))
        (distinct : Distinct (c0 ∷ cs)) (seg : Seg h head (c0 ∷ cs) head) where
      -- The address is that of no node and not that of the head.
      new-Fresh : Fresh (malloc h) (c0 ∷ cs)
      new-Fresh = none-Fresh h head head (malloc h) (c0 ∷ cs) unused seg

      new-head : head ≢ malloc h
      new-head = ground (arith, e, unused)

      pub append-IsQueue :
          n.prev ≡ last_of head (c0 ∷ cs)
          → n.next ≡ first_of (c0 ∷ cs) head
          → IsQueue
              (spliced (fresh_heap malloc h elem) n.prev head (malloc h) head)
              head
              (map (λ c. c.value) (c0 ∷ cs) ++ elem ∷ [])
      append-IsQueue prev next =
          let c : Cell = record { addr = malloc h; value = elem } in
          let apart : n.prev ≢ head =
            subst (λ p. p ≢ head) (sym prev) (last_of-Fresh head c0.addr cs fresh.0 fresh.1) in
          let unlike : n.prev ≢ malloc h =
            subst (λ p. p ≢ malloc h) (sym prev)
              (last_of-Fresh (malloc h) c0.addr cs new-Fresh.0 new-Fresh.1) in
          record {
            cells = (c0 ∷ cs) ++ c ∷ [];
            values = values-append (c0 ∷ cs) c;
            node = record { prev = malloc h; next = n.next; elem_of = n.elem_of; num = suc n.num };
            at_head = ground (arith, e, apart, new-head);
            nonzero = nonzero;
            counted = omega (arith, length-append (c0 ∷ cs) (c ∷ []));
            links = circular next (sym (last_of-append head (c0 ∷ cs) c));
            fresh = Fresh-append head (c0 ∷ cs) c fresh new-head;
            distinct = Distinct-append (c0 ∷ cs) c distinct new-Fresh mallocated;
            seg =
                Seg-append h (spliced (fresh_heap malloc h elem) n.prev head (malloc h) head) head
                  head head (c0 ∷ cs) c seg distinct
                  (λ p new z last. ground (arith, prev, new, z, last))
                  (λ m at. ground (arith, prev, at, apart, unlike)) new-Fresh fresh
                  (ground (arith, prev, apart, unlike, new-head));
          }

      pub prepend-IsQueue :
          n.prev ≡ last_of head (c0 ∷ cs)
          → n.next ≡ c0.addr
          → IsQueue
              (spliced (fresh_heap malloc h elem) head n.next (malloc h) head)
              head
              (elem ∷ map (λ c. c.value) (c0 ∷ cs))
      prepend-IsQueue prev next =
          let c : Cell = record { addr = malloc h; value = elem } in
          let apart : n.next ≢ head = ground (arith, fresh.0, next) in
          let unlike : n.next ≢ malloc h = ground (arith, new-Fresh.0, next) in
          record {
            cells = c ∷ c0 ∷ cs;
            values = refl;
            node = record { prev = n.prev; next = malloc h; elem_of = n.elem_of; num = suc n.num };
            at_head = ground (arith, e, apart, new-head);
            nonzero = nonzero;
            counted = omega arith;
            links = circular refl prev;
            fresh = (new-head, fresh);
            distinct = (mallocated, new-Fresh, distinct);
            seg = (
              ground (arith, next, apart, unlike, new-head),
              (
                ground (arith, next, apart, unlike, seg.0),
                Seg-same h (spliced (fresh_heap malloc h elem) head n.next (malloc h) head) c0.addr
                    head head (malloc h) c0.addr cs seg.1 fresh.1 new-Fresh.1 distinct.1
                    (λ p a b d. ground (arith, next, a, b, d)),
              ),
            );
          }
