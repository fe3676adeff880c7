-- ===== src/Queue/Destroy.antt =====
-- Destroying a queue (src/istgt/istgt_queue.c, istgt_queue_destroy).
use istgt.Prelude.{
  ℕ, zero, suc, ◌≤◌, ◌≡◌, ◌≢◌, ◌∙◌, sym, ap, List, [], ◌∷◌, All, none, some, false, refl, arith,
  length, ◌==◌,
}
use istgt.Queue.{Node, Heap, ◌>>=◌, ◌>>◌, with_node, load, free_nodes, queue_destroy}
use istgt.Queue.Chain.{Cell, first_of, Seg, Fresh, Distinct, Seg-same}
use istgt.Queue.Splice.{over, IsAllocated, over-IsAllocated, modify_lem}
use istgt.Queue.State.{circular, unlinked, IsQueue}
use istgt.Queue.History.{length-map}

-- The heap without the nodes of a list.
abbrev freed : Heap → List Cell → Heap
freed h [] = h
freed h (c ∷ cs) = freed (with_node h c.addr none) cs

freed-Fresh : (h : Heap) (p : ℕ) (cs : List Cell) → Fresh p cs → freed h cs p ≡ h p
freed-Fresh h p [] f = refl
freed-Fresh h p (c ∷ cs) f = freed-Fresh (with_node h c.addr none) p cs f.1 ∙ ground (arith, f.0)

freed-none : (h : Heap) (cs : List Cell) → Distinct cs → All (λ c. freed h cs c.addr ≡ none) cs
freed-none h [] d = tt
freed-none h (c ∷ cs) d = (
  freed-Fresh (with_node h c.addr none) c.addr cs d.1 ∙ ground arith,
  freed-none (with_node h c.addr none) cs d.2,
)

All-none :
    (g h : Heap) (cs : List Cell)
    → ((p : ℕ) → g p ≡ none → h p ≡ none)
    → All (λ c. g c.addr ≡ none) cs
    → All (λ c. h c.addr ≡ none) cs
All-none g h [] e a = tt
All-none g h (c ∷ cs) e a = (e c.addr a.0, All-none g h cs e a.1)

module _ (head : ℕ) (nonzero : head ≢ 0) where
  -- The loop stops at the head.
  free_nodes-head :
      (rounds : ℕ) (h : Heap) (n : Node)
      → h head ≡ some n
      → free_nodes rounds head head h ≡ some (tt, h)
  unfolding free_nodes
  free_nodes-head zero h n e = ground arith
  free_nodes-head (suc rounds) h n e = ground (arith, e, nonzero)

  -- A round frees one node.
  free_nodes-suc :
      (rounds p : ℕ) (h : Heap) (n : Node)
      → h p ≡ some n
      → p ≢ 0
      → p ≢ head
      → free_nodes (suc rounds) head p h ≡ free_nodes rounds head n.next (with_node h p none)
  unfolding free_nodes
  free_nodes-suc rounds p h n e h0 d = ground (arith, e, h0, d)

  free_nodes_lem :
      (cs : List Cell) (rounds b : ℕ) (h : Heap) (n : Node)
      → h head ≡ some n
      → length cs ≤ rounds
      → Seg h b cs head
      → Fresh head cs
      → Distinct cs
      → free_nodes rounds head (first_of cs head) h ≡ some (tt, freed h cs)
  free_nodes_lem [] rounds b h n e k s f d = free_nodes-head rounds h n e
  free_nodes_lem (c ∷ cs) zero b h n e k s f d = absurd (omega arith)
  free_nodes_lem (c ∷ cs) (suc rounds) b h n e k s f d =
      let h1 = with_node h c.addr none in
      let s1 : Seg h1 c.addr cs head =
        Seg-same h h1 c.addr head c.addr c.addr c.addr cs s.1 d.1 d.1 d.1
          (λ p x y z. ground (arith, x)) in
      free_nodes-suc rounds c.addr h
        (record { prev = b; next = first_of cs head; elem_of = c.value; num = 0 }) s.0 d.0
        (λ e. f.0 (sym e))
      ∙ free_nodes_lem cs rounds c.addr h1 n (ground (arith, e, f.0)) (omega arith) s1 f.1 d.2

  free_nodes-null : (rounds : ℕ) (h : Heap) → free_nodes rounds head 0 h ≡ some (tt, h)
  unfolding free_nodes
  free_nodes-null zero h = ground arith
  free_nodes-null (suc rounds) h = ground arith

  free_nodes-queue :
      (h : Heap) (xs : List ℕ) (q : IsQueue h head xs) (rounds : ℕ)
      → length q.cells ≤ rounds
      → free_nodes rounds head q.node.next h ≡ some (tt, freed h q.cells)
  free_nodes-queue h xs q rounds k = elim (q.links) [
    | circular next prev ↦
        rw next (free_nodes_lem q.cells rounds head h q.node q.at_head k q.seg q.fresh q.distinct)
    | unlinked next prev empty ↦ rw (next, empty) (free_nodes-null rounds h)
  ]

-- The heap that is left.
abbrev pub destroyed : Heap → (head : ℕ) → List Cell → Heap
destroyed h head cs =
    over (over (freed h cs) head (λ n. record n { next = 0 })) head (λ n. record n { prev = 0 })

module _ (h : Heap) (head : ℕ) (xs : List ℕ) (q : IsQueue h head xs) (rounds : ℕ) where
  kept : freed h q.cells head ≡ some q.node
  kept = freed-Fresh h head q.cells q.fresh ∙ q.at_head

  load-queue : load head h ≡ some (q.node, h)
  unfolding load
  load-queue = ground (arith, q.nonzero, q.at_head)

  queue_destroy-run :
      length q.cells ≤ rounds → queue_destroy rounds head h ≡ some (tt, destroyed h head q.cells)
  unfolding queue_destroy
  queue_destroy-run k =
      let live : (head == 0) ≡ false = ground (arith, q.nonzero) in
      let a : IsAllocated (freed h q.cells) head = (q.nonzero, q.node, kept) in
      rw
        (
          queue_destroy,
          live,
          ◌>>=◌,
          load-queue,
          ◌>>◌,
          free_nodes-queue head q.nonzero h xs q rounds k,
          modify_lem (freed h q.cells) head (λ n. record n { next = 0 }) a,
          modify_lem _ head (λ n. record n { prev = 0 })
              (over-IsAllocated (freed h q.cells) head head (λ n. record n { next = 0 }) a),
        )
        refl

  -- istgt_queue_destroy of a queue ends, after no more rounds of its loop than the queue has
  -- elements, without an access to memory that is not allocated (or is freed already). Then no
  -- node of the queue is allocated, the head is linked to nothing and counts as many elements as
  -- before, and any other address holds what it held.
  pub queue_destroy_lem :
      (p : ℕ)
      → length xs ≤ rounds
      → p ≢ head
      → Fresh p q.cells
      → (h' : Heap) × (queue_destroy rounds head h ≡ some (tt, h'))
        × All (λ c. h' c.addr ≡ none) q.cells
        × (h' head ≡ some (record q.node { prev = 0; next = 0; num = length xs }))
        × (h' p ≡ h p)
  queue_destroy_lem p k d f =
      let size : length q.cells ≡ length xs = sym (length-map q.cells) ∙ ap length q.values in
      (
        destroyed h head q.cells,
        queue_destroy-run (omega arith),
        All-none (freed h q.cells) (destroyed h head q.cells) q.cells (λ p e. ground (arith, e))
            (freed-none h q.cells q.distinct),
        ground (arith, kept, q.counted, size),
        ground (arith, d, freed-Fresh h p q.cells f),
      )
