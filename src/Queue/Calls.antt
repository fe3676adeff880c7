-- ===== src/Queue/Calls.antt =====
-- What istgt_queue_enqueue and istgt_queue_enqueue_first do, branch by branch
-- (src/istgt/istgt_queue.c).
use istgt.Prelude.{ℕ, ◌≡◌, ◌≢◌, ◌⊎◌, some, refl, arith, true, false, ◌==◌, ◌||◌}
use istgt.Queue.{Node, Heap, ◌>>=◌, load, new_node, queue_enqueue, queue_enqueue_first}
use istgt.Queue.Splice.{splice}
use istgt.Queue.State.{fresh_heap}

module _ (malloc : Heap → ℕ) (h : Heap) (head elem : ℕ) (n : Node) (e : h head ≡ some n)
    (nonzero : head ≢ 0) where
  load-fresh :
      malloc h ≢ head → load head (fresh_heap malloc h elem) ≡ some (n, (fresh_heap malloc h elem))
  unfolding load
  load-fresh d = ground (arith, e)

  new_node_lem : new_node malloc elem h ≡ some (malloc h, (fresh_heap malloc h elem))
  unfolding new_node
  new_node_lem = refl

  pub enqueue-unlinked :
      malloc h ≢ head
      → n.prev ≡ 0
      → queue_enqueue malloc head elem h
        ≡ splice head head (malloc h) head (fresh_heap malloc h elem)
  unfolding queue_enqueue
  enqueue-unlinked d b =
      let live : (head == 0) ≡ false = ground arith in
      rw (queue_enqueue, live, ◌>>=◌, new_node_lem, load-fresh d, b) refl

  pub enqueue-linked :
      malloc h ≢ head
      → n.prev ≢ 0
      → queue_enqueue malloc head elem h
        ≡ splice n.prev head (malloc h) head (fresh_heap malloc h elem)
  unfolding queue_enqueue
  enqueue-linked d b =
      let live : (head == 0) ≡ false = ground arith in
      let linked : (n.prev == 0) ≡ false = ground arith in
      rw (queue_enqueue, live, ◌>>=◌, new_node_lem, load-fresh d, linked) refl

  pub first-empty :
      malloc h ≢ head
      → (n.next ≡ 0) ⊎ (n.next ≡ head)
      → queue_enqueue_first malloc head elem h
        ≡ splice head head (malloc h) head (fresh_heap malloc h elem)
  unfolding queue_enqueue_first
  first-empty d b =
      let live : (head == 0) ≡ false = ground arith in
      let empty : (n.next == 0 || n.next == head) ≡ true = ground arith in
      rw (queue_enqueue_first, live, ◌>>=◌, new_node_lem, load-fresh d, empty) refl

  pub first-linked :
      malloc h ≢ head
      → n.next ≢ 0
      → n.next ≢ head
      → queue_enqueue_first malloc head elem h
        ≡ splice head n.next (malloc h) head (fresh_heap malloc h elem)
  unfolding queue_enqueue_first
  first-linked d b c =
      let live : (head == 0) ≡ false = ground arith in
      let linked : (n.next == 0 || n.next == head) ≡ false = ground arith in
      rw (queue_enqueue_first, live, ◌>>=◌, new_node_lem, load-fresh d, linked) refl
