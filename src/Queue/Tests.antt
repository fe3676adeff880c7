-- ===== src/Queue/Tests.antt =====
-- The theorem on queues at a head at address 1: two elements, one in front of them, and three calls
-- that take one out.
use istgt.Prelude.{◌≡◌, List, [], ◌∷◌, none, some, refl, arith, ◌==◌, if◌then◌else◌}
use istgt.Disk.Types.{ret}
use istgt.Queue.{
  cleared, Heap, ◌>>=◌, load, modify, free_node, new_node, queue_init, queue_count, queue_enqueue,
  queue_enqueue_first, queue_dequeue, queue_destroy,
}
use istgt.Queue.State.{IsQueue, circular}
use istgt.Queue.Destroy.{queue_destroy_lem}
use istgt.Queue.Refine.{Leaves}
use istgt.Queue.History.{
  Op, enqueue, enqueue_first, dequeue, count, code, element, number, run_heap, run_heap-queue_init,
}

-- The head has not been set up yet.
abbrev memory : Heap
memory p = if p == 1 then some (record { prev = 77; next = 78; elem_of = 79; num = 80 }) else none

-- The address of the node that was taken out is used again.
abbrev calls : List Op
calls =
    enqueue 100 2
    ∷ enqueue 101 3
    ∷ enqueue_first 102 4
    ∷ dequeue
    ∷ enqueue 103 4
    ∷ count
    ∷ dequeue
    ∷ []

run_heap-queue_init_example :
    Leaves
      (queue_init 1 >>= λ r. run_heap 1 calls)
      memory
      1
      (code (ret 0)
        ∷ code (ret 0)
        ∷ code (ret 0)
        ∷ element 102
        ∷ code (ret 0)
        ∷ number 3
        ∷ element 100
        ∷ [])
      (101 ∷ 103 ∷ [])
unfolding queue_enqueue queue_enqueue_first queue_dequeue queue_count new_node load modify free_node
run_heap-queue_init_example =
    run_heap-queue_init 1 calls memory (omega arith, _, refl)
      (
        (omega arith, refl),
        ((omega arith, refl), ((omega arith, refl), (tt, ((omega arith, refl), (tt, (tt, tt)))))),
      )

-- Two nodes, at addresses 2 and 3, and a third one that is not of the queue.
abbrev two_nodes : Heap
two_nodes p =
    if p == 1
    then some (record { prev = 3; next = 2; elem_of = 0; num = 2 })
    else if p == 2
    then some (record { prev = 1; next = 3; elem_of = 100; num = 0 })
    else if p == 3
    then some (record { prev = 2; next = 1; elem_of = 101; num = 0 })
    else some cleared

abbrev two_nodes_queue : IsQueue two_nodes 1 (100 ∷ 101 ∷ [])
two_nodes_queue = record {
  cells = record { addr = 2; value = 100 } ∷ record { addr = 3; value = 101 } ∷ [];
  values = refl;
  node = record { prev = 3; next = 2; elem_of = 0; num = 2 };
  at_head = refl;
  nonzero = omega arith;
  counted = refl;
  links = circular refl refl;
  fresh = (omega arith, (omega arith, tt));
  distinct = (omega arith, (omega arith, tt), (omega arith, tt, tt));
  seg = (refl, (refl, tt));
}

queue_destroy_lem_example :
    (h : Heap) × (queue_destroy 2 1 two_nodes ≡ some (tt, h))
    × ((h 2 ≡ none) × ((h 3 ≡ none) × Unit {0}))
    × (h 1 ≡ some (record { prev = 0; next = 0; elem_of = 0; num = 2 }))
    × (h 7 ≡ some cleared)
queue_destroy_lem_example =
    queue_destroy_lem two_nodes 1 (100 ∷ 101 ∷ []) two_nodes_queue 2 7 (omega arith) (omega arith)
      (omega arith, (omega arith, tt))
