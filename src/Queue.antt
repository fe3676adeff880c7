-- ===== src/Queue.antt =====
-- Queues of pointers (src/istgt/istgt_queue.c, src/istgt/istgt_queue.h): a circular list through a
-- head node, on a heap. An address is a number, NULL is 0.
mod Tests
pub mod Chain
pub mod Splice
pub mod State
pub mod Insert
pub mod Calls
pub mod Refine
pub mod Remove
pub mod History
pub mod Destroy
use istgt.Prelude.{
  ℕ, zero, suc, ◌+◌, ◌-◌, List, [], ◌∷◌, ◌++◌, Bool, Option, none, some, if◌then◌else◌, ◌==◌, ◌||◌,
  length,
}
use istgt.Disk.Types.{Rc, ret, fail}

-- ISTGT_QUEUE
pub record Node : Type 0 where
  pub prev : ℕ
  pub next : ℕ
  pub elem_of : ℕ
  pub num : ℕ

-- What stands at an address: `none` where nothing is allocated.
abbrev pub Heap : Type 0
Heap = ℕ → Option Node

-- A heap in which one address holds something else.
abbrev pub with_node : Heap → (addr : ℕ) → Option Node → Heap
with_node h addr content p = if addr == p then content else h p

-- Code that reads and writes the heap, and what it ends with: `none` is an access to NULL or to
-- memory that is not allocated.
abbrev pub Outcome : Type 0 → Type 0
Outcome A = Option (A × Heap)

abbrev pub Code : Type 0 → Type 0
Code A = Heap → Outcome A

-- The code that goes on from an outcome.
abbrev pub go_on : {A B : Type 0} → Outcome A → (A → Code B) → Outcome B
go_on none next = none
go_on (some r) next = next r.0 r.1

abbrev pub pure : {A : Type 0} → A → Code A
pure answer heap = some (answer, heap)

infixl 5 ◌>>◌ ◌>>=◌
abbrev pub ◌>>=◌ : {A B : Type 0} → Code A → (A → Code B) → Code B
◌>>=◌ code next heap = go_on (code heap) next

abbrev pub ◌>>◌ : {B : Type 0} → Code (Unit {0}) → Code B → Code B
◌>>◌ code next = code >>= λ done. next

-- An address from which the node may be read.
abbrev pub node_at : Heap → ℕ → Option Node
node_at h p = if p == 0 then none else h p

unfoldable pub load : ℕ → Code Node
load p h = elim (node_at h p) [ none ↦ none | some n ↦ some (n, h) ]

unfoldable pub modify : ℕ → (Node → Node) → Code (Unit {0})
modify p f h = elim (node_at h p) [ none ↦ none | some n ↦ some (tt, with_node h p (some (f n))) ]

-- free(3) of a node
unfoldable pub free_node : ℕ → Code (Unit {0})
free_node p h = elim (node_at h p) [ none ↦ none | some n ↦ some (tt, with_node h p none) ]

abbrev pub cleared : Node
cleared = record { prev = 0; next = 0; elem_of = 0; num = 0 }

abbrev pub set_prev : ℕ → ℕ → Code (Unit {0})
set_prev p v = modify p λ n. record n { prev = v }

abbrev pub set_next : ℕ → ℕ → Code (Unit {0})
set_next p v = modify p λ n. record n { next = v }

unfoldable pub queue_init : ℕ → Code Rc
queue_init head = if head == 0 then pure fail else do modify head (λ n. cleared); pure (ret 0)

unfoldable pub queue_count : ℕ → Code ℕ
queue_count head = if head == 0 then pure 0 else do n ← load head; pure n.num

-- `malloc` is the address that xmalloc answers.
module _ (malloc : Heap → ℕ) where
  -- xmalloc, memset, and `qp->elem = elem`
  unfoldable pub new_node : (elem : ℕ) → Code ℕ
  new_node elem h =
      let p = malloc h in some (p, with_node h p (some (record cleared { elem_of = elem })))

  unfoldable pub queue_enqueue : (head elem : ℕ) → Code Rc
  queue_enqueue head elem = if head == 0 then pure fail else do
    qp ← new_node elem
    n ← load head
    if n.prev == 0
        then (do set_next head qp; set_prev head qp; set_next qp head; set_prev qp head)
        else (do set_next n.prev qp; set_prev head qp; set_next qp head; set_prev qp n.prev)
    modify head (λ n. record n { num = suc n.num })
    pure (ret 0)

  unfoldable pub queue_enqueue_first : (head elem : ℕ) → Code Rc
  queue_enqueue_first head elem = if head == 0 then pure fail else do
    qp ← new_node elem
    n ← load head
    if n.next == 0 || n.next == head
        then (do set_next head qp; set_prev head qp; set_next qp head; set_prev qp head)
        else (do set_next head qp; set_prev n.next qp; set_next qp n.next; set_prev qp head)
    modify head (λ n. record n { num = suc n.num })
    pure (ret 0)

-- The element that stood first, or NULL. `num` is an `int`; it is 1 or more here.
unfoldable pub queue_dequeue : (head : ℕ) → Code ℕ
queue_dequeue head = if head == 0 then pure 0 else do
  n ← load head
  if n.next == 0 || n.next == head then pure 0 else do
    first ← load n.next
    free_node n.next
    if first.next == 0
        then (do set_next head 0; set_prev head 0)
        else (do set_next head first.next; set_prev first.next head)
    modify head (λ n. record n { num = n.num - 1 })
    pure first.elem_of

-- The loop that frees the nodes from `qp` on. `none` also where the rounds do not reach its end;
-- as many rounds as there are nodes are enough.
unfoldable pub free_nodes : (rounds head qp : ℕ) → Code (Unit {0})
unfolding load free_node
free_nodes zero head qp h = if qp == 0 || qp == head then some (tt, h) else none
free_nodes (suc rounds) head qp h = elim (node_at h qp) [
  | none ↦ if qp == 0 || qp == head then some (tt, h) else none
  | some n ↦
      let rest = free_nodes rounds head n.next (with_node h qp none) in
      if qp == 0 || qp == head then some (tt, h) else rest
]

-- The element count of the head stays as it is.
unfoldable pub queue_destroy : (rounds head : ℕ) → Code (Unit {0})
queue_destroy rounds head =
    if head == 0
    then pure tt
    else do n ← load head; free_nodes rounds head n.next; set_next head 0; set_prev head 0
