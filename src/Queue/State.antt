-- ===== src/Queue/State.antt =====
-- A queue on the heap, as the list of its elements (src/istgt/istgt_queue.c).
use istgt.Prelude.{ℕ, ◌≡◌, ◌≢◌, List, [], some, map, length}
use istgt.Queue.{Node, Heap, with_node, cleared}
use istgt.Queue.Chain.{Cell, first_of, last_of, Seg, Fresh, Distinct}

-- The head of a queue: of a list through it, or, as `istgt_queue_init` leaves it, of none.
pub data IsHead (head : ℕ) (n : Node) (cells : List Cell) : Type 0 where
  circular : n.next ≡ first_of cells head → n.prev ≡ last_of head cells → IsHead head n cells
  unlinked : n.next ≡ 0 → n.prev ≡ 0 → cells ≡ [] → IsHead head n cells

-- A queue at `head` with the elements `xs`: a circular list of nodes that are all different.
pub record IsQueue (h : Heap) (head : ℕ) (xs : List ℕ) : Type 0 where
  pub cells : List Cell
  pub values : map (λ c. c.value) cells ≡ xs
  pub node : Node
  pub at_head : h head ≡ some node
  pub nonzero : head ≢ 0
  pub counted : node.num ≡ length cells
  pub links : IsHead head node cells
  pub fresh : Fresh head cells
  pub distinct : Distinct cells
  pub seg : Seg h head cells head

-- The heap with the new node.
abbrev pub fresh_heap : (Heap → ℕ) → Heap → (elem : ℕ) → Heap
fresh_heap malloc h elem = with_node h (malloc h) (some (record cleared { elem_of = elem }))
