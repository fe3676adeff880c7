-- ===== src/Queue/History.antt =====
-- Every sequence of calls on a queue, on the heap and on the list of its elements
-- (src/istgt/istgt_queue.c).
use istgt.Prelude.{
  ℕ, suc, ◌≡◌, ◌≢◌, ◌∙◌, ap, List, [], ◌∷◌, ◌++◌, none, some, refl, sym, subst, map, arith, length,
  ◌==◌, false,
}
use istgt.Disk.Types.{Rc, ret}
use istgt.Queue.{
  Heap, Code, pure, ◌>>=◌, ◌>>◌, cleared, load, queue_init, queue_count, queue_enqueue,
  queue_enqueue_first, queue_dequeue,
}
use istgt.Queue.Chain.{Cell}
use istgt.Queue.Splice.{over, IsAllocated, modify_lem}
use istgt.Queue.State.{unlinked, IsQueue}
use istgt.Queue.Refine.{Leaves, enqueue-Leaves, enqueue_first-Leaves}
use istgt.Queue.Remove.{head_or, tail_of, dequeue-Leaves}

-- A call. `addr` is what xmalloc answers to it.
pub data Op : Type 0 where
  enqueue : (elem addr : ℕ) → Op
  enqueue_first : (elem addr : ℕ) → Op
  dequeue : Op
  count : Op

-- What a call answers: whether it worked, an element or NULL, or a number.
pub data Answer : Type 0 where
  code : Rc → Answer
  element : ℕ → Answer
  number : ℕ → Answer

-- A call on the list.
abbrev pub on_list : Op → List ℕ → Answer × List ℕ
on_list (enqueue x p) xs = (code (ret 0), xs ++ x ∷ [])
on_list (enqueue_first x p) xs = (code (ret 0), x ∷ xs)
on_list dequeue xs = (element (head_or xs), tail_of xs)
on_list count xs = (number (length xs), xs)

abbrev pub run_list : List Op → List ℕ → List Answer × List ℕ
run_list [] xs = ([], xs)
run_list (o ∷ os) xs = let r = on_list o xs in let rest = run_list os r.1 in (r.0 ∷ rest.0, rest.1)

module _ (head : ℕ) where
  -- A call on the heap.
  abbrev pub on_heap : Op → Code Answer
  on_heap (enqueue x p) = queue_enqueue (λ h. p) head x >>= λ r. pure (code r)
  on_heap (enqueue_first x p) = queue_enqueue_first (λ h. p) head x >>= λ r. pure (code r)
  on_heap dequeue = queue_dequeue head >>= λ r. pure (element r)
  on_heap count = queue_count head >>= λ r. pure (number r)

  abbrev pub run_heap : List Op → Code (List Answer)
  run_heap [] = pure []
  run_heap (o ∷ os) = on_heap o >>= λ a. run_heap os >>= λ more. pure (a ∷ more)

-- What xmalloc answers: an address that is not NULL and where nothing is allocated at that time.
abbrev pub IsUnused : ℕ → Heap → Type 0
IsUnused p h = (p ≢ 0) × (h p ≡ none)

abbrev pub IsMalloc : Op → Heap → Type 0
IsMalloc (enqueue x p) h = IsUnused p h
IsMalloc (enqueue_first x p) h = IsUnused p h
IsMalloc _ h = Unit

abbrev pub AreMallocs : (head : ℕ) → List Op → Heap → Type 0
AreMallocs head [] h = Unit
AreMallocs head (o ∷ os) h =
    IsMalloc o h × (elim (on_heap head o h) [ none ↦ Unit | some r ↦ AreMallocs head os r.1 ])

pub length-map : (cs : List Cell) → length (map (λ c. c.value) cs) ≡ length cs
length-map [] = refl
length-map (c ∷ cs) = ap suc (length-map cs)

module _ (head : ℕ) where
  count-Leaves :
      (h : Heap) (xs : List ℕ) → IsQueue h head xs → Leaves (queue_count head) h head (length xs) xs
  unfolding queue_count load
  count-Leaves h xs q =
      let num : q.node.num ≡ length xs =
        q.counted ∙ sym (length-map q.cells) ∙ ap length q.values in
      (h, ground (arith, q.at_head, q.nonzero, num), q)

  on_heap-Leaves :
      (o : Op) (h : Heap) (xs : List ℕ)
      → IsMalloc o h
      → IsQueue h head xs
      → let r = on_list o xs in Leaves (on_heap head o) h head r.0 r.1
  on_heap-Leaves (enqueue x p) h xs m q =
      let (h', run, k) = enqueue-Leaves (λ h. p) h head x xs m.0 m.1 q in
      (h', rw (◌>>=◌, run) refl, k)
  on_heap-Leaves (enqueue_first x p) h xs m q =
      let (h', run, k) = enqueue_first-Leaves (λ h. p) h head x xs m.0 m.1 q in
      (h', rw (◌>>=◌, run) refl, k)
  on_heap-Leaves dequeue h xs m q =
      let (h', run, k) = dequeue-Leaves h head xs q in (h', rw (◌>>=◌, run) refl, k)
  on_heap-Leaves count h xs m q =
      let (h', run, k) = count-Leaves h xs q in (h', rw (◌>>=◌, run) refl, k)

  run_heap-Leaves :
      (os : List Op) (h : Heap) (xs : List ℕ)
      → AreMallocs head os h
      → IsQueue h head xs
      → let r = run_list os xs in Leaves (run_heap head os) h head r.0 r.1
  run_heap-Leaves [] h xs m q = (h, refl, q)
  run_heap-Leaves (o ∷ os) h xs m q =
      let (h1, first, k) = on_heap-Leaves o h xs m.0 q in
      let later : AreMallocs head os h1 =
        subst (λ r. elim r as (λ _. Type 0) [ none ↦ Unit | some r ↦ AreMallocs head os r.1 ]) first
          m.1 in
      let (h2, rest, l) = run_heap-Leaves os h1 (on_list o xs).1 later k in
      (h2, rw (◌>>=◌, first, rest) refl, l)

  init-Leaves :
      (h : Heap)
      → IsAllocated h head
      → (queue_init head h ≡ some (ret 0, over h head (λ n. cleared)))
        × IsQueue (over h head (λ n. cleared)) head []
  unfolding queue_init
  init-Leaves h (nonzero, n, e) =
      let live : (head == 0) ≡ false = ground (arith, nonzero) in
      (
        rw (queue_init, live, ◌>>◌, ◌>>=◌, modify_lem h head (λ n. cleared) (nonzero, n, e)) refl,
        record {
          cells = [];
          values = refl;
          node = cleared;
          at_head = ground (arith, e);
          nonzero = nonzero;
          counted = refl;
          links = unlinked refl refl refl;
          fresh = tt;
          distinct = tt;
          seg = tt;
        },
      )

  -- A queue that istgt_queue_init sets up at an allocated head, and on which any sequence of
  -- istgt_queue_enqueue, istgt_queue_enqueue_first, istgt_queue_dequeue and istgt_queue_count then
  -- runs, with addresses from xmalloc at which nothing is allocated at that time: no call
  -- reads or writes memory that is not allocated, each answers what the same call on the list of the elements
  -- answers (0, the first element or NULL, the number of elements), and at the end the heap holds
  -- a queue of just the elements of that list.
  pub run_heap-queue_init :
      (os : List Op) (h : Heap)
      → IsAllocated h head
      → AreMallocs head os (over h head (λ n. cleared))
      → Leaves
          (queue_init head >>= λ r. run_heap head os)
          h
          head
          (run_list os []).0
          (run_list os []).1
  run_heap-queue_init os h a m =
      let (run, q) = init-Leaves h a in
      let (h', rest, k) = run_heap-Leaves os (over h head (λ n. cleared)) [] m q in
      (h', rw (◌>>=◌, run, rest) refl, k)
