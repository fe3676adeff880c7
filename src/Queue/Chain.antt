-- ===== src/Queue/Chain.antt =====
-- What a queue is on the heap (src/istgt/istgt_queue.c): the nodes of the circular list.
use istgt.Prelude.{ℕ, ◌≡◌, ◌≢◌, ◌∙◌, List, [], ◌∷◌, ◌++◌, Option, some, refl, arith}
use istgt.Queue.{Node, Heap}

-- A node of the list: where it stands, and its element.
pub record Cell : Type 0 where
  pub addr : ℕ
  pub value : ℕ

-- The first and the last address of a part of the list, and what stands there if it is empty.
abbrev pub first_of : List Cell → ℕ → ℕ
first_of [] a = a
first_of (c ∷ cs) a = c.addr

abbrev pub last_of : ℕ → List Cell → ℕ
last_of b [] = b
last_of b (c ∷ cs) = last_of c.addr cs

abbrev pub link : (prev next elem : ℕ) → Option Node
link prev next elem = some (record { prev = prev; next = next; elem_of = elem; num = 0 })

-- The nodes of a part, between the address in front of it and the one behind it.
abbrev pub Seg : Heap → (before : ℕ) → List Cell → (after : ℕ) → Type 0
Seg h b [] a = Unit
Seg h b (c ∷ cs) a = (h c.addr ≡ link b (first_of cs a) c.value) × Seg h c.addr cs a

-- An address that no cell has.
abbrev pub Fresh : ℕ → List Cell → Type 0
Fresh p [] = Unit
Fresh p (c ∷ cs) = (p ≢ c.addr) × Fresh p cs

abbrev pub Distinct : List Cell → Type 0
Distinct [] = Unit
Distinct (c ∷ cs) = (c.addr ≢ 0) × Fresh c.addr cs × Distinct cs

pub Fresh-append :
    (p : ℕ) (cs : List Cell) (c : Cell) → Fresh p cs → p ≢ c.addr → Fresh p (cs ++ c ∷ [])
Fresh-append p [] c f h = (h, tt)
Fresh-append p (x ∷ xs) c f h = (f.0, Fresh-append p xs c f.1 h)

pub Distinct-append :
    (cs : List Cell) (c : Cell)
    → Distinct cs
    → Fresh c.addr cs
    → c.addr ≢ 0
    → Distinct (cs ++ c ∷ [])
Distinct-append [] c d f h = (h, tt, tt)
Distinct-append (x ∷ xs) c d f h =
    (d.0, Fresh-append x.addr xs c d.1 (ground arith), Distinct-append xs c d.2 f.1 h)

-- The last address of a part is none that no cell has, nor 0.
pub last_of-Fresh : (p b : ℕ) (cs : List Cell) → p ≢ b → Fresh p cs → last_of b cs ≢ p
last_of-Fresh p b [] h f = ground arith
last_of-Fresh p b (c ∷ cs) h f = last_of-Fresh p c.addr cs f.0 f.1

pub last_of-append : (b : ℕ) (cs : List Cell) (c : Cell) → last_of b (cs ++ c ∷ []) ≡ c.addr
last_of-append b [] c = refl
last_of-append b (x ∷ xs) c = last_of-append x.addr xs c

-- One node more at the end: the last node gets a successor. `z` is the head.
pub Seg-append :
    (h h' : Heap) (b a z : ℕ) (cs : List Cell) (c : Cell)
    → Seg h b cs a
    → Distinct cs
    → ((p : ℕ) → p ≢ c.addr → p ≢ z → p ≢ last_of b cs → h' p ≡ h p)
    → ((n : Node)
        → h (last_of b cs) ≡ some n
        → h' (last_of b cs) ≡ some (record n { next = c.addr }))
    → Fresh c.addr cs
    → Fresh z cs
    → h' c.addr ≡ link (last_of b cs) a c.value
    → Seg h' b (cs ++ c ∷ []) a
Seg-append h h' b a z [] c s d elsewhere last f g e = (e, tt)
Seg-append h h' b a z (x ∷ []) c s d elsewhere last f g e = (last _ s.0, (e, tt))
Seg-append h h' b a z (x ∷ (y ∷ ys)) c s d elsewhere last f g e =
    let later : last_of y.addr ys ≢ x.addr = last_of-Fresh x.addr y.addr ys d.1.0 d.1.1 in
    (
      elsewhere x.addr (ground arith) (ground arith) (ground arith) ∙ s.0,
      Seg-append h h' x.addr a z (y ∷ ys) c s.1 d.2 elsewhere last f.1 g.1 e,
    )

-- A part of the list that two heaps share, as they differ at three addresses at most.
pub Seg-same :
    (h h' : Heap) (b a u v w : ℕ) (cs : List Cell)
    → Seg h b cs a
    → Fresh u cs
    → Fresh v cs
    → Fresh w cs
    → ((p : ℕ) → p ≢ u → p ≢ v → p ≢ w → h' p ≡ h p)
    → Seg h' b cs a
Seg-same h h' b a u v w [] s fu fv fw e = tt
Seg-same h h' b a u v w (c ∷ cs) s fu fv fw e = (
  e c.addr (ground arith) (ground arith) (ground arith) ∙ s.0,
  Seg-same h h' c.addr a u v w cs s.1 fu.1 fv.1 fw.1 e,
)
