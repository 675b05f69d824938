-- ===== src/Mpsc.antt =====
-- include/mpsc_fifo.h: a linked FIFO with a dummy node at its head. Nodes are numbers, NULL is 0;
-- the fields of the nodes are the functions `next` and `value` (the source's `data`).
pub mod Chain
pub mod Threads
pub mod Order
pub mod Sequence
mod Tests
use libfiber.Prelude.{
  ℕ, zero, suc, ◌≡◌, Option, none, some, List, [], ◌∷◌, update, ◌==◌, if◌then◌else◌,
}

pub record Fifo : Type 0 where
  pub head : ℕ
  pub tail : ℕ
  pub next : ℕ → ℕ
  pub value : ℕ → ℕ

-- `calloc` returned `node`, NULL if it failed.
pub init : ℕ → Fifo → Fifo × ℕ
init node f = if node == 0 then (record f { tail = 0; head = 0 }, 0) else (
  record f { tail = node; head = node; next = update f.next node 0; value = update f.value node 0 },
  1,
)

-- The first half of `mpsc_fifo_push`: terminate the node, and exchange the tail for it. The old tail
-- is returned.
unfoldable pub publish : Fifo → ℕ → Fifo × ℕ
publish f new_node = (record f { next = update f.next new_node 0; tail = new_node }, f.tail)

-- The second half: `prev_tail->next = new_node`.
unfoldable pub link : Fifo → ℕ → ℕ → Fifo
link f prev_tail new_node = record f { next = update f.next prev_tail new_node }

unfoldable pub push : Fifo → ℕ → Fifo
unfolding publish link
push f new_node = let (g, prev_tail) = publish f new_node in link g prev_tail new_node

-- What `peek` stores through its argument, or `none` where it returns 0.
unfoldable pub peek : Fifo → Option ℕ
peek f = let head_next = f.next f.head in if head_next == 0 then none else some (f.value head_next)

-- The node that is returned, NULL if there is none.
unfoldable pub trypop : Fifo → Fifo × ℕ
trypop f =
    let prev_head = f.head in
    let prev_head_next = f.next prev_head in
    if prev_head_next == 0 then (f, 0) else (
      record f { head = prev_head_next; value = update f.value prev_head (f.value prev_head_next) },
      prev_head,
    )

-- The nodes that `mpsc_fifo_destroy` frees, in order; `none` if the fuel ran out.
unfoldable pub destroy : ℕ → Fifo → Option (List ℕ)
destroy zero f = none
destroy (suc fuel) f =
    let rest = destroy fuel (record f { head = f.next f.head }) in
    if f.head == 0 then some [] else elim rest [ none ↦ none | some freed ↦ some (f.head ∷ freed) ]
