-- ===== src/Fifo/Refine.antt =====
-- The FIFO against a bounded queue of bytes, oldest first.
use bird_os.Prelude.{
  ℕ, ◌≡◌, refl, List, [], ◌∷◌, ◌++◌, Bool, true, false, Option, none, some, arith, length, leb,
  if◌then◌else◌,
}
use bird_os.Circular.{window, length-window, window_of_pos, window-put}
use bird_os.Fifo.{Fifo, fifo_push, fifo_pop, Op, push, pop, Reply, pushed, popped, run}
use bird_os.Fifo.Inv.{IsValid, fifo_push-IsValid, fifo_pop-IsValid}

abbrev pub contents : Fifo → List ℕ
contents f = window 0 f.capacity f.buf f.p_tail f.size

-- The abstract queue: a push is refused at the capacity, a pop on the empty queue.
pub queue_push : ℕ → List ℕ → ℕ → Bool × List ℕ
queue_push cap q x = if leb cap (length q) then (false, q) else (true, q ++ (x ∷ []))

pub queue_pop : List ℕ → Option ℕ × List ℕ
queue_pop [] = (none, [])
queue_pop (x ∷ q) = (some x, q)

pub queue_run : ℕ → List ℕ → List Op → List Reply × List ℕ
queue_run cap q [] = ([], q)
queue_run cap q (push x ∷ ops) =
    let (r, g) = queue_push cap q x in let (rs, h) = queue_run cap g ops in (pushed r ∷ rs, h)
queue_run cap q (pop ∷ ops) =
    let (r, g) = queue_pop q in let (rs, h) = queue_run cap g ops in (popped r ∷ rs, h)

pub fifo_push_refines :
    (f : Fifo) (x : ℕ)
    → IsValid f
    → let (r, g) = fifo_push f x in (r, contents g) ≡ queue_push f.capacity (contents f) x
unfolding fifo_push queue_push
fifo_push_refines f x v =
    ground (arith, length-window 0 f.capacity f.buf f.p_tail f.size, window-put v 0 x)

pub fifo_pop_refines :
    (f : Fifo) → IsValid f → let (r, g) = fifo_pop f in (r, contents g) ≡ queue_pop (contents f)
unfolding fifo_pop queue_pop
fifo_pop_refines f v = ground (arith, window_of_pos 0 f.capacity f.buf f.p_tail f.size)

pub capacity-fifo_push : (f : Fifo) (x : ℕ) → (fifo_push f x).1.capacity ≡ f.capacity
unfolding fifo_push
capacity-fifo_push f x = ground arith

pub capacity-fifo_pop : (f : Fifo) → (fifo_pop f).1.capacity ≡ f.capacity
unfolding fifo_pop
capacity-fifo_pop f = ground arith

-- Any sequence of calls on a valid FIFO returns what the bounded queue of its bytes returns, and
-- leaves a valid FIFO that holds what that queue holds.
pub run_refines :
    (ops : List Op) (f : Fifo)
    → IsValid f
    → (((run f ops).0, contents (run f ops).1) ≡ queue_run f.capacity (contents f) ops)
      × IsValid (run f ops).1
unfolding run queue_run
run_refines [] f v = (refl, v)
run_refines (push x ∷ ops) f v =
    let ih = run_refines ops (fifo_push f x).1 (fifo_push-IsValid f x v) in
    ground (arith, ih, fifo_push_refines f x v, capacity-fifo_push f x)
run_refines (pop ∷ ops) f v =
    let ih = run_refines ops (fifo_pop f).1 (fifo_pop-IsValid f v) in
    ground (arith, ih, fifo_pop_refines f v, capacity-fifo_pop f)
