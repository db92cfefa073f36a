-- ===== src/Fifo/Inv.antt =====
-- The representation invariant of FIFO_BUFFER.
use bird_os.Prelude.{ℕ, ◌≤◌, ◌<◌, List, arith, length}
use bird_os.Circular.{IsCircular, put-IsCircular, take-IsCircular}
use bird_os.Fifo.{Fifo, fifo_init, fifo_push, fifo_pop}

abbrev pub IsValid : Fifo → Type 0
IsValid f = IsCircular f.buf f.capacity f.p_head f.p_tail f.size

pub fifo_init-IsValid : (n : ℕ) (buf : List ℕ) → 0 < n → n ≤ length buf → IsValid (fifo_init n buf)
unfolding fifo_init
fifo_init-IsValid n buf h k = ground arith

pub fifo_push-IsValid : (f : Fifo) (x : ℕ) → IsValid f → IsValid (fifo_push f x).1
unfolding fifo_push
fifo_push-IsValid f x v = ground (arith, put-IsCircular v x)

pub fifo_pop-IsValid : (f : Fifo) → IsValid f → IsValid (fifo_pop f).1
unfolding fifo_pop
fifo_pop-IsValid f v = ground (arith, take-IsCircular v)
