-- ===== src/Fifo.antt =====
-- lib/buffer.c and include/buffer.h: the byte FIFO of the mouse driver. A pointer into the storage
-- is its offset from `buf`. The functions are sealed; the modules below prove what holds of them.
pub mod Inv
pub mod Refine
mod Tests
use bird_os.Prelude.{
  ℕ, ◌+◌, ◌-◌, Bool, true, false, Option, none, some, List, [], ◌∷◌, ◌==◌, leb, if◌then◌else◌, set,
  get_or, bit_or,
}
use bird_os.Circular.{step_on}

-- FIFO_BUFFER
pub record Fifo : Type 0 where
  pub buf : List ℕ
  pub p_head : ℕ
  pub p_tail : ℕ
  pub capacity : ℕ
  pub size : ℕ
  pub flags : ℕ

-- FIFO_OVERFLOW
abbrev pub fifo_overflow : ℕ
fifo_overflow = 1

pub fifo_init : ℕ → List ℕ → Fifo
fifo_init size buf = record {
  buf = buf;
  p_head = 0;
  p_tail = 0;
  capacity = size;
  size = 0;
  flags = 0;
}

-- The result is true for 0 and false for -1.
pub fifo_push : Fifo → ℕ → Bool × Fifo
fifo_push fifo x =
    if leb fifo.capacity fifo.size
    then (false, record fifo { flags = bit_or fifo.flags fifo_overflow })
    else (
      true,
      record fifo {
        buf = set fifo.buf fifo.p_head x;
        p_head = step_on fifo.capacity fifo.p_head;
        size = fifo.size + 1;
      },
    )

-- The result is the byte, or none for -1.
pub fifo_pop : Fifo → Option ℕ × Fifo
fifo_pop fifo = if fifo.size == 0 then (none, fifo) else (
  some (get_or fifo.buf fifo.p_tail 0),
  record fifo { p_tail = step_on fifo.capacity fifo.p_tail; size = fifo.size - 1 },
)

-- What a client asks of the buffer.
pub data Op : Type 0 where
  push : ℕ → Op
  pop : Op

pub data Reply : Type 0 where
  pushed : Bool → Reply
  popped : Option ℕ → Reply

-- A sequence of calls, with what each returns and the buffer that they leave.
pub run : Fifo → List Op → List Reply × Fifo
run f [] = ([], f)
run f (push x ∷ ops) = let (r, g) = fifo_push f x in let (rs, h) = run g ops in (pushed r ∷ rs, h)
run f (pop ∷ ops) = let (r, g) = fifo_pop f in let (rs, h) = run g ops in (popped r ∷ rs, h)
