-- ===== src/Kernel/Clock.antt =====
-- The clock interrupt, kernel/clock.c: `clock_handler`. The variables `ticks` and `key_pressed`
-- are a record of their own; the use of a null `p_proc_ready` halts.
pub mod Laws
mod Tests
use bird_os.Prelude.{
  ℕ, ◌+◌, ◌-◌, Bool, ◌&&◌, not, Option, none, some, ◌==◌, leb, ltb, if◌then◌else◌,
}
use bird_os.Kernel.Types.{Kernel, Proc, Code, ok, halted, pure, get, modify, proc_of, ◌>>=◌, ◌>>◌}
use bird_os.Kernel.Sched.{schedule}
use bird_os.Kernel.Ipc.{inform_int}

abbrev pub max_ticks : ℕ
max_ticks = 0x7fffabcd

abbrev pub task_tty : ℕ
task_tty = 0

-- `ticks` and `key_pressed`
pub record Clock : Type 0 where
  pub ticks : ℕ
  pub key_pressed : ℕ

-- `a > 0` for the word of an `int`
abbrev pub positive : ℕ → Bool
positive a = ltb 0 a && ltb a 0x80000000

unfoldable pub next_tick : Clock → Clock
next_tick c = record c { ticks = if leb max_ticks (c.ticks + 1) then 0 else c.ticks + 1 }

-- A time slice is the word of an `int`. It is decreased only when it is not 0.
unfoldable pub use_slice : ℕ → Code (Unit {0})
use_slice p = do
  q ← proc_of p
  if q.ticks == 0 then pure tt else modify p (λ x. record x { ticks = x.ticks - 1 })

unfoldable pub inform_tty : Clock → Code (Unit {0})
inform_tty c = if c.key_pressed == 0 then pure tt else inform_int task_tty

-- The end of the handler: another process is chosen unless the interrupt came in kernel code or
-- the process `p` has a part of its time slice left. The slice of a process that comes
-- from the queue of waiting processes is -100, which is not positive.
unfoldable pub end_slice : ℕ → Code (Unit {0})
end_slice p = do
  k ← get
  if not (k.k_reenter == 0) then pure tt else if positive (k.procs p).ticks then pure tt else λ k.
      ok tt (schedule k)

-- The handler with the process that `p_proc_ready` points to
unfoldable pub tick : Option ℕ → Clock → Code Clock
tick none c = λ k. halted
tick (some p) c = do use_slice p; inform_tty c; end_slice p; pure (next_tick c)

unfoldable pub clock_handler : Clock → Code Clock
clock_handler c k = tick k.ready c k
