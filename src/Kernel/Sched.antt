-- ===== src/Kernel/Sched.antt =====
-- The run queues and `schedule` of kernel/proc.c. `queue_table` has three queues of runnable
-- processes, with the time slices 10, 20 and 100, and behind them the queue of waiting processes,
-- whose priority is -100.
pub mod Frame
pub mod Queues
pub mod Wakes
pub mod Selects
pub mod Rounds
mod Tests
use bird_os.Prelude.{
  ℕ, zero, suc, ◌+◌, ◌-◌, Bool, true, false, ◌&&◌, not, Option, none, some, set, get_or, ◌==◌, ltb,
  update, if◌then◌else◌,
}
use bird_os.Circular.{step_on}
use bird_os.Kernel.Types.{Proc, Queue, Kernel, nr_procs, nr_queue, free_slot}

pub is_empty : Queue → Bool
is_empty q = q.count == 0

pub is_full : Queue → Bool
is_full q = q.count == nr_procs

-- `get_proc`: the process at the tail, or `none` for 0.
pub get_proc : Queue → Option ℕ × Queue
unfolding is_empty
get_proc q = if is_empty q then (none, q) else (
  some (get_or q.buf q.p_tail 0),
  record q { p_tail = step_on nr_procs q.p_tail; count = q.count - 1 },
)

-- `append_proc(p, q)`: nothing happens if the queue is full. The process gets the queue's
-- priority as its time slice.
pub append_proc : ℕ → ℕ → Kernel → Kernel
unfolding is_full
append_proc p i k =
    let q = k.queues i in
    if is_full q then k else record k {
      procs = update k.procs p (record (k.procs p) { ticks = q.priority; priority = q.priority });
      queues = update k.queues i (record q {
        buf = set q.buf q.p_head p;
        p_head = step_on nr_procs q.p_head;
        count = q.count + 1;
      });
    }

-- `get_proc(q)` for its effect on the queue.
pub drop_proc : ℕ → Kernel → Kernel
unfolding get_proc
drop_proc i k = record k { queues = update k.queues i (get_proc (k.queues i)).1 }

-- `append_proc(get_proc(q), r)` for the process at the tail of `q`; nothing for a null pointer.
pub append_to : Option ℕ → ℕ → Kernel → Kernel
unfolding append_proc
append_to none j k = k
append_to (some p) j k = append_proc p j k

pub move_proc : ℕ → ℕ → Kernel → Kernel
unfolding get_proc append_to drop_proc
move_proc i j k = append_to (get_proc (k.queues i)).0 j (drop_proc i k)

-- The process at the tail of queue `i`.
abbrev pub tail_of : ℕ → Kernel → ℕ
tail_of i k = get_or (k.queues i).buf (k.queues i).p_tail 0

-- The first loop of `schedule`, over the waiting processes up to the head `pp` that the queue had
-- at first: free slots are dropped, runnable processes go to the first queue, others go round.
pub wake_loop : ℕ → ℕ → Kernel → Kernel
unfolding move_proc drop_proc
wake_loop zero pp k = k
wake_loop (suc fuel) pp k =
    let flags = (k.procs (tail_of nr_queue k)).p_flags in
    let rest = wake_loop fuel pp (
      if flags == free_slot
      then drop_proc nr_queue k
      else if flags == 0
      then move_proc nr_queue 0 k
      else move_proc nr_queue nr_queue k) in
    if pp == (k.queues nr_queue).p_tail then k else rest

-- What the second loop of `schedule` does at queue `i`: it ends behind the last queue, skips an
-- empty one, drops a free slot, moves a process to another queue, or has found the process to run.
pub data Turn : Type 0 where
  past skip drop run : Turn
  move : ℕ → Turn

pub turn : ℕ → Kernel → Turn
unfolding is_empty
turn i k =
    let p = k.procs (tail_of i k) in
    let q = k.queues i in
    if not (ltb i nr_queue)
    then past
    else if is_empty q
    then skip
    else if p.p_flags == free_slot
    then drop
    else if (p.ticks == 0) && not (q.priority == 100)
    then move (if ((k.queues (i + 1)).priority == 100) && (p.kind == 15) then 0 else i + 1)
    else if not (p.p_flags == 0)
    then move nr_queue
    else run

-- A round of that loop, given the later rounds, with the last process `p` that was looked at.
pub select_turn :
    (ℕ → Option ℕ → Kernel → Option ℕ × Kernel) → Turn → ℕ → Option ℕ → Kernel → Option ℕ × Kernel
unfolding move_proc drop_proc
select_turn later past i p k = (p, k)
select_turn later skip i p k = later (i + 1) p k
select_turn later drop i p k = later i (some (tail_of i k)) (drop_proc i k)
select_turn later (move j) i p k = later i (some (tail_of i k)) (move_proc i j k)
select_turn later run i p k = (some (tail_of i k), k)

pub select_loop : ℕ → ℕ → Option ℕ → Kernel → Option ℕ × Kernel
unfolding turn select_turn
select_loop zero i p k = (p, k)
select_loop (suc fuel) i p k = select_turn (select_loop fuel) (turn i k) i p k

-- The rounds after which the model cuts the two loops off. The C code has no such bound: on run
-- queues that are not well formed it may run on, or use the null pointer that `get_proc` gives.
abbrev pub wake_fuel : ℕ
wake_fuel = 21

abbrev pub select_fuel : ℕ
select_fuel = 128

pub schedule : Kernel → Kernel
unfolding wake_loop select_loop
schedule k =
    let woken = wake_loop wake_fuel (k.queues nr_queue).p_head k in
    let (p, k') = select_loop select_fuel 0 none woken in record k' { ready = p }
