-- ===== src/Kernel/Sched/Rounds.antt =====
-- That `schedule` of kernel/proc.c has rounds enough for its two loops.
use bird_os.Prelude.{ℕ, ◌≡◌, refl, Option, none, arith}
use bird_os.Circular.{IsCircular}
use bird_os.Kernel.Types.{Kernel, nr_procs, nr_queue}
use bird_os.Kernel.Sched.{schedule, wake_loop, select_loop, wake_fuel, select_fuel}
use bird_os.Kernel.Sched.Queues.{IsBounded}
use bird_os.Kernel.Sched.Wakes.{Wakes, Reaches, wake_loop-Wakes}
use bird_os.Kernel.Sched.Selects.{Selects, left_from_lt, select_loop-EndsIn}

-- No run queue has more processes than it has room for, the second one does not have the last one's
-- priority 100, and the queue of waiting processes is a circular buffer. Then both loops of
-- `schedule`, taken without a bound on their rounds, come to an end, and `schedule` gives what they
-- come to. Each round of the first one finds a process in its queue. Afterwards again no queue has
-- more processes than it has room for.
pub schedule-Selects :
    (k : Kernel)
    → IsBounded k
    → IsCircular
        (k.queues nr_queue).buf
        nr_procs
        (k.queues nr_queue).p_head
        (k.queues nr_queue).p_tail
        (k.queues nr_queue).count
    → (woken k' : Kernel) × (p : Option ℕ) × Wakes (k.queues nr_queue).p_head k woken
      × Selects 0 none woken (p, k')
      × (schedule k ≡ record k' { ready = p })
      × IsBounded (schedule k)
unfolding schedule
schedule-Selects k v q =
    let pp : ℕ = (k.queues nr_queue).p_head in
    let start : Reaches pp k = record {
      bounded = v;
      pp_in = q.head_in;
      tail_in = q.tail_in;
      there = ground (arith, q.head_in, q.tail_in, q.span);
    } in
    let (w, b) = wake_loop-Wakes wake_fuel pp k start (ground (arith, q.head_in, q.tail_in)) in
    let woken : Kernel = wake_loop wake_fuel pp k in
    let (s, b') = select_loop-EndsIn select_fuel 0 none woken b (left_from_lt 0 woken b) in
    let o : Option ℕ × Kernel = select_loop select_fuel 0 none woken in
    (woken, o.1, o.0, w, s, refl, record { counts = b'.counts; second = b'.second })
