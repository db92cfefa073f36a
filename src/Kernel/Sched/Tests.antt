-- ===== src/Kernel/Sched/Tests.antt =====
-- `schedule` with three processes in the queue of waiting processes: 1 is runnable again, 2 waits
-- for a message, and 3 has ended.
use bird_os.Prelude.{
  ℕ, ◌≡◌, refl, false, none, some, Option, ◌∷◌, arith, replicate, inl, ◌==◌, if◌then◌else◌,
}
use bird_os.Kernel.Types.{Proc, Queue, Kernel, free_slot, receiving, no_task, short_message}
use bird_os.Kernel.Sched.{schedule}
use bird_os.Kernel.Sched.Queues.{IsBounded}
use bird_os.Kernel.Sched.Wakes.{Wakes}
use bird_os.Kernel.Sched.Selects.{Selects}
use bird_os.Kernel.Sched.Rounds.{schedule-Selects}

abbrev proc_with : ℕ → Proc
proc_with flags = record {
  ldt_rw = record {
    limit_low = 0xffff;
    base_low = 0;
    base_mid = 0;
    attr1 = 0xf2;
    limit_high_attr2 = 0xcf;
    base_high = 0;
  };
  ticks = 0;
  priority = 0;
  kind = 0;
  p_flags = flags;
  p_msg = 0;
  p_recvfrom = no_task;
  p_sendto = no_task;
  has_int_msg = false;
  q_sending = none;
  next_sending = none;
}

abbrev empty_with : ℕ → Queue
empty_with n = record { p_head = 0; p_tail = 0; priority = n; count = 0; buf = replicate 20 0 }

abbrev waiting_three : Queue
waiting_three = record (empty_with 0xffffff9c) {
  p_head = 3;
  count = 3;
  buf = 1 ∷ 2 ∷ 3 ∷ replicate 17 0;
}

abbrev queue_at : ℕ → Queue
queue_at i =
    if i == 0
    then empty_with 10
    else if i == 1
    then empty_with 20
    else if i == 2
    then empty_with 100
    else waiting_three

abbrev three_waiting : Kernel
three_waiting = record {
  procs = λ p. proc_with (if p == 3 then free_slot else if p == 2 then receiving else 0);
  queues = queue_at;
  ready = none;
  k_reenter = 0;
  mem = λ _. short_message 5 2000;
}

three_waiting-IsBounded : IsBounded three_waiting
three_waiting-IsBounded = record { counts = λ i. ground arith; second = omega arith }

-- Process 1 runs.
schedule_1 : (schedule three_waiting).ready ≡ some 1
unfolding schedule
schedule_1 = refl

schedule-Selects_example :
    (woken k' : Kernel) × (p : Option ℕ) × Wakes 3 three_waiting woken
    × Selects 0 none woken (p, k')
    × (schedule three_waiting ≡ record k' { ready = p })
    × IsBounded (schedule three_waiting)
schedule-Selects_example = schedule-Selects three_waiting three_waiting-IsBounded record {
  storage = omega arith;
  head_in = omega arith;
  tail_in = omega arith;
  fits = omega arith;
  span = inl refl;
}
