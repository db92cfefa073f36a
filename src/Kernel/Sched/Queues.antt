-- ===== src/Kernel/Sched/Queues.antt =====
-- What the operations of kernel/proc.c on the run queues do to the number of processes in a queue, to
-- its tail and to its priority.
use bird_os.Prelude.{
  ℕ, ◌+◌, ◌-◌, ◌≤◌, ◌<◌, ◌≡◌, ◌≢◌, refl, ◌==◌, if◌then◌else◌, arith, Bool-cases, inl, inr, false,
}
use bird_os.Circular.{step_on}
use bird_os.Kernel.Types.{Kernel, nr_procs}
use bird_os.Kernel.Sched.{
  get_proc, append_proc, drop_proc, append_to, move_proc, tail_of, is_empty, is_full,
}

-- No queue has more processes than it has room for, and the second queue does not have the
-- priority of the last.
pub record IsBounded (k : Kernel) : Type 0 where
  pub counts : (i : ℕ) → (k.queues i).count ≤ nr_procs
  pub second : (k.queues 1).priority ≢ 100

pub drop_proc-count :
    (i j : ℕ) (k : Kernel)
    → ((drop_proc i k).queues j).count
      ≡ (if j == i then (k.queues j).count - 1 else (k.queues j).count)
unfolding drop_proc get_proc is_empty
drop_proc-count i j k = elim (Bool-cases ((k.queues i).count == 0)) [
  | inl e ↦ rw e (ground arith)
  | inr e ↦ rw e (ground arith)
]

drop_proc-priority :
    (i j : ℕ) (k : Kernel) → ((drop_proc i k).queues j).priority ≡ (k.queues j).priority
unfolding drop_proc get_proc is_empty
drop_proc-priority i j k = elim (Bool-cases ((k.queues i).count == 0)) [
  | inl e ↦ rw e (ground arith)
  | inr e ↦ rw e (ground arith)
]

pub append_proc-count :
    (p i j : ℕ) (k : Kernel)
    → ((append_proc p i k).queues j).count ≡ (
        if (j == i)
        then (if (k.queues i).count == nr_procs then (k.queues i).count else (k.queues i).count + 1)
        else (k.queues j).count)
unfolding append_proc is_full
append_proc-count p i j k = elim (Bool-cases ((k.queues i).count == nr_procs)) [
  | inl e ↦ rw e (ground arith)
  | inr e ↦ rw e (ground arith)
]

append_proc-priority :
    (p i j : ℕ) (k : Kernel) → ((append_proc p i k).queues j).priority ≡ (k.queues j).priority
unfolding append_proc is_full
append_proc-priority p i j k = elim (Bool-cases ((k.queues i).count == nr_procs)) [
  | inl e ↦ rw e (ground arith)
  | inr e ↦ rw e (ground arith)
]

pub drop_proc-tail :
    (i j : ℕ) (k : Kernel)
    → 0 < (k.queues i).count
    → ((drop_proc i k).queues j).p_tail
      ≡ (if j == i then step_on nr_procs (k.queues j).p_tail else (k.queues j).p_tail)
unfolding drop_proc get_proc is_empty
drop_proc-tail i j k lt =
    let e : ((k.queues i).count == 0) ≡ false = ground arith in rw e (ground arith)

pub append_proc-tail :
    (p i j : ℕ) (k : Kernel) → ((append_proc p i k).queues j).p_tail ≡ (k.queues j).p_tail
unfolding append_proc is_full
append_proc-tail p i j k = elim (Bool-cases ((k.queues i).count == nr_procs)) [
  | inl e ↦ rw e (ground arith)
  | inr e ↦ rw e (ground arith)
]

-- A process that is there is moved.
pub move_proc_lem :
    (i j : ℕ) (k : Kernel)
    → 0 < (k.queues i).count
    → move_proc i j k ≡ append_proc (tail_of i k) j (drop_proc i k)
unfolding move_proc get_proc append_to is_empty
move_proc_lem i j k lt = let e : ((k.queues i).count == 0) ≡ false = ground arith in rw e refl

pub drop_proc-IsBounded : (i : ℕ) (k : Kernel) → IsBounded k → IsBounded (drop_proc i k)
drop_proc-IsBounded i k v = record {
  counts = λ j. ground (arith, drop_proc-count i j k, v.counts j);
  second = λ e. v.second (omega (arith, drop_proc-priority i 1 k, e));
}

pub append_proc-IsBounded : (p i : ℕ) (k : Kernel) → IsBounded k → IsBounded (append_proc p i k)
append_proc-IsBounded p i k v = record {
  counts = λ j. ground (arith, append_proc-count p i j k, v.counts j, v.counts i);
  second = λ e. v.second (omega (arith, append_proc-priority p i 1 k, e));
}
