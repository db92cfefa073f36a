-- ===== src/Kernel/Sched/Frame.antt =====
-- What the scheduler leaves alone: of a process it changes the time slice and the priority only.
use mathlib.Core.Path.{fun_ext}
use bird_os.Prelude.{
  ℕ, zero, suc, ◌+◌, ◌≡◌, refl, ◌∙◌, Option, none, some, ◌==◌, arith, Bool-cases, inl, inr,
}
use bird_os.Kernel.Types.{Proc, Kernel, nr_queue, free_slot}
use bird_os.Kernel.Sched.{
  get_proc, append_proc, drop_proc, append_to, move_proc, Turn, past, skip, drop, move, run, turn,
  select_turn, wake_loop, select_loop, schedule, tail_of, wake_fuel, select_fuel,
}

-- A process without its time slice and priority.
abbrev pub view : Proc → Proc
view p = record p { ticks = 0; priority = 0 }

abbrev pub views : Kernel → ℕ → Proc
views k p = view (k.procs p)

-- Messages, nesting and all of the processes but time slices and priorities are the same.
pub record Frame (k k' : Kernel) : Type 0 where
  pub views_eq : views k' ≡ views k
  pub mem_eq : k'.mem ≡ k.mem
  pub reenter_eq : k'.k_reenter ≡ k.k_reenter

Frame-refl : (k : Kernel) → Frame k k
Frame-refl k = record { views_eq = refl; mem_eq = refl; reenter_eq = refl }

Frame-trans : {a b c : Kernel} → Frame a b → Frame b c → Frame a c
Frame-trans f g = record {
  views_eq = g.views_eq ∙ f.views_eq;
  mem_eq = g.mem_eq ∙ f.mem_eq;
  reenter_eq = g.reenter_eq ∙ f.reenter_eq;
}

append_proc-Frame : (p i : ℕ) (k : Kernel) → Frame k (append_proc p i k)
unfolding append_proc
append_proc-Frame p i k = record {
  views_eq = fun_ext λ x. ground arith;
  mem_eq = ground arith;
  reenter_eq = ground arith;
}

drop_proc-Frame : (i : ℕ) (k : Kernel) → Frame k (drop_proc i k)
unfolding drop_proc
drop_proc-Frame i k = record { views_eq = refl; mem_eq = refl; reenter_eq = refl }

append_to-Frame : (p : Option ℕ) (i : ℕ) (k : Kernel) → Frame k (append_to p i k)
unfolding append_to
append_to-Frame none i k = Frame-refl k
append_to-Frame (some p) i k = append_proc-Frame p i k

move_proc-Frame : (i j : ℕ) (k : Kernel) → Frame k (move_proc i j k)
unfolding move_proc
move_proc-Frame i j k =
    Frame-trans (drop_proc-Frame i k) (append_to-Frame (get_proc (k.queues i)).0 j (drop_proc i k))

wake_loop-Frame : (fuel pp : ℕ) (k : Kernel) → Frame k (wake_loop fuel pp k)
unfolding wake_loop
wake_loop-Frame zero pp k = Frame-refl k
wake_loop-Frame (suc fuel) pp k = elim (Bool-cases (pp == (k.queues nr_queue).p_tail)) [
  | inl e ↦ rw e (Frame-refl k)
  | inr e ↦ rw e (elim (Bool-cases ((k.procs (tail_of nr_queue k)).p_flags == free_slot)) [
    | inl free ↦ rw free (Frame-trans (drop_proc-Frame nr_queue k) (wake_loop-Frame fuel pp _))
    | inr busy ↦ rw busy (elim (Bool-cases ((k.procs (tail_of nr_queue k)).p_flags == 0)) [
      | inl runs ↦ rw runs (Frame-trans (move_proc-Frame nr_queue 0 k) (wake_loop-Frame fuel pp _))
      | inr waits ↦
          rw waits (Frame-trans (move_proc-Frame nr_queue nr_queue k) (wake_loop-Frame fuel pp _))
    ])
  ])
]

select_turn-Frame :
    (later : ℕ → Option ℕ → Kernel → Option ℕ × Kernel)
    → ((i : ℕ) (p : Option ℕ) (k : Kernel) → Frame k (later i p k).1)
    → (t : Turn) (i : ℕ) (p : Option ℕ) (k : Kernel) → Frame k (select_turn later t i p k).1
unfolding select_turn
select_turn-Frame later h past i p k = Frame-refl k
select_turn-Frame later h skip i p k = h (i + 1) p k
select_turn-Frame later h drop i p k = Frame-trans (drop_proc-Frame i k) (h i _ (drop_proc i k))
select_turn-Frame later h (move j) i p k =
    Frame-trans (move_proc-Frame i j k) (h i _ (move_proc i j k))
select_turn-Frame later h run i p k = Frame-refl k

select_loop-Frame : (fuel i : ℕ) (p : Option ℕ) (k : Kernel) → Frame k (select_loop fuel i p k).1
unfolding select_loop
select_loop-Frame zero i p k = Frame-refl k
select_loop-Frame (suc fuel) i p k =
    select_turn-Frame (select_loop fuel) (select_loop-Frame fuel) (turn i k) i p k

-- `schedule` changes no process but for its time slice and priority, no message and no nesting.
pub schedule-Frame : (k : Kernel) → Frame k (schedule k)
unfolding schedule
schedule-Frame k =
    let woken = wake_loop wake_fuel (k.queues nr_queue).p_head k in
    let f = select_loop-Frame select_fuel 0 none woken in
    let g : Frame k (select_loop select_fuel 0 none woken).1 =
      Frame-trans (wake_loop-Frame wake_fuel (k.queues nr_queue).p_head k) f in
    record { views_eq = g.views_eq; mem_eq = g.mem_eq; reenter_eq = g.reenter_eq }
