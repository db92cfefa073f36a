-- ===== src/Kernel/Sched/Wakes.antt =====
-- The first loop of `schedule` of kernel/proc.c, without a bound on its rounds, and that it ends.
use mathlib.Core.Path.{subst}
use bird_os.Prelude.{
  ℕ, zero, suc, ◌+◌, ◌-◌, ◌≤◌, ◌<◌, ◌≡◌, ◌≢◌, sym, ap, ◌∙◌, ◌==◌, leb, if◌then◌else◌, arith,
  Bool-cases, inl, inr,
}
use bird_os.Kernel.Types.{Kernel, nr_procs, nr_queue, free_slot}
use bird_os.Kernel.Sched.{drop_proc, move_proc, wake_loop, tail_of}
use bird_os.Kernel.Sched.Queues.{
  IsBounded, drop_proc-count, drop_proc-tail, append_proc-count, append_proc-tail, move_proc_lem,
  drop_proc-IsBounded, append_proc-IsBounded,
}

-- What a round does with the process at the tail
abbrev pub wake_round : Kernel → Kernel
wake_round k =
    let flags = (k.procs (tail_of nr_queue k)).p_flags in
    if flags == free_slot
    then drop_proc nr_queue k
    else if flags == 0
    then move_proc nr_queue 0 k
    else move_proc nr_queue nr_queue k

-- The loop from `k` comes to an end, in `k'`, and every round finds a process at the tail.
pub data Wakes (pp : ℕ) : Kernel → Kernel → Type 0 where
  at_head : {k : Kernel} → pp ≡ (k.queues nr_queue).p_tail → Wakes pp k k
  round :
      {k k' : Kernel}
      → pp ≢ (k.queues nr_queue).p_tail
      → 0 < (k.queues nr_queue).count
      → Wakes pp (wake_round k) k'
      → Wakes pp k k'

-- How far the tail of the queue of waiting processes is from `pp`
abbrev pub distance : ℕ → ℕ → ℕ
distance pp t = if leb t pp then pp - t else pp + nr_procs - t

-- Before a round of the first loop there are processes all the way to `pp`.
pub record Reaches (pp : ℕ) (k : Kernel) : Type 0 where
  pub bounded : IsBounded k
  pub pp_in : pp < nr_procs
  pub tail_in : (k.queues nr_queue).p_tail < nr_procs
  pub there : distance pp (k.queues nr_queue).p_tail ≤ (k.queues nr_queue).count

module _ (pp : ℕ) (k : Kernel) (v : Reaches pp k) (ne : pp ≢ (k.queues nr_queue).p_tail) where
  some_there : 0 < (k.queues nr_queue).count
  some_there = ground (arith, v.there, v.pp_in, v.tail_in, ne)

  -- A process less, and so is the distance.
  drop_proc-Reaches : Reaches pp (drop_proc nr_queue k)
  drop_proc-Reaches =
      let c = drop_proc-count nr_queue nr_queue k in
      let t = drop_proc-tail nr_queue nr_queue k some_there in
      record {
        bounded = drop_proc-IsBounded nr_queue k v.bounded;
        pp_in = v.pp_in;
        tail_in = ground (arith, t, v.tail_in);
        there = ground (arith, c, t, v.there, v.pp_in, v.tail_in, ne);
      }

  drop_proc-distance :
      distance pp ((drop_proc nr_queue k).queues nr_queue).p_tail
      < distance pp (k.queues nr_queue).p_tail
  drop_proc-distance =
      let t = drop_proc-tail nr_queue nr_queue k some_there in
      ground (arith, t, v.pp_in, v.tail_in, ne)

  move_proc-Reaches : (j : ℕ) → Reaches pp (move_proc nr_queue j k)
  move_proc-Reaches j =
      let d = drop_proc nr_queue k in
      let p = tail_of nr_queue k in
      let e = move_proc_lem nr_queue j k some_there in
      let c = append_proc-count p j nr_queue d in
      let t = append_proc-tail p j nr_queue d in
      let u = drop_proc-Reaches in
      subst (Reaches pp) (sym e) (record {
        bounded = append_proc-IsBounded p j d u.bounded;
        pp_in = v.pp_in;
        tail_in = omega (arith, t, u.tail_in);
        there = ground (arith, c, t, u.there);
      })

  move_proc-distance :
      (j : ℕ)
      → distance pp ((move_proc nr_queue j k).queues nr_queue).p_tail
        < distance pp (k.queues nr_queue).p_tail
  move_proc-distance j =
      let d = drop_proc nr_queue k in
      let same : ((move_proc nr_queue j k).queues nr_queue).p_tail ≡ (d.queues nr_queue).p_tail =
        ap (λ x. (x.queues nr_queue).p_tail) (move_proc_lem nr_queue j k some_there)
        ∙ append_proc-tail (tail_of nr_queue k) j nr_queue d in
      subst (λ x. distance pp x < distance pp (k.queues nr_queue).p_tail) (sym same)
        drop_proc-distance

module _ (pp : ℕ) (k : Kernel) (v : Reaches pp k) (ne : pp ≢ (k.queues nr_queue).p_tail) where
  abbrev Nearer : Kernel → Type 0
  Nearer k' =
      Reaches pp k'
      × (distance pp (k'.queues nr_queue).p_tail < distance pp (k.queues nr_queue).p_tail)

  wake_round-Nearer : Nearer (wake_round k)
  wake_round-Nearer = elim (Bool-cases ((k.procs (tail_of nr_queue k)).p_flags == free_slot)) [
    | inl free ↦ rw free (drop_proc-Reaches pp k v ne, drop_proc-distance pp k v ne)
    | inr busy ↦ elim (Bool-cases ((k.procs (tail_of nr_queue k)).p_flags == 0)) [
      | inl runs ↦ rw (busy, runs) (move_proc-Reaches pp k v ne 0, move_proc-distance pp k v ne 0)
      | inr waits ↦
          rw (busy, waits)
            (move_proc-Reaches pp k v ne nr_queue, move_proc-distance pp k v ne nr_queue)
    ]
  ]

pub wake_loop-Wakes :
    (n pp : ℕ) (k : Kernel)
    → Reaches pp k
    → distance pp (k.queues nr_queue).p_tail < n
    → Wakes pp k (wake_loop n pp k) × IsBounded (wake_loop n pp k)
unfolding wake_loop
wake_loop-Wakes zero pp k v lt = absurd (omega arith)
wake_loop-Wakes (suc n) pp k v lt = elim (Bool-cases (pp == (k.queues nr_queue).p_tail)) [
  | inl e ↦ rw (wake_loop, e) (at_head (ground (arith, e)), v.bounded)
  | inr e ↦
      let ne : pp ≢ (k.queues nr_queue).p_tail = ground (arith, e) in
      let (v', lt') = wake_round-Nearer pp k v ne in
      let (w, b) = wake_loop-Wakes n pp (wake_round k) v' (omega (arith, lt, lt')) in
      rw (wake_loop, e) (round ne (some_there pp k v ne) w, b)
]
