-- ===== src/Kernel/Sched/Selects.antt =====
-- The second loop of `schedule` of kernel/proc.c, without a bound on its rounds, and that it ends.
use mathlib.Core.Path.{subst}
use bird_os.Prelude.{
  ℕ, zero, suc, ◌+◌, ◌-◌, ◌*◌, ◌<◌, ◌≡◌, ◌≢◌, refl, sym, ap, ◌∙◌, Option, some, ◌==◌, ltb,
  if◌then◌else◌, arith, Bool-cases, inl, inr, true, Bool, ◌&&◌, not,
}
use bird_os.Kernel.Types.{Proc, Kernel, nr_procs, nr_queue, free_slot}
use bird_os.Kernel.Sched.{
  append_proc, drop_proc, move_proc, select_loop, select_turn, turn, Turn, past, skip, drop, move,
  run, tail_of, is_empty, select_fuel,
}
use bird_os.Kernel.Sched.Queues.{
  IsBounded, drop_proc-count, append_proc-count, move_proc_lem, drop_proc-IsBounded,
  append_proc-IsBounded,
}

-- The loop from queue `i` on, with the process `p` looked at last, comes to an end with a process
-- and a kernel. The pointer to the queue goes on only past an empty queue.
pub data Selects : ℕ → Option ℕ → Kernel → Option ℕ × Kernel → Type 0 where
  behind_last : {i : ℕ} {p : Option ℕ} {k : Kernel} → turn i k ≡ past → Selects i p k (p, k)
  found :
      {i : ℕ} {p : Option ℕ} {k : Kernel} → turn i k ≡ run → Selects i p k (some (tail_of i k), k)
  skipped :
      {i : ℕ} {p : Option ℕ} {k : Kernel} {o : Option ℕ × Kernel}
      → turn i k ≡ skip
      → Selects (i + 1) p k o
      → Selects i p k o
  dropped :
      {i : ℕ} {p : Option ℕ} {k : Kernel} {o : Option ℕ × Kernel}
      → turn i k ≡ drop
      → Selects i (some (tail_of i k)) (drop_proc i k) o
      → Selects i p k o
  moved :
      {i : ℕ} {p : Option ℕ} {k : Kernel} {o : Option ℕ × Kernel} (j : ℕ)
      → turn i k ≡ move j
      → Selects i (some (tail_of i k)) (move_proc i j k) o
      → Selects i p k o

-- What is known of a turn of the second loop at queue `i`
abbrev Fits : Turn → ℕ → Kernel → Type 0
Fits past i k = Unit
Fits skip i k = i < nr_queue
Fits drop i k = (i < nr_queue) × (0 < (k.queues i).count)
Fits (move j) i k = (i < nr_queue) × (0 < (k.queues i).count) × (j ≢ i)
Fits run i k = Unit

module _ (i : ℕ) (k : Kernel) (v : IsBounded k) where
  abbrev at_tail : Proc
  at_tail = k.procs (tail_of i k)

  abbrev used_up : Bool
  used_up = (at_tail.ticks == 0) && not ((k.queues i).priority == 100)

  abbrev back_to_first : Bool
  back_to_first = ((k.queues (i + 1)).priority == 100) && (at_tail.kind == 15)

  not_first : back_to_first ≡ true → 0 ≢ i
  not_first e z =
      let hundred : (k.queues (i + 1)).priority ≡ 100 = ground (arith, e) in
      v.second (ap (λ x. (k.queues (x + 1)).priority) z ∙ hundred)

  turn-Fits : Fits (turn i k) i k
  unfolding turn is_empty
  turn-Fits = elim (Bool-cases (ltb i nr_queue)) [
    | inr out ↦ rw (turn, out) tt
    | inl inside ↦
        let low : i < nr_queue = ground (arith, inside) in
        elim (Bool-cases ((k.queues i).count == 0)) [
          | inl e ↦ rw (turn, inside, e) low
          | inr e ↦
              let full : 0 < (k.queues i).count = ground (arith, e) in
              elim (Bool-cases (at_tail.p_flags == free_slot)) [
                | inl free ↦ rw (turn, inside, e, free) (low, full)
                | inr busy ↦ elim (Bool-cases used_up) [
                  | inl u ↦ elim (Bool-cases back_to_first) [
                    | inl b ↦ rw (turn, inside, e, busy, u, b) (low, full, not_first b)
                    | inr b ↦
                        rw (turn, inside, e, busy, u, b) (low, full, λ z. absurd (omega arith))
                  ]
                  | inr u ↦ elim (Bool-cases (at_tail.p_flags == 0)) [
                    | inl f ↦ rw (turn, inside, e, busy, u, f) tt
                    | inr f ↦
                        rw (turn, inside, e, busy, u, f) (low, full, λ z. absurd (omega arith))
                  ]
                ]
              ]
        ]
  ]

-- How many rounds the second loop has at most from queue `i` on, but for the last
abbrev pub left_from : ℕ → Kernel → ℕ
left_from i k = if ltb i nr_queue then (nr_queue - i) * (nr_procs + 1) + (k.queues i).count else 0

pub left_from_lt : (i : ℕ) (k : Kernel) → IsBounded k → left_from i k < select_fuel
left_from_lt i k v = ground (arith, v.counts i)

-- The loop ends in `o` with queues that are bounded.
abbrev pub EndsIn : ℕ → Option ℕ → Kernel → Option ℕ × Kernel → Type 0
EndsIn i p k o = Selects i p k o × IsBounded o.1

-- A turn before a loop that ends where fewer rounds are left
select_turn-EndsIn :
    (f : ℕ → Option ℕ → Kernel → Option ℕ × Kernel) (t : Turn) (i : ℕ) (p : Option ℕ) (k : Kernel)
    → turn i k ≡ t
    → IsBounded k
    → Fits t i k
    → ((i' : ℕ) (p' : Option ℕ) (k' : Kernel)
        → IsBounded k'
        → left_from i' k' < left_from i k
        → EndsIn i' p' k' (f i' p' k'))
    → EndsIn i p k (select_turn f t i p k)
unfolding select_turn
select_turn-EndsIn f past i p k e v h later = (behind_last e, v)
select_turn-EndsIn f skip i p k e v h later =
    let (s, b) = later (i + 1) p k v (ground (arith, h, v.counts (i + 1))) in (skipped e s, b)
select_turn-EndsIn f drop i p k e v (low, full) later =
    let (s, b) =
      later i (some (tail_of i k)) (drop_proc i k) (drop_proc-IsBounded i k v)
        (ground (arith, low, full, drop_proc-count i i k)) in
    (dropped e s, b)
select_turn-EndsIn f (move j) i p k e v (low, full, ne) later =
    let d = drop_proc i k in
    let is = move_proc_lem i j k full in
    let fewer : left_from i (append_proc (tail_of i k) j d) < left_from i k =
      ground (arith, low, full, ne, drop_proc-count i i k, append_proc-count (tail_of i k) j i d) in
    let (s, b) =
      later i (some (tail_of i k)) (move_proc i j k)
        (subst IsBounded (sym is)
          (append_proc-IsBounded (tail_of i k) j d (drop_proc-IsBounded i k v)))
        (subst (λ x. left_from i x < left_from i k) (sym is) fewer) in
    (moved j e s, b)
select_turn-EndsIn f run i p k e v h later = (found e, v)

pub select_loop-EndsIn :
    (n i : ℕ) (p : Option ℕ) (k : Kernel)
    → IsBounded k
    → left_from i k < n
    → EndsIn i p k (select_loop n i p k)
unfolding select_loop
select_loop-EndsIn zero i p k v lt = absurd (omega arith)
select_loop-EndsIn (suc n) i p k v lt =
    select_turn-EndsIn (select_loop n) (turn i k) i p k refl v (turn-Fits i k v)
      (λ i' p' k' v' lt'. select_loop-EndsIn n i' p' k' v' (omega (arith, lt, lt')))
