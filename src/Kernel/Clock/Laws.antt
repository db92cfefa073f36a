-- ===== src/Kernel/Clock/Laws.antt =====
-- The clock interrupt and message passing.
use mathlib.Core.Path.{fun_ext}
use bird_os.Prelude.{
  ℕ, List, ◌-◌, ◌<◌, ◌≡◌, refl, sym, ap, ◌∙◌, inl, inr, true, not, ◌||◌, some, ◌==◌, if◌then◌else◌,
  update, Bool-cases, arith,
}
use bird_os.Kernel.Types.{Kernel, Code, ok, pure, ◌>>◌}
use bird_os.Kernel.Sched.{schedule}
use bird_os.Kernel.Sched.Frame.{views, schedule-Frame}
use bird_os.Kernel.Ipc.Inv.{Inv}
use bird_os.Kernel.Ipc.Send.{Inv-views}
use bird_os.Kernel.Ipc.Wait.{is_open, informed, marked, inform_int-wakes, inform_int-marks}
use bird_os.Kernel.Clock.{Clock, positive, max_ticks, task_tty}
unfoldable use bird_os.Kernel.Clock.{
  tick, next_tick, use_slice, inform_tty, end_slice, clock_handler,
}

-- The kernel after the terminal task is told of a key, if one was pressed.
abbrev pub told : Clock → Kernel → Kernel
told c k =
    if c.key_pressed == 0
    then k
    else if is_open (k.procs task_tty)
    then informed task_tty k
    else marked true task_tty k

-- The kernel after a tick of the running process `p` is used.
abbrev pub sliced : ℕ → Kernel → Kernel
sliced p k = record k {
  procs = update k.procs p (record (k.procs p) { ticks = (k.procs p).ticks - 1 });
}

next_tick-lt : (c : Clock) → (next_tick c).ticks < max_ticks
unfolding next_tick
next_tick-lt c = ground arith

use_slice_lem :
    (p : ℕ) (k : Kernel)
    → (s : Kernel) × (use_slice p k ≡ ok tt s)
      × (views s ≡ views k)
      × (s.mem ≡ k.mem)
      × (s.k_reenter ≡ k.k_reenter)
      × ((s.procs p).ticks ≡ (k.procs p).ticks - 1)
unfolding use_slice
use_slice_lem p k = elim (Bool-cases ((k.procs p).ticks == 0)) [
  | inl e ↦ (k, rw e refl, refl, refl, refl, ground (arith, e))
  | inr e ↦ (sliced p k, rw e refl, fun_ext λ x. ground arith, refl, refl, ground arith)
]

module _ (c : Clock) (k : Kernel) {w : ℕ → List ℕ} (v : Inv (views k) w) where
  inform_tty_lem : (inform_tty c k ≡ ok tt (told c k)) × Inv (views (told c k)) w
  unfolding inform_tty
  inform_tty_lem = elim (Bool-cases (c.key_pressed == 0)) [
    | inl e ↦ rw e (refl, v)
    | inr e ↦ elim (Bool-cases (is_open (k.procs task_tty))) [
      | inl o ↦ rw (e, o) (inform_int-wakes k v task_tty (omega arith) o)
      | inr o ↦ rw (e, o) (inform_int-marks k v task_tty (omega arith) o)
    ]
  ]

  told_same :
      (p : ℕ)
      → ((told c k).k_reenter ≡ k.k_reenter) × (((told c k).procs p).ticks ≡ (k.procs p).ticks)
  told_same p = elim (Bool-cases (c.key_pressed == 0)) [
    | inl e ↦ rw e (refl, refl)
    | inr e ↦ elim (Bool-cases (is_open (k.procs task_tty))) [
      | inl o ↦ rw (e, o) (refl, ground arith)
      | inr o ↦ rw (e, o) (refl, ground arith)
    ]
  ]

module _ (p : ℕ) (k : Kernel) {w : ℕ → List ℕ} (v : Inv (views k) w) where
  end_slice_lem :
      (end_slice p k
        ≡ ok tt (if not (k.k_reenter == 0) || positive (k.procs p).ticks then k else schedule k))
      × Inv
          (views (if not (k.k_reenter == 0) || positive (k.procs p).ticks then k else schedule k))
          w
  unfolding end_slice
  end_slice_lem = elim (Bool-cases (not (k.k_reenter == 0))) [
    | inl e ↦ rw e (refl, v)
    | inr e ↦ elim (Bool-cases (positive (k.procs p).ticks)) [
      | inl f ↦ rw (e, f) (refl, v)
      | inr f ↦ rw (e, f) (refl, Inv-views (schedule k) (sym (schedule-Frame k).views_eq) v)
    ]
  ]

-- Three steps that succeed, in a row
in_a_row :
    (f g h : Code (Unit {0})) (c : Clock) (k s t k' : Kernel)
    → f k ≡ ok tt s
    → g s ≡ ok tt t
    → h t ≡ ok tt k'
    → (f >> (g >> (h >> pure c))) k ≡ ok c k'
in_a_row f g h c k s t k' a b d = rw (a, b, d) refl

-- The handler when its three steps are known
steps :
    (c : Clock) (p : ℕ) (k s t k' : Kernel)
    → k.ready ≡ some p
    → use_slice p k ≡ ok tt s
    → inform_tty c s ≡ ok tt t
    → end_slice p t ≡ ok tt k'
    → clock_handler c k ≡ ok (next_tick c) k'
unfolding clock_handler tick
steps c p k s t k' r a b d =
    ap (λ x. tick x c k) r
    ∙ (in_a_row (use_slice p) (inform_tty c) (end_slice p) (next_tick c) k s t k' a b d)

-- The invariant of message passing holds and process `p` runs: `clock_handler` returns, with a
-- tick count below MAX_TICKS and the invariant. In between, it takes one tick off the slice of `p`
-- unless none is left, changing nothing else of the processes and messages but slices and
-- priorities, and it tells the terminal task if a key was pressed. It calls `schedule` at the end
-- exactly when the interrupt did not come in kernel code and the slice is then 0 or, as an `int`,
-- negative.
pub clock_handler-Inv :
    (c : Clock) (k : Kernel) {w : ℕ → List ℕ} (p : ℕ)
    → Inv (views k) w
    → k.ready ≡ some p
    → (c' : Clock) × (s k' : Kernel) × (clock_handler c k ≡ ok c' k')
      × (c'.ticks < max_ticks)
      × Inv (views k') w
      × (views s ≡ views k)
      × (s.mem ≡ k.mem)
      × ((s.procs p).ticks ≡ (k.procs p).ticks - 1)
      × (k' ≡ (
          if not (k.k_reenter == 0) || positive ((k.procs p).ticks - 1)
          then told c s
          else schedule (told c s)))
clock_handler-Inv c k {w} p v r =
    let (s, a, vw, mm, re, tk) = use_slice_lem p k in
    let (b, vt) = inform_tty_lem c s (Inv-views s (sym vw) v) in
    let (d, vk) = end_slice_lem p (told c s) vt in
    let (re', tk') = told_same c s (Inv-views s (sym vw) v) p in
    let same : (not ((told c s).k_reenter == 0) || positive ((told c s).procs p).ticks)
        ≡ (not (k.k_reenter == 0) || positive ((k.procs p).ticks - 1)) =
      ground (arith, re, tk, re', tk') in
    let end : Kernel =
      if not ((told c s).k_reenter == 0) || positive ((told c s).procs p).ticks
      then told c s
      else schedule (told c s) in
    (
      next_tick c,
      s,
      end,
      steps c p k s (told c s) end r a b d,
      next_tick-lt c,
      vk,
      vw,
      mm,
      tk,
      ap (λ x. if x then told c s else schedule (told c s)) same,
    )
