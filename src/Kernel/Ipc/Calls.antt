-- ===== src/Kernel/Ipc/Calls.antt =====
-- `sys_sendrec` as a whole: what a send and a receive of a ready process come to.
use bird_os.Prelude.{
  ℕ, ◌^◌, ◌<◌, ◌≡◌, refl, ◌∙◌, ◌≢◌, ◌⊎◌, inl, inr, true, false, ◌||◌, none, List, ◌==◌, arith,
  update, ltb, Bool-cases,
}
use bird_os.Kernel.Types.{Kernel, Run, ok, halted, nr_all, any, interrupt, send, receive}
use bird_os.Kernel.Sched.Frame.{views}
use bird_os.Kernel.Ipc.Chains.{reaches, has}
use bird_os.Kernel.Ipc.Inv.{Inv, IsIdle}
use bird_os.Kernel.Ipc.Deliver.{linear, va2la-linear, delivered}
use bird_os.Kernel.Ipc.Accept.{accepted, received}
use bird_os.Kernel.Ipc.Send.{apart, msg_send-delivers, msg_send-queues, msg_send-panics}
use bird_os.Kernel.Ipc.Receive.{msg_receive-first, msg_receive-from, List-cases}
use bird_os.Kernel.Ipc.Wait.{msg_receive-waits, msg_receive-interrupt, IsSilent}
use bird_os.Kernel.Ipc.{sys_sendrec, msg_send, msg_receive, awaits}

-- The kernel once `sys_sendrec` has written the caller into the message.
abbrev pub signed : ℕ → ℕ → Kernel → Kernel
signed caller m k = record k {
  mem = update k.mem (linear k caller m) (record (k.mem (linear k caller m)) { source = caller });
}

-- The call returns 0, and the invariant holds for some queues.
abbrev pub IsKept : Run ℕ → Type 0
IsKept run = (k' : Kernel) × (run ≡ ok 0 k') × ((w : ℕ → List ℕ) × Inv (views k') w)

module _ (k : Kernel) {w : ℕ → List ℕ} (v : Inv (views k) w) (caller m : ℕ) (cb : caller < nr_all)
    (i : IsIdle (views k caller)) (m0 : m ≢ 0) (mb : m < 2 ^ 32) (outer : k.k_reenter ≡ 0) where
  enters :
      (src_dest : ℕ)
      → caller ≢ src_dest
      → (ltb src_dest nr_all || (src_dest == any) || (src_dest == interrupt)) ≡ true
      → (sys_sendrec send src_dest m caller k ≡ msg_send caller src_dest m (signed caller m k))
        × (sys_sendrec receive src_dest m caller k
            ≡ msg_receive caller src_dest m (signed caller m k))
  unfolding sys_sendrec
  enters src_dest ne known =
      let to = va2la-linear k caller m (v.flat caller) mb in
      let other = apart caller src_dest ne in
      let zero_is : (k.k_reenter == 0) ≡ true = ground (arith, outer) in
      (rw (zero_is, known, to, other) refl, rw (zero_is, known, to, other) refl)

  -- The invariant holds, no interrupt is being handled, and a ready process sends the message at
  -- an address that is not 0 to another process: `sys_sendrec` returns 0 and the invariant holds
  -- again, or it halts, and then the chain of waiting senders from `dest` comes back to the
  -- caller.
  pub sys_sendrec-send :
      (dest : ℕ) (db : dest < nr_all)
      → caller ≢ dest
      → IsKept (sys_sendrec send dest m caller k)
        ⊎ ((reaches (views k) (v.ends dest db).0 dest caller ≡ true)
            × (sys_sendrec send dest m caller k ≡ halted))
  sys_sendrec-send dest db ne =
      let k' = signed caller m k in
      let known : (ltb dest nr_all || (dest == any) || (dest == interrupt)) ≡ true = ground arith in
      let enter = (enters dest ne known).0 in
      elim (Bool-cases (awaits (k.procs dest) caller)) [
        | inl waits ↦
            let (run, v') = msg_send-delivers k' v caller dest m cb db ne i m0 mb waits in
            inl (delivered caller dest m k', enter ∙ run, (w, v'))
        | inr busy ↦ elim (Bool-cases (reaches (views k) (v.ends dest db).0 dest caller)) [
          | inl stuck ↦
              inr (stuck, enter ∙ msg_send-panics k' v caller dest m cb db ne i m0 mb stuck)
          | inr free ↦
              let (end, run, v', _) =
                msg_send-queues k' v caller dest m cb db ne i m0 mb busy free in
              inl (end, enter ∙ run, (_, v'))
        ]
      ]

  source_cases :
      (src : ℕ)
      → (ltb src nr_all || (src == any) || (src == interrupt)) ≡ true
      → (src ≡ any) ⊎ (src < nr_all) ⊎ (src ≡ interrupt)
  source_cases src e = elim (Bool-cases (src == any)) [
    | inl is ↦ inl (ground arith)
    | inr other ↦ elim (Bool-cases (ltb src nr_all)) [
      | inl is ↦ inr (inl (ground arith))
      | inr high ↦ inr (inr (ground arith))
    ]
  ]

  waits :
      (src : ℕ)
      → caller ≢ src
      → (ltb src nr_all || (src == any) || (src == interrupt)) ≡ true
      → (k.procs caller).has_int_msg ≡ false
      → IsSilent src (w caller)
      → IsKept (sys_sendrec receive src m caller k)
  waits src ne known quiet h =
      let k' = signed caller m k in
      let (end, run, v', _, _, _) = msg_receive-waits k' v caller m cb i m0 mb src ne quiet h in
      (end, (enters src ne known).1 ∙ run, (w, v'))

  from_any :
      caller ≢ any
      → (k.procs caller).has_int_msg ≡ false
      → IsKept (sys_sendrec receive any m caller k)
  from_any ne quiet =
      let k' = signed caller m k in
      elim (List-cases (w caller)) [
        | inl is ↦ waits any ne refl quiet (inl (refl, is))
        | inr (f, xs, is) ↦
            let (run, v') = msg_receive-first k' v caller m cb i m0 mb f xs ne quiet is in
            (
              received caller f m (accepted caller f none k'.procs) k',
              (enters any ne refl).1 ∙ run,
              (_, v'),
            )
      ]

  -- The invariant holds, no interrupt is being handled, and a ready process receives, with an
  -- address that is not 0, from another process, from anyone or from INTERRUPT; if an interrupt is
  -- pending for it, it receives from anyone or from INTERRUPT: `sys_sendrec` returns 0 and the
  -- invariant holds again.
  pub sys_sendrec-receive :
      (src : ℕ)
      → caller ≢ src
      → caller ≢ any
      → (ltb src nr_all || (src == any) || (src == interrupt)) ≡ true
      → ((k.procs caller).has_int_msg ≡ true → ((src == any) || (src == interrupt)) ≡ true)
      → IsKept (sys_sendrec receive src m caller k)
  sys_sendrec-receive src ne ne_any known asked =
      let k' = signed caller m k in
      let enter = (enters src ne known).1 in
      elim (Bool-cases (k.procs caller).has_int_msg) [
        | inl pending ↦
            let (end, run, v', _, _, _) =
              msg_receive-interrupt k' v caller m cb i m0 mb src ne pending (asked pending) in
            (end, enter ∙ run, (w, v'))
        | inr quiet ↦ elim (source_cases src known) [
          | inl is ↦ rw is (from_any ne_any quiet)
          | inr (inl b) ↦ elim (Bool-cases (has src (w caller))) [
            | inl e ↦
                let (end, run, v', _) = msg_receive-from k' v caller m cb i m0 mb src b e in
                (end, enter ∙ run, (_, v'))
            | inr e ↦ waits src ne known quiet (inr (inl (b, e)))
          ]
          | inr (inr is) ↦ waits src ne known quiet (inr (inr is))
        ]
      ]
