-- ===== src/Kernel/Ipc/Deadlock.antt =====
-- `deadlock` answers whether the chain of waiting senders that begins at `dest` comes to a process
-- that waits to send to `src`.
use bird_os.Prelude.{
  ℕ, zero, suc, ◌<◌, ◌≡◌, refl, ap, inl, inr, true, false, List, ◌==◌, arith, Bool-cases,
}
use bird_os.Kernel.Types.{Proc, Kernel, ok, sending, nr_all, has_flag}
use bird_os.Kernel.Sched.Frame.{views}
use bird_os.Kernel.Ipc.Chains.{is_sending, Depth, Depth-lt, reaches}
use bird_os.Kernel.Ipc.Inv.{Inv, IsSender, IsSettled}
use bird_os.Kernel.Ipc.{print_chain, deadlock_loop, deadlock, rounds}

-- A settled process with the flag SENDING is a sender.
pub IsSender-of : (p : Proc) → IsSettled p → is_sending p ≡ true → IsSender p
IsSender-of p (inl h) e = let t : is_sending p ≡ false = ap (λ f. has_flag f sending) h.flags in cc
IsSender-of p (inr (inl h)) e = h
IsSender-of p (inr (inr (inl h))) e =
    let t : is_sending p ≡ false = ap (λ f. has_flag f sending) h.flags in cc
IsSender-of p (inr (inr (inr h))) e =
    let t : is_sending p ≡ false = ap (λ f. has_flag f sending) h.flags in cc

module _ (k : Kernel) {w : ℕ → List ℕ} (v : Inv (views k) w) (src : ℕ) where
  print_chain-Depth :
      (fuel n p : ℕ)
      → n < fuel
      → p < nr_all
      → Depth (views k) n p
      → reaches (views k) n p src ≡ true
      → print_chain fuel src p k ≡ ok tt k
  unfolding print_chain
  print_chain-Depth zero n p nf b d r = absurd (omega arith)
  print_chain-Depth (suc fuel) zero p nf b d r = cc
  print_chain-Depth (suc fuel) (suc n) p nf b d r =
      let m0 = (IsSender-of (views k p) (v.settled p b) d.0).msg in
      let test : ((k.procs p).p_msg == 0) ≡ false = ground arith in
      rw test (elim (Bool-cases ((k.procs p).p_sendto == src)) [
        | inl e ↦ rw e refl
        | inr ne ↦
            rw ne
              (print_chain-Depth fuel n (k.procs p).p_sendto (omega arith) d.1 d.2 (ground arith))
      ])

  deadlock_loop-Depth :
      (fuel n dest p : ℕ)
      → n < fuel
      → Depth (views k) n p
      → (reaches (views k) n p src ≡ true → print_chain rounds src dest k ≡ ok tt k)
      → deadlock_loop fuel src dest p k ≡ ok (reaches (views k) n p src) k
  unfolding deadlock_loop
  deadlock_loop-Depth zero n dest p nf d print = absurd (omega arith)
  deadlock_loop-Depth (suc fuel) zero dest p nf d print = rw d refl
  deadlock_loop-Depth (suc fuel) (suc n) dest p nf d print =
      let ih = deadlock_loop-Depth fuel n dest (k.procs p).p_sendto (omega arith) d.2 in
      rw d.0 (elim (Bool-cases ((k.procs p).p_sendto == src)) [
        | inl e ↦ let printed = print (ground arith) in rw (e, printed) refl
        | inr ne ↦ rw ne (ih (λ r. print (ground arith)))
      ])

  -- Where the invariant holds, `deadlock` comes to an end, trips no assert and changes nothing;
  -- its answer is whether the chain of waiting senders from `dest` comes to a process that waits
  -- to send to `src`.
  pub deadlock-reaches :
      (dest : ℕ) (b : dest < nr_all)
      → deadlock src dest k ≡ ok (reaches (views k) (v.ends dest b).0 dest src) k
  unfolding deadlock
  deadlock-reaches dest b =
      let (n, d) = v.ends dest b in
      let nb = Depth-lt (views k) n dest b d in
      deadlock_loop-Depth rounds n dest dest (omega arith) d
        (λ r. print_chain-Depth rounds n dest (omega arith) b d r)
