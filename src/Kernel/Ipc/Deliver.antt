-- ===== src/Kernel/Ipc/Deliver.antt =====
-- What the part of `msg_send` does that delivers the message to a waiting process.
use mathlib.Core.Path.{fun_ext}
use bird_os.Prelude.{
  ℕ, ◌+◌, ◌%◌, ◌^◌, ◌<◌, ◌≡◌, refl, ◌≢◌, inl, inr, true, false, ◌==◌, ltb, arith, Bool-cases,
  update,
}
use bird_os.Kernel.Types.{Kernel, ok, nr_tasks, nr_native_procs, va2la, ldt_seg_linear}
use bird_os.Kernel.Sched.Frame.{views}
use bird_os.Kernel.Ipc.Inv.{IsReceiver, IsIdle, woken}
use bird_os.Kernel.Ipc.{unblock, deliver}

-- The linear address of `va` in process `p`.
abbrev pub linear : Kernel → ℕ → ℕ → ℕ
linear k p va = (ldt_seg_linear (k.procs p).ldt_rw + va) % 2 ^ 32

pub va2la-linear :
    (k : Kernel) (p va : ℕ)
    → (p < nr_tasks + nr_native_procs → ldt_seg_linear (k.procs p).ldt_rw ≡ 0)
    → va < 2 ^ 32
    → va2la p va k ≡ ok (linear k p va) k
unfolding va2la
va2la-linear k p va h b = elim (Bool-cases (ltb p (nr_tasks + nr_native_procs))) [
  | inl e ↦
      let z = h (ground arith) in
      let test : (linear k p va == va) ≡ true = ground (arith, z) in rw (e, test) refl
  | inr e ↦ rw e refl
]

pub update_self :
    {A : Type 0} (f : ℕ → A) (i : ℕ) (a b : A) → update (update f i a) i b ≡ update f i b
update_self f i a b = fun_ext λ x. ground arith

pub eq_self : (i : ℕ) → (i == i) ≡ true
eq_self i = ground arith

-- The kernel when the message `m` of `s` has been delivered to `dest`.
abbrev pub delivered : ℕ → ℕ → ℕ → Kernel → Kernel
delivered s dest m k = record k {
  mem = update k.mem (linear k dest (k.procs dest).p_msg) (k.mem (linear k s m));
  procs = update k.procs dest (woken (k.procs dest));
}

pub deliver-delivered :
    (k : Kernel) (s dest m : ℕ)
    → s ≢ dest
    → IsIdle (views k s)
    → IsReceiver (views k dest)
    → m ≢ 0
    → va2la dest (k.procs dest).p_msg k ≡ ok (linear k dest (k.procs dest).p_msg) k
    → va2la s m k ≡ ok (linear k s m) k
    → deliver s dest m k ≡ ok tt (delivered s dest m k)
unfolding deliver unblock
deliver-delivered k s dest m ne i r m0 to from =
    let ne' : (s == dest) ≡ false = ground arith in
    let t0 : ((k.procs dest).p_msg == 0) ≡ false = ground (arith, r.msg) in
    let t1 : (m == 0) ≡ false = ground arith in
    rw (t0, t1, to, from)
      (simp
        (eq_self dest, r.flags, r.sendto, ne', i.flags, i.msg, i.recvfrom, i.sendto, update_self)
        refl)
