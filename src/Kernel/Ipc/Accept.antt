-- ===== src/Kernel/Ipc/Accept.antt =====
-- What the parts of `msg_receive` do that find a sender in the queue of the receiver, take it out
-- and copy its message.
use mathlib.Core.Path.{subst}
use bird_os.Prelude.{
  ℕ, zero, suc, ◌+◌, ◌^◌, ◌<◌, ◌≡◌, refl, ap, ◌∙◌, sym, ◌≢◌, inl, inr, true, false, Option, none,
  some, List, [], ◌∷◌, ◌==◌, arith, Bool-cases, update, length,
}
use native.Mathlib.Decide.{ℕ_discrete}
use bird_os.Kernel.Types.{Proc, Kernel, ok, nr_tasks, nr_native_procs, no_task, ldt_seg_linear}
use bird_os.Kernel.Sched.Frame.{view, views}
use bird_os.Kernel.Ipc.Chains.{
  Procs, is_sending, has, IsNodup, Chain, Chain-cong, remove, ne_of_has,
}
use bird_os.Kernel.Ipc.Inv.{IsSender, IsIdle}
use bird_os.Kernel.Ipc.Leave.{Left, before, pred, pred-before, has-before, Chain-unlink}
use bird_os.Kernel.Ipc.Deliver.{eq_self, update_self, linear, va2la-linear}
use bird_os.Kernel.Ipc.{check_pair, find_sending, unlink_sending, accept}

-- `f`, whose predecessor is `prev`, is taken out of the queue of `r`, and is ready again.
abbrev pub bypass : ℕ → ℕ → Option ℕ → Procs → Procs
bypass r f none ps = update ps r (record (ps r) { q_sending = (ps f).next_sending })
bypass r f (some q) ps = update ps q (record (ps q) { next_sending = (ps f).next_sending })

abbrev pub unlinked : ℕ → ℕ → Option ℕ → Procs → Procs
unlinked r f prev ps =
    let b = bypass r f prev ps in update b f (record (b f) { next_sending = none })

abbrev pub freed : Proc → Proc
freed p = record p { p_flags = 0; p_msg = 0; p_sendto = no_task }

abbrev pub accepted : ℕ → ℕ → Option ℕ → Procs → Procs
accepted r f prev ps = let b = unlinked r f prev ps in update b f (freed (b f))

pub check_pair-ok :
    (k : Kernel) (r f : ℕ)
    → IsIdle (views k r)
    → IsSender (views k f)
    → (k.procs f).p_sendto ≡ r
    → (x : ℕ) → (k.procs r).q_sending ≡ some x
    → check_pair r f k ≡ ok tt k
unfolding check_pair
check_pair-ok k r f i h to x q =
    let given : ((k.procs f).p_msg == 0) ≡ false = ground (arith, h.msg) in
    rw (i.flags, i.msg, i.recvfrom, i.sendto, q, h.flags, given, h.recvfrom, to, eq_self r) refl

pub find_sending-pred :
    (k : Kernel) (f : ℕ)
    → is_sending (views k f) ≡ true
    → (fuel : ℕ) (prev q : Option ℕ) (xs : List ℕ) → length xs < fuel
    → Chain (views k) q xs
    → find_sending fuel f prev q k ≡ ok (pred f prev xs) k
unfolding find_sending
find_sending-pred k f e zero prev q xs b c = absurd (omega arith)
find_sending-pred k f e (suc fuel) prev q [] b c = rw c refl
find_sending-pred k f e (suc fuel) prev q (x ∷ xs) b c =
    let ih = find_sending-pred k f e fuel (some x) (k.procs x).next_sending xs (omega arith) c.1 in
    rw (c.0, e) (elim (Bool-cases (x == f)) [ inl here ↦ rw here refl | inr there ↦ rw there ih ])

pub unlink_sending-unlinked :
    (k : Kernel) (r f x : ℕ) (xs : List ℕ)
    → (k.procs r).q_sending ≡ some x
    → unlink_sending r f (pred f none (x ∷ xs)) k
      ≡ ok tt (record k { procs = unlinked r f (pred f none (x ∷ xs)) k.procs })
unfolding unlink_sending
unlink_sending-unlinked k r f x xs q = elim (Bool-cases (x == f)) [
  | inl here ↦ rw (q, here) refl
  | inr there ↦ rw (q, there, pred-before f x xs) refl
]

-- The kernel when `r` has got the message of `f` at `m`, and the processes are then `ps`.
abbrev pub received : ℕ → ℕ → ℕ → Procs → Kernel → Kernel
received r f m ps k = record k {
  mem = update k.mem (linear k r m) (k.mem (linear k f (k.procs f).p_msg));
  procs = ps;
}

pub accept-received :
    (k : Kernel) (r f m : ℕ) (prev : Option ℕ) (b : Procs)
    → unlink_sending r f prev k ≡ ok tt (record k { procs = b })
    → m ≢ 0
    → m < 2 ^ 32
    → IsSender (views k f)
    → ((b f).p_flags ≡ (k.procs f).p_flags) × ((b f).p_msg ≡ (k.procs f).p_msg)
    → ((x : ℕ) → (b x).ldt_rw ≡ (k.procs x).ldt_rw)
    → ((x : ℕ) → x < nr_tasks + nr_native_procs → ldt_seg_linear (k.procs x).ldt_rw ≡ 0)
    → accept r f prev m k ≡ ok tt (received r f m (update b f (freed (b f))) k)
unfolding accept
accept-received k r f m prev b u m0 mb h same ldt flat =
    let k' : Kernel = record k { procs = b } in
    let flat' : (x : ℕ) → x < nr_tasks + nr_native_procs → ldt_seg_linear (b x).ldt_rw ≡ 0 =
      λ x l. ap ldt_seg_linear (ldt x) ∙ flat x l in
    let to = va2la-linear k' r m (flat' r) mb in
    let from = va2la-linear k' f (k.procs f).p_msg (flat' f) h.msg_in in
    let flags = same.0 ∙ h.flags in
    let t0 : (m == 0) ≡ false = ground arith in
    let t1 : ((k.procs f).p_msg == 0) ≡ false = ground (arith, h.msg) in
    rw (u, t0, same.1, t1, to, from) (simp (eq_self f, flags, update_self, ldt r, ldt f) refl)

before_ne : (f x : ℕ) (xs : List ℕ) → x ≢ f → has f xs ≡ true → before f x xs ≢ f
before_ne f x [] ne i = cc
before_ne f x (y ∷ ys) ne i = elim (ℕ_discrete y f) [
  | yes here ↦ let test : (y == f) ≡ true = ground arith in rw test ne
  | no there ↦
      let test : (y == f) ≡ false = ground arith in rw test (before_ne f y ys there (ground arith))
]

-- `f` was the first in the queue of `r`.
accepted_first :
    (ps : Procs) (r f : ℕ) (xs : List ℕ)
    → r ≢ f
    → IsNodup (f ∷ xs)
    → Chain ps (ps r).q_sending (f ∷ xs)
    → Left ps (λ y. view (accepted r f none ps y)) f r (f ∷ xs)
accepted_first ps r f xs ne nd c = record {
  flags = ground arith;
  msg = ground arith;
  recvfrom = ground arith;
  sendto = ground arith;
  ldt = λ x. ground arith;
  other = λ x n. ground arith;
  queues = λ d n. ground arith;
  links = λ x n o. ground arith;
  chain =
      let ps' : Procs = λ y. view (accepted r f none ps y) in
      let next : (ps' r).q_sending ≡ (ps f).next_sending = ground arith in
      let rest : Chain ps' (ps f).next_sending xs =
        Chain-cong ps ps' (ps f).next_sending xs
          (λ z zi. let z_ne : z ≢ f = λ e. ne_of_has f z xs nd.0 zi (sym e) in ground arith) c.1 in
      let gone : xs ≡ remove f (f ∷ xs) = ground arith in
      subst (Chain ps' (ps' r).q_sending) gone (subst (λ q. Chain ps' q xs) (sym next) rest);
}

-- `f` stood behind `q`.
accepted_behind :
    (ps : Procs) (r f x q : ℕ) (xs : List ℕ)
    → r ≢ f
    → x ≢ f
    → q ≢ f
    → q ≡ before f x xs
    → IsNodup (x ∷ xs)
    → has f xs ≡ true
    → Chain ps (ps r).q_sending (x ∷ xs)
    → Left ps (λ y. view (accepted r f (some q) ps y)) f r (x ∷ xs)
accepted_behind ps r f x q xs ne x_ne q_ne is_q nd i c = record {
  flags = ground arith;
  msg = ground arith;
  recvfrom = ground arith;
  sendto = ground arith;
  ldt = λ y. ground arith;
  other = λ y n. ground arith;
  queues = λ d n. ground arith;
  links = λ y n o.
      let y_ne : y ≢ q =
        λ e. ne_of_has y (before f x xs) (x ∷ xs) o (has-before f x xs) (e ∙ is_q) in
      ground arith;
  chain =
      let apart : (f == x) ≡ false = ground arith in
      let ps' : Procs = λ y. view (accepted r f (some q) ps y) in
      let kept : (ps' r).q_sending ≡ (ps r).q_sending = ground arith in
      let next : (ps' q).next_sending ≡ (ps f).next_sending = ground arith in
      rw (kept, apart)
        (Chain-unlink ps ps' f (ps r).q_sending x xs nd i
          (ap (λ z. (ps' z).next_sending) (sym is_q) ∙ next)
          (λ y n n'. let y_ne : y ≢ q = λ e. n' (e ∙ is_q) in ground arith) c);
}

pub accepted-Left :
    (ps : Procs) (r f x : ℕ) (xs : List ℕ)
    → r ≢ f
    → IsNodup (x ∷ xs)
    → has f (x ∷ xs) ≡ true
    → Chain ps (ps r).q_sending (x ∷ xs)
    → Left ps (λ y. view (accepted r f (pred f none (x ∷ xs)) ps y)) f r (x ∷ xs)
accepted-Left ps r f x xs ne nd i c = elim (Bool-cases (x == f)) [
  | inl e ↦
      let here : x ≡ f = ground arith in
      rw (e, here)
        (accepted_first ps r f xs ne (subst (λ z. IsNodup (z ∷ xs)) here nd)
          (subst (λ z. Chain ps (ps r).q_sending (z ∷ xs)) here c))
  | inr n ↦
      let x_ne : x ≢ f = ground arith in
      let behind : has f xs ≡ true = ground arith in
      rw (n, pred-before f x xs)
        (accepted_behind ps r f x (before f x xs) xs ne x_ne (before_ne f x xs x_ne behind) refl nd
          behind c)
]
