-- ===== src/Kernel/Ipc/Receive.antt =====
-- `msg_receive` of a ready process: it takes a pending interrupt, or the message of the first
-- sender or of the sender asked for out of the queue, or waits.
use mathlib.Core.Path.{fun_ext, subst}
use bird_os.Prelude.{
  ℕ, ◌^◌, ◌<◌, ◌≡◌, refl, ap, ◌∙◌, sym, ◌≢◌, inl, inr, true, false, ◌&&◌, ◌||◌, Option, none, some,
  List, [], ◌∷◌, ◌==◌, arith, update, ltb, Bool-cases, if◌then◌else◌, ◌⊎◌, length,
}
use bird_os.Kernel.Types.{Kernel, ok, halted, sending, nr_all, has_flag, no_task, any, interrupt}
use bird_os.Kernel.Sched.{schedule}
use bird_os.Kernel.Sched.Frame.{view, views, schedule-Frame}
use bird_os.Kernel.Ipc.Chains.{Procs, is_sending, has, remove, Chain, IsNodup}
use bird_os.Kernel.Ipc.Inv.{Inv, IsIdle, IsSender, waiting}
use bird_os.Kernel.Ipc.Leave.{Inv-left, Left, pred}
use bird_os.Kernel.Ipc.Deadlock.{IsSender-of}
use bird_os.Kernel.Ipc.Deliver.{eq_self, update_self, linear}
use bird_os.Kernel.Ipc.Accept.{
  accepted, unlinked, received, accept-received, accepted-Left, check_pair-ok, find_sending-pred,
  unlink_sending-unlinked,
}
use bird_os.Kernel.Ipc.Send.{apart, Inv-views, length-queue}
use bird_os.Kernel.Ipc.{msg_receive, await, block, rounds, accept, check_pair, find_sending}

-- `await` blocks the receiver, and `schedule` has the rest of the call; a pending interrupt trips
-- the last assert.
pub await-waiting :
    (k : Kernel) (r src m : ℕ)
    → IsIdle (views k r)
    → m ≢ 0
    → src ≢ no_task
    → await r src m k ≡ (
        if (k.procs r).has_int_msg
        then halted
        else ok tt (schedule (record k { procs = update k.procs r (waiting m src (k.procs r)) })))
unfolding await block
await-waiting k r src m i m0 s0 =
    let end : Kernel = record k { procs = update k.procs r (waiting m src (k.procs r)) } in
    let same = (schedule-Frame end).views_eq in
    let is_end : end.procs r ≡ waiting m src (k.procs r) = ground arith in
    let flags = ap (λ f. (f r).p_flags) same ∙ ap (λ p. p.p_flags) is_end in
    let msg = ap (λ f. (f r).p_msg) same ∙ ap (λ p. p.p_msg) is_end in
    let from = ap (λ f. (f r).p_recvfrom) same ∙ ap (λ p. p.p_recvfrom) is_end in
    let to = ap (λ f. (f r).p_sendto) same ∙ ap (λ p. p.p_sendto) is_end ∙ i.sendto in
    let int = ap (λ f. (f r).has_int_msg) same ∙ ap (λ p. p.has_int_msg) is_end in
    let t0 : (m == 0) ≡ false = ground arith in
    let t1 : (src == no_task) ≡ false = ground arith in
    simp (eq_self r, i.flags, update_self)
      (rw (flags, msg, from, to, int, t0, t1)
        (elim (Bool-cases (k.procs r).has_int_msg) [ inl e ↦ rw e refl | inr e ↦ rw e refl ]))

unlinked-keeps :
    (r f : ℕ) (prev : Option ℕ) (ps : Procs)
    → ((unlinked r f prev ps f).p_flags ≡ (ps f).p_flags)
      × ((unlinked r f prev ps f).p_msg ≡ (ps f).p_msg)
      × ((x : ℕ) → (unlinked r f prev ps x).ldt_rw ≡ (ps x).ldt_rw)
unlinked-keeps r f none ps = (ground arith, ground arith, λ x. ground arith)
unlinked-keeps r f (some q) ps = (ground arith, ground arith, λ x. ground arith)

accepted-view :
    (r f : ℕ) (prev : Option ℕ) (ps : Procs) (x : ℕ)
    → view (accepted r f prev (λ y. view (ps y)) x) ≡ view (accepted r f prev ps x)
accepted-view r f none ps x = ground arith
accepted-view r f (some q) ps x = ground arith

pub List-cases : (l : List ℕ) → (l ≡ []) ⊎ ((x : ℕ) × (xs : List ℕ) × (l ≡ (x ∷ xs)))
List-cases [] = inl refl
List-cases (x ∷ xs) = inr (x, xs, refl)

-- How `msg_receive` comes to copy, given what its parts do.
receive_first :
    (k : Kernel) (r f m : ℕ)
    → r ≢ any
    → (k.procs r).has_int_msg ≡ false
    → (k.procs r).q_sending ≡ some f
    → check_pair r f k ≡ ok tt k
    → (k' : Kernel) → accept r f none m k ≡ ok tt k'
    → msg_receive r any m k ≡ ok 0 k'
unfolding msg_receive
receive_first k r f m ne quiet q pair k' run = rw (apart r any ne, quiet, q, pair, run) refl

receive_found :
    (k : Kernel) (r f m x : ℕ) (prev : Option ℕ)
    → f < nr_all
    → r ≢ f
    → is_sending (views k f) ≡ true
    → (k.procs f).p_sendto ≡ r
    → (k.procs r).q_sending ≡ some x
    → find_sending rounds f none (some x) k ≡ ok prev k
    → check_pair r f k ≡ ok tt k
    → (k' : Kernel) → accept r f prev m k ≡ ok tt k'
    → msg_receive r f m k ≡ ok 0 k'
unfolding msg_receive
receive_found k r f m x prev fb ne sends to q found pair k' run =
    let skip : ((k.procs r).has_int_msg && ((f == any) || (f == interrupt))) ≡ false =
      ground arith in
    let one : (f == any) ≡ false = ground arith in
    let low : ltb f nr_all ≡ true = ground arith in
    let to' : ((k.procs f).p_sendto == r) ≡ true = ground arith in
    rw (apart r f ne, skip, one, low, sends, to', q, found, pair, run) refl

module _ (k : Kernel) {w : ℕ → List ℕ} (v : Inv (views k) w) (r m : ℕ) (rb : r < nr_all)
    (i : IsIdle (views k r)) (m0 : m ≢ 0) (mb : m < 2 ^ 32) where
  -- A member of the queue of `r` is a sender to `r`, and not `r`.
  member_sends :
      (f : ℕ) → has f (w r) ≡ true → IsSender (views k f) × ((k.procs f).p_sendto ≡ r) × (r ≢ f)
  member_sends f e =
      let m = v.member r f rb in
      let fb : f < nr_all = ground arith in
      let sends : is_sending (views k f) ≡ true = ground arith in
      let idles : is_sending (views k r) ≡ false = ap (λ g. has_flag g sending) i.flags in
      (
        IsSender-of (views k f) (v.settled f fb) sends,
        ground arith,
        λ e.
            let t : is_sending (views k r) ≡ true =
              subst (λ z. is_sending (views k z) ≡ true) (sym e) sends in
            cc,
      )

  -- `f` in the queue `x ∷ xs` of `r` is taken out, and its message copied.
  take_sender :
      (f x : ℕ) (xs : List ℕ)
      → w r ≡ (x ∷ xs)
      → has f (w r) ≡ true
      → (check_pair r f k ≡ ok tt k)
        × (accept r f (pred f none (x ∷ xs)) m k
            ≡ ok tt (received r f m (accepted r f (pred f none (x ∷ xs)) k.procs) k))
        × Inv
            (views (received r f m (accepted r f (pred f none (x ∷ xs)) k.procs) k))
            (update w r (remove f (w r)))
  take_sender f x xs is e =
      let (h, to, ne) = member_sends f e in
      let fb : f < nr_all = ground (arith, v.member r f rb) in
      let c = subst (Chain (views k) (k.procs r).q_sending) is (v.chain r rb) in
      let nd = subst IsNodup is (v.nodup r rb) in
      let inside = subst (λ l. has f l ≡ true) is e in
      let prev = pred f none (x ∷ xs) in
      let keeps = unlinked-keeps r f prev k.procs in
      let left =
        subst (Left (views k) (λ y. view (accepted r f prev (views k) y)) f r) (sym is)
          (accepted-Left (views k) r f x xs ne nd inside c) in
      (
        check_pair-ok k r f i h to x c.0,
        accept-received k r f m prev (unlinked r f prev k.procs)
            (unlink_sending-unlinked k r f x xs c.0) m0 mb h (keeps.0, keeps.1) keeps.2 v.flat,
        Inv-views (received r f m (accepted r f prev k.procs) k)
            (fun_ext (accepted-view r f prev k.procs)) (Inv-left v left fb rb h to),
      )

  -- The invariant holds, and the ready process `r` gives an address `m` that is not 0. It receives
  -- from anyone, no interrupt is pending for it, and `f` is the first in its queue: `msg_receive`
  -- copies the message of `f` to `m`, makes `f` ready, changes nothing else but the links of the
  -- queue, returns 0, and the invariant holds with `f` taken from the queue.
  pub msg_receive-first :
      (f : ℕ) (xs : List ℕ)
      → r ≢ any
      → (k.procs r).has_int_msg ≡ false
      → w r ≡ (f ∷ xs)
      → (msg_receive r any m k ≡ ok 0 (received r f m (accepted r f none k.procs) k))
        × Inv (views (received r f m (accepted r f none k.procs) k)) (update w r xs)
  msg_receive-first f xs ne quiet is =
      let first : has f (w r) ≡ true = rw is (ground arith) in
      let head : pred f none (f ∷ xs) ≡ none = ground arith in
      let rest : remove f (w r) ≡ xs = rw is (ground arith) in
      let (pair, run, inv) = take_sender f f xs is first in
      let c = subst (Chain (views k) (k.procs r).q_sending) is (v.chain r rb) in
      let run' =
        subst (λ p. accept r f p m k ≡ ok tt (received r f m (accepted r f p k.procs) k)) head
          run in
      let inv' =
        subst
          (λ p.
            Inv (views (received r f m (accepted r f p k.procs) k)) (update w r (remove f (w r))))
          head inv in
      (
        receive_first k r f m ne quiet c.0 pair (received r f m (accepted r f none k.procs) k) run',
        subst (λ l. Inv (views (received r f m (accepted r f none k.procs) k)) (update w r l)) rest
            inv',
      )

  -- The invariant holds, and the ready process `r` gives an address `m` that is not 0. It receives
  -- from `f`, which is in its queue, wherever it stands there: `msg_receive` copies the message of
  -- `f` to `m`, returns 0, and the invariant holds with `f` taken from the queue.
  pub msg_receive-from :
      (f : ℕ)
      → f < nr_all
      → has f (w r) ≡ true
      → (k' : Kernel) × (msg_receive r f m k ≡ ok 0 k')
        × Inv (views k') (update w r (remove f (w r)))
        × (k'.mem ≡ update k.mem (linear k r m) (k.mem (linear k f (k.procs f).p_msg)))
  msg_receive-from f fb e = elim (List-cases (w r)) [
    | inl none_is ↦ let t : has f (w r) ≡ false = ap (has f) none_is in cc
    | inr (x, xs, is) ↦
        let (pair, run, inv) = take_sender f x xs is e in
        let (h, to, ne) = member_sends f e in
        let sends : is_sending (views k f) ≡ true = ap (λ g. has_flag g sending) h.flags in
        let c = subst (Chain (views k) (k.procs r).q_sending) is (v.chain r rb) in
        let chain = subst (λ q. Chain (views k) q (x ∷ xs)) c.0 c in
        let found =
          find_sending-pred k f sends rounds none (some x) (x ∷ xs)
            (omega (arith, length-queue v r rb, ap length is)) chain in
        let k' : Kernel = received r f m (accepted r f (pred f none (x ∷ xs)) k.procs) k in
        (
          k',
          receive_found k r f m x (pred f none (x ∷ xs)) fb ne sends to c.0 found pair k' run,
          inv,
          refl,
        )
  ]
