-- ===== src/Kernel/Ipc/Wait.antt =====
-- `msg_receive` where no sender is taken, and `inform_int`: a receiver waits, takes a pending
-- interrupt, or is woken by one.
use mathlib.Core.Path.{fun_ext, subst}
use bird_os.Prelude.{
  ℕ, ◌^◌, ◌<◌, ◌≡◌, refl, ap, ◌∙◌, sym, ◌≢◌, inl, inr, Bool, true, false, ◌&&◌, ◌||◌, none, List,
  [], ◌==◌, arith, update, ltb, ◌⊎◌, if◌then◌else◌,
}
use bird_os.Kernel.Types.{
  Proc, Kernel, Run, ok, halted, pure, and_then, receiving, nr_all, has_flag, no_task, any,
  interrupt, hard_int, short_message, va2la,
}
use bird_os.Kernel.Sched.{schedule}
use bird_os.Kernel.Sched.Frame.{views, schedule-Frame}
use bird_os.Kernel.Ipc.Chains.{is_sending, has, Chain}
use bird_os.Kernel.Ipc.Inv.{
  Inv, Inv-same, Inv-waiting, Inv-woken, IsIdle, IsSettled, IsSettled-same, SameLinks, waiting,
  woken,
}
use bird_os.Kernel.Ipc.Deliver.{eq_self, update_self, linear, va2la-linear}
use bird_os.Kernel.Ipc.Receive.{await-waiting}
use bird_os.Kernel.Ipc.Send.{apart, Inv-views, IsReceiver-of}
use bird_os.Kernel.Ipc.{msg_receive, await, take_interrupt, inform_int}

-- Nobody sends what `r`, whose queue is `xs`, receives with the argument `src`.
abbrev pub IsSilent : ℕ → List ℕ → Type 0
IsSilent src xs =
    ((src ≡ any) × (xs ≡ [])) ⊎ ((src < nr_all) × (has src xs ≡ false)) ⊎ (src ≡ interrupt)

receive_waits :
    (k : Kernel) (r src m : ℕ)
    → r ≢ src
    → ((k.procs r).has_int_msg && ((src == any) || (src == interrupt))) ≡ false
    → ((src ≡ any) × ((k.procs r).q_sending ≡ none))
      ⊎ ((src < nr_all) × ((is_sending (k.procs src) && ((k.procs src).p_sendto == r)) ≡ false))
      ⊎ (src ≡ interrupt)
    → (run : Run (Unit {0})) → await r src m k ≡ run
    → msg_receive r src m k ≡ and_then run (λ _. pure 0)
unfolding msg_receive
receive_waits k r src m ne skip (inl (is, q)) run e =
    let one : (src == any) ≡ true = ground arith in
    let e' = subst (λ z. await r z m k ≡ run) is e in rw (apart r src ne, skip, one, q, e') refl
receive_waits k r src m ne skip (inr (inl (b, out))) run e =
    let one : (src == any) ≡ false = ground arith in
    let low : ltb src nr_all ≡ true = ground arith in
    rw (apart r src ne, skip, one, low, out, e) refl
receive_waits k r src m ne skip (inr (inr is)) run e =
    let one : (src == any) ≡ false = ground arith in
    let low : ltb src nr_all ≡ false = ground arith in rw (apart r src ne, skip, one, low, e) refl

-- The kernel with the mark for a pending interrupt of `r` set or cleared.
abbrev pub marked : Bool → ℕ → Kernel → Kernel
marked b r k = record k { procs = update k.procs r (record (k.procs r) { has_int_msg = b }) }

pub Inv-marked :
    (k : Kernel) {w : ℕ → List ℕ} (b : Bool) (r : ℕ)
    → Inv (views k) w
    → Inv (views (marked b r k)) w
Inv-marked k b r v = Inv-same (views (marked b r k)) v links settled
  where
    links : (x : ℕ) → SameLinks (views k x) (views (marked b r k) x)
    links x = ground arith

    settled : (p : ℕ) → p < nr_all → IsSettled (views (marked b r k) p)
    settled p l =
        IsSettled-same (views k p) (views (marked b r k) p)
          (ground arith, ground arith, ground arith, ground arith) (v.settled p l)

receive_interrupt :
    (k : Kernel) (r src m : ℕ)
    → r ≢ src
    → (k.procs r).has_int_msg ≡ true
    → ((src == any) || (src == interrupt)) ≡ true
    → (k' : Kernel) → take_interrupt r m k ≡ ok tt k'
    → msg_receive r src m k ≡ ok 0 k'
unfolding msg_receive
receive_interrupt k r src m ne pending asked k' run = rw (apart r src ne, pending, asked, run) refl

take_interrupt-taken :
    (k : Kernel) (r m : ℕ)
    → IsIdle (views k r)
    → m ≢ 0
    → va2la r m k ≡ ok (linear k r m) k
    → take_interrupt r m k
      ≡ ok tt (
          marked false r
            (record k { mem = update k.mem (linear k r m) (short_message interrupt hard_int) }))
unfolding take_interrupt
take_interrupt-taken k r m i m0 to =
    let t0 : (m == 0) ≡ false = ground arith in
    rw (t0, to) (simp (eq_self r, i.flags, i.msg, i.sendto) refl)

module _ (k : Kernel) {w : ℕ → List ℕ} (v : Inv (views k) w) (r m : ℕ) (rb : r < nr_all)
    (i : IsIdle (views k r)) (m0 : m ≢ 0) (mb : m < 2 ^ 32) where
  silent :
      (src : ℕ)
      → IsSilent src (w r)
      → ((src ≡ any) × ((k.procs r).q_sending ≡ none))
        ⊎ ((src < nr_all) × ((is_sending (k.procs src) && ((k.procs src).p_sendto == r)) ≡ false))
        ⊎ (src ≡ interrupt)
  silent src (inl (is, e)) =
      inl (is, subst (Chain (views k) (k.procs r).q_sending) e (v.chain r rb))
  silent src (inr (inl (b, out))) =
      let low : ltb src nr_all ≡ true = ground arith in
      inr (inl (b, ground (arith, v.member r src rb)))
  silent src (inr (inr is)) = inr (inr is)

  -- The invariant holds, and the ready process `r` gives an address `m` that is not 0. Nobody
  -- sends what it asks for, and no interrupt is pending for it: `msg_receive` makes it wait with
  -- the address `m`, changes nothing else before it calls `schedule`, and returns 0. The invariant
  -- and the messages in memory are kept, and it still waits so after `schedule`.
  pub msg_receive-waits :
      (src : ℕ)
      → r ≢ src
      → (k.procs r).has_int_msg ≡ false
      → IsSilent src (w r)
      → (k' : Kernel) × (msg_receive r src m k ≡ ok 0 k')
        × Inv (views k') w
        × (views k' r ≡ waiting m src (views k r))
        × (k'.mem ≡ k.mem)
        × (k' ≡ schedule (record k { procs = update k.procs r (waiting m src (k.procs r)) }))
  msg_receive-waits src ne quiet h =
      let s0 : src ≢ no_task = ground arith in
      let end : Kernel = record k { procs = update k.procs r (waiting m src (k.procs r)) } in
      let f = schedule-Frame end in
      let run =
        await-waiting k r src m i m0 s0
        ∙ ap (λ b. if b then halted else ok tt (schedule end)) quiet in
      let same : update (views k) r (waiting m src (views k r)) ≡ views (schedule end) =
        fun_ext (λ x. ground arith) ∙ sym f.views_eq in
      (
        schedule end,
        receive_waits k r src m ne (ground arith) (silent src h) (ok tt (schedule end)) run,
        Inv-views (schedule end) same (Inv-waiting v r m src i m0 mb s0),
        ap (λ g. g r) f.views_eq ∙ ground arith,
        f.mem_eq,
        refl,
      )

  -- The invariant holds, and the ready process `r` gives an address `m` that is not 0. An
  -- interrupt is pending for it, and it receives from anyone or from INTERRUPT: `msg_receive`
  -- stores a message of type HARD_INT at `m`, clears the mark of the pending interrupt, changes
  -- nothing else, returns 0 and keeps the invariant.
  pub msg_receive-interrupt :
      (src : ℕ)
      → r ≢ src
      → (k.procs r).has_int_msg ≡ true
      → ((src == any) || (src == interrupt)) ≡ true
      → (k' : Kernel) × (msg_receive r src m k ≡ ok 0 k')
        × Inv (views k') w
        × (k'.mem ≡ update k.mem (linear k r m) (short_message interrupt hard_int))
        × ((k'.procs r).has_int_msg ≡ false)
        × (k' ≡ marked false r (record k { mem = k'.mem }))
  msg_receive-interrupt src ne pending asked =
      let stored : Kernel = record k {
        mem = update k.mem (linear k r m) (short_message interrupt hard_int);
      } in
      let run = take_interrupt-taken k r m i m0 (va2la-linear k r m (v.flat r) mb) in
      (
        marked false r stored,
        receive_interrupt k r src m ne pending asked (marked false r stored) run,
        Inv-marked k false r v,
        refl,
        ground arith,
        refl,
      )

module _ (k : Kernel) {w : ℕ → List ℕ} (v : Inv (views k) w) (r m : ℕ) (rb : r < nr_all)
    (i : IsIdle (views k r)) (m0 : m ≢ 0) (mb : m < 2 ^ 32) where
  marked-IsIdle : IsIdle (views (marked false r k) r)
  marked-IsIdle = record {
    flags = ground (arith, i.flags);
    msg = ground (arith, i.msg);
    recvfrom = ground (arith, i.recvfrom);
    sendto = ground (arith, i.sendto);
  }

  -- The invariant holds, and the ready process `r` gives an address `m` that is not 0. An
  -- interrupt is pending for it, and it receives from another process that does not send to it:
  -- `msg_receive` halts. It is the mark of the pending interrupt alone that makes it do so: with
  -- the mark cleared the same call returns 0, and `r` then waits.
  msg_receive-halts :
      (src : ℕ)
      → r ≢ src
      → (k.procs r).has_int_msg ≡ true
      → src < nr_all
      → has src (w r) ≡ false
      → (msg_receive r src m k ≡ halted)
        × ((k' : Kernel) × (msg_receive r src m (marked false r k) ≡ ok 0 k')
            × (views k' r ≡ waiting m src (views (marked false r k) r)))
  msg_receive-halts src ne pending b out =
      let skip : ((k.procs r).has_int_msg && ((src == any) || (src == interrupt))) ≡ false =
        ground arith in
      let end : Kernel = record k { procs = update k.procs r (waiting m src (k.procs r)) } in
      let run =
        await-waiting k r src m i m0 (omega arith)
        ∙ ap (λ b. if b then halted else ok tt (schedule end)) pending in
      let clear : ((marked false r k).procs r).has_int_msg ≡ false = ground arith in
      let (k', e, _, waits, _, _) =
        msg_receive-waits (marked false r k) (Inv-marked k false r v) r m rb marked-IsIdle m0 mb src
          ne clear (inr (inl (b, out))) in
      (
        receive_waits k r src m ne skip (silent k v r m rb i m0 mb src (inr (inl (b, out)))) halted
            run,
        (k', e, waits),
      )

-- Process `t` waits for an interrupt or for anyone.
abbrev pub is_open : Proc → Bool
is_open p = has_flag p.p_flags receiving && ((p.p_recvfrom == interrupt) || (p.p_recvfrom == any))

-- The kernel when `t` has got the interrupt.
abbrev pub informed : ℕ → Kernel → Kernel
informed t k = record k {
  mem =
      update k.mem (k.procs t).p_msg
        (record (k.mem (k.procs t).p_msg) { source = interrupt; kind = hard_int });
  procs = update k.procs t (record (woken (k.procs t)) { has_int_msg = false });
}

module _ (k : Kernel) {w : ℕ → List ℕ} (v : Inv (views k) w) (t : ℕ) (tb : t < nr_all) where
  -- The invariant holds, and process `t` waits for an interrupt or for anyone: `inform_int` marks
  -- the message where `t` wants it as a HARD_INT from INTERRUPT, wakes `t`, changes nothing else,
  -- and keeps the invariant.
  pub inform_int-wakes :
      is_open (k.procs t) ≡ true
      → (inform_int t k ≡ ok tt (informed t k)) × Inv (views (informed t k)) w
  unfolding inform_int
  inform_int-wakes waits =
      let r = IsReceiver-of (views k t) (v.settled t tb) (ground arith) in
      let woke : Kernel = record k { procs = update k.procs t (woken (k.procs t)) } in
      let same : update (views k) t (woken (views k t)) ≡ views woke = fun_ext λ x. ground arith in
      let clear : views (marked false t woke) ≡ views (informed t k) = fun_ext λ x. ground arith in
      (
        rw waits (simp (eq_self t, r.flags, r.sendto, update_self) refl),
        Inv-views (informed t k) clear
            (Inv-marked woke false t (Inv-views woke same (Inv-woken v t r))),
      )

  -- The invariant holds, and process `t` does not wait for an interrupt or for anyone:
  -- `inform_int` sets its mark, changes nothing else, and keeps the invariant.
  pub inform_int-marks :
      is_open (k.procs t) ≡ false
      → (inform_int t k ≡ ok tt (marked true t k)) × Inv (views (marked true t k)) w
  unfolding inform_int
  inform_int-marks busy = (rw busy refl, Inv-marked k true t v)
