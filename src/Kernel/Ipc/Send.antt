-- ===== src/Kernel/Ipc/Send.antt =====
-- `msg_send` trips no assert: it delivers the message, or appends the sender to the queue of the
-- receiver, or panics because the message would close a cycle of waiting senders.
use mathlib.Core.Path.{fun_ext, subst}
use bird_os.Prelude.{
  ℕ, ◌++◌, ◌^◌, ◌≤◌, ◌<◌, ◌≡◌, refl, ap, ◌∙◌, sym, ◌≢◌, inl, inr, true, false, List, [], ◌∷◌, ◌==◌,
  arith, update, length,
}
use bird_os.Kernel.Types.{Proc, Kernel, ok, halted, sending, receiving, nr_all, has_flag}
use bird_os.Kernel.Sched.{schedule}
use bird_os.Kernel.Sched.Frame.{views, schedule-Frame}
use bird_os.Kernel.Ipc.Chains.{Procs, is_sending, reaches, reaches-Depth, has, length-IsNodup}
use bird_os.Kernel.Ipc.Inv.{Inv, IsReceiver, IsIdle, IsSettled, Inv-woken}
use bird_os.Kernel.Ipc.Join.{Inv-joined}
use bird_os.Kernel.Ipc.Deadlock.{deadlock-reaches}
use bird_os.Kernel.Ipc.Deliver.{delivered, deliver-delivered, va2la-linear}
use bird_os.Kernel.Ipc.Enqueue.{queued, enqueue-queued, queued-Joined, queued-view}
use bird_os.Kernel.Ipc.{msg_send, awaits}

-- A settled process with the flag RECEIVING is a receiver.
pub IsReceiver-of : (p : Proc) → IsSettled p → has_flag p.p_flags receiving ≡ true → IsReceiver p
IsReceiver-of p (inl h) e =
    let t : has_flag p.p_flags receiving ≡ false = ap (λ f. has_flag f receiving) h.flags in cc
IsReceiver-of p (inr (inl h)) e =
    let t : has_flag p.p_flags receiving ≡ false = ap (λ f. has_flag f receiving) h.flags in cc
IsReceiver-of p (inr (inr (inl h))) e = h
IsReceiver-of p (inr (inr (inr h))) e =
    let t : has_flag p.p_flags receiving ≡ false = ap (λ f. has_flag f receiving) h.flags in cc

-- A queue is no longer than the table of processes.
pub length-queue :
    {ps : Procs} {w : ℕ → List ℕ} → Inv ps w → (d : ℕ) → d < nr_all → length (w d) ≤ nr_all
length-queue {ps} {w} v d b =
    length-IsNodup nr_all (w d) (v.nodup d b) (λ x i. ground (arith, v.member d x b, i))

-- Two kernels with the same processes but for time slices and priorities.
pub Inv-views :
    {ps : Procs} {w : ℕ → List ℕ} (k : Kernel) → ps ≡ views k → Inv ps w → Inv (views k) w
Inv-views {w = w} k e v = subst (λ f. Inv f w) e v

pub apart : (s dest : ℕ) → s ≢ dest → (s == dest) ≡ false
apart s dest ne = ground arith

module _ (k : Kernel) {w : ℕ → List ℕ} (v : Inv (views k) w) (s dest m : ℕ) (sb : s < nr_all)
    (db : dest < nr_all) (ne : s ≢ dest) (idle : IsIdle (views k s)) (m0 : m ≢ 0)
    (mb : m < 2 ^ 32) where
  -- The invariant holds, the ready process `s` sends the message at an address `m` that is not 0
  -- to another process `dest`, and `dest` waits for a message from it or from anyone: `msg_send`
  -- copies the message to the address that `dest` gave, wakes `dest`, changes nothing else,
  -- returns 0 and keeps the invariant.
  pub msg_send-delivers :
      awaits (k.procs dest) s ≡ true
      → (msg_send s dest m k ≡ ok 0 (delivered s dest m k)) × Inv (views (delivered s dest m k)) w
  unfolding msg_send
  msg_send-delivers waits =
      let r = IsReceiver-of (views k dest) (v.settled dest db) (ground arith) in
      let idles : is_sending (views k dest) ≡ false = ap (λ f. has_flag f sending) r.flags in
      let (n, d) = v.ends dest db in
      let free = reaches-Depth (views k) n 0 dest s d idles in
      let to = va2la-linear k dest (k.procs dest).p_msg (v.flat dest) r.msg_in in
      let from = va2la-linear k s m (v.flat s) mb in
      let run = deliver-delivered k s dest m ne idle r m0 to from in
      (
        rw (apart s dest ne, deadlock-reaches k v s dest db, free, waits, run) refl,
        Inv-views (delivered s dest m k) (fun_ext λ x. ground arith) (Inv-woken v dest r),
      )

  -- The invariant holds, the ready process `s` sends the message at an address `m` that is not 0
  -- to another process `dest`; `dest` does not wait for the message, and the chain of waiting senders from
  -- `dest` does not come to one that sends to `s`: `msg_send` returns 0, the invariant holds with
  -- `s` at the end of the queue of `dest`, and no message in memory has changed.
  pub msg_send-queues :
      awaits (k.procs dest) s ≡ false
      → reaches (views k) (v.ends dest db).0 dest s ≡ false
      → (k' : Kernel) × (msg_send s dest m k ≡ ok 0 k')
        × Inv (views k') (update w dest (w dest ++ (s ∷ [])))
        × (k'.mem ≡ k.mem)
  unfolding msg_send
  msg_send-queues busy free =
      let end : Kernel = record k { procs = queued s dest m (w dest) k.procs } in
      let out : has s (w dest) ≡ false = v.member dest s db ∙ ground (arith, idle) in
      let run =
        enqueue-queued k s dest m (w dest) ne idle m0 (length-queue v dest db) out
          (v.chain dest db) in
      let joined = queued-Joined (views k) s dest m (w dest) ne out in
      let f = schedule-Frame end in
      (
        schedule end,
        rw (apart s dest ne, deadlock-reaches k v s dest db, free, busy, run) refl,
        Inv-views (schedule end) (fun_ext (queued-view k.procs s dest m (w dest)) ∙ sym f.views_eq)
            (Inv-joined v joined sb db ne idle m0 mb free),
        f.mem_eq,
      )

  -- The invariant holds, the ready process `s` sends the message at an address `m` that is not 0
  -- to another process `dest`; the chain of waiting senders from `dest` comes to one that sends to `s`:
  -- `msg_send` halts.
  pub msg_send-panics :
      reaches (views k) (v.ends dest db).0 dest s ≡ true → msg_send s dest m k ≡ halted
  unfolding msg_send
  msg_send-panics stuck = rw (apart s dest ne, deadlock-reaches k v s dest db, stuck) refl
