-- ===== src/Kernel/Ipc/Enqueue.antt =====
-- What the part of `msg_send` does that puts the sender in the queue of a process.
use bird_os.Prelude.{
  ℕ, zero, suc, ◌≤◌, ◌<◌, ◌≡◌, refl, ap, ◌∙◌, ◌≢◌, false, none, some, List, [], ◌∷◌, ◌==◌, arith,
  update, length,
}
use bird_os.Kernel.Types.{Proc, Kernel, ok, sending, nr_all}
use bird_os.Kernel.Sched.{schedule}
use bird_os.Kernel.Sched.Frame.{view, views, schedule-Frame}
use bird_os.Kernel.Ipc.Chains.{Procs, has, Chain, Chain-cong, last, ne_of_has, has-last}
use bird_os.Kernel.Ipc.Inv.{IsIdle}
use bird_os.Kernel.Ipc.Join.{Joined, IsLinked}
use bird_os.Kernel.Ipc.Deliver.{eq_self, update_self}
use bird_os.Kernel.Ipc.{last_sending, append_sending, enqueue, block, rounds}

-- `s` is linked behind the last process of the queue `xs` of `dest`.
abbrev pub link : Procs → ℕ → ℕ → List ℕ → Procs
link ps s dest [] = update ps dest (record (ps dest) { q_sending = some s })
link ps s dest (y ∷ ys) = update ps (last y ys) (record (ps (last y ys)) { next_sending = some s })

abbrev pub linked : Procs → ℕ → ℕ → List ℕ → Procs
linked ps s dest xs = let b = link ps s dest xs in update b s (record (b s) { next_sending = none })

-- The process `p` that waits to send the message `m` to `dest`.
abbrev pub asking : ℕ → ℕ → Proc → Proc
asking dest m p = record p { p_flags = sending; p_sendto = dest; p_msg = m }

abbrev pub queued : ℕ → ℕ → ℕ → List ℕ → Procs → Procs
queued s dest m xs ps = linked (update ps s (asking dest m (ps s))) s dest xs

last_sending-last :
    (k : Kernel) (fuel x : ℕ) (xs : List ℕ)
    → length xs < fuel
    → Chain k.procs (k.procs x).next_sending xs
    → last_sending fuel x k ≡ ok (last x xs) k
unfolding last_sending
last_sending-last k zero x xs b c = absurd (omega arith)
last_sending-last k (suc fuel) x [] b c = rw c refl
last_sending-last k (suc fuel) x (y ∷ ys) b c =
    rw c.0 (last_sending-last k fuel y ys (omega arith) c.1)

append_sending-linked :
    (k : Kernel) (s dest : ℕ) (xs : List ℕ)
    → length xs ≤ nr_all
    → Chain k.procs (k.procs dest).q_sending xs
    → append_sending s dest k ≡ ok tt (record k { procs = linked k.procs s dest xs })
unfolding append_sending
append_sending-linked k s dest [] b c = rw c refl
append_sending-linked k s dest (y ∷ ys) b c =
    rw (c.0, last_sending-last k rounds y ys (omega arith) c.1) refl

queued-IsLinked :
    (ps : Procs) (s dest m : ℕ) (xs : List ℕ)
    → s ≢ dest
    → has s xs ≡ false
    → IsLinked ps (λ x. view (queued s dest m xs ps x)) s dest xs
queued-IsLinked ps s dest m [] ne out = (ground arith, λ x n. ground arith)
queued-IsLinked ps s dest m (y ∷ ys) ne out =
    let l_ne = ne_of_has s (last y ys) (y ∷ ys) out (has-last y ys) in
    (ground arith, ground arith, λ x n n'. ground arith)

pub queued-Joined :
    (ps : Procs) (s dest m : ℕ) (xs : List ℕ)
    → s ≢ dest
    → has s xs ≡ false
    → Joined ps (λ x. view (queued s dest m xs ps x)) s dest m xs
queued-Joined ps s dest m xs ne out = record {
  flags = ground arith;
  msg = ground arith;
  recvfrom = ground arith;
  sendto = ground arith;
  next = ground arith;
  ldt = λ x. ground arith;
  other = λ x n. ground arith;
  queues = λ d n. ground arith;
  linked = queued-IsLinked ps s dest m xs ne out;
}

-- The sender joins the queue, and `schedule` has the rest of the call.
pub enqueue-queued :
    (k : Kernel) (s dest m : ℕ) (xs : List ℕ)
    → s ≢ dest
    → IsIdle (views k s)
    → m ≢ 0
    → length xs ≤ nr_all
    → has s xs ≡ false
    → Chain (views k) (k.procs dest).q_sending xs
    → enqueue s dest m k ≡ ok tt (schedule (record k { procs = queued s dest m xs k.procs }))
unfolding enqueue block
enqueue-queued k s dest m xs ne i m0 b out c =
    let asked : Kernel = record k { procs = update k.procs s (asking dest m (k.procs s)) } in
    let stays : (x : ℕ) → (asked.procs x).next_sending ≡ (k.procs x).next_sending =
      λ x. ground arith in
    let q_stays : (asked.procs dest).q_sending ≡ (k.procs dest).q_sending = ground arith in
    let c' : Chain asked.procs (asked.procs dest).q_sending xs =
      rw q_stays
        (Chain-cong (views k) asked.procs (k.procs dest).q_sending xs (λ x _. stays x) c) in
    simp (eq_self s, i.flags, update_self)
      (rw (append_sending-linked asked s dest xs b c') (
        let end : Kernel = record k { procs = linked asked.procs s dest xs } in
        let j = queued-Joined k.procs s dest m xs ne out in
        let same = (schedule-Frame end).views_eq in
        let flags = ap (λ f. (f s).p_flags) same ∙ j.flags in
        let msg = ap (λ f. (f s).p_msg) same ∙ j.msg in
        let from = ap (λ f. (f s).p_recvfrom) same ∙ j.recvfrom ∙ i.recvfrom in
        let to = ap (λ f. (f s).p_sendto) same ∙ j.sendto in
        let given : (m == 0) ≡ false = ground arith in
        rw (j.flags, flags, msg, from, to, given, eq_self dest) refl))

pub queued-view :
    (ps : Procs) (s dest m : ℕ) (xs : List ℕ) (x : ℕ)
    → view (queued s dest m xs (λ y. view (ps y)) x) ≡ view (queued s dest m xs ps x)
queued-view ps s dest m [] x = ground arith
queued-view ps s dest m (y ∷ ys) x = ground arith
