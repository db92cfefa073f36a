-- ===== src/Kernel/Ipc/Inv.antt =====
-- The invariant of message passing, and that the four changes that it makes to the processes keep
-- it: a message is delivered, a sender joins a queue, a sender is taken out of a queue, a receiver
-- begins to wait.
use bird_os.Prelude.{
  ℕ, zero, suc, ◌+◌, ◌<◌, ◌^◌, ◌≡◌, refl, ap, ◌∙◌, ◌≢◌, ◌⊎◌, inl, inr, ◌&&◌, List, ◌==◌, arith,
  update, ltb, Bool-cases,
}
use bird_os.Kernel.Types.{
  Proc, sending, receiving, free_slot, no_task, nr_all, nr_tasks, nr_native_procs, ldt_seg_linear,
}
use bird_os.Kernel.Ipc.Chains.{Procs, is_sending, has, IsNodup, Depth, Chain, Chain-cong}

-- The states that a process is in between two kernel calls: ready, sending, receiving, not in use.
pub record IsIdle (p : Proc) : Type 0 where
  pub flags : p.p_flags ≡ 0
  pub msg : p.p_msg ≡ 0
  pub recvfrom : p.p_recvfrom ≡ no_task
  pub sendto : p.p_sendto ≡ no_task

pub record IsSender (p : Proc) : Type 0 where
  pub flags : p.p_flags ≡ sending
  pub msg : p.p_msg ≢ 0
  pub msg_in : p.p_msg < 2 ^ 32
  pub recvfrom : p.p_recvfrom ≡ no_task
  pub sendto : p.p_sendto < nr_all

pub record IsReceiver (p : Proc) : Type 0 where
  pub flags : p.p_flags ≡ receiving
  pub msg : p.p_msg ≢ 0
  pub msg_in : p.p_msg < 2 ^ 32
  pub recvfrom : p.p_recvfrom ≢ no_task
  pub sendto : p.p_sendto ≡ no_task

pub record IsFree (p : Proc) : Type 0 where
  pub flags : p.p_flags ≡ free_slot

abbrev pub IsSettled : Proc → Type 0
IsSettled p = IsIdle p ⊎ IsSender p ⊎ IsReceiver p ⊎ IsFree p

-- Whether a process is settled depends on these four fields.
pub IsSettled-same :
    (p p' : Proc)
    → (p'.p_flags ≡ p.p_flags)
      × (p'.p_msg ≡ p.p_msg)
      × (p'.p_recvfrom ≡ p.p_recvfrom)
      × (p'.p_sendto ≡ p.p_sendto)
    → IsSettled p
    → IsSettled p'
IsSettled-same p p' o (inl h) = inl (record {
  flags = o.0 ∙ h.flags;
  msg = o.1 ∙ h.msg;
  recvfrom = o.2 ∙ h.recvfrom;
  sendto = o.3 ∙ h.sendto;
})
IsSettled-same p p' o (inr (inl h)) = inr (
    inl (record {
      flags = o.0 ∙ h.flags;
      msg = rw o.1 h.msg;
      msg_in = rw o.1 h.msg_in;
      recvfrom = o.2 ∙ h.recvfrom;
      sendto = rw o.3 h.sendto;
    }))
IsSettled-same p p' o (inr (inr (inl h))) = inr (
    inr (
      inl (record {
        flags = o.0 ∙ h.flags;
        msg = rw o.1 h.msg;
        msg_in = rw o.1 h.msg_in;
        recvfrom = rw o.2 h.recvfrom;
        sendto = o.3 ∙ h.sendto;
      })))
IsSettled-same p p' o (inr (inr (inr h))) = inr (inr (inr (record { flags = o.0 ∙ h.flags })))

-- `w d` is the sending queue of process `d`, first in front.
pub record Inv (ps : Procs) (w : ℕ → List ℕ) : Type 0 where
  pub flat : (p : ℕ) → p < nr_tasks + nr_native_procs → ldt_seg_linear (ps p).ldt_rw ≡ 0
  pub settled : (p : ℕ) → p < nr_all → IsSettled (ps p)
  pub chain : (d : ℕ) → d < nr_all → Chain ps (ps d).q_sending (w d)
  pub member :
      (d x : ℕ)
      → d < nr_all
      → has x (w d) ≡ (ltb x nr_all && is_sending (ps x) && ((ps x).p_sendto == d))
  pub nodup : (d : ℕ) → d < nr_all → IsNodup (w d)
  pub ends : (p : ℕ) → p < nr_all → (n : ℕ) × Depth ps n p

-- Two tables with the same queues and the same senders.
pub record SameLinks (p p' : Proc) : Type 0 where
  pub ldt : p'.ldt_rw ≡ p.ldt_rw
  pub q : p'.q_sending ≡ p.q_sending
  pub next : p'.next_sending ≡ p.next_sending
  pub sends : is_sending p' ≡ is_sending p
  pub to : p'.p_sendto ≡ p.p_sendto

Depth-same :
    (ps ps' : Procs) (n p : ℕ) → ((x : ℕ) → SameLinks (ps x) (ps' x)) → Depth ps n p → Depth ps' n p
Depth-same ps ps' zero p h d = (h p).sends ∙ d
Depth-same ps ps' (suc n) p h d =
    let e = (h p).to in
    ((h p).sends ∙ d.0, rw e d.1, rw e (Depth-same ps ps' n (ps p).p_sendto h d.2))

pub Inv-same :
    {ps : Procs} {w : ℕ → List ℕ} (ps' : Procs)
    → Inv ps w
    → ((x : ℕ) → SameLinks (ps x) (ps' x))
    → ((p : ℕ) → p < nr_all → IsSettled (ps' p))
    → Inv ps' w
Inv-same {ps} {w} ps' v h settled = record {
  flat = λ p b. ap ldt_seg_linear (h p).ldt ∙ v.flat p b;
  settled = settled;
  chain = λ d b.
      rw (h d).q (Chain-cong ps ps' (ps d).q_sending (w d) (λ x _. (h x).next) (v.chain d b));
  member = λ d x b. v.member d x b ∙ ground (arith, h x);
  nodup = v.nodup;
  ends = λ p b. ((v.ends p b).0, Depth-same ps ps' (v.ends p b).0 p h (v.ends p b).1);
}

-- `dest` gets its message and runs again; a receiver begins to wait.
abbrev pub woken : Proc → Proc
woken p = record p { p_msg = 0; p_flags = 0; p_recvfrom = no_task }

abbrev pub waiting : ℕ → ℕ → Proc → Proc
waiting m src p = record p { p_flags = receiving; p_msg = m; p_recvfrom = src }

module _ {ps : Procs} {w : ℕ → List ℕ} (v : Inv ps w) where
  pub Inv-woken : (d : ℕ) → IsReceiver (ps d) → Inv (update ps d (woken (ps d))) w
  Inv-woken d r = Inv-same (update ps d (woken (ps d))) v links settled
    where
      links : (x : ℕ) → SameLinks (ps x) (update ps d (woken (ps d)) x)
      links x = ground (arith, r)

      settled : (p : ℕ) → p < nr_all → IsSettled (update ps d (woken (ps d)) p)
      settled p b = elim (Bool-cases (p == d)) [
        | inl e ↦
            rw e (inl (record { flags = refl; msg = refl; recvfrom = refl; sendto = r.sendto }))
        | inr ne ↦ rw ne (v.settled p b)
      ]

  pub Inv-waiting :
      (r m src : ℕ)
      → IsIdle (ps r)
      → m ≢ 0
      → m < 2 ^ 32
      → src ≢ no_task
      → Inv (update ps r (waiting m src (ps r))) w
  Inv-waiting r m src i m0 mb s0 = Inv-same (update ps r (waiting m src (ps r))) v links settled
    where
      links : (x : ℕ) → SameLinks (ps x) (update ps r (waiting m src (ps r)) x)
      links x = ground (arith, i)

      settled : (p : ℕ) → p < nr_all → IsSettled (update ps r (waiting m src (ps r)) p)
      settled p b = elim (Bool-cases (p == r)) [
        | inl e ↦ rw e (
            inr (
              inr (
                inl (record {
                  flags = refl;
                  msg = m0;
                  msg_in = mb;
                  recvfrom = s0;
                  sendto = i.sendto;
                }))))
        | inr ne ↦ rw ne (v.settled p b)
      ]
