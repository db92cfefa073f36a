-- ===== src/Kernel/Ipc.antt =====
-- Message passing: `deadlock`, `msg_send`, `msg_receive`, `inform_int` and `sys_sendrec` of
-- kernel/proc.c. Every `assert` is in the model. The loops follow pointers through `proc_table`,
-- which has 25 entries, and are given one round more.
pub mod Accept
pub mod Calls
pub mod Chains
pub mod Deadlock
pub mod Deliver
pub mod Enqueue
pub mod Inv
pub mod Join
pub mod Leave
pub mod Receive
pub mod Send
pub mod Scenes
mod Tests
pub mod Wait
use bird_os.Prelude.{
  ℕ, zero, suc, Bool, true, false, ◌&&◌, ◌||◌, not, Option, none, some, ◌==◌, ltb, if◌then◌else◌,
}
use bird_os.Kernel.Types.{
  Message, short_message, Proc, Kernel, Run, ok, halted, looping, Code, pure, ◌>>=◌, ◌>>◌, panic,
  assert, get, proc_of, modify, store, va2la, sending, receiving, any, no_task, interrupt, hard_int,
  nr_all, has_flag, set_flag, clear_flag, send, receive,
}
use bird_os.Kernel.Sched.{schedule}

abbrev pub rounds : ℕ
rounds = 26

-- `p == q` for pointers to processes
abbrev pub is_proc : Option ℕ → ℕ → Bool
is_proc none q = false
is_proc (some p) q = p == q

abbrev pub is_some : Option ℕ → Bool
is_some none = false
is_some (some p) = true

-- `block`; `p` is the process to be blocked.
pub block : ℕ → Code (Unit {0})
block p = do pr ← proc_of p; assert (not (pr.p_flags == 0)); (λ k. ok tt (schedule k))

-- `unblock`
pub unblock : ℕ → Code (Unit {0})
unblock p = do pr ← proc_of p; assert (pr.p_flags == 0)

-- The loop of `deadlock` that prints the chain from `p` to `src`.
pub print_chain : ℕ → ℕ → ℕ → Code (Unit {0})
print_chain zero src p = λ _. looping
print_chain (suc fuel) src p = do
  pr ← proc_of p
  assert (not (pr.p_msg == 0))
  if pr.p_sendto == src then pure tt else print_chain fuel src pr.p_sendto

-- The loop of `deadlock` at process `p`.
pub deadlock_loop : ℕ → ℕ → ℕ → ℕ → Code Bool
unfolding print_chain
deadlock_loop zero src dest p = λ _. looping
deadlock_loop (suc fuel) src dest p = do
  pr ← proc_of p
  if has_flag pr.p_flags sending
      then (if pr.p_sendto == src
          then (print_chain rounds src dest >> pure true)
          else deadlock_loop fuel src dest pr.p_sendto)
      else pure false

pub deadlock : ℕ → ℕ → Code Bool
unfolding deadlock_loop
deadlock src dest = deadlock_loop rounds src dest dest

-- `while (p->next_sending) p = p->next_sending;`
pub last_sending : ℕ → ℕ → Code ℕ
last_sending zero p = λ _. looping
last_sending (suc fuel) p = do
  pr ← proc_of p
  elim pr.next_sending [ none ↦ pure p | some n ↦ last_sending fuel n ]

-- Append a process to the sending queue of `dest`.
pub append_sending : ℕ → ℕ → Code (Unit {0})
unfolding last_sending
append_sending sender dest = do
  d ← proc_of dest
  (elim d.q_sending [
    | some p ↦
        last_sending rounds p >>= λ l. modify l (λ r. record r { next_sending = some sender })
    | none ↦ modify dest (λ r. record r { q_sending = some sender })
  ])
  modify sender (λ r. record r { next_sending = none })

-- `msg_send` where `dest` waits for the message: it is copied, and `dest` runs again.
pub deliver : ℕ → ℕ → ℕ → Code (Unit {0})
unfolding unblock
deliver s dest m = do
  d ← proc_of dest
  assert (not (d.p_msg == 0))
  assert (not (m == 0))
  to ← va2la dest d.p_msg
  from ← va2la s m
  k ← get
  store to (k.mem from)
  modify dest (λ r. record r { p_msg = 0 })
  modify dest (λ r. record r { p_flags = clear_flag r.p_flags receiving })
  modify dest (λ r. record r { p_recvfrom = no_task })
  unblock dest
  d ← proc_of dest
  assert (d.p_flags == 0)
  assert (d.p_msg == 0)
  assert (d.p_recvfrom == no_task)
  assert (d.p_sendto == no_task)
  p ← proc_of s
  assert (p.p_flags == 0)
  assert (p.p_msg == 0)
  assert (p.p_recvfrom == no_task)
  assert (p.p_sendto == no_task)

-- `msg_send` where it does not: the sender joins the queue and is blocked.
pub enqueue : ℕ → ℕ → ℕ → Code (Unit {0})
unfolding block
enqueue s dest m = do
  modify s (λ r. record r { p_flags = set_flag r.p_flags sending })
  p ← proc_of s
  assert (p.p_flags == sending)
  modify s (λ r. record r { p_sendto = dest })
  modify s (λ r. record r { p_msg = m })
  append_sending s dest
  block s
  p ← proc_of s
  assert (p.p_flags == sending)
  assert (not (p.p_msg == 0))
  assert (p.p_recvfrom == no_task)
  assert (p.p_sendto == dest)

-- `dest` is waiting for a message from `s`.
abbrev pub awaits : Proc → ℕ → Bool
awaits d s = has_flag d.p_flags receiving && ((d.p_recvfrom == s) || (d.p_recvfrom == any))

pub msg_send : ℕ → ℕ → ℕ → Code ℕ
unfolding deadlock deliver append_sending enqueue
msg_send s dest m = do
  assert (not (s == dest))
  stuck ← deadlock s dest
  (if stuck
      then panic
      else do d ← proc_of dest; if awaits d s then deliver s dest m else enqueue s dest m)
  pure 0

-- The asserts that `msg_receive` makes of the two processes before it copies.
pub check_pair : ℕ → ℕ → Code (Unit {0})
check_pair r from = do
  p ← proc_of r
  assert (p.p_flags == 0)
  assert (p.p_msg == 0)
  assert (p.p_recvfrom == no_task)
  assert (p.p_sendto == no_task)
  assert (is_some p.q_sending)
  f ← proc_of from
  assert (f.p_flags == sending)
  assert (not (f.p_msg == 0))
  assert (f.p_recvfrom == no_task)
  assert (f.p_sendto == r)

-- The search for `src` in the sending queue, from `p` with its predecessor `prev`.
pub find_sending : ℕ → ℕ → Option ℕ → Option ℕ → Code (Option ℕ)
find_sending zero src prev p = λ _. looping
find_sending (suc fuel) src prev none = pure prev
find_sending (suc fuel) src prev (some p) = do
  f ← proc_of src
  assert (has_flag f.p_flags sending)
  if p == src then pure prev else do pr ← proc_of p; find_sending fuel src (some p) pr.next_sending

-- Take `from`, whose predecessor is `prev`, out of the sending queue of `r`.
pub unlink_sending : ℕ → ℕ → Option ℕ → Code (Unit {0})
unlink_sending r from prev = do
  p ← proc_of r
  f ← proc_of from
  (if is_proc p.q_sending from
      then (do assert (not (is_some prev)); modify r (λ x. record x { q_sending = f.next_sending }))
      else (do
        assert (is_some prev)
        elim prev [
          | none ↦ panic
          | some q ↦ modify q (λ x. record x { next_sending = f.next_sending })
        ]))
  modify from (λ x. record x { next_sending = none })

-- `copyok`: the message of `from` is copied to `m`, and `from` runs again.
pub accept : ℕ → ℕ → Option ℕ → ℕ → Code (Unit {0})
unfolding unblock
accept r from prev m = do
  unlink_sending r from prev
  f ← proc_of from
  assert (not (m == 0))
  assert (not (f.p_msg == 0))
  to ← va2la r m
  src ← va2la from f.p_msg
  k ← get
  store to (k.mem src)
  modify from (λ x. record x { p_msg = 0 })
  modify from (λ x. record x { p_sendto = no_task })
  modify from (λ x. record x { p_flags = clear_flag x.p_flags sending })
  unblock from

-- Nobody is sending: the receiver is blocked.
pub await : ℕ → ℕ → ℕ → Code (Unit {0})
unfolding block
await r src m = do
  modify r (λ x. record x { p_flags = set_flag x.p_flags receiving })
  modify r (λ x. record x { p_msg = m })
  modify r (λ x. record x { p_recvfrom = src })
  block r
  p ← proc_of r
  assert (p.p_flags == receiving)
  assert (not (p.p_msg == 0))
  assert (not (p.p_recvfrom == no_task))
  assert (p.p_sendto == no_task)
  assert (not p.has_int_msg)

-- A pending interrupt is handed over as a message of type HARD_INT.
pub take_interrupt : ℕ → ℕ → Code (Unit {0})
take_interrupt r m = do
  assert (not (m == 0))
  to ← va2la r m
  store to (short_message interrupt hard_int)
  modify r (λ x. record x { has_int_msg = false })
  p ← proc_of r
  assert (p.p_flags == 0)
  assert (p.p_msg == 0)
  assert (p.p_sendto == no_task)
  assert (not p.has_int_msg)

-- `msg_receive` with `src` ANY, and with `src` the number of a process
pub receive_any : ℕ → ℕ → Code (Unit {0})
receive_any r m = do
  p ← proc_of r
  elim p.q_sending [ some from ↦ check_pair r from >> accept r from none m | none ↦ await r any m ]

pub receive_from : ℕ → ℕ → ℕ → Code (Unit {0})
receive_from r src m = do
  f ← proc_of src
  if has_flag f.p_flags sending && (f.p_sendto == r)
      then (do
        p ← proc_of r
        assert (is_some p.q_sending)
        prev ← find_sending rounds src none p.q_sending
        check_pair r src
        accept r src prev m)
      else await r src m

pub msg_receive : ℕ → ℕ → ℕ → Code ℕ
unfolding take_interrupt receive_any receive_from
msg_receive r src m = do
  assert (not (r == src))
  p ← proc_of r
  (if p.has_int_msg && ((src == any) || (src == interrupt))
      then take_interrupt r m
      else if src == any
      then receive_any r m
      else if ltb src nr_all
      then receive_from r src m
      else await r src m)
  pure 0

-- `inform_int`: an interrupt for process `t`
pub inform_int : ℕ → Code (Unit {0})
unfolding unblock
inform_int t = do
  p ← proc_of t
  if has_flag p.p_flags receiving && ((p.p_recvfrom == interrupt) || (p.p_recvfrom == any))
      then (do
        k ← get
        store p.p_msg (record (k.mem p.p_msg) { source = interrupt; kind = hard_int })
        modify t (λ x. record x { p_msg = 0 })
        modify t (λ x. record x { has_int_msg = false })
        modify t (λ x. record x { p_flags = clear_flag x.p_flags receiving })
        modify t (λ x. record x { p_recvfrom = no_task })
        p ← proc_of t
        assert (p.p_flags == 0)
        unblock t
        p ← proc_of t
        assert (p.p_flags == 0)
        assert (p.p_msg == 0)
        assert (p.p_recvfrom == no_task)
        assert (p.p_sendto == no_task))
      else modify t (λ x. record x { has_int_msg = true })

-- `sys_sendrec`, called by process `caller`
pub sys_sendrec : ℕ → ℕ → ℕ → ℕ → Code ℕ
sys_sendrec function src_dest m caller = do
  k ← get
  assert (k.k_reenter == 0)
  assert (ltb src_dest nr_all || (src_dest == any) || (src_dest == interrupt))
  mla ← va2la caller m
  k ← get
  store mla (record (k.mem mla) { source = caller })
  assert (not (caller == src_dest))
  if function == send
      then msg_send caller src_dest m
      else if function == receive
      then msg_receive caller src_dest m
      else panic
