-- ===== src/Kernel/Ipc/Scenes.antt =====
-- Kernels to try message passing on: all processes ready, process 1 waiting for anyone, and
-- process 5 waiting to send to process 1.
use mathlib.Core.Path.{fun_ext}
use bird_os.Prelude.{ℕ, ◌<◌, ◌≡◌, refl, inl, true, false, none, List, [], ◌∷◌, arith, update}
use bird_os.Kernel.Types.{
  Descriptor, Proc, Queue, Kernel, short_message, no_task, any, nr_all, ldt_seg_linear,
}
use bird_os.Kernel.Sched.Frame.{views}
use bird_os.Kernel.Ipc.Chains.{Depth, reaches, reaches-Depth}
use bird_os.Kernel.Ipc.Inv.{Inv, IsIdle, waiting, Inv-waiting}
use bird_os.Kernel.Ipc.Join.{Inv-joined}
use bird_os.Kernel.Ipc.Enqueue.{queued, queued-Joined, queued-view}
use bird_os.Kernel.Ipc.Send.{Inv-views}

abbrev flat_segment : Descriptor
flat_segment = record {
  limit_low = 0xffff;
  base_low = 0;
  base_mid = 0;
  attr1 = 0xf2;
  limit_high_attr2 = 0xcf;
  base_high = 0;
}

abbrev pub ready_proc : Proc
ready_proc = record {
  ldt_rw = flat_segment;
  ticks = 0;
  priority = 0;
  kind = 0;
  p_flags = 0;
  p_msg = 0;
  p_recvfrom = no_task;
  p_sendto = no_task;
  has_int_msg = false;
  q_sending = none;
  next_sending = none;
}

abbrev empty_queue : Queue
empty_queue = record { p_head = 0; p_tail = 0; priority = 10; count = 0; buf = [] }

abbrev pub all_ready : Kernel
all_ready = record {
  procs = λ _. ready_proc;
  queues = λ _. empty_queue;
  ready = none;
  k_reenter = 0;
  mem = λ _. short_message 5 2000;
}

abbrev pub no_senders : ℕ → List ℕ
no_senders d = []

pub is_ready : IsIdle ready_proc
is_ready = record { flags = refl; msg = refl; recvfrom = refl; sendto = refl }

pub all_ready-Inv : Inv (views all_ready) no_senders
unfolding ldt_seg_linear
all_ready-Inv = record {
  flat = λ p b. refl;
  settled = λ p b. inl is_ready;
  chain = λ d b. refl;
  member = λ d x b. ground arith;
  nodup = λ d b. tt;
  ends = λ p b. (0, refl);
}

-- Process 1 waits for anyone, with the address 0x2000 for the message.
abbrev pub one_waits : Kernel
one_waits = record all_ready { procs = update all_ready.procs 1 (waiting 0x2000 any ready_proc) }

pub one_waits-Inv : Inv (views one_waits) no_senders
one_waits-Inv =
    Inv-views one_waits (fun_ext λ x. ground arith)
      (Inv-waiting all_ready-Inv 1 0x2000 any is_ready (omega arith) (omega arith) (omega arith))

-- No chain of senders leads to process 5.
pub free_5 : (b : 1 < nr_all) → reaches (views all_ready) (all_ready-Inv.ends 1 b).0 1 5 ≡ false
free_5 b = let (n, d) = all_ready-Inv.ends 1 b in reaches-Depth (views all_ready) n 0 1 5 d refl

-- Process 5 waits to send the message at 0x3000 to process 1.
abbrev pub five_sends : Kernel
five_sends = record all_ready { procs = queued 5 1 0x3000 [] all_ready.procs }

abbrev pub one_sender : ℕ → List ℕ
one_sender = update no_senders 1 (5 ∷ [])

pub five_sends-Inv : Inv (views five_sends) one_sender
five_sends-Inv = Inv-views five_sends (fun_ext (queued-view all_ready.procs 5 1 0x3000 [])) (
    Inv-joined all_ready-Inv (queued-Joined (views all_ready) 5 1 0x3000 [] (omega arith) refl)
      (omega arith) (omega arith) (omega arith) is_ready (omega arith) (omega arith)
      (free_5 (omega arith)))

-- In `five_sends`, process 5 sends to process 1, and process 1 is ready.
pub stuck_1 : (b : 5 < nr_all) → reaches (views five_sends) (five_sends-Inv.ends 5 b).0 5 1 ≡ true
stuck_1 b =
    let (n, d) = five_sends-Inv.ends 5 b in
    let one : Depth (views five_sends) 1 5 = (refl, omega arith, refl) in
    reaches-Depth (views five_sends) n 1 5 1 d one

pub one_ready : IsIdle (views five_sends 1)
one_ready = record { flags = refl; msg = refl; recvfrom = refl; sendto = refl }
