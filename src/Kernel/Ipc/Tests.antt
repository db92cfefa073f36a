-- ===== src/Kernel/Ipc/Tests.antt =====
-- Message passing at work in the kernels of Scenes.antt.
use bird_os.Prelude.{◌≡◌, refl, inl, true, false, [], ◌⊎◌, arith, update}
use bird_os.Kernel.Types.{
  Kernel, ok, halted, short_message, any, interrupt, hard_int, send, receive,
}
use bird_os.Kernel.Sched.{schedule}
use bird_os.Kernel.Sched.Frame.{views}
use bird_os.Kernel.Ipc.Chains.{reaches}
use bird_os.Kernel.Ipc.Inv.{Inv, waiting}
use bird_os.Kernel.Ipc.Deadlock.{deadlock-reaches}
use bird_os.Kernel.Ipc.Deliver.{delivered, linear}
use bird_os.Kernel.Ipc.Send.{msg_send-delivers, msg_send-queues, msg_send-panics}
use bird_os.Kernel.Ipc.Receive.{msg_receive-from}
use bird_os.Kernel.Ipc.Wait.{marked, Inv-marked, msg_receive-waits, msg_receive-interrupt}
use bird_os.Kernel.Ipc.Calls.{IsKept, sys_sendrec-send, sys_sendrec-receive}
use bird_os.Kernel.Ipc.{sys_sendrec, deadlock, msg_send, msg_receive}
use bird_os.Kernel.Ipc.Scenes.{
  all_ready, no_senders, is_ready, all_ready-Inv, one_waits, one_waits-Inv, free_5, five_sends,
  one_sender, five_sends-Inv, stuck_1, one_ready,
}

msg_send-delivers_example :
    (msg_send 5 1 0x3000 one_waits ≡ ok 0 (delivered 5 1 0x3000 one_waits))
    × Inv (views (delivered 5 1 0x3000 one_waits)) no_senders
msg_send-delivers_example =
    msg_send-delivers one_waits one_waits-Inv 5 1 0x3000 (omega arith) (omega arith) (omega arith)
      is_ready (omega arith) (omega arith) refl

msg_send-queues_example :
    (k' : Kernel) × (msg_send 5 1 0x3000 all_ready ≡ ok 0 k')
    × Inv (views k') one_sender
    × (k'.mem ≡ all_ready.mem)
msg_send-queues_example =
    msg_send-queues all_ready all_ready-Inv 5 1 0x3000 (omega arith) (omega arith) (omega arith)
      is_ready (omega arith) (omega arith) refl (free_5 (omega arith))

msg_send-panics_example : msg_send 1 5 0x2000 five_sends ≡ halted
msg_send-panics_example =
    msg_send-panics five_sends five_sends-Inv 1 5 0x2000 (omega arith) (omega arith) (omega arith)
      one_ready (omega arith) (omega arith) (stuck_1 (omega arith))

deadlock-reaches_example :
    deadlock 1 5 five_sends
    ≡ ok (reaches (views five_sends) (five_sends-Inv.ends 5 (omega arith)).0 5 1) five_sends
deadlock-reaches_example = deadlock-reaches five_sends five_sends-Inv 1 5 (omega arith)

msg_receive-from_example :
    (k' : Kernel) × (msg_receive 1 5 0x2000 five_sends ≡ ok 0 k')
    × Inv (views k') (update one_sender 1 [])
    × (k'.mem
        ≡ update five_sends.mem
            (linear five_sends 1 0x2000)
            (five_sends.mem (linear five_sends 5 0x3000)))
msg_receive-from_example =
    msg_receive-from five_sends five_sends-Inv 1 0x2000 (omega arith) one_ready (omega arith)
      (omega arith) 5 (omega arith) refl

msg_receive-waits_example :
    (k' : Kernel) × (msg_receive 1 any 0x2000 all_ready ≡ ok 0 k')
    × Inv (views k') no_senders
    × (views k' 1 ≡ waiting 0x2000 any (views all_ready 1))
    × (k'.mem ≡ all_ready.mem)
    × (k'
        ≡ schedule (record all_ready {
          procs = update all_ready.procs 1 (waiting 0x2000 any (all_ready.procs 1));
        }))
msg_receive-waits_example =
    msg_receive-waits all_ready all_ready-Inv 1 0x2000 (omega arith) is_ready (omega arith)
      (omega arith) any (omega arith) refl (inl (refl, refl))

msg_receive-interrupt_example :
    (k' : Kernel) × (msg_receive 1 any 0x2000 (marked true 1 all_ready) ≡ ok 0 k')
    × Inv (views k') no_senders
    × (k'.mem
        ≡ update all_ready.mem
            (linear (marked true 1 all_ready) 1 0x2000)
            (short_message interrupt hard_int))
    × ((k'.procs 1).has_int_msg ≡ false)
    × (k' ≡ marked false 1 (record (marked true 1 all_ready) { mem = k'.mem }))
msg_receive-interrupt_example =
    msg_receive-interrupt (marked true 1 all_ready) (Inv-marked all_ready true 1 all_ready-Inv) 1
      0x2000 (omega arith) (record { flags = refl; msg = refl; recvfrom = refl; sendto = refl })
      (omega arith) (omega arith) any (omega arith) refl refl

sys_sendrec-send_example :
    IsKept (sys_sendrec send 5 0x2000 1 five_sends)
    ⊎ ((reaches (views five_sends) (five_sends-Inv.ends 5 (omega arith)).0 5 1 ≡ true)
        × (sys_sendrec send 5 0x2000 1 five_sends ≡ halted))
sys_sendrec-send_example =
    sys_sendrec-send five_sends five_sends-Inv 1 0x2000 (omega arith) one_ready (omega arith)
      (omega arith) refl 5 (omega arith) (omega arith)

sys_sendrec-receive_example : IsKept (sys_sendrec receive any 0x2000 1 five_sends)
sys_sendrec-receive_example =
    sys_sendrec-receive five_sends five_sends-Inv 1 0x2000 (omega arith) one_ready (omega arith)
      (omega arith) refl any (omega arith) (omega arith) refl (λ e. refl)
