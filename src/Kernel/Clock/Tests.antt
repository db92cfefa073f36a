-- ===== src/Kernel/Clock/Tests.antt =====
-- The clock interrupt while process 5 runs and the terminal task waits.
use mathlib.Core.Path.{fun_ext}
use bird_os.Prelude.{◌-◌, ◌<◌, ◌≡◌, refl, not, ◌||◌, some, ◌==◌, if◌then◌else◌, arith, update}
use bird_os.Kernel.Types.{Kernel, ok, any}
use bird_os.Kernel.Sched.{schedule}
use bird_os.Kernel.Sched.Frame.{views}
use bird_os.Kernel.Ipc.Inv.{Inv, Inv-waiting, waiting}
use bird_os.Kernel.Ipc.Scenes.{all_ready, all_ready-Inv, ready_proc, no_senders, is_ready}
use bird_os.Kernel.Ipc.Send.{Inv-views}
use bird_os.Kernel.Clock.{Clock, positive, max_ticks, clock_handler}
use bird_os.Kernel.Clock.Laws.{told, clock_handler-Inv}

-- The terminal task waits for anyone.
abbrev tty_waits : Kernel
tty_waits = record all_ready {
  procs = update all_ready.procs 0 (waiting 0x2000 any ready_proc);
  ready = some 5;
}

tty_waits-Inv : Inv (views tty_waits) no_senders
tty_waits-Inv =
    Inv-views tty_waits (fun_ext λ x. ground arith)
      (Inv-waiting all_ready-Inv 0 0x2000 any is_ready (omega arith) (omega arith) (omega arith))

-- The last tick before the count starts again, with a key pressed
abbrev late : Clock
late = record { ticks = 0x7fffabcc; key_pressed = 1 }

clock_handler-Inv_example :
    (c' : Clock) × (s k' : Kernel) × (clock_handler late tty_waits ≡ ok c' k')
    × (c'.ticks < max_ticks)
    × Inv (views k') no_senders
    × (views s ≡ views tty_waits)
    × (s.mem ≡ tty_waits.mem)
    × ((s.procs 5).ticks ≡ (tty_waits.procs 5).ticks - 1)
    × (k' ≡ (
        if not (tty_waits.k_reenter == 0) || positive ((tty_waits.procs 5).ticks - 1)
        then told late s
        else schedule (told late s)))
clock_handler-Inv_example = clock_handler-Inv late tty_waits 5 tty_waits-Inv refl
