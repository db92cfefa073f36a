-- ===== src/Fifo/Tests.antt =====
-- Runs of the FIFO and the theorems at concrete buffers.
use bird_os.Prelude.{◌≡◌, List, [], ◌∷◌, arith}
use bird_os.Fifo.{Fifo, Op, push, pop, run}
use bird_os.Fifo.Inv.{IsValid}
use bird_os.Fifo.Refine.{contents, queue_run, run_refines}

-- 8, then 9, round the end of the storage
abbrev wrapped : Fifo
wrapped = record { buf = 9 ∷ 7 ∷ 8 ∷ []; p_head = 1; p_tail = 2; capacity = 3; size = 2; flags = 0 }

abbrev script : List Op
script = push 4 ∷ push 5 ∷ pop ∷ pop ∷ pop ∷ pop ∷ []

run_refines_example :
    (((run wrapped script).0, contents (run wrapped script).1) ≡ queue_run 3 (8 ∷ 9 ∷ []) script)
    × IsValid (run wrapped script).1
run_refines_example = run_refines script wrapped (omega arith)
