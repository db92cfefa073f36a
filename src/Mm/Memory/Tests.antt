-- ===== src/Mm/Memory/Tests.antt =====
-- Runs of the free list, and its theorems at a heap with two free blocks.
use bird_os.Prelude.{
  ◌+◌, ◌≡◌, refl, ◌<◌, ◌≤◌, true, ◌&&◌, ◌||◌, not, none, [], ◌∷◌, arith, ◌==◌, if◌then◌else◌, leb,
  ltb, shift_down,
}
use bird_os.Mm.Memory.{free_info, Memman, mm_alloc, mm_free, mm_alloc_4k}
use bird_os.Mm.Memory.Blocks.{covers}
use bird_os.Mm.Memory.Slots.{blocks}
use bird_os.Mm.Memory.Refine.{Inv}
use bird_os.Mm.Memory.Laws.{mm_free-Inv, mm_free-covers, mm_alloc-Inv, mm_alloc-covers}

-- 0x100 bytes at 0x1000 and 0x200 bytes at 0x3000
abbrev heap : Memman
heap = record {
  frees = 2;
  maxfrees = 2;
  lostsize = 0;
  losts = 0;
  free = λ i. if i == 0 then free_info 0x1000 0x100 else free_info 0x3000 0x200;
}

heap-Inv : Inv heap
heap-Inv = record { room = omega arith; sorted = omega arith }

-- The block between the two, and what it leaves: one block.
mm_free_joins : blocks (mm_free heap 0x1100 0x1f00).1 ≡ free_info 0x1000 0x2200 ∷ []
unfolding mm_free shift_down
mm_free_joins = refl

mm_alloc_4k_too_large : (mm_alloc_4k heap 1).0 ≡ none
unfolding mm_alloc_4k mm_alloc
mm_alloc_4k_too_large = refl

mm_free-Inv_example : Inv (mm_free heap 0x2000 0x800).1
mm_free-Inv_example =
    mm_free-Inv heap 0x2000 0x800 heap-Inv (omega arith) (omega arith) (omega arith)

mm_free-covers_example :
    covers 0x2001 (blocks (mm_free heap 0x2000 0x800).1)
    ≡ ((leb 0x2000 0x2001 && ltb 0x2001 0x2800) || covers 0x2001 (blocks heap))
unfolding mm_free
mm_free-covers_example =
    mm_free-covers heap 0x2000 0x800 heap-Inv (omega arith) (omega arith) (omega arith) refl 0x2001

mm_alloc-Inv_example : Inv (mm_alloc heap 0x100).1
mm_alloc-Inv_example = mm_alloc-Inv heap 0x100 heap-Inv (omega arith)

mm_alloc-covers_example :
    (0x3000 ≤ 0x3010 → 0x3010 < 0x3000 + 0x180 → covers 0x3010 (blocks heap) ≡ true)
    × (covers 0x3010 (blocks (mm_alloc heap 0x180).1)
        ≡ (covers 0x3010 (blocks heap) && not (leb 0x3000 0x3010 && ltb 0x3010 (0x3000 + 0x180))))
unfolding mm_alloc
mm_alloc-covers_example = mm_alloc-covers heap 0x180 0x3000 heap-Inv refl 0x3010
