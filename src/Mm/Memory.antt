-- ===== src/Mm/Memory.antt =====
-- mm/memory.c and include/memory.h: the free list of the kernel heap. The array `free` is a
-- function of the index; only its first `frees` items are live. Each loop runs for the number of
-- rounds that its bounds allow. A pointer is a number below 2^32.
mod Blocks
mod Fit
mod Slots
mod Refine
mod Laws
mod Tests
use bird_os.Prelude.{
  ℕ, zero, suc, ◌+◌, ◌-◌, ◌<◌, Bool, true, false, ◌&&◌, Option, none, some, ◌==◌, leb, ltb,
  if◌then◌else◌, update, shift_down, shift_up, add_u32, sub_u32, bit_and,
}

-- FREEINFO
pub record FreeInfo : Type 0 where
  pub addr : ℕ
  pub size : ℕ

abbrev pub free_info : ℕ → ℕ → FreeInfo
free_info a s = record { addr = a; size = s }

-- MEMMAN
pub record Memman : Type 0 where
  pub frees : ℕ
  pub maxfrees : ℕ
  pub lostsize : ℕ
  pub losts : ℕ
  pub free : ℕ → FreeInfo

-- MEMMAN_FREES
abbrev pub memman_frees : ℕ
memman_frees = 4090

-- The loop of `mm_total` from index `i` on, for `k` rounds.
pub total_loop : ℕ → ℕ → (ℕ → FreeInfo) → ℕ → ℕ
total_loop zero i free t = t
total_loop (suc k) i free t = total_loop k (i + 1) free (add_u32 t (free i).size)

unfoldable pub mm_total : Memman → ℕ
unfolding total_loop
mm_total m = total_loop m.frees 0 m.free 0

-- The body of the test in `mm_alloc`: the block is cut off the front of `free[i]`, and a record
-- that becomes empty is removed.
pub take_block : Memman → ℕ → ℕ → Option ℕ × Memman
take_block m i size =
    let a = (m.free i).addr in
    let left = (m.free i).size - size in
    let free' = update m.free i (free_info (add_u32 a size) left) in
    if left == 0
    then (some a, record m { frees = m.frees - 1; free = shift_down (m.frees - 1 - i) i free' })
    else (some a, record m { free = free' })

-- The loop of `mm_alloc` from index `i` on, for `k` rounds; `none` is NULL.
pub alloc_loop : ℕ → ℕ → Memman → ℕ → Option ℕ × Memman
alloc_loop zero i m size = (none, m)
alloc_loop (suc k) i m size =
    let rest = alloc_loop k (i + 1) m size in
    if leb size (m.free i).size then take_block m i size else rest

unfoldable pub mm_alloc : Memman → ℕ → Option ℕ × Memman
unfolding alloc_loop take_block
mm_alloc m size = alloc_loop m.frees 0 m size

-- The first index from `i` on, within `k` rounds, whose block begins above `a`.
pub find_slot : ℕ → ℕ → (ℕ → FreeInfo) → ℕ → ℕ
find_slot zero i free a = i
find_slot (suc k) i free a =
    let rest = find_slot k (i + 1) free a in if ltb a (free i).addr then i else rest

-- `free[i - 1]` ends at `addr`: it grows, and takes `free[i]` in where they meet.
pub merge_prev : Memman → ℕ → ℕ → ℕ → Memman
merge_prev m i addr size =
    let p = m.free (i - 1) in
    let grown = update m.free (i - 1) (free_info p.addr (add_u32 p.size size)) in
    let q = grown (i - 1) in
    if ltb i m.frees && (add_u32 addr size == (grown i).addr)
    then record m {
      frees = m.frees - 1;
      free =
          shift_down (m.frees - 1 - i) i
            (update grown (i - 1) (free_info q.addr (add_u32 q.size (grown i).size)));
    }
    else record m { free = grown }

-- No block before ends at `addr`: `free[i]` grows downwards, or a record is put in, or the block
-- is lost.
pub free_alone : Memman → ℕ → ℕ → ℕ → Bool × Memman
free_alone m i addr size =
    if ltb i m.frees && (add_u32 addr size == (m.free i).addr)
    then (true, record m { free = update m.free i (free_info addr (add_u32 (m.free i).size size)) })
    else if ltb m.frees memman_frees
    then (
      true,
      record m {
        frees = m.frees + 1;
        maxfrees = if ltb m.maxfrees (m.frees + 1) then m.frees + 1 else m.maxfrees;
        free = update (shift_up (m.frees - i) i m.free) i (free_info addr size);
      },
    )
    else (false, record m { losts = m.losts + 1; lostsize = add_u32 m.lostsize size })

pub free_at : Memman → ℕ → ℕ → ℕ → Bool × Memman
free_at m i addr size =
    if ltb 0 i && (add_u32 (m.free (i - 1)).addr (m.free (i - 1)).size == addr)
    then (true, merge_prev m i addr size)
    else free_alone m i addr size

-- The result is true for 0 and false for -1.
unfoldable pub mm_free : Memman → ℕ → ℕ → Bool × Memman
unfolding find_slot merge_prev free_alone free_at
mm_free m addr size = free_at m (find_slot m.frees 0 m.free addr) addr size

-- `size = (size + 0xfff) & 0xfffff000`
abbrev pub round_4k : ℕ → ℕ
round_4k size = bit_and (add_u32 size 0xfff) 0xfffff000

unfoldable pub mm_alloc_4k : Memman → ℕ → Option ℕ × Memman
mm_alloc_4k m size = mm_alloc m (round_4k size)

unfoldable pub mm_free_4k : Memman → ℕ → ℕ → Bool × Memman
mm_free_4k m addr size = mm_free m addr (round_4k size)

-- `mm_init` clears the counters and frees what lies above 6 MB; the array keeps its contents.
unfoldable pub mm_init : Memman → ℕ → ℕ × Memman
mm_init m mem_size =
    let cleared = record m { frees = 0; maxfrees = 0; lostsize = 0; losts = 0 } in
    (mem_size, (mm_free cleared 0x600000 (sub_u32 mem_size 0x600000)).1)
