-- ===== src/Mm.antt =====
-- Memory management: mm/memory.c (the kernel's free list) and mm/main.c.
pub mod Memory
