-- ===== src/Mm/Memory/Laws.antt =====
-- What a client of the heap relies on: the invariant, the free addresses and the free bytes.
use bird_os.Prelude.{
  ℕ, zero, suc, ◌+◌, ◌-◌, ◌%◌, ◌≤◌, ◌<◌, ◌^◌, ◌≡◌, ◌∙◌, ap, sym, [], ◌∷◌, arith, leb, ltb, true,
  ◌&&◌, ◌||◌, not, none, some, All, items, add_u32, sub_u32, Bool-cases, inl, inr,
}
use bird_os.Mm.Memory.{
  FreeInfo, free_info, Memman, mm_free, mm_alloc, mm_total, total_loop, mm_init,
}
use bird_os.Mm.Memory.Blocks.{
  Apart, covers, sum_sizes, insert, take_fit, insert-IsSorted, insert-covers, insert-sum,
}
use bird_os.Mm.Memory.Fit.{
  take_fit-IsSorted, take_fit-covers, take_fit_was_free, take_fit-Apart, take_fit-sum,
  take_fit-none, take_fit-block,
}
use bird_os.Mm.Memory.Slots.{blocks}
use bird_os.Mm.Memory.Refine.{Inv, mm_free_refines, mm_free_counts, mm_alloc_refines}

-- Releasing a block that is not empty, ends below 2^32 and lies apart from the free blocks keeps
-- a valid table valid, whether it succeeds or loses the block.
pub mm_free-Inv :
    (m : Memman) (a s : ℕ)
    → Inv m
    → 0 < s
    → a + s < 2 ^ 32
    → Apart a s (blocks m)
    → Inv (mm_free m a s).1
mm_free-Inv m a s v pos fits apart = elim (Bool-cases (mm_free m a s).0) [
  | inl done ↦ record {
    room = (mm_free_counts m a s v).0;
    sorted =
        rw (mm_free_refines m a s v pos fits apart done)
          (insert-IsSorted 0 a s (blocks m) (omega arith) pos fits apart v.sorted);
  }
  | inr lost ↦ record {
    room = (mm_free_counts m a s v).0;
    sorted = rw ((mm_free_counts m a s v).1 lost).1 v.sorted;
  }
]

-- In a valid table, a successful release of a block that is not empty, ends below 2^32 and lies
-- apart from the free blocks makes exactly its addresses free, besides those that were.
pub mm_free-covers :
    (m : Memman) (a s : ℕ)
    → Inv m
    → 0 < s
    → a + s < 2 ^ 32
    → Apart a s (blocks m)
    → (mm_free m a s).0 ≡ true
    → (x : ℕ)
    → covers x (blocks (mm_free m a s).1) ≡ ((leb a x && ltb x (a + s)) || covers x (blocks m))
mm_free-covers m a s v pos fits apart done x =
    ap (covers x) (mm_free_refines m a s v pos fits apart done) ∙ insert-covers x a s (blocks m)

-- Allocation of a positive number of bytes keeps a valid table valid, also where it fails.
pub mm_alloc-Inv : (m : Memman) (s : ℕ) → Inv m → 0 < s → Inv (mm_alloc m s).1
mm_alloc-Inv m s v pos =
    let r = mm_alloc_refines m s v in
    record { room = r.2; sorted = rw r.1 (take_fit-IsSorted 0 s (blocks m) pos v.sorted) }

-- A successful allocation of `s` bytes at `r` in a valid table: every byte of it was free, and exactly its bytes
-- are taken out of what is free.
pub mm_alloc-covers :
    (m : Memman) (s r : ℕ)
    → Inv m
    → (mm_alloc m s).0 ≡ some r
    → (x : ℕ)
    → (r ≤ x → x < r + s → covers x (blocks m) ≡ true)
      × (covers x (blocks (mm_alloc m s).1)
          ≡ (covers x (blocks m) && not (leb r x && ltb x (r + s))))
mm_alloc-covers m s r v e x =
    let l = mm_alloc_refines m s v in
    let e' : (take_fit (blocks m) s).0 ≡ some r = sym l.0 ∙ e in
    (
      take_fit_was_free 0 x s (blocks m) v.sorted e',
      ap (covers x) l.1 ∙ take_fit-covers 0 x s (blocks m) v.sorted e',
    )

-- In a valid table, allocation fails only where every free block is too small, and then changes no block.
mm_alloc-none :
    (m : Memman) (s : ℕ)
    → Inv m
    → (mm_alloc m s).0 ≡ none
    → (blocks (mm_alloc m s).1 ≡ blocks m) × All (λ b. b.size < s) (blocks m)
mm_alloc-none m s v e =
    let l = mm_alloc_refines m s v in
    let here = take_fit-none s (blocks m) (sym l.0 ∙ e) in (l.1 ∙ here.0, here.1)

-- A block that was allocated and is released at once leaves free exactly what was free before.
mm_free-mm_alloc :
    (m : Memman) (s r : ℕ)
    → Inv m
    → 0 < s
    → (mm_alloc m s).0 ≡ some r
    → (mm_free (mm_alloc m s).1 r s).0 ≡ true
    → (x : ℕ) → covers x (blocks (mm_free (mm_alloc m s).1 r s).1) ≡ covers x (blocks m)
mm_free-mm_alloc m s r v pos e done x =
    let l = mm_alloc_refines m s v in
    let e' : (take_fit (blocks m) s).0 ≡ some r = sym l.0 ∙ e in
    let apart : Apart r s (blocks (mm_alloc m s).1) =
      rw l.1 (take_fit-Apart 0 s (blocks m) v.sorted e') in
    let fits = take_fit-block 0 s (blocks m) v.sorted e' in
    let after =
      mm_free-covers (mm_alloc m s).1 r s (mm_alloc-Inv m s v pos) pos fits.1 apart done x in
    ground (arith, after, mm_alloc-covers m s r v e x)

total_loop_lem :
    (k i : ℕ) (free : ℕ → FreeInfo) (t : ℕ)
    → t < 2 ^ 32
    → total_loop k i free t ≡ (t + sum_sizes (items free i k)) % 2 ^ 32
unfolding total_loop sum_sizes
total_loop_lem zero i free t h = omega arith
total_loop_lem (suc k) i free t h =
    omega (arith, total_loop_lem k (i + 1) free (add_u32 t (free i).size))

-- `mm_total` adds up the free bytes, modulo 2^32.
pub mm_total-sum : (m : Memman) → mm_total m ≡ sum_sizes (blocks m) % 2 ^ 32
unfolding mm_total
mm_total-sum m = omega (arith, total_loop_lem m.frees 0 m.free 0 (omega arith))

-- A successful release of a block apart from the free ones adds its size to what `mm_total`
-- reports, modulo 2^32.
mm_total-mm_free :
    (m : Memman) (a s : ℕ)
    → Inv m
    → 0 < s
    → a + s < 2 ^ 32
    → Apart a s (blocks m)
    → (mm_free m a s).0 ≡ true
    → mm_total (mm_free m a s).1 ≡ (mm_total m + s) % 2 ^ 32
mm_total-mm_free m a s v pos fits apart done =
    let e = ap sum_sizes (mm_free_refines m a s v pos fits apart done) in
    omega (arith, e, insert-sum a s (blocks m), mm_total-sum m, mm_total-sum (mm_free m a s).1)

-- A successful allocation takes its size off what `mm_total` reports, modulo 2^32.
mm_total-mm_alloc :
    (m : Memman) (s r : ℕ)
    → Inv m
    → (mm_alloc m s).0 ≡ some r
    → (mm_total (mm_alloc m s).1 + s) % 2 ^ 32 ≡ mm_total m
mm_total-mm_alloc m s r v e =
    let l = mm_alloc_refines m s v in
    let e' : (take_fit (blocks m) s).0 ≡ some r = sym l.0 ∙ e in
    omega (
      arith,
      ap sum_sizes l.1,
      take_fit-sum s (blocks m) e',
      mm_total-sum m,
      mm_total-sum (mm_alloc m s).1,
    )

-- `mm_init` leaves one free block, from 6 MB to the end of the memory.
mm_init-blocks :
    (m : Memman) (mem_size : ℕ)
    → 0x600000 < mem_size
    → mem_size < 2 ^ 32
    → (blocks (mm_init m mem_size).1 ≡ free_info 0x600000 (mem_size - 0x600000) ∷ [])
      × Inv (mm_init m mem_size).1
unfolding mm_init insert
mm_init-blocks m n h k =
    let cleared : Memman = record m { frees = 0; maxfrees = 0; lostsize = 0; losts = 0 } in
    let v : Inv cleared = record { room = omega arith; sorted = tt } in
    let e : sub_u32 n 0x600000 ≡ n - 0x600000 = omega arith in
    rw e (
      mm_free_refines cleared 0x600000 (n - 0x600000) v (omega arith) (omega arith) tt
          (elim (Bool-cases (mm_free cleared 0x600000 (n - 0x600000)).0) [
            | inl done ↦ done
            | inr lost ↦
                absurd
                  (omega (arith, ((mm_free_counts cleared 0x600000 (n - 0x600000) v).1 lost).0))
          ]),
      mm_free-Inv cleared 0x600000 (n - 0x600000) v (omega arith) (omega arith) tt,
    )
