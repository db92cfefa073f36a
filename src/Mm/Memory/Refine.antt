-- ===== src/Mm/Memory/Refine.antt =====
-- `mm_free` and `mm_alloc` against insertion into and first fit on the list of live blocks.
use bird_os.Prelude.{
  ℕ, zero, suc, ◌+◌, ◌-◌, ◌≤◌, ◌<◌, ◌^◌, ◌≡◌, refl, ◌∙◌, ap, ap₂, sym, List, [], ◌∷◌, ◌++◌, arith,
  leb, true, false, All, items, items_split, items-update, items-shift_up, items-shift_down,
  items-cong, append_assoc, append-nil, leb→le, shift_up, update, add_u32, Bool-cases, inl, inr,
  ◌≢◌, ◌⊎◌, shift_down,
}
use mathlib.Core.Path.{subst}
use native.Mathlib.Decide.{ℕ_discrete}
use bird_os.Mm.Memory.{
  FreeInfo, free_info, Memman, memman_frees, find_slot, merge_prev, free_alone, free_at, mm_free,
  take_block, alloc_loop, mm_alloc,
}
use bird_os.Mm.Memory.Blocks.{end, IsSorted, Apart, insert, push_front, take_fit}
use bird_os.Mm.Memory.Slots.{
  blocks, IsSlot, find_slot-IsSlot, IsSorted-items, IsSorted-before, IsSorted-at, All_at,
  All-append, insert_alone, insert_grown,
}

-- What holds of the heap's free list between two calls.
pub record Inv (m : Memman) : Type 0 where
  pub room : m.frees ≤ memman_frees
  pub sorted : IsSorted 0 (blocks m)

-- The array after a record is put in at `r`, or has changed there, or there and before it.
items_put :
    (f : ℕ → FreeInfo) (n r k : ℕ) (v : FreeInfo)
    → n ≡ r + k
    → items (update (shift_up (n - r) r f) r v) 0 (n + 1) ≡ items f 0 r ++ (v ∷ items f r k)
items_put f n r k v e =
    let e1 : n - r ≡ k = omega arith in
    let e2 : n + 1 ≡ r + suc k = omega arith in rw (e1, e2) (items-shift_up f r k v)

items_changed :
    (f : ℕ → FreeInfo) (n r k : ℕ) (v : FreeInfo)
    → n ≡ r + suc k
    → items (update f r v) 0 n ≡ items f 0 r ++ (v ∷ items f (r + 1) k)
items_changed f n r k v e = rw e (items-update f r k v)

items_joined :
    (f : ℕ → FreeInfo) (n p k : ℕ) (u v : FreeInfo)
    → n ≡ p + suc (suc k)
    → items (shift_down (n - 1 - suc p) (suc p) (update (update f p u) p v)) 0 (n - 1)
      ≡ items f 0 p ++ (v ∷ items f (suc p + 1) k)
items_joined f n p k u v e =
    let g : ℕ → FreeInfo = update (update f p u) p v in
    let e1 : n - 1 - suc p ≡ k = omega arith in
    let e2 : n - 1 ≡ suc p + k = omega arith in
    let e3 : suc p ≡ p + 1 = omega arith in
    let same : (d : ℕ) → d < k → g (suc p + 1 + d) ≡ f (suc p + 1 + d) = λ d h. ground arith in
    let before : items g 0 (suc p) ≡ items f 0 p ++ (v ∷ []) =
      ap (items g 0) e3
      ∙ items-update (update f p u) p 0 v
      ∙ ap (λ t. t ++ (v ∷ [])) (items-cong (update f p u) f 0 0 p λ d h. ground arith) in
    rw (e1, e2) (items-shift_down g (suc p) k)
    ∙ ap₂ ◌++◌ before (items-cong g f (suc p + 1) (suc p + 1) k same)
    ∙ append_assoc (items f 0 p) (v ∷ []) (items f (suc p + 1) k)

module _ (m : Memman) (a s : ℕ) (fits : a + s < 2 ^ 32) where
  free_alone_refines :
      (r k : ℕ)
      → m.frees ≡ r + k
      → (0 < k → end (m.free r) < 2 ^ 32)
      → (free_alone m r a s).0 ≡ true
      → blocks (free_alone m r a s).1 ≡ items m.free 0 r ++ push_front a s (items m.free r k)
  unfolding free_alone push_front
  free_alone_refines r zero e b h = ground (arith, items_put m.free m.frees r 0 (free_info a s))
  free_alone_refines r (suc k) e b h = ground (
    arith,
    items_put m.free m.frees r (suc k) (free_info a s),
    items_changed m.free m.frees r k (free_info a (s + (m.free r).size)),
  )

  merge_prev_refines :
      (p k : ℕ)
      → m.frees ≡ p + suc k
      → end (m.free p) ≡ a
      → (0 < k → end (m.free (suc p)) < 2 ^ 32)
      → blocks (merge_prev m (suc p) a s)
        ≡ items m.free 0 p
          ++ push_front (m.free p).addr ((m.free p).size + s) (items m.free (p + 1) k)
  unfolding merge_prev push_front
  merge_prev_refines p zero e h b =
      let e1 : suc p - 1 ≡ p = omega arith in
      rw e1 (
        ground (
          arith,
          items_changed m.free m.frees p 0 (free_info (m.free p).addr ((m.free p).size + s)),
        ))
  merge_prev_refines p (suc k) e h b =
      let e1 : suc p - 1 ≡ p = omega arith in
      let e2 : p + 1 ≡ suc p = omega arith in
      let grown : FreeInfo = free_info (m.free p).addr ((m.free p).size + s) in
      rw (e1, e2)
        (ground (
          arith,
          items_changed m.free m.frees p (suc k) grown,
          items_joined m.free m.frees p k grown
              (free_info (m.free p).addr ((m.free p).size + s + (m.free (suc p)).size)),
        ))

  module _ (v : Inv m) (pos : 0 < s) (apart : Apart a s (blocks m)) where
    -- The live blocks, split at the record `p`.
    split_at :
        (p k : ℕ)
        → m.frees ≡ p + suc k
        → blocks m ≡ items m.free 0 p ++ (m.free p ∷ items m.free (p + 1) k)
    split_at p k e = ap (items m.free 0) e ∙ items_split m.free p (suc k)

    -- What the invariant says of record `p`, and of the records before it.
    at_record :
        (p k : ℕ)
        → m.frees ≡ p + suc k
        → (end (m.free p) < 2 ^ 32)
          × (0 < (m.free p).size)
          × ((a + s ≤ (m.free p).addr) ⊎ (end (m.free p) ≤ a))
          × ((m.free p).addr ≤ a → All (λ c. end c < a) (items m.free 0 p))
    at_record p k e =
        let sorted : IsSorted 0 (items m.free 0 p ++ (m.free p ∷ items m.free (p + 1) k)) =
          subst (IsSorted 0) (split_at p k e) v.sorted in
        let apart' : Apart a s (items m.free 0 p ++ (m.free p ∷ items m.free (p + 1) k)) =
          subst (Apart a s) (split_at p k e) apart in
        let here = IsSorted-at 0 (items m.free 0 p) (m.free p) (items m.free (p + 1) k) sorted in
        (
          here.1,
          here.0,
          All_at (λ b. (a + s ≤ b.addr) ⊎ (end b ≤ a)) (items m.free 0 p) (m.free p)
              (items m.free (p + 1) k) apart',
          IsSorted-before 0 a (items m.free 0 p) (m.free p) (items m.free (p + 1) k) sorted,
        )

    end_in : (r k : ℕ) → m.frees ≡ r + k → 0 < k → end (m.free r) < 2 ^ 32
    end_in r zero e h = absurd (omega arith)
    end_in r (suc k) e h = (at_record r k e).0

    -- Every record before the slot ends before the block, unless the last one meets it.
    All-before :
        (p k : ℕ)
        → m.frees ≡ p + suc k
        → (m.free p).addr ≤ a
        → end (m.free p) ≢ a
        → All (λ c. end c < a) (items m.free 0 (suc p))
    All-before p k e le ne =
        let e1 : suc p ≡ p + 1 = omega arith in
        let here = at_record p k e in
        let last : end (m.free p) < a = omega arith in
        subst (All (λ c. end c < a)) (sym (ap (items m.free 0) e1 ∙ items_split m.free p 1))
          (All-append (λ c. end c < a) (items m.free 0 p) (m.free p ∷ []) (here.3 le) (last, tt))

    -- The slot is `r`, and `k` records lie from it on: nothing before meets the block.
    alone :
        (r k : ℕ)
        → m.frees ≡ r + k
        → All (λ c. end c < a) (items m.free 0 r)
        → (r < 0 + m.frees → a < (m.free r).addr)
        → (free_alone m r a s).0 ≡ true
        → blocks (free_alone m r a s).1 ≡ insert a s (blocks m)
    alone r k e before above h =
        free_alone_refines r k e (end_in r k e) h
        ∙ sym (
            ap (λ n. insert a s (items m.free 0 n)) e
            ∙ insert_alone m.free a s r k before λ p. above (omega arith))

    -- The record before the slot ends at the block.
    merged :
        (p k : ℕ)
        → m.frees ≡ p + suc k
        → (m.free p).addr ≤ a
        → end (m.free p) ≡ a
        → blocks (merge_prev m (suc p) a s) ≡ insert a s (blocks m)
    merged p k e le meets =
        merge_prev_refines p k e meets (λ h. end_in (suc p) k (omega arith) h)
        ∙ sym (
            ap (λ n. insert a s (items m.free 0 n)) e
            ∙ insert_grown m.free a s p k ((at_record p k e).3 le) meets)

    free_at_refines :
        (r : ℕ)
        → IsSlot m.frees 0 m.free a r
        → (free_at m r a s).0 ≡ true
        → blocks (free_at m r a s).1 ≡ insert a s (blocks m)
    unfolding free_at
    free_at_refines zero slot h = alone 0 m.frees (omega arith) tt slot.above h
    free_at_refines (suc p) slot h =
        let e1 : suc p - 1 ≡ p = omega arith in
        let k : ℕ = m.frees - suc p in
        let e : m.frees ≡ p + suc k = omega (arith, slot.upto) in
        let le : (m.free p).addr ≤ a = slot.below p (omega arith) (omega arith) in
        let bound : end (m.free p) < 2 ^ 32 = (at_record p k e).0 in
        elim (ℕ_discrete (end (m.free p)) a) [
          | yes meets ↦ rw e1 (ground (arith, merged p k e le meets))
          | no apart' ↦
              let h' : (free_alone m (suc p) a s).0 ≡ true = ground arith in
              rw e1 (
                ground
                  (arith, alone (suc p) k (omega arith) (All-before p k e le apart') slot.above h'))
        ]

-- A block that is released apart from the free ones is inserted in address order and merged with
-- the free blocks that it meets.
pub mm_free_refines :
    (m : Memman) (a s : ℕ)
    → Inv m
    → 0 < s
    → a + s < 2 ^ 32
    → Apart a s (blocks m)
    → (mm_free m a s).0 ≡ true
    → blocks (mm_free m a s).1 ≡ insert a s (blocks m)
unfolding mm_free
mm_free_refines m a s v pos fits apart h =
    free_at_refines m a s fits v pos apart (find_slot m.frees 0 m.free a)
      (find_slot-IsSlot m.frees 0 m.free a) h

-- The other results: how the counters move, and what a failure leaves.
pub mm_free_counts :
    (m : Memman) (a s : ℕ)
    → Inv m
    → ((mm_free m a s).1.frees ≤ memman_frees)
      × ((mm_free m a s).0 ≡ false
          → (m.frees ≡ memman_frees)
            × (blocks (mm_free m a s).1 ≡ blocks m)
            × ((mm_free m a s).1.losts ≡ m.losts + 1)
            × ((mm_free m a s).1.lostsize ≡ add_u32 m.lostsize s))
unfolding mm_free free_at merge_prev free_alone
mm_free_counts m a s v =
    let slot = find_slot-IsSlot m.frees 0 m.free a in
    (ground arith, λ h. (ground arith, ground arith, ground arith, ground arith))

items_removed :
    (f : ℕ → FreeInfo) (n r k : ℕ) (u : FreeInfo)
    → n ≡ r + suc k
    → items (shift_down (n - 1 - r) r (update f r u)) 0 (n - 1) ≡ items f 0 r ++ items f (r + 1) k
items_removed f n r k u e =
    let g : ℕ → FreeInfo = update f r u in
    let e1 : n - 1 - r ≡ k = omega arith in
    let e2 : n - 1 ≡ r + k = omega arith in
    rw (e1, e2) (items-shift_down g r k)
    ∙ ap₂ ◌++◌ (items-cong g f 0 0 r λ d h. ground arith)
        (items-cong g f (r + 1) (r + 1) k λ d h. ground arith)

-- Allocation at record `i` is first fit on the records from it on.
take_block_refines :
    (m : Memman) (i k s : ℕ)
    → m.frees ≡ i + suc k
    → end (m.free i) < 2 ^ 32
    → s ≤ (m.free i).size
    → let (r, m') = take_block m i s in
      (r ≡ (take_fit (items m.free i (suc k)) s).0)
      × (blocks m' ≡ items m.free 0 i ++ (take_fit (items m.free i (suc k)) s).1)
unfolding take_block take_fit
take_block_refines m i k s e b le =
    let cut : FreeInfo = free_info ((m.free i).addr + s) ((m.free i).size - s) in
    let l1 = items_removed m.free m.frees i k cut e in
    let l2 = items_changed m.free m.frees i k cut e in (ground arith, ground arith)

frees-take_block : (m : Memman) (i s : ℕ) → (take_block m i s).1.frees ≤ m.frees
unfolding take_block
frees-take_block m i s = ground arith

alloc_loop_refines :
    (k i : ℕ) (m : Memman) (s : ℕ)
    → m.frees ≡ i + k
    → ((j : ℕ) → j < m.frees → end (m.free j) < 2 ^ 32)
    → let (r, m') = alloc_loop k i m s in
      (r ≡ (take_fit (items m.free i k) s).0)
      × (blocks m' ≡ items m.free 0 i ++ (take_fit (items m.free i k) s).1)
      × (m'.frees ≤ m.frees)
unfolding alloc_loop take_fit
alloc_loop_refines zero i m s e b =
    (refl, ap (items m.free 0) (omega arith) ∙ sym (append-nil (items m.free 0 i)), omega arith)
alloc_loop_refines (suc k) i m s e b = elim (Bool-cases (leb s (m.free i).size)) [
  | inl fits ↦
      let here = take_block_refines m i k s e (b i (omega arith)) (leb→le _ _ fits) in
      rw fits (rw fits at here.0, rw fits at here.1, frees-take_block m i s)
  | inr small ↦
      let ih = alloc_loop_refines k (i + 1) m s (omega arith) b in
      rw small (
        ih.0,
        ih.1
            ∙ ap (λ t. t ++ rest) (items_split m.free i 1)
            ∙ append_assoc (items m.free 0 i) (m.free i ∷ []) rest,
        ih.2,
      )
]
  where
    rest : List FreeInfo
    rest = (take_fit (items m.free (i + 1) k) s).1

-- Allocation returns what first fit on the live blocks returns, and leaves what it leaves.
pub mm_alloc_refines :
    (m : Memman) (s : ℕ)
    → Inv m
    → let (r, m') = mm_alloc m s in
      (r ≡ (take_fit (blocks m) s).0)
      × (blocks m' ≡ (take_fit (blocks m) s).1)
      × (m'.frees ≤ memman_frees)
unfolding mm_alloc
mm_alloc_refines m s v =
    let ends : (j : ℕ) → j < m.frees → end (m.free j) < 2 ^ 32 = λ j h.
      (let e : 0 + j ≡ j = omega arith in
        subst (λ t. end (m.free t) < 2 ^ 32) e
          (IsSorted-items m.free 0 0 m.frees j v.sorted h).2) in
    let here = alloc_loop_refines m.frees 0 m s (omega arith) ends in
    (here.0, here.1, omega (arith, v.room))
