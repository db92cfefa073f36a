-- ===== src/Mm/Memory/Slots.antt =====
-- What the loop of `mm_free` finds, and the live records before it and from it on.
use bird_os.Prelude.{
  ℕ, zero, suc, ◌+◌, ◌≤◌, ◌<◌, ◌^◌, ◌≡◌, refl, List, [], ◌∷◌, ◌++◌, arith, ltb, All, Bool-cases,
  inl, inr, ltb→lt, items, items_split, ap, ◌∙◌, lt→ltb,
}
use native.Mathlib.Decide.{dec_lt}
use bird_os.Mm.Memory.{FreeInfo, Memman, find_slot}
use bird_os.Mm.Memory.Blocks.{end, IsSorted, insert, push_front}

-- the live records, in order
abbrev pub blocks : Memman → List FreeInfo
blocks m = items m.free 0 m.frees

-- The slot `r` that the loop from `i` on finds in `k` rounds.
pub record IsSlot (k i : ℕ) (free : ℕ → FreeInfo) (a r : ℕ) : Type 0 where
  pub from : i ≤ r
  pub upto : r ≤ i + k
  pub below : (j : ℕ) → i ≤ j → j < r → (free j).addr ≤ a
  pub above : r < i + k → a < (free r).addr

pub find_slot-IsSlot :
    (k i : ℕ) (free : ℕ → FreeInfo) (a : ℕ) → IsSlot k i free a (find_slot k i free a)
unfolding find_slot
find_slot-IsSlot zero i free a = record {
  from = omega arith;
  upto = omega arith;
  below = λ j p q. absurd (omega arith);
  above = λ p. absurd (omega arith);
}
find_slot-IsSlot (suc k) i free a = elim (Bool-cases (ltb a (free i).addr)) [
  | inl here ↦ rw here (record {
    from = omega arith;
    upto = omega arith;
    below = λ j p q. absurd (omega arith);
    above = λ p. ltb→lt _ _ here;
  })
  | inr later ↦ rw later (
      let ih = find_slot-IsSlot k (i + 1) free a in
      record {
        from = omega arith;
        upto = omega arith;
        below = λ j p q. elim (dec_lt i j) [
          | yes lt ↦ ih.below j (omega arith) q
          | no ge ↦ (let e : j ≡ i = omega arith in rw e (ground arith))
        ];
        above = λ p. ih.above (omega arith);
      })
]

-- The records of a sorted array, and those before an index.
pub IsSorted-items :
    (free : ℕ → FreeInfo) (lo i n j : ℕ)
    → IsSorted lo (items free i n)
    → j < n
    → (lo ≤ (free (i + j)).addr) × (0 < (free (i + j)).size) × (end (free (i + j)) < 2 ^ 32)
IsSorted-items free lo i zero j v h = absurd (omega arith)
IsSorted-items free lo i (suc n) zero v h =
    let e : i + zero ≡ i = omega arith in rw e (v.0, v.1, v.2)
IsSorted-items free lo i (suc n) (suc j) v h =
    let e : i + suc j ≡ i + 1 + j = omega arith in
    let ih = IsSorted-items free (suc (end (free i))) (i + 1) n j v.3 (omega arith) in
    rw e (omega arith, ih.1, ih.2)

-- What comes before a block of a sorted list ends before it begins, and what comes after begins
-- past its end.
IsSorted-le :
    (lo : ℕ) (pre : List FreeInfo) (b : FreeInfo) (post : List FreeInfo)
    → IsSorted lo (pre ++ (b ∷ post))
    → lo ≤ b.addr
IsSorted-le lo [] b post v = v.0
IsSorted-le lo (c ∷ pre) b post v = omega (arith, IsSorted-le (suc (end c)) pre b post v.3)

pub IsSorted-before :
    (lo a : ℕ) (pre : List FreeInfo) (b : FreeInfo) (post : List FreeInfo)
    → IsSorted lo (pre ++ (b ∷ post))
    → b.addr ≤ a
    → All (λ c. end c < a) pre
IsSorted-before lo a [] b post v h = tt
IsSorted-before lo a (c ∷ pre) b post v h = (
  omega (arith, IsSorted-le (suc (end c)) pre b post v.3),
  IsSorted-before (suc (end c)) a pre b post v.3 h,
)

pub IsSorted-at :
    (lo : ℕ) (pre : List FreeInfo) (b : FreeInfo) (post : List FreeInfo)
    → IsSorted lo (pre ++ (b ∷ post))
    → (0 < b.size) × (end b < 2 ^ 32) × IsSorted (suc (end b)) post
IsSorted-at lo [] b post v = (v.1, v.2, v.3)
IsSorted-at lo (c ∷ pre) b post v = IsSorted-at (suc (end c)) pre b post v.3

pub All_at {ℓ} :
    (P : FreeInfo → Type ℓ) (pre : List FreeInfo) (b : FreeInfo) (post : List FreeInfo)
    → All P (pre ++ (b ∷ post))
    → P b
All_at P [] b post h = h.0
All_at P (c ∷ pre) b post h = All_at P pre b post h.1

pub All-append {ℓ} :
    (P : FreeInfo → Type ℓ) (xs ys : List FreeInfo) → All P xs → All P ys → All P (xs ++ ys)
All-append P [] ys h k = k
All-append P (x ∷ xs) ys h k = (h.0, All-append P xs ys h.1 k)

-- Insertion passes over the blocks that end before `a`.
pub insert-append :
    (a s : ℕ) (pre post : List FreeInfo)
    → All (λ c. end c < a) pre
    → insert a s (pre ++ post) ≡ pre ++ insert a s post
unfolding insert
insert-append a s [] post h = refl
insert-append a s (c ∷ pre) post h = let ih = insert-append a s pre post h.1 in ground (arith, ih)

-- Insertion before the slot: the block is pushed on what follows.
pub insert_alone :
    (f : ℕ → FreeInfo) (a s r k : ℕ)
    → All (λ c. end c < a) (items f 0 r)
    → (0 < k → a < (f r).addr)
    → insert a s (items f 0 (r + k)) ≡ items f 0 r ++ push_front a s (items f r k)
unfolding insert push_front
insert_alone f a s r zero h above =
    ap (insert a s) (items_split f r 0) ∙ insert-append a s (items f 0 r) [] h
insert_alone f a s r (suc k) h above =
    ap (insert a s) (items_split f r (suc k))
    ∙ insert-append a s (items f 0 r) (items f r (suc k)) h
    ∙ ap (λ t. items f 0 r ++ t) (rw (lt→ltb _ _ (above (omega arith))))

insert_at_end :
    (a s : ℕ) (b : FreeInfo) (bs : List FreeInfo)
    → end b ≡ a
    → insert a s (b ∷ bs) ≡ push_front b.addr (b.size + s) bs
unfolding insert
insert_at_end a s b bs e = ground arith

-- Insertion where the record before the slot ends at the block: that record grows.
pub insert_grown :
    (f : ℕ → FreeInfo) (a s p k : ℕ)
    → All (λ c. end c < a) (items f 0 p)
    → end (f p) ≡ a
    → insert a s (items f 0 (p + suc k))
      ≡ items f 0 p ++ push_front (f p).addr ((f p).size + s) (items f (p + 1) k)
insert_grown f a s p k h e =
    ap (insert a s) (items_split f p (suc k))
    ∙ insert-append a s (items f 0 p) (items f p (suc k)) h
    ∙ ap (λ t. items f 0 p ++ t) (insert_at_end a s (f p) (items f (p + 1) k) e)
