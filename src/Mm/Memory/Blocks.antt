-- ===== src/Mm/Memory/Blocks.antt =====
-- The free list as a list of blocks in address order, and what allocation and release mean there.
use bird_os.Prelude.{
  ℕ, suc, ◌+◌, ◌-◌, ◌≤◌, ◌<◌, ◌^◌, ◌≡◌, refl, Bool, false, ◌&&◌, ◌||◌, Option, none, some, List, [],
  ◌∷◌, arith, ◌==◌, leb, ltb, if◌then◌else◌, All, ◌⊎◌,
}
use bird_os.Mm.Memory.{FreeInfo, free_info}

-- one past the last address of a block
abbrev pub end : FreeInfo → ℕ
end b = b.addr + b.size

-- Blocks in address order from `lo` on, none empty, none past 4 GB, no two of them meeting.
abbrev pub IsSorted : ℕ → List FreeInfo → Type 0
IsSorted lo [] = Unit
IsSorted lo (b ∷ bs) = (lo ≤ b.addr) × (0 < b.size) × (end b < 2 ^ 32) × IsSorted (suc (end b)) bs

-- Address `x` lies in a block.
unfoldable pub covers : ℕ → List FreeInfo → Bool
covers x [] = false
covers x (b ∷ bs) = (leb b.addr x && ltb x (end b)) || covers x bs

unfoldable pub sum_sizes : List FreeInfo → ℕ
sum_sizes [] = 0
sum_sizes (b ∷ bs) = b.size + sum_sizes bs

-- The block from `a` on, of `s` bytes, meets none of the list.
abbrev pub Apart : ℕ → ℕ → List FreeInfo → Type 0
Apart a s = All (λ b. (a + s ≤ b.addr) ⊎ (end b ≤ a))

-- First fit: cut off the front of the first block that is large enough.
unfoldable pub take_fit : List FreeInfo → ℕ → Option ℕ × List FreeInfo
take_fit [] s = (none, [])
take_fit (b ∷ bs) s =
    let (r, bs') = take_fit bs s in
    if leb s b.size
    then (some b.addr, (if b.size == s then bs else free_info (b.addr + s) (b.size - s) ∷ bs))
    else (r, b ∷ bs')

-- Put a block before a list that begins above it, merging the two where they meet.
unfoldable pub push_front : ℕ → ℕ → List FreeInfo → List FreeInfo
push_front a s [] = free_info a s ∷ []
push_front a s (b ∷ bs) =
    if a + s == b.addr then free_info a (s + b.size) ∷ bs else free_info a s ∷ b ∷ bs

-- Insert in address order, merging with a neighbour that the block meets.
unfoldable pub insert : ℕ → ℕ → List FreeInfo → List FreeInfo
unfolding push_front
insert a s [] = free_info a s ∷ []
insert a s (b ∷ bs) =
    let rest = insert a s bs in
    if ltb a b.addr
    then push_front a s (b ∷ bs)
    else if end b == a
    then push_front b.addr (b.size + s) bs
    else b ∷ rest

pub push_front-IsSorted :
    (lo a s : ℕ) (l : List FreeInfo)
    → lo ≤ a
    → 0 < s
    → a + s < 2 ^ 32
    → IsSorted (a + s) l
    → IsSorted lo (push_front a s l)
unfolding push_front
push_front-IsSorted lo a s [] h p q v = (h, p, q, tt)
push_front-IsSorted lo a s (b ∷ bs) h p q v = ground arith

pub push_front-covers :
    (x a s : ℕ) (l : List FreeInfo)
    → covers x (push_front a s l) ≡ ((leb a x && ltb x (a + s)) || covers x l)
unfolding push_front covers
push_front-covers x a s [] = refl
push_front-covers x a s (b ∷ bs) = ground arith

pub push_front-sum : (a s : ℕ) (l : List FreeInfo) → sum_sizes (push_front a s l) ≡ s + sum_sizes l
unfolding push_front sum_sizes
push_front-sum a s [] = refl
push_front-sum a s (b ∷ bs) = ground arith

pub IsSorted-mono : (lo lo' : ℕ) (l : List FreeInfo) → lo' ≤ lo → IsSorted lo l → IsSorted lo' l
IsSorted-mono lo lo' [] h v = tt
IsSorted-mono lo lo' (b ∷ bs) h v = ground arith

-- What lies above `a` and apart from the `s` bytes from `a` on lies above those bytes.
IsSorted-above :
    (a s : ℕ) (l : List FreeInfo) → IsSorted (suc a) l → Apart a s l → IsSorted (a + s) l
IsSorted-above a s [] v d = tt
IsSorted-above a s (b ∷ bs) v d = ground arith

-- The block fits in between, whatever the bound below, and the list stays sorted.
pub insert-IsSorted :
    (lo a s : ℕ) (l : List FreeInfo)
    → lo ≤ a
    → 0 < s
    → a + s < 2 ^ 32
    → Apart a s l
    → IsSorted lo l
    → IsSorted lo (insert a s l)
unfolding insert
insert-IsSorted lo a s [] h p q d v = (h, p, q, tt)
insert-IsSorted lo a s (b ∷ bs) h p q d v = ground (
  arith,
  push_front-IsSorted lo a s (b ∷ bs) h p q,
  IsSorted-above a s bs,
  push_front-IsSorted lo b.addr (b.size + s) bs,
  insert-IsSorted (suc (end b)) a s bs,
)

pub insert-covers :
    (x a s : ℕ) (l : List FreeInfo)
    → covers x (insert a s l) ≡ ((leb a x && ltb x (a + s)) || covers x l)
unfolding insert covers
insert-covers x a s [] = refl
insert-covers x a s (b ∷ bs) = ground (
  arith,
  insert-covers x a s bs,
  push_front-covers x a s (b ∷ bs),
  push_front-covers x b.addr (b.size + s) bs,
)

pub insert-sum : (a s : ℕ) (l : List FreeInfo) → sum_sizes (insert a s l) ≡ s + sum_sizes l
unfolding insert sum_sizes
insert-sum a s [] = refl
insert-sum a s (b ∷ bs) =
    ground
      (arith, insert-sum a s bs, push_front-sum a s (b ∷ bs), push_front-sum b.addr (b.size + s) bs)
