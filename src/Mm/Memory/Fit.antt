-- ===== src/Mm/Memory/Fit.antt =====
-- First fit on a sorted list of blocks.
use bird_os.Prelude.{
  not, Bool-cases, inl, inr, ℕ, suc, ◌+◌, ◌-◌, ◌≤◌, ◌<◌, ◌^◌, ◌≡◌, refl, ap, tests, leb→le, true,
  false, ◌&&◌, none, some, List, [], ◌∷◌, arith, ◌==◌, leb, ltb, All,
}
use bird_os.Mm.Memory.{FreeInfo}
use bird_os.Mm.Memory.Blocks.{end, IsSorted, covers, sum_sizes, Apart, take_fit, IsSorted-mono}

pub take_fit-IsSorted :
    (lo s : ℕ) (l : List FreeInfo) → 0 < s → IsSorted lo l → IsSorted lo (take_fit l s).1
unfolding take_fit
take_fit-IsSorted lo s [] h v = tt
take_fit-IsSorted lo s (b ∷ bs) h v = elim (Bool-cases (leb s b.size)) [
  | inl fits ↦ elim (Bool-cases (b.size == s)) [
    | inl whole ↦ rw (fits, whole) (IsSorted-mono (suc (end b)) lo bs (omega arith) v.3)
    | inr part ↦
        rw (fits, part)
          (let e : b.addr + s + (b.size - s) ≡ end b = ground arith in
            (omega arith, ground arith, omega arith, rw e v.3))
  ]
  | inr small ↦ rw small (v.0, v.1, v.2, take_fit-IsSorted (suc (end b)) s bs h v.3)
]

-- The addresses below a sorted list are not in it.
covers-below : (lo x : ℕ) (l : List FreeInfo) → IsSorted lo l → x < lo → covers x l ≡ false
unfolding covers
covers-below lo x [] v h = refl
covers-below lo x (b ∷ bs) v h = ground (arith, covers-below (suc (end b)) x bs)

eq_of_some : {a r : ℕ} → some a ≡ some r → a ≡ r
eq_of_some e = cc

-- What allocation returns begins a block of at least `s` bytes above `lo`.
pub take_fit-block :
    (lo s : ℕ) (l : List FreeInfo) {r : ℕ}
    → IsSorted lo l
    → (take_fit l s).0 ≡ some r
    → (lo ≤ r) × (r + s < 2 ^ 32)
unfolding take_fit
take_fit-block lo s [] v e = cc
take_fit-block lo s (b ∷ bs) {r} v e = elim (Bool-cases (leb s b.size)) [
  | inl fits ↦ let e' : b.addr ≡ r = eq_of_some (rw fits at e) in ground arith
  | inr small ↦
      let e' : (take_fit bs s).0 ≡ some r = rw small at e in
      let ih = take_fit-block (suc (end b)) s bs v.3 e' in omega arith
]

-- Allocation takes the addresses of the block that it returns, and no other, out of the list.
pub take_fit-covers :
    (lo x s : ℕ) (l : List FreeInfo) {r : ℕ}
    → IsSorted lo l
    → (take_fit l s).0 ≡ some r
    → covers x (take_fit l s).1 ≡ (covers x l && not (leb r x && ltb x (r + s)))
unfolding take_fit covers
take_fit-covers lo x s [] v e = refl
take_fit-covers lo x s (b ∷ bs) {r} v e = elim (Bool-cases (leb s b.size)) [
  | inl fits ↦ elim (Bool-cases (b.size == s)) [
    | inl whole ↦
        rw (fits, whole)
          (let e' : b.addr ≡ r = eq_of_some (rw fits at e) in
            ground (arith, covers-below (suc (end b)) x bs))
    | inr part ↦
        rw (fits, part)
          (let e' : b.addr ≡ r = eq_of_some (rw fits at e) in
            ground (arith, covers-below (suc (end b)) x bs))
  ]
  | inr small ↦ rw small (
      let e' : (take_fit bs s).0 ≡ some r = rw small at e in
      ground (
        arith,
        covers-below (suc (end b)) x bs,
        take_fit-covers (suc (end b)) x s bs v.3 e',
        take_fit-block (suc (end b)) s bs v.3 e',
      ))
]

-- Each address of the block that allocation returns was free.
pub take_fit_was_free :
    (lo x s : ℕ) (l : List FreeInfo) {r : ℕ}
    → IsSorted lo l
    → (take_fit l s).0 ≡ some r
    → r ≤ x
    → x < r + s
    → covers x l ≡ true
unfolding take_fit covers
take_fit_was_free lo x s [] v e h k = cc
take_fit_was_free lo x s (b ∷ bs) {r} v e h k = elim (Bool-cases (leb s b.size)) [
  | inl fits ↦ let e' : b.addr ≡ r = eq_of_some (rw fits at e) in ground arith
  | inr small ↦
      let e' : (take_fit bs s).0 ≡ some r = rw small at e in
      ground (arith, take_fit_was_free (suc (end b)) x s bs v.3 e' h k)
]

IsSorted-Apart : (r s lo : ℕ) (l : List FreeInfo) → r + s ≤ lo → IsSorted lo l → Apart r s l
IsSorted-Apart r s lo [] h v = tt
IsSorted-Apart r s lo (b ∷ bs) h v =
    (inl (omega arith), IsSorted-Apart r s (suc (end b)) bs (omega arith) v.3)

-- What is left lies apart from the block that allocation returns.
pub take_fit-Apart :
    (lo s : ℕ) (l : List FreeInfo) {r : ℕ}
    → IsSorted lo l
    → (take_fit l s).0 ≡ some r
    → Apart r s (take_fit l s).1
unfolding take_fit
take_fit-Apart lo s [] v e = tt
take_fit-Apart lo s (b ∷ bs) {r} v e = elim (Bool-cases (leb s b.size)) [
  | inl fits ↦
      let e' : b.addr ≡ r = eq_of_some (rw fits at e) in
      let later : Apart r s bs =
        IsSorted-Apart r s (suc (end b)) bs (omega (tests, leb→le s b.size fits)) v.3 in
      elim (Bool-cases (b.size == s)) [
        | inl whole ↦ rw (fits, whole) later
        | inr part ↦ rw (fits, part) (inl (omega arith), later)
      ]
  | inr small ↦
      let e' : (take_fit bs s).0 ≡ some r = rw small at e in
      rw small (
        inr (omega (arith, (take_fit-block (suc (end b)) s bs v.3 e').0)),
        take_fit-Apart (suc (end b)) s bs v.3 e',
      )
]

-- The sizes that are left, and the sizes where nothing fits.
pub take_fit-sum :
    (s : ℕ) (l : List FreeInfo) {r : ℕ}
    → (take_fit l s).0 ≡ some r
    → s + sum_sizes (take_fit l s).1 ≡ sum_sizes l
unfolding take_fit sum_sizes
take_fit-sum s [] e = cc
take_fit-sum s (b ∷ bs) {r} e = elim (Bool-cases (leb s b.size)) [
  | inl fits ↦ elim (Bool-cases (b.size == s)) [
    | inl whole ↦ rw (fits, whole) (ground arith)
    | inr part ↦ rw (fits, part) (ground arith)
  ]
  | inr small ↦
      let e' : (take_fit bs s).0 ≡ some r = rw small at e in
      rw small (omega (arith, take_fit-sum s bs e'))
]

pub take_fit-none :
    (s : ℕ) (l : List FreeInfo)
    → (take_fit l s).0 ≡ none
    → ((take_fit l s).1 ≡ l) × All (λ b. b.size < s) l
unfolding take_fit
take_fit-none s [] e = (refl, tt)
take_fit-none s (b ∷ bs) e = elim (Bool-cases (leb s b.size)) [
  | inl fits ↦ cc (rw fits at e)
  | inr small ↦
      let e' : (take_fit bs s).0 ≡ none = rw small at e in
      let ih = take_fit-none s bs e' in rw small (ap (λ t. b ∷ t) ih.0, (ground arith, ih.1))
]
