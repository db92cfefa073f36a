-- ===== src/Fs/Inodes/Table.antt =====
-- The search of `get_inode`, fs/main.c: which slot of the table it finds.
use bird_os.Prelude.{
  ℕ, zero, suc, ◌+◌, ◌≤◌, ◌<◌, ◌≡◌, ◌≢◌, inl, inr, refl, Bool, true, false, ◌&&◌, not, Option, none,
  some, ◌==◌, Bool-cases, arith,
}
use mathlib.Core.Path.{subst}
use mathlib.Core.Option.{none-ne-some}
use bird_os.Fs.Types.{Inode, nr_inode}
use bird_os.Fs.Inodes.{Found, hit, miss}
unfoldable use bird_os.Fs.Inodes.{inode_loop}

-- The slot is in use for the inode.
abbrev pub holds : Inode → ℕ → ℕ → Bool
holds v dev num = not (v.i_cnt == 0) && ((v.i_dev == dev) && (v.i_num == num))

-- No inode is in two slots.
abbrev pub Unique : (ℕ → Inode) → Type 0
Unique t =
    (p q dev num : ℕ)
    → p < nr_inode
    → q < nr_inode
    → holds (t p) dev num ≡ true
    → holds (t q) dev num ≡ true
    → p ≡ q

-- The first free slot among the `k` from `p` on, unless one was known.
abbrev pub FirstFree : ℕ → ℕ → (ℕ → Inode) → Option ℕ → Option ℕ → Type 0
FirstFree k p t (some f) r = r ≡ some f
FirstFree k p t none none = (j : ℕ) → p ≤ j → j < p + k → (t j).i_cnt ≢ 0
FirstFree k p t none (some f) = (p ≤ f) × (f < p + k) × ((t f).i_cnt ≡ 0)

abbrev pub IsFound : ℕ → ℕ → Option ℕ → ℕ → ℕ → (ℕ → Inode) → Found → Type 0
IsFound k p q dev num t (hit r) = (p ≤ r) × (r < p + k) × (holds (t r) dev num ≡ true)
IsFound k p q dev num t (miss r) =
    (((j : ℕ) → p ≤ j → j < p + k → holds (t j) dev num ≡ false) × FirstFree k p t q r)

-- One slot more in front of those that were searched.
widen_hit :
    (k p dev num : ℕ) (q q' : Option ℕ) (t : ℕ → Inode) (r : ℕ)
    → IsFound k (p + 1) q dev num t (hit r)
    → IsFound (suc k) p q' dev num t (hit r)
widen_hit k p dev num q q' t r (a, b, c) = (omega arith, omega arith, c)

widen_all :
    (P : ℕ → Type 0) (k p : ℕ)
    → P p
    → ((j : ℕ) → p + 1 ≤ j → j < p + 1 + k → P j)
    → (j : ℕ) → p ≤ j
    → j < p + suc k
    → P j
widen_all P k p at rest j a b = elim (Bool-cases (j == p)) [
  | inl e ↦ let i : p ≡ j = ground (arith, e) in subst P i at
  | inr e ↦ rest j (ground (arith, e)) (omega arith)
]

widen_known :
    (k p f dev num : ℕ) (t : ℕ → Inode) (r : Found)
    → holds (t p) dev num ≡ false
    → IsFound k (p + 1) (some f) dev num t r
    → IsFound (suc k) p (some f) dev num t r
widen_known k p f dev num t (hit r) e h = widen_hit k p dev num (some f) (some f) t r h
widen_known k p f dev num t (miss r) e (h, i) =
    (widen_all (λ j. holds (t j) dev num ≡ false) k p e h, i)

widen_busy :
    (k p dev num : ℕ) (t : ℕ → Inode) (r : Found)
    → (t p).i_cnt ≢ 0
    → holds (t p) dev num ≡ false
    → IsFound k (p + 1) none dev num t r
    → IsFound (suc k) p none dev num t r
widen_busy k p dev num t (hit r) b e h = widen_hit k p dev num none none t r h
widen_busy k p dev num t (miss none) b e (h, i) =
    (widen_all (λ j. holds (t j) dev num ≡ false) k p e h, widen_all (λ j. (t j).i_cnt ≢ 0) k p b i)
widen_busy k p dev num t (miss (some f)) b e (h, (i, j, l)) =
    (widen_all (λ j. holds (t j) dev num ≡ false) k p e h, (omega arith, omega arith, l))

widen_free :
    (k p dev num : ℕ) (t : ℕ → Inode) (r : Found)
    → (t p).i_cnt ≡ 0
    → IsFound k (p + 1) (some p) dev num t r
    → IsFound (suc k) p none dev num t r
widen_free k p dev num t (hit r) z h = widen_hit k p dev num (some p) none t r h
widen_free k p dev num t (miss none) z (h, i) = absurd (none-ne-some p i)
widen_free k p dev num t (miss (some f)) z (h, i) =
    let e : holds (t p) dev num ≡ false = rw z refl in
    let i : f ≡ p = cc in
    (widen_all (λ j. holds (t j) dev num ≡ false) k p e h, (omega arith, omega arith, rw i z))

pub inode_loop-IsFound :
    (k p : ℕ) (q : Option ℕ) (dev num : ℕ) (t : ℕ → Inode)
    → IsFound k p q dev num t (inode_loop k p q dev num t)
unfolding inode_loop
inode_loop-IsFound zero p none dev num t =
    (λ j a b. absurd (omega arith), λ j a b. absurd (omega arith))
inode_loop-IsFound zero p (some f) dev num t = (λ j a b. absurd (omega arith), refl)
inode_loop-IsFound (suc k) p none dev num t = elim (Bool-cases ((t p).i_cnt == 0)) [
  | inl e ↦ rw e (
      widen_free k p dev num t (inode_loop k (p + 1) (some p) dev num t) (ground (arith, e))
        (inode_loop-IsFound k (p + 1) (some p) dev num t))
  | inr e ↦ elim (Bool-cases (((t p).i_dev == dev) && ((t p).i_num == num))) [
    | inl i ↦ rw (e, i) (omega arith, omega arith, rw (e, i) refl)
    | inr i ↦
        rw (e, i)
          (widen_busy k p dev num t (inode_loop k (p + 1) none dev num t) (ground (arith, e))
            (rw (e, i) refl) (inode_loop-IsFound k (p + 1) none dev num t))
  ]
]
inode_loop-IsFound (suc k) p (some f) dev num t = elim (Bool-cases ((t p).i_cnt == 0)) [
  | inl e ↦ rw e (
      widen_known k p f dev num t (inode_loop k (p + 1) (some f) dev num t) (rw e refl)
        (inode_loop-IsFound k (p + 1) (some f) dev num t))
  | inr e ↦ elim (Bool-cases (((t p).i_dev == dev) && ((t p).i_num == num))) [
    | inl i ↦ rw (e, i) (omega arith, omega arith, rw (e, i) refl)
    | inr i ↦
        rw (e, i)
          (widen_known k p f dev num t (inode_loop k (p + 1) (some f) dev num t) (rw (e, i) refl)
            (inode_loop-IsFound k (p + 1) (some f) dev num t))
  ]
]
