-- ===== src/Fs/Remove/Scan.antt =====
-- Which entry `do_unlink` of fs/link.c clears, and the size that it counts.
use bird_os.Prelude.{
  ℕ, zero, suc, ◌+◌, ◌*◌, ◌≤◌, ◌<◌, ◌≡◌, refl, ap, ap₂, ◌∙◌, inl, inr, Bool, true, false, ◌==◌, ltb,
  if◌then◌else◌, Bool-cases, ltb→lt, arith,
}
use bird_os.Fs.Directory.{DirEntry}
use bird_os.Fs.Directory.Search.{fails_from}
use bird_os.Fs.Remove.{Cleared, past, cleared, through}
unfoldable use bird_os.Fs.Remove.{clear_slots}

abbrev pub has : ℕ → DirEntry → Bool
has nr e = e.inode_nr == nr

-- How many of the `k` entries from `i` on are in use
unfoldable pub in_use : (ℕ → DirEntry) → ℕ → ℕ → ℕ
in_use f i zero = 0
in_use f i (suc k) = (if (f i).inode_nr == 0 then 0 else 1) + in_use f (i + 1) k

pub in_use-append :
    (f : ℕ → DirEntry) (i a b : ℕ) → in_use f i (a + b) ≡ in_use f i a + in_use f (i + a) b
unfolding in_use
in_use-append f i zero b =
    let e : in_use f (i + 0) b ≡ in_use f i b = ap (λ x. in_use f x b) (omega arith) in
    let g : in_use f i (0 + b) ≡ in_use f i b = ap (in_use f i) (omega arith) in omega (arith, e, g)
in_use-append f i (suc a) b =
    let e : suc a + b ≡ suc (a + b) = omega arith in
    let g : in_use f (i + 1 + a) b ≡ in_use f (i + suc a) b =
      ap (λ x. in_use f x b) (omega arith) in
    rw e (omega (arith, in_use-append f (i + 1) a b, g))

pub in_use-cong :
    (f g : ℕ → DirEntry) (i j k : ℕ)
    → ((h : ℕ) → h < k → f (i + h) ≡ g (j + h))
    → in_use f i k ≡ in_use g j k
unfolding in_use
in_use-cong f g i j zero e = refl
in_use-cong f g i j (suc k) e =
    ap₂ (λ x y. (if x.inode_nr == 0 then 0 else 1) + y)
      (ap f (omega arith) ∙ e 0 (omega arith) ∙ ap g (omega arith))
      (in_use-cong f g (i + 1) (j + 1) k
        λ h b. ap f (omega arith) ∙ e (suc h) (omega arith) ∙ ap g (omega arith))

-- The result of the inner loop, for entry number `m` of the directory at slot `j`.
abbrev pub Counts : ℕ → ℕ → ℕ → ℕ → ℕ → ℕ → (ℕ → DirEntry) → Cleared → Type 0
Counts k j m n d nr t (past m' d') =
    (n < m + k) × (m' ≡ n + 1) × ((h : ℕ) → m + h < n → has nr (t (j + h)) ≡ false)
Counts k j m n d nr t (cleared j' m' d') =
    (i : ℕ) × (j' ≡ j + i)
    × (i < k)
    × (m' ≡ m + i + 1)
    × (m' ≤ n)
    × (d' ≡ d + 16 * in_use t j i)
    × ((h : ℕ) → h < i → has nr (t (j + h)) ≡ false)
    × (has nr (t (j + i)) ≡ true)
Counts k j m n d nr t (through m' d') =
    (m' ≡ m + k)
    × (m' ≤ n)
    × (d' ≡ d + 16 * in_use t j k)
    × ((h : ℕ) → h < k → has nr (t (j + h)) ≡ false)

abbrev counted : ℕ → DirEntry → ℕ
counted d e = if e.inode_nr == 0 then d else d + 16

in_use-suc :
    (t : ℕ → DirEntry) (j i d d' : ℕ)
    → d' ≡ counted d (t j) + 16 * in_use t (j + 1) i
    → d' ≡ d + 16 * in_use t j (suc i)
unfolding in_use
in_use-suc t j i d d' e = ground (arith, e)

Counts-next :
    (k j m n d nr : ℕ) (t : ℕ → DirEntry) (r : Cleared)
    → has nr (t j) ≡ false
    → Counts k (j + 1) (m + 1) n (counted d (t j)) nr t r
    → Counts (suc k) j m n d nr t r
Counts-next k j m n d nr t (past m' d') e (lt, eq, out) = (
  omega arith,
  eq,
  fails_from (λ x. has nr (t x)) (λ h. m + h < n) j e λ h q. out h (omega arith),
)
Counts-next k j m n d nr t (cleared j' m' d') e (i, ej, lt, em, le, ed, out, y) = (
  suc i,
  omega arith,
  omega arith,
  omega arith,
  le,
  in_use-suc t j i d d' ed,
  fails_from (λ x. has nr (t x)) (λ h. h < suc i) j e λ h q. out h (omega arith),
  ap (λ x. has nr (t x)) (omega arith) ∙ y,
)
Counts-next k j m n d nr t (through m' d') e (em, le, ed, out) = (
  omega arith,
  le,
  in_use-suc t j k d d' ed,
  fails_from (λ x. has nr (t x)) (λ h. h < suc k) j e λ h q. out h (omega arith),
)

pub clear_slots-Counts :
    (k j m n d nr : ℕ) (t : ℕ → DirEntry)
    → m ≤ n
    → Counts k j m n d nr t (clear_slots k j m n d nr t)
unfolding clear_slots in_use
clear_slots-Counts zero j m n d nr t le =
    (omega arith, le, omega arith, λ h lt. absurd (omega arith))
clear_slots-Counts (suc k) j m n d nr t le = elim (Bool-cases (ltb n (m + 1))) [
  | inl g ↦
      let last : n < m + 1 = ltb→lt n (m + 1) g in
      rw g (omega arith, omega arith, λ h q. absurd (omega arith))
  | inr g ↦ elim (Bool-cases (has nr (t j))) [
    | inl e ↦
        rw (g, e)
          (
            0,
            omega arith,
            omega arith,
            omega arith,
            ground (arith, g),
            omega arith,
            λ h q. absurd (omega arith),
            ap (λ x. has nr (t x)) (omega arith) ∙ e,
          )
    | inr e ↦
        rw (g, e)
          (Counts-next k j m n d nr t (clear_slots k (j + 1) (m + 1) n (counted d (t j)) nr t) e
            (clear_slots-Counts k (j + 1) (m + 1) n (counted d (t j)) nr t (ground (arith, g))))
  ]
]
