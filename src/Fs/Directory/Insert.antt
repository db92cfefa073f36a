-- ===== src/Fs/Directory/Insert.antt =====
-- Where `new_dir_entry` of fs/open.c puts an entry.
use mathlib.Core.Path.{subst}
use bird_os.Prelude.{
  ℕ, zero, suc, ◌+◌, ◌*◌, ◌/◌, ◌%◌, ◌≤◌, ◌<◌, ◌≡◌, refl, sym, ap, ◌∙◌, inl, inr, Bool, true, false,
  Option, none, some, ◌==◌, ltb, if◌then◌else◌, Bool-cases, ltb→lt, arith,
}
use bird_os.Fs.Directory.{DirEntry, Slot, behind, free, all_used}
unfoldable use bird_os.Fs.Directory.{free_slots, free_blks}
use bird_os.Fs.Directory.Search.{entry_at, entry_at_head, entry_at_tail, fails_from, split_at}

abbrev pub is_free : DirEntry → Bool
is_free e = e.inode_nr == 0

-- The result of the inner loop, for entry number `m` of the directory at slot `j`.
abbrev Looked : ℕ → ℕ → ℕ → ℕ → (ℕ → DirEntry) → Slot → Type 0
Looked k j m n t (behind j') =
    (i : ℕ) × (j' ≡ j + i) × (i < k) × (m + i ≡ n) × ((h : ℕ) → h < i → is_free (t (j + h)) ≡ false)
Looked k j m n t (free j') =
    (i : ℕ) × (j' ≡ j + i)
    × (i < k)
    × (m + i < n)
    × ((h : ℕ) → h < i → is_free (t (j + h)) ≡ false)
    × (is_free (t (j + i)) ≡ true)
Looked k j m n t (all_used m') =
    (m' ≡ m + k) × (m' ≤ n) × ((h : ℕ) → h < k → is_free (t (j + h)) ≡ false)

Looked-next :
    (k j m n : ℕ) (t : ℕ → DirEntry) (r : Slot)
    → is_free (t j) ≡ false
    → Looked k (j + 1) (m + 1) n t r
    → Looked (suc k) j m n t r
Looked-next k j m n t (behind j') e (i, eq, lt, le, first) = (
  i + 1,
  omega arith,
  omega arith,
  omega arith,
  fails_from (λ x. is_free (t x)) (λ h. h < i + 1) j e λ h q. first h (omega arith),
)
Looked-next k j m n t (free j') e (i, eq, lt, le, first, y) = (
  i + 1,
  omega arith,
  omega arith,
  omega arith,
  fails_from (λ x. is_free (t x)) (λ h. h < i + 1) j e λ h q. first h (omega arith),
  ap (λ x. is_free (t x)) (omega arith) ∙ y,
)
Looked-next k j m n t (all_used m') e (eq, le, out) = (
  omega arith,
  le,
  fails_from (λ x. is_free (t x)) (λ h. h < suc k) j e λ h q. out h (omega arith),
)

free_slots-Looked :
    (k j m n : ℕ) (t : ℕ → DirEntry) → m ≤ n → Looked k j m n t (free_slots k j m n t)
unfolding free_slots
free_slots-Looked zero j m n t le = (omega arith, le, λ h lt. absurd (omega arith))
free_slots-Looked (suc k) j m n t le = elim (Bool-cases (ltb n (m + 1))) [
  | inl g ↦
      let last : n < m + 1 = ltb→lt n (m + 1) g in
      rw g (0, omega arith, omega arith, omega arith, λ h q. absurd (omega arith))
  | inr g ↦ elim (Bool-cases (is_free (t j))) [
    | inl e ↦
        rw (g, e)
          (
            0,
            omega arith,
            omega arith,
            ground (arith, g),
            λ h q. absurd (omega arith),
            ap (λ x. is_free (t x)) (omega arith) ∙ e,
          )
    | inr e ↦
        rw (g, e)
          (Looked-next k j m n t (free_slots k (j + 1) (m + 1) n t) e
            (free_slots-Looked k (j + 1) (m + 1) n t (ground (arith, g))))
  ]
]

-- The entry `q` is the first of the directory that is free, or that behind its last one.
abbrev pub Places : ℕ → ℕ → ℕ → (ℕ → ℕ → DirEntry) → ℕ → ℕ → Bool → Type 0
Places m n sect t i j grows =
    (q : ℕ) × (i ≡ q / 32)
    × (j ≡ q % 32)
    × (m + q ≤ n)
    × ((h : ℕ) → h < q → is_free (entry_at t sect h) ≡ false)
    × (grows ≡ (m + q == n))
    × ((m + q == n) ≡ false → is_free (entry_at t sect q) ≡ true)

-- The result of the outer loop, when it stands `i` sectors behind the first one.
abbrev Placed : ℕ → ℕ → ℕ → ℕ → (ℕ → ℕ → DirEntry) → Option (ℕ × ℕ × Bool) → Type 0
Placed i m n sect t none = ⊥
Placed i m n sect t (some (i', j, grows)) =
    (d : ℕ) × (i' ≡ i + d) × Places m n (sect + i) t d j grows

module _ (k i m n sect : ℕ) (t : ℕ → ℕ → DirEntry) where
  Placed-tail :
      (r : Option (ℕ × ℕ × Bool))
      → ((h : ℕ) → h < 32 → is_free (t (sect + i) (0 + h)) ≡ false)
      → Placed (i + 1) (m + 32) n sect t r
      → Placed i m n sect t r
  Placed-tail none out p = p
  Placed-tail (some (i', j, grows)) out (d, eq, (q, di, dj, le, used, g, fr)) =
      let same : (h : ℕ) → entry_at t (sect + (i + 1)) h ≡ entry_at t (sect + i + 1) h =
        λ h. ap (λ x. entry_at t x h) (omega arith) in
      (
        d + 1,
        omega arith,
        (
          32 + q,
          omega arith,
          omega arith,
          omega arith,
          split_at (λ e. is_free e ≡ false) (λ h. h < 32 + q) t (sect + i) (λ h b q. out h b)
              (λ h lt. ap is_free (sym (same h)) ∙ used h (omega arith)),
          g ∙ ap (λ x. x == n) (omega arith),
          λ ne.
              ap is_free (entry_at_tail t (sect + i) q ∙ sym (same q))
              ∙ fr (ap (λ x. x == n) (omega arith) ∙ ne),
        ),
      )

  -- What the outer loop makes of the result of the inner one
  Placed-slot :
      (r : Slot)
      → m ≤ n
      → Looked 32 0 m n (t (sect + i)) r
      → ((m' : ℕ)
          → m' ≤ n
          → m' ≡ m + 32
          → Placed (i + 1) m' n sect t (free_blks k (i + 1) m' n sect t))
      → Placed i m n sect t (elim r [
        | behind j ↦ some (i, j, true)
        | free j ↦ some (i, j, false)
        | all_used m' ↦ if ltb n m' then none else free_blks k (i + 1) m' n sect t
      ])
  Placed-slot (behind j') le (d, eq, lt, here, used) f = (
    0,
    omega arith,
    (
      d,
      omega arith,
      omega arith,
      omega arith,
      λ h b. ap is_free (entry_at_head t (sect + i) h (omega arith)) ∙ used h b,
      ground (arith, here),
      λ ne. absurd (ground (arith, here, ne)),
    ),
  )
  Placed-slot (free j') le (d, eq, lt, here, used, y) f = (
    0,
    omega arith,
    (
      d,
      omega arith,
      omega arith,
      omega arith,
      λ h b. ap is_free (entry_at_head t (sect + i) h (omega arith)) ∙ used h b,
      ground (arith, here),
      λ ne. ap is_free (entry_at_head t (sect + i) d lt) ∙ y,
    ),
  )
  Placed-slot (all_used m') le (eq, le', out) f =
      let more : ltb n m' ≡ false = ground (arith, le') in
      let rest : Placed (i + 1) (m + 32) n sect t (free_blks k (i + 1) m' n sect t) =
        subst (λ x. Placed (i + 1) x n sect t (free_blks k (i + 1) m' n sect t)) eq (f m' le' eq) in
      rw more (Placed-tail (free_blks k (i + 1) m' n sect t) out rest)

free_blks-Placed :
    (k i m n sect : ℕ) (t : ℕ → ℕ → DirEntry)
    → m ≤ n
    → n < m + 32 * k
    → Placed i m n sect t (free_blks k i m n sect t)
unfolding free_blks
free_blks-Placed zero i m n sect t le lt = absurd (omega arith)
free_blks-Placed (suc k) i m n sect t le lt =
    Placed-slot k i m n sect t (free_slots 32 0 m n (t (sect + i))) le
      (free_slots-Looked 32 0 m n (t (sect + i)) le)
      λ m' le' eq. free_blks-Placed k (i + 1) m' n sect t le' (omega (arith, eq))

-- The search of `new_dir_entry` in a directory of `n` entries ends at such a place.
pub free_blks-Places :
    (k n sect : ℕ) (t : ℕ → ℕ → DirEntry)
    → n < 32 * k
    → (i : ℕ) × (j : ℕ) × (grows : Bool) × (free_blks k 0 0 n sect t ≡ some (i, j, grows))
      × Places 0 n sect t i j grows
free_blks-Places k n sect t lt =
    place (free_blks k 0 0 n sect t) refl
      (free_blks-Placed k 0 0 n sect t (omega arith) (omega arith))
  where
    place :
        (r : Option (ℕ × ℕ × Bool))
        → free_blks k 0 0 n sect t ≡ r
        → Placed 0 0 n sect t r
        → (i : ℕ) × (j : ℕ) × (grows : Bool) × (free_blks k 0 0 n sect t ≡ some (i, j, grows))
          × Places 0 n sect t i j grows
    place none e p = absurd p
    place (some (i, j, grows)) e (d, eq, p) =
        let same : d ≡ i = omega (arith, eq) in
        (
          i,
          j,
          grows,
          e,
          subst (λ x. Places 0 n sect t x j grows) same
              (subst (λ x. Places 0 n x t d j grows) (omega arith) p),
        )
