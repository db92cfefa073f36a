-- ===== src/Fs/Bitmap/Imap.antt =====
-- Which inode number `alloc_imap_bit` of fs/open.c gives, and that `do_unlink` gives it back.
use bird_os.Prelude.{
  ℕ, ◌+◌, ◌*◌, ◌/◌, ◌%◌, ◌≤◌, ◌<◌, ◌≡◌, ◌≢◌, ◌⊎◌, inl, inr, refl, sym, ap, ap₂, ◌∙◌, Bool, true,
  false, Option, none, some, ◌==◌, if◌then◌else◌, ltb, Bool-cases, Option-cases, lt→ltb, arith,
  update,
}
use mathlib.Core.Path.{subst}
use bird_os.Fs.Types.{SuperBlock}
use bird_os.Fs.Bitmap.{Sector}
unfoldable use bird_os.Fs.Bitmap.{
  is_full, clear_bit, free_byte, alloc_in_sector, alloc_imap_bit, free_imap_bit,
}
use bird_os.Fs.Bitmap.Bytes.{
  clear_bit_lem, is_full_lem, not_full_lem, free_byte-none, free_byte-some,
}

-- The bit with number `n` in the map's first sector.
abbrev pub imap_bit : ℕ → (ℕ → Sector) → Bool
imap_bit n maps = maps 2 (n / 8) (n % 8)

-- What `alloc_imap_bit` comes to: the first sector is full, or its first clear bit is set.
abbrev pub Allocates : (ℕ → Sector) → Option (ℕ × (ℕ → Sector)) → Type 0
Allocates maps none = ⊥
Allocates maps (some (n, maps')) =
    ((n ≡ 0) × (maps' ≡ maps) × ((m : ℕ) → m < 4096 → imap_bit m maps ≡ true))
    ⊎ ((n < 4096)
        × (imap_bit n maps ≡ false)
        × ((m : ℕ) → m < n → imap_bit m maps ≡ true)
        × ((m : ℕ) → imap_bit m maps' ≡ (if m == n then true else imap_bit m maps))
        × ((i : ℕ) → i ≢ 2 → maps' i ≡ maps i))

module _ (maps : ℕ → Sector) where
  full_sector :
      ((i : ℕ) → 0 ≤ i → i < 0 + 512 → is_full 8 (maps 2 i) ≡ true)
      → (m : ℕ) → m < 4096
      → imap_bit m maps ≡ true
  full_sector h m lt =
      is_full_lem 8 (maps 2 (m / 8)) (h (m / 8) (omega arith) (omega arith)) (m % 8) (omega arith)

  bits_before :
      (j k n : ℕ)
      → n ≡ j * 8 + k
      → k < 8
      → ((i : ℕ) → 0 ≤ i → i < j → is_full 8 (maps 2 i) ≡ true)
      → ((i : ℕ) → 0 ≤ i → i < k → maps 2 j i ≡ true)
      → (m : ℕ) → m < n
      → imap_bit m maps ≡ true
  bits_before j k n e lk h g m lt = elim (Bool-cases (m / 8 == j)) [
    | inl q ↦
        let same : m / 8 ≡ j = ground (arith, q) in
        ap (λ i. maps 2 i (m % 8)) same ∙ g (m % 8) (omega arith) (omega arith)
    | inr q ↦
        let ne : m / 8 ≢ j = ground (arith, q) in
        is_full_lem 8 (maps 2 (m / 8)) (h (m / 8) (omega arith) (omega arith)) (m % 8) (omega arith)
  ]

  set_bit_at :
      (j k m n : ℕ) (v : Bool)
      → n ≡ j * 8 + k
      → k < 8
      → imap_bit m (update maps 2 (update (maps 2) j (update (maps 2 j) k v)))
        ≡ (if m == n then v else imap_bit m maps)
  set_bit_at j k m n v e lk = elim (Bool-cases (m / 8 == j)) [
    | inl q ↦
        let same : m / 8 ≡ j = ground (arith, q) in
        elim (Bool-cases (m % 8 == k)) [
          | inl r ↦
              let at : (m == n) ≡ true = lt_eq m n (omega (arith, same, is_eq (m % 8) k r)) in
              rw (q, r, at) refl
          | inr r ↦
              let ne : (m == n) ≡ false = ne_eq m n λ x. not_eq (m % 8) k r (omega arith) in
              rw (q, r, ne) (ap (λ i. maps 2 i (m % 8)) (sym same))
        ]
    | inr q ↦
        let ne : (m == n) ≡ false = ne_eq m n λ x. not_eq (m / 8) j q (omega arith) in
        rw (q, ne) refl
  ]
    where
      is_eq : (a b : ℕ) → (a == b) ≡ true → a ≡ b
      is_eq a b h = ground (arith, h)

      not_eq : (a b : ℕ) → (a == b) ≡ false → a ≢ b
      not_eq a b h = ground (arith, h)

      lt_eq : (a b : ℕ) → a ≡ b → (a == b) ≡ true
      lt_eq a b h = ground (arith, h)

      ne_eq : (a b : ℕ) → a ≢ b → (a == b) ≡ false
      ne_eq a b h = ground (arith, h)

  some-Allocates :
      (j n : ℕ)
      → n ≡ (0 * 512 + j) * 8 + clear_bit 8 0 (maps 2 j)
      → (0 ≤ j)
        × (j < 0 + 512)
        × (is_full 8 (maps 2 j) ≡ false)
        × ((i : ℕ) → 0 ≤ i → i < j → is_full 8 (maps 2 i) ≡ true)
      → Allocates maps (
          some (
            n,
            update maps 2 (update (maps 2) j (update (maps 2 j) (clear_bit 8 0 (maps 2 j)) true)),
          ))
  some-Allocates j n e (lo, hi, nf, h) =
      let (m, lm, c) = not_full_lem 8 (maps 2 j) nf in
      let (a, lk, g, b) = clear_bit_lem 8 0 (maps 2 j) m (omega arith) lm c in
      let k : ℕ = clear_bit 8 0 (maps 2 j) in
      let e' : n ≡ j * 8 + clear_bit 8 0 (maps 2 j) = omega arith in
      let dv : n / 8 ≡ j = omega arith in
      let md : n % 8 ≡ clear_bit 8 0 (maps 2 j) = omega arith in
      inr (
        omega arith,
        ap₂ (maps 2) dv md ∙ a,
        bits_before j (clear_bit 8 0 (maps 2 j)) n e' (omega arith) h b,
        (λ x. set_bit_at j (clear_bit 8 0 (maps 2 j)) x n true e' (omega arith)),
        λ i ne. ground arith,
      )

  alloc_full : free_byte 512 0 (maps 2) ≡ none → alloc_in_sector 0 maps ≡ (0, maps)
  unfolding alloc_in_sector
  alloc_full f = rw (alloc_in_sector, f) refl

  alloc_some :
      (j : ℕ)
      → free_byte 512 0 (maps 2) ≡ some j
      → alloc_in_sector 0 maps ≡ (
        (0 * 512 + j) * 8 + clear_bit 8 0 (maps 2 j),
        update maps 2 (update (maps 2) j (update (maps 2 j) (clear_bit 8 0 (maps 2 j)) true)),
      )
  unfolding alloc_in_sector
  alloc_some j f = rw (alloc_in_sector, f) refl

  -- Where the map has a sector, `alloc_imap_bit` does not panic. When the first sector is full it
  -- returns 0 and changes nothing; otherwise it returns the number of the first clear bit there,
  -- sets this bit, and changes no other.
  pub alloc_imap_bit-Allocates :
      (sb : SuperBlock) → sb.nr_imap_sects ≢ 0 → Allocates maps (alloc_imap_bit sb maps)
  unfolding alloc_imap_bit
  alloc_imap_bit-Allocates sb ne =
      let at : ltb 0 sb.nr_imap_sects ≡ true = ground arith in
      elim (Option-cases (free_byte 512 0 (maps 2))) [
        | inl f ↦
            rw (Allocates, at, alloc_full f)
              (inl (refl, refl, full_sector (free_byte-none 512 0 (maps 2) f)))
        | inr (j, f) ↦
            rw (Allocates, at, alloc_some j f)
              (some-Allocates j ((0 * 512 + j) * 8 + clear_bit 8 0 (maps 2 j)) refl
                (free_byte-some 512 0 j (maps 2) f))
      ]

free_some :
    (n : ℕ) (maps : ℕ → Sector)
    → n < 4096
    → free_imap_bit n maps
      ≡ some (
          update maps 2
            (update (maps 2) (n / 8 % 512) (update (maps 2 (n / 8 % 512)) (n % 8) false)))
unfolding free_imap_bit
free_some n maps lt =
    let at : ltb (n / 8) 512 ≡ true = lt→ltb (n / 8) 512 (omega arith) in rw at refl

-- A number other than 0 that `alloc_imap_bit` returns can be freed at once, and then every bit of
-- the map is as it was, and so is every other sector.
pub free_imap_bit-alloc_imap_bit :
    (sb : SuperBlock) (maps maps' : ℕ → Sector) (n : ℕ)
    → sb.nr_imap_sects ≢ 0
    → n ≢ 0
    → alloc_imap_bit sb maps ≡ some (n, maps')
    → (maps'' : ℕ → Sector) × (free_imap_bit n maps' ≡ some maps'')
      × ((m : ℕ) → imap_bit m maps'' ≡ imap_bit m maps)
      × ((i : ℕ) → i ≢ 2 → maps'' i ≡ maps i)
free_imap_bit-alloc_imap_bit sb maps maps' n sn nz e =
    elim (subst (Allocates maps) e (alloc_imap_bit-Allocates maps sb sn)) [
      | inl (z, r, q) ↦ absurd (nz z)
      | inr (lt, was, lower, now, rest) ↦ (
        update maps' 2
            (update (maps' 2) (n / 8 % 512) (update (maps' 2 (n / 8 % 512)) (n % 8) false)),
        free_some n maps' lt,
        (λ m.
            set_bit_at maps' (n / 8 % 512) (n % 8) m n false (omega arith) (omega arith)
            ∙ restored m n (imap_bit m maps) (imap_bit m maps')
                (λ q. ap (λ x. imap_bit x maps) q ∙ was) (now m)),
        λ i ne. ground (arith, rest i ne),
      )
    ]
  where
    restored :
        (m n : ℕ) (old new : Bool)
        → (m ≡ n → old ≡ false)
        → new ≡ (if m == n then true else old)
        → (if m == n then false else new) ≡ old
    restored m n old new h e = elim (Bool-cases (m == n)) [
      | inl q ↦ let same : m ≡ n = ground (arith, q) in rw q (sym (h same))
      | inr q ↦ rw q (rw q at e)
    ]
