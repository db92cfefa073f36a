-- ===== src/Fs/Bitmap/Smap/Search.antt =====
-- Where `alloc_smap_bit` of fs/open.c finds the first free bit of a sector.
use bird_os.Prelude.{
  ℕ, zero, suc, ◌+◌, ◌-◌, ◌*◌, ◌/◌, ◌%◌, ◌≤◌, ◌<◌, ◌≡◌, ◌≢◌, ◌⊎◌, inl, inr, refl, sym, ap, ap₂, ◌∙◌,
  true, false, ◌==◌, Bool-cases, arith,
}
use mathlib.Core.Path.{subst}
use bird_os.Fs.Types.{sector_size}
use bird_os.Fs.Bitmap.{Sector, is_full, clear_bit}
use bird_os.Fs.Bitmap.Bytes.{clear_bit_lem, is_full_lem, not_full_lem}
use bird_os.Fs.Bitmap.Smap.{Progress, byte_loop}
unfoldable use bird_os.Fs.Bitmap.Smap.{alloc_in_byte, mark_byte}
use bird_os.Fs.Bitmap.Smap.Marks.{
  flat, Marks, mark_byte-Marks, Marks-Marks, known_loop, byte_loop_more, byte_loop_zero,
}

-- The number of the sector that bit `f` of sector `i` of the map stands for
abbrev pub sector_of : ℕ → ℕ → ℕ → ℕ
sector_of n_1st i f = i * 4096 + f + n_1st - 1

-- Every bit from `lo` to `hi` is set and nothing changes, or the bits from the first clear bit `f`
-- there to `hi` are marked.
abbrev pub Finds : ℕ → ℕ → ℕ → ℕ → Progress → Progress → Type 0
Finds n_1st i lo hi s t =
    (((m : ℕ) → lo ≤ m → m < hi → flat s.fsbuf m ≡ true) × (t ≡ s))
    ⊎ ((f : ℕ) × (lo ≤ f)
        × (f < hi)
        × (flat s.fsbuf f ≡ false)
        × ((m : ℕ) → lo ≤ m → m < f → flat s.fsbuf m ≡ true)
        × (t.free_sect_nr ≡ sector_of n_1st i f)
        × Marks f (hi - f) s t)

module _ (n_1st i : ℕ) where
  set_from :
      (j hi : ℕ) (buf : Sector)
      → is_full 8 (buf j) ≡ true
      → ((m : ℕ) → 8 * (j + 1) ≤ m → m < hi → flat buf m ≡ true)
      → (m : ℕ) → 8 * j ≤ m
      → m < hi
      → flat buf m ≡ true
  set_from j hi buf e h m lo lt = elim (Bool-cases (m / 8 == j)) [
    | inl q ↦
        let at : m / 8 ≡ j = ground (arith, q) in
        ap (λ x. buf x (m % 8)) at ∙ is_full_lem 8 (buf j) e (m % 8) (omega arith)
    | inr q ↦ let off : m / 8 ≢ j = ground (arith, q) in h m (omega arith) lt
  ]

  Finds-full :
      (j hi : ℕ) (s t : Progress)
      → is_full 8 (s.fsbuf j) ≡ true
      → Finds n_1st i (8 * (j + 1)) hi s t
      → Finds n_1st i (8 * j) hi s t
  Finds-full j hi s t e (inl (h, q)) = inl (set_from j hi s.fsbuf e h, q)
  Finds-full j hi s t e (inr (f, lo, lt, c, b, q, k)) =
      inr (f, omega arith, lt, c, set_from j f s.fsbuf e b, q, k)

  full_byte :
      (j : ℕ) (s : Progress)
      → (s.free_sect_nr == 0) ≡ true
      → is_full 8 (s.fsbuf j) ≡ true
      → alloc_in_byte n_1st i j s ≡ s
  unfolding alloc_in_byte
  full_byte j s z e = rw (z, e) refl

  open_byte :
      (j : ℕ) (s : Progress)
      → (s.free_sect_nr == 0) ≡ true
      → is_full 8 (s.fsbuf j) ≡ false
      → alloc_in_byte n_1st i j s
        ≡ mark_byte j (clear_bit 8 0 (s.fsbuf j)) (record s {
          free_sect_nr = (i * sector_size + j) * 8 + clear_bit 8 0 (s.fsbuf j) + n_1st - 1;
        })
  unfolding alloc_in_byte
  open_byte j s z e = rw (z, e) refl

  bits_below :
      (j k : ℕ) (buf : Sector)
      → k < 8
      → ((x : ℕ) → 0 ≤ x → x < k → buf j x ≡ true)
      → (m : ℕ) → 8 * j ≤ m
      → m < 8 * j + k
      → flat buf m ≡ true
  bits_below j k buf lk h m lo lt =
      let at : m / 8 ≡ j = omega arith in
      ap (λ x. buf x (m % 8)) at ∙ h (m % 8) (omega arith) (omega arith)

  mark_byte_nr : (j k : ℕ) (s : Progress) → (mark_byte j k s).free_sect_nr ≡ s.free_sect_nr
  unfolding mark_byte
  mark_byte_nr j k s = refl

  -- The first byte that is not full, and the bytes behind it
  Finds-open :
      (n j : ℕ) (s : Progress)
      → s.left ≢ 0
      → 2 ≤ n_1st
      → (s.free_sect_nr == 0) ≡ true
      → is_full 8 (s.fsbuf j) ≡ false
      → Finds n_1st i
          (8 * j)
          (8 * (j + suc n))
          s
          (byte_loop n n_1st i (j + 1) (alloc_in_byte n_1st i j s))
  Finds-open n j s ne two z e =
      let (x, lx, cx) = not_full_lem 8 (s.fsbuf j) e in
      let (a, lk, g, b) = clear_bit_lem 8 0 (s.fsbuf j) x (omega arith) lx cx in
      found (clear_bit 8 0 (s.fsbuf j)) (omega arith) a b (open_byte j s z e)
    where
      not_zero : (x : ℕ) → x + n_1st - 1 ≢ 0
      not_zero x e = omega (arith, two, e)

      found :
          (k : ℕ)
          → k < 8
          → s.fsbuf j k ≡ false
          → ((x : ℕ) → 0 ≤ x → x < k → s.fsbuf j x ≡ true)
          → alloc_in_byte n_1st i j s
            ≡ mark_byte j k (record s { free_sect_nr = (i * sector_size + j) * 8 + k + n_1st - 1 })
          → Finds n_1st i
              (8 * j)
              (8 * (j + suc n))
              s
              (byte_loop n n_1st i (j + 1) (alloc_in_byte n_1st i j s))
      found k lk c b q =
          let s1 : Progress = record s {
            free_sect_nr = (i * sector_size + j) * 8 + k + n_1st - 1;
          } in
          let t : Progress = mark_byte j k s1 in
          let nz : t.free_sect_nr ≢ 0 =
            λ w. not_zero ((i * sector_size + j) * 8 + k) (sym (mark_byte_nr j k s1) ∙ w) in
          let (h, same) = known_loop n n_1st i (j + 1) t nz in
          let count : (8 - k) + 8 * n ≡ 8 * (j + suc n) - (8 * j + k) = omega arith in
          rw q (
            inr (
              8 * j + k,
              omega arith,
              omega arith,
              (let dv : (8 * j + k) / 8 ≡ j = omega arith in
                  let md : (8 * j + k) % 8 ≡ k = omega arith in ap₂ s.fsbuf dv md ∙ c),
              bits_below j k s.fsbuf lk b,
              same ∙ mark_byte_nr j k s1 ∙ omega arith,
              subst (λ w. Marks (8 * j + k) w s (byte_loop n n_1st i (j + 1) t)) count
                  (Marks-Marks (8 * j + k) (8 - k) (8 * (j + 1)) (8 * n) s1 t
                    (byte_loop n n_1st i (j + 1) t) (omega arith) (mark_byte-Marks j k s1 ne lk) h),
            ))

  pub start_loop :
      (n j : ℕ) (s : Progress)
      → s.left ≢ 0
      → 2 ≤ n_1st
      → (s.free_sect_nr == 0) ≡ true
      → Finds n_1st i (8 * j) (8 * (j + n)) s (byte_loop n n_1st i j s)
  start_loop zero j s ne two z =
      rw (byte_loop_zero n_1st i j s) (inl (λ m lo hi. absurd (omega arith), refl))
  start_loop (suc n) j s ne two z =
      let more : (s.left == 0) ≡ false = ground (arith, ne) in
      elim (Bool-cases (is_full 8 (s.fsbuf j))) [
        | inl e ↦
            let count : 8 * (j + 1 + n) ≡ 8 * (j + suc n) = omega arith in
            rw (byte_loop_more n n_1st i j s more, full_byte j s z e)
              (subst (λ h. Finds n_1st i (8 * j) h s (byte_loop n n_1st i (j + 1) s)) count
                (Finds-full j (8 * (j + 1 + n)) s (byte_loop n n_1st i (j + 1) s) e
                  (start_loop n (j + 1) s ne two z)))
        | inr e ↦ rw (byte_loop_more n n_1st i j s more) (Finds-open n j s ne two z e)
      ]
