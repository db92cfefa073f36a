-- ===== src/Fs/Bitmap/Smap/Sectors.antt =====
-- The loop of `alloc_smap_bit` of fs/open.c over the sectors of the map, once the first free sector
-- is known.
use bird_os.Prelude.{
  ℕ, zero, suc, ◌+◌, ◌-◌, ◌*◌, ◌/◌, ◌%◌, ◌≤◌, ◌≡◌, ◌≢◌, inl, inr, refl, sym, ap, ap₂, ◌∙◌, Bool,
  true, false, ◌&&◌, ◌||◌, ◌==◌, if◌then◌else◌, Bool-cases, arith, update,
}
use mathlib.Core.Path.{subst}
use bird_os.Fs.Types.{sector_size}
use bird_os.Fs.Bitmap.{Sector}
use bird_os.Fs.Bitmap.Smap.{Progress, byte_loop}
unfoldable use bird_os.Fs.Bitmap.Smap.{sect_loop}
use bird_os.Fs.Bitmap.Smap.Marks.{flat, Marks, in_run, in_run_bounds, known_loop}

-- Bit `m` of the map whose first sector is `blk0`
abbrev pub map_bit : ℕ → ℕ → (ℕ → Sector) → Bool
map_bit blk0 m maps = flat (maps (blk0 + m / 4096)) (m % 4096)

run_in_sector : (i f n m : ℕ) → m / 4096 ≡ i → in_run f n (m % 4096) ≡ in_run (4096 * i + f) n m
run_in_sector i f n m e = let d : m ≡ 4096 * i + m % 4096 = omega (arith, e) in ground (arith, d)

run_outside : (i f n m : ℕ) → m / 4096 ≢ i → f + n ≤ 4096 → in_run (4096 * i + f) n m ≡ false
run_outside i f n m ne h = elim (Bool-cases (in_run (4096 * i + f) n m)) [
  | inl e ↦
      let (lo, hi) = in_run_bounds (4096 * i + f) n m e in absurd (ne (omega (arith, lo, hi, h)))
  | inr e ↦ e
]

update_same : (maps : ℕ → Sector) (a b : ℕ) (v : Sector) → a ≡ b → update maps b v a ≡ v
update_same maps a b v e = ground (arith, e)

update_other : (maps : ℕ → Sector) (a b : ℕ) (v : Sector) → a ≢ b → update maps b v a ≡ maps a
update_other maps a b v e = ground (arith, e)

module _ (n_1st blk0 : ℕ) where
  -- The progress at the start of sector `i`, and at its end
  abbrev pub at_start : ℕ → ℕ → ℕ → (ℕ → Sector) → Progress
  at_start i left free maps = record { fsbuf = maps (blk0 + i); left = left; free_sect_nr = free }

  abbrev pub at_end : ℕ → ℕ → ℕ → (ℕ → Sector) → Progress
  at_end i left free maps = byte_loop sector_size n_1st i 0 (at_start i left free maps)

  abbrev pub written : ℕ → ℕ → ℕ → (ℕ → Sector) → ℕ → Sector
  written i left free maps =
      if (at_end i left free maps).free_sect_nr == 0
      then maps
      else update maps (blk0 + i) (at_end i left free maps).fsbuf

  pub loop_zero :
      (i left free : ℕ) (maps : ℕ → Sector) → sect_loop 0 n_1st blk0 i left free maps ≡ (free, maps)
  unfolding sect_loop
  loop_zero i left free maps = refl

  loop_done :
      (n i left free : ℕ) (maps : ℕ → Sector)
      → ((at_end i left free maps).left == 0) ≡ true
      → sect_loop (suc n) n_1st blk0 i left free maps
        ≡ ((at_end i left free maps).free_sect_nr, written i left free maps)
  unfolding sect_loop
  loop_done n i left free maps e = rw (sect_loop, e) refl

  pub loop_more :
      (n i left free : ℕ) (maps : ℕ → Sector)
      → ((at_end i left free maps).left == 0) ≡ false
      → sect_loop (suc n) n_1st blk0 i left free maps
        ≡ sect_loop n n_1st blk0
            (i + 1)
            (at_end i left free maps).left
            (at_end i left free maps).free_sect_nr
            (written i left free maps)
  unfolding sect_loop
  loop_more n i left free maps e = rw (sect_loop, e) refl

  -- The bits from `a` to `hi` are set, at most `left` of them, and no other.
  abbrev Sets : ℕ → ℕ → ℕ → (ℕ → Sector) → (ℕ → Sector) → Type 0
  Sets a hi left maps maps' =
      (m : ℕ)
      → map_bit blk0 m maps' ≡ ((in_run a (hi - a) m && in_run a left m) || map_bit blk0 m maps)

  -- A sector that is written
  write_sector :
      (i f n left : ℕ) (maps : ℕ → Sector) (s t : Progress)
      → s.fsbuf ≡ maps (blk0 + i)
      → s.left ≡ left
      → f + n ≡ 4096
      → Marks f n s t
      → Sets (4096 * i + f) (4096 * (i + 1)) left maps (update maps (blk0 + i) t.fsbuf)
  write_sector i f n left maps s t eb el fn (l, h) m =
      let count : 4096 * (i + 1) - (4096 * i + f) ≡ n = omega (arith, fn) in
      elim (Bool-cases (m / 4096 == i)) [
        | inl e ↦
            let at : m / 4096 ≡ i = ground (arith, e) in
            let here : blk0 + m / 4096 ≡ blk0 + i = ap (λ x. blk0 + x) at in
            ap (λ b. flat b (m % 4096)) (update_same maps (blk0 + m / 4096) (blk0 + i) t.fsbuf here)
            ∙ h (m % 4096)
            ∙ ap₂ (λ x y. x || flat y (m % 4096))
                (ap₂ ◌&&◌
                  (run_in_sector i f n m at ∙ ap (λ c. in_run (4096 * i + f) c m) (sym count))
                  (ap (λ c. in_run f c (m % 4096)) el ∙ run_in_sector i f left m at))
                (eb ∙ ap maps (sym here))
        | inr e ↦
            let off : m / 4096 ≢ i = ground (arith, e) in
            let away : blk0 + m / 4096 ≢ blk0 + i = λ q. off (omega (arith, q)) in
            ap (λ b. flat b (m % 4096))
              (update_other maps (blk0 + m / 4096) (blk0 + i) t.fsbuf away)
            ∙ ap (λ x. (x && in_run (4096 * i + f) left m) || map_bit blk0 m maps)
                (sym (
                  ap (λ c. in_run (4096 * i + f) c m) count
                  ∙ run_outside i f n m off (omega (arith, fn))))
      ]

  Sets-Sets :
      (a b c left left' : ℕ) (x y z : ℕ → Sector)
      → a ≤ b
      → b ≤ c
      → left' ≡ left - (b - a)
      → Sets a b left x y
      → Sets b c left' y z
      → Sets a c left x z
  Sets-Sets a b c left left' x y z ab bc e h g m =
      g m ∙ join m (map_bit blk0 m x) (map_bit blk0 m y) (h m)
    where
      join :
          (m : ℕ) (old new : Bool)
          → new ≡ ((in_run a (b - a) m && in_run a left m) || old)
          → ((in_run b (c - b) m && in_run b left' m) || new)
            ≡ ((in_run a (c - a) m && in_run a left m) || old)
      join m old new h = ground (arith, ab, bc, e, h)

  Sets-none : (b c : ℕ) (x : ℕ → Sector) → Sets b c 0 x x
  Sets-none b c x m = ground arith

  -- What the loop does from sector `i` on, once the first free sector is known
  abbrev Continues : ℕ → ℕ → Type 0
  Continues n i =
      (left free : ℕ) (maps : ℕ → Sector)
      → free ≢ 0
      → ((sect_loop n n_1st blk0 i left free maps).0 ≡ free)
        × Sets (4096 * i) (4096 * (i + n)) left maps (sect_loop n n_1st blk0 i left free maps).1

  pub finish_sector :
      (n i F left free : ℕ) (maps : ℕ → Sector)
      → Continues n (i + 1)
      → F ≤ 4096 * (i + 1)
      → (at_end i left free maps).free_sect_nr ≢ 0
      → (at_end i left free maps).left ≡ left - (4096 * (i + 1) - F)
      → Sets F (4096 * (i + 1)) left maps (written i left free maps)
      → ((sect_loop (suc n) n_1st blk0 i left free maps).0 ≡ (at_end i left free maps).free_sect_nr)
        × Sets F (4096 * (i + suc n)) left maps (sect_loop (suc n) n_1st blk0 i left free maps).1
  finish_sector n i F left free maps rest le nz el g =
      elim (Bool-cases ((at_end i left free maps).left == 0)) [
        | inl e ↦
            let z : (at_end i left free maps).left ≡ 0 = ground (arith, e) in
            rw (loop_done n i left free maps e) (
              refl,
              Sets-Sets F (4096 * (i + 1)) (4096 * (i + suc n)) left 0 maps
                  (written i left free maps) (written i left free maps) le (omega arith)
                  (sym z ∙ el) g
                  (Sets-none (4096 * (i + 1)) (4096 * (i + suc n)) (written i left free maps)),
            )
        | inr e ↦
            let (a, h) =
              rest (at_end i left free maps).left (at_end i left free maps).free_sect_nr
                (written i left free maps) nz in
            let count : 4096 * (i + 1 + n) ≡ 4096 * (i + suc n) = omega arith in
            rw (loop_more n i left free maps e) (
              a,
              Sets-Sets F (4096 * (i + 1)) (4096 * (i + suc n)) left (at_end i left free maps).left
                  maps (written i left free maps)
                  (sect_loop n n_1st blk0 (i + 1) (at_end i left free maps).left
                    (at_end i left free maps).free_sect_nr (written i left free maps)).1
                  le (omega arith) el g
                  (subst
                    (λ c.
                      Sets (4096 * (i + 1)) c (at_end i left free maps).left
                        (written i left free maps)
                        (sect_loop n n_1st blk0 (i + 1) (at_end i left free maps).left
                          (at_end i left free maps).free_sect_nr (written i left free maps)).1)
                    count h),
            )
      ]

  written_some :
      (i left free : ℕ) (maps : ℕ → Sector)
      → (at_end i left free maps).free_sect_nr ≢ 0
      → written i left free maps ≡ update maps (blk0 + i) (at_end i left free maps).fsbuf
  written_some i left free maps ne =
      let e : ((at_end i left free maps).free_sect_nr == 0) ≡ false = ground (arith, ne) in
      rw e refl

  pub set_sector :
      (i f n left free : ℕ) (maps : ℕ → Sector)
      → (at_end i left free maps).free_sect_nr ≢ 0
      → f + n ≡ 4096
      → Marks f n (at_start i left free maps) (at_end i left free maps)
      → Sets (4096 * i + f) (4096 * (i + 1)) left maps (written i left free maps)
  set_sector i f n left free maps nz fn mk =
      subst (Sets (4096 * i + f) (4096 * (i + 1)) left maps)
        (sym (written_some i left free maps nz))
        (write_sector i f n left maps (at_start i left free maps) (at_end i left free maps) refl
          refl fn mk)

  pub continues : (n i : ℕ) → Continues n i
  continues zero i left free maps ne = rw (loop_zero i left free maps) (refl, λ m. ground arith)
  continues (suc n) i left free maps ne =
      let (mk, same) = known_loop 512 n_1st i 0 (at_start i left free maps) ne in
      let nz : (at_end i left free maps).free_sect_nr ≢ 0 = λ z. ne (sym same ∙ z) in
      let a0 : 4096 * i + 0 ≡ 4096 * i = omega arith in
      let (a, g) =
        finish_sector n i (4096 * i) left free maps (continues n (i + 1)) (omega arith) nz
          (mk.0 ∙ omega arith)
          (subst (λ c. Sets c (4096 * (i + 1)) left maps (written i left free maps)) a0
            (set_sector i 0 4096 left free maps nz refl mk)) in
      (a ∙ same, g)
