-- ===== src/Fs/Bitmap/Smap/Alloc.antt =====
-- What `alloc_smap_bit` of fs/open.c returns, and what it does to the sector map.
use bird_os.Prelude.{
  ℕ, zero, suc, ◌+◌, ◌-◌, ◌*◌, ◌/◌, ◌%◌, ◌≤◌, ◌<◌, ◌≡◌, ◌≢◌, ◌⊎◌, inl, inr, refl, sym, ap, ◌∙◌,
  Bool, true, false, ◌&&◌, ◌||◌, ◌==◌, ltb, if◌then◌else◌, Bool-cases, arith, update,
}
use mathlib.Core.Path.{subst}
use bird_os.Fs.Types.{SuperBlock}
use bird_os.Fs.Bitmap.{Sector}
unfoldable use bird_os.Fs.Bitmap.Smap.{sect_loop, alloc_smap_bit}
use bird_os.Fs.Bitmap.Smap.Marks.{flat, Marks, in_run}
use bird_os.Fs.Bitmap.Smap.Search.{sector_of, start_loop}
use bird_os.Fs.Bitmap.Smap.Sectors.{
  map_bit, at_start, at_end, loop_zero, loop_more, finish_sector, set_sector, continues,
}

module _ (n_1st blk0 : ℕ) where
  -- What the loop does from sector `i` to sector `i + n`: every bit there is set, and it returns 0
  -- and changes nothing; or it returns the sector of the first clear bit and sets the bits from it.
  abbrev pub Starts : ℕ → ℕ → ℕ → (ℕ → Sector) → ℕ × (ℕ → Sector) → Type 0
  Starts lo hi left maps (r, maps') =
      (((m : ℕ) → lo ≤ m → m < hi → map_bit blk0 m maps ≡ true) × (r ≡ 0) × (maps' ≡ maps))
      ⊎ ((f : ℕ) × (lo ≤ f)
          × (f < hi)
          × (map_bit blk0 f maps ≡ false)
          × ((m : ℕ) → lo ≤ m → m < f → map_bit blk0 m maps ≡ true)
          × (r ≡ f + n_1st - 1)
          × ((m : ℕ)
              → map_bit blk0 m maps'
                ≡ ((in_run f (hi - f) m && in_run f left m) || map_bit blk0 m maps)))

  in_sector :
      (i m : ℕ) (maps : ℕ → Sector) (v : Bool)
      → m / 4096 ≡ i
      → flat (maps (blk0 + i)) (m % 4096) ≡ v
      → map_bit blk0 m maps ≡ v
  in_sector i m maps v e h = ap (λ x. flat (maps (blk0 + x)) (m % 4096)) e ∙ h

  set_sector_bits :
      (i f : ℕ) (maps : ℕ → Sector)
      → f ≤ 4096
      → ((m : ℕ) → 0 ≤ m → m < f → flat (maps (blk0 + i)) m ≡ true)
      → (m : ℕ) → 4096 * i ≤ m
      → m < 4096 * i + f
      → map_bit blk0 m maps ≡ true
  set_sector_bits i f maps le h m lo hi =
      in_sector i m maps true (omega arith) (h (m % 4096) (omega arith) (omega arith))

  -- A sector in which the first clear bit is `f`
  begins_here :
      (n i f left : ℕ) (maps : ℕ → Sector)
      → 2 ≤ n_1st
      → f < 4096
      → flat (maps (blk0 + i)) f ≡ false
      → ((m : ℕ) → 0 ≤ m → m < f → flat (maps (blk0 + i)) m ≡ true)
      → (at_end n_1st blk0 i left 0 maps).free_sect_nr ≡ sector_of n_1st i f
      → Marks f (4096 - f) (at_start n_1st blk0 i left 0 maps) (at_end n_1st blk0 i left 0 maps)
      → Starts
          (4096 * i)
          (4096 * (i + suc n))
          left
          maps
          (sect_loop (suc n) n_1st blk0 i left 0 maps)
  begins_here n i f left maps two lf c b q mk =
      let nz : (at_end n_1st blk0 i left 0 maps).free_sect_nr ≢ 0 = λ z. not_zero (sym q ∙ z) in
      let (a, g) =
        finish_sector n_1st blk0 n i (4096 * i + f) left 0 maps (continues n_1st blk0 n (i + 1))
          (omega arith) nz (mk.0 ∙ ap (λ x. left - x) (omega arith))
          (set_sector n_1st blk0 i f (4096 - f) left 0 maps nz (omega arith) mk) in
      inr (
        4096 * i + f,
        omega arith,
        omega arith,
        in_sector i (4096 * i + f) maps false (omega arith)
            (ap (flat (maps (blk0 + i))) remainder ∙ c),
        set_sector_bits i f maps (omega arith) b,
        a ∙ q ∙ omega arith,
        g,
      )
    where
      not_zero : sector_of n_1st i f ≢ 0
      not_zero e = omega (arith, two, e)

      remainder : (4096 * i + f) % 4096 ≡ f
      remainder = omega arith

  -- A sector that is full is passed over.
  passes_full :
      (n i left : ℕ) (maps : ℕ → Sector)
      → left ≢ 0
      → ((m : ℕ) → 0 ≤ m → m < 4096 → flat (maps (blk0 + i)) m ≡ true)
      → at_end n_1st blk0 i left 0 maps ≡ at_start n_1st blk0 i left 0 maps
      → Starts
          (4096 * (i + 1))
          (4096 * (i + suc n))
          left
          maps
          (sect_loop n n_1st blk0 (i + 1) left 0 maps)
      → Starts
          (4096 * i)
          (4096 * (i + suc n))
          left
          maps
          (sect_loop (suc n) n_1st blk0 i left 0 maps)
  passes_full n i left maps ne full q h =
      subst (Starts (4096 * i) (4096 * (i + suc n)) left maps) (sym (next_sector q)) (widen h)
    where
      next_sector :
          at_end n_1st blk0 i left 0 maps ≡ at_start n_1st blk0 i left 0 maps
          → sect_loop (suc n) n_1st blk0 i left 0 maps ≡ sect_loop n n_1st blk0 (i + 1) left 0 maps
      next_sector q =
          let e : ((at_end n_1st blk0 i left 0 maps).left == 0) ≡ false =
            ap (λ p. p.left == 0) q ∙ ground (arith, ne) in
          loop_more n_1st blk0 n i left 0 maps e
          ∙ ap
              (λ p.
                sect_loop n n_1st blk0 (i + 1) p.left p.free_sect_nr
                  (if p.free_sect_nr == 0 then maps else update maps (blk0 + i) p.fsbuf))
              q

      before :
          (hi : ℕ)
          → ((m : ℕ) → 4096 * (i + 1) ≤ m → m < hi → map_bit blk0 m maps ≡ true)
          → (m : ℕ) → 4096 * i ≤ m
          → m < hi
          → map_bit blk0 m maps ≡ true
      before hi g m lo lt = elim (Bool-cases (ltb m (4096 * i + 4096))) [
        | inl e ↦ set_sector_bits i 4096 maps (omega arith) full m lo (ground (arith, e))
        | inr e ↦ g m (ground (arith, e)) lt
      ]

      widen :
          Starts
            (4096 * (i + 1))
            (4096 * (i + suc n))
            left
            maps
            (sect_loop n n_1st blk0 (i + 1) left 0 maps)
          → Starts
              (4096 * i)
              (4096 * (i + suc n))
              left
              maps
              (sect_loop n n_1st blk0 (i + 1) left 0 maps)
      widen (inl (g, r, same)) = inl (before (4096 * (i + suc n)) g, r, same)
      widen (inr (f, lo, hi, c, b, r, k)) = inr (f, omega arith, hi, c, before f b, r, k)

  starts :
      (n i left : ℕ) (maps : ℕ → Sector)
      → left ≢ 0
      → 2 ≤ n_1st
      → Starts (4096 * i) (4096 * (i + n)) left maps (sect_loop n n_1st blk0 i left 0 maps)
  starts zero i left maps ne two =
      rw (loop_zero n_1st blk0 i left 0 maps) (inl (λ m lo hi. absurd (omega arith), refl, refl))
  starts (suc n) i left maps ne two =
      elim (start_loop n_1st i 512 0 (at_start n_1st blk0 i left 0 maps) ne two refl) [
        | inl (full, q) ↦
            let count : 4096 * (i + 1 + n) ≡ 4096 * (i + suc n) = omega arith in
            passes_full n i left maps ne full q (
              subst
                (λ c.
                  Starts (4096 * (i + 1)) c left maps (sect_loop n n_1st blk0 (i + 1) left 0 maps))
                count (starts n (i + 1) left maps ne two))
        | inr (f, lo, hi, c, b, q, mk) ↦ begins_here n i f left maps two hi c b q mk
      ]

-- Where the first data sector is not sector 0 or 1 and some sectors are asked for: when every bit
-- of the sector map is set, `alloc_smap_bit` returns 0 and changes nothing. Otherwise it returns
-- the sector of the first clear bit, and sets as many bits from it on as sectors are asked for, as
-- far as the map goes, and no other.
pub alloc_smap_bit-Starts :
    (sb : SuperBlock) (nr : ℕ) (maps : ℕ → Sector)
    → 2 ≤ sb.n_1st_sect
    → nr ≢ 0
    → Starts sb.n_1st_sect
        (2 + sb.nr_imap_sects)
        0
        (4096 * sb.nr_smap_sects)
        nr
        maps
        (alloc_smap_bit sb nr maps)
unfolding alloc_smap_bit
alloc_smap_bit-Starts sb nr maps two ne =
    let hi : 4096 * (0 + sb.nr_smap_sects) ≡ 4096 * sb.nr_smap_sects = omega arith in
    subst
      (λ c.
        Starts sb.n_1st_sect (2 + sb.nr_imap_sects) 0 c nr maps
          (sect_loop sb.nr_smap_sects sb.n_1st_sect (2 + sb.nr_imap_sects) 0 nr 0 maps))
      hi (starts sb.n_1st_sect (2 + sb.nr_imap_sects) sb.nr_smap_sects 0 nr maps ne two)
