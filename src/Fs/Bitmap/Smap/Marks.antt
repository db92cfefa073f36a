-- ===== src/Fs/Bitmap/Smap/Marks.antt =====
-- Which bits `alloc_smap_bit` of fs/open.c sets in a byte and in a sector.
use bird_os.Prelude.{
  ℕ, zero, suc, ◌+◌, ◌-◌, ◌*◌, ◌/◌, ◌%◌, ◌≤◌, ◌<◌, ◌≡◌, ◌≢◌, refl, sym, ap, ◌∙◌, Bool, true, false,
  ◌&&◌, ◌||◌, ◌==◌, leb, ltb, Bool-cases, inl, inr, arith, update,
}
use mathlib.Core.Path.{subst}
use bird_os.Fs.Bitmap.{Byte, Sector}
use bird_os.Fs.Bitmap.Smap.{Progress}
unfoldable use bird_os.Fs.Bitmap.Smap.{mark_bits, mark_byte, alloc_in_byte, byte_loop}

-- The run of `n` from `a` on
abbrev pub in_run : ℕ → ℕ → ℕ → Bool
in_run a n m = leb a m && ltb m (a + n)

mark_bits_lem :
    (n k left : ℕ) (b : Byte)
    → left ≢ 0
    → ((mark_bits n k left b).1 ≡ left - n)
      × ((x : ℕ) → (mark_bits n k left b).0 x ≡ ((in_run k n x && in_run k left x) || b x))
unfolding mark_bits
mark_bits_lem zero k left b ne = (omega arith, λ x. ground arith)
mark_bits_lem (suc n) k left b ne = elim (Bool-cases (left - 1 == 0)) [
  | inl e ↦ let one : left ≡ 1 = ground (arith, e, ne) in rw e (omega arith, λ x. ground arith)
  | inr e ↦
      let more : left - 1 ≢ 0 = ground (arith, e) in
      let (a, h) = mark_bits_lem n (k + 1) (left - 1) (update b k true) more in
      rw e (omega (arith, a), λ x. h x ∙ ground arith)
]

-- Bit `m` of a sector
abbrev pub flat : Sector → ℕ → Bool
flat buf m = buf (m / 8) (m % 8)

-- What a run of the code does to the buffer of `s`: the `n` bits from `a` on are set, as far as
-- sectors are left to allocate.
abbrev pub Marks : ℕ → ℕ → Progress → Progress → Type 0
Marks a n s t =
    (t.left ≡ s.left - n)
    × ((m : ℕ) → flat t.fsbuf m ≡ ((in_run a n m && in_run a s.left m) || flat s.fsbuf m))

run_in_byte : (j k n m : ℕ) → m / 8 ≡ j → in_run k n (m % 8) ≡ in_run (8 * j + k) n m
run_in_byte j k n m e = let d : m ≡ 8 * j + m % 8 = omega (arith, e) in ground (arith, d)

pub in_run_bounds : (a n m : ℕ) → in_run a n m ≡ true → (a ≤ m) × (m < a + n)
in_run_bounds a n m e = (ground (arith, e), ground (arith, e))

run_elsewhere : (j k n m : ℕ) → m / 8 ≢ j → k + n ≤ 8 → in_run (8 * j + k) n m ≡ false
run_elsewhere j k n m ne h = elim (Bool-cases (in_run (8 * j + k) n m)) [
  | inl e ↦ let (lo, hi) = in_run_bounds (8 * j + k) n m e in absurd (ne (omega (arith, lo, hi, h)))
  | inr e ↦ e
]

pub mark_byte-Marks :
    (j k : ℕ) (s : Progress) → s.left ≢ 0 → k < 8 → Marks (8 * j + k) (8 - k) s (mark_byte j k s)
unfolding mark_byte
mark_byte-Marks j k s ne lt =
    let (a, h) = mark_bits_lem (8 - k) k s.left (s.fsbuf j) ne in
    (
      a,
      λ m. elim (Bool-cases (m / 8 == j)) [
        | inl e ↦
            let at : m / 8 ≡ j = ground (arith, e) in
            rw e (
              h (m % 8)
              ∙ rw (run_in_byte j k (8 - k) m at, run_in_byte j k s.left m at)
                  (ap
                    (λ i.
                      (in_run (8 * j + k) (8 - k) m && in_run (8 * j + k) s.left m)
                      || s.fsbuf i (m % 8))
                    (sym at)))
        | inr e ↦
            let off : m / 8 ≢ j = ground (arith, e) in
            rw (e, run_elsewhere j k (8 - k) m off (omega arith)) refl
      ],
    )

pub Marks-Marks :
    (a n b k : ℕ) (s t u : Progress)
    → b ≡ a + n
    → Marks a n s t
    → Marks b k t u
    → Marks a (n + k) s u
Marks-Marks a n b k s t u e (l, h) (l', h') = (
  omega (arith, l, l'),
  λ m. h' m ∙ join a n b k s.left t.left m e l (flat s.fsbuf m) (flat t.fsbuf m) (h m),
)
  where
    join :
        (a n b k l l' m : ℕ)
        → b ≡ a + n
        → l' ≡ l - n
        → (old new : Bool) → new ≡ ((in_run a n m && in_run a l m) || old)
        → ((in_run b k m && in_run b l' m) || new) ≡ ((in_run a (n + k) m && in_run a l m) || old)
    join a n b k l l' m e q old new h = ground (arith, e, q, h)

pub Marks-done : (a n : ℕ) (s : Progress) → s.left ≡ 0 → Marks a n s s
Marks-done a n s e = (omega (arith, e), λ m. ground (arith, e))

known_byte :
    (n_1st i j : ℕ) (s : Progress)
    → s.free_sect_nr ≢ 0
    → (alloc_in_byte n_1st i j s ≡ mark_byte j 0 s)
      × ((alloc_in_byte n_1st i j s).free_sect_nr ≡ s.free_sect_nr)
unfolding alloc_in_byte mark_byte
known_byte n_1st i j s ne =
    let e : (s.free_sect_nr == 0) ≡ false = ground (arith, ne) in (rw e refl, rw e refl)

pub byte_loop_done :
    (n n_1st i j : ℕ) (s : Progress) → (s.left == 0) ≡ true → byte_loop (suc n) n_1st i j s ≡ s
unfolding byte_loop
byte_loop_done n n_1st i j s e = rw (byte_loop, e) refl

pub byte_loop_more :
    (n n_1st i j : ℕ) (s : Progress)
    → (s.left == 0) ≡ false
    → byte_loop (suc n) n_1st i j s ≡ byte_loop n n_1st i (j + 1) (alloc_in_byte n_1st i j s)
unfolding byte_loop
byte_loop_more n n_1st i j s e = rw (byte_loop, e) refl

pub byte_loop_zero : (n_1st i j : ℕ) (s : Progress) → byte_loop 0 n_1st i j s ≡ s
unfolding byte_loop
byte_loop_zero n_1st i j s = refl

-- The loop over the bytes once the first sector is found
pub known_loop :
    (n n_1st i j : ℕ) (s : Progress)
    → s.free_sect_nr ≢ 0
    → Marks (8 * j) (8 * n) s (byte_loop n n_1st i j s)
      × ((byte_loop n n_1st i j s).free_sect_nr ≡ s.free_sect_nr)
known_loop zero n_1st i j s ne =
    rw (byte_loop_zero n_1st i j s) ((omega arith, λ m. ground arith), refl)
known_loop (suc n) n_1st i j s ne = elim (Bool-cases (s.left == 0)) [
  | inl e ↦
      rw (byte_loop_done n n_1st i j s e)
        (Marks-done (8 * j) (8 * suc n) s (ground (arith, e)), refl)
  | inr e ↦
      let more : s.left ≢ 0 = ground (arith, e) in
      let t : Progress = alloc_in_byte n_1st i j s in
      let (g, same) = known_byte n_1st i j s ne in
      let (h, q) = known_loop n n_1st i (j + 1) t (λ z. ne (sym same ∙ z)) in
      let a0 : 8 * j + 0 ≡ 8 * j = omega arith in
      let count : (8 - 0) + 8 * n ≡ 8 * suc n = omega arith in
      let first : Marks (8 * j + 0) (8 - 0) s t =
        subst (Marks (8 * j + 0) (8 - 0) s) (sym g) (mark_byte-Marks j 0 s more (omega arith)) in
      rw (byte_loop_more n n_1st i j s e) (
        subst (λ a. Marks a (8 * suc n) s (byte_loop n n_1st i (j + 1) t)) a0
            (subst (λ c. Marks (8 * j + 0) c s (byte_loop n n_1st i (j + 1) t)) count
              (Marks-Marks (8 * j + 0) (8 - 0) (8 * (j + 1)) (8 * n) s t
                (byte_loop n n_1st i (j + 1) t) (omega arith) first h)),
        q ∙ same,
      )
]
