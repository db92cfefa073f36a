-- ===== src/Fs/Bitmap/Bytes.antt =====
-- The searches of the allocators of fs/open.c in a byte and in a sector.
use bird_os.Prelude.{
  ℕ, zero, suc, ◌+◌, ◌≤◌, ◌<◌, ◌≡◌, ◌≢◌, inl, inr, sym, ap, ◌∙◌, true, false, none, some, ◌==◌,
  Bool-cases, arith,
}
use mathlib.Core.Path.{subst}
use mathlib.Core.Bool.{true≢false}
use mathlib.Core.Option.{none-ne-some}
use bird_os.Fs.Bitmap.{Byte, Sector}
unfoldable use bird_os.Fs.Bitmap.{is_full, clear_bit, free_byte}

cons_range :
    (P : ℕ → Type 0) (k c : ℕ)
    → P k
    → ((j : ℕ) → k + 1 ≤ j → j < c → P j)
    → (j : ℕ) → k ≤ j
    → j < c
    → P j
cons_range P k c at rest j lo hi = elim (Bool-cases (k == j)) [
  | inl q ↦ let e : k ≡ j = ground (arith, q) in subst P e at
  | inr q ↦ rest j (ground (arith, q)) hi
]

pub clear_bit_lem :
    (n k : ℕ) (b : Byte) (m : ℕ)
    → k ≤ m
    → m < k + n
    → b m ≡ false
    → (b (clear_bit n k b) ≡ false)
      × (clear_bit n k b < k + n)
      × (k ≤ clear_bit n k b)
      × ((j : ℕ) → k ≤ j → j < clear_bit n k b → b j ≡ true)
unfolding clear_bit
clear_bit_lem zero k b m lo hi e = absurd (omega arith)
clear_bit_lem (suc n) k b m lo hi e = elim (Bool-cases (b k)) [
  | inl s ↦
      let ne : k ≢ m = λ q. true≢false (sym s ∙ ap b q ∙ e) in
      let (a, l, g, h) = clear_bit_lem n (k + 1) b m (omega arith) (omega arith) e in
      rw s (a, omega arith, omega arith, cons_range (λ j. b j ≡ true) k (clear_bit n (k + 1) b) s h)
  | inr s ↦ rw s (s, omega arith, omega arith, λ j lo hi. absurd (omega arith))
]

pub is_full_lem : (n : ℕ) (b : Byte) → is_full n b ≡ true → (m : ℕ) → m < n → b m ≡ true
unfolding is_full
is_full_lem zero b e m lt = absurd (omega arith)
is_full_lem (suc n) b e m lt = elim (Bool-cases (m == n)) [
  | inl q ↦ ground (arith, q, e)
  | inr q ↦ is_full_lem n b (ground (arith, e)) m (ground (arith, q))
]

pub not_full_lem : (n : ℕ) (b : Byte) → is_full n b ≡ false → (m : ℕ) × (m < n) × (b m ≡ false)
unfolding is_full
not_full_lem zero b e = absurd (true≢false e)
not_full_lem (suc n) b e = elim (Bool-cases (b n)) [
  | inl s ↦ let (m, lt, f) = not_full_lem n b (ground (arith, e, s)) in (m, omega arith, f)
  | inr s ↦ (n, omega arith, s)
]

pub free_byte-none :
    (n j : ℕ) (buf : Sector)
    → free_byte n j buf ≡ none
    → (i : ℕ) → j ≤ i
    → i < j + n
    → is_full 8 (buf i) ≡ true
unfolding free_byte
free_byte-none zero j buf e = λ i lo hi. absurd (omega arith)
free_byte-none (suc n) j buf e = elim (Bool-cases (is_full 8 (buf j))) [
  | inl f ↦
      cons_range (λ i. is_full 8 (buf i) ≡ true) j (j + suc n) f
        (λ i lo hi. free_byte-none n (j + 1) buf (rw f at e) i lo (omega arith))
  | inr f ↦ absurd (none-ne-some j (sym (rw f at e)))
]

pub free_byte-some :
    (n j r : ℕ) (buf : Sector)
    → free_byte n j buf ≡ some r
    → (j ≤ r)
      × (r < j + n)
      × (is_full 8 (buf r) ≡ false)
      × ((i : ℕ) → j ≤ i → i < r → is_full 8 (buf i) ≡ true)
unfolding free_byte
free_byte-some zero j r buf e = absurd (none-ne-some r e)
free_byte-some (suc n) j r buf e = elim (Bool-cases (is_full 8 (buf j))) [
  | inl f ↦
      let (a, b, c, d) = free_byte-some n (j + 1) r buf (rw f at e) in
      (omega arith, omega arith, c, cons_range (λ i. is_full 8 (buf i) ≡ true) j r f d)
  | inr f ↦
      let q : j ≡ r = some_eq j r (rw f at e) in
      (
        omega arith,
        omega arith,
        ap (λ i. is_full 8 (buf i)) (sym q) ∙ f,
        λ i lo hi. absurd (omega arith),
      )
]
  where
    some_eq : (a b : ℕ) → some a ≡ some b → a ≡ b
    some_eq a b p = cc
