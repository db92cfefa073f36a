-- ===== src/Prelude/Arrays.antt =====
-- An array as a function of its index: the list of its first items, and the two loops that move a
-- part of it by one place.
use Prim.Native.Nat.{ℕ, zero, suc, ◌+◌, ◌-◌, ◌≤◌, ◌<◌}
use mathlib.Core.Path.{◌≡◌, refl, ap, ap₂, ◌∙◌}
use mathlib.Core.Bool.{◌&&◌}
use mathlib.Core.List.{List, [], ◌∷◌, ◌++◌}
use native.Mathlib.Omega.{arith}
use bird_os.Prelude.Tests.{if◌then◌else◌, ltb, leb}
use bird_os.Prelude.Lists.{update, length, All}

module _ {A : Type 0} where
  -- the `n` items from index `i` on
  abbrev pub items : (ℕ → A) → ℕ → ℕ → List A
  items f i zero = []
  items f i (suc n) = f i ∷ items f (i + 1) n

  -- `for (; i < n; i++) f[i] = f[i + 1];` in `k` rounds
  unfoldable pub shift_down : ℕ → ℕ → (ℕ → A) → ℕ → A
  shift_down zero i f = f
  shift_down (suc k) i f = shift_down k (i + 1) (update f i (f (i + 1)))

  -- `for (j = i + k; j > i; j--) f[j] = f[j - 1];`
  unfoldable pub shift_up : ℕ → ℕ → (ℕ → A) → ℕ → A
  shift_up zero i f = f
  shift_up (suc k) i f = shift_up k i (update f (i + suc k) (f (i + k)))

  pub shift_down_at :
      (k i : ℕ) (f : ℕ → A) (j : ℕ)
      → shift_down k i f j ≡ (if leb i j && ltb j (i + k) then f (j + 1) else f j)
  unfolding shift_down
  shift_down_at zero i f j = ground arith
  shift_down_at (suc k) i f j = ground (arith, shift_down_at k (i + 1) (update f i (f (i + 1))) j)

  pub shift_up_at :
      (k i : ℕ) (f : ℕ → A) (j : ℕ)
      → shift_up k i f j ≡ (if ltb i j && leb j (i + k) then f (j - 1) else f j)
  unfolding shift_up
  shift_up_at zero i f j = ground arith
  shift_up_at (suc k) i f j =
      let e : j ≡ i + suc k → j - 1 ≡ i + k = λ h. omega arith in
      ground (arith, shift_up_at k i (update f (i + suc k) (f (i + k))) j, e)

  pub length-items : (f : ℕ → A) (i n : ℕ) → length (items f i n) ≡ n
  length-items f i zero = refl
  length-items f i (suc n) = ap suc (length-items f (i + 1) n)

  pub items-append : (f : ℕ → A) (i m n : ℕ) → items f i (m + n) ≡ items f i m ++ items f (i + m) n
  items-append f i zero n = ap₂ (items f) (omega arith) (omega arith)
  items-append f i (suc m) n =
      let e : suc m + n ≡ suc (m + n) = omega arith in
      rw (e, items-append f (i + 1) m n)
        (ap (λ k. f i ∷ (items f (i + 1) m ++ items f k n)) (omega arith))

  pub items_split : (f : ℕ → A) (r k : ℕ) → items f 0 (r + k) ≡ items f 0 r ++ items f r k
  items_split f r k =
      let e : 0 + r ≡ r = omega arith in
      items-append f 0 r k ∙ ap (λ t. items f 0 r ++ items f t k) e

  pub items-cong :
      (f g : ℕ → A) (i j n : ℕ)
      → ((d : ℕ) → d < n → f (i + d) ≡ g (j + d))
      → items f i n ≡ items g j n
  items-cong f g i j zero h = refl
  items-cong f g i j (suc n) h = ap₂ ◌∷◌ first (items-cong f g (i + 1) (j + 1) n rest)
    where
      first : f i ≡ g j
      first = ap f (omega arith) ∙ h 0 (omega arith) ∙ ap g (omega arith)

      rest : (d : ℕ) → d < n → f (i + 1 + d) ≡ g (j + 1 + d)
      rest d lt = ap f (omega arith) ∙ h (d + 1) (omega arith) ∙ ap g (omega arith)

  pub All-items {κ} :
      (P : A → Type κ) (f : ℕ → A) (i n : ℕ)
      → ((j : ℕ) → i ≤ j → j < i + n → P (f j))
      → All P (items f i n)
  All-items P f i zero h = tt
  All-items P f i (suc n) h = (
    h i (omega arith) (omega arith),
    All-items P f (i + 1) n λ j p q. h j (omega arith) (omega arith),
  )

  -- A write inside splits the list at its index.
  pub items-update :
      (f : ℕ → A) (r k : ℕ) (v : A)
      → items (update f r v) 0 (r + suc k) ≡ items f 0 r ++ (v ∷ items f (r + 1) k)
  items-update f r k v =
      items-append (update f r v) 0 r (suc k)
      ∙ ap₂ ◌++◌ (items-cong (update f r v) f 0 0 r λ d h. ground arith) (
          ap₂ ◌∷◌ (ground arith) (
            items-cong (update f r v) f (0 + r + 1) (r + 1) k λ d h.
              let e : 0 + r + 1 + d ≡ r + 1 + d = omega arith in
              ap (update f r v) e ∙ ground arith))

  -- The loop that closes the gap at `r` drops the item there.
  pub items-shift_down :
      (f : ℕ → A) (r k : ℕ) → items (shift_down k r f) 0 (r + k) ≡ items f 0 r ++ items f (r + 1) k
  items-shift_down f r k =
      items-append (shift_down k r f) 0 r k
      ∙ ap₂ ◌++◌
          (items-cong (shift_down k r f) f 0 0 r λ d h. ground (arith, shift_down_at k r f (0 + d)))
          (items-cong (shift_down k r f) f (0 + r) (r + 1) k
            λ d h. shift_down_at k r f (0 + r + d) ∙ ground arith)

  -- The loop that opens a gap at `r`, and the write into the gap, insert an item there.
  pub items-shift_up :
      (f : ℕ → A) (r k : ℕ) (v : A)
      → items (update (shift_up k r f) r v) 0 (r + suc k) ≡ items f 0 r ++ (v ∷ items f r k)
  items-shift_up f r k v =
      items-update (shift_up k r f) r k v
      ∙ ap₂ ◌++◌
          (items-cong (shift_up k r f) f 0 0 r λ d h. ground (arith, shift_up_at k r f (0 + d)))
          (ap (λ t. v ∷ t)
            (items-cong (shift_up k r f) f (r + 1) r k
              λ d h. shift_up_at k r f (r + 1 + d) ∙ ground arith))
