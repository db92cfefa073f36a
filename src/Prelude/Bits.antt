-- ===== src/Prelude/Bits.antt =====
-- Masks and disjoint fields: `bit_and` with a run of ones as a remainder, and `bit_or` of fields
-- that do not overlap as a sum.
use Prim.Native.Nat.{
  ℕ, zero, suc, ◌+◌, ◌*◌, ◌/◌, ◌%◌, ◌^◌, ◌≤◌, ◌<◌, min, max, bit_and, bit_or, digits, bitwise,
  bit_and-bitwise, bit_or-bitwise,
}
use mathlib.Core.Path.{◌≡◌, refl, ap, ap₂, ◌∙◌}
use native.Mathlib.Omega.{arith}

module _ (z : ℕ → ℕ) (f : ℕ → ℕ → ℕ) where
  -- Any count of digits that is enough gives the same number.
  enough : (n m a b : ℕ) → a ≤ n → a ≤ m → digits z f n a b ≡ digits z f m a b
  enough zero zero a b p q = refl
  enough zero (suc m) zero b p q = refl
  enough zero (suc m) (suc a) b p q = absurd (omega arith)
  enough (suc n) zero zero b p q = refl
  enough (suc n) zero (suc a) b p q = absurd (omega arith)
  enough (suc n) (suc m) zero b p q = refl
  enough (suc n) (suc m) (suc a) b p q =
      ap (λ t. t * 2 + f (suc a % 2) (b % 2))
        (enough n m (suc a / 2) (b / 2) (omega arith) (omega arith))

  last_digit :
      (a b : ℕ)
      → bitwise z f (suc a) b ≡ bitwise z f (suc a / 2) (b / 2) * 2 + f (suc a % 2) (b % 2)
  last_digit a b =
      ap (λ t. t * 2 + f (suc a % 2) (b % 2))
        (enough a (suc a / 2) (suc a / 2) (b / 2) (omega arith) (omega arith))

bit_and_digit : (a b : ℕ) → bit_and a b ≡ bit_and (a / 2) (b / 2) * 2 + min (a % 2) (b % 2)
bit_and_digit zero b = omega (arith, bit_and-bitwise 0 b, bit_and-bitwise 0 (b / 2))
bit_and_digit (suc a) b = omega (
  arith,
  bit_and-bitwise (suc a) b,
  bit_and-bitwise (suc a / 2) (b / 2),
  last_digit (λ x. 0) min a b,
)

bit_or_digit : (a b : ℕ) → bit_or a b ≡ bit_or (a / 2) (b / 2) * 2 + max (a % 2) (b % 2)
bit_or_digit zero b = omega (arith, bit_or-bitwise 0 b, bit_or-bitwise 0 (b / 2))
bit_or_digit (suc a) b = omega (
  arith,
  bit_or-bitwise (suc a) b,
  bit_or-bitwise (suc a / 2) (b / 2),
  last_digit (λ x. x) max a b,
)

bit_and-zero : (n a : ℕ) → a ≤ n → bit_and a 0 ≡ 0
bit_and-zero n zero h = refl
bit_and-zero zero (suc a) h = absurd (omega arith)
bit_and-zero (suc n) (suc a) h =
    omega (arith, bit_and_digit (suc a) 0, bit_and-zero n (suc a / 2) (omega arith))

bit_or-zero : (n a : ℕ) → a ≤ n → bit_or a 0 ≡ a
bit_or-zero n zero h = refl
bit_or-zero zero (suc a) h = absurd (omega arith)
bit_or-zero (suc n) (suc a) h =
    omega (arith, bit_or_digit (suc a) 0, bit_or-zero n (suc a / 2) (omega arith))

and_one_more : (a m : ℕ) → bit_and a (2 * m + 1) ≡ 2 * bit_and (a / 2) m + a % 2
and_one_more a m =
    let e : (2 * m + 1) / 2 ≡ m = omega arith in
    omega (arith, bit_and_digit a (2 * m + 1), ap (bit_and (a / 2)) e)

or_one_more : (a b r : ℕ) → r < 2 → bit_or (2 * a) (2 * b + r) ≡ 2 * bit_or a b + r
or_one_more a b r h =
    let e : 2 * a / 2 ≡ a = omega arith in
    let g : (2 * b + r) / 2 ≡ b = omega arith in
    omega (arith, bit_or_digit (2 * a) (2 * b + r), ap₂ bit_or e g)

-- Four more ones in the mask, and four more digits below.
pub and_four_more : (a m : ℕ) → bit_and a (16 * m + 15) ≡ 16 * bit_and (a / 16) m + a % 16
and_four_more a m =
    let e1 : 16 * m + 15 ≡ 2 * (2 * (2 * (2 * m + 1) + 1) + 1) + 1 = omega arith in
    let e2 : a / 2 / 2 / 2 / 2 ≡ a / 16 = omega arith in
    omega (
      arith,
      ap (bit_and a) e1,
      and_one_more a (2 * (2 * (2 * m + 1) + 1) + 1),
      and_one_more (a / 2) (2 * (2 * m + 1) + 1),
      and_one_more (a / 2 / 2) (2 * m + 1),
      and_one_more (a / 2 / 2 / 2) m,
      ap (λ t. bit_and t m) e2,
    )

pub or_four_more : (a b r : ℕ) → r < 16 → bit_or (16 * a) (16 * b + r) ≡ 16 * bit_or a b + r
or_four_more a b r h =
    let e1 : 16 * a ≡ 2 * (2 * (2 * (2 * a))) = omega arith in
    let e2 : 16 * b + r ≡ 2 * (2 * (2 * (2 * b + r / 8) + r / 4 % 2) + r / 2 % 2) + r % 2 =
      omega arith in
    omega (
      arith,
      ap₂ bit_or e1 e2,
      or_one_more (2 * (2 * (2 * a))) (2 * (2 * (2 * b + r / 8) + r / 4 % 2) + r / 2 % 2) (r % 2)
          (omega arith),
      or_one_more (2 * (2 * a)) (2 * (2 * b + r / 8) + r / 4 % 2) (r / 2 % 2) (omega arith),
      or_one_more (2 * a) (2 * b + r / 8) (r / 4 % 2) (omega arith),
      or_one_more a b (r / 8) (omega arith),
    )

pub bit_and_ones4 : (a : ℕ) → bit_and a 0xf ≡ a % 16
bit_and_ones4 a = omega (arith, and_four_more a 0, bit_and-zero (a / 16) (a / 16) (omega arith))

pub bit_and_ones8 : (a : ℕ) → bit_and a 0xff ≡ a % 256
bit_and_ones8 a = omega (arith, and_four_more a 0xf, bit_and_ones4 (a / 16))

pub bit_and_ones16 : (a : ℕ) → bit_and a 0xffff ≡ a % 65536
bit_and_ones16 a =
    omega (arith, and_four_more a 0xfff, and_four_more (a / 16) 0xff, bit_and_ones8 (a / 16 / 16))

or_below4 : (a b : ℕ) → bit_or (16 * a) b ≡ 16 * bit_or a (b / 16) + b % 16
or_below4 a b =
    let e : b ≡ 16 * (b / 16) + b % 16 = omega arith in
    ap (bit_or (16 * a)) e ∙ or_four_more a (b / 16) (b % 16) (omega arith)

or_below8 : (a b : ℕ) → bit_or (256 * a) b ≡ 256 * bit_or a (b / 256) + b % 256
or_below8 a b =
    let e : 256 * a ≡ 16 * (16 * a) = omega arith in
    let g : b / 16 / 16 ≡ b / 256 = omega arith in
    omega
      (arith, ap (λ t. bit_or t b) e, or_below4 (16 * a) b, or_below4 a (b / 16), ap (bit_or a) g)

or_below16 : (a b : ℕ) → bit_or (65536 * a) b ≡ 65536 * bit_or a (b / 65536) + b % 65536
or_below16 a b =
    let e : 65536 * a ≡ 256 * (256 * a) = omega arith in
    let g : b / 256 / 256 ≡ b / 65536 = omega arith in
    omega
      (arith, ap (λ t. bit_or t b) e, or_below8 (256 * a) b, or_below8 a (b / 256), ap (bit_or a) g)

pub or_zero : (a : ℕ) → bit_or a 0 ≡ a
or_zero a = bit_or-zero a a (omega arith)

-- The base of a segment from its three fields.
pub bit_or_fields :
    (h m l : ℕ)
    → m < 256
    → l < 65536
    → bit_or (bit_or (h * 2 ^ 24) (m * 2 ^ 16)) l ≡ h * 2 ^ 24 + m * 2 ^ 16 + l
bit_or_fields h m l lm ll =
    let e1 : h * 2 ^ 24 ≡ 65536 * (256 * h) = omega arith in
    let e2 : m * 2 ^ 16 / 65536 ≡ m = omega arith in
    let e3 : m / 256 ≡ 0 = omega arith in
    let e4 : l / 65536 ≡ 0 = omega arith in
    let high : bit_or (h * 2 ^ 24) (m * 2 ^ 16) ≡ 65536 * (256 * h + m) = omega (
      arith,
      ap (λ t. bit_or t (m * 2 ^ 16)) e1,
      or_below16 (256 * h) (m * 2 ^ 16),
      ap (bit_or (256 * h)) e2,
      or_below8 h m,
      ap (bit_or h) e3,
      or_zero h,
    ) in
    omega (
      arith,
      ap (λ t. bit_or t l) high,
      or_below16 (256 * h + m) l,
      ap (bit_or (256 * h + m)) e4,
      or_zero (256 * h + m),
    )
