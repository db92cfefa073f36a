-- ===== src/Fs/Bitmap/Free/Steps.antt =====
-- What the steps of the loops of `do_unlink` (fs/link.c) over the sector map change.
use bird_os.Prelude.{
  ℕ, zero, suc, ◌+◌, ◌-◌, ◌*◌, ◌/◌, ◌%◌, ◌≤◌, ◌<◌, ◌≡◌, refl, ap, ap₂, ◌∙◌, inl, inr, false, ◌&&◌,
  ◌==◌, ltb, leb, if◌then◌else◌, Bool-cases, update, arith,
}
use bird_os.Fs.Bitmap.{Byte}
unfoldable use bird_os.Fs.Bitmap.Free.{clear_bits, next_sector, clear_byte, clear_bytes, clear_last}
use bird_os.Fs.Bitmap.Free.{Walk}

-- The byte at a place on the disk, as it will be when the buffer is written
abbrev pub view : Walk → ℕ → Byte
view w y = if y / 512 == w.sect then w.fsbuf (y % 512) else w.maps (y / 512) (y % 512)

abbrev pub place : Walk → ℕ
place w = w.sect * 512 + w.i

pub clear_bits_at :
    (n k left : ℕ) (b : Byte)
    → ((x : ℕ)
        → (clear_bits n k left b).0 x
          ≡ (if leb k x && (ltb x (k + n) && ltb x (k + left)) then false else b x))
      × ((clear_bits n k left b).1 ≡ left - n)
unfolding clear_bits
clear_bits_at zero k left b = (λ x. ground arith, omega arith)
clear_bits_at (suc n) k left b = elim (Bool-cases (left == 0)) [
  | inl e ↦ rw e (λ x. ground (arith, e), ground (arith, e))
  | inr e ↦
      let (bits, rest) = clear_bits_at n (k + 1) (left - 1) (update b k false) in
      rw e (λ x. bits x ∙ ground (arith, e), rest ∙ ground (arith, e))
]

next_sector-view :
    (w : Walk)
    → w.i ≤ 512
    → (place (next_sector w) ≡ place w)
      × ((next_sector w).i < 512)
      × ((y : ℕ) → view (next_sector w) y ≡ view w y)
unfolding next_sector
next_sector-view w le = elim (Bool-cases (w.i == 512)) [
  | inl e ↦ rw e (ground (arith, e), omega arith, λ y. ground arith)
  | inr e ↦ rw e (refl, ground (arith, e, le), λ y. refl)
]

-- A byte written over in the buffer
pub put_view :
    (w : Walk) (b : Byte) (y : ℕ)
    → w.i < 512
    → view (record w { i = w.i + 1; fsbuf = update w.fsbuf w.i b }) y
      ≡ (if y == place w then b else view w y)
put_view w b y lt =
    let here : y / 512 ≡ w.sect → y % 512 ≡ w.i → y ≡ w.sect * 512 + w.i = λ e g. omega arith in
    let row : y ≡ w.sect * 512 + w.i → (y / 512 ≡ w.sect) × (y % 512 ≡ w.i) =
      λ e. (omega arith, omega arith) in
    ground (arith, here, row)

clear_byte-view :
    (w : Walk)
    → w.i ≤ 512
    → (place (clear_byte w) ≡ place w + 1)
      × ((clear_byte w).i ≤ 512)
      × ((y : ℕ) → view (clear_byte w) y ≡ (if y == place w then (λ x. false) else view w y))
unfolding clear_byte
clear_byte-view w le =
    let (same, lt, views) = next_sector-view w le in
    (
      omega (arith, same),
      omega (arith, lt),
      λ y.
          put_view (next_sector w) (λ x. false) y lt
          ∙ ap₂ (λ p v. if y == p then (λ x. false) else v) same (views y),
    )

pub clear_bytes-view :
    (k : ℕ) (w : Walk)
    → w.i ≤ 512
    → (place (clear_bytes k w) ≡ place w + k)
      × ((clear_bytes k w).i ≤ 512)
      × ((y : ℕ)
          → view (clear_bytes k w) y
            ≡ (if leb (place w) y && ltb y (place w + k) then (λ x. false) else view w y))
unfolding clear_bytes
clear_bytes-view zero w le = (omega arith, le, λ y. ground arith)
clear_bytes-view (suc k) w le =
    let (p, i, v) = clear_byte-view w le in
    let (ps, is, vs) = clear_bytes-view k (clear_byte w) i in
    (
      omega (arith, p, ps),
      is,
      λ y.
          vs y
          ∙ ap₂ (λ a u. if leb a y && ltb y (a + k) then (λ x. false) else u) p (v y)
          ∙ ground arith,
    )

pub clear_last_at :
    (left : ℕ) (w : Walk)
    → w.i ≤ 512
    → (y x : ℕ)
    → clear_last left w (y / 512) (y % 512) x
      ≡ (if (y == place w) && ltb x left then false else view w y x)
unfolding clear_last
clear_last_at left w le y x =
    let (same, lt, views) = next_sector-view w le in
    let v : Walk = next_sector w in
    let b : Byte = λ x. if ltb x left then false else v.fsbuf v.i x in
    let written : update v.maps v.sect (update v.fsbuf v.i b) (y / 512) (y % 512) x
        ≡ view (record v { i = v.i + 1; fsbuf = update v.fsbuf v.i b }) y x =
      ground arith in
    let row : y ≡ v.sect * 512 + v.i → (y / 512 ≡ v.sect) × (y % 512 ≡ v.i) =
      λ e. (omega arith, omega arith) in
    let there : y ≡ v.sect * 512 + v.i → v.fsbuf (y % 512) x ≡ v.fsbuf v.i x =
      λ e. ap (λ i. v.fsbuf i x) (row e).1 in
    let last : (if y == place v then b else view v y) x
        ≡ (if (y == place v) && ltb x left then false else view v y x) =
      ground (arith, row, there) in
    written
    ∙ ap (λ u. u x) (put_view v b y lt)
    ∙ last
    ∙ ap₂ (λ p u. if (y == p) && ltb x left then false else u x) same (views y)
