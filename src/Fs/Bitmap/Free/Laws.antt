-- ===== src/Fs/Bitmap/Free/Laws.antt =====
-- Which bits of the sector map `do_unlink` of fs/link.c clears.
use bird_os.Prelude.{
  ℕ, ◌+◌, ◌-◌, ◌*◌, ◌/◌, ◌%◌, ◌^◌, ◌≤◌, ◌<◌, ◌≡◌, ap, ap₂, ◌∙◌, Bool, false, ◌&&◌, ◌==◌, ltb, leb,
  if◌then◌else◌, add_u32, sub_u32, update, arith,
}
use bird_os.Fs.Types.{SuperBlock, Inode}
use bird_os.Fs.Bitmap.{Byte, Sector}
unfoldable use bird_os.Fs.Bitmap.Free.{clear_bits, clear_bytes, free_smap_bits, free_sects}
use bird_os.Fs.Bitmap.Free.{Walk}
use bird_os.Fs.Bitmap.Free.Steps.{
  view, place, clear_bits_at, put_view, clear_bytes-view, clear_last_at,
}

-- The bits of the first byte, of those between, and of the last one
bit_range :
    (z q r nr k x y p : ℕ) (b old first : Bool) (u : Byte)
    → x < 8
    → r < 8
    → 8 * k ≤ nr - (8 - r)
    → nr - (8 - r) < 8 * k + 8
    → p ≡ z + q + 1
    → b ≡ (if leb r x && ltb x (r + nr) then false else first)
    → (y ≡ z + q → first ≡ old)
    → u x ≡ (if y == z + q then b else old)
    → (if (y == p + k) && ltb x (nr - (8 - r) - 8 * k)
        then false
        else (if leb p y && ltb y (p + k) then (λ x. false) else u) x)
      ≡ (if leb (8 * (z + q) + r) (y * 8 + x) && ltb (y * 8 + x) (8 * (z + q) + r + nr)
          then false
          else old)
bit_range z q r nr k x y p b old first u lx lr lo hi ep eb ef eu =
    let inner : (if leb p y && ltb y (p + k) then (λ x. false) else u) x
        ≡ (if leb p y && ltb y (p + k) then false else u x) =
      ground arith in
    ap (λ t. if (y == p + k) && ltb x (nr - (8 - r) - 8 * k) then false else t) inner
    ∙ ground (arith, ep, eb, ef, eu)

-- The bits of `nr` sectors from bit `m` of the map on are cleared, and all others of the disk are
-- as they were. Bit `x` of byte `y` of the disk has the number `y * 8 + x`.
free_smap_bits-clears :
    (blk0 m nr : ℕ) (maps : ℕ → Sector) (y x : ℕ)
    → x < 8
    → free_smap_bits blk0 m nr maps (y / 512) (y % 512) x ≡ (
        if leb (blk0 * 4096 + m) (y * 8 + x) && ltb (y * 8 + x) (blk0 * 4096 + m + nr)
        then false
        else maps (y / 512) (y % 512) x)
unfolding free_smap_bits
free_smap_bits-clears blk0 m nr maps y x lt =
    let (bits, rest) =
      clear_bits_at (8 - m % 8) (m % 8) nr (maps (blk0 + m / 8 / 512) (m / 8 % 512)) in
    let b : Byte =
      (clear_bits (8 - m % 8) (m % 8) nr (maps (blk0 + m / 8 / 512) (m / 8 % 512))).0 in
    let start : Walk = record {
      sect = blk0 + m / 8 / 512;
      i = m / 8 % 512 + 1;
      fsbuf = update (maps (blk0 + m / 8 / 512)) (m / 8 % 512) b;
      maps = maps;
    } in
    let k : ℕ = (nr - (8 - m % 8)) / 8 in
    let (p, i, v) = clear_bytes-view k start (omega arith) in
    let begin : Walk = record {
      sect = blk0 + m / 8 / 512;
      i = m / 8 % 512;
      fsbuf = maps (blk0 + m / 8 / 512);
      maps = maps;
    } in
    let old : view begin y ≡ maps (y / 512) (y % 512) = ground arith in
    let first : place begin ≡ blk0 * 512 + m / 8 = omega arith in
    let second : place start ≡ blk0 * 512 + m / 8 + 1 = omega arith in
    let byte : b x ≡ (
        if leb (m % 8) x && ltb x (m % 8 + nr)
        then false
        else maps (blk0 + m / 8 / 512) (m / 8 % 512) x) =
      bits x ∙ ground (arith, lt) in
    let same : y ≡ blk0 * 512 + m / 8
        → maps (blk0 + m / 8 / 512) (m / 8 % 512) x ≡ maps (y / 512) (y % 512) x =
      λ e. ap₂ (λ s j. maps s j x) (omega arith) (omega arith) in
    let begun : view start y x
        ≡ (if y == blk0 * 512 + m / 8 then b x else maps (y / 512) (y % 512) x) =
      ap (λ u. u x) (put_view begin b y (omega arith))
      ∙ ap₂ (λ a u. (if y == a then b else u) x) first old
      ∙ ground arith in
    clear_last_at
      ((clear_bits (8 - m % 8) (m % 8) nr (maps (blk0 + m / 8 / 512) (m / 8 % 512))).1 - 8 * k)
      (clear_bytes k start) i y x
    ∙ ap₂ (λ a l. if (y == a) && ltb x l then false else view (clear_bytes k start) y x) p
        (ap (λ l. l - 8 * k) rest)
    ∙ ap (λ u. if (y == place start + k) && ltb x (nr - (8 - m % 8) - 8 * k) then false else u x)
        (v y)
    ∙ bit_range (blk0 * 512) (m / 8) (m % 8) nr k x y (place start) (b x)
        (maps (y / 512) (y % 512) x) (maps (blk0 + m / 8 / 512) (m / 8 % 512) x) (view start y) lt
        (omega arith) (omega arith) (omega arith) second byte same begun
    ∙ ap
        (λ a.
          if leb a (y * 8 + x) && ltb (y * 8 + x) (a + nr)
          then false
          else maps (y / 512) (y % 512) x)
        (omega arith)

-- The sector map has one bit for each sector of the files, and bit 1 is for the first. `do_unlink`
-- clears the bits of exactly the sectors of the inode, and every other bit of the disk is as it
-- was. Bit `x` of byte `y` of the disk has the number `y * 8 + x`.
pub free_sects-clears :
    (sb : SuperBlock) (v : Inode) (maps : ℕ → Sector) (y x : ℕ)
    → sb.n_1st_sect ≤ v.i_start_sect
    → v.i_start_sect + 1 < 2 ^ 32
    → x < 8
    → free_sects sb v maps (y / 512) (y % 512) x ≡ (
        if leb ((2 + sb.nr_imap_sects) * 4096 + (v.i_start_sect - sb.n_1st_sect + 1)) (y * 8 + x)
          && ltb
              (y * 8 + x)
              ((2 + sb.nr_imap_sects) * 4096 + (v.i_start_sect - sb.n_1st_sect + 1) + v.i_nr_sects)
        then false
        else maps (y / 512) (y % 512) x)
unfolding free_sects
free_sects-clears sb v maps y x le lt lx =
    let bit : add_u32 (sub_u32 v.i_start_sect sb.n_1st_sect) 1
        ≡ v.i_start_sect - sb.n_1st_sect + 1 =
      omega arith in
    ap (λ m. free_smap_bits (2 + sb.nr_imap_sects) m v.i_nr_sects maps (y / 512) (y % 512) x) bit
    ∙ free_smap_bits-clears (2 + sb.nr_imap_sects) (v.i_start_sect - sb.n_1st_sect + 1) v.i_nr_sects
        maps y x lx
