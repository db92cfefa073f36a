-- ===== src/Fs/Inodes/Sync.antt =====
-- What `sync_inode` of fs/main.c leaves on the disk, and what `get_inode` reads back.
use bird_os.Prelude.{ℕ, ◌+◌, ◌-◌, ◌%◌, ◌≤◌, ◌<◌, ◌≡◌, refl, ap, ◌∙◌, Option, none, some, arith}
use bird_os.Fs.Types.{Fs, Inode, SuperBlock}
use bird_os.Fs.Inodes.{get_super_block, rd_sect}
unfoldable use bird_os.Fs.Inodes.{
  sync_inode, write_inode, read_inode, claim_inode, store_inode, load_inode, blk_nr, inode_word,
}

-- What a slot that is read from the disk comes to hold.
abbrev pub Reads : ℕ → (Inode → Type 0) → Option (Option ℕ × Fs) → Type 0
Reads q P none = ⊥
Reads q P (some (none, s)) = ⊥
Reads q P (some (some r, s)) = (r ≡ q) × P (s.inode_table q)

-- Each word of the sector after `write_inode`.
write_inode_at :
    (v : Inode) (sb : SuperBlock) (s : Fs) (w : ℕ)
    → w < 128
    → (write_inode v sb s).disk v.i_dev (blk_nr sb v.i_num) w
      ≡ store_inode v (inode_word v.i_num) (rd_sect v.i_dev (blk_nr sb v.i_num) s).fsbuf w
unfolding write_inode
write_inode_at v sb s w lt = ground arith

inode_word_lt : (num : ℕ) → inode_word num + 8 ≤ 128
unfolding inode_word
inode_word_lt num = omega arith

Reads-map :
    (P Q : Inode → Type 0) (q : ℕ) (o : Option (Option ℕ × Fs))
    → ((v : Inode) → P v → Q v)
    → Reads q P o
    → Reads q Q o
Reads-map P Q q none h r = r
Reads-map P Q q (some (none, s)) h r = r
Reads-map P Q q (some (some r, s)) h (e, x) = (e, h (s.inode_table q) x)

-- `read_inode` takes the words of the inode from the disk.
read_inode-Reads :
    (q dev num : ℕ) (s : Fs) (sb : SuperBlock) (f : ℕ → ℕ)
    → get_super_block dev s ≡ some sb
    → ((w : ℕ) → w < 128 → s.disk dev (blk_nr sb num) w ≡ f w)
    → Reads q
        (λ v.
          (v.i_mode ≡ f (inode_word num))
          × (v.i_size ≡ f (inode_word num + 1))
          × (v.i_start_sect ≡ f (inode_word num + 2))
          × (v.i_nr_sects ≡ f (inode_word num + 3)))
        (read_inode q dev num s)
unfolding read_inode claim_inode load_inode
read_inode-Reads q dev num s sb f e h =
    let lt : inode_word num + 8 ≤ 128 = inode_word_lt num in
    rw (Reads, e)
      (
        refl,
        (
          ground (arith, lt, h (inode_word num)),
          ground (arith, lt, h (inode_word num + 1)),
          ground (arith, lt, h (inode_word num + 2)),
          ground (arith, lt, h (inode_word num + 3)),
        ),
      )

store_inode_at :
    (v : Inode) (w : ℕ) (b : ℕ → ℕ)
    → (store_inode v w b w ≡ v.i_mode)
      × (store_inode v w b (w + 1) ≡ v.i_size)
      × (store_inode v w b (w + 2) ≡ v.i_start_sect)
      × (store_inode v w b (w + 3) ≡ v.i_nr_sects)
      × (store_inode v w b (w + 8) ≡ v.i_node_length)
      × (store_inode v w b (w + 9) ≡ v.i_sects_pos v.i_node_length)
unfolding store_inode
store_inode_at v w b =
    (ground arith, ground arith, ground arith, ground arith, ground arith, ground arith)

next_word : (num : ℕ) → 1 ≤ num → (num - 1) % 16 < 15 → inode_word (num + 1) ≡ inode_word num + 8
unfolding inode_word
next_word num ge lt = omega arith

same_blk :
    (sb : SuperBlock) (num : ℕ)
    → 1 ≤ num
    → (num - 1) % 16 < 15
    → blk_nr sb (num + 1) ≡ blk_nr sb num
unfolding blk_nr
same_blk sb num ge lt = omega arith

module _ (p q : ℕ) (s : Fs) (sb : SuperBlock) where
  sync_inode-some :
      get_super_block (s.inode_table p).i_dev s ≡ some sb
      → sync_inode p s ≡ some (write_inode (s.inode_table p) sb s)
  unfolding sync_inode
  sync_inode-some e = rw (sync_inode, e) refl

  after :
      (dev : ℕ)
      → get_super_block dev s ≡ some sb
      → get_super_block dev (write_inode (s.inode_table p) sb s) ≡ some sb
  unfolding write_inode
  after dev e = e

  -- Where the device has a super block, `sync_inode` succeeds, and an inode slot that is then read
  -- for the same device and number gets the mode, size, first sector and sector count that the
  -- synced slot has.
  pub read_inode-sync_inode :
      get_super_block (s.inode_table p).i_dev s ≡ some sb
      → (s' : Fs) × (sync_inode p s ≡ some s')
        × Reads q
            (λ v.
              (v.i_mode ≡ (s.inode_table p).i_mode)
              × (v.i_size ≡ (s.inode_table p).i_size)
              × (v.i_start_sect ≡ (s.inode_table p).i_start_sect)
              × (v.i_nr_sects ≡ (s.inode_table p).i_nr_sects))
            (read_inode q (s.inode_table p).i_dev (s.inode_table p).i_num s')
  read_inode-sync_inode e =
      let v : Inode = s.inode_table p in
      let f : ℕ → ℕ =
        store_inode v (inode_word v.i_num) (rd_sect v.i_dev (blk_nr sb v.i_num) s).fsbuf in
      (
        write_inode v sb s,
        sync_inode-some e,
        Reads-map
            (λ x.
              (x.i_mode ≡ f (inode_word v.i_num))
              × (x.i_size ≡ f (inode_word v.i_num + 1))
              × (x.i_start_sect ≡ f (inode_word v.i_num + 2))
              × (x.i_nr_sects ≡ f (inode_word v.i_num + 3)))
            (λ x.
              (x.i_mode ≡ v.i_mode)
              × (x.i_size ≡ v.i_size)
              × (x.i_start_sect ≡ v.i_start_sect)
              × (x.i_nr_sects ≡ v.i_nr_sects))
            q (read_inode q v.i_dev v.i_num (write_inode v sb s))
            (λ x (a, b, c, d).
              let (i, j, k, l, m, n) =
                store_inode_at v (inode_word v.i_num)
                  (rd_sect v.i_dev (blk_nr sb v.i_num) s).fsbuf in
              (a ∙ i, b ∙ j, c ∙ k, d ∙ l))
            (read_inode-Reads q v.i_dev v.i_num (write_inode v sb s) sb f (after v.i_dev e)
              (write_inode_at v sb s)),
      )

  -- Where the device has a super block and the inode is not the last one of its sector,
  -- `sync_inode` writes over the next inode: a slot that is then read for the next number gets the
  -- synced inode's `i_node_length` as its mode and an item of its `i_sects_pos` as its size.
  pub sync_inode-clobbers :
      get_super_block (s.inode_table p).i_dev s ≡ some sb
      → 1 ≤ (s.inode_table p).i_num
      → ((s.inode_table p).i_num - 1) % 16 < 15
      → (s' : Fs) × (sync_inode p s ≡ some s')
        × Reads q
            (λ v.
              (v.i_mode ≡ (s.inode_table p).i_node_length)
              × (v.i_size ≡ (s.inode_table p).i_sects_pos (s.inode_table p).i_node_length))
            (read_inode q (s.inode_table p).i_dev ((s.inode_table p).i_num + 1) s')
  sync_inode-clobbers e ge lt =
      let v : Inode = s.inode_table p in
      let f : ℕ → ℕ =
        store_inode v (inode_word v.i_num) (rd_sect v.i_dev (blk_nr sb v.i_num) s).fsbuf in
      (
        write_inode v sb s,
        sync_inode-some e,
        Reads-map
            (λ x.
              (x.i_mode ≡ f (inode_word (v.i_num + 1)))
              × (x.i_size ≡ f (inode_word (v.i_num + 1) + 1))
              × (x.i_start_sect ≡ f (inode_word (v.i_num + 1) + 2))
              × (x.i_nr_sects ≡ f (inode_word (v.i_num + 1) + 3)))
            (λ x. (x.i_mode ≡ v.i_node_length) × (x.i_size ≡ v.i_sects_pos v.i_node_length)) q
            (read_inode q v.i_dev (v.i_num + 1) (write_inode v sb s))
            (λ x (a, b, c, d).
              let (i, j, k, l, m, n) =
                store_inode_at v (inode_word v.i_num)
                  (rd_sect v.i_dev (blk_nr sb v.i_num) s).fsbuf in
              (
                a ∙ ap f (next_word v.i_num ge lt) ∙ m,
                b ∙ ap f (ap (λ w. w + 1) (next_word v.i_num ge lt) ∙ omega arith) ∙ n,
              ))
            (read_inode-Reads q v.i_dev (v.i_num + 1) (write_inode v sb s) sb f (after v.i_dev e)
              (λ w lw.
                ap (λ z. (write_inode v sb s).disk v.i_dev z w) (same_blk sb v.i_num ge lt)
                ∙ write_inode_at v sb s w lw)),
      )
