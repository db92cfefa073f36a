-- ===== src/Fs/Remove/Loss.antt =====
-- A directory that `do_unlink` of fs/link.c makes too small.
use mathlib.Core.Bool.{true≢false}
use bird_os.Prelude.{
  ℕ, zero, suc, ◌+◌, ◌-◌, ◌*◌, ◌^◌, ◌≤◌, ◌<◌, ◌≡◌, inl, inr, sym, ap, ◌∙◌, true, false, some, ◌==◌,
  ltb, if◌then◌else◌, Bool-cases, ltb→lt, arith,
}
use bird_os.Fs.Types.{Inode, SuperBlock}
use bird_os.Fs.Inodes.{get_super_block}
use bird_os.Fs.ReadWrite.Effect.{update_at}
use bird_os.Fs.Directory.{DirEntry, Dirs}
use bird_os.Fs.Directory.Search.{entry_at}
use bird_os.Fs.Directory.Insert.{is_free}
use bird_os.Fs.Directory.Lookup.{put_entry, entry_at-put_entry}
use bird_os.Fs.Remove.{no_entry, remove_entry}
unfoldable use bird_os.Fs.Remove.Scan.{in_use}
use bird_os.Fs.Remove.Scan.{has, in_use-append}
use bird_os.Fs.Remove.Laws.{Unlinks, remove_entry-Unlinks}

in_use_le : (f : ℕ → DirEntry) (i k : ℕ) → in_use f i k ≤ k
unfolding in_use
in_use_le f i zero = omega arith
in_use_le f i (suc k) = ground (arith, in_use_le f (i + 1) k)

in_use_hole : (f : ℕ → DirEntry) (a q : ℕ) → a < q → is_free (f a) ≡ true → in_use f 0 q + 1 ≤ q
unfolding in_use
in_use_hole f a q lt free_ =
    let r : ℕ = q - (a + 1) in
    let split : in_use f 0 (a + suc r) ≡ in_use f 0 a + in_use f (0 + a) (suc r) =
      in_use-append f 0 a (suc r) in
    let whole : in_use f 0 (a + suc r) ≡ in_use f 0 q = ap (in_use f 0) (omega arith) in
    let at : (f (0 + a)).inode_nr ≡ (f a).inode_nr = ap (λ x. (f x).inode_nr) (omega arith) in
    let rest : in_use f (0 + a) (suc r) ≤ r =
      ground (arith, at, free_, in_use_le f (0 + a + 1) r) in
    omega (arith, split, whole, rest, in_use_le f 0 a)

module _ (p nr n : ℕ) (sb : SuperBlock) (s : Dirs) where
  abbrev dir : Inode
  dir = s.fs.inode_table p

  abbrev entry : ℕ → DirEntry
  entry h = entry_at (s.entries dir.i_dev) dir.i_start_sect h

  lost :
      (s' : Dirs) (a b : ℕ)
      → b + 2 ≡ n
      → has nr (entry (b + 1)) ≡ true
      → ((h : ℕ) → h < b + 1 → has nr (entry h) ≡ false)
      → a < b
      → is_free (entry a) ≡ true
      → Unlinks p nr n sb s s'
      → ((s'.fs.inode_table p).i_size ≤ b * 16)
        × (entry_at (s'.entries dir.i_dev) dir.i_start_sect b ≡ entry b)
  lost s' a b last y first hole free_ (inr (_, no_more)) =
      absurd (true≢false (sym y ∙ no_more (b + 1) (omega arith)))
  lost s' a b last y first hole free_ (inl (q, (lt, before, at, ents, node))) =
      elim (Bool-cases (ltb q (b + 1))) [
        | inl h ↦ absurd (true≢false (sym at ∙ first q (ltb→lt q (b + 1) h)))
        | inr h ↦
            let here : q ≡ b + 1 = ground (arith, h, lt, last) in
            let end : (q + 1 == n) ≡ true = ground (arith, here, last) in
            let size : (s'.fs.inode_table p).i_size ≡ 16 * in_use entry 0 q =
              ap (λ x. x.i_size) node
              ∙ ap (λ x. if x then 16 * in_use entry 0 q else dir.i_size) end in
            let other : (b == q) ≡ false = ground (arith, here) in
            let table : s'.entries dir.i_dev
                ≡ put_entry (s.entries dir.i_dev) dir.i_start_sect q no_entry =
              ap (λ x. x dir.i_dev) ents
              ∙ update_at s.entries dir.i_dev
                  (put_entry (s.entries dir.i_dev) dir.i_start_sect q no_entry) in
            (
              omega (arith, size, here, in_use_hole entry a q (omega (arith, here, hole)) free_),
              ap (λ x. entry_at x dir.i_start_sect b) table
                  ∙ entry_at-put_entry (s.entries dir.i_dev) dir.i_start_sect q no_entry b
                  ∙ ap (λ x. if x then no_entry else entry b) other,
            )
      ]

  -- The file is the last of `n` entries of the directory, an entry `a` before it is free, and `b`,
  -- that right before it, is in use. After `do_unlink` entry `b` is as it was, but the directory
  -- has become so small that `b` is behind its end.
  pub remove_entry-loses :
      (a b : ℕ)
      → get_super_block dir.i_dev s.fs ≡ some sb
      → dir.i_size ≡ n * 16
      → n < 2 ^ 27
      → b + 2 ≡ n
      → has nr (entry (b + 1)) ≡ true
      → ((h : ℕ) → h < b + 1 → has nr (entry h) ≡ false)
      → a < b
      → is_free (entry a) ≡ true
      → (s' : Dirs) × (remove_entry p nr s ≡ some s')
        × ((s'.fs.inode_table p).i_size ≤ b * 16)
        × (entry_at (s'.entries dir.i_dev) dir.i_start_sect b ≡ entry b)
  remove_entry-loses a b e size lt last y first hole free_ =
      let (s', runs, u) = remove_entry-Unlinks p nr n sb s e size lt in
      let (small, same) = lost s' a b last y first hole free_ u in (s', runs, small, same)
