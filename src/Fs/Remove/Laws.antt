-- ===== src/Fs/Remove/Laws.antt =====
-- What `do_unlink` of fs/link.c does to the directory of the file.
use bird_os.Prelude.{
  ℕ, ◌+◌, ◌*◌, ◌/◌, ◌%◌, ◌^◌, ◌<◌, ◌≡◌, ◌⊎◌, inl, inr, refl, sym, ap, ap₂, ◌∙◌, true, false, Option,
  none, some, ◌==◌, if◌then◌else◌, Bool-cases, add_u32, update, arith,
}
use bird_os.Fs.Types.{Inode, SuperBlock}
use bird_os.Fs.Inodes.{get_super_block, set_inode, sync_inode}
use bird_os.Fs.ReadWrite.Effect.{update_at}
use bird_os.Fs.Directory.{DirEntry, Dirs}
use bird_os.Fs.Directory.Search.{entry_at}
use bird_os.Fs.Directory.Lookup.{put_entry, sync_lem}
use bird_os.Fs.Remove.{no_entry, clear_at, clear_blks}
unfoldable use bird_os.Fs.Remove.{shrink, remove_entry}
use bird_os.Fs.Remove.Scan.{has, in_use, in_use-cong}
use bird_os.Fs.Remove.Blocks.{Removes, clear_blks-Removes}

module _ (p nr n : ℕ) (sb : SuperBlock) (s : Dirs) where
  abbrev dir : Inode
  dir = s.fs.inode_table p

  abbrev table : ℕ → ℕ → DirEntry
  table = s.entries dir.i_dev

  abbrev entry : ℕ → DirEntry
  entry h = entry_at table dir.i_start_sect h

  -- The directory without entry `q`, which was the first of the file
  abbrev pub Removed : ℕ → Dirs → Type 0
  Removed q s' =
      (q < n)
      × ((h : ℕ) → h < q → has nr (entry h) ≡ false)
      × (has nr (entry q) ≡ true)
      × (s'.entries ≡ update s.entries dir.i_dev (put_entry table dir.i_start_sect q no_entry))
      × (s'.fs.inode_table p
          ≡ record dir { i_size = if q + 1 == n then 16 * in_use entry 0 q else dir.i_size })

  abbrev pub Unlinks : Dirs → Type 0
  Unlinks s' = ((q : ℕ) × Removed q s') ⊎ ((s' ≡ s) × ((h : ℕ) → h < n → has nr (entry h) ≡ false))

  shrunk :
      (i j m d : ℕ)
      → get_super_block dir.i_dev s.fs ≡ some sb
      → (s' : Dirs) × (shrink p n s (some (i, j), m, d) ≡ some s')
        × (s'.entries ≡ (clear_at (some (i, j)) dir s).entries)
        × (s'.fs.inode_table p ≡ record dir { i_size = if m == n then d else dir.i_size })
  unfolding shrink
  shrunk i j m d e = elim (Bool-cases (m == n)) [
    | inl h ↦
        let v : Inode = record dir { i_size = d } in
        let there : (set_inode p v s.fs).inode_table p ≡ v = update_at s.fs.inode_table p v in
        let (t, synced, tab) =
          sync_lem p (set_inode p v s.fs) sb (ap (λ x. get_super_block x.i_dev s.fs) there ∙ e) in
        (
          record { fs = t; entries = (clear_at (some (i, j)) dir s).entries },
          ap
                (λ x.
                  if x
                  then elim (sync_inode p (set_inode p v s.fs)) [
                    | none ↦ none
                    | some t ↦
                        some record { fs = t; entries = (clear_at (some (i, j)) dir s).entries }
                  ]
                  else some (clear_at (some (i, j)) dir s))
                h
              ∙ ap
                  (λ o. elim o [
                    | none ↦ none
                    | some t ↦
                        some record { fs = t; entries = (clear_at (some (i, j)) dir s).entries }
                  ])
                  synced,
          refl,
          ap (λ x. x p) tab
              ∙ there
              ∙ ap (λ x. record dir { i_size = if x then d else dir.i_size }) (sym h),
        )
    | inr h ↦ (clear_at (some (i, j)) dir s, rw h refl, refl, rw h refl)
  ]

  here : (h : ℕ) → entry h ≡ entry_at table (dir.i_start_sect + 0) h
  here h = ap (λ x. entry_at table x h) (omega arith)

  kept_all : (m d : ℕ) → m ≡ n + 1 → shrink p n s (none, m, d) ≡ some s
  unfolding shrink
  kept_all m d e = let other : (m == n) ≡ false = ground (arith, e) in rw other refl

  unlinks :
      (r : Option (ℕ × ℕ) × ℕ × ℕ)
      → get_super_block dir.i_dev s.fs ≡ some sb
      → Removes 0 0 n 0 nr dir.i_start_sect table r
      → (s' : Dirs) × (shrink p n s r ≡ some s') × Unlinks s'
  unlinks (none, m, d) e (em, none_) =
      (s, kept_all m d em, inr (refl, λ h b. ap (has nr) (here h) ∙ none_ h (omega arith)))
  unlinks (some (i, j), m, d) e (q, ei, ej, em, le, ed, first, y) =
      let (s', runs, ents, node) = shrunk i j m d e in
      let place : clear_at (some (i, j)) dir s ≡ clear_at (some (q / 32, q % 32)) dir s =
        ap₂ (λ x y. clear_at (some (x, y)) dir s) (omega (arith, ei)) ej in
      let last : (m == n) ≡ (q + 1 == n) = ap (λ x. x == n) (omega (arith, em)) in
      let count : d ≡ 16 * in_use entry 0 q =
        let same : in_use (entry_at table (dir.i_start_sect + 0)) 0 q ≡ in_use entry 0 q =
          in_use-cong (entry_at table (dir.i_start_sect + 0)) entry 0 0 q
            λ h b. sym (here (0 + h)) in
        omega (arith, ed, same) in
      (
        s',
        runs,
        inl (
          q,
          (
            omega (arith, em, le),
            λ h b. ap (has nr) (here h) ∙ first h b,
            ap (has nr) (here q) ∙ y,
            ents ∙ ap (λ x. x.entries) place,
            node ∙ ap₂ (λ x y. record dir { i_size = if x then y else dir.i_size }) last count,
          ),
        ),
      )

  -- The directory has `n` entries, and a super block. `do_unlink` clears the first entry of the
  -- file, or changes nothing if there is none. If that entry was the last one, the size becomes
  -- that of as many entries as were in use before it; else it stays.
  pub remove_entry-Unlinks :
      get_super_block dir.i_dev s.fs ≡ some sb
      → dir.i_size ≡ n * 16
      → n < 2 ^ 27
      → (s' : Dirs) × (remove_entry p nr s ≡ some s') × Unlinks s'
  unfolding remove_entry
  remove_entry-Unlinks e size lt =
      let sects : add_u32 dir.i_size 512 / 512 ≡ (dir.i_size + 512) / 512 = omega (arith, size) in
      let all : dir.i_size / 16 ≡ n = omega (arith, size) in
      let r : Option (ℕ × ℕ) × ℕ × ℕ =
        clear_blks ((dir.i_size + 512) / 512) 0 0 n 0 nr dir.i_start_sect table in
      let (s', runs, u) = unlinks r e (
        clear_blks-Removes ((dir.i_size + 512) / 512) 0 0 n 0 nr dir.i_start_sect table
          (omega arith) (omega (arith, size))) in
      (
        s',
        ap₂ (λ x y. shrink p y s (clear_blks x 0 0 y 0 nr dir.i_start_sect table)) sects all ∙ runs,
        u,
      )
