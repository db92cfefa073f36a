-- ===== src/Fs/Inodes/Cache.antt =====
-- The table of inodes as a cache: what `get_inode` of fs/main.c finds, shares and claims.
use bird_os.Prelude.{
  ℕ, ◌<◌, ◌≡◌, ◌≢◌, ◌⊎◌, inl, inr, refl, sym, ap, ◌∙◌, true, false, Option, none, some, ◌==◌,
  Bool-cases, arith, add_u32,
}
use mathlib.Core.Path.{subst}
use mathlib.Core.Bool.{true≢false}
use bird_os.Fs.Types.{Fs, SuperBlock, nr_inode}
use bird_os.Fs.Inodes.{Found, hit, miss, get_super_block}
unfoldable use bird_os.Fs.Inodes.{
  inode_loop, get_inode, share_inode, claim_inode, load_inode, read_inode,
}
use bird_os.Fs.Inodes.Table.{holds, Unique, IsFound, inode_loop-IsFound}

-- What `get_inode` comes to for an inode number other than 0: the table is full of other inodes, or
-- a slot has the inode, which held it before or was free while no slot held it.
abbrev pub Returns : ℕ → ℕ → Fs → Option (Option ℕ × Fs) → Type 0
Returns dev num s none =
    (j : ℕ)
    → j < nr_inode
    → ((s.inode_table j).i_cnt ≢ 0) × (holds (s.inode_table j) dev num ≡ false)
Returns dev num s (some (none, s')) = ⊥
Returns dev num s (some (some p, s')) =
    ((p < nr_inode)
      × ((s'.inode_table p).i_dev ≡ dev)
      × ((s'.inode_table p).i_num ≡ num)
      × ((s'.inode_table p).i_cnt ≡ add_u32 (s.inode_table p).i_cnt 1)
      × ((j : ℕ) → j ≢ p → s'.inode_table j ≡ s.inode_table j)
      × ((holds (s.inode_table p) dev num ≡ true)
          ⊎ (((s.inode_table p).i_cnt ≡ 0)
              × ((j : ℕ) → j < nr_inode → holds (s.inode_table j) dev num ≡ false))))

module _ (dev num : ℕ) (s : Fs) where
  share-Returns :
      (p : ℕ)
      → p < nr_inode
      → holds (s.inode_table p) dev num ≡ true
      → Returns dev num s (some (some p, share_inode p s))
  unfolding share_inode
  share-Returns p lt h =
      (lt, ground (arith, h), ground (arith, h), ground arith, λ j ne. ground arith, inl h)

  read-Returns :
      (q : ℕ) (sb : SuperBlock)
      → q < nr_inode
      → (s.inode_table q).i_cnt ≡ 0
      → ((j : ℕ) → j < nr_inode → holds (s.inode_table j) dev num ≡ false)
      → get_super_block dev s ≡ some sb
      → Returns dev num s (read_inode q dev num s)
  unfolding read_inode claim_inode load_inode
  read-Returns q sb lt z h e =
      rw (Returns, e)
        (lt, ground arith, ground arith, rw z (ground arith), λ j ne. ground arith, inr (z, h))

  found-Returns :
      (sb : SuperBlock) (r : Found)
      → get_super_block dev s ≡ some sb
      → num ≢ 0
      → inode_loop nr_inode 0 none dev num s.inode_table ≡ r
      → IsFound nr_inode 0 none dev num s.inode_table r
      → Returns dev num s (get_inode dev num s)
  unfolding get_inode
  found-Returns sb (hit p) e ne f (a, b, c) =
      let z : (num == 0) ≡ false = ground arith in rw (z, f) (share-Returns p b c)
  found-Returns sb (miss none) e ne f (h, i) =
      let z : (num == 0) ≡ false = ground arith in
      rw (z, f) λ j lt. (i j (omega arith) (omega arith), h j (omega arith) (omega arith))
  found-Returns sb (miss (some q)) e ne f (h, (a, b, c)) =
      let z : (num == 0) ≡ false = ground arith in
      rw (z, f) (read-Returns q sb b c (λ j lt. h j (omega arith) (omega arith)) e)

  -- Where the device has a super block and the number is not 0, `get_inode` fails only when all 64
  -- slots are in use for other inodes. Otherwise it returns a slot for this device and number, with
  -- its count one higher than it was, and leaves the other slots as they were; the slot is the one
  -- that held the inode, or a free one where none did.
  pub get_inode-Returns :
      (sb : SuperBlock)
      → get_super_block dev s ≡ some sb
      → num ≢ 0
      → Returns dev num s (get_inode dev num s)
  get_inode-Returns sb e ne =
      found-Returns sb (inode_loop nr_inode 0 none dev num s.inode_table) e ne refl
        (inode_loop-IsFound nr_inode 0 none dev num s.inode_table)

  Returns-Unique :
      (p : ℕ) (s' : Fs)
      → Unique s.inode_table
      → Returns dev num s (some (some p, s'))
      → Unique s'.inode_table
  Returns-Unique p s' u (lt, dv, nm, ct, fr, was) = unique
    where
      other :
          (q d n : ℕ)
          → q < nr_inode
          → holds (s'.inode_table p) d n ≡ true
          → holds (s'.inode_table q) d n ≡ true
          → q ≢ p
          → ⊥
      other q d n lq hp hq ne = elim was [
        | inl h ↦ ne (sym (u p q dev num lt lq h there))
        | inr (z, h) ↦ true≢false (sym there ∙ h q lq)
      ]
        where
          there : holds (s.inode_table q) dev num ≡ true
          there =
              let hq : holds (s.inode_table q) d n ≡ true =
                sym (ap (λ v. holds v d n) (fr q ne)) ∙ hq in
              ground (arith, dv, nm, hp, hq)

      with_slot :
          (a b d n : ℕ)
          → b < nr_inode
          → holds (s'.inode_table a) d n ≡ true
          → holds (s'.inode_table b) d n ≡ true
          → a ≡ p
          → a ≡ b
      with_slot a b d n lb ha hb e = elim (Bool-cases (b == p)) [
        | inl f ↦ e ∙ ground (arith, f)
        | inr f ↦ absurd (
            other b d n lb (ap (λ i. holds (s'.inode_table i) d n) (sym e) ∙ ha) hb
              (ground (arith, f)))
      ]

      unique : Unique s'.inode_table
      unique a b d n la lb ha hb = elim (Bool-cases (a == p)) [
        | inl e ↦ with_slot a b d n lb ha hb (ground (arith, e))
        | inr e ↦ elim (Bool-cases (b == p)) [
          | inl f ↦ sym (with_slot b a d n la hb ha (ground (arith, f)))
          | inr f ↦
              u a b d n la lb (sym (ap (λ v. holds v d n) (fr a (ground (arith, e)))) ∙ ha)
                (sym (ap (λ v. holds v d n) (fr b (ground (arith, f)))) ∙ hb)
        ]
      ]

  get_inode_zero : (num == 0) ≡ true → get_inode dev num s ≡ some (none, s)
  unfolding get_inode
  get_inode_zero z = rw z refl

  -- Where the device has a super block, `get_inode` never puts an inode into two slots.
  pub get_inode-Unique :
      (sb : SuperBlock) (r : Option ℕ) (s' : Fs)
      → get_super_block dev s ≡ some sb
      → get_inode dev num s ≡ some (r, s')
      → Unique s.inode_table
      → Unique s'.inode_table
  get_inode-Unique sb r s' e g u = elim (Bool-cases (num == 0)) [
    | inl z ↦
        let same : s ≡ s' =
          ap (λ o. elim o [ none ↦ s | some x ↦ x.1 ]) (sym (get_inode_zero z) ∙ g) in
        subst (λ x. Unique x.inode_table) same u
    | inr z ↦
        let h : Returns dev num s (some (r, s')) =
          subst (Returns dev num s) g (get_inode-Returns sb e (ground (arith, z))) in
        returned r h
  ]
    where
      returned : (r : Option ℕ) → Returns dev num s (some (r, s')) → Unique s'.inode_table
      returned none h = absurd h
      returned (some p) h = Returns-Unique p s' u h
