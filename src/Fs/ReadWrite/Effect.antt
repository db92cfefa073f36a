-- ===== src/Fs/ReadWrite/Effect.antt =====
-- What `do_rdwt` of fs/read_write.c does to a file that is open.
use bird_os.Prelude.{
  ℕ, ◌+◌, ◌-◌, ◌*◌, ◌/◌, ◌%◌, ◌≤◌, ◌<◌, ◌≡◌, refl, sym, ap, ap₂, ◌∙◌, inl, inr, ltb, if◌then◌else◌,
  Bool-cases, Option, none, some, add_u32, sub_u32, update, arith,
}
use bird_os.Fs.Types.{Fs, Inode, SuperBlock}
use bird_os.Fs.Inodes.{get_super_block, set_inode, write_inode}
unfoldable use bird_os.Fs.Inodes.{sync_inode}
use bird_os.Fs.Descriptors.{set_desc}
use bird_os.Fs.ReadWrite.{Files, Io, Job, pos_end, umin, smin, sects_of, rest_of, rdwt_loop}
unfoldable use bird_os.Fs.ReadWrite.{grow, transfer}
use bird_os.Fs.ReadWrite.Moves.{Moved, At, Moved-from, Moved-fs, update_self}
use bird_os.Fs.ReadWrite.Loop.{Fits, Ended, rdwt_loop-Ended}
use bird_os.Fs.ReadWrite.Plan.{
  Sane, limit, end_of, limit_le, pos_end_lem, sect_lem, rest_lem, sects_lem,
}

-- The tables after a transfer that ends at `pos`: the position of descriptor `d` is `pos`, and if
-- the file in slot `p` was shorter, `pos` is its size, also on the disk.
abbrev pub at_pos : ℕ → ℕ → Fs → Fs
at_pos d pos t = set_desc d (record (t.f_desc_table d) { fd_pos = pos }) t

abbrev pub sized : ℕ → ℕ → Fs → Inode
sized p pos t = record (t.inode_table p) { i_size = pos }

abbrev pub ended_at : ℕ → ℕ → ℕ → SuperBlock → Fs → Fs
ended_at d p pos sb t =
    if ltb (t.inode_table p).i_size pos
    then write_inode (sized p pos t) sb (set_inode p (sized p pos t) (at_pos d pos t))
    else at_pos d pos t

pub update_at : {A : Type 0} (f : ℕ → A) (i : ℕ) (v : A) → update f i v i ≡ v
update_at f i v = ground arith

pub sync_inode_at :
    (p : ℕ) (v : Inode) (sb : SuperBlock) (t : Fs)
    → get_super_block v.i_dev t ≡ some sb
    → sync_inode p (set_inode p v t) ≡ some (write_inode v sb (set_inode p v t))
unfolding sync_inode
sync_inode_at p v sb t e =
    let found : Inode → Option SuperBlock → Option Fs =
      λ w o. elim o [ none ↦ none | some sb ↦ some (write_inode w sb (set_inode p v t)) ] in
    ap (λ w. found w (get_super_block w.i_dev t)) (update_at t.inode_table p v) ∙ ap (found v) e

grow_lem :
    (d p n pos : ℕ) (sb : SuperBlock) (t : Fs) (f : Files)
    → get_super_block (t.inode_table p).i_dev t ≡ some sb
    → At d pos t f
    → grow d p n f ≡ some (n, record f { fs = ended_at d p pos sb t })
unfolding grow
grow_lem d p n pos sb t f e a =
    let grown : Fs → ℕ → Option (ℕ × Files) = λ x q.
      if ltb (x.inode_table p).i_size q
      then elim (sync_inode p (set_inode p (sized p q x) x)) [
        | none ↦ none
        | some fs' ↦ some (n, record f { fs = fs' })
      ]
      else some (n, record f { fs = x }) in
    let here : ((at_pos d pos t).f_desc_table d).fd_pos ≡ pos = ground arith in
    ap (λ x. grown x (x.f_desc_table d).fd_pos) a
    ∙ ap (grown (at_pos d pos t)) here
    ∙ (elim (Bool-cases (ltb (t.inode_table p).i_size pos)) [
      | inl h ↦ rw (h, sync_inode_at p (sized p pos t) sb (at_pos d pos t) e) refl
      | inr h ↦ rw h refl
    ])

-- The loop's job for a transfer of `len` bytes at `pos`
abbrev plan : Io → ℕ → ℕ → ℕ → ℕ → ℕ → Inode → Job
plan io d base buf pos len v = record {
  io = io;
  dev = v.i_dev;
  base = base;
  buf = buf;
  desc = d;
  rw_sect_max = v.i_start_sect + end_of io pos len v / 512;
  chunk = end_of io pos len v / 512 - pos / 512 + 1;
}

module _ (io : Io) (d p base buf len : ℕ) (f : Files) (sb : SuperBlock)
    (s : Sane (f.fs.inode_table p) base buf len) where
  abbrev inode : Inode
  inode = f.fs.inode_table p

  abbrev from : ℕ
  from = (f.fs.f_desc_table d).fd_pos

  abbrev end : ℕ
  end = end_of io from len inode

  abbrev rounds : Option (ℕ × Files)
  rounds =
      rdwt_loop (end / 512 - from / 512 + 1 + 1) (plan io d base buf from len inode)
        (inode.i_start_sect + from / 512) (from % 512) 0 len f

  rounds-Ended :
      from ≤ limit io inode
      → end / 512 < from / 512 + 256
      → Ended
          (plan io d base buf from len inode)
          (inode.i_start_sect + from / 512)
          (from % 512)
          0
          len
          from
          f.fs
          f
          rounds
  rounds-Ended le few =
      let last_le : end ≤ inode.i_nr_sects * 512 =
        ground (arith, limit_le inode base buf len from s io) in
      let from_le : from ≤ end = ground (arith, le) in
      let fits : Fits (plan io d base buf from len inode) (inode.i_start_sect + from / 512)
          (from % 512) 0 len =
        record {
          some_chunk = omega arith;
          small_chunk = omega (arith, few);
          small_off = omega arith;
          on_disk = omega (arith, s.on_disk, last_le);
          in_mem = omega (arith, s.in_mem);
          near = omega (arith, from_le);
          asked = s.asked;
        } in
      rdwt_loop-Ended (end / 512 - from / 512 + 1 + 1) (plan io d base buf from len inode)
        (inode.i_start_sect + from / 512) (from % 512) 0 len from f.fs f fits
        (ap (λ x. record f.fs { f_desc_table = x }) (sym (update_self f.fs.f_desc_table d)))
        (omega (arith, s.asked, s.on_disk, last_le, from_le)) (omega arith) (omega (arith, from_le))

  transfer_lem :
      from ≤ limit io inode
      → end / 512 < from / 512 + 256
      → transfer io d p base buf len f ≡ elim rounds [ none ↦ none | some (n, f') ↦ grow d p n f' ]
  unfolding transfer
  transfer_lem le few =
      let last_le : end ≤ inode.i_nr_sects * 512 =
        ground (arith, limit_le inode base buf len from s io) in
      let from_le : from ≤ end = ground (arith, le) in
      let go : ℕ → ℕ → ℕ → ℕ → ℕ → Option (ℕ × Files) = λ last first sects off chunk.
        elim (rdwt_loop (sects + 1)
          record {
            io = io;
            dev = inode.i_dev;
            base = base;
            buf = buf;
            desc = d;
            rw_sect_max = last;
            chunk = chunk;
          }
          first off 0 len f) [ none ↦ none | some (n, f') ↦ grow d p n f' ] in
      let last : ℕ = inode.i_start_sect + end / 512 in
      let first : ℕ = inode.i_start_sect + from / 512 in
      let sects : ℕ = end / 512 - from / 512 + 1 in
      let last_eq : add_u32 inode.i_start_sect (sects_of (pos_end io from len inode)) ≡ last =
        ap (λ x. add_u32 inode.i_start_sect (sects_of x))
          (pos_end_lem inode base buf len from s io le)
        ∙ sect_lem inode base buf len from s end last_le in
      let first_eq : add_u32 inode.i_start_sect (sects_of from) ≡ first =
        sect_lem inode base buf len from s from (omega (arith, last_le, from_le)) in
      let chunk_eq : smin sects 2048 ≡ sects = ground (arith, few) in
      ap₂
        (λ x y.
          go x y (add_u32 (sub_u32 x y) 1) (rest_of from) (smin (add_u32 (sub_u32 x y) 1) 2048))
        last_eq first_eq
      ∙ ap₂ (λ x y. go last first x y (smin x 2048))
          (sects_lem inode base buf len from s from end from_le last_le)
          (rest_lem inode base buf len from s from (omega (arith, last_le, from_le)))
      ∙ ap (go last first sects (from % 512)) chunk_eq

  -- A transfer over at most 256 sectors moves the `len` bytes, or those up to the end of the sector
  -- with the end of the file, if these are fewer.
  pub transfer-Moved :
      from ≤ limit io inode
      → end / 512 < from / 512 + 256
      → get_super_block inode.i_dev f.fs ≡ some sb
      → (n : ℕ) × (f' : Files) × (transfer io d p base buf len f ≡ some (n, f'))
        × (n ≡ umin len ((end / 512 + 1) * 512 - from))
        × Moved io inode.i_dev (inode.i_start_sect * 512 + from) (base + buf) n f f'
        × (f'.fs ≡ ended_at d p (from + n) sb f.fs)
  transfer-Moved le few e =
      let r = rounds-Ended le few in
      let last : inode.i_start_sect + from / 512 ≤ inode.i_start_sect + end / 512 =
        ground (arith, le) in
      let to_end : (end / 512 - from / 512 + 1) * 512 - from % 512 ≡ (end / 512 + 1) * 512 - from =
        omega (arith, last) in
      let runs : rounds ≡ some (r.n, r.end) = r.runs ∙ ap (λ x. some (x, r.end)) (omega arith) in
      (
        r.n,
        record r.end { fs = ended_at d p (from + r.n) sb f.fs },
        transfer_lem le few
            ∙ ap (λ o. elim o [ none ↦ none | some (n, f') ↦ grow d p n f' ]) runs
            ∙ grow_lem d p r.n (from + r.n) sb f.fs r.end e r.at,
        r.one_round last (omega arith) ∙ ap (umin len) to_end,
        Moved-fs io inode.i_dev (inode.i_start_sect * 512 + from) (base + buf) r.n f r.end
            (ended_at d p (from + r.n) sb f.fs)
            (Moved-from io inode.i_dev ((inode.i_start_sect + from / 512) * 512 + from % 512)
              (inode.i_start_sect * 512 + from) (base + buf + 0) (base + buf) r.n f r.end
              (inr (omega arith)) (omega arith) r.moved),
        refl,
      )
