-- ===== src/Fs/ReadWrite/RoundTrip.antt =====
-- A write, a seek back and a read of the same file: `do_rdwt` of fs/read_write.c and `do_lseek` of
-- fs/open.c.
use mathlib.Core.Path.{subst}
use bird_os.Prelude.{ℕ, ◌+◌, ◌-◌, ◌*◌, ◌/◌, ◌^◌, ◌≤◌, ◌<◌, ◌≡◌, sym, ap, ◌∙◌, some, arith}
use bird_os.Fs.Types.{Fs, Inode, SuperBlock}
use bird_os.Fs.Descriptors.{seek_set, do_lseek}
use bird_os.Fs.ReadWrite.{Files, Io, returned, do_rdwt, phys_copy}
use bird_os.Fs.ReadWrite.Moves.{Moved}
use bird_os.Fs.ReadWrite.Plan.{Sane}
use bird_os.Fs.ReadWrite.Effect.{at_pos, ended_at, sized, update_at}
use bird_os.Fs.ReadWrite.Tables.{
  IsOpen, IsOpen-at_pos, IsOpen-ended_at, do_lseek-at_pos, ended_at-inode, new_size,
}
use bird_os.Fs.ReadWrite.Laws.{do_rdwt-all}

-- Bytes that go to the disk at `a` and come back
there_and_back :
    (dev a u u' n : ℕ) (f g h : Files)
    → Moved Io.write dev a u n f g
    → Moved Io.read dev a u' n g h
    → (x : ℕ) → x < n
    → h.mem (u' + x) ≡ f.mem (u + x)
there_and_back dev a u u' n f g h (m, c) (c', m') x lt =
    let back : h.mem (u' + x) ≡ g.content dev (a + x) =
      ap (λ y. y (u' + x)) m'
      ∙ (let e : a + (u' + x - u') ≡ a + x = omega arith in ground (arith, e)) in
    let there : phys_copy n f.mem u (f.content dev) a (a + x) ≡ f.mem (u + x) =
      let e : u + (a + x - a) ≡ u + x = omega arith in ground (arith, e) in
    back
    ∙ ap (λ y. y dev (a + x)) c
    ∙ ap (λ y. y (a + x)) (update_at f.content dev (phys_copy n f.mem u (f.content dev) a))
    ∙ there

module _ (pid fd d p base buf buf' len : ℕ) (f : Files) (sb : SuperBlock) where
  abbrev inode : Inode
  inode = f.fs.inode_table p

  abbrev from : ℕ
  from = (f.fs.f_desc_table d).fd_pos

  -- The tables after the write
  abbrev written : Fs
  written = ended_at d p (from + len) sb f.fs

  -- The tables after the seek, and its inode and position
  abbrev sought : Fs
  sought = at_pos d from written

  abbrev longer : Inode
  longer = sized p (new_size inode.i_size (from + len)) f.fs

  same_inode : sought.inode_table p ≡ longer
  same_inode = ended_at-inode d p (from + len) sb f.fs

  same_pos : (sought.f_desc_table d).fd_pos ≡ from
  same_pos =
      ap (λ x. x.fd_pos)
        (update_at written.f_desc_table d (record (written.f_desc_table d) { fd_pos = from }))

  module _ (o : IsOpen pid fd d p sb f.fs) (s : Sane inode base buf len)
      (lu : base + buf' + len < 2 ^ 32) (le : from + len ≤ inode.i_nr_sects * 512)
      (few : (from + len) / 512 < from / 512 + 256) where
    sought-Sane : Sane (sought.inode_table p) base buf' len
    sought-Sane =
        let small : Sane longer base buf' len = record {
          on_disk = s.on_disk;
          in_sects = ground (arith, s.in_sects, le);
          asked = s.asked;
          in_mem = lu;
        } in
        subst (λ v. Sane v base buf' len) (sym same_inode) small

    enough : (sought.f_desc_table d).fd_pos + len ≤ (sought.inode_table p).i_size
    enough =
        let size : (sought.inode_table p).i_size ≡ new_size inode.i_size (from + len) =
          ap (λ v. v.i_size) same_inode in
        ground (arith, size, same_pos)

    open_sought : IsOpen pid fd d p sb sought
    open_sought =
        IsOpen-at_pos d p from sb written pid fd (IsOpen-ended_at d p (from + len) sb f.fs pid fd o)

    read_back :
        (g : Files)
        → (h : Files) × (do_rdwt Io.read pid fd base buf' len (record g { fs = sought })
            ≡ returned len h)
          × Moved Io.read inode.i_dev (inode.i_start_sect * 512 + from) (base + buf') len g h
    read_back g =
        let (h, e, m, t) =
          do_rdwt-all Io.read pid fd d p base buf' len (record g { fs = sought }) sb open_sought
            sought-Sane enough (omega (arith, same_pos, few)) in
        let moved : Inode → ℕ → Type 0 =
          λ v q. Moved Io.read v.i_dev (v.i_start_sect * 512 + q) (base + buf') len g h in
        let there : moved longer (sought.f_desc_table d).fd_pos =
          subst (λ v. moved v (sought.f_desc_table d).fd_pos) same_inode m in
        (h, e, subst (moved longer) same_pos there)

    written-size :
        (from ≤ (written.inode_table p).i_size) × ((written.inode_table p).i_size < 2 ^ 31)
    written-size =
        let size : (written.inode_table p).i_size ≡ new_size inode.i_size (from + len) =
          ap (λ v. v.i_size) same_inode in
        (ground (arith, size), ground (arith, size, le, s.in_sects, s.on_disk))

    -- A regular file is open as for `do_rdwt-Moved`, `len` bytes from the position on fit into its
    -- sectors, from the sector with the first of them to the one with the end there are at most 256,
    -- and a second buffer lies in the memory as well. Then a `WRITE` from the first buffer, an
    -- `lseek` back with SEEK_SET and a `READ` into the second buffer all succeed, with `len` bytes
    -- each, and the second buffer holds what the first one held.
    pub do_rdwt-roundtrip :
        (f1 : Files) × (t2 : Fs) × (f3 : Files) × (do_rdwt Io.write pid fd base buf len f
          ≡ returned len f1)
        × (do_lseek pid fd from seek_set f1.fs ≡ some (from, t2))
        × (do_rdwt Io.read pid fd base buf' len (record f1 { fs = t2 }) ≡ returned len f3)
        × ((x : ℕ) → x < len → f3.mem (base + buf' + x) ≡ f.mem (base + buf + x))
    do_rdwt-roundtrip =
        let (f1, e1, m1, t1) = do_rdwt-all Io.write pid fd d p base buf len f sb o s le few in
        let (f3, e3, m3) = read_back f1 in
        (
          f1,
          sought,
          f3,
          e1,
          ap (do_lseek pid fd from seek_set) t1
              ∙ do_lseek-at_pos d p from sb written pid fd
                  (IsOpen-ended_at d p (from + len) sb f.fs pid fd o) written-size.0 written-size.1,
          e3,
          there_and_back inode.i_dev (inode.i_start_sect * 512 + from) (base + buf) (base + buf')
              len f f1 f3 m1 m3,
        )
