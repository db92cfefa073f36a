-- ===== src/Fs/ReadWrite/Laws.antt =====
-- Reading and writing of a file that is open, and writing and then reading it: `do_rdwt` of
-- fs/read_write.c and `do_lseek` of fs/open.c.
use mathlib.Core.Path.{subst}
use bird_os.Prelude.{
  ℕ, ◌+◌, ◌-◌, ◌*◌, ◌/◌, ◌≤◌, ◌<◌, ◌≡◌, refl, ap, ◌∙◌, if◌then◌else◌, not, Option, none, some,
  arith,
}
use bird_os.Fs.Types.{Inode, SuperBlock}
use bird_os.Fs.ReadWrite.{
  Files, Io, Outcome, failed, returned, outcome, is_rdwr, i_regular, transfer, umin,
}
unfoldable use bird_os.Fs.ReadWrite.{rdwt_inode, do_rdwt}
use bird_os.Fs.ReadWrite.Moves.{Moved}
use bird_os.Fs.ReadWrite.Plan.{Sane, limit, end_of}
use bird_os.Fs.ReadWrite.Tables.{IsOpen, ended_at-inode}
use bird_os.Fs.ReadWrite.Effect.{ended_at, transfer-Moved}

rdwt_regular :
    (io : Io) (d p base buf len : ℕ) (f : Files)
    → (f.fs.inode_table p).i_mode ≡ i_regular
    → rdwt_inode io d p base buf len f ≡ outcome (transfer io d p base buf len f)
unfolding rdwt_inode
rdwt_regular io d p base buf len f e = rw e refl

do_rdwt_lem :
    (io : Io) (pid fd d p base buf len : ℕ) (sb : SuperBlock) (f : Files)
    → IsOpen pid fd d p sb f.fs
    → do_rdwt io pid fd base buf len f ≡ outcome (transfer io d p base buf len f)
unfolding do_rdwt
do_rdwt_lem io pid fd d p base buf len sb f o =
    let on_slot : Option ℕ → Outcome =
      λ x. elim x [ none ↦ failed | some p ↦ rdwt_inode io d p base buf len f ] in
    let on_desc : Option ℕ → Outcome = λ x. elim x [
      | none ↦ failed
      | some d ↦
          if not (is_rdwr (f.fs.f_desc_table d).fd_mode)
          then returned 0 f
          else elim ((f.fs.f_desc_table d).fd_inode) [
            | none ↦ failed
            | some p ↦ rdwt_inode io d p base buf len f
          ]
    ] in
    ap on_desc o.desc
    ∙ ap (λ x. if not x then returned 0 f else on_slot (f.fs.f_desc_table d).fd_inode) o.mode
    ∙ ap on_slot o.node
    ∙ rdwt_regular io d p base buf len f o.regular

size_le : (io : Io) (v : Inode) (base buf len : ℕ) → Sane v base buf len → v.i_size ≤ limit io v
size_le Io.read v base buf len s = omega arith
size_le Io.write v base buf len s = s.in_sects

module _ (io : Io) (pid fd d p base buf len : ℕ) (f : Files) (sb : SuperBlock) where
  abbrev inode : Inode
  inode = f.fs.inode_table p

  abbrev from : ℕ
  from = (f.fs.f_desc_table d).fd_pos

  -- A regular file is open for reading and writing, its sectors lie below 2^31 on the device, it is
  -- not longer than they are, the buffer lies in the memory, and the position is not behind the end
  -- of the file (READ) or of its sectors (WRITE). From the sector with the position to the one with
  -- the end of the transfer there are at most 256. Then `do_rdwt` returns `len`, or the number of
  -- bytes to the end of that last sector if there are fewer. It has moved that many bytes between
  -- the disk, at the position in the file, and the buffer, and has changed nothing else in either.
  -- It has moved the position on by them, set the size, in memory and on the disk, if the position
  -- has passed it, and changed nothing else in the tables.
  pub do_rdwt-Moved :
      IsOpen pid fd d p sb f.fs
      → Sane inode base buf len
      → from ≤ limit io inode
      → end_of io from len inode / 512 < from / 512 + 256
      → (n : ℕ) × (f' : Files) × (do_rdwt io pid fd base buf len f ≡ returned n f')
        × (n ≡ umin len ((end_of io from len inode / 512 + 1) * 512 - from))
        × Moved io inode.i_dev (inode.i_start_sect * 512 + from) (base + buf) n f f'
        × (f'.fs ≡ ended_at d p (from + n) sb f.fs)
  do_rdwt-Moved o s le few =
      let (n, f', e, count, moved, tables) =
        transfer-Moved io d p base buf len f sb s le few o.device in
      (n, f', do_rdwt_lem io pid fd d p base buf len sb f o ∙ ap outcome e, count, moved, tables)

  -- As `do_rdwt-Moved`, but there are fewer than `len` bytes to the end of the file (READ) or of
  -- its sectors (WRITE): the transfer goes beyond this end all the same, and the file comes to be
  -- as long as the transfer went. `READ` so takes bytes that are not of the file, and `WRITE`
  -- overwrites what follows the sectors of the file.
  pub do_rdwt-overruns :
      IsOpen pid fd d p sb f.fs
      → Sane inode base buf len
      → from ≤ limit io inode
      → limit io inode < from + len
      → limit io inode / 512 < from / 512 + 256
      → (n : ℕ) × (f' : Files) × (do_rdwt io pid fd base buf len f ≡ returned n f')
        × (limit io inode < from + n)
        × Moved io inode.i_dev (inode.i_start_sect * 512 + from) (base + buf) n f f'
        × ((f'.fs.inode_table p).i_size ≡ from + n)
  do_rdwt-overruns o s le lt few =
      let end_eq : end_of io from len inode ≡ limit io inode = ground (arith, lt) in
      let (n, f', e, count, moved, tables) = do_rdwt-Moved o s le (omega (arith, end_eq, few)) in
      let past : limit io inode < from + n = ground (arith, count, end_eq, lt) in
      let longer : inode.i_size < from + n = omega (arith, size_le io inode base buf len s, past) in
      (
        n,
        f',
        e,
        past,
        moved,
        ap (λ x. (x.inode_table p).i_size) tables
            ∙ ap (λ x. x.i_size) (ended_at-inode d p (from + n) sb f.fs)
            ∙ ground (arith, longer),
      )

  -- A transfer that fits is whole, over at most 256 sectors.
  pub do_rdwt-all :
      IsOpen pid fd d p sb f.fs
      → Sane inode base buf len
      → from + len ≤ limit io inode
      → (from + len) / 512 < from / 512 + 256
      → (f' : Files) × (do_rdwt io pid fd base buf len f ≡ returned len f')
        × Moved io inode.i_dev (inode.i_start_sect * 512 + from) (base + buf) len f f'
        × (f'.fs ≡ ended_at d p (from + len) sb f.fs)
  do_rdwt-all o s le few =
      let end_eq : end_of io from len inode ≡ from + len = ground (arith, le) in
      let (n, f', e, count, moved, tables) =
        do_rdwt-Moved o s (omega arith) (omega (arith, end_eq, few)) in
      let all : n ≡ len = ground (arith, count, end_eq) in
      (
        f',
        e ∙ ap (λ x. returned x f') all,
        subst (λ x. Moved io inode.i_dev (inode.i_start_sect * 512 + from) (base + buf) x f f') all
            moved,
        tables ∙ ap (λ x. ended_at d p (from + x) sb f.fs) all,
      )
