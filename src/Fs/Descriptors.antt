-- ===== src/Fs/Descriptors.antt =====
-- The descriptors of the processes: `do_close` and `do_lseek` of fs/open.c, the search for free
-- slots of `do_open`, and `fs_fork` and `fs_exit` of fs/main.c.
pub mod Seek
pub mod Fork
pub mod Exit
use bird_os.Prelude.{
  ℕ, zero, suc, ◌+◌, ◌-◌, ◌*◌, ◌^◌, Bool, true, false, ◌&&◌, ◌||◌, not, Option, none, some, ◌==◌,
  ltb, leb, if◌then◌else◌, add_u32, sub_u32, update,
}
use bird_os.Fs.Types.{Fs, Inode, FileDesc, nr_files, nr_file_desc}
use bird_os.Fs.Inodes.{set_inode}
unfoldable use bird_os.Fs.Inodes.{put_inode}

-- `a > b` and `a < 0` for an `int`
abbrev pub sgt : ℕ → ℕ → Bool
sgt a b = ltb (add_u32 b 0x80000000) (add_u32 a 0x80000000)

abbrev pub negative : ℕ → Bool
negative a = leb 0x80000000 a

-- SEEK_SET, SEEK_CUR and SEEK_END
abbrev pub seek_set : ℕ
seek_set = 1

abbrev pub seek_cur : ℕ
seek_cur = 2

abbrev pub seek_end : ℕ
seek_end = 3

-- -1
abbrev pub minus_one : ℕ
minus_one = 0xffffffff

abbrev pub set_desc : ℕ → FileDesc → Fs → Fs
set_desc d v s = record s { f_desc_table = update s.f_desc_table d v }

abbrev pub set_filp : ℕ → ℕ → Option ℕ → Fs → Fs
set_filp pid i v s = record s { filp = update s.filp pid (update (s.filp pid) i v) }

-- The descriptor behind `pcaller->filp[fd]`, and its inode; `none` where the pointer is null.
unfoldable pub opened : ℕ → ℕ → Fs → Option (ℕ × ℕ)
opened pid fd s = elim (s.filp pid fd) [
  | none ↦ none
  | some d ↦ elim ((s.f_desc_table d).fd_inode) [ none ↦ none | some p ↦ some (d, p) ]
]

unfoldable pub seek_pos : ℕ → ℕ → ℕ → ℕ → Option ℕ
seek_pos whence off pos f_size =
    if whence == seek_set
    then some off
    else if whence == seek_cur
    then some (add_u32 pos off)
    else if whence == seek_end
    then some (add_u32 f_size off)
    else none

unfoldable pub do_lseek : ℕ → ℕ → ℕ → ℕ → Fs → Option (ℕ × Fs)
do_lseek pid fd off whence s = elim (opened pid fd s) [
  | none ↦ none
  | some (d, p) ↦
      let f_size : ℕ = (s.inode_table p).i_size in
      elim (seek_pos whence off (s.f_desc_table d).fd_pos f_size) [
        | none ↦ some (minus_one, s)
        | some pos ↦
            if sgt pos f_size || negative pos
            then some (minus_one, s)
            else some (pos, set_desc d (record (s.f_desc_table d) { fd_pos = pos }) s)
      ]
]

unfoldable pub do_close : ℕ → ℕ → Fs → Option (ℕ × Fs)
do_close pid fd s = elim (opened pid fd s) [
  | none ↦ none
  | some (d, p) ↦
      let put : Fs = put_inode p s in
      let freed : Fs = set_desc d (record (put.f_desc_table d) { fd_inode = none }) put in
      some (0, set_filp pid fd none freed)
]

-- The two counts of a descriptor that a fork shares.
unfoldable pub share_desc : ℕ → ℕ → Fs → Fs
share_desc d p s =
    let shared : Fs =
      set_desc d (record (s.f_desc_table d) { fd_cnt = add_u32 (s.f_desc_table d).fd_cnt 1 }) s in
    set_inode p (record (shared.inode_table p) { i_cnt = add_u32 (shared.inode_table p).i_cnt 1 })
      shared

unfoldable pub fork_file : ℕ → ℕ → Fs → Option Fs
fork_file pid i s = elim (s.filp pid i) [
  | none ↦ some s
  | some d ↦ elim ((s.f_desc_table d).fd_inode) [ none ↦ none | some p ↦ some (share_desc d p s) ]
]

-- The files of the process from index `i` on, with `k` left.
unfoldable pub fork_loop : ℕ → ℕ → ℕ → Fs → Option Fs
fork_loop zero i pid s = some s
fork_loop (suc k) i pid s = elim (fork_file pid i s) [
  | none ↦ none
  | some t ↦ fork_loop k (i + 1) pid t
]

abbrev pub fs_fork : ℕ → Fs → Option Fs
fs_fork pid s = fork_loop nr_files 0 pid s

-- The inode and then the descriptor released, the latter cleared when its count comes to 0.
unfoldable pub release_desc : ℕ → ℕ → Fs → Fs
release_desc d p s =
    let put : Fs =
      set_inode p (record (s.inode_table p) { i_cnt = sub_u32 (s.inode_table p).i_cnt 1 }) s in
    let cnt : ℕ = sub_u32 (put.f_desc_table d).fd_cnt 1 in
    set_desc d
      (record (put.f_desc_table d) {
        fd_cnt = cnt;
        fd_inode = if cnt == 0 then none else (put.f_desc_table d).fd_inode;
      })
      put

unfoldable pub exit_file : ℕ → ℕ → Fs → Option Fs
exit_file pid i s = elim (s.filp pid i) [
  | none ↦ some s
  | some d ↦ elim ((s.f_desc_table d).fd_inode) [
    | none ↦ none
    | some p ↦ some (set_filp pid i none (release_desc d p s))
  ]
]

unfoldable pub exit_loop : ℕ → ℕ → ℕ → Fs → Option Fs
exit_loop zero i pid s = some s
exit_loop (suc k) i pid s = elim (exit_file pid i s) [
  | none ↦ none
  | some t ↦ exit_loop k (i + 1) pid t
]

abbrev pub fs_exit : ℕ → Fs → Option Fs
fs_exit pid s = exit_loop nr_files 0 pid s
