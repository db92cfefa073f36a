-- ===== src/Fs/Directory/Lookup.antt =====
-- What `new_dir_entry` of fs/open.c does to a directory, and what `search_file` of fs/misc.c then
-- finds there.
use mathlib.Core.Bool.{true≢false}
use bird_os.Prelude.{
  ℕ, zero, suc, ◌+◌, ◌*◌, ◌/◌, ◌%◌, ◌^◌, ◌≤◌, ◌<◌, ◌≡◌, refl, sym, ap, ap₂, ◌∙◌, inl, inr, Bool,
  true, false, Option, none, some, ◌==◌, ltb, if◌then◌else◌, Bool-cases, ltb→lt, add_u32, update,
  arith,
}
use bird_os.Fs.Types.{Fs, Inode, SuperBlock}
use bird_os.Fs.Inodes.{get_super_block, set_inode}
unfoldable use bird_os.Fs.Inodes.{sync_inode, write_inode}
use bird_os.Fs.ReadWrite.Effect.{update_at}
use bird_os.Fs.Directory.{DirEntry, Dirs, max_path, free_blks}
unfoldable use bird_os.Fs.Directory.{new_dir_entry, fill_entry, same_bytes, strlen}
use bird_os.Fs.Directory.Search.{entry_at, matches}
use bird_os.Fs.Directory.Insert.{is_free, free_blks-Places}

-- `l` is the length of a name that fits into an entry with its 0.
pub record IsName (name : ℕ → ℕ) (l : ℕ) : Type 0 where
  pub fits : l ≤ 10
  pub ended : name l ≡ 0
  pub not_before : (x : ℕ) → x < l → (name x == 0) ≡ false

strlen_lem :
    (k i : ℕ) (name : ℕ → ℕ) (l : ℕ) → IsName name l → i ≤ l → l < i + k → strlen k i name ≡ l
unfolding strlen
strlen_lem zero i name l v le lt = omega arith
strlen_lem (suc k) i name l v le lt = elim (Bool-cases (name i == 0)) [
  | inl e ↦ rw e (elim (Bool-cases (ltb i l)) [
    | inl g ↦ absurd (true≢false (sym e ∙ v.not_before i (ltb→lt i l g)))
    | inr g ↦ ground (arith, g)
  ])
  | inr e ↦ rw e (elim (Bool-cases (ltb i l)) [
    | inl g ↦ strlen_lem k (i + 1) name l v (ground (arith, g)) (omega arith)
    | inr g ↦
        let eq : i ≡ l = ground (arith, g) in
        absurd (true≢false (sym (ap (λ x. x == 0) (ap name eq ∙ v.ended)) ∙ e))
  ])
]

same_bytes_lem :
    (k i : ℕ) (a b : ℕ → ℕ) → ((x : ℕ) → i ≤ x → x < i + k → a x ≡ b x) → same_bytes k i a b ≡ true
unfolding same_bytes
same_bytes_lem zero i a b h = refl
same_bytes_lem (suc k) i a b h =
    let e : (a i == b i) ≡ true = ground (arith, h i (omega arith) (omega arith)) in
    rw e (same_bytes_lem k (i + 1) a b λ x le lt. h x (omega arith) (omega arith))

-- `padded` is the name with zeros behind it, as `search_file` has it.
abbrev pub padded : (ℕ → ℕ) → ℕ → ℕ → ℕ
padded name l x = if ltb x l then name x else 0

-- The entry that is filled in matches the name, if its bytes were 0.
pub matches-fill_entry :
    (e : DirEntry) (nr type : ℕ) (name : ℕ → ℕ) (l : ℕ)
    → IsName name l
    → ((x : ℕ) → x < 11 → e.bytes x ≡ 0)
    → matches (padded name l) (fill_entry e nr name type) ≡ true
unfolding fill_entry
matches-fill_entry e nr type name l v clean =
    let len : strlen max_path 0 name ≡ l =
      strlen_lem max_path 0 name l v (omega arith) (omega (arith, v.fits)) in
    same_bytes_lem 11 0 (padded name l) (fill_entry e nr name type).bytes λ x le lt.
      let zero_at : x ≡ l → name x ≡ 0 = λ h. ap name h ∙ v.ended in
      ground (arith, len, clean x lt, zero_at)

-- Entry `q` of the directory at `sect` replaced
abbrev pub put_entry : (ℕ → ℕ → DirEntry) → ℕ → ℕ → DirEntry → ℕ → ℕ → DirEntry
put_entry t sect q e = update t (sect + q / 32) (update (t (sect + q / 32)) (q % 32) e)

pub entry_at-put_entry :
    (t : ℕ → ℕ → DirEntry) (sect q : ℕ) (e : DirEntry) (h : ℕ)
    → entry_at (put_entry t sect q e) sect h ≡ (if h == q then e else entry_at t sect h)
entry_at-put_entry t sect q e h =
    let same : h / 32 ≡ q / 32 → h % 32 ≡ q % 32 → h ≡ q = λ a b. omega arith in
    let row : h / 32 ≡ q / 32 → t (sect + h / 32) (h % 32) ≡ t (sect + q / 32) (h % 32) =
      λ a. ap (λ x. t (sect + x) (h % 32)) a in
    ground (arith, same, row)

-- The directory's inode behind a new entry `q` of one that had `n`
abbrev pub with_entry : Inode → ℕ → ℕ → Inode
with_entry v q n = if q == n then record v { i_size = v.i_size + 16 } else v

-- What `new_dir_entry` does to a directory of `n` entries in slot `p`: it fills the first free
-- entry, or that behind the last one, and writes the inode.
pub record Entered (p n nr type : ℕ) (name : ℕ → ℕ) (s : Dirs) (r : Option Dirs) : Type 0 where
  pub q : ℕ
  pub within : q ≤ n
  pub used :
      (h : ℕ)
      → h < q
      → is_free
          (entry_at (s.entries (s.fs.inode_table p).i_dev) (s.fs.inode_table p).i_start_sect h)
        ≡ false
  pub unused :
      (q == n) ≡ false
      → is_free
          (entry_at (s.entries (s.fs.inode_table p).i_dev) (s.fs.inode_table p).i_start_sect q)
        ≡ true
  pub done : Dirs
  pub returns : r ≡ some done
  pub inode : done.fs.inode_table p ≡ with_entry (s.fs.inode_table p) q n
  pub filled :
      done.entries
      ≡ update s.entries (s.fs.inode_table p).i_dev (
          put_entry (s.entries (s.fs.inode_table p).i_dev) (s.fs.inode_table p).i_start_sect q (
            fill_entry
              (entry_at (s.entries (s.fs.inode_table p).i_dev) (s.fs.inode_table p).i_start_sect q)
              nr
              name
              type))

-- The tables with the size of the directory's inode counted up, if it grows
abbrev grown : ℕ → Bool → Fs → Fs
grown p grows t =
    if grows
    then set_inode p (record (t.inode_table p) { i_size = add_u32 (t.inode_table p).i_size 16 }) t
    else t

grown-inode :
    (p : ℕ) (grows : Bool) (t : Fs)
    → (grown p grows t).inode_table p ≡ (
        if grows
        then record (t.inode_table p) { i_size = add_u32 (t.inode_table p).i_size 16 }
        else t.inode_table p)
grown-inode p true t =
    update_at t.inode_table p
      (record (t.inode_table p) { i_size = add_u32 (t.inode_table p).i_size 16 })
grown-inode p false t = refl

grown-device :
    (p : ℕ) (grows : Bool) (t : Fs) (sb : SuperBlock)
    → get_super_block (t.inode_table p).i_dev t ≡ some sb
    → get_super_block ((grown p grows t).inode_table p).i_dev (grown p grows t) ≡ some sb
grown-device p true t sb e = ap (λ v. get_super_block v.i_dev t) (grown-inode p true t) ∙ e
grown-device p false t sb e = e

pub sync_lem :
    (p : ℕ) (t : Fs) (sb : SuperBlock)
    → get_super_block (t.inode_table p).i_dev t ≡ some sb
    → (t' : Fs) × (sync_inode p t ≡ some t') × (t'.inode_table ≡ t.inode_table)
unfolding sync_inode write_inode
sync_lem p t sb e = (
  write_inode (t.inode_table p) sb t,
  ap (λ o. elim o [ none ↦ none | some b ↦ some (write_inode (t.inode_table p) b t) ]) e,
  refl,
)

-- The end of `new_dir_entry`, from what the search for a slot gave
abbrev entered : ℕ → ℕ → ℕ → (ℕ → ℕ) → Dirs → Option (ℕ × ℕ × Bool) → Option Dirs
entered p nr type name s r =
    let v : Inode = s.fs.inode_table p in
    let t : ℕ → ℕ → DirEntry = s.entries v.i_dev in
    elim r [
      | none ↦ none
      | some (i, j, grows) ↦ elim (sync_inode p (grown p grows s.fs)) [
        | none ↦ none
        | some fs' ↦ some record {
          fs = fs';
          entries = update s.entries v.i_dev (
              update t (v.i_start_sect + i) (
                update (t (v.i_start_sect + i)) j
                  (fill_entry (t (v.i_start_sect + i) j) nr name type)));
        }
      ]
    ]

pub new_dir_entry-Entered :
    (p n nr type : ℕ) (name : ℕ → ℕ) (sb : SuperBlock) (s : Dirs)
    → get_super_block (s.fs.inode_table p).i_dev s.fs ≡ some sb
    → (s.fs.inode_table p).i_size ≡ n * 16
    → n < 2 ^ 27
    → Entered p n nr type name s (new_dir_entry p nr name type s)
unfolding new_dir_entry
new_dir_entry-Entered p n nr type name sb s e size lt =
    let v : Inode = s.fs.inode_table p in
    let t : ℕ → ℕ → DirEntry = s.entries v.i_dev in
    let sects : add_u32 v.i_size 512 / 512 ≡ (v.i_size + 512) / 512 = omega (arith, size) in
    let all : v.i_size / 16 ≡ n = omega (arith, size) in
    let (i, j, grows, runs, (q, di, dj, le, used, g, fr)) =
      free_blks-Places ((v.i_size + 512) / 512) n v.i_start_sect t (omega (arith, size)) in
    let at_end : grows ≡ (q == n) = g ∙ ap (λ x. x == n) (omega arith) in
    let (fs', synced, table) =
      sync_lem p (grown p grows s.fs) sb (grown-device p grows s.fs sb e) in
    record {
      q = q;
      within = omega (arith, le);
      used = used;
      unused = λ ne. fr (ap (λ x. x == n) (omega arith) ∙ ne);
      done = record {
        fs = fs';
        entries =
            update s.entries v.i_dev (
              put_entry t v.i_start_sect q (fill_entry (entry_at t v.i_start_sect q) nr name type));
      };
      returns =
          ap₂ (λ x y. entered p nr type name s (free_blks x 0 0 y v.i_start_sect t)) sects all
          ∙ ap (entered p nr type name s) runs
          ∙ ap (λ x. entered p nr type name s (some x)) (ap₂ (λ x y. (x, y, grows)) di dj)
          ∙ ap
              (λ o. elim o [
                | none ↦ none
                | some x ↦ some record {
                  fs = x;
                  entries = update s.entries v.i_dev (
                      put_entry t v.i_start_sect q
                        (fill_entry (entry_at t v.i_start_sect q) nr name type));
                }
              ])
              synced;
      inode =
          ap (λ x. x p) table
          ∙ grown-inode p grows s.fs
          ∙ ap (λ x. if x then record v { i_size = add_u32 v.i_size 16 } else v) at_end
          ∙ ap (λ x. if q == n then record v { i_size = x } else v) (omega (arith, size));
      filled = refl;
    }
