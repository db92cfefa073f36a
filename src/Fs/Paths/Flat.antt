-- ===== src/Fs/Paths/Flat.antt =====
-- `strip_path` and `search_file` of fs/misc.c on a path in the root directory.
use bird_os.Prelude.{
  ℕ, zero, suc, ◌+◌, ◌-◌, ◌≤◌, ◌<◌, ◌≡◌, refl, ap, ◌∙◌, inl, inr, true, false, none, some, ◌==◌,
  ltb, leb, if◌then◌else◌, Bool-cases, update, arith,
}
use bird_os.Fs.Types.{Fs}
use bird_os.Fs.Directory.{DirEntry, Dirs, max_path, search_dir}
use bird_os.Fs.Paths.{Stripped, broken_path, invalid, stripped}
unfoldable use bird_os.Fs.Paths.{strip_loop, strip_path, search_file}

-- The path is `l` characters from `i` on, none of them `/`, and a 0.
pub record IsFlat (path : ℕ → ℕ) (i l : ℕ) : Type 0 where
  pub ended : path (i + l) ≡ 0
  pub not_ended : (x : ℕ) → x < l → (path (i + x) == 0) ≡ false
  pub no_slash : (x : ℕ) → x < l → (path (i + x) == 0x2f) ≡ false

-- At most eleven characters of the name are kept.
abbrev pub kept : ℕ → ℕ
kept l = if ltb l 11 then l else 11

-- The array `name` with the characters of the path from `i` on at `t` and then a 0
abbrev pub named : (ℕ → ℕ) → ℕ → ℕ → ℕ → (ℕ → ℕ) → ℕ → ℕ
named path i t l name x =
    if ltb x t
    then name x
    else if ltb x (kept (t + l))
    then path (i + (x - t))
    else if x == kept (t + l)
    then 0
    else name x

-- How `strip_path` ends on such a path
abbrev Strips : (ℕ → ℕ) → ℕ → ℕ → ℕ → (ℕ → ℕ) → ℕ → Fs → Stripped → Type 0
Strips path i t l name p s r =
    (file : ℕ → ℕ) × (r ≡ stripped file p s) × ((x : ℕ) → file x ≡ named path i t l name x)

Strips-next :
    (path : ℕ → ℕ) (i t l : ℕ) (name : ℕ → ℕ) (p : ℕ) (s : Fs) (r : Stripped)
    → t < 10
    → Strips path (i + 1) (t + 1) l (update name t (path i)) p s r
    → Strips path i t (suc l) name p s r
Strips-next path i t l name p s r lt (file, e, same) = (
  file,
  e,
  λ x.
      let shift : t < x → path (i + 1 + (x - (t + 1))) ≡ path (i + (x - t)) =
        λ h. ap path (omega arith) in
      let first : x ≡ t → path (i + (x - t)) ≡ path i = λ h. ap path (omega arith) in
      same x ∙ ground (arith, shift, first),
)

-- One round of the loop, at the end of the path, at the eleventh character, and before it
module _ (k i t : ℕ) (path name : ℕ → ℕ) (p : ℕ) (entries : ℕ → ℕ → ℕ → DirEntry) (s : Fs) where
  strip_ended :
      (path i == 0) ≡ true
      → strip_loop (suc k) i t path name p entries s ≡ stripped (update name t 0) p s
  unfolding strip_loop
  strip_ended e = rw (strip_loop, e) refl

  strip_full :
      (path i == 0) ≡ false
      → (path i == 0x2f) ≡ false
      → leb 11 (t + 1) ≡ true
      → strip_loop (suc k) i t path name p entries s
        ≡ stripped (update (update name t (path i)) (t + 1) 0) p s
  unfolding strip_loop
  strip_full e g h = rw (strip_loop, e, g, h) refl

  strip_char :
      (path i == 0) ≡ false
      → (path i == 0x2f) ≡ false
      → leb 11 (t + 1) ≡ false
      → strip_loop (suc k) i t path name p entries s
        ≡ strip_loop k (i + 1) (t + 1) path (update name t (path i)) p entries s
  unfolding strip_loop
  strip_char e g h = rw (strip_loop, e, g, h) refl

IsFlat-next : (path : ℕ → ℕ) (i l : ℕ) → IsFlat path i (suc l) → IsFlat path (i + 1) l
IsFlat-next path i l v =
    let at : (x : ℕ) → path (i + 1 + x) ≡ path (i + suc x) = λ x. ap path (omega arith) in
    record {
      ended = at l ∙ v.ended;
      not_ended = λ x lt. ap (λ y. y == 0) (at x) ∙ v.not_ended (suc x) (omega arith);
      no_slash = λ x lt. ap (λ y. y == 0x2f) (at x) ∙ v.no_slash (suc x) (omega arith);
    }

-- The results where the loop ends
named-ended :
    (path : ℕ → ℕ) (i t : ℕ) (name : ℕ → ℕ) (x : ℕ)
    → t ≤ 10
    → update name t 0 x ≡ named path i t 0 name x
named-ended path i t name x le = ground arith

named-full :
    (path : ℕ → ℕ) (i t l : ℕ) (name : ℕ → ℕ) (x : ℕ)
    → t ≡ 10
    → update (update name t (path i)) (t + 1) 0 x ≡ named path i t (suc l) name x
named-full path i t l name x le =
    let first : x ≡ t → path (i + (x - t)) ≡ path i = λ h. ap path (omega arith) in
    ground (arith, first)

strip_loop-Strips :
    (k i t l : ℕ) (path name : ℕ → ℕ) (p : ℕ) (entries : ℕ → ℕ → ℕ → DirEntry) (s : Fs)
    → l < k
    → t ≤ 10
    → IsFlat path i l
    → Strips path i t l name p s (strip_loop k i t path name p entries s)
strip_loop-Strips zero i t l path name p entries s lt le v = absurd (omega arith)
strip_loop-Strips (suc k) i t zero path name p entries s lt le v =
    let e : (path i == 0) ≡ true = ap (λ x. x == 0) (ap path (omega arith) ∙ v.ended) in
    (
      update name t 0,
      strip_ended k i t path name p entries s e,
      λ x. named-ended path i t name x le,
    )
strip_loop-Strips (suc k) i t (suc l) path name p entries s lt le v =
    let here : path i ≡ path (i + 0) = ap path (omega arith) in
    let e : (path i == 0) ≡ false = ap (λ x. x == 0) here ∙ v.not_ended 0 (omega arith) in
    let g : (path i == 0x2f) ≡ false = ap (λ x. x == 0x2f) here ∙ v.no_slash 0 (omega arith) in
    elim (Bool-cases (leb 11 (t + 1))) [
      | inl h ↦
          let last : t ≡ 10 = ground (arith, h) in
          (
            update (update name t (path i)) (t + 1) 0,
            strip_full k i t path name p entries s e g h,
            λ x. named-full path i t l name x last,
          )
      | inr h ↦
          let more : t < 10 = ground (arith, h) in
          let (file, runs, same) =
            Strips-next path i t l name p s
              (strip_loop k (i + 1) (t + 1) path (update name t (path i)) p entries s) more
              (strip_loop-Strips k (i + 1) (t + 1) l path (update name t (path i)) p entries s
                (omega arith) (omega arith) (IsFlat-next path i l v)) in
          (file, strip_char k i t path name p entries s e g h ∙ runs, same)
    ]

-- Where the name begins: a `/` at the start is passed over.
abbrev pub start : (ℕ → ℕ) → ℕ
start path = if path 0 == 0x2f then 1 else 0

-- The path has at most one `/`, at its start, and fewer than MAX_PATH characters. `strip_path` gives
-- the root directory with no change to the tables, and the name of the path, cut to its first
-- eleven characters, with a 0 behind it; the rest of the array is as it was.
pub strip_path-flat :
    (name path : ℕ → ℕ) (root l : ℕ) (s : Dirs)
    → l ≤ max_path
    → IsFlat path (start path) l
    → (file : ℕ → ℕ) × (strip_path name path root s ≡ stripped file root s.fs)
      × ((x : ℕ)
          → file x
            ≡ (if ltb x (kept l) then path (start path + x) else if x == kept l then 0 else name x))
unfolding strip_path
strip_path-flat name path root l s le v =
    let (file, e, same) =
      strip_loop-Strips (max_path + 1) (start path) 0 l path name root s.entries s.fs (omega arith)
        (omega arith) v in
    (
      file,
      e,
      λ x.
          let zero_l : 0 + l ≡ l = omega arith in
          let at : path (start path + (x - 0)) ≡ path (start path + x) = ap path (omega arith) in
          same x ∙ ground (arith, zero_l, at),
    )

-- The name that `search_file` looks for, whose array begins with zeros
abbrev pub cleared : (ℕ → ℕ) → ℕ → ℕ
cleared name x = if ltb x 11 then 0 else name x

searched :
    (name path file : ℕ → ℕ) (root : ℕ) (s : Dirs)
    → strip_path (cleared name) path root s ≡ stripped file root s.fs
    → (file 0 == 0) ≡ false
    → search_file name path root s ≡ some (search_dir (s.fs.inode_table root) file s, s)
unfolding search_file
searched name path file root s e g =
    ap
      (λ r. elim r [
        | broken_path ↦ none
        | invalid ↦ some (0, s)
        | stripped x p t ↦
            if x 0 == 0
            then some ((t.inode_table p).i_num, record s { fs = t })
            else some (search_dir (t.inode_table p) x (record s { fs = t }), record s { fs = t })
      ])
      e
    ∙ ap
        (λ x.
          if x
          then some ((s.fs.inode_table root).i_num, s)
          else some (search_dir (s.fs.inode_table root) file s, s))
        g

-- `search_file` of a file in the root directory searches that directory for its name.
pub search_file-flat :
    (name path : ℕ → ℕ) (root l : ℕ) (s : Dirs)
    → 1 ≤ l
    → l ≤ max_path
    → IsFlat path (start path) l
    → (file : ℕ → ℕ) × (search_file name path root s
        ≡ some (search_dir (s.fs.inode_table root) file s, s))
      × ((x : ℕ) → x < 11 → file x ≡ (if ltb x (kept l) then path (start path + x) else 0))
search_file-flat name path root l s ge le v =
    let (file, e, same) = strip_path-flat (cleared name) path root l s le v in
    let first : file 0 ≡ path (start path + 0) = same 0 ∙ ground (arith, ge) in
    (
      file,
      searched name path file root s e (ap (λ x. x == 0) first ∙ v.not_ended 0 ge),
      λ x lt. same x ∙ ground (arith, lt),
    )
