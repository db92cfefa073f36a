-- ===== src/Fs/Directory/RoundTrip.antt =====
-- A file that is entered into a directory is found there: `new_dir_entry` of fs/open.c and
-- `search_file` of fs/misc.c.
use mathlib.Core.Path.{subst}
use mathlib.Core.Bool.{true≢false}
use bird_os.Prelude.{
  ℕ, zero, suc, ◌&&◌, ◌+◌, ◌*◌, ◌/◌, ◌^◌, ◌≤◌, ◌<◌, ◌≡◌, ◌⊎◌, refl, sym, ap, ap₂, ◌∙◌, inl, inr,
  true, false, some, ◌==◌, if◌then◌else◌, Bool-cases, arith,
}
use bird_os.Fs.Types.{Inode, SuperBlock}
use bird_os.Fs.Inodes.{get_super_block}
use bird_os.Fs.ReadWrite.Effect.{update_at}
use bird_os.Fs.Directory.{DirEntry, Dirs, new_dir_entry, search_dir}
unfoldable use bird_os.Fs.Directory.{fill_entry, same_bytes}
use bird_os.Fs.Directory.Search.{entry_at, matches, Finds, search_dir-Finds}
use bird_os.Fs.Directory.Insert.{is_free}
use bird_os.Fs.Directory.Lookup.{
  IsName, padded, matches-fill_entry, put_entry, entry_at-put_entry, with_entry,
  new_dir_entry-Entered,
}

same_bytes-cong :
    (k i : ℕ) (a b c : ℕ → ℕ)
    → ((x : ℕ) → x < i + k → a x ≡ b x)
    → same_bytes k i a c ≡ same_bytes k i b c
unfolding same_bytes
same_bytes-cong zero i a b c h = refl
same_bytes-cong (suc k) i a b c h =
    ap₂ (λ x y. (x == c i) && y) (h i (omega arith))
      (same_bytes-cong k (i + 1) a b c λ x lt. h x (omega arith))

same_matches :
    (a b : ℕ → ℕ) → ((x : ℕ) → x < 11 → a x ≡ b x) → (e : DirEntry) → matches a e ≡ matches b e
same_matches a b h e = same_bytes-cong 11 0 a b e.bytes λ x lt. h x (omega arith)

fill_entry-nr :
    (e : DirEntry) (nr : ℕ) (name : ℕ → ℕ) (type : ℕ) → (fill_entry e nr name type).inode_nr ≡ nr
unfolding fill_entry
fill_entry-nr e nr name type = refl

-- A search where only the entry `q` matches finds it.
Finds-put_entry :
    (k start n q : ℕ) (name : ℕ → ℕ) (t : ℕ → ℕ → DirEntry) (e : DirEntry) (r : ℕ)
    → q < 32 * k
    → q ≤ n
    → matches name e ≡ true
    → ((h : ℕ) → h ≤ n → matches name (entry_at t start h) ≡ false)
    → Finds k start 0 n name (put_entry t start q e) r
    → r ≡ e.inode_nr
Finds-put_entry k start n q name t e r lt le y other_names (inl (i, b, c, z, first, eq)) =
    elim (Bool-cases (i == q)) [
      | inl same ↦
          eq
          ∙ ap (λ x. x.inode_nr) (entry_at-put_entry t start q e i)
          ∙ ap (λ x. (if x then e else entry_at t start i).inode_nr) same
      | inr other ↦
          let here : entry_at (put_entry t start q e) start i ≡ entry_at t start i =
            entry_at-put_entry t start q e i
            ∙ ap (λ x. if x then e else entry_at t start i) other in
          absurd (true≢false (sym z ∙ ap (matches name) here ∙ other_names i (omega arith)))
    ]
Finds-put_entry k start n q name t e r lt le y other_names (inr (z, none_)) =
    let same : (q == q) ≡ true = ground arith in
    let here : entry_at (put_entry t start q e) start q ≡ e =
      entry_at-put_entry t start q e q ∙ ap (λ x. if x then e else entry_at t start q) same in
    absurd (true≢false (sym y ∙ ap (matches name) (sym here) ∙ none_ q (omega arith) (omega arith)))

with_entry-same :
    (v : Inode) (q n : ℕ)
    → ((with_entry v q n).i_dev ≡ v.i_dev)
      × ((with_entry v q n).i_start_sect ≡ v.i_start_sect)
      × ((with_entry v q n).i_size ≡ (if q == n then v.i_size + 16 else v.i_size))
with_entry-same v q n = elim (Bool-cases (q == n)) [
  | inl e ↦ rw e (refl, refl, refl)
  | inr e ↦ rw e (refl, refl, refl)
]

module _ (p n nr type l : ℕ) (name : ℕ → ℕ) (sb : SuperBlock) (s : Dirs) where
  abbrev dir : Inode
  dir = s.fs.inode_table p

  abbrev entry : ℕ → DirEntry
  entry h = entry_at (s.entries dir.i_dev) dir.i_start_sect h

  place :
      (q n : ℕ)
      → ((q == n) ≡ false → is_free (entry q) ≡ true)
      → (is_free (entry q) ≡ true) ⊎ (q ≡ n)
  place q n f = elim (Bool-cases (q == n)) [ inl e ↦ inr (ground (arith, e)) | inr e ↦ inl (f e) ]

  -- An array whose first eleven bytes are those of the name is found behind the new entry.
  pub search_dir-new_dir_entry :
      get_super_block dir.i_dev s.fs ≡ some sb
      → dir.i_size ≡ n * 16
      → n < 2 ^ 27
      → IsName name l
      → ((h : ℕ) → h ≤ n + 1 → matches (padded name l) (entry h) ≡ false)
      → ((h : ℕ) → (is_free (entry h) ≡ true) ⊎ (h ≡ n) → (x : ℕ) → x < 11 → (entry h).bytes x ≡ 0)
      → (s' : Dirs) × (new_dir_entry p nr name type s ≡ some s')
        × ((file : ℕ → ℕ)
            → ((x : ℕ) → x < 11 → file x ≡ padded name l x)
            → search_dir (s'.fs.inode_table p) file s' ≡ nr)
  search_dir-new_dir_entry e size lt v other_names clean =
      let r = new_dir_entry-Entered p n nr type name sb s e size lt in
      let w : Inode = r.done.fs.inode_table p in
      let (dev_, start_, size_) = with_entry-same dir r.q n in
      let dev_eq : w.i_dev ≡ dir.i_dev = ap (λ x. x.i_dev) r.inode ∙ dev_ in
      let start_eq : w.i_start_sect ≡ dir.i_start_sect =
        ap (λ x. x.i_start_sect) r.inode ∙ start_ in
      let size_eq : w.i_size ≡ (if r.q == n then n * 16 + 16 else n * 16) =
        ap (λ x. x.i_size) r.inode ∙ size_ ∙ ap (λ x. if r.q == n then x + 16 else x) size in
      let entries_eq : r.done.entries w.i_dev
          ≡ put_entry (s.entries dir.i_dev) dir.i_start_sect r.q
              (fill_entry (entry r.q) nr name type) =
        ap (r.done.entries) dev_eq
        ∙ ap (λ x. x dir.i_dev) r.filled
        ∙ update_at s.entries dir.i_dev (
            put_entry (s.entries dir.i_dev) dir.i_start_sect r.q
              (fill_entry (entry r.q) nr name type)) in
      let small : w.i_size + 511 < 2 ^ 32 = ground (arith, size_eq, lt) in
      (
        r.done,
        r.returns,
        λ file same.
            let matched : matches file (fill_entry (entry r.q) nr name type) ≡ true =
              same_matches file (padded name l) same (fill_entry (entry r.q) nr name type)
              ∙ matches-fill_entry (entry r.q) nr type name l v
                  (clean r.q (place r.q n r.unused)) in
            let here : Finds ((w.i_size + 511) / 512) dir.i_start_sect 0 (w.i_size / 16) file
                (put_entry (s.entries dir.i_dev) dir.i_start_sect r.q
                  (fill_entry (entry r.q) nr name type))
                (search_dir w file r.done) =
              subst
                (λ x.
                  Finds ((w.i_size + 511) / 512) x 0 (w.i_size / 16) file
                    (put_entry (s.entries dir.i_dev) dir.i_start_sect r.q
                      (fill_entry (entry r.q) nr name type))
                    (search_dir w file r.done))
                start_eq
                (subst
                  (λ x.
                    Finds ((w.i_size + 511) / 512) w.i_start_sect 0 (w.i_size / 16) file x
                      (search_dir w file r.done))
                  entries_eq (search_dir-Finds w file r.done small)) in
            Finds-put_entry ((w.i_size + 511) / 512) dir.i_start_sect (w.i_size / 16) r.q file
              (s.entries dir.i_dev) (fill_entry (entry r.q) nr name type) (search_dir w file r.done)
              (ground (arith, size_eq, r.within)) (ground (arith, size_eq, r.within)) matched
              (λ h b.
                same_matches file (padded name l) same (entry h)
                ∙ other_names h (ground (arith, size_eq, b)))
              here
            ∙ fill_entry-nr (entry r.q) nr name type,
      )
