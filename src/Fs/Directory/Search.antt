-- ===== src/Fs/Directory/Search.antt =====
-- Which entry `search_file` of fs/misc.c finds in a directory.
use mathlib.Core.Path.{subst}
use bird_os.Prelude.{
  ℕ, zero, suc, ◌+◌, ◌-◌, ◌*◌, ◌/◌, ◌%◌, ◌^◌, ◌≤◌, ◌<◌, ◌≡◌, refl, sym, ap, ap₂, ◌∙◌, ◌⊎◌, inl, inr,
  Bool, true, false, ltb, if◌then◌else◌, Bool-cases, ltb→lt, add_u32, arith,
}
use bird_os.Fs.Types.{Inode}
use bird_os.Fs.Directory.{DirEntry, Dirs, Scan, found, stop, next, same_bytes, max_filename_len}
unfoldable use bird_os.Fs.Directory.{search_slots, search_blks, search_dir}

abbrev pub matches : (ℕ → ℕ) → DirEntry → Bool
matches name e = same_bytes max_filename_len 0 name e.bytes

-- The entry at an index of the directory that begins with sector `sect`
abbrev pub entry_at : (ℕ → ℕ → DirEntry) → ℕ → ℕ → DirEntry
entry_at t sect i = t (sect + i / 32) (i % 32)

-- The result of the inner loop, for entry number `m` of the directory at slot `j`.
abbrev Scanned : ℕ → ℕ → ℕ → ℕ → (ℕ → ℕ) → (ℕ → DirEntry) → Scan → Type 0
Scanned k j m n name t (found nr) =
    (i : ℕ) × (i < k)
    × (m + i ≤ n)
    × (matches name (t (j + i)) ≡ true)
    × ((h : ℕ) → h < i → matches name (t (j + h)) ≡ false)
    × (nr ≡ (t (j + i)).inode_nr)
Scanned k j m n name t stop = (n < m + k) × ((h : ℕ) → m + h ≤ n → matches name (t (j + h)) ≡ false)
Scanned k j m n name t (next m') =
    (m' ≡ m + k) × (m' ≤ n) × ((h : ℕ) → h < k → matches name (t (j + h)) ≡ false)

-- A test that fails at `j` and at the places behind it fails from `j` on.
pub fails_from :
    (P : ℕ → Bool) (Q : ℕ → Type 0) (j : ℕ)
    → P j ≡ false
    → ((h : ℕ) → Q (suc h) → P (j + 1 + h) ≡ false)
    → (h : ℕ) → Q h
    → P (j + h) ≡ false
fails_from P Q j e f zero q = ap P (omega arith) ∙ e
fails_from P Q j e f (suc h) q = ap P (omega arith) ∙ f h q

-- The entries from slot `j` on, when that at slot `j` does not match
Scanned-next :
    (k j m n : ℕ) (name : ℕ → ℕ) (t : ℕ → DirEntry) (r : Scan)
    → matches name (t j) ≡ false
    → Scanned k (j + 1) (m + 1) n name t r
    → Scanned (suc k) j m n name t r
Scanned-next k j m n name t (found nr) e (i, lt, le, y, first, eq) = (
  i + 1,
  omega arith,
  omega arith,
  ap (λ x. matches name (t x)) (omega arith) ∙ y,
  fails_from (λ x. matches name (t x)) (λ h. h < i + 1) j e λ h q. first h (omega arith),
  eq ∙ ap (λ x. (t x).inode_nr) (omega arith),
)
Scanned-next k j m n name t stop e (lt, first) = (
  omega arith,
  fails_from (λ x. matches name (t x)) (λ h. m + h ≤ n) j e λ h q. first h (omega arith),
)
Scanned-next k j m n name t (next m') e (eq, le, first) = (
  omega arith,
  le,
  fails_from (λ x. matches name (t x)) (λ h. h < suc k) j e λ h q. first h (omega arith),
)

Scanned-first :
    (k j m n : ℕ) (name : ℕ → ℕ) (t : ℕ → DirEntry)
    → m ≤ n
    → matches name (t j) ≡ true
    → Scanned (suc k) j m n name t (found (t j).inode_nr)
Scanned-first k j m n name t le e = (
  0,
  omega arith,
  omega arith,
  ap (λ x. matches name (t x)) (omega arith) ∙ e,
  λ h lt. absurd (omega arith),
  ap (λ x. (t x).inode_nr) (omega arith),
)

search_slots-Scanned :
    (k j m n : ℕ) (name : ℕ → ℕ) (t : ℕ → DirEntry)
    → m ≤ n
    → Scanned k j m n name t (search_slots k j m n name t)
unfolding search_slots
search_slots-Scanned zero j m n name t le = (omega arith, le, λ h lt. absurd (omega arith))
search_slots-Scanned (suc k) j m n name t le = elim (Bool-cases (matches name (t j))) [
  | inl e ↦ rw e (Scanned-first k j m n name t le e)
  | inr e ↦ elim (Bool-cases (ltb n (m + 1))) [
    | inl g ↦
        let last : n < m + 1 = ltb→lt n (m + 1) g in
        rw (e, g)
          (
            omega arith,
            fails_from (λ x. matches name (t x)) (λ h. m + h ≤ n) j e λ h q. absurd (omega arith),
          )
    | inr g ↦
        rw (e, g)
          (Scanned-next k j m n name t (search_slots k (j + 1) (m + 1) n name t) e
            (search_slots-Scanned k (j + 1) (m + 1) n name t (ground (arith, g))))
  ]
]

-- The result of the outer loop, for entry number `m` of the directory at the start of `sect`.
abbrev pub Finds : ℕ → ℕ → ℕ → ℕ → (ℕ → ℕ) → (ℕ → ℕ → DirEntry) → ℕ → Type 0
Finds k sect m n name t r =
    ((i : ℕ) × (i < 32 * k)
      × (m + i ≤ n)
      × (matches name (entry_at t sect i) ≡ true)
      × ((h : ℕ) → h < i → matches name (entry_at t sect h) ≡ false)
      × (r ≡ (entry_at t sect i).inode_nr))
    ⊎ ((r ≡ 0) × ((h : ℕ) → h < 32 * k → m + h ≤ n → matches name (entry_at t sect h) ≡ false))

-- The entries of the first sector, and those behind it
pub entry_at_head :
    (t : ℕ → ℕ → DirEntry) (sect i : ℕ) → i < 32 → entry_at t sect i ≡ t sect (0 + i)
entry_at_head t sect i lt = ap₂ t (omega arith) (omega arith)

pub entry_at_tail :
    (t : ℕ → ℕ → DirEntry) (sect i : ℕ) → entry_at t sect (32 + i) ≡ entry_at t (sect + 1) i
entry_at_tail t sect i = ap₂ t (omega arith) (omega arith)

-- A test on the entries of the first sector and on those behind it
pub split_at :
    (P : DirEntry → Type 0) (Q : ℕ → Type 0) (t : ℕ → ℕ → DirEntry) (sect : ℕ)
    → ((h : ℕ) → h < 32 → Q h → P (t sect (0 + h)))
    → ((h : ℕ) → Q (32 + h) → P (entry_at t (sect + 1) h))
    → (h : ℕ) → Q h
    → P (entry_at t sect h)
split_at P Q t sect f g h q = elim (Bool-cases (ltb h 32)) [
  | inl e ↦ let lt : h < 32 = ltb→lt h 32 e in subst P (sym (entry_at_head t sect h lt)) (f h lt q)
  | inr e ↦
      let eq : h ≡ 32 + (h - 32) = ground (arith, e) in
      subst P (sym (ap (entry_at t sect) eq ∙ entry_at_tail t sect (h - 32)))
        (g (h - 32) (subst Q eq q))
]

module _ (k sect m n : ℕ) (name : ℕ → ℕ) (t : ℕ → ℕ → DirEntry) where
  Finds-head :
      (nr : ℕ) → Scanned 32 0 m n name (t sect) (found nr) → Finds (suc k) sect m n name t nr
  Finds-head nr (i, lt, le, y, first, eq) = inl (
    i,
    omega arith,
    le,
    ap (matches name) (entry_at_head t sect i lt) ∙ y,
    λ h q. ap (matches name) (entry_at_head t sect h (omega arith)) ∙ first h q,
    eq ∙ ap (λ e. e.inode_nr) (sym (entry_at_head t sect i lt)),
  )

  Finds-stop : Scanned 32 0 m n name (t sect) stop → Finds (suc k) sect m n name t 0
  Finds-stop (lt, out) =
      inr (refl, λ h b q. ap (matches name) (entry_at_head t sect h (omega arith)) ∙ out h q)

  Finds-tail :
      (m' r : ℕ)
      → Scanned 32 0 m n name (t sect) (next m')
      → Finds k (sect + 1) m' n name t r
      → Finds (suc k) sect m n name t r
  Finds-tail m' r (eq, le, out) (inl (i, lt, ge, y, first, nr)) = inl (
    32 + i,
    omega arith,
    omega arith,
    ap (matches name) (entry_at_tail t sect i) ∙ y,
    split_at (λ e. matches name e ≡ false) (λ h. h < 32 + i) t sect (λ h b q. out h b)
        (λ h q. first h (omega arith)),
    nr ∙ ap (λ e. e.inode_nr) (sym (entry_at_tail t sect i)),
  )
  Finds-tail m' r (eq, le, out) (inr (nr, none_)) = inr (
    nr,
    λ h b q.
        split_at (λ e. matches name e ≡ false) (λ h. (h < 32 * suc k) × (m + h ≤ n)) t sect
          (λ h b q. out h b) (λ h (b, q). none_ h (omega arith) (omega arith)) h (b, q),
  )

  -- What the outer loop makes of the result of the inner one
  Finds-scan :
      (r : Scan)
      → Scanned 32 0 m n name (t sect) r
      → ((m' : ℕ) → m' ≤ n → Finds k (sect + 1) m' n name t (search_blks k (sect + 1) m' n name t))
      → Finds (suc k) sect m n name t (elim r [
        | found nr ↦ nr
        | stop ↦ 0
        | next m' ↦ if ltb n m' then 0 else search_blks k (sect + 1) m' n name t
      ])
  Finds-scan (found nr) c f = Finds-head nr c
  Finds-scan stop c f = Finds-stop c
  Finds-scan (next m') (eq, le, out) f =
      let more : ltb n m' ≡ false = ground (arith, le) in
      rw more (Finds-tail m' (search_blks k (sect + 1) m' n name t) (eq, le, out) (f m' le))

search_blks-Finds :
    (k sect m n : ℕ) (name : ℕ → ℕ) (t : ℕ → ℕ → DirEntry)
    → m ≤ n
    → Finds k sect m n name t (search_blks k sect m n name t)
unfolding search_blks
search_blks-Finds zero sect m n name t le = inr (refl, λ h b q. absurd (omega arith))
search_blks-Finds (suc k) sect m n name t le =
    Finds-scan k sect m n name t (search_slots 32 0 m n name (t sect))
      (search_slots-Scanned 32 0 m n name (t sect) le)
      λ m' le. search_blks-Finds k (sect + 1) m' n name t le

-- The search in a directory gives the number of the first entry whose eleven bytes are those of
-- the name, and 0 if there is none. It looks at the entries that the size of the directory counts
-- and at one more, as far as that lies in the same sector.
pub search_dir-Finds :
    (v : Inode) (name : ℕ → ℕ) (s : Dirs)
    → v.i_size + 511 < 2 ^ 32
    → Finds
        ((v.i_size + 511) / 512)
        v.i_start_sect
        0
        (v.i_size / 16)
        name
        (s.entries v.i_dev)
        (search_dir v name s)
unfolding search_dir
search_dir-Finds v name s lt =
    let blks : add_u32 v.i_size 511 / 512 ≡ (v.i_size + 511) / 512 = omega arith in
    let here : ℕ → Type 0 = λ k.
      Finds ((v.i_size + 511) / 512) v.i_start_sect 0 (v.i_size / 16) name (s.entries v.i_dev)
        (search_blks k v.i_start_sect 0 (v.i_size / 16) name (s.entries v.i_dev)) in
    subst here (sym blks) (
      search_blks-Finds ((v.i_size + 511) / 512) v.i_start_sect 0 (v.i_size / 16) name
        (s.entries v.i_dev) (omega arith))
