-- ===== src/Fs/Remove/Blocks.antt =====
-- The scan of `do_unlink` of fs/link.c over all sectors of a directory.
use mathlib.Core.Path.{subst}
use bird_os.Prelude.{
  ℕ, zero, suc, ◌+◌, ◌*◌, ◌/◌, ◌%◌, ◌≤◌, ◌<◌, ◌≡◌, sym, ap, ◌∙◌, true, false, Option, none, some,
  ltb, if◌then◌else◌, arith,
}
use bird_os.Fs.Directory.{DirEntry}
use bird_os.Fs.Directory.Search.{entry_at, entry_at_head, entry_at_tail, split_at}
use bird_os.Fs.Remove.{Cleared, past, cleared, through}
unfoldable use bird_os.Fs.Remove.{clear_slots, clear_blks}
use bird_os.Fs.Remove.Scan.{has, in_use, in_use-append, in_use-cong, Counts, clear_slots-Counts}

-- The result of the outer loop for entry number `m` of the directory: entry `q` from there on is
-- the first of the file, or there is none.
abbrev pub Removes : ℕ → ℕ → ℕ → ℕ → ℕ → ℕ → (ℕ → ℕ → DirEntry) → Option (ℕ × ℕ) × ℕ × ℕ → Type 0
Removes i m n d nr sect t (none, m', d') =
    (m' ≡ n + 1) × ((h : ℕ) → m + h < n → has nr (entry_at t (sect + i) h) ≡ false)
Removes i m n d nr sect t (some (i', j'), m', d') =
    (q : ℕ) × (i' ≡ i + q / 32)
    × (j' ≡ q % 32)
    × (m' ≡ m + q + 1)
    × (m' ≤ n)
    × (d' ≡ d + 16 * in_use (entry_at t (sect + i)) 0 q)
    × ((h : ℕ) → h < q → has nr (entry_at t (sect + i) h) ≡ false)
    × (has nr (entry_at t (sect + i) q) ≡ true)

in_use-head :
    (t : ℕ → ℕ → DirEntry) (sect k : ℕ)
    → k ≤ 32
    → in_use (t sect) 0 k ≡ in_use (entry_at t sect) 0 k
in_use-head t sect k le =
    in_use-cong (t sect) (entry_at t sect) 0 0 k
      λ h b. sym (ap (entry_at t sect) (omega arith) ∙ entry_at_head t sect h (omega arith))

in_use-tail :
    (t : ℕ → ℕ → DirEntry) (sect k : ℕ)
    → in_use (t sect) 0 32 + in_use (entry_at t (sect + 1)) 0 k
      ≡ in_use (entry_at t sect) 0 (32 + k)
in_use-tail t sect k =
    let head : in_use (t sect) 0 32 ≡ in_use (entry_at t sect) 0 32 =
      in_use-head t sect 32 (omega arith) in
    let tail : in_use (entry_at t (sect + 1)) 0 k ≡ in_use (entry_at t sect) (0 + 32) k =
      in_use-cong (entry_at t (sect + 1)) (entry_at t sect) 0 (0 + 32) k λ h b.
        ap (entry_at t (sect + 1)) (omega arith)
        ∙ sym (entry_at_tail t sect h)
        ∙ ap (entry_at t sect) (omega arith) in
    omega (arith, head, tail, in_use-append (entry_at t sect) 0 32 k)

module _ (k i m n d nr sect : ℕ) (t : ℕ → ℕ → DirEntry) where
  same_sect : (h : ℕ) → entry_at t (sect + i + 1) h ≡ entry_at t (sect + (i + 1)) h
  same_sect h = ap (λ x. entry_at t x h) (omega arith)

  Removes-tail :
      (r : Option (ℕ × ℕ) × ℕ × ℕ)
      → ((h : ℕ) → h < 32 → has nr (t (sect + i) (0 + h)) ≡ false)
      → Removes (i + 1) (m + 32) n (d + 16 * in_use (t (sect + i)) 0 32) nr sect t r
      → Removes i m n d nr sect t r
  Removes-tail (none, m', d') out (em, no_more) = (
    em,
    split_at (λ e. has nr e ≡ false) (λ h. m + h < n) t (sect + i) (λ h b q. out h b)
        λ h q. ap (has nr) (same_sect h) ∙ no_more h (omega arith),
  )
  Removes-tail (some (i', j'), m', d') out (q, ei, ej, em, le, ed, first, y) =
      let rest : in_use (entry_at t (sect + i + 1)) 0 q ≡ in_use (entry_at t (sect + (i + 1))) 0 q =
        in_use-cong (entry_at t (sect + i + 1)) (entry_at t (sect + (i + 1))) 0 0 q
          λ h b. same_sect (0 + h) in
      (
        32 + q,
        omega arith,
        omega arith,
        omega arith,
        le,
        omega (arith, ed, rest, in_use-tail t (sect + i) q),
        split_at (λ e. has nr e ≡ false) (λ h. h < 32 + q) t (sect + i) (λ h b q. out h b)
            λ h b. ap (has nr) (same_sect h) ∙ first h (omega arith),
        ap (has nr) (entry_at_tail t (sect + i) q ∙ same_sect q) ∙ y,
      )

  -- What the outer loop makes of the result of the inner one
  Removes-slot :
      (r : Cleared)
      → Counts 32 0 m n d nr (t (sect + i)) r
      → ((m' d' : ℕ)
          → m' ≤ n
          → m' ≡ m + 32
          → Removes (i + 1) m' n d' nr sect t (clear_blks k (i + 1) m' n d' nr sect t))
      → Removes i m n d nr sect t (elim r [
        | past m' d' ↦ (none, m', d')
        | cleared j m' d' ↦ (some (i, j), m', d')
        | through m' d' ↦
            if ltb n m' then (none, m', d') else clear_blks k (i + 1) m' n d' nr sect t
      ])
  Removes-slot (past m' d') (lt, em, out) f =
      (em, λ h q. ap (has nr) (entry_at_head t (sect + i) h (omega arith)) ∙ out h q)
  Removes-slot (cleared j' m' d') (q, ej, lt, em, le, ed, out, y) f = (
    q,
    omega arith,
    omega arith,
    em,
    le,
    omega (arith, ed, in_use-head t (sect + i) q (omega arith)),
    λ h b. ap (has nr) (entry_at_head t (sect + i) h (omega arith)) ∙ out h b,
    ap (has nr) (entry_at_head t (sect + i) q lt) ∙ y,
  )
  Removes-slot (through m' d') (em, le, ed, out) f =
      let more : ltb n m' ≡ false = ground (arith, le) in
      let result : Option (ℕ × ℕ) × ℕ × ℕ = clear_blks k (i + 1) m' n d' nr sect t in
      let rest : Removes (i + 1) (m + 32) n (d + 16 * in_use (t (sect + i)) 0 32) nr sect t result =
        subst (λ x. Removes (i + 1) x n (d + 16 * in_use (t (sect + i)) 0 32) nr sect t result) em
          (subst (λ x. Removes (i + 1) m' n x nr sect t result) ed (f m' d' le em)) in
      rw more (Removes-tail result out rest)

pub clear_blks-Removes :
    (k i m n d nr sect : ℕ) (t : ℕ → ℕ → DirEntry)
    → m ≤ n
    → n < m + 32 * k
    → Removes i m n d nr sect t (clear_blks k i m n d nr sect t)
unfolding clear_blks
clear_blks-Removes zero i m n d nr sect t le lt = absurd (omega arith)
clear_blks-Removes (suc k) i m n d nr sect t le lt =
    Removes-slot k i m n d nr sect t (clear_slots 32 0 m n d nr (t (sect + i)))
      (clear_slots-Counts 32 0 m n d nr (t (sect + i)) le)
      λ m' d' le' eq. clear_blks-Removes k (i + 1) m' n d' nr sect t le' (omega (arith, eq))
