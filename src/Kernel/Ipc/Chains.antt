-- ===== src/Kernel/Ipc/Chains.antt =====
-- The two relations that message passing keeps among the processes: who waits to send to whom,
-- and the sending queue of each process, linked through `next_sending`.
use bird_os.Prelude.{
  ℕ, zero, suc, ◌≤◌, ◌<◌, ◌≡◌, refl, ap, ◌∙◌, ◌≢◌, inl, inr, Bool, true, false, ◌&&◌, ◌||◌, not,
  Option, none, some, List, [], ◌∷◌, ◌++◌, ◌==◌, arith, length, Bool-cases, if◌then◌else◌,
}
use mathlib.Core.Path.{subst}
use bird_os.Kernel.Types.{Proc, sending, nr_all, has_flag}

abbrev pub Procs : Type 0
Procs = ℕ → Proc

abbrev pub is_sending : Proc → Bool
is_sending p = has_flag p.p_flags sending

-- `x` occurs in the list, and no item occurs twice.
abbrev pub has : ℕ → List ℕ → Bool
has x [] = false
has x (y ∷ ys) = (x == y) || has x ys

abbrev pub IsNodup : List ℕ → Type 0
IsNodup [] = Unit
IsNodup (x ∷ xs) = (has x xs ≡ false) × IsNodup xs

-- The first occurrence of `x` is taken out.
abbrev pub remove : ℕ → List ℕ → List ℕ
remove x [] = []
remove x (y ∷ ys) = if x == y then ys else y ∷ remove x ys

pub has-remove : (x y : ℕ) (l : List ℕ) → IsNodup l → has y (remove x l) ≡ (has y l && not (y == x))
has-remove x y [] h = refl
has-remove x y (z ∷ l) h = ground (arith, has-remove x y l h.1)

pub IsNodup-remove : (x : ℕ) (l : List ℕ) → IsNodup l → IsNodup (remove x l)
IsNodup-remove x [] h = tt
IsNodup-remove x (y ∷ l) h = elim (Bool-cases (x == y)) [
  | inl e ↦ rw e h.1
  | inr ne ↦ rw ne (rw (has-remove x y l h.1, h.0) refl, IsNodup-remove x l h.1)
]

pub length-remove : (x : ℕ) (l : List ℕ) → length l ≤ suc (length (remove x l))
length-remove x [] = omega arith
length-remove x (y ∷ l) = ground (arith, length-remove x l)

-- Distinct numbers below `n` are at most `n`.
pub length-IsNodup :
    (n : ℕ) (l : List ℕ) → IsNodup l → ((x : ℕ) → has x l ≡ true → x < n) → length l ≤ n
length-IsNodup zero [] h b = omega arith
length-IsNodup zero (x ∷ l) h b =
    let x_in : has x (x ∷ l) ≡ true = ground arith in absurd (omega (arith, b x x_in))
length-IsNodup (suc n) l h b =
    let ih = length-IsNodup n (remove n l) (IsNodup-remove n l h) below in
    omega (arith, ih, length-remove n l)
  where
    below : (x : ℕ) → has x (remove n l) ≡ true → x < n
    below x e = ground (arith, has-remove n x l h, b x)

-- From `p`, the chain of processes that each wait to send to the next ends after `n` steps.
abbrev pub Depth : Procs → ℕ → ℕ → Type 0
Depth ps zero p = is_sending (ps p) ≡ false
Depth ps (suc n) p =
    (is_sending (ps p) ≡ true) × ((ps p).p_sendto < nr_all) × Depth ps n (ps p).p_sendto

pub Depth-unique : (ps : Procs) (m n p : ℕ) → Depth ps m p → Depth ps n p → m ≡ n
Depth-unique ps zero zero p h k = refl
Depth-unique ps zero (suc n) p h k = cc
Depth-unique ps (suc m) zero p h k = cc
Depth-unique ps (suc m) (suc n) p h k = ap suc (Depth-unique ps m n (ps p).p_sendto h.2 k.2)

-- The processes on that chain.
abbrev pub visited : Procs → ℕ → ℕ → List ℕ
visited ps zero p = p ∷ []
visited ps (suc n) p = p ∷ visited ps n (ps p).p_sendto

pub length-visited : (ps : Procs) (n p : ℕ) → length (visited ps n p) ≡ suc n
length-visited ps zero p = refl
length-visited ps (suc n) p = ap suc (length-visited ps n (ps p).p_sendto)

visited-Depth :
    (ps : Procs) (n p x : ℕ)
    → p < nr_all
    → Depth ps n p
    → has x (visited ps n p) ≡ true
    → (x < nr_all) × ((m : ℕ) × (m ≤ n) × Depth ps m x)
visited-Depth ps zero p x b h e =
    let x_is : x ≡ p = ground arith in rw x_is (b, (0, omega arith, h))
visited-Depth ps (suc n) p x b h e = elim (Bool-cases (x == p)) [
  | inl here ↦ let x_is : x ≡ p = ground arith in rw x_is (b, (suc n, omega arith, h))
  | inr later ↦
      let e' : has x (visited ps n (ps p).p_sendto) ≡ true = ground arith in
      let ih = visited-Depth ps n (ps p).p_sendto x h.1 h.2 e' in
      (ih.0, (ih.1.0, omega arith, ih.1.2))
]

visited-IsNodup : (ps : Procs) (n p : ℕ) → p < nr_all → Depth ps n p → IsNodup (visited ps n p)
visited-IsNodup ps zero p b h = (refl, tt)
visited-IsNodup ps (suc n) p b h = (new, visited-IsNodup ps n (ps p).p_sendto h.1 h.2)
  where
    new : has p (visited ps n (ps p).p_sendto) ≡ false
    new = elim (Bool-cases (has p (visited ps n (ps p).p_sendto))) [
      | inl old ↦
          let d = visited-Depth ps n (ps p).p_sendto p h.1 h.2 old in
          absurd (omega (arith, d.1.1, Depth-unique ps d.1.0 (suc n) p d.1.2 h))
      | inr e ↦ e
    ]

-- No chain is longer than the table of processes.
pub Depth-lt : (ps : Procs) (n p : ℕ) → p < nr_all → Depth ps n p → n < nr_all
Depth-lt ps n p b h = omega (
  arith,
  length-visited ps n p,
  length-IsNodup nr_all (visited ps n p) (visited-IsNodup ps n p b h)
      (λ x e. (visited-Depth ps n p x b h e).0),
)

-- The chain from `p` comes to a process that waits to send to `t`.
abbrev pub reaches : Procs → ℕ → ℕ → ℕ → Bool
reaches ps zero p t = false
reaches ps (suc n) p t = ((ps p).p_sendto == t) || reaches ps n (ps p).p_sendto t

pub reaches-Depth :
    (ps : Procs) (m n p t : ℕ) → Depth ps m p → Depth ps n p → reaches ps m p t ≡ reaches ps n p t
reaches-Depth ps m n p t h k = ap (λ l. reaches ps l p t) (Depth-unique ps m n p h k)

-- The processes of a sending queue, from the pointer to its first.
abbrev pub Chain : Procs → Option ℕ → List ℕ → Type 0
Chain ps q [] = q ≡ none
Chain ps q (x ∷ xs) = (q ≡ some x) × Chain ps (ps x).next_sending xs

pub Chain-cong :
    (ps ps' : Procs) (q : Option ℕ) (xs : List ℕ)
    → ((x : ℕ) → has x xs ≡ true → (ps' x).next_sending ≡ (ps x).next_sending)
    → Chain ps q xs
    → Chain ps' q xs
Chain-cong ps ps' q [] h c = c
Chain-cong ps ps' q (x ∷ xs) h c =
    let e : (ps' x).next_sending ≡ (ps x).next_sending = h x (ground arith) in
    (c.0, rw e (Chain-cong ps ps' (ps x).next_sending xs (λ y i. h y (ground arith)) c.1))

abbrev pub last : ℕ → List ℕ → ℕ
last x [] = x
last x (y ∷ ys) = last y ys

pub has-last : (x : ℕ) (xs : List ℕ) → has (last x xs) (x ∷ xs) ≡ true
has-last x [] = ground arith
has-last x (y ∷ ys) = ground (arith, has-last y ys)

pub has_snoc : (x s : ℕ) (xs : List ℕ) → has x (xs ++ (s ∷ [])) ≡ (has x xs || (x == s))
has_snoc x s [] = ground arith
has_snoc x s (y ∷ ys) = ground (arith, has_snoc x s ys)

pub IsNodup-snoc : (s : ℕ) (xs : List ℕ) → IsNodup xs → has s xs ≡ false → IsNodup (xs ++ (s ∷ []))
IsNodup-snoc s [] h e = (refl, tt)
IsNodup-snoc s (x ∷ xs) h e = (has_snoc x s xs ∙ ground arith, IsNodup-snoc s xs h.1 (ground arith))

pub ne_of_has : (a b : ℕ) (l : List ℕ) → has a l ≡ false → has b l ≡ true → a ≢ b
ne_of_has a b l h k e = let t : has b l ≡ false = subst (λ z. has z l ≡ false) e h in cc

-- A process linked behind the last of a queue extends the queue.
pub Chain-snoc :
    (ps ps' : Procs) (s : ℕ) (q : Option ℕ) (x : ℕ) (xs : List ℕ)
    → IsNodup (x ∷ xs)
    → (ps' s).next_sending ≡ none
    → (ps' (last x xs)).next_sending ≡ some s
    → ((y : ℕ) → has y (x ∷ xs) ≡ true → y ≢ last x xs → (ps' y).next_sending ≡ (ps y).next_sending)
    → Chain ps q (x ∷ xs)
    → Chain ps' q ((x ∷ xs) ++ (s ∷ []))
Chain-snoc ps ps' s q x [] h e l same c = (c.0, (l, e))
Chain-snoc ps ps' s q x (y ∷ ys) h e l same c =
    let ne : x ≢ last y ys = ne_of_has x (last y ys) (y ∷ ys) h.0 (has-last y ys) in
    let here : (ps' x).next_sending ≡ (ps x).next_sending = same x (ground arith) ne in
    (
      c.0,
      rw here (
          Chain-snoc ps ps' s (ps x).next_sending y ys h.1 e l (λ z i n. same z (ground arith) n)
            c.1),
    )
