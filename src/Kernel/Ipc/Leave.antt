-- ===== src/Kernel/Ipc/Leave.antt =====
-- A sender that is taken out of a sending queue, wherever it stands in it, keeps the invariant.
use bird_os.Prelude.{
  ℕ, zero, suc, ◌<◌, ◌≡◌, refl, ap, ◌∙◌, sym, ◌≢◌, inl, inr, true, false, ◌&&◌, Option, some, List,
  [], ◌∷◌, ◌==◌, arith, update, ltb, Bool-cases, if◌then◌else◌,
}
use native.Mathlib.Decide.{ℕ_discrete}
use bird_os.Kernel.Types.{sending, no_task, nr_all, has_flag, ldt_seg_linear}
use bird_os.Kernel.Ipc.Chains.{
  Procs, is_sending, has, IsNodup, Depth, Chain, Chain-cong, remove, has-remove, IsNodup-remove,
  ne_of_has,
}
use bird_os.Kernel.Ipc.Inv.{Inv, IsSender, IsSettled, IsSettled-same}

-- The item before `f` in `x ∷ xs`, and in a list behind `prev`, or the last item.
abbrev pub before : ℕ → ℕ → List ℕ → ℕ
before f x [] = x
before f x (y ∷ ys) = if y == f then x else before f y ys

abbrev pub pred : ℕ → Option ℕ → List ℕ → Option ℕ
pred f prev [] = prev
pred f prev (x ∷ xs) = if x == f then prev else pred f (some x) xs

pub pred-before : (f x : ℕ) (xs : List ℕ) → pred f (some x) xs ≡ some (before f x xs)
pred-before f x [] = refl
pred-before f x (y ∷ ys) = ground (arith, pred-before f y ys)

pub has-before : (f x : ℕ) (xs : List ℕ) → has (before f x xs) (x ∷ xs) ≡ true
has-before f x [] = ground arith
has-before f x (y ∷ ys) = ground (arith, has-before f y ys)

-- The queue without `f` behind its first process.
pub Chain-unlink :
    (ps ps' : Procs) (f : ℕ) (q : Option ℕ) (x : ℕ) (xs : List ℕ)
    → IsNodup (x ∷ xs)
    → has f xs ≡ true
    → (ps' (before f x xs)).next_sending ≡ (ps f).next_sending
    → ((y : ℕ) → y ≢ f → y ≢ before f x xs → (ps' y).next_sending ≡ (ps y).next_sending)
    → Chain ps q (x ∷ xs)
    → Chain ps' q (x ∷ remove f xs)
Chain-unlink ps ps' f q x [] nd i e same c = cc
Chain-unlink ps ps' f q x (y ∷ ys) nd i e same c = elim (ℕ_discrete y f) [
  | yes here ↦
      let test : (y == f) ≡ true = ground arith in
      let test' : (f == y) ≡ true = ground arith in
      let gone : (ps' x).next_sending ≡ (ps y).next_sending =
        ap (λ b. (ps' (if b then x else before f y ys)).next_sending) (sym test)
        ∙ e
        ∙ ap (λ z. (ps z).next_sending) (sym here) in
      (
        c.0,
        rw (test', gone)
            (Chain-cong ps ps' (ps y).next_sending ys
              (λ z zi.
                same z (λ z_is. ne_of_has y z ys nd.1.0 zi (here ∙ sym z_is))
                  (rw test (λ z_is. ne_of_has x z (y ∷ ys) nd.0 (ground arith) (sym z_is))))
              c.1.1),
      )
  | no there ↦
      let test : (y == f) ≡ false = ground arith in
      let test' : (f == y) ≡ false = ground arith in
      let same' : (z : ℕ) → z ≢ f → z ≢ before f y ys → (ps' z).next_sending ≡ (ps z).next_sending =
        λ z n m. same z n (rw test m) in
      let kept : (ps' x).next_sending ≡ (ps x).next_sending =
        same' x (ne_of_has x f (y ∷ ys) nd.0 i)
          (ne_of_has x (before f y ys) (y ∷ ys) nd.0 (has-before f y ys)) in
      let e' : (ps' (before f y ys)).next_sending ≡ (ps f).next_sending =
        ap (λ b. (ps' (if b then x else before f y ys)).next_sending) (sym test) ∙ e in
      (
        c.0,
        rw (test', kept)
            (Chain-unlink ps ps' f (ps x).next_sending y ys nd.1 (ground arith) e' same' c.1),
      )
]

-- The processes after `f` has left the queue `xs` of `r`.
pub record Left (ps ps' : Procs) (f r : ℕ) (xs : List ℕ) : Type 0 where
  pub flags : (ps' f).p_flags ≡ 0
  pub msg : (ps' f).p_msg ≡ 0
  pub recvfrom : (ps' f).p_recvfrom ≡ (ps f).p_recvfrom
  pub sendto : (ps' f).p_sendto ≡ no_task
  pub ldt : (x : ℕ) → (ps' x).ldt_rw ≡ (ps x).ldt_rw
  pub other :
      (x : ℕ)
      → x ≢ f
      → ((ps' x).p_flags ≡ (ps x).p_flags)
        × ((ps' x).p_msg ≡ (ps x).p_msg)
        × ((ps' x).p_recvfrom ≡ (ps x).p_recvfrom)
        × ((ps' x).p_sendto ≡ (ps x).p_sendto)
  pub queues : (d : ℕ) → d ≢ r → (ps' d).q_sending ≡ (ps d).q_sending
  pub links : (x : ℕ) → x ≢ f → has x xs ≡ false → (ps' x).next_sending ≡ (ps x).next_sending
  pub chain : Chain ps' (ps' r).q_sending (remove f xs)

module _ {ps ps' : Procs} {w : ℕ → List ℕ} {f r : ℕ} (v : Inv ps w) (j : Left ps ps' f r (w r))
    (fb : f < nr_all) (rb : r < nr_all) (sender : IsSender (ps f)) (to : (ps f).p_sendto ≡ r) where
  Depth-left : (n p : ℕ) → Depth ps n p → (l : ℕ) × Depth ps' l p
  Depth-left zero p d = elim (ℕ_discrete p f) [
    | yes e ↦ (0, rw e (ap (λ g. has_flag g sending) j.flags))
    | no ne ↦ (0, ap (λ g. has_flag g sending) (j.other p ne).0 ∙ d)
  ]
  Depth-left (suc n) p d =
      let (l, dl) = Depth-left n (ps p).p_sendto d.2 in
      elim (ℕ_discrete p f) [
        | yes e ↦ (0, rw e (ap (λ g. has_flag g sending) j.flags))
        | no ne ↦
            let o = j.other p ne in
            (suc l, (ap (λ g. has_flag g sending) o.0 ∙ d.0, rw o.3 d.1, rw o.3 dl))
      ]

  settled' : (p : ℕ) → p < nr_all → IsSettled (ps' p)
  settled' p b = elim (ℕ_discrete p f) [
    | yes e ↦ rw e (
        inl (record {
          flags = j.flags;
          msg = j.msg;
          recvfrom = j.recvfrom ∙ sender.recvfrom;
          sendto = j.sendto;
        }))
    | no n ↦ IsSettled-same (ps p) (ps' p) (j.other p n) (v.settled p b)
  ]

  is_sender : is_sending (ps f) ≡ true
  is_sender = ap (λ g. has_flag g sending) sender.flags

  -- The members of another queue are not in that of `r`.
  outside : (d x : ℕ) → d < nr_all → d ≢ r → has x (w d) ≡ true → has x (w r) ≡ false
  outside d x b n i = v.member r x rb ∙ ground (arith, v.member d x b, i)

  not_in : (d : ℕ) → d < nr_all → d ≢ r → has f (w d) ≡ false
  not_in d b n = v.member d f b ∙ ground (arith, to)

  chain' : (d : ℕ) → d < nr_all → Chain ps' (ps' d).q_sending (update w r (remove f (w r)) d)
  chain' d b = elim (Bool-cases (d == r)) [
    | inl e ↦ let is_r : d ≡ r = ground arith in rw (e, is_r) j.chain
    | inr n ↦
        let d_ne : d ≢ r = ground arith in
        rw (n, j.queues d d_ne)
          (Chain-cong ps ps' (ps d).q_sending (w d)
            (λ x i.
              j.links x (λ e. ne_of_has f x (w d) (not_in d b d_ne) i (sym e))
                (outside d x b d_ne i))
            (v.chain d b))
  ]

  member' :
      (d x : ℕ)
      → d < nr_all
      → has x (update w r (remove f (w r)) d)
        ≡ (ltb x nr_all && is_sending (ps' x) && ((ps' x).p_sendto == d))
  member' d x b = elim (ℕ_discrete x f) [
    | yes e ↦
        let stops : is_sending (ps' f) ≡ false = ap (λ g. has_flag g sending) j.flags in
        rw (e, stops)
          (elim (Bool-cases (d == r)) [
            | inl here ↦ rw here (has-remove f f (w r) (v.nodup r rb) ∙ ground arith)
            | inr away ↦ rw away (not_in d b (ground arith) ∙ ground arith)
          ])
    | no n ↦
        let o = j.other x n in
        rw (ap (λ g. has_flag g sending) o.0, o.3)
          (elim (Bool-cases (d == r)) [
            | inl here ↦
                let is_r : d ≡ r = ground arith in
                rw (here, is_r)
                  (has-remove f x (w r) (v.nodup r rb) ∙ ground (arith, v.member r x rb))
            | inr away ↦ rw away (v.member d x b)
          ])
  ]

  nodup' : (d : ℕ) → d < nr_all → IsNodup (update w r (remove f (w r)) d)
  nodup' d b = elim (Bool-cases (d == r)) [
    | inl e ↦ rw e (IsNodup-remove f (w r) (v.nodup r rb))
    | inr n ↦ rw n (v.nodup d b)
  ]

  pub Inv-left : Inv ps' (update w r (remove f (w r)))
  Inv-left = record {
    flat = λ p b. ap ldt_seg_linear (j.ldt p) ∙ v.flat p b;
    settled = settled';
    chain = chain';
    member = member';
    nodup = nodup';
    ends = λ p b. Depth-left (v.ends p b).0 p (v.ends p b).1;
  }
