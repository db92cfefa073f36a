-- ===== src/Kernel/Ipc/Join.antt =====
-- A sender that joins the sending queue of another process keeps the invariant: the queue grows
-- by one at its end, and no cycle of waiting senders arises.
use bird_os.Prelude.{
  ℕ, zero, suc, ◌<◌, ◌^◌, ◌≡◌, ap, ◌∙◌, sym, ◌≢◌, inl, inr, true, false, ◌&&◌, none, some, List, [],
  ◌∷◌, ◌++◌, ◌==◌, arith, update, ltb, Bool-cases,
}
use mathlib.Core.Path.{subst}
use native.Mathlib.Decide.{ℕ_discrete}
use bird_os.Kernel.Types.{sending, nr_all, has_flag, ldt_seg_linear}
use bird_os.Kernel.Ipc.Chains.{
  Procs, is_sending, has, IsNodup, Depth, reaches, Chain, Chain-cong, Chain-snoc, last, has_snoc,
  IsNodup-snoc, has-last, ne_of_has,
}
use bird_os.Kernel.Ipc.Inv.{Inv, IsIdle, IsSettled, IsSettled-same}

-- How the queue `xs` of `dest` is linked to `s` behind its last process.
abbrev pub IsLinked : Procs → Procs → ℕ → ℕ → List ℕ → Type 0
IsLinked ps ps' s dest [] =
    ((ps' dest).q_sending ≡ some s) × ((x : ℕ) → x ≢ s → (ps' x).next_sending ≡ (ps x).next_sending)
IsLinked ps ps' s dest (y ∷ ys) =
    ((ps' dest).q_sending ≡ (ps dest).q_sending)
    × ((ps' (last y ys)).next_sending ≡ some s)
    × ((x : ℕ) → x ≢ s → x ≢ last y ys → (ps' x).next_sending ≡ (ps x).next_sending)

-- The processes after `s` has joined the queue `xs` of `dest` with the message `m`.
pub record Joined (ps ps' : Procs) (s dest m : ℕ) (xs : List ℕ) : Type 0 where
  pub flags : (ps' s).p_flags ≡ sending
  pub msg : (ps' s).p_msg ≡ m
  pub recvfrom : (ps' s).p_recvfrom ≡ (ps s).p_recvfrom
  pub sendto : (ps' s).p_sendto ≡ dest
  pub next : (ps' s).next_sending ≡ none
  pub ldt : (x : ℕ) → (ps' x).ldt_rw ≡ (ps x).ldt_rw
  pub other :
      (x : ℕ)
      → x ≢ s
      → ((ps' x).p_flags ≡ (ps x).p_flags)
        × ((ps' x).p_msg ≡ (ps x).p_msg)
        × ((ps' x).p_recvfrom ≡ (ps x).p_recvfrom)
        × ((ps' x).p_sendto ≡ (ps x).p_sendto)
  pub queues : (d : ℕ) → d ≢ dest → (ps' d).q_sending ≡ (ps d).q_sending
  pub linked : IsLinked ps ps' s dest xs

module _ {ps ps' : Procs} {s dest m : ℕ} {xs : List ℕ} (j : Joined ps ps' s dest m xs) where
  -- A chain that does not come to `s` is as it was.
  Depth-avoids : (n p : ℕ) → p ≢ s → Depth ps n p → reaches ps n p s ≡ false → Depth ps' n p
  Depth-avoids zero p ne d r = ap (λ f. has_flag f sending) (j.other p ne).0 ∙ d
  Depth-avoids (suc n) p ne d r =
      let o = j.other p ne in
      let ne' : (ps p).p_sendto ≢ s = ground arith in
      let d' = Depth-avoids n (ps p).p_sendto ne' d.2 (ground arith) in
      (ap (λ f. has_flag f sending) o.0 ∙ d.0, rw o.3 d.1, rw o.3 d')

  -- Every chain still ends, that of `s` behind that of `dest`.
  Depth-joined :
      (k : ℕ)
      → dest < nr_all
      → Depth ps' k dest
      → is_sending (ps s) ≡ false
      → (n p : ℕ) → Depth ps n p
      → (l : ℕ) × Depth ps' l p
  Depth-joined k b dk idle zero p d = elim (ℕ_discrete p s) [
    | yes e ↦ (
      suc k,
      (rw e (ap (λ f. has_flag f sending) j.flags), rw e (rw j.sendto b), rw e (rw j.sendto dk)),
    )
    | no ne ↦ (0, ap (λ f. has_flag f sending) (j.other p ne).0 ∙ d)
  ]
  Depth-joined k b dk idle (suc n) p d =
      let ne : p ≢ s =
        λ e. let t : is_sending (ps s) ≡ true = subst (λ z. is_sending (ps z) ≡ true) e d.0 in cc in
      let o = j.other p ne in
      let (l, dl) = Depth-joined k b dk idle n (ps p).p_sendto d.2 in
      (suc l, (ap (λ f. has_flag f sending) o.0 ∙ d.0, rw o.3 d.1, rw o.3 dl))

-- The queue of `dest` ends with `s`.
Chain-Joined :
    (ps ps' : Procs) (s dest m : ℕ) (xs : List ℕ)
    → Joined ps ps' s dest m xs
    → IsNodup xs
    → has s xs ≡ false
    → Chain ps (ps dest).q_sending xs
    → Chain ps' (ps' dest).q_sending (xs ++ (s ∷ []))
Chain-Joined ps ps' s dest m [] j nd out c = (j.linked.0, j.next)
Chain-Joined ps ps' s dest m (y ∷ ys) j nd out c =
    let behind = j.linked.2 in
    rw j.linked.0 (
      Chain-snoc ps ps' s (ps dest).q_sending y ys nd j.next j.linked.1
        (λ z i n. behind z (λ e. ne_of_has s z (y ∷ ys) out i (sym e)) n) c)

-- A process outside the queue keeps its link.
next_outside :
    (ps ps' : Procs) (s dest m : ℕ) (xs : List ℕ)
    → Joined ps ps' s dest m xs
    → (x : ℕ) → x ≢ s
    → has x xs ≡ false
    → (ps' x).next_sending ≡ (ps x).next_sending
next_outside ps ps' s dest m [] j x ne out = j.linked.1 x ne
next_outside ps ps' s dest m (y ∷ ys) j x ne out =
    j.linked.2 x ne (ne_of_has x (last y ys) (y ∷ ys) out (has-last y ys))

module _ {ps ps' : Procs} {w : ℕ → List ℕ} {s dest m : ℕ} (v : Inv ps w)
    (j : Joined ps ps' s dest m (w dest)) (sb : s < nr_all) (db : dest < nr_all) (ne : s ≢ dest)
    (idle : IsIdle (ps s)) (m0 : m ≢ 0) (mb : m < 2 ^ 32)
    (free : reaches ps (v.ends dest db).0 dest s ≡ false) where
  not_sending : is_sending (ps s) ≡ false
  not_sending = ap (λ f. has_flag f sending) idle.flags

  -- `s` waits in no queue yet.
  not_in : (d : ℕ) → d < nr_all → has s (w d) ≡ false
  not_in d b = v.member d s b ∙ ground (arith, not_sending)

  settled' : (p : ℕ) → p < nr_all → IsSettled (ps' p)
  settled' p b = elim (ℕ_discrete p s) [
    | yes e ↦ rw e (
        inr (
          inl (record {
            flags = j.flags;
            msg = rw j.msg m0;
            msg_in = rw j.msg mb;
            recvfrom = j.recvfrom ∙ idle.recvfrom;
            sendto = rw j.sendto db;
          })))
    | no n ↦ IsSettled-same (ps p) (ps' p) (j.other p n) (v.settled p b)
  ]

  -- The members of another queue send to another process.
  outside : (d x : ℕ) → d < nr_all → d ≢ dest → has x (w d) ≡ true → has x (w dest) ≡ false
  outside d x b n i = v.member dest x db ∙ ground (arith, v.member d x b, i)

  chain' : (d : ℕ) → d < nr_all → Chain ps' (ps' d).q_sending (update w dest (w dest ++ (s ∷ [])) d)
  chain' d b = elim (Bool-cases (d == dest)) [
    | inl e ↦
        let is_dest : d ≡ dest = ground arith in
        rw (e, is_dest)
          (Chain-Joined ps ps' s dest m (w dest) j (v.nodup dest db) (not_in dest db)
            (v.chain dest db))
    | inr n ↦
        let d_ne : d ≢ dest = ground arith in
        rw (n, j.queues d d_ne)
          (Chain-cong ps ps' (ps d).q_sending (w d)
            (λ x i.
              next_outside ps ps' s dest m (w dest) j x
                (λ e. ne_of_has s x (w d) (not_in d b) i (sym e)) (outside d x b d_ne i))
            (v.chain d b))
  ]

  member' :
      (d x : ℕ)
      → d < nr_all
      → has x (update w dest (w dest ++ (s ∷ [])) d)
        ≡ (ltb x nr_all && is_sending (ps' x) && ((ps' x).p_sendto == d))
  member' d x b = elim (ℕ_discrete x s) [
    | yes e ↦
        let sends : is_sending (ps' s) ≡ true = ap (λ f. has_flag f sending) j.flags in
        rw (e, sends, j.sendto)
          (elim (Bool-cases (d == dest)) [
            | inl here ↦ rw here (has_snoc s s (w dest) ∙ ground arith)
            | inr away ↦ rw away (not_in d b ∙ ground arith)
          ])
    | no n ↦
        let o = j.other x n in
        rw (ap (λ f. has_flag f sending) o.0, o.3)
          (elim (Bool-cases (d == dest)) [
            | inl here ↦
                let is_dest : d ≡ dest = ground arith in
                rw (here, is_dest) (has_snoc x s (w dest) ∙ ground (arith, v.member dest x db))
            | inr away ↦ rw away (v.member d x b)
          ])
  ]

  nodup' : (d : ℕ) → d < nr_all → IsNodup (update w dest (w dest ++ (s ∷ [])) d)
  nodup' d b = elim (Bool-cases (d == dest)) [
    | inl e ↦ rw e (IsNodup-snoc s (w dest) (v.nodup dest db) (not_in dest db))
    | inr n ↦ rw n (v.nodup d b)
  ]

  pub Inv-joined : Inv ps' (update w dest (w dest ++ (s ∷ [])))
  Inv-joined = record {
    flat = λ p b. ap ldt_seg_linear (j.ldt p) ∙ v.flat p b;
    settled = settled';
    chain = chain';
    member = member';
    nodup = nodup';
    ends = λ p b.
        Depth-joined j (v.ends dest db).0 db
          (Depth-avoids j (v.ends dest db).0 dest (λ e. ne (sym e)) (v.ends dest db).1 free)
          not_sending (v.ends p b).0 p (v.ends p b).1;
  }
