-- ===== src/Kernel/Protect/Gates.antt =====
-- The gates that `init_prot` of kernel/protect.c puts into the IDT, and which of them a user
-- process may call.
use bird_os.Prelude.{
  ℕ, zero, suc, ◌++◌, if◌then◌else◌, ◌≤◌, ◌+◌, ◌*◌, ◌/◌, ◌%◌, ◌^◌, ◌<◌, ◌≡◌, refl, sym, ap, ◌∙◌,
  Bool, true, false, ◌&&◌, ◌||◌, not, some, List, [], ◌∷◌, ◌==◌, ◌⊎◌, inl, inr, Bool-cases, arith,
  bit_and, bit_or, bit_and_ones16, All,
}
use mathlib.Core.Path.{subst}
use bird_os.Kernel.Protect.{Prot, Gate, Handler, gates, selector_kernel_cs, da_386_igate}
unfoldable use bird_os.Kernel.Protect.{init_idt_desc, init_gates, init_prot}
use bird_os.Kernel.Protect.Base.{init_prot_lem}

-- Where a gate leads, and the privilege that a caller needs: bits 5 and 6 of its attributes.
abbrev pub target : Gate → ℕ
target g = g.offset_high * 2 ^ 16 + g.offset_low

abbrev pub privilege : Gate → ℕ
privilege g = g.attr / 2 ^ 5 % 4

abbrev pub vector_in : ℕ → List (ℕ × Handler × ℕ) → Bool
vector_in v [] = false
vector_in v ((w, h, p) ∷ gs) = (v == w) || vector_in v gs

-- Every vector stands once, with privilege 0 or 3.
abbrev pub distinct : List (ℕ × Handler × ℕ) → Bool
distinct [] = true
distinct ((v, h, p) ∷ gs) = (not (vector_in v gs) && ((p == 0) || (p == 3))) && distinct gs

-- What is expected of the IDT: the handlers of the exceptions 0 to 14 in the order of their
-- vectors, those of the interrupts `i` to `i + n - 1`, and the privilege for a vector.
abbrev exceptions : List Handler
exceptions =
    Handler.divide_error ∷ Handler.single_step_exception ∷ Handler.nmi
    ∷ Handler.breakpoint_exception ∷ Handler.overflow ∷ Handler.bounds_check ∷ Handler.inval_opcode
    ∷ Handler.copr_not_available ∷ Handler.double_fault ∷ Handler.copr_seg_overrun
    ∷ Handler.inval_tss ∷ Handler.segment_not_present ∷ Handler.stack_exception
    ∷ Handler.general_protection ∷ Handler.page_fault ∷ []

abbrev interrupts : ℕ → ℕ → List Handler
interrupts i zero = []
interrupts i (suc n) = Handler.hwint i ∷ interrupts (i + 1) n

abbrev privilege_for : ℕ → ℕ
privilege_for v = if (v == 3) || (v == 4) || (v == 0x90) then 3 else 0

abbrev from_vector : ℕ → List Handler → List (ℕ × Handler × ℕ)
from_vector v [] = []
from_vector v (h ∷ hs) = (v, h, privilege_for v) ∷ from_vector (v + 1) hs

abbrev pub vectors : List (ℕ × Handler × ℕ)
vectors =
    from_vector 0 exceptions
    ++ (from_vector 0x10 (Handler.copr_error ∷ [])
        ++ (from_vector 0x20 (interrupts 0 16) ++ from_vector 0x90 (Handler.sys_call ∷ [])))

-- A vector that the program does not use
abbrev pub IsFree : ℕ → Type 0
IsFree v = (v ≡ 0xf) ⊎ ((0x10 < v) × (v < 0x20)) ⊎ ((0x30 ≤ v) × (v < 0x90)) ⊎ (0x90 < v)

IsFree-gates : (v : ℕ) → IsFree v → vector_in v gates ≡ false
IsFree-gates v n = ground (arith, n)

module _ (address : Handler → ℕ) (tss_address : ℕ) (ldts_address : ℕ → ℕ) where
  abbrev pub Leads : (ℕ → Gate) → ℕ × Handler × ℕ → Type 0
  Leads idt (v, h, p) =
      ((target (idt v) ≡ address h)
        × (privilege (idt v) ≡ p)
        × ((idt v).selector ≡ selector_kernel_cs))

  other_vector :
      (gs : List (ℕ × Handler × ℕ)) (idt : ℕ → Gate) (v : ℕ)
      → vector_in v gs ≡ false
      → init_gates address tss_address ldts_address gs idt v ≡ idt v
  unfolding init_gates init_idt_desc
  other_vector [] idt v e = refl
  other_vector ((w, h, p) ∷ gs) idt v e =
      other_vector gs (init_idt_desc address tss_address ldts_address w da_386_igate h p idt) v
        (ground (arith, e))
      ∙ ground (arith, e)

  init_idt_desc-Leads :
      (v p : ℕ) (h : Handler) (idt : ℕ → Gate)
      → address h < 2 ^ 32
      → ((p == 0) || (p == 3)) ≡ true
      → Leads (init_idt_desc address tss_address ldts_address v da_386_igate h p idt) (v, h, p)
  unfolding init_idt_desc
  init_idt_desc-Leads v p h idt lt e =
      let l : bit_and (address h) 0xffff ≡ address h % 65536 = bit_and_ones16 (address h) in
      let u : bit_and (address h / 2 ^ 16) 0xffff ≡ address h / 2 ^ 16 % 65536 =
        bit_and_ones16 (address h / 2 ^ 16) in
      let at : (v == v) ≡ true = ground arith in
      rw (Leads, at) (omega (arith, l, u), privilege_bits p e, refl)
    where
      privilege_bits :
          (p : ℕ) → ((p == 0) || (p == 3)) ≡ true → bit_or da_386_igate (p * 2 ^ 5) / 2 ^ 5 % 4 ≡ p
      privilege_bits p e = elim (Bool-cases (p == 0)) [
        | inl z ↦ let zero_p : p ≡ 0 = ground (arith, z) in rw zero_p refl
        | inr z ↦ let three : p ≡ 3 = ground (arith, z, e) in rw three refl
      ]

  Leads-cong :
      (f g : ℕ → Gate) (v p : ℕ) (h : Handler) → f v ≡ g v → Leads g (v, h, p) → Leads f (v, h, p)
  Leads-cong f g v p h e (a, b, c) =
      (ap target e ∙ a, ap privilege e ∙ b, ap (λ x. x.selector) e ∙ c)

  init_gates-Leads :
      ((h : Handler) → address h < 2 ^ 32)
      → (gs : List (ℕ × Handler × ℕ)) (idt : ℕ → Gate) → distinct gs ≡ true
      → All (Leads (init_gates address tss_address ldts_address gs idt)) gs
  unfolding init_gates
  init_gates-Leads small [] idt d = tt
  init_gates-Leads small ((v, h, p) ∷ gs) idt d =
      let idt' : ℕ → Gate = init_idt_desc address tss_address ldts_address v da_386_igate h p idt in
      (
        Leads-cong (init_gates address tss_address ldts_address gs idt') idt' v p h
            (other_vector gs idt' v (ground (arith, d)))
            (init_idt_desc-Leads v p h idt (small h) (ground (arith, d))),
        init_gates-Leads small gs idt' (ground (arith, d)),
      )

  abbrev user_vector : ℕ → List (ℕ × Handler × ℕ) → Bool
  user_vector v [] = false
  user_vector v ((w, h, p) ∷ gs) = ((v == w) && not (p == 0)) || user_vector v gs

  init_idt_desc-krnl :
      (w : ℕ) (h : Handler) (p : ℕ) (idt : ℕ → Gate) (v : ℕ)
      → ((v == w) && not (p == 0)) ≡ false
      → privilege (idt v) ≡ 0
      → privilege (init_idt_desc address tss_address ldts_address w da_386_igate h p idt v) ≡ 0
  unfolding init_idt_desc
  init_idt_desc-krnl w h p idt v e z = elim (Bool-cases (v == w)) [
    | inl at ↦ let zero_p : p ≡ 0 = ground (arith, e, at) in rw (at, zero_p) refl
    | inr at ↦ rw at z
  ]

  init_gates-krnl :
      (gs : List (ℕ × Handler × ℕ)) (idt : ℕ → Gate) (v : ℕ)
      → user_vector v gs ≡ false
      → privilege (idt v) ≡ 0
      → privilege (init_gates address tss_address ldts_address gs idt v) ≡ 0
  unfolding init_gates
  init_gates-krnl [] idt v e z = z
  init_gates-krnl ((w, h, p) ∷ gs) idt v e z =
      init_gates-krnl gs (init_idt_desc address tss_address ldts_address w da_386_igate h p idt) v
        (ground (arith, e)) (init_idt_desc-krnl w h p idt v (ground (arith, e)) z)

  -- Where every handler's address is below 2^32, `init_prot` succeeds. Vectors 0 to 14 then lead to
  -- the handlers of the processor's exceptions in their order, 16 to `copr_error`, 0x20 to 0x2f to
  -- the handlers of the interrupts 0 to 15, and 0x90 to `sys_call`, all in the kernel's code
  -- segment. The gates of breakpoint, overflow and `sys_call` ask for the user's privilege, the
  -- others for the kernel's. Every other vector of the IDT is as it was.
  pub init_prot-Leads :
      ((h : Handler) → address h < 2 ^ 32)
      → (s : Prot)
      → (s' : Prot) × (init_prot address tss_address ldts_address s ≡ some s')
        × All (Leads s'.idt) vectors
        × ((v : ℕ) → IsFree v → s'.idt v ≡ s.idt v)
  init_prot-Leads small s =
      let (s', g, l, e) = init_prot_lem address tss_address ldts_address s in
      (
        s',
        g,
        subst (λ i. All (Leads i) gates) (sym e) (init_gates-Leads small gates s.idt refl),
        λ v n. ap (λ i. i v) e ∙ other_vector gates s.idt v (IsFree-gates v n),
      )

  -- Where no gate of the IDT is open to a user process before, `init_prot` succeeds and opens none
  -- but those of the breakpoint and overflow exceptions and of the system calls.
  pub init_prot-user :
      (s : Prot)
      → ((v : ℕ) → privilege (s.idt v) ≡ 0)
      → (s' : Prot) × (init_prot address tss_address ldts_address s ≡ some s')
        × ((v : ℕ) → (privilege (s'.idt v) ≡ 0) ⊎ ((v ≡ 3) ⊎ ((v ≡ 4) ⊎ (v ≡ 0x90))))
  init_prot-user s z =
      let (s', g, l, e) = init_prot_lem address tss_address ldts_address s in
      (
        s',
        g,
        λ v. elim (Bool-cases (user_vector v gates)) [
          | inl u ↦ inr (ground (arith, u))
          | inr u ↦ inl (ap (λ i. privilege (i v)) e ∙ init_gates-krnl gates s.idt v u (z v))
        ],
      )
