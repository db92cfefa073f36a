-- ===== src/Kernel/Protect/Base.antt =====
-- The base of a segment through its descriptor, kernel/protect.c, and the segments that `init_prot`
-- gives to the LDTs of the processes.
use bird_os.Prelude.{
  ℕ, zero, suc, ◌+◌, ◌-◌, ◌*◌, ◌/◌, ◌%◌, ◌^◌, ◌≤◌, ◌<◌, ◌≡◌, refl, ap, ◌∙◌, some, ◌==◌, inl, inr,
  Bool-cases, lt→ltb, arith, bit_and, bit_or, bit_and_ones8, bit_and_ones16, bit_or_fields, add_u32,
  update,
}
use bird_os.Kernel.Types.{Descriptor, nr_all}
unfoldable use bird_os.Kernel.Types.{ldt_seg_linear}
use bird_os.Kernel.Protect.{
  Prot, Handler, makelinear, selector_kernel_ds, selector_ldt_first, index_ldt_first, ldt_bytes,
  da_ldt, gates,
}
unfoldable use bird_os.Kernel.Protect.{
  init_descriptor, seg2phys, ldt_loop, init_ldt, init_prot, init_tables, init_gates,
}

base_fields :
    (b : ℕ)
    → b < 2 ^ 32
    → bit_or
        (bit_or (bit_and (b / 2 ^ 24) 0xff * 2 ^ 24) (bit_and (b / 2 ^ 16) 0xff * 2 ^ 16))
        (bit_and b 0xffff)
      ≡ b
base_fields b lt =
    let h : bit_and (b / 2 ^ 24) 0xff ≡ b / 2 ^ 24 % 256 = bit_and_ones8 (b / 2 ^ 24) in
    let m : bit_and (b / 2 ^ 16) 0xff ≡ b / 2 ^ 16 % 256 = bit_and_ones8 (b / 2 ^ 16) in
    let l : bit_and b 0xffff ≡ b % 65536 = bit_and_ones16 b in
    bit_or_fields (bit_and (b / 2 ^ 24) 0xff) (bit_and (b / 2 ^ 16) 0xff) (bit_and b 0xffff)
      (omega (arith, m)) (omega (arith, l))
    ∙ omega (arith, h, m, l)

-- The base that `init_descriptor` splits over three fields, below 2^32, is the one that
-- `ldt_seg_linear` puts together again from a descriptor.
pub ldt_seg_linear-init_descriptor :
    (base limit attribute : ℕ)
    → base < 2 ^ 32
    → ldt_seg_linear (init_descriptor base limit attribute) ≡ base
unfolding ldt_seg_linear init_descriptor
ldt_seg_linear-init_descriptor base limit attribute lt = base_fields base lt

seg2phys-update :
    (seg base limit attribute : ℕ) (g : ℕ → Descriptor)
    → base < 2 ^ 32
    → g (seg / 8) ≡ init_descriptor base limit attribute
    → seg2phys seg g ≡ base
unfolding seg2phys init_descriptor
seg2phys-update seg base limit attribute g lt e = rw e (base_fields base lt)

seg2phys-cong :
    (seg : ℕ) (f g : ℕ → Descriptor) → f (seg / 8) ≡ g (seg / 8) → seg2phys seg f ≡ seg2phys seg g
unfolding seg2phys
seg2phys-cong seg f g e = rw e refl

update_at : {A : Type 0} (f : ℕ → A) (i : ℕ) (v : A) → update f i v i ≡ v
update_at f i v = ground arith

module _ (address : Handler → ℕ) (tss_address : ℕ) (ldts_address : ℕ → ℕ) where
  -- The LDT entries `i` to `i + k` of the GDT.
  abbrev HasLdts : ℕ → ℕ → ℕ → Prot → Type 0
  HasLdts k i base s =
      (j : ℕ) → i ≤ j → j < i + k → seg2phys (s.ldt_sel j) s.gdt ≡ add_u32 base (ldts_address j)

  -- One entry of the GDT, and the selector that names it.
  init_ldt-base :
      (i base : ℕ) (s : Prot)
      → seg2phys selector_kernel_ds s.gdt ≡ base
      → let t : Prot = init_ldt address tss_address ldts_address i s in
        (seg2phys (t.ldt_sel i) t.gdt ≡ add_u32 base (ldts_address i))
        × ((j : ℕ) → j < 5 + i → t.gdt j ≡ s.gdt j)
        × ((j : ℕ) → j < i → t.ldt_sel j ≡ s.ldt_sel j)
        × (t.idt ≡ s.idt)
        × (t.ldt_sel i ≡ selector_ldt_first + i * 8)
  unfolding init_ldt
  init_ldt-base i base s e =
      let linear : ℕ = makelinear selector_kernel_ds (ldts_address i) s.gdt in
      (
        rw (update_at s.ldt_sel i (selector_ldt_first + i * 8)) (
            seg2phys-update (selector_ldt_first + i * 8) linear (ldt_bytes - 1) da_ldt
              (update s.gdt (index_ldt_first + i) (init_descriptor linear (ldt_bytes - 1) da_ldt))
              (omega arith) (slot linear)
            ∙ ap (λ b. add_u32 b (ldts_address i)) e),
        λ j l. ground arith,
        λ j l. ground arith,
        refl,
        update_at s.ldt_sel i (selector_ldt_first + i * 8),
      )
    where
      slot :
          (b : ℕ)
          → update s.gdt
              (index_ldt_first + i)
              (init_descriptor b (ldt_bytes - 1) da_ldt)
              ((selector_ldt_first + i * 8) / 8)
            ≡ init_descriptor b (ldt_bytes - 1) da_ldt
      slot b =
          let x : (selector_ldt_first + i * 8) / 8 ≡ index_ldt_first + i = omega arith in
          rw x (update_at s.gdt (index_ldt_first + i) (init_descriptor b (ldt_bytes - 1) da_ldt))

  ldt_loop_zero : (i : ℕ) (s : Prot) → ldt_loop address tss_address ldts_address 0 i s ≡ some s
  unfolding ldt_loop
  ldt_loop_zero i s = refl

  ldt_loop_step :
      (k i : ℕ) (s : Prot)
      → 5 + i < 128
      → ldt_loop address tss_address ldts_address (suc k) i s
        ≡ ldt_loop address tss_address ldts_address k
            (i + 1)
            (init_ldt address tss_address ldts_address i s)
  unfolding ldt_loop
  ldt_loop_step k i s lt = rw (lt→ltb (5 + i) 128 lt) refl

  ldt_loop-HasLdts :
      (k i : ℕ) (s : Prot) (base : ℕ)
      → 5 + i + k ≤ 128
      → seg2phys selector_kernel_ds s.gdt ≡ base
      → (s' : Prot) × (ldt_loop address tss_address ldts_address k i s ≡ some s')
        × HasLdts k i base s'
        × ((j : ℕ) → j < 5 + i → s'.gdt j ≡ s.gdt j)
        × ((j : ℕ) → j < i → s'.ldt_sel j ≡ s.ldt_sel j)
        × (s'.idt ≡ s.idt)
  ldt_loop-HasLdts zero i s base lt e =
      (s, ldt_loop_zero i s, λ j a b. absurd (omega arith), λ j l. refl, λ j l. refl, refl)
  ldt_loop-HasLdts (suc k) i s base lt e =
      let t : Prot = init_ldt address tss_address ldts_address i s in
      let (own, fg, fl, fi, sel) = init_ldt-base i base s e in
      let (s', g, h, fg', fl', fi') =
        ldt_loop-HasLdts k (i + 1) t base (omega arith)
          (seg2phys-cong selector_kernel_ds t.gdt s.gdt (fg 2 (omega arith)) ∙ e) in
      (
        s',
        ldt_loop_step k i s (omega arith) ∙ g,
        λ j lo hi. elim (Bool-cases (j == i)) [
          | inl eq ↦ at_i j (ground (arith, eq)) t s' own sel (fl' i (omega arith)) fg'
          | inr ne ↦ h j (ground (arith, ne)) (omega arith)
        ],
        λ j l. fg' j (omega arith) ∙ fg j l,
        λ j l. fl' j (omega arith) ∙ fl j l,
        fi' ∙ fi,
      )
    where
      at_i :
          (j : ℕ)
          → j ≡ i
          → (t s' : Prot) → seg2phys (t.ldt_sel i) t.gdt ≡ add_u32 base (ldts_address i)
          → t.ldt_sel i ≡ selector_ldt_first + i * 8
          → s'.ldt_sel i ≡ t.ldt_sel i
          → ((j : ℕ) → j < 5 + (i + 1) → s'.gdt j ≡ t.gdt j)
          → seg2phys (s'.ldt_sel j) s'.gdt ≡ add_u32 base (ldts_address j)
      at_i j eq t s' own sel same fg =
          rw (eq, same)
            (seg2phys-cong (t.ldt_sel i) s'.gdt t.gdt (fg (t.ldt_sel i / 8) (omega (arith, sel)))
              ∙ own)

  init_tables_lem :
      (s : Prot)
      → let t : Prot = init_tables address tss_address ldts_address s in
        (t.gdt 2 ≡ s.gdt 2) × (t.idt ≡ init_gates address tss_address ldts_address gates s.idt)
  unfolding init_tables
  init_tables_lem s = (refl, refl)

  pub init_prot_lem :
      (s : Prot)
      → (s' : Prot) × (init_prot address tss_address ldts_address s ≡ some s')
        × ((i : ℕ)
            → i < nr_all
            → seg2phys (s'.ldt_sel i) s'.gdt ≡ makelinear selector_kernel_ds (ldts_address i) s.gdt)
        × (s'.idt ≡ init_gates address tss_address ldts_address gates s.idt)
  unfolding init_prot
  init_prot_lem s =
      let t : Prot = init_tables address tss_address ldts_address s in
      let (ds, gs) = init_tables_lem s in
      let (s', g, h, fg, fl, fi) =
        ldt_loop-HasLdts nr_all 0 t (seg2phys selector_kernel_ds s.gdt) (omega arith)
          (seg2phys-cong selector_kernel_ds t.gdt s.gdt ds) in
      (s', g, λ i lt. h i (omega arith) (omega arith), fi ∙ gs)

  -- `init_prot` fails no assert, and after it the LDT selector of each of the 25 processes names a
  -- segment of the GDT whose base is the linear address of the LDT of that process: the base of the
  -- kernel's data segment plus the LDT's offset, modulo 2^32.
  init_prot-HasLdts :
      (s : Prot)
      → (s' : Prot) × (init_prot address tss_address ldts_address s ≡ some s')
        × ((i : ℕ)
            → i < nr_all
            → seg2phys (s'.ldt_sel i) s'.gdt ≡ makelinear selector_kernel_ds (ldts_address i) s.gdt)
  init_prot-HasLdts s = let (s', g, h, i) = init_prot_lem s in (s', g, h)
