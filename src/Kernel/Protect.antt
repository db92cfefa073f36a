-- ===== src/Kernel/Protect.antt =====
-- The tables of protected mode, kernel/protect.c and include/sys/protect.h: `init_idt_desc`,
-- `init_descriptor`, `seg2phys` and `init_prot`. The addresses of the interrupt handlers, which are
-- assembly code, and of `tss` and the LDTs are arguments. `init_8259A`, which only writes to ports,
-- is left out, and of `tss` the two fields that `init_prot` sets are kept.
pub mod Base
pub mod Gates
mod Tests
use bird_os.Prelude.{
  ℕ, zero, suc, ◌+◌, ◌-◌, ◌*◌, ◌/◌, ◌%◌, ◌^◌, Bool, Option, none, some, List, [], ◌∷◌, ltb,
  if◌then◌else◌, bit_and, bit_or, add_u32, update,
}
use bird_os.Kernel.Types.{Descriptor, nr_all}

-- struct gate
pub record Gate : Type 0 where
  pub offset_low : ℕ
  pub selector : ℕ
  pub dcount : ℕ
  pub attr : ℕ
  pub offset_high : ℕ

pub data Handler : Type 0 where
  divide_error : Handler
  single_step_exception : Handler
  nmi : Handler
  breakpoint_exception : Handler
  overflow : Handler
  bounds_check : Handler
  inval_opcode : Handler
  copr_not_available : Handler
  double_fault : Handler
  copr_seg_overrun : Handler
  inval_tss : Handler
  segment_not_present : Handler
  stack_exception : Handler
  general_protection : Handler
  page_fault : Handler
  copr_error : Handler
  -- hwint00 to hwint15
  hwint : ℕ → Handler
  sys_call : Handler

abbrev pub selector_kernel_cs : ℕ
selector_kernel_cs = 0x08

abbrev pub selector_kernel_ds : ℕ
selector_kernel_ds = 0x10

abbrev pub selector_ldt_first : ℕ
selector_ldt_first = 0x28

abbrev pub index_tss : ℕ
index_tss = 4

abbrev pub index_ldt_first : ℕ
index_ldt_first = 5

abbrev pub gdt_size : ℕ
gdt_size = 128

abbrev pub da_386_igate : ℕ
da_386_igate = 0x8e

abbrev pub da_386_tss : ℕ
da_386_tss = 0x89

abbrev pub da_ldt : ℕ
da_ldt = 0x82

abbrev pub privilege_krnl : ℕ
privilege_krnl = 0

abbrev pub privilege_user : ℕ
privilege_user = 3

-- sizeof(struct tss), and LDT_SIZE * sizeof(struct descriptor)
abbrev pub tss_size : ℕ
tss_size = 104

abbrev pub ldt_bytes : ℕ
ldt_bytes = 16

pub record Prot : Type 0 where
  pub gdt : ℕ → Descriptor
  pub idt : ℕ → Gate
  pub tss_ss0 : ℕ
  pub tss_iobase : ℕ
  pub ldt_sel : ℕ → ℕ

unfoldable pub init_descriptor : ℕ → ℕ → ℕ → Descriptor
init_descriptor base limit attribute = record {
  limit_low = bit_and limit 0xffff;
  base_low = bit_and base 0xffff;
  base_mid = bit_and (base / 2 ^ 16) 0xff;
  attr1 = bit_and attribute 0xff;
  limit_high_attr2 = bit_or (bit_and (limit / 2 ^ 16) 0x0f) (bit_and (attribute / 2 ^ 8) 0xf0);
  base_high = bit_and (base / 2 ^ 24) 0xff;
}

unfoldable pub seg2phys : ℕ → (ℕ → Descriptor) → ℕ
seg2phys seg gdt =
    let d : Descriptor = gdt (seg / 8) in
    bit_or (bit_or (d.base_high * 2 ^ 24) (d.base_mid * 2 ^ 16)) d.base_low

abbrev pub makelinear : ℕ → ℕ → (ℕ → Descriptor) → ℕ
makelinear seg off gdt = add_u32 (seg2phys seg gdt) off

-- The calls of `init_idt_desc`, in order: the vector, the handler and the privilege. The type of
-- each gate is DA_386IGate.
abbrev pub gates : List (ℕ × Handler × ℕ)
gates =
    (0x0, divide_error, privilege_krnl)
    ∷ (0x1, single_step_exception, privilege_krnl)
    ∷ (0x2, nmi, privilege_krnl)
    ∷ (0x3, breakpoint_exception, privilege_user)
    ∷ (0x4, overflow, privilege_user)
    ∷ (0x5, bounds_check, privilege_krnl)
    ∷ (0x6, inval_opcode, privilege_krnl)
    ∷ (0x7, copr_not_available, privilege_krnl)
    ∷ (0x8, double_fault, privilege_krnl)
    ∷ (0x9, copr_seg_overrun, privilege_krnl)
    ∷ (0xa, inval_tss, privilege_krnl)
    ∷ (0xb, segment_not_present, privilege_krnl)
    ∷ (0xc, stack_exception, privilege_krnl)
    ∷ (0xd, general_protection, privilege_krnl)
    ∷ (0xe, page_fault, privilege_krnl)
    ∷ (0x10, copr_error, privilege_krnl)
    ∷ (0x20 + 0, hwint 0, privilege_krnl)
    ∷ (0x20 + 1, hwint 1, privilege_krnl)
    ∷ (0x20 + 2, hwint 2, privilege_krnl)
    ∷ (0x20 + 3, hwint 3, privilege_krnl)
    ∷ (0x20 + 4, hwint 4, privilege_krnl)
    ∷ (0x20 + 5, hwint 5, privilege_krnl)
    ∷ (0x20 + 6, hwint 6, privilege_krnl)
    ∷ (0x20 + 7, hwint 7, privilege_krnl)
    ∷ (0x28 + 0, hwint 8, privilege_krnl)
    ∷ (0x28 + 1, hwint 9, privilege_krnl)
    ∷ (0x28 + 2, hwint 10, privilege_krnl)
    ∷ (0x28 + 3, hwint 11, privilege_krnl)
    ∷ (0x28 + 4, hwint 12, privilege_krnl)
    ∷ (0x28 + 5, hwint 13, privilege_krnl)
    ∷ (0x28 + 6, hwint 14, privilege_krnl)
    ∷ (0x28 + 7, hwint 15, privilege_krnl)
    ∷ (0x90, sys_call, privilege_user)
    ∷ []

module _ (address : Handler → ℕ) (tss_address : ℕ) (ldts_address : ℕ → ℕ) where
  unfoldable pub init_idt_desc : ℕ → ℕ → Handler → ℕ → (ℕ → Gate) → ℕ → Gate
  init_idt_desc vector desc_type handler privilege idt = update idt vector (record {
    offset_low = bit_and (address handler) 0xffff;
    selector = selector_kernel_cs;
    dcount = 0;
    attr = bit_or desc_type (privilege * 2 ^ 5);
    offset_high = bit_and (address handler / 2 ^ 16) 0xffff;
  })

  unfoldable pub init_gates : List (ℕ × Handler × ℕ) → (ℕ → Gate) → ℕ → Gate
  init_gates [] idt = idt
  init_gates ((v, h, p) ∷ gs) idt = init_gates gs (init_idt_desc v da_386_igate h p idt)

  -- The LDT of process `i`; only the field `ldt_sel` of the cleared process is kept.
  unfoldable pub init_ldt : ℕ → Prot → Prot
  init_ldt i s =
      let linear : ℕ = makelinear selector_kernel_ds (ldts_address i) s.gdt in
      record s {
        ldt_sel = update s.ldt_sel i (selector_ldt_first + i * 8);
        gdt = update s.gdt (index_ldt_first + i) (init_descriptor linear (ldt_bytes - 1) da_ldt);
      }

  -- The loop over the processes from `i` on, with `k` left; `none` is a failed assert.
  unfoldable pub ldt_loop : ℕ → ℕ → Prot → Option Prot
  ldt_loop zero i s = some s
  ldt_loop (suc k) i s =
      let rest = ldt_loop k (i + 1) (init_ldt i s) in
      if ltb (index_ldt_first + i) gdt_size then rest else none

  -- The gates of the IDT, and the descriptor of `tss`.
  unfoldable pub init_tables : Prot → Prot
  init_tables s =
      let linear : ℕ = makelinear selector_kernel_ds tss_address s.gdt in
      record s {
        idt = init_gates gates s.idt;
        gdt = update s.gdt index_tss (init_descriptor linear (tss_size - 1) da_386_tss);
        tss_ss0 = selector_kernel_ds;
        tss_iobase = tss_size;
      }

  unfoldable pub init_prot : Prot → Option Prot
  init_prot s = ldt_loop nr_all 0 (init_tables s)
