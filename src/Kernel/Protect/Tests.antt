-- ===== src/Kernel/Protect/Tests.antt =====
-- The theorems on the tables of protected mode at concrete tables and addresses.
use bird_os.Prelude.{ℕ, ◌+◌, ◌*◌, ◌%◌, ◌^◌, ◌<◌, ◌≡◌, ◌⊎◌, refl, some, arith, All}
use bird_os.Kernel.Protect.{Prot, Handler, hwint, sys_call, init_prot, init_descriptor}
use bird_os.Kernel.Protect.Gates.{
  Leads, privilege, vectors, IsFree, init_prot-Leads, init_prot-user,
}

-- A GDT whose data segment has base 0x100000, and an empty IDT
abbrev cleared : Prot
cleared = record {
  gdt = λ i. init_descriptor 0x100000 0xfffff 0xc92;
  idt = λ v. record { offset_low = 0; selector = 0; dcount = 0; attr = 0; offset_high = 0 };
  tss_ss0 = 0;
  tss_iobase = 0;
  ldt_sel = λ i. 0;
}

abbrev addresses : Handler → ℕ
addresses (hwint n) = 0x31000 + n % 16 * 0x10
addresses sys_call = 0x32000
addresses _ = 0x30400

abbrev ldts : ℕ → ℕ
ldts i = 0x40000 + i * 200

addresses_small : (h : Handler) → addresses h < 2 ^ 32
addresses_small (hwint n) = omega arith
addresses_small sys_call = omega arith
addresses_small _ = omega arith

init_prot-Leads_example :
    (s' : Prot) × (init_prot addresses 0x50000 ldts cleared ≡ some s')
    × All (Leads addresses 0x50000 ldts s'.idt) vectors
    × ((v : ℕ) → IsFree v → s'.idt v ≡ cleared.idt v)
init_prot-Leads_example = init_prot-Leads addresses 0x50000 ldts addresses_small cleared

init_prot-user_example :
    (s' : Prot) × (init_prot addresses 0x50000 ldts cleared ≡ some s')
    × ((v : ℕ) → (privilege (s'.idt v) ≡ 0) ⊎ ((v ≡ 3) ⊎ ((v ≡ 4) ⊎ (v ≡ 0x90))))
init_prot-user_example = init_prot-user addresses 0x50000 ldts cleared λ v. refl
