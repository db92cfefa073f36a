-- ===== src/Kernel/Types.antt =====
-- The data of kernel/proc.c, from include/sys/proc.h, include/type.h, include/sys/const.h and
-- include/sys/protect.h. A pointer to a process is its index in `proc_table`, and `none` for 0; a
-- MESSAGE pointer is a number, 0 for none. An `int` is its bit pattern below 2^32.
use bird_os.Prelude.{
  ℕ, ◌+◌, ◌-◌, ◌*◌, ◌%◌, ◌^◌, Bool, not, Option, List, update, ◌==◌, bit_and, bit_or, if◌then◌else◌,
  ltb,
}

-- struct descriptor
pub record Descriptor : Type 0 where
  pub limit_low : ℕ
  pub base_low : ℕ
  pub base_mid : ℕ
  pub attr1 : ℕ
  pub limit_high_attr2 : ℕ
  pub base_high : ℕ

-- MESSAGE, with the fields of `mess3`, the widest member of its union
pub record Message : Type 0 where
  pub source : ℕ
  pub kind : ℕ
  pub m3i1 : ℕ
  pub m3i2 : ℕ
  pub m3i3 : ℕ
  pub m3i4 : ℕ
  pub m3l1 : ℕ
  pub m3l2 : ℕ
  pub m3p1 : ℕ
  pub m3p2 : ℕ

-- A message of zeroes but for its source and type.
abbrev pub short_message : ℕ → ℕ → Message
short_message source kind = record {
  source = source;
  kind = kind;
  m3i1 = 0;
  m3i2 = 0;
  m3i3 = 0;
  m3i4 = 0;
  m3l1 = 0;
  m3l2 = 0;
  m3p1 = 0;
  m3p2 = 0;
}

-- struct proc, as far as scheduling and message passing use it; `kind` is the field `type`, and
-- `ldt_rw` is `ldts[INDEX_LDT_RW]`
pub record Proc : Type 0 where
  pub ldt_rw : Descriptor
  pub ticks : ℕ
  pub priority : ℕ
  pub kind : ℕ
  pub p_flags : ℕ
  pub p_msg : ℕ
  pub p_recvfrom : ℕ
  pub p_sendto : ℕ
  pub has_int_msg : Bool
  pub q_sending : Option ℕ
  pub next_sending : Option ℕ

-- QUEUE
pub record Queue : Type 0 where
  pub p_head : ℕ
  pub p_tail : ℕ
  pub priority : ℕ
  pub count : ℕ
  pub buf : List ℕ

-- The kernel's variables: `proc_table`, `queue_table`, `p_proc_ready`, `k_reenter`, and the
-- messages that lie in memory, by linear address.
pub record Kernel : Type 0 where
  pub procs : ℕ → Proc
  pub queues : ℕ → Queue
  pub ready : Option ℕ
  pub k_reenter : ℕ
  pub mem : ℕ → Message

abbrev pub nr_tasks : ℕ
nr_tasks = 5

abbrev pub nr_procs : ℕ
nr_procs = 20

-- NR_TASKS + NR_PROCS
abbrev pub nr_all : ℕ
nr_all = 25

abbrev pub nr_queue : ℕ
nr_queue = 3

abbrev pub nr_native_procs : ℕ
nr_native_procs = 3

abbrev pub sending : ℕ
sending = 0x02

abbrev pub receiving : ℕ
receiving = 0x04

abbrev pub free_slot : ℕ
free_slot = 0x20

abbrev pub any : ℕ
any = 35

abbrev pub no_task : ℕ
no_task = 45

-- INTERRUPT is -10
abbrev pub interrupt : ℕ
interrupt = 2 ^ 32 - 10

abbrev pub hard_int : ℕ
hard_int = 1

abbrev pub send : ℕ
send = 1

abbrev pub receive : ℕ
receive = 2

-- `flags & mask` as a test, `flags |= mask` and `flags &= ~mask`
abbrev pub has_flag : ℕ → ℕ → Bool
has_flag flags mask = not (bit_and flags mask == 0)

abbrev pub set_flag : ℕ → ℕ → ℕ
set_flag flags mask = bit_or flags mask

abbrev pub clear_flag : ℕ → ℕ → ℕ
clear_flag flags mask = bit_and flags (2 ^ 32 - 1 - mask)

-- A run of kernel code: it returns, it halts in `panic` or a failed `assert`, or a loop is still
-- running when its rounds are used up.
pub data Run {ℓ} (A : Type ℓ) : Type ℓ where
  ok : A → Kernel → Run A
  halted : Run A
  looping : Run A

abbrev pub Code : Type 0 → Type 0
Code A = Kernel → Run A

abbrev pub pure : {A : Type 0} → A → Code A
pure a k = ok a k

abbrev pub and_then : {A B : Type 0} → Run A → (A → Code B) → Run B
and_then (ok a k) f = f a k
and_then halted f = halted
and_then looping f = looping

infixl 5 ◌>>=◌ ◌>>◌
abbrev pub ◌>>=◌ : {A B : Type 0} → Code A → (A → Code B) → Code B
◌>>=◌ m f k = and_then (m k) f

abbrev pub ◌>>◌ : {B : Type 0} → Code (Unit {0}) → Code B → Code B
◌>>◌ m n k = and_then (m k) (λ _. n)

abbrev pub panic : {A : Type 0} → Code A
panic k = halted

abbrev pub assert : Bool → Code (Unit {0})
assert c k = if c then ok tt k else halted

abbrev pub get : Code Kernel
get k = ok k k

abbrev pub proc_of : ℕ → Code Proc
proc_of p k = ok (k.procs p) k

-- Change one process, and write one message.
abbrev pub modify : ℕ → (Proc → Proc) → Code (Unit {0})
modify p f k = ok tt (record k { procs = update k.procs p (f (k.procs p)) })

abbrev pub store : ℕ → Message → Code (Unit {0})
store la m k = ok tt (record k { mem = update k.mem la m })

-- `ldt_seg_linear` for the data segment
unfoldable pub ldt_seg_linear : Descriptor → ℕ
ldt_seg_linear d = bit_or (bit_or (d.base_high * 2 ^ 24) (d.base_mid * 2 ^ 16)) d.base_low

-- `va2la`: the segments of the tasks and of the native processes begin at 0.
unfoldable pub va2la : ℕ → ℕ → Code ℕ
va2la pid va k =
    let la = (ldt_seg_linear (k.procs pid).ldt_rw + va) % 2 ^ 32 in
    if ltb pid (nr_tasks + nr_native_procs) then (if la == va then ok la k else halted) else ok la k
