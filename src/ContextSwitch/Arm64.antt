-- ===== src/ContextSwitch/Arm64.antt =====
-- The ARM64 half of cpp/cppcoro/context_switch.h, and `fake_stack` of
-- cpp/cppcoro/02.coroutine_asm.cpp for that machine.
pub mod Resume
use code_study_example.ContextSwitch.Memory.{Memory, store, store_words, load_words}
use code_study_example.Shared.{ℕ, ◌+◌, ◌-◌, ◌*◌, ◌%◌, ◌≡◌, refl, List, [], ◌∷◌, ◌==◌, if◌then◌else◌}

-- The registers that the routine names.
pub data Reg : Type 0 where
  x0 x1 x2 x19 x20 x21 x22 x23 x24 x25 x26 x27 x28 fp lr sp : Reg

abbrev pub reg_no : Reg → ℕ
reg_no x0 = 0
reg_no x1 = 1
reg_no x2 = 2
reg_no x19 = 19
reg_no x20 = 20
reg_no x21 = 21
reg_no x22 = 22
reg_no x23 = 23
reg_no x24 = 24
reg_no x25 = 25
reg_no x26 = 26
reg_no x27 = 27
reg_no x28 = 28
reg_no fp = 29
reg_no lr = 30
reg_no sp = 31

pub record Cpu : Type 0 where
  pub regs : Reg → ℕ
  pub mem : Memory
  pub pc : ℕ

abbrev pub set_reg : Reg → ℕ → (Reg → ℕ) → Reg → ℕ
set_reg r v f q = if reg_no q == reg_no r then v else f q

-- `stp a, b, [base, #off]`, `ldp`, `str`, `ldr`, `mov` and `ret`.
pub data Instr : Type 0 where
  stp : Reg → Reg → Reg → ℕ → Instr
  ldp : Reg → Reg → Reg → ℕ → Instr
  str : Reg → Reg → ℕ → Instr
  ldr : Reg → Reg → ℕ → Instr
  mov : Reg → Reg → Instr
  ret : Instr

unfoldable pub exec : Instr → Cpu → Cpu
unfolding store
exec (stp a b base off) c = record c {
  mem = store (c.regs base + (off + 8)) (c.regs b) (store (c.regs base + off) (c.regs a) c.mem);
}
exec (ldp a b base off) c = record c {
  regs = set_reg b (c.mem (c.regs base + (off + 8))) (set_reg a (c.mem (c.regs base + off)) c.regs);
}
exec (str a base off) c = record c { mem = store (c.regs base + off) (c.regs a) c.mem }
exec (ldr a base off) c = record c { regs = set_reg a (c.mem (c.regs base + off)) c.regs }
exec (mov a b) c = record c { regs = set_reg a (c.regs b) c.regs }
exec ret c = record c { pc = c.regs lr }

unfoldable pub run : List Instr → Cpu → Cpu
unfolding exec
run [] c = c
run (i ∷ is) c = run is (exec i c)

unfoldable pub context_switch : List Instr
context_switch =
    stp x19 x20 x0 0
    ∷ stp x21 x22 x0 16
    ∷ stp x23 x24 x0 32
    ∷ stp x25 x26 x0 48
    ∷ stp x27 x28 x0 64
    ∷ stp fp lr x0 80
    ∷ mov x2 sp
    ∷ str x2 x0 96
    ∷ ldp x19 x20 x1 0
    ∷ ldp x21 x22 x1 16
    ∷ ldp x23 x24 x1 32
    ∷ ldp x25 x26 x1 48
    ∷ ldp x27 x28 x1 64
    ∷ ldp fp lr x1 80
    ∷ ldr x2 x1 96
    ∷ mov sp x2
    ∷ ret
    ∷ []

-- `struct Context`, in the order in which its fields lie in memory.
pub record Context : Type 0 where
  pub x19 : ℕ
  pub x20 : ℕ
  pub x21 : ℕ
  pub x22 : ℕ
  pub x23 : ℕ
  pub x24 : ℕ
  pub x25 : ℕ
  pub x26 : ℕ
  pub x27 : ℕ
  pub x28 : ℕ
  pub fp : ℕ
  pub lr : ℕ
  pub sp : ℕ

abbrev pub words : Context → List ℕ
words c =
    c.x19 ∷ c.x20 ∷ c.x21 ∷ c.x22 ∷ c.x23 ∷ c.x24 ∷ c.x25 ∷ c.x26 ∷ c.x27 ∷ c.x28 ∷ c.fp ∷ c.lr
    ∷ c.sp ∷ []

-- The registers that the calling convention asks a callee to keep, with the stack pointer.
abbrev pub kept : (Reg → ℕ) → List ℕ
kept r =
    r x19
    ∷ r x20
    ∷ r x21
    ∷ r x22
    ∷ r x23
    ∷ r x24
    ∷ r x25
    ∷ r x26
    ∷ r x27
    ∷ r x28
    ∷ r fp
    ∷ r lr
    ∷ r sp
    ∷ []

abbrev pub stack_size : ℕ
stack_size = 65536

-- `coroutine_entry` is the address of that function; `& ~0xFULL` clears the low four bits.
unfoldable pub fake_stack : (coroutine_entry stack : ℕ) → Context → Context
fake_stack coroutine_entry stack c =
    let stack_top = stack + stack_size in
    record c { sp = stack_top - stack_top % 16; lr = coroutine_entry; fp = 0 }
