-- ===== src/ContextSwitch/X86.antt =====
-- The x86-64 half of cpp/cppcoro/context_switch.h, and `fake_stack` of
-- cpp/cppcoro/02.coroutine_asm.cpp for that machine.
pub mod Resume
use code_study_example.ContextSwitch.Memory.{Memory, store}
use code_study_example.Shared.{ℕ, ◌+◌, ◌-◌, ◌%◌, List, [], ◌∷◌, ◌==◌, if◌then◌else◌}

-- The registers that the routine names.
pub data Reg : Type 0 where
  rax rbx rbp rsp rdi rsi r12 r13 r14 r15 : Reg

abbrev pub reg_no : Reg → ℕ
reg_no rax = 0
reg_no rbx = 3
reg_no rsp = 4
reg_no rbp = 5
reg_no rsi = 6
reg_no rdi = 7
reg_no r12 = 12
reg_no r13 = 13
reg_no r14 = 14
reg_no r15 = 15

pub record Cpu : Type 0 where
  pub regs : Reg → ℕ
  pub mem : Memory
  pub rip : ℕ

abbrev pub set_reg : Reg → ℕ → (Reg → ℕ) → Reg → ℕ
set_reg r v f q = if reg_no q == reg_no r then v else f q

-- `movq %a, off(%base)`, `movq off(%base), %a` and `jmpq *%a`.
pub data Instr : Type 0 where
  movq_to : Reg → ℕ → Reg → Instr
  movq_from : ℕ → Reg → Reg → Instr
  jmpq : Reg → Instr

unfoldable pub exec : Instr → Cpu → Cpu
unfolding store
exec (movq_to a off base) c = record c { mem = store (c.regs base + off) (c.regs a) c.mem }
exec (movq_from off base a) c = record c { regs = set_reg a (c.mem (c.regs base + off)) c.regs }
exec (jmpq a) c = record c { rip = c.regs a }

unfoldable pub run : List Instr → Cpu → Cpu
unfolding exec
run [] c = c
run (i ∷ is) c = run is (exec i c)

unfoldable pub context_switch : List Instr
context_switch =
    movq_to rbx 0 rdi
    ∷ movq_to rbp 8 rdi
    ∷ movq_to r12 16 rdi
    ∷ movq_to r13 24 rdi
    ∷ movq_to r14 32 rdi
    ∷ movq_to r15 40 rdi
    ∷ movq_to rsp 48 rdi
    ∷ movq_from 0 rsp rax
    ∷ movq_to rax 56 rdi
    ∷ movq_from 0 rsi rbx
    ∷ movq_from 8 rsi rbp
    ∷ movq_from 16 rsi r12
    ∷ movq_from 24 rsi r13
    ∷ movq_from 32 rsi r14
    ∷ movq_from 40 rsi r15
    ∷ movq_from 48 rsi rsp
    ∷ movq_from 56 rsi rax
    ∷ jmpq rax
    ∷ []

-- `struct Context`, in the order in which its fields lie in memory.
pub record Context : Type 0 where
  pub rbx : ℕ
  pub rbp : ℕ
  pub r12 : ℕ
  pub r13 : ℕ
  pub r14 : ℕ
  pub r15 : ℕ
  pub rsp : ℕ
  pub rip : ℕ

abbrev pub words : Context → List ℕ
words c = c.rbx ∷ c.rbp ∷ c.r12 ∷ c.r13 ∷ c.r14 ∷ c.r15 ∷ c.rsp ∷ c.rip ∷ []

-- What the routine saves of the register set `r` with the return address `ret`.
abbrev pub saved : (Reg → ℕ) → ℕ → List ℕ
saved r ret = r rbx ∷ r rbp ∷ r r12 ∷ r r13 ∷ r r14 ∷ r r15 ∷ r rsp ∷ ret ∷ []

abbrev pub stack_size : ℕ
stack_size = 65536

-- `coroutine_entry` is the address of that function; `& ~0xFULL` clears the low four bits.
unfoldable pub fake_stack : (coroutine_entry stack : ℕ) → Context → Context
fake_stack coroutine_entry stack c =
    let stack_top = stack + stack_size in
    let aligned_top = stack_top - stack_top % 16 in
    record c { rsp = aligned_top - 8; rip = coroutine_entry; rbp = 0 }

-- The `call` instruction with the return address `ret`: it pushes the address.
unfoldable pub call : (ret : ℕ) → Cpu → Cpu
unfolding store
call ret c = record c {
  regs = set_reg rsp (c.regs rsp - 8) c.regs;
  mem = store (c.regs rsp - 8) ret c.mem;
}
