-- ===== src/ContextSwitch/Examples/X86Runs.antt =====
-- The x86-64 routine of cpp/cppcoro/context_switch.h at concrete addresses.
use code_study_example.ContextSwitch.X86.{
  rbx, rbp, rsp, rdi, rsi, r12, r13, r14, r15, reg_no, set_reg, Cpu, Context, words, run,
  context_switch, fake_stack, call,
}
use code_study_example.ContextSwitch.X86.Resume.{resume_loses_8_bytes}
use code_study_example.ContextSwitch.Memory.{store_words}
use code_study_example.Shared.{◌+◌, ◌*◌, ◌%◌, ◌≡◌, refl, inl, inr, arith}

-- The caller of the switch: its context lies at 1000, the other one at 2000, its stack at 9000.
abbrev caller_cpu : Cpu
caller_cpu = record {
  regs = set_reg rsp 9000 (set_reg rdi 1000 (set_reg rsi 2000 (λ r. 100 * reg_no r)));
  mem = λ p. p % 7;
  rip = 5;
}

-- The other side, about to switch back.
abbrev other_cpu : Cpu
other_cpu = record {
  regs = set_reg rsp 7000 (set_reg rdi 2000 (set_reg rsi 1000 (λ r. 3 * reg_no r)));
  mem = (run context_switch (call 55 caller_cpu)).mem;
  rip = 9;
}

abbrev fresh_context : Context
fresh_context = record { rbx = 0; rbp = 0; r12 = 0; r13 = 0; r14 = 0; r15 = 0; rsp = 0; rip = 0 }

abbrev starting_cpu : Cpu
starting_cpu = record caller_cpu {
  mem = store_words 2000 0 (words (fake_stack 77 4099 fresh_context)) (λ p. 0);
}

resume_loses_8_bytes_example :
    let f = run context_switch other_cpu in
    (f.rip ≡ 55)
    × (f.regs rbx ≡ 300)
    × (f.regs rbp ≡ 500)
    × (f.regs r12 ≡ 1200)
    × (f.regs r13 ≡ 1300)
    × (f.regs r14 ≡ 1400)
    × (f.regs r15 ≡ 1500)
    × (f.regs rsp + 8 ≡ 9000)
resume_loses_8_bytes_example =
    resume_loses_8_bytes caller_cpu other_cpu 55 (omega arith) (inl (omega arith)) refl
      (inl (omega arith)) (inr (omega arith)) (λ p l u. refl)
