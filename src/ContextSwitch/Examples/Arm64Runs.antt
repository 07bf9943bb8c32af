-- ===== src/ContextSwitch/Examples/Arm64Runs.antt =====
-- The ARM64 routine of cpp/cppcoro/context_switch.h at concrete addresses.
use code_study_example.ContextSwitch.Arm64.{
  x0, x1, lr, sp, reg_no, set_reg, Cpu, Context, words, kept, run, context_switch, fake_stack,
}
use code_study_example.ContextSwitch.Arm64.Resume.{resume_restores}
use code_study_example.ContextSwitch.Memory.{store_words}
use code_study_example.Shared.{◌*◌, ◌%◌, ◌≡◌, refl, inr, arith}

-- The scheduler's context lies at 1000, the coroutine's at 2000.
abbrev scheduler_cpu : Cpu
scheduler_cpu = record {
  regs = set_reg x0 1000 (set_reg x1 2000 (λ r. 100 * reg_no r));
  mem = λ p. p % 7;
  pc = 5;
}

-- The coroutine's code, about to switch back.
abbrev coroutine_cpu : Cpu
coroutine_cpu = record {
  regs = set_reg x0 2000 (set_reg x1 1000 (λ r. 3 * reg_no r));
  mem = (run context_switch scheduler_cpu).mem;
  pc = 9;
}

abbrev fresh_context : Context
fresh_context = record {
  x19 = 0;
  x20 = 0;
  x21 = 0;
  x22 = 0;
  x23 = 0;
  x24 = 0;
  x25 = 0;
  x26 = 0;
  x27 = 0;
  x28 = 0;
  fp = 0;
  lr = 0;
  sp = 0;
}

abbrev starting_cpu : Cpu
starting_cpu = record scheduler_cpu {
  mem = store_words 2000 0 (words (fake_stack 77 4099 fresh_context)) (λ p. 0);
}

resume_restores_example :
    (kept (run context_switch coroutine_cpu).regs ≡ kept scheduler_cpu.regs)
    × ((run context_switch coroutine_cpu).pc ≡ scheduler_cpu.regs lr)
resume_restores_example =
    resume_restores scheduler_cpu coroutine_cpu refl (inr (omega arith)) (λ p l u. refl)

-- The first switch of the example loads the stack pointer that was prepared.
entered_stack : (run context_switch starting_cpu).regs sp ≡ 69632
unfolding run context_switch store_words fake_stack
entered_stack = refl
