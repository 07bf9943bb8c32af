-- ===== src/ContextSwitch/Arm64/Resume.antt =====
-- What a switch saves and what a later switch back finds again, on ARM64.
use code_study_example.ContextSwitch.Memory.{
  store_words, load_words, load-store_words, load-store_disjoint, load_words_cong,
}
use code_study_example.ContextSwitch.Arm64.{
  x0, x1, lr, Cpu, kept, run, context_switch, fake_stack, Context, words, fp, sp, stack_size,
}
use code_study_example.Shared.{ℕ, ◌+◌, ◌≤◌, ◌≡◌, refl, ◌∙◌, ◌⊎◌, arith, ◌<◌, ◌%◌}

-- The two `Context` objects, of 13 words each, do not overlap.
abbrev pub Apart : ℕ → ℕ → Type 0
Apart a b = (a + 104 ≤ b) ⊎ (b + 104 ≤ a)

switch-mem : (c : Cpu) → (run context_switch c).mem ≡ store_words (c.regs x0) 0 (kept c.regs) c.mem
unfolding run context_switch store_words
switch-mem c = refl

switch-kept :
    (c : Cpu)
    → kept (run context_switch c).regs ≡ load_words 13 (c.regs x1) 0 (run context_switch c).mem
unfolding run context_switch load_words
switch-kept c = refl

switch-pc : (c : Cpu) → (run context_switch c).pc ≡ (run context_switch c).regs lr
unfolding run context_switch
switch-pc c = refl

-- What the switch wrote is the register set that it found.
switch_saves : (c : Cpu) → load_words 13 (c.regs x0) 0 (run context_switch c).mem ≡ kept c.regs
switch_saves c = rw (switch-mem c) (load-store_words (c.regs x0) 0 (kept c.regs) c.mem)

-- What it read is what lay at `to` before, if the two contexts are apart.
switch_loads :
    (c : Cpu)
    → Apart (c.regs x0) (c.regs x1)
    → kept (run context_switch c).regs ≡ load_words 13 (c.regs x1) 0 c.mem
switch_loads c h =
    switch-kept c
    ∙ rw (switch-mem c)
        (load-store_disjoint (c.regs x0) (c.regs x1) 13 0 (kept c.regs) c.mem (omega arith))

-- A routine that switches away and is switched back to, with its saved context untouched in
-- between, goes on at its own return address with every register that a callee must keep, the
-- frame pointer, the link register and the stack pointer as it left them.
pub resume_restores :
    (c e : Cpu)
    → e.regs x1 ≡ c.regs x0
    → Apart (e.regs x0) (c.regs x0)
    → ((p : ℕ) → c.regs x0 ≤ p → p < c.regs x0 + 104 → e.mem p ≡ (run context_switch c).mem p)
    → (kept (run context_switch e).regs ≡ kept c.regs) × ((run context_switch e).pc ≡ c.regs lr)
resume_restores c e back apart untouched = (same, switch-pc e ∙ ground (arith, same))
  where
    same : kept (run context_switch e).regs ≡ kept c.regs
    same =
        switch_loads e (rw back apart)
        ∙ rw back (
            load_words_cong (c.regs x0) 13 0 e.mem (run context_switch c).mem
              (λ p l u. untouched p (omega arith) (omega arith)))
        ∙ switch_saves c

-- The first switch to a context that `fake_stack` prepared enters `coroutine_entry` with a null
-- frame pointer and a stack pointer that is a multiple of 16 and lies in the top 16 bytes of the
-- coroutine's own stack, or at its end.
pub fake_stack_enters :
    (c : Cpu) (ctx : Context) (entry stack : ℕ)
    → Apart (c.regs x0) (c.regs x1)
    → load_words 13 (c.regs x1) 0 c.mem ≡ words (fake_stack entry stack ctx)
    → let d = run context_switch c in
      (d.pc ≡ entry)
      × (d.regs fp ≡ 0)
      × (d.regs sp % 16 ≡ 0)
      × (stack + stack_size < d.regs sp + 16)
      × (d.regs sp ≤ stack + stack_size)
unfolding fake_stack
fake_stack_enters c ctx entry stack apart prepared =
    ground (arith, switch-pc c, switch_loads c apart ∙ prepared)
