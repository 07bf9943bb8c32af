-- ===== src/ContextSwitch/X86/Resume.antt =====
-- What a switch saves and what a later switch back finds again, on x86-64.
use code_study_example.ContextSwitch.Memory.{
  store, store_words, load_words, load-store_words, load-store_disjoint, load_words_cong,
}
use code_study_example.ContextSwitch.X86.{
  rbx, rbp, rsp, rdi, rsi, r12, r13, r14, r15, Cpu, Context, words, saved, run, context_switch,
  stack_size, fake_stack, call,
}
use code_study_example.Shared.{ℕ, ◌+◌, ◌-◌, ◌%◌, ◌≤◌, ◌<◌, ◌≡◌, refl, ◌∙◌, ◌⊎◌, arith}

-- The two `Context` objects, of 8 words each, do not overlap.
abbrev pub Apart : ℕ → ℕ → Type 0
Apart a b = (a + 64 ≤ b) ⊎ (b + 64 ≤ a)

-- A context does not overlap the word at the address `p`.
abbrev pub Clear : ℕ → ℕ → Type 0
Clear a p = (a + 64 ≤ p) ⊎ (p + 8 ≤ a)

-- The first seven stores leave the word on top of the stack alone.
return_word :
    (c : Cpu)
    → Clear (c.regs rdi) (c.regs rsp)
    → store
        (c.regs rdi + 48)
        (c.regs rsp)
        (store (c.regs rdi + 40) (c.regs r15) (
          store (c.regs rdi + 32) (c.regs r14) (
            store (c.regs rdi + 24) (c.regs r13) (
              store (c.regs rdi + 16) (c.regs r12) (
                store (c.regs rdi + 8) (c.regs rbp) (store (c.regs rdi + 0) (c.regs rbx) c.mem))))))
        (c.regs rsp + 0)
      ≡ c.mem (c.regs rsp)
unfolding store
return_word c h = ground arith

switch-mem :
    (c : Cpu)
    → Clear (c.regs rdi) (c.regs rsp)
    → (run context_switch c).mem
      ≡ store_words (c.regs rdi) 0 (saved c.regs (c.mem (c.regs rsp))) c.mem
unfolding run context_switch store_words
switch-mem c h = rw (return_word c h)

switch-saved :
    (c : Cpu)
    → saved (run context_switch c).regs (run context_switch c).rip
      ≡ load_words 8 (c.regs rsi) 0 (run context_switch c).mem
unfolding run context_switch load_words
switch-saved c = refl

-- What the switch wrote is the register set that it found, with the return address.
switch_saves :
    (c : Cpu)
    → Clear (c.regs rdi) (c.regs rsp)
    → load_words 8 (c.regs rdi) 0 (run context_switch c).mem ≡ saved c.regs (c.mem (c.regs rsp))
switch_saves c h = rw (switch-mem c h) (load-store_words (c.regs rdi) 0 _ c.mem)

-- What it read is what lay at `to` before, if the two contexts are apart.
switch_loads :
    (c : Cpu)
    → Clear (c.regs rdi) (c.regs rsp)
    → Apart (c.regs rdi) (c.regs rsi)
    → saved (run context_switch c).regs (run context_switch c).rip
      ≡ load_words 8 (c.regs rsi) 0 c.mem
switch_loads c clear h =
    switch-saved c
    ∙ rw (switch-mem c clear) (
        load-store_disjoint (c.regs rdi) (c.regs rsi) 8 0 (saved c.regs (c.mem (c.regs rsp))) c.mem
          (omega arith))

-- A function that calls the switch is, once it has been switched back to with its saved context
-- untouched in between, at the return address of its call with the registers that a callee must
-- keep as they were. But the switch does not take that address off the stack: the stack pointer
-- stays 8 bytes below the value that it had before the call.
pub resume_loses_8_bytes :
    (c e : Cpu) (ret : ℕ)
    → 8 ≤ c.regs rsp
    → Clear (c.regs rdi) (c.regs rsp - 8)
    → e.regs rsi ≡ c.regs rdi
    → Clear (e.regs rdi) (e.regs rsp)
    → Apart (e.regs rdi) (c.regs rdi)
    → ((p : ℕ)
        → c.regs rdi ≤ p
        → p < c.regs rdi + 64
        → e.mem p ≡ (run context_switch (call ret c)).mem p)
    → let f = run context_switch e in
      (f.rip ≡ ret)
      × (f.regs rbx ≡ c.regs rbx)
      × (f.regs rbp ≡ c.regs rbp)
      × (f.regs r12 ≡ c.regs r12)
      × (f.regs r13 ≡ c.regs r13)
      × (f.regs r14 ≡ c.regs r14)
      × (f.regs r15 ≡ c.regs r15)
      × (f.regs rsp + 8 ≡ c.regs rsp)
unfolding call
resume_loses_8_bytes c e ret room clear back clear_e apart untouched = ground (arith, same)
  where
    same :
        saved (run context_switch e).regs (run context_switch e).rip ≡ saved (call ret c).regs ret
    same =
        switch_loads e clear_e (rw back apart)
        ∙ rw back (
            load_words_cong (c.regs rdi) 8 0 e.mem (run context_switch (call ret c)).mem
              (λ p l u. untouched p (omega arith) (omega arith)))
        ∙ switch_saves (call ret c) clear
        ∙ ground arith

-- The first switch to a context that `fake_stack` prepared enters `coroutine_entry` with a null
-- frame pointer and a stack pointer that lies in the coroutine's own stack, at most 23 bytes under
-- its end, and is 8 below a multiple of 16, as after a `call`.
pub fake_stack_enters_on_x86 :
    (c : Cpu) (ctx : Context) (entry stack : ℕ)
    → Clear (c.regs rdi) (c.regs rsp)
    → Apart (c.regs rdi) (c.regs rsi)
    → load_words 8 (c.regs rsi) 0 c.mem ≡ words (fake_stack entry stack ctx)
    → let d = run context_switch c in
      (d.rip ≡ entry)
      × (d.regs rbp ≡ 0)
      × ((d.regs rsp + 8) % 16 ≡ 0)
      × (stack + stack_size ≤ d.regs rsp + 23)
      × (d.regs rsp + 8 ≤ stack + stack_size)
unfolding fake_stack
fake_stack_enters_on_x86 c ctx entry stack clear apart prepared =
    ground (arith, switch_loads c clear apart ∙ prepared)
