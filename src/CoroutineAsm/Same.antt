-- ===== src/CoroutineAsm/Same.antt =====
-- cpp/cppcoro/02.coroutine_asm.cpp does what cpp/cppcoro/01.coroutine_ucontext.cpp does.
use code_study_example.CoroutineAsm.{
  AsmScheduler, AsmOutcome, asm_finished, asm_crashed, asm_out_of_fuel, switch_to_main, asm_yield,
  asm_entry_end, asm_current, asm_run_func, asm_coroutine_entry, asm_switch_to, asm_fake_stack,
  asm_resume, asm_resume_by_state, asm_schedule,
}
use code_study_example.Coroutine.{
  Func, return, print, yields, Ctx, unset, entry, inside, Coroutine, State, ready, running, suspend,
  dead, Scheduler, Outcome, finished, crashed, out_of_fuel, lookup, yield, suspend_current,
  entry_end, current, run_func, coroutine_entry, swap_to, fake_stack, resume, resume_by_state,
  schedule, scheduler_id,
}
use code_study_example.Shared.{
  ℕ, ◌≡◌, refl, ◌==◌, Bool, true, false, Option, none, some, [], ◌∷◌, ◌++◌, Bool-cases,
  Option-cases, inl, inr,
}

-- The scheduler without `main_ctx`.
abbrev pub without_main : AsmScheduler → Scheduler
without_main s = record {
  coroutines = s.coroutines;
  running_id = s.running_id;
  alloc_id = s.alloc_id;
  out = s.out;
}

abbrev state_of : Option AsmScheduler → Option Scheduler
state_of none = none
state_of (some s) = some (without_main s)

entry_end-same :
    (owner : ℕ) (s : AsmScheduler)
    → s.main_ctx ≡ true
    → state_of (asm_entry_end owner s) ≡ entry_end owner (without_main s)
unfolding asm_entry_end entry_end switch_to_main
entry_end-same owner s m = elim (Option-cases (lookup owner s.coroutines)) [
  | inl e ↦ rw (e) refl
  | inr (c, e) ↦ rw (e, m) refl
]

run_func-same :
    (owner : ℕ) (f : Func) (s : AsmScheduler)
    → s.main_ctx ≡ true
    → state_of (asm_run_func owner f s) ≡ run_func owner f (without_main s)
unfolding asm_run_func run_func asm_current current asm_yield yield suspend_current switch_to_main
run_func-same owner return s m = entry_end-same owner s m
run_func-same owner (print n f) s m =
    run_func-same owner f (record s { out = s.out ++ (s.running_id, n) ∷ [] }) m
run_func-same owner (yields f) s m = elim (Bool-cases (s.running_id == scheduler_id)) [
  | inl e ↦ rw e (run_func-same owner f s m)
  | inr e ↦ elim (Option-cases (lookup s.running_id s.coroutines)) [
    | inl l ↦ rw (e, l) refl
    | inr (c, l) ↦ rw (e, l, m) refl
  ]
]

entry-same :
    (s : AsmScheduler)
    → s.main_ctx ≡ true
    → state_of (asm_coroutine_entry s) ≡ coroutine_entry (without_main s)
unfolding asm_coroutine_entry coroutine_entry
entry-same s m = elim (Option-cases (lookup s.running_id s.coroutines)) [
  | inl l ↦ rw l refl
  | inr (c, l) ↦ rw l (run_func-same s.running_id c.func s m)
]

switch-same :
    (x : Ctx) (s : AsmScheduler) → state_of (asm_switch_to x s) ≡ swap_to x (without_main s)
unfolding asm_switch_to swap_to
switch-same unset s = refl
switch-same entry s = entry-same (record s { main_ctx = true }) refl
switch-same (inside owner rest) s = run_func-same owner rest (record s { main_ctx = true }) refl

resume_by-same :
    (id : ℕ) (c : Coroutine) (t : State) (s : AsmScheduler)
    → state_of (asm_resume_by_state t id c s) ≡ resume_by_state t id c (without_main s)
unfolding asm_fake_stack fake_stack
resume_by-same id c ready s = switch-same entry _
resume_by-same id c suspend s = switch-same c.ctx _
resume_by-same id c running s = refl
resume_by-same id c dead s = refl

-- `co::resume` of the two libraries does the same to the same coroutines, whatever the state: it
-- ends in the same state, or follows a null pointer or enters an unset context in both.
pub resume-same :
    (id : ℕ) (s : AsmScheduler) → state_of (asm_resume id s) ≡ resume id (without_main s)
unfolding asm_resume resume
resume-same id s = elim (Option-cases (lookup id s.coroutines)) [
  | inl l ↦ rw l refl
  | inr (c, l) ↦ rw l (resume_by-same id c c.state s)
]

abbrev round_of : Option (Bool × AsmScheduler) → Option (Bool × Scheduler)
round_of none = none
round_of (some (b, s)) = some (b, without_main s)

abbrev pub outcome_of : AsmOutcome → Outcome
outcome_of (asm_finished s) = finished (without_main s)
outcome_of asm_crashed = crashed
outcome_of asm_out_of_fuel = out_of_fuel

-- What `schedule` does after a round.
abbrev asm_after : ℕ → Option (Bool × AsmScheduler) → AsmOutcome
asm_after f none = asm_crashed
asm_after f (some (true, s)) = asm_schedule f s
asm_after f (some (false, s)) = asm_finished s

abbrev after : ℕ → Option (Bool × Scheduler) → Outcome
after f none = crashed
after f (some (true, s)) = schedule f s
after f (some (false, s)) = finished s
