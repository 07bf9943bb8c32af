-- ===== src/CoroutineAsm.antt =====
-- The coroutine library of cpp/cppcoro/02.coroutine_asm.cpp, over `context_switch`. Its coroutines
-- are those of the library on ucontext, but for the field `ctx`, which holds registers there; what
-- they amount to is the same three cases. `main_ctx` is zero until a switch saves it.
pub mod Same
pub mod Examples
use code_study_example.Coroutine.{
  Func, return, print, yields, Ctx, unset, entry, inside, Coroutine, State, ready, running, suspend,
  dead, lookup, insert, new_coroutine, scheduler_id, is_dead,
}
use code_study_example.Shared.{
  ℕ, zero, suc, ◌+◌, ◌%◌, ◌^◌, Bool, true, false, Option, none, some, List, [], ◌∷◌, ◌++◌, ◌==◌,
  if◌then◌else◌, ◌>>=◌,
}

pub record AsmScheduler : Type 0 where
  pub main_ctx : Bool  -- whether it was saved
  pub coroutines : List (ℕ × Coroutine)
  pub running_id : ℕ
  pub alloc_id : ℕ
  pub out : List (ℕ × ℕ)

abbrev pub new_asm_scheduler : AsmScheduler
new_asm_scheduler = record {
  main_ctx = false;
  coroutines = [];
  running_id = scheduler_id;
  alloc_id = 1;
  out = [];
}

pub asm_create : Func → AsmScheduler → ℕ × AsmScheduler
asm_create f s =
    let id = s.alloc_id in
    (
      id,
      record s {
        alloc_id = (id + 1) % 2 ^ 32;
        coroutines = insert id (new_coroutine id f) s.coroutines;
      },
    )

pub asm_current : AsmScheduler → ℕ
asm_current s = s.running_id

-- A switch to `g_sched.main_ctx`; registers that were never saved lead nowhere.
pub switch_to_main : AsmScheduler → Option AsmScheduler
switch_to_main s = if s.main_ctx then some s else none

pub data AsmControl : Type 0 where
  stayed : AsmScheduler → AsmControl
  left : AsmScheduler → AsmControl

pub asm_yield : ℕ → Func → AsmScheduler → Option AsmControl
unfolding switch_to_main
asm_yield owner rest s = if s.running_id == scheduler_id then some (stayed s) else (do
  c ← lookup s.running_id s.coroutines
  s' ← switch_to_main (record s {
    coroutines =
        insert s.running_id (record c { state = suspend; ctx = inside owner rest }) s.coroutines;
    running_id = scheduler_id;
  })
  some (left s'))

-- `coroutine_entry` once the function has returned.
pub asm_entry_end : ℕ → AsmScheduler → Option AsmScheduler
unfolding switch_to_main
asm_entry_end owner s = do
  c ← lookup owner s.coroutines
  switch_to_main (record s {
    coroutines = insert owner (record c { state = dead }) s.coroutines;
    running_id = scheduler_id;
  })

pub asm_run_func : ℕ → Func → AsmScheduler → Option AsmScheduler
unfolding asm_yield asm_entry_end asm_current
asm_run_func owner return s = asm_entry_end owner s
asm_run_func owner (print n f) s =
    asm_run_func owner f (record s { out = s.out ++ (asm_current s, n) ∷ [] })
asm_run_func owner (yields f) s =
    asm_yield owner f s >>= λ c. elim c [ stayed s' ↦ asm_run_func owner f s' | left s' ↦ some s' ]

pub asm_coroutine_entry : AsmScheduler → Option AsmScheduler
unfolding asm_run_func
asm_coroutine_entry s = do c ← lookup s.running_id s.coroutines; asm_run_func s.running_id c.func s

-- `context_switch(&g_sched.main_ctx, &c->ctx)`, the save of `main_ctx` first.
pub asm_switch_to : Ctx → AsmScheduler → Option AsmScheduler
unfolding asm_run_func asm_coroutine_entry
asm_switch_to unset s = none
asm_switch_to entry s = asm_coroutine_entry (record s { main_ctx = true })
asm_switch_to (inside owner rest) s = asm_run_func owner rest (record s { main_ctx = true })

pub asm_fake_stack : Coroutine → Coroutine
asm_fake_stack c = record c { ctx = entry }

abbrev asm_switch_into : ℕ → Coroutine → AsmScheduler → Option AsmScheduler
asm_switch_into id c s = asm_switch_to c.ctx (record s {
  coroutines = insert id (record c { state = running }) s.coroutines;
  running_id = id;
})

abbrev asm_resume_by_state : State → ℕ → Coroutine → AsmScheduler → Option AsmScheduler
asm_resume_by_state ready id c s = asm_switch_into id (asm_fake_stack c) s
asm_resume_by_state suspend id c s = asm_switch_into id c s
asm_resume_by_state running id c s = some s
asm_resume_by_state dead id c s = some s

pub asm_resume : ℕ → AsmScheduler → Option AsmScheduler
unfolding asm_switch_to asm_fake_stack
asm_resume id s = do c ← lookup id s.coroutines; asm_resume_by_state c.state id c s

pub asm_pass : List (ℕ × Coroutine) → AsmScheduler → Option (Bool × AsmScheduler)
unfolding asm_resume
asm_pass [] s = some (false, s)
asm_pass ((id, _) ∷ rest) s = do
  c ← lookup id s.coroutines
  let live = do s' ← asm_resume id s; (_, s'') ← asm_pass rest s'; some (true, s'')
  let skip = asm_pass rest s
  if is_dead c.state then skip else live

pub data AsmOutcome : Type 0 where
  asm_finished : AsmScheduler → AsmOutcome
  asm_crashed : AsmOutcome
  asm_out_of_fuel : AsmOutcome

-- `while (true)` in `schedule`, for at most so many rounds.
pub asm_schedule : ℕ → AsmScheduler → AsmOutcome
unfolding asm_pass
asm_schedule zero s = asm_out_of_fuel
asm_schedule (suc f) s = elim (asm_pass s.coroutines s) [
  | none ↦ asm_crashed
  | some (active, s') ↦ let again = asm_schedule f s' in if active then again else asm_finished s'
]
