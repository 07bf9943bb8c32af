-- ===== src/Coroutine.antt =====
-- The coroutine library of cpp/cppcoro/01.coroutine_ucontext.cpp. A null pointer that is followed is
-- `none`. What `swapcontext` saves on a coroutine's stack is the local `c` of `coroutine_entry` and
-- the rest of the coroutine's function; printed lines go to `out`, with the number that
-- `co::current` gives.
pub mod Segment
pub mod Invariant
pub mod Work
pub mod Round
pub mod Schedule
pub mod Resume
pub mod Tasks
mod Examples
use code_study_example.Shared.{
  ℕ, zero, suc, ◌+◌, ◌%◌, ◌^◌, Bool, true, false, Option, none, some, List, [], ◌∷◌, ◌++◌, ◌==◌,
  if◌then◌else◌, ◌>>=◌,
}

abbrev pub scheduler_id : ℕ
scheduler_id = 0

pub data State : Type 0 where
  ready running suspend dead : State

-- The function of a coroutine, as far as the library sees it: lines that it prints and its calls of
-- `co::yield`, up to its return.
pub data Func : Type 0 where
  return : Func
  print : ℕ → Func → Func
  yields : Func → Func

-- `ucontext_t ctx`: not set, set by `fake_stack` to enter `coroutine_entry`, or saved in a call of
-- `co::yield`, with the variable `c` of `coroutine_entry` and what the function has still to do.
pub data Ctx : Type 0 where
  unset : Ctx
  entry : Ctx
  inside : ℕ → Func → Ctx

pub record Coroutine : Type 0 where
  pub id : ℕ
  pub ctx : Ctx
  pub func : Func
  pub state : State

-- `unordered_map`: the order of the list is the order in which a loop visits the entries.
pub lookup : ℕ → List (ℕ × Coroutine) → Option Coroutine
lookup k [] = none
lookup k ((j, c) ∷ m) = if j == k then some c else lookup k m

pub insert : ℕ → Coroutine → List (ℕ × Coroutine) → List (ℕ × Coroutine)
insert k c [] = (k, c) ∷ []
insert k c ((j, d) ∷ m) = if j == k then (k, c) ∷ m else (j, d) ∷ insert k c m

pub record Scheduler : Type 0 where
  pub coroutines : List (ℕ × Coroutine)
  pub running_id : ℕ
  pub alloc_id : ℕ
  pub out : List (ℕ × ℕ)

abbrev pub new_scheduler : Scheduler
new_scheduler = record { coroutines = []; running_id = scheduler_id; alloc_id = 1; out = [] }

pub new_coroutine : ℕ → Func → Coroutine
new_coroutine id f = record { id = id; ctx = unset; func = f; state = ready }

pub create : Func → Scheduler → ℕ × Scheduler
unfolding new_coroutine insert
create f s =
    let id = s.alloc_id in
    (
      id,
      record s {
        alloc_id = (id + 1) % 2 ^ 32;
        coroutines = insert id (new_coroutine id f) s.coroutines;
      },
    )

unfoldable pub current : Scheduler → ℕ
current s = s.running_id

-- Where a call of `co::yield` leaves the control: with its caller, or with the scheduler.
pub data Control : Type 0 where
  returned : Scheduler → Control
  switched : Scheduler → Control

-- The part of `co::yield` behind its test.
unfoldable pub suspend_current : ℕ → Func → Scheduler → Option Scheduler
unfolding lookup insert
suspend_current owner rest s = do
  c ← lookup s.running_id s.coroutines
  some (record s {
    coroutines =
        insert s.running_id (record c { state = suspend; ctx = inside owner rest }) s.coroutines;
    running_id = scheduler_id;
  })

unfoldable pub yield : ℕ → Func → Scheduler → Option Control
unfolding suspend_current
yield owner rest s =
    if s.running_id == scheduler_id
    then some (returned s)
    else (suspend_current owner rest s >>= λ s'. some (switched s'))

-- `coroutine_entry` once the function has returned; control goes on at `uc_link`, the scheduler.
unfoldable pub entry_end : ℕ → Scheduler → Option Scheduler
unfolding lookup insert
entry_end owner s = do
  c ← lookup owner s.coroutines
  some (record s {
    coroutines = insert owner (record c { state = dead }) s.coroutines;
    running_id = scheduler_id;
  })

-- The function runs until control is back with the scheduler.
unfoldable pub run_func : ℕ → Func → Scheduler → Option Scheduler
unfolding yield entry_end current
run_func owner return s = entry_end owner s
run_func owner (print n f) s = run_func owner f (record s { out = s.out ++ (current s, n) ∷ [] })
run_func owner (yields f) s =
    yield owner f s >>= λ c. elim c [ returned s' ↦ run_func owner f s' | switched s' ↦ some s' ]

unfoldable pub coroutine_entry : Scheduler → Option Scheduler
unfolding run_func lookup
coroutine_entry s = do c ← lookup s.running_id s.coroutines; run_func s.running_id c.func s

-- `swapcontext(&g_sched.main_ctx, &c->ctx)`
unfoldable pub swap_to : Ctx → Scheduler → Option Scheduler
unfolding run_func coroutine_entry
swap_to unset s = none
swap_to entry s = coroutine_entry s
swap_to (inside owner rest) s = run_func owner rest s

unfoldable pub fake_stack : Coroutine → Coroutine
fake_stack c = record c { ctx = entry }

abbrev switch_into : ℕ → Coroutine → Scheduler → Option Scheduler
switch_into id c s = swap_to c.ctx (record s {
  coroutines = insert id (record c { state = running }) s.coroutines;
  running_id = id;
})

abbrev pub resume_by_state : State → ℕ → Coroutine → Scheduler → Option Scheduler
resume_by_state ready id c s = switch_into id (fake_stack c) s
resume_by_state suspend id c s = switch_into id c s
resume_by_state running id c s = some s
resume_by_state dead id c s = some s

unfoldable pub resume : ℕ → Scheduler → Option Scheduler
unfolding lookup insert swap_to fake_stack
resume id s = do c ← lookup id s.coroutines; resume_by_state c.state id c s

abbrev pub is_dead : State → Bool
is_dead dead = true
is_dead _ = false

-- One round of the loop in `schedule`; the Boolean is `active`.
unfoldable pub pass : List (ℕ × Coroutine) → Scheduler → Option (Bool × Scheduler)
unfolding lookup resume
pass [] s = some (false, s)
pass ((id, _) ∷ rest) s = do
  c ← lookup id s.coroutines
  let live = do s' ← resume id s; (_, s'') ← pass rest s'; some (true, s'')
  let skip = pass rest s
  if is_dead c.state then skip else live

pub data Outcome : Type 0 where
  finished : Scheduler → Outcome
  crashed : Outcome
  out_of_fuel : Outcome

-- `while (true)` in `schedule`, for at most so many rounds.
unfoldable pub schedule : ℕ → Scheduler → Outcome
unfolding pass
schedule zero s = out_of_fuel
schedule (suc f) s = elim (pass s.coroutines s) [
  | none ↦ crashed
  | some (active, s') ↦ let again = schedule f s' in if active then again else finished s'
]
