-- ===== src/Coroutine/Examples.antt =====
-- Runs of the coroutine library of cpp/cppcoro/01.coroutine_ucontext.cpp.
use code_study_example.Coroutine.{
  Func, return, print, yields, Coroutine, Scheduler, new_scheduler, create, new_coroutine, lookup,
  insert, resume, schedule, Outcome, finished, State, dead,
}
use code_study_example.Coroutine.Invariant.{Inv, create_fresh, new_scheduler-Inv, lines}
use code_study_example.Coroutine.Schedule.{AllRun, schedule_runs_all}
use code_study_example.Coroutine.Work.{work}
use code_study_example.Coroutine.Resume.{resume_one}
use code_study_example.Coroutine.Tasks.{task_a, task_b, created, run_main}
use code_study_example.Shared.{ℕ, ◌≡◌, ◌≢◌, refl, some, [], ◌∷◌, arith, List, ◌≤◌, take}

abbrev first : Scheduler
first = (create task_a new_scheduler).1

first-Inv : Inv first
unfolding create
first-Inv = (create_fresh task_a new_scheduler new_scheduler-Inv (omega arith)).2

created-Inv : Inv created
unfolding created create
created-Inv = (create_fresh task_b first first-Inv (omega arith)).2

created-work : (j : ℕ) (c : Coroutine) → lookup j created.coroutines ≡ some c → work c ≤ 21
unfolding created create new_coroutine insert lookup task_a task_b
created-work j c e = ground arith

-- The program's own two tasks.
schedule_runs_all_example : (t : Scheduler) × (schedule 22 created ≡ finished t) × AllRun created t
schedule_runs_all_example = schedule_runs_all 21 created created-Inv created-work

resume_one_example :
    (t : Scheduler) × (resume 1 created ≡ some t)
    × Inv t
    × ((j : ℕ)
        → 1 ≢ j
        → (lookup j t.coroutines ≡ lookup j created.coroutines)
          × (lines j t.out ≡ lines j created.out))
    × (State.ready ≡ dead → t ≡ created)
unfolding created create new_coroutine insert lookup
resume_one_example = resume_one 1 (new_coroutine 1 task_a) created created-Inv refl

-- 4294967294 coroutines later.
abbrev worn : Scheduler
worn = record { coroutines = []; running_id = 0; alloc_id = 4294967295; out = [] }

abbrev chatty : Func
chatty = print 7 (yields (print 8 return))

-- The first lines of the program: the two tasks take turns.
abbrev out_of : Outcome → List (ℕ × ℕ)
out_of (finished s) = s.out
out_of _ = []

abbrev first_lines : ℕ → List (ℕ × ℕ) → List (ℕ × ℕ)
first_lines = take

turns_taken :
    first_lines 6 (out_of (run_main 22))
    ≡ (1, 10000) ∷ (2, 40000) ∷ (1, 20000) ∷ (2, 40101) ∷ (1, 10100) ∷ (2, 40203) ∷ []
unfolding run_main
turns_taken = refl
