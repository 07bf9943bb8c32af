-- ===== src/Coroutine/Tasks.antt =====
-- The two tasks and `main` of cpp/cppcoro/01.coroutine_ucontext.cpp.
use code_study_example.Coroutine.{
  Func, return, print, yields, Scheduler, new_scheduler, create, Outcome, schedule,
}
use code_study_example.Shared.{ℕ, zero, suc, ◌+◌, ◌*◌}

-- A printed line as a number: which `printf` it is, then `i` and `num` in two digits each.
abbrev pub line : ℕ → ℕ → ℕ → ℕ
line format i num = 10000 * format + 100 * i + num

-- The loop of `task_a` with so many rounds left.
unfoldable pub loop_a : ℕ → ℕ → Func
loop_a zero i = print (line 3 0 0) return
loop_a (suc k) i = print (line 1 i 0) (yields (print (line 2 i 0) (yields (loop_a k (i + 1)))))

unfoldable pub task_a : Func
unfolding loop_a
task_a = loop_a 10 0

-- The loop of `task_b` with so many rounds left.
unfoldable pub loop_b : ℕ → ℕ → ℕ → Func
loop_b zero i num = print (line 5 0 0) return
loop_b (suc k) i num = print (line 4 i (num + i)) (yields (loop_b k (i + 1) (num + i)))

unfoldable pub task_b : Func
unfolding loop_b
task_b = loop_b 10 0 0

-- The scheduler when `main` calls `co::schedule`.
unfoldable pub created : Scheduler
unfolding create task_a task_b
created = (create task_b (create task_a new_scheduler).1).1

-- The rest of `main`, with so many rounds for the loop in `co::schedule`.
unfoldable pub run_main : ℕ → Outcome
unfolding schedule created
run_main fuel = schedule fuel created
