-- ===== src/CoroutineAsm/Examples.antt =====
-- The demo of cpp/cppcoro/02.coroutine_asm.cpp.
use code_study_example.CoroutineAsm.{AsmScheduler, new_asm_scheduler, asm_create}
use code_study_example.Coroutine.Tasks.{task_a, task_b}

-- The two tasks of `main`.
abbrev two_tasks : AsmScheduler
two_tasks = (asm_create task_b (asm_create task_a new_asm_scheduler).1).1
