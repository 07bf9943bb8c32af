-- ===== src/ThreadTool/Examples.antt =====
-- Runs of cpp/qt/thread/threadtool.h and ThreadCtl1.h.
use code_study_example.ThreadTool.{
  working, starting, returned, Pool, new_pool, starts, Run, here, then_step,
}
use code_study_example.ThreadTool.Deadlock.{test_never_returns}
use code_study_example.ThreadTool.Workers.{
  send_msg, start_work, start_thread, begins_work, message, working, WorkerThread, new_threads,
  start, start_threads, emit, on_start, on_work, recv_msg, timeout, loop_turn, timer_turn,
}
use code_study_example.ThreadTool.Signals.{
  Action, starts, emits, loops, ticks, acts, emitted, Serves,
}
use code_study_example.ThreadTool.Serving.{served_in_order}
use code_study_example.Shared.Texts.{codes}
use code_study_example.Shared.{
  ◌≡◌, ◌≢◌, refl, List, [], ◌∷◌, All, length, Option, none, some, Bool, true, arith,
}

abbrev one_started : Bool → Pool
one_started connected = record {
  connected = connected;
  main = starting 1;
  active = working 0 ∷ [];
  queue = 0;
}

starts_one : (connected : Bool) → Run connected (one_started connected)
unfolding new_pool
starts_one connected =
    then_step {s = new_pool connected} here (starts 0 refl (ground arith) (ground arith))

test_never_returns_example : (one_started true).main ≢ returned
test_never_returns_example = test_never_returns (one_started true) (starts_one true)

not_yet : starting 1 ≢ returned
not_yet e = ground arith

-- The signals of main.cpp, with a second interval; the thread 0 serves all, the others nothing yet.
abbrev hello_twice : List Action
hello_twice =
    emits (send_msg (codes "hello"))
    ∷ starts
    ∷ emits (start_work 1800)
    ∷ loops 0
    ∷ ticks 0
    ∷ loops 0
    ∷ emits (start_work 20)
    ∷ ticks 0
    ∷ loops 0
    ∷ []

served_in_order_example :
    (length (acts hello_twice new_threads) ≡ 10)
    × All (Serves (emitted hello_twice)) (acts hello_twice new_threads)
served_in_order_example = served_in_order hello_twice

abbrev first_of : List WorkerThread → Option WorkerThread
first_of [] = none
first_of (t ∷ _) = some t

first_worker :
    first_of (acts hello_twice new_threads)
    ≡ some (record {
      worker = record {
        id = 0;
        interval = some 1800;
        out = start_thread ∷ message (codes "hello") ∷ begins_work ∷ working ∷ begins_work ∷ [];
      };
      is_started = true;
      posted = [];
    })
unfolding new_threads start_threads start emit on_start on_work recv_msg timeout loop_turn
    timer_turn
first_worker = refl
