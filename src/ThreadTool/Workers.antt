-- ===== src/ThreadTool/Workers.antt =====
-- `Worker` and `ThreadCtl1` of cpp/qt/thread/ThreadCtl1.h.
use code_study_example.Shared.Texts.{Text}
use code_study_example.Shared.{
  ℕ, zero, suc, List, [], ◌∷◌, ◌++◌, map, Bool, true, false, Option, none, some, if◌then◌else◌,
}

-- The two signals of `ThreadCtl1`.
pub data Signal : Type 0 where
  send_msg : Text → Signal
  start_work : ℕ → Signal

-- What a worker prints, behind its number.
pub data Print : Type 0 where
  start_thread : Print
  begins_work : Print
  message : Text → Print
  working : Print

-- `interval` is that of the timer while the timer is active. The constructor makes the timer, and
-- `initTimer` makes no second one.
pub record Worker : Type 0 where
  pub id : ℕ
  pub interval : Option ℕ
  pub out : List Print

unfoldable pub on_work : ℕ → Worker → Worker
on_work msec w = record w {
  interval = elim w.interval [ none ↦ some msec | some running ↦ some running ];
  out = w.out ++ begins_work ∷ [];
}

unfoldable pub on_start : Worker → Worker
on_start w = record w { out = w.out ++ start_thread ∷ [] }

unfoldable pub recv_msg : Text → Worker → Worker
recv_msg msg w = record w { out = w.out ++ message msg ∷ [] }

-- The timeout of the timer, which comes while it is active.
unfoldable pub timeout : Worker → Worker
timeout w = record w { out = elim w.interval [ none ↦ w.out | some _ ↦ w.out ++ working ∷ [] ] }

-- A thread with the worker that lives in it. A signal is emitted in another thread, so it waits in
-- `posted` for the event loop.
pub record WorkerThread : Type 0 where
  pub worker : Worker
  pub is_started : Bool
  pub posted : List Signal

abbrev pub new_thread : ℕ → WorkerThread
new_thread id = record {
  worker = record { id = id; interval = none; out = [] };
  is_started = false;
  posted = [];
}

abbrev pub append_threads : ℕ → List WorkerThread
append_threads zero = []
append_threads (suc n) = append_threads n ++ new_thread n ∷ []

-- `threads` of a new `ThreadCtl1`.
unfoldable pub new_threads : List WorkerThread
new_threads = append_threads 10

-- `start` of a thread does nothing when it runs; the thread emits `started` first.
unfoldable pub start : WorkerThread → WorkerThread
start t = if t.is_started then t else record t { is_started = true; worker = on_start t.worker }

unfoldable pub start_threads : List WorkerThread → List WorkerThread
start_threads threads = map start threads

abbrev pub post : Signal → WorkerThread → WorkerThread
post e t = record t { posted = t.posted ++ e ∷ [] }

-- `emit`.
unfoldable pub emit : Signal → List WorkerThread → List WorkerThread
emit e threads = map (post e) threads

abbrev pub call_slot : Signal → Worker → Worker
call_slot (send_msg msg) w = recv_msg msg w
call_slot (start_work msec) w = on_work msec w

abbrev pub taken : List Signal → WorkerThread → WorkerThread
taken [] t = t
taken (e ∷ es) t = record t { worker = call_slot e t.worker; posted = es }

-- The event loop of a thread, which there is once it has started, calls a slot or has a timeout.
unfoldable pub loop_turn : WorkerThread → WorkerThread
loop_turn t = if t.is_started then taken t.posted t else t

unfoldable pub timer_turn : WorkerThread → WorkerThread
timer_turn t = if t.is_started then record t { worker = timeout t.worker } else t
