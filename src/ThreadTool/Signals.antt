-- ===== src/ThreadTool/Signals.antt =====
-- What the signals of cpp/qt/thread/ThreadCtl1.h do to the workers, in any order of the threads.
use code_study_example.ThreadTool.Workers.{
  Signal, send_msg, start_work, Print, start_thread, begins_work, message, working, WorkerThread,
  start_threads, emit, loop_turn, timer_turn,
}
use code_study_example.Shared.{
  ℕ, zero, suc, ◌≡◌, refl, sym, ap, ◌∙◌, List, [], ◌∷◌, ◌++◌, map, Option, none, some, append-nil,
}

-- What can happen next: a call on the object, or a turn of the thread with the number `i`.
pub data Action : Type 0 where
  starts : Action
  emits : Signal → Action
  loops : ℕ → Action
  ticks : ℕ → Action

abbrev pub at : ℕ → (WorkerThread → WorkerThread) → List WorkerThread → List WorkerThread
at i f [] = []
at zero f (t ∷ ts) = f t ∷ ts
at (suc i) f (t ∷ ts) = t ∷ at i f ts

abbrev pub act : Action → List WorkerThread → List WorkerThread
act starts ts = start_threads ts
act (emits e) ts = emit e ts
act (loops i) ts = at i loop_turn ts
act (ticks i) ts = at i timer_turn ts

abbrev pub acts : List Action → List WorkerThread → List WorkerThread
acts [] ts = ts
acts (a ∷ actions) ts = acts actions (act a ts)

-- The signals that the actions emit.
abbrev pub signals_of : Action → List Signal
signals_of (emits e) = e ∷ []
signals_of _ = []

abbrev pub emitted : List Action → List Signal
emitted [] = []
emitted (a ∷ actions) = signals_of a ++ emitted actions

-- The first interval that a list of signals asks for.
abbrev pub asked_by : Signal → Option ℕ → Option ℕ
asked_by (start_work msec) later = some msec
asked_by (send_msg _) later = later

abbrev pub first_asked : List Signal → Option ℕ
first_asked [] = none
first_asked (e ∷ es) = asked_by e (first_asked es)

abbrev pub printed_for : Signal → Print
printed_for (send_msg msg) = message msg
printed_for (start_work _) = begins_work

-- The prints that answer a signal.
abbrev pub keep_answer : Print → List Print → List Print
keep_answer (message msg) ps = message msg ∷ ps
keep_answer begins_work ps = begins_work ∷ ps
keep_answer start_thread ps = ps
keep_answer working ps = ps

abbrev pub answers : List Print → List Print
answers [] = []
answers (p ∷ ps) = keep_answer p (answers ps)

-- A worker has served the first of the signals, in their order and each once, and the others wait;
-- its timer has the interval of the first `startWork` that it served.
pub record Serves (signals : List Signal) (t : WorkerThread) : Type 0 where
  pub served : List Signal
  pub in_order : served ++ t.posted ≡ signals
  pub prints : answers t.worker.out ≡ map printed_for served
  pub timer : t.worker.interval ≡ first_asked served

pub answers-append : (ps qs : List Print) → answers (ps ++ qs) ≡ answers ps ++ answers qs
answers-append [] qs = refl
answers-append (message m ∷ ps) qs = ap (λ (l : List Print). message m ∷ l) (answers-append ps qs)
answers-append (begins_work ∷ ps) qs =
    ap (λ (l : List Print). begins_work ∷ l) (answers-append ps qs)
answers-append (start_thread ∷ ps) qs = answers-append ps qs
answers-append (working ∷ ps) qs = answers-append ps qs

map-append :
    (es fs : List Signal) → map printed_for (es ++ fs) ≡ map printed_for es ++ map printed_for fs
map-append [] fs = refl
map-append (e ∷ es) fs = ap (λ (l : List Print). printed_for e ∷ l) (map-append es fs)

-- A print that answers nothing.
pub prints_more :
    (ps : List Print) (p : Print) → answers (p ∷ []) ≡ [] → answers (ps ++ p ∷ []) ≡ answers ps
prints_more ps p e =
    answers-append ps (p ∷ [])
    ∙ ap (λ (l : List Print). answers ps ++ l) e
    ∙ append-nil (answers ps)

pub prints_answer :
    (ps : List Print) (served : List Signal) (e : Signal)
    → answers ps ≡ map printed_for served
    → answers (ps ++ printed_for e ∷ []) ≡ map printed_for (served ++ e ∷ [])
prints_answer ps served (send_msg m) h =
    answers-append ps (message m ∷ [])
    ∙ ap (λ (l : List Print). l ++ message m ∷ []) h
    ∙ sym (map-append served (send_msg m ∷ []))
prints_answer ps served (start_work n) h =
    answers-append ps (begins_work ∷ [])
    ∙ ap (λ (l : List Print). l ++ begins_work ∷ []) h
    ∙ sym (map-append served (start_work n ∷ []))

abbrev pub or_else : Option ℕ → Option ℕ → Option ℕ
or_else none later = later
or_else (some n) later = some n

pub first_asked-append :
    (es : List Signal) (e : Signal)
    → first_asked (es ++ e ∷ []) ≡ or_else (first_asked es) (asked_by e none)
first_asked-append [] (send_msg m) = refl
first_asked-append [] (start_work n) = refl
first_asked-append (send_msg m ∷ es) e = first_asked-append es e
first_asked-append (start_work n ∷ es) e = refl

pub or_else-none : (o : Option ℕ) → o ≡ or_else o none
or_else-none none = refl
or_else-none (some n) = refl

pub started_once :
    (o : Option ℕ) (msec : ℕ)
    → elim o [ none ↦ some msec | some running ↦ some running ] ≡ or_else o (some msec)
started_once none msec = refl
started_once (some n) msec = refl
