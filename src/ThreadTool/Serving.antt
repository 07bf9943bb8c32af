-- ===== src/ThreadTool/Serving.antt =====
-- Each worker of cpp/qt/thread/ThreadCtl1.h serves the signals.
use code_study_example.ThreadTool.Workers.{
  Signal, send_msg, start_work, Print, start_thread, working, Worker, on_work, on_start, recv_msg,
  timeout, WorkerThread, new_thread, append_threads, new_threads, start, start_threads, emit,
  call_slot, taken, loop_turn, timer_turn, post,
}
use code_study_example.ThreadTool.Signals.{
  Action, starts, emits, loops, ticks, at, act, acts, signals_of, emitted, asked_by, printed_for,
  answers, Serves, prints_more, prints_answer, or_else, first_asked-append, or_else-none,
  started_once,
}
use code_study_example.Shared.{
  ℕ, zero, suc, ◌≡◌, refl, sym, ap, subst, ◌∙◌, List, [], ◌∷◌, ◌++◌, map, All, All-append, length,
  arith, Bool, true, false, if◌then◌else◌, Option, none, some, append-nil, append_assoc,
}

call_slot-interval :
    (e : Signal) (w : Worker) → (call_slot e w).interval ≡ or_else w.interval (asked_by e none)
unfolding recv_msg on_work
call_slot-interval (send_msg m) w = or_else-none w.interval
call_slot-interval (start_work msec) w = started_once w.interval msec

call_slot-out : (e : Signal) (w : Worker) → (call_slot e w).out ≡ w.out ++ printed_for e ∷ []
unfolding recv_msg on_work
call_slot-out (send_msg m) w = refl
call_slot-out (start_work msec) w = refl

if-Serves :
    (es : List Signal) (b : Bool) (x y : WorkerThread)
    → Serves es x
    → Serves es y
    → Serves es (if b then x else y)
if-Serves es true x y h k = h
if-Serves es false x y h k = k

start-Serves : (es : List Signal) (t : WorkerThread) → Serves es t → Serves es (start t)
unfolding start on_start
start-Serves es t h = if-Serves es t.is_started t _ h (record {
  served = h.served;
  in_order = h.in_order;
  prints = prints_more t.worker.out start_thread refl ∙ h.prints;
  timer = h.timer;
})

post-Serves :
    (es : List Signal) (e : Signal) (t : WorkerThread)
    → Serves es t
    → Serves (es ++ e ∷ []) (post e t)
post-Serves es e t h = record {
  served = h.served;
  in_order =
      sym (append_assoc h.served t.posted (e ∷ []))
      ∙ ap (λ (l : List Signal). l ++ e ∷ []) h.in_order;
  prints = h.prints;
  timer = h.timer;
}

taken-Serves :
    (es posted : List Signal) (t : WorkerThread)
    → t.posted ≡ posted
    → Serves es t
    → Serves es (taken posted t)
taken-Serves es [] t p h = h
taken-Serves es (e ∷ posted) t p h = record {
  served = h.served ++ e ∷ [];
  in_order =
      append_assoc h.served (e ∷ []) posted
      ∙ ap (λ (l : List Signal). h.served ++ l) (sym p)
      ∙ h.in_order;
  prints = ap answers (call_slot-out e t.worker) ∙ prints_answer t.worker.out h.served e h.prints;
  timer =
      call_slot-interval e t.worker
      ∙ ap (λ (o : Option ℕ). or_else o (asked_by e none)) h.timer
      ∙ sym (first_asked-append h.served e);
}

loop_turn-Serves : (es : List Signal) (t : WorkerThread) → Serves es t → Serves es (loop_turn t)
unfolding loop_turn
loop_turn-Serves es t h =
    if-Serves es t.is_started (taken t.posted t) t (taken-Serves es t.posted t refl h) h

ticked :
    (o : Option ℕ) (ps : List Print)
    → answers (elim o [ none ↦ ps | some _ ↦ ps ++ working ∷ [] ]) ≡ answers ps
ticked none ps = refl
ticked (some n) ps = prints_more ps working refl

timer_turn-Serves : (es : List Signal) (t : WorkerThread) → Serves es t → Serves es (timer_turn t)
unfolding timer_turn timeout
timer_turn-Serves es t h =
    if-Serves es t.is_started _ t
      (record {
        served = h.served;
        in_order = h.in_order;
        prints = ticked t.worker.interval t.worker.out ∙ h.prints;
        timer = h.timer;
      })
      h

AllServe : List Signal → List WorkerThread → Type 0
AllServe es ts = All (Serves es) ts

map-AllServe :
    (f : WorkerThread → WorkerThread) (es fs : List Signal)
    → ((t : WorkerThread) → Serves es t → Serves fs (f t))
    → (ts : List WorkerThread) → AllServe es ts
    → AllServe fs (map f ts)
unfolding AllServe
map-AllServe f es fs step [] h = tt
map-AllServe f es fs step (t ∷ ts) h = (step t h.0, map-AllServe f es fs step ts h.1)

at-AllServe :
    (f : WorkerThread → WorkerThread) (es : List Signal)
    → ((t : WorkerThread) → Serves es t → Serves es (f t))
    → (i : ℕ) (ts : List WorkerThread) → AllServe es ts
    → AllServe es (at i f ts)
unfolding AllServe
at-AllServe f es step i [] h = h
at-AllServe f es step zero (t ∷ ts) h = (step t h.0, h.1)
at-AllServe f es step (suc i) (t ∷ ts) h = (h.0, at-AllServe f es step i ts h.1)

act-AllServe :
    (a : Action) (es : List Signal) (ts : List WorkerThread)
    → AllServe es ts
    → AllServe (es ++ signals_of a) (act a ts)
unfolding start_threads emit
act-AllServe starts es ts h = rw (append-nil es) (map-AllServe start es es (start-Serves es) ts h)
act-AllServe (emits e) es ts h = map-AllServe (post e) es (es ++ e ∷ []) (post-Serves es e) ts h
act-AllServe (loops i) es ts h =
    rw (append-nil es) (at-AllServe loop_turn es (loop_turn-Serves es) i ts h)
act-AllServe (ticks i) es ts h =
    rw (append-nil es) (at-AllServe timer_turn es (timer_turn-Serves es) i ts h)

acts-AllServe :
    (actions : List Action) (es : List Signal) (ts : List WorkerThread)
    → AllServe es ts
    → AllServe (es ++ emitted actions) (acts actions ts)
acts-AllServe [] es ts h = rw (append-nil es) h
acts-AllServe (a ∷ actions) es ts h =
    subst (λ (fs : List Signal). AllServe fs (acts actions (act a ts)))
      (append_assoc es (signals_of a) (emitted actions))
      (acts-AllServe actions (es ++ signals_of a) (act a ts) (act-AllServe a es ts h))

new-AllServe : (n : ℕ) → AllServe [] (append_threads n)
unfolding AllServe
new-AllServe zero = tt
new-AllServe (suc n) =
    All-append (Serves []) (append_threads n) (new_thread n ∷ []) (new-AllServe n)
      (record { served = []; in_order = refl; prints = refl; timer = refl }, tt)

length-at :
    (i : ℕ) (f : WorkerThread → WorkerThread) (ts : List WorkerThread)
    → length (at i f ts) ≡ length ts
length-at i f [] = refl
length-at zero f (t ∷ ts) = refl
length-at (suc i) f (t ∷ ts) = omega (arith, length-at i f ts)

length-map :
    (f : WorkerThread → WorkerThread) (ts : List WorkerThread) → length (map f ts) ≡ length ts
length-map f [] = refl
length-map f (t ∷ ts) = omega (arith, length-map f ts)

length-act : (a : Action) (ts : List WorkerThread) → length (act a ts) ≡ length ts
unfolding start_threads emit
length-act starts ts = length-map start ts
length-act (emits e) ts = length-map (post e) ts
length-act (loops i) ts = length-at i loop_turn ts
length-act (ticks i) ts = length-at i timer_turn ts

length-acts :
    (actions : List Action) (ts : List WorkerThread) → length (acts actions ts) ≡ length ts
length-acts [] ts = refl
length-acts (a ∷ actions) ts = length-acts actions (act a ts) ∙ length-act a ts

-- Whatever the order in which the threads run, are started and have timeouts, each of the ten
-- workers serves the signals of `ThreadCtl1` in the order in which they were emitted, each once:
-- it has served some of the first ones, with one print for each, and the others wait for its
-- thread. Its timer has the interval of the first `startWork` that it served, and a later one does
-- not change it.
pub served_in_order :
    (actions : List Action)
    → let threads = acts actions new_threads in
      (length threads ≡ 10) × All (Serves (emitted actions)) threads
unfolding AllServe new_threads
served_in_order actions =
    (length-acts actions new_threads, acts-AllServe actions [] new_threads (new-AllServe 10))
