-- ===== src/TaskThread/Awake.antt =====
-- The worker of cpp/ex/task_thread/task_thread.hpp does not sleep over a task: unlike the destructor,
-- a thread that posts does so under the mutex, and notifies afterwards.
use code_study_example.TaskThread.{
  TaskThread, construct, Loop, checking, locking, waiting, waiting_until, executing, stopped,
  absent, Step, go_on, leave, sleep, sleep_until, take_task, return_from_task, time_out, wake, tick,
  post, post_sync, notify_one, clear_running, notify_all, join, notify, Steps, here, next,
  post_delayed_task, post_task_sync,
}
use code_study_example.Shared.{ℕ, ◌≡◌, ◌≢◌, ◌⊎◌, inl, inr, refl, sym, ◌∙◌, Bool, true, [], arith}

-- Until the destructor begins the worker goes on, and it does not sleep without a time while there is
-- a task, unless a notification is under way.
pub record Awake (s : TaskThread) : Type 0 where
  pub runs : s.destructor ≡ absent → s.running ≡ true
  pub lives : s.destructor ≡ absent → s.loop ≢ stopped
  pub woken : s.loop ≡ waiting → (s.task_queue ≡ []) ⊎ (s.unsent ≢ 0)

notify-not-waiting : (l : Loop) → notify l ≢ waiting
notify-not-waiting checking e = ground arith
notify-not-waiting locking e = ground arith
notify-not-waiting waiting e = ground arith
notify-not-waiting (waiting_until t) e = ground arith
notify-not-waiting (executing i) e = ground arith
notify-not-waiting stopped e = ground arith

notify-not-stopped : (l : Loop) → l ≢ stopped → notify l ≢ stopped
notify-not-stopped checking n e = ground arith
notify-not-stopped locking n e = ground arith
notify-not-stopped waiting n e = ground arith
notify-not-stopped (waiting_until t) n e = ground arith
notify-not-stopped (executing i) n e = ground arith
notify-not-stopped stopped n e = n e

-- A step that leaves the worker at a place where it neither sleeps nor has stopped.
moved-Awake :
    (s t : TaskThread)
    → t.running ≡ s.running
    → t.destructor ≡ s.destructor
    → t.loop ≢ stopped
    → t.loop ≢ waiting
    → Awake s
    → Awake t
moved-Awake s t r d n w h = record {
  runs = λ e. r ∙ h.runs (sym d ∙ e);
  lives = λ _. n;
  woken = λ e. absurd (w e);
}

notified-Awake :
    (s t : TaskThread)
    → t.running ≡ s.running
    → t.destructor ≡ s.destructor
    → t.loop ≡ notify s.loop
    → Awake s
    → Awake t
notified-Awake s t r d l h = record {
  runs = λ e. r ∙ h.runs (sym d ∙ e);
  lives = λ e f. notify-not-stopped s.loop (h.lives (sym d ∙ e)) (sym l ∙ f);
  woken = λ e. absurd (notify-not-waiting s.loop (sym l ∙ e));
}

Step-Awake : {sp : Bool} {s t : TaskThread} → Step sp s t → Awake s → Awake t
unfolding post_delayed_task post_task_sync
Step-Awake {sp} {s} {t} (go_on l r) h =
    moved-Awake s t refl refl (λ e. ground arith) (λ e. ground arith) h
Step-Awake {sp} {s} {t} (leave l r) h = record {
  runs = h.runs;
  lives = λ e. absurd (cc (sym (h.runs e) ∙ r));
  woken = λ e. absurd (cc e);
}
Step-Awake {sp} {s} {t} (sleep l q) h = record {
  runs = h.runs;
  lives = λ _ e. absurd (cc e);
  woken = λ _. inl q;
}
Step-Awake {sp} {s} {t} (sleep_until xs ys i l q le lt) h =
    moved-Awake s t refl refl (λ e. ground arith) (λ e. ground arith) h
Step-Awake {sp} {s} {t} (take_task xs ys i l q le due) h =
    moved-Awake s t refl refl (λ e. ground arith) (λ e. ground arith) h
Step-Awake {sp} {s} {t} (return_from_task i l) h =
    moved-Awake s t refl refl (λ e. ground arith) (λ e. ground arith) h
Step-Awake {sp} {s} {t} (time_out u l due) h =
    moved-Awake s t refl refl (λ e. ground arith) (λ e. ground arith) h
Step-Awake {sp} {s} {t} (wake e) h = notified-Awake s t refl refl refl h
Step-Awake {sp} {s} {t} (notify_one n u) h = notified-Awake s t refl refl refl h
Step-Awake {sp} {s} {t} (tick n) h = record { runs = h.runs; lives = h.lives; woken = h.woken }
Step-Awake {sp} {s} {t} (post task delay d) h = record {
  runs = h.runs;
  lives = h.lives;
  woken = λ _. inr (λ e. ground arith);
}
Step-Awake {sp} {s} {t} (post_sync task d) h = record {
  runs = h.runs;
  lives = h.lives;
  woken = λ _. inr (λ e. ground arith);
}
Step-Awake {sp} {s} {t} (clear_running d) h = record {
  runs = λ e. absurd (cc e);
  lives = λ e. absurd (cc e);
  woken = h.woken;
}
Step-Awake {sp} {s} {t} (notify_all d) h = record {
  runs = λ e. absurd (cc e);
  lives = λ e. absurd (cc e);
  woken = λ e. absurd (notify-not-waiting s.loop e);
}
Step-Awake {sp} {s} {t} (join d l) h = record {
  runs = λ e. absurd (cc e);
  lives = λ e. absurd (cc e);
  woken = h.woken;
}

pub Steps-Awake : {sp : Bool} {s t : TaskThread} → Steps sp s t → Awake s → Awake t
Steps-Awake here h = h
Steps-Awake (next r st) h = Step-Awake st (Steps-Awake r h)

pub construct-Awake : (now : ℕ) → Awake (construct now)
construct-Awake now = record {
  runs = λ _. refl;
  lives = λ _ e. absurd (cc e);
  woken = λ e. absurd (cc e);
}
