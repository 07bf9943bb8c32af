-- ===== src/ThreadTool/Room.antt =====
-- What holds in every run of the pool of cpp/qt/thread/threadtool.h.
use code_study_example.ThreadTool.{
  Task, working, emitting, Main, Pool, new_pool, next_task, Step, starts, queues, leaves, works,
  emits, finishes, leaves_destructor, Run, here, then_step,
}
use code_study_example.Shared.{
  ℕ, zero, suc, ◌≤◌, ◌≡◌, refl, ap, ◌∙◌, ◌⊎◌, inl, inr, List, [], ◌∷◌, ◌++◌, Bool, length, arith,
  length-append, All, All-append, subst,
}

-- A task works for two seconds at most.
abbrev pub Timely : Task → Type 0
Timely (working n) = n ≤ 2
Timely emitting = Unit

pub record Sound (s : Pool) : Type 0 where
  pub at_most_three : length s.active ≤ 3
  pub queued : (length s.active ≡ 3) ⊎ (s.queue ≡ 0)
  pub timely : All Timely s.active

pub swap_one :
    (before after : List Task) (p q : Task)
    → length (before ++ p ∷ after) ≡ length (before ++ q ∷ after)
swap_one before after p q =
    omega (arith, length-append before (p ∷ after), length-append before (q ∷ after))

All-before :
    (before : List Task) (p : Task) (after : List Task)
    → All Timely (before ++ p ∷ after)
    → All Timely before × All Timely after
All-before [] p after a = (tt, a.1)
All-before (b ∷ before) p after a = let (x, y) = All-before before p after a.1 in ((a.0, x), y)

replaced-Sound :
    (s : Pool) (before after : List Task) (p q : Task)
    → s.active ≡ before ++ p ∷ after
    → Timely q
    → Sound s
    → Sound (record s { active = before ++ q ∷ after })
replaced-Sound s before after p q e h c =
    let same : length s.active ≡ length (before ++ q ∷ after) =
      ap length e ∙ swap_one before after p q in
    let (x, y) = All-before before p after (subst (All Timely) e c.timely) in
    record {
      at_most_three = omega (arith, same, c.at_most_three);
      queued = omega (arith, same, c.queued);
      timely = All-append Timely before (q ∷ after) x (h, y);
    }

next-Sound :
    (connected : Bool) (main : Main) (rest : List Task) (queue : ℕ)
    → length rest ≤ 2
    → ((length rest ≡ 2) ⊎ (queue ≡ 0))
    → All Timely rest
    → Sound (record {
      connected = connected;
      main = main;
      active = (next_task rest queue).0;
      queue = (next_task rest queue).1;
    })
unfolding next_task
next-Sound connected main rest zero few full a = record {
  at_most_three = omega (arith, few);
  queued = inr refl;
  timely = a;
}
next-Sound connected main rest (suc queue) few full a = record {
  at_most_three = omega (arith, few, length-append rest (working 0 ∷ []));
  queued = omega (arith, full, length-append rest (working 0 ∷ []));
  timely = All-append Timely rest (working 0 ∷ []) a (omega arith, tt);
}

Step-Sound : {s t : Pool} → Sound s → Step s t → Sound t
Step-Sound {s} c (starts n e l room) = record {
  at_most_three = omega (arith, room, length-append s.active (working 0 ∷ []));
  queued = omega (arith, room, c.queued, length-append s.active (working 0 ∷ []));
  timely = All-append Timely s.active (working 0 ∷ []) c.timely (omega arith, tt);
}
Step-Sound {s} c (queues n e l full) = record {
  at_most_three = c.at_most_three;
  queued = inl (omega (arith, full, c.at_most_three));
  timely = c.timely;
}
Step-Sound {s} c (leaves e) = record {
  at_most_three = c.at_most_three;
  queued = c.queued;
  timely = c.timely;
}
Step-Sound {s} c (works n before after e l) =
    replaced-Sound s before after (working n) (working (suc n)) e (omega (arith, l)) c
Step-Sound {s} c (emits before after e) = replaced-Sound s before after (working 2) emitting e tt c
Step-Sound {s} c (finishes before after e d) =
    let (x, y) = All-before before emitting after (subst (All Timely) e c.timely) in
    let one_less : suc (length (before ++ after)) ≡ length s.active =
      omega
        (arith, ap length e, length-append before (emitting ∷ after), length-append before after) in
    next-Sound s.connected s.main (before ++ after) s.queue
      (omega (arith, one_less, c.at_most_three)) (omega (arith, one_less, c.queued))
      (All-append Timely before after x y)
Step-Sound {s} c (leaves_destructor e f g) = record {
  at_most_three = c.at_most_three;
  queued = c.queued;
  timely = c.timely;
}

-- In every run at most three tasks run at a time, and none waits while there is room for it.
pub Run-Sound : (connected : Bool) (s : Pool) → Run connected s → Sound s
unfolding new_pool
Run-Sound connected s here = record { at_most_three = omega arith; queued = inr refl; timely = tt }
Run-Sound connected t (then_step {s} r m) = Step-Sound (Run-Sound connected s r) m
