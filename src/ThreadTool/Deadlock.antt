-- ===== src/ThreadTool/Deadlock.antt =====
-- Whether `ThreadTool::test1` of cpp/qt/thread/threadtool.h returns.
use code_study_example.ThreadTool.{
  Task, working, emitting, Main, starting, in_destructor, returned, Pool, new_pool, Step, starts,
  queues, leaves, works, emits, finishes, leaves_destructor, Run, here, then_step,
}
use code_study_example.ThreadTool.Room.{swap_one, Sound, Timely, Run-Sound}
use code_study_example.Shared.{
  ℕ, zero, suc, ◌+◌, ◌≤◌, ◌≡◌, ◌≢◌, refl, ap, ◌∙◌, ◌⊎◌, inl, inr, List, [], ◌∷◌, ◌++◌, true, false,
  length, arith, length-append, All, List-cases, leb, ltb, ltb→lt, leb→le, Bool-cases, subst,
}

-- How many tasks `main` has started; one more than there are stands for its return.
abbrev begun : Main → ℕ
begun (starting n) = n
begun in_destructor = 6
begun returned = 7

-- No task is over.
record Stuck (s : Pool) : Type 0 where
  with_receiver : s.connected ≡ true
  all_there : length s.active + s.queue ≡ begun s.main
  not_over : begun s.main ≤ 6

blocked : (s : Pool) → Stuck s → (s.connected ≡ false) ⊎ (s.main ≡ returned) → ⊥
blocked s c (inl e) = absurd (ground (arith, e, c.with_receiver))
blocked s c (inr e) = omega (arith, ap begun e, c.not_over)

replaced-Stuck :
    (s : Pool) (before after : List Task) (p q : Task)
    → s.active ≡ before ++ p ∷ after
    → Stuck s
    → Stuck (record s { active = before ++ q ∷ after })
replaced-Stuck s before after p q e c = record {
  with_receiver = c.with_receiver;
  all_there = omega (arith, c.all_there, ap length e, swap_one before after p q);
  not_over = c.not_over;
}

Step-Stuck : {s t : Pool} → Stuck s → Step s t → Stuck t
Step-Stuck {s} c (starts n e l room) = record {
  with_receiver = c.with_receiver;
  all_there = omega (arith, c.all_there, ap begun e, length-append s.active (working 0 ∷ []));
  not_over = omega (arith, l);
}
Step-Stuck {s} c (queues n e l full) = record {
  with_receiver = c.with_receiver;
  all_there = omega (arith, c.all_there, ap begun e);
  not_over = omega (arith, l);
}
Step-Stuck {s} c (leaves e) = record {
  with_receiver = c.with_receiver;
  all_there = c.all_there ∙ ap begun e;
  not_over = omega arith;
}
Step-Stuck {s} c (works n before after e l) =
    replaced-Stuck s before after (working n) (working (suc n)) e c
Step-Stuck {s} c (emits before after e) = replaced-Stuck s before after (working 2) emitting e c
Step-Stuck {s} c (finishes before after e d) = absurd (blocked s c d)
Step-Stuck {s} c (leaves_destructor e f g) =
    absurd (omega (arith, c.all_there, ap begun e, ap length f, g))

Run-Stuck : (s : Pool) → Run true s → Stuck s
unfolding new_pool
Run-Stuck s here = record { with_receiver = refl; all_there = omega arith; not_over = omega arith }
Run-Stuck t (then_step {s} r m) = Step-Stuck (Run-Stuck s r) m

-- With the receiver of the signal in the main thread `test1` never returns, in whatever order the
-- threads run: its tasks wait for the event loop of the main thread, and the main thread waits in the
-- destructor of the pool for its tasks.
pub test_never_returns : (s : Pool) → Run true s → s.main ≢ returned
test_never_returns s r e = let c = Run-Stuck s r in omega (arith, ap begun e, c.not_over)

-- A step of the first task that runs.
first_step :
    (s : Pool) (p : Task) (rest : List Task)
    → s.connected ≡ false
    → s.active ≡ p ∷ rest
    → Timely p
    → (t : Pool) × Step s t
first_step s emitting rest u e h = (_, finishes [] rest e (inl u))
first_step s (working zero) rest u e h = (_, works 0 [] rest e (omega arith))
first_step s (working (suc zero)) rest u e h = (_, works 1 [] rest e (omega arith))
first_step s (working (suc (suc zero))) rest u e h = (_, emits [] rest e)
first_step s (working (suc (suc (suc n)))) rest u e h = absurd (omega (arith, h))

-- Without a receiver.
abbrev InRange : Main → Type 0
InRange (starting n) = n ≤ 6
InRange main = Unit

record Free (s : Pool) : Type 0 where
  no_receiver : s.connected ≡ false
  in_range : InRange s.main

Step-Free : {s t : Pool} → Free s → Step s t → Free t
Step-Free c (starts n e l room) = record {
  no_receiver = c.no_receiver;
  in_range = omega (arith, l);
}
Step-Free c (queues n e l full) = record {
  no_receiver = c.no_receiver;
  in_range = omega (arith, l);
}
Step-Free c (leaves e) = record { no_receiver = c.no_receiver; in_range = tt }
Step-Free c (works n before after e l) = record {
  no_receiver = c.no_receiver;
  in_range = c.in_range;
}
Step-Free c (emits before after e) = record { no_receiver = c.no_receiver; in_range = c.in_range }
Step-Free c (finishes before after e d) = record {
  no_receiver = c.no_receiver;
  in_range = c.in_range;
}
Step-Free c (leaves_destructor e f g) = record { no_receiver = c.no_receiver; in_range = tt }

Run-Free : (s : Pool) → Run false s → Free s
unfolding new_pool
Run-Free s here = record { no_receiver = refl; in_range = omega arith }
Run-Free t (then_step {s} r m) = Step-Free (Run-Free s r) m

start-Step : (s : Pool) (n : ℕ) → s.main ≡ starting n → n ≤ 6 → (t : Pool) × Step s t
start-Step s n e h = elim (Bool-cases (ltb n 6)) [
  | inr last ↦ let six : n ≡ 6 = ground (arith, last, h) in (_, leaves (e ∙ ap starting six))
  | inl more ↦ elim (Bool-cases (leb 3 (length s.active))) [
    | inl full ↦ (_, queues n e (ltb→lt n 6 more) (leb→le 3 (length s.active) full))
    | inr room ↦ (_, starts n e (ltb→lt n 6 more) (ground (arith, room)))
  ]
]

some-Step :
    (s : Pool) (main : Main)
    → s.main ≡ main
    → s.main ≢ returned
    → Free s
    → Sound s
    → (t : Pool) × Step s t
some-Step s returned e h u c = absurd (h e)
some-Step s (starting n) e h u c = start-Step s n e (subst InRange e u.in_range)
some-Step s in_destructor e h u c = elim (List-cases s.active) [
  | inr (p, rest, f) ↦ first_step s p rest u.no_receiver f (subst (All Timely) f c.timely).0
  | inl f ↦ (_, leaves_destructor e f (omega (arith, c.queued, ap length f)))
]

-- Without such a receiver nothing blocks: until `test1` has returned, some step of a task or of the main
-- thread is possible in every run, and at most three tasks run at a time.
pub test_goes_on :
    (s : Pool) → Run false s → s.main ≢ returned → ((t : Pool) × Step s t) × (length s.active ≤ 3)
test_goes_on s r h =
    let c = Run-Sound false s r in (some-Step s s.main refl h (Run-Free s r) c, c.at_most_three)
