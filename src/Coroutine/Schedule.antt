-- ===== src/Coroutine/Schedule.antt =====
-- `co::schedule` of cpp/cppcoro/01.coroutine_ucontext.cpp runs every coroutine to its end.
use code_study_example.Coroutine.Work.{work, Waits-work, lookup-has, has-lookup, has_self, has-cons}
use code_study_example.Coroutine.Round.{
  func_at, Known, Bound, AllDead, PassResult, pass-Total, tail-Known,
}
use code_study_example.Coroutine.{dead, Coroutine, Scheduler, lookup, pass, schedule, finished}
use code_study_example.Coroutine.Segment.{emits}
use code_study_example.Coroutine.Invariant.{Inv, Sane, lines}
use code_study_example.Shared.{
  ℕ, zero, suc, ◌≡◌, refl, ◌∙◌, List, [], ◌∷◌, some, arith, true, false, inl, inr, ◌≤◌, append-nil,
}

-- All coroutines are at their end, and each has printed all lines of its function, in their order.
pub record AllRun (s t : Scheduler) : Type 0 where
  pub inv : Inv t
  pub same : (j : ℕ) → func_at j t ≡ func_at j s
  pub ended : (j : ℕ) (c : Coroutine) → lookup j t.coroutines ≡ some c → c.state ≡ dead
  pub printed :
      (j : ℕ) (c : Coroutine) → lookup j t.coroutines ≡ some c → lines j t.out ≡ emits c.func

abbrev ScheduleResult : ℕ → Scheduler → Type 0
ScheduleResult n s = (t : Scheduler) × (schedule (suc n) s ≡ finished t) × AllRun s t

dead-printed :
    (j : ℕ) (c : Coroutine) (out : List (ℕ × ℕ))
    → Sane j c out
    → c.state ≡ dead
    → lines j out ≡ emits c.func
dead-printed j c out (live, (f, inl waits, total)) is = absurd (ground arith)
dead-printed j c out (live, (f, inr (_, e), total)) is = ground (arith, append-nil (lines j out))

inactive :
    (s t : Scheduler)
    → Inv s
    → (n : ℕ) → pass s.coroutines s ≡ some (false, t)
    → (t ≡ s) × AllDead s.coroutines s
    → ScheduleResult n s
unfolding schedule
inactive s t inv n e (eq, dead_all) = (
  s,
  ground (arith, e, eq),
  record {
    inv = inv;
    same = λ j. refl;
    ended = λ j c at. dead_all j c (lookup-has j s.coroutines c at) at;
    printed = λ j c at.
        dead-printed j c s.out (inv.sane j c at) (dead_all j c (lookup-has j s.coroutines c at) at);
  },
)

active :
    (s t : Scheduler) (n : ℕ)
    → pass s.coroutines s ≡ some (true, t)
    → ((j : ℕ) → func_at j t ≡ func_at j s)
    → ScheduleResult n t
    → ScheduleResult (suc n) s
unfolding schedule
active s t n e same (u, ends, run) = (
  u,
  ground (arith, e, ends),
  record {
    inv = run.inv;
    same = λ j. run.same j ∙ same j;
    ended = run.ended;
    printed = run.printed;
  },
)

pass_idle :
    (es : List (ℕ × Coroutine)) (s : Scheduler)
    → Known es s
    → AllDead es s
    → pass es s ≡ some (false, s)
unfolding pass
pass_idle [] s known dead_all = refl
pass_idle ((id, d) ∷ es) s known dead_all =
    let (c, found) = known id (has_self id d es) in
    ground (
      arith,
      found,
      dead_all id c (has_self id d es) found,
      pass_idle es s (tail-Known id d es s known)
          (λ j x there at. dead_all j x (has-cons j id d es there) at),
    )

abbrev AtMost : ℕ → Scheduler → Type 0
AtMost n s = (j : ℕ) (c : Coroutine) → lookup j s.coroutines ≡ some c → work c ≤ n

no_work-dead :
    (j : ℕ) (c : Coroutine) (out : List (ℕ × ℕ)) → Sane j c out → work c ≤ 0 → c.state ≡ dead
no_work-dead j c out (live, (f, inl waits, total)) h =
    absurd (omega (arith, Waits-work j f c waits))
no_work-dead j c out (live, (f, inr (is, e), total)) h = is

-- Whatever the order in which the map is visited, `schedule` comes to an end, in at most one round
-- more than the most resumptions that a coroutine needs, crashes on no null pointer, and leaves
-- every coroutine at its end with exactly the lines of its function printed, in program order.
pub schedule_runs_all :
    (n : ℕ) (s : Scheduler)
    → Inv s
    → ((j : ℕ) (c : Coroutine) → lookup j s.coroutines ≡ some c → work c ≤ n)
    → (t : Scheduler) × (schedule (suc n) s ≡ finished t) × AllRun s t
schedule_runs_all zero s inv most =
    inactive s s inv 0 (pass_idle s.coroutines s (λ j. has-lookup j s.coroutines) idle) (refl, idle)
  where
    idle : AllDead s.coroutines s
    idle j c there at = no_work-dead j c s.out (inv.sane j c at) (most j c at)
schedule_runs_all (suc n) s inv most =
    round (pass-Total s.coroutines n s inv (λ j. has-lookup j s.coroutines) bound)
      (λ t i m. schedule_runs_all n t i m)
  where
    bound : Bound n s.coroutines s
    bound j c at = ground (arith, most j c at, lookup-has j s.coroutines c at)

    round :
        PassResult s.coroutines n s
        → ((t : Scheduler) → Inv t → AtMost n t → ScheduleResult n t)
        → ScheduleResult (suc n) s
    round (true, t, e, passed, idle) again =
        active s t n e passed.same (again t passed.inv passed.left)
    round (false, t, e, passed, idle) again = inactive s t inv (suc n) e (idle refl)
