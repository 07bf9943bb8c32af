-- ===== src/Coroutine/Resume.antt =====
-- `co::create`, `co::resume` and `co::yield` of cpp/cppcoro/01.coroutine_ucontext.cpp, one call each.
use code_study_example.Coroutine.{
  ready, dead, Func, return, print, yields, Coroutine, Scheduler, lookup, insert, create,
  new_coroutine, resume, yield, run_func, swap_to, coroutine_entry, fake_stack, entry_end, current,
  scheduler_id, unset,
}
use code_study_example.Coroutine.Segment.{
  emits, segment, stop, tag, lookup-insert, stopped, entered, resume_lem,
}
use code_study_example.Coroutine.Invariant.{Inv, Sane, lines, stopped-Inv, lines-append_tag}
use code_study_example.Shared.{
  ℕ, ◌-◌, ◌^◌, ◌≡◌, ◌≢◌, refl, ◌∙◌, List, [], ◌∷◌, ◌++◌, some, none, arith, inl, inr, append-nil,
  append_assoc,
}

-- What a call of `co::resume` with the number `id` may change.
abbrev Only : ℕ → Scheduler → Scheduler → Type 0
Only id s t =
    (j : ℕ)
    → id ≢ j
    → (lookup j t.coroutines ≡ lookup j s.coroutines) × (lines j t.out ≡ lines j s.out)

abbrev ResumeResult : ℕ → Coroutine → Scheduler → Type 0
ResumeResult id c s =
    (t : Scheduler) × (resume id s ≡ some t) × Inv t × Only id s t × (c.state ≡ dead → t ≡ s)

resume_by_stage :
    (id : ℕ) (c : Coroutine) (s : Scheduler)
    → Inv s
    → lookup id s.coroutines ≡ some c
    → Sane id c s.out
    → ResumeResult id c s
unfolding resume
resume_by_stage id c s inv found (live, (f, inl waits, total)) = (
  stopped id f (entered c) s,
  resume_lem id f c s live found waits,
  stopped-Inv id f c s inv found total,
  λ j ne. (
    ground (arith, lookup-insert id j (stop id f (entered c)) s.coroutines),
    ground (arith, lines-append_tag id j (segment f) s.out),
  ),
  λ is. absurd (ground arith),
)
resume_by_stage id c s inv found (live, (f, inr (is, e), total)) =
    (s, ground arith, inv, λ j ne. (refl, refl), λ h. refl)

-- A call of `co::resume` with the number of a coroutine that exists comes back to the scheduler,
-- with no coroutine running and the invariant kept; it changes and prints nothing of the other
-- coroutines, and nothing at all if the coroutine is dead.
pub resume_one :
    (id : ℕ) (c : Coroutine) (s : Scheduler)
    → Inv s
    → lookup id s.coroutines ≡ some c
    → (t : Scheduler) × (resume id s ≡ some t)
      × Inv t
      × ((j : ℕ)
          → id ≢ j
          → (lookup j t.coroutines ≡ lookup j s.coroutines) × (lines j t.out ≡ lines j s.out))
      × (c.state ≡ dead → t ≡ s)
resume_one id c s inv found = resume_by_stage id c s inv found (inv.sane id c found)

-- A number that no coroutine has makes `co::resume` follow a null pointer.
resume_unknown : (id : ℕ) (s : Scheduler) → lookup id s.coroutines ≡ none → resume id s ≡ none
unfolding resume
resume_unknown id s e = rw e refl

abbrev ended : Coroutine → Scheduler → Scheduler
ended c s = record s {
  coroutines = insert scheduler_id (record c { state = dead }) s.coroutines;
  running_id = scheduler_id;
}

run_as_scheduler :
    (f : Func) (c : Coroutine) (s : Scheduler)
    → s.running_id ≡ scheduler_id
    → lookup scheduler_id s.coroutines ≡ some c
    → run_func scheduler_id f s
      ≡ some (record (ended c s) { out = s.out ++ tag scheduler_id (emits f) })
unfolding run_func yield entry_end current
run_as_scheduler return c s here found = rw found (ground (arith, append-nil s.out))
run_as_scheduler (print n f) c s here found =
    run_as_scheduler f c (record s { out = s.out ++ (s.running_id, n) ∷ [] }) here found
    ∙ ground (arith, append_assoc s.out ((s.running_id, n) ∷ []) (tag scheduler_id (emits f)))
run_as_scheduler (yields f) c s here found = ground (arith, run_as_scheduler f c s here found)

wrap : (f : Func) (s : Scheduler) → s.alloc_id ≡ 2 ^ 32 - 1 → (create f s).1.alloc_id ≡ scheduler_id
unfolding create
wrap f s e = omega arith

abbrev zero_coroutine : Func → Coroutine
zero_coroutine g = record { id = scheduler_id; ctx = unset; func = g; state = ready }

abbrev zero_entered : Func → List (ℕ × Coroutine) → Scheduler → Scheduler
zero_entered g m t = record t {
  coroutines = insert scheduler_id (entered (zero_coroutine g)) m;
  running_id = scheduler_id;
}

resume_zero :
    (g : Func) (t : Scheduler)
    → lookup scheduler_id t.coroutines ≡ some (zero_coroutine g)
    → resume scheduler_id t
      ≡ some (record (ended (entered (zero_coroutine g)) (zero_entered g t.coroutines t)) {
        out = t.out ++ tag scheduler_id (emits g);
      })
unfolding resume swap_to coroutine_entry fake_stack
resume_zero g t found = ground (
  arith,
  lookup-insert scheduler_id scheduler_id (entered (zero_coroutine g)) t.coroutines,
  run_as_scheduler g (entered (zero_coroutine g)) (zero_entered g t.coroutines t),
)

zero_id :
    (g : Func) (s : Scheduler)
    → s.alloc_id ≡ scheduler_id
    → let t = (create g s).1 in
      ((create g s).0 ≡ scheduler_id)
      × ((u : Scheduler) × (resume scheduler_id t ≡ some u)
          × (u.out ≡ s.out ++ tag scheduler_id (emits g))
          × ((c : Coroutine) × (lookup scheduler_id u.coroutines ≡ some c) × (c.state ≡ dead)))
unfolding create new_coroutine
zero_id g s e = (
  e,
  (
    _,
    resume_zero g (create g s).1
        (ground (arith, lookup-insert s.alloc_id scheduler_id (zero_coroutine g) s.coroutines)),
    refl,
    (
      record (entered (zero_coroutine g)) { state = dead },
      ground (
        arith,
        lookup-insert scheduler_id scheduler_id
            (record (entered (zero_coroutine g)) { state = dead })
            (zero_entered g (create g s).1.coroutines (create g s).1).coroutines,
      ),
      refl,
    ),
  ),
)

-- `alloc_id` wraps: the coroutine that is created at the counter 2³² - 1 leaves it at 0, the
-- number that stands for the scheduler. The next coroutine gets that number, none of its calls of
-- `co::yield` gives up control, and its first resumption prints all its lines and ends it.
pub wrapped_id_never_yields :
    (f g : Func) (s : Scheduler)
    → s.alloc_id ≡ 2 ^ 32 - 1
    → let s' = (create f s).1 in
      let t = (create g s').1 in
      ((create g s').0 ≡ scheduler_id)
      × ((u : Scheduler) × (resume scheduler_id t ≡ some u)
          × (u.out ≡ s.out ++ tag scheduler_id (emits g))
          × ((c : Coroutine) × (lookup scheduler_id u.coroutines ≡ some c) × (c.state ≡ dead)))
unfolding create
wrapped_id_never_yields f g s wrapped = zero_id g (create f s).1 (wrap f s wrapped)
