-- ===== src/Coroutine/Segment.antt =====
-- What one `co::resume` of cpp/cppcoro/01.coroutine_ucontext.cpp does: it runs the coroutine up to
-- its next `co::yield`, or to its end, and comes back to the scheduler.
use code_study_example.Coroutine.{
  ready, running, suspend, dead, Func, return, print, yields, entry, inside, Coroutine, Scheduler,
  lookup, insert, yield, suspend_current, entry_end, run_func, current, swap_to, coroutine_entry,
  fake_stack, resume, scheduler_id,
}
use code_study_example.Shared.{
  ℕ, ◌≡◌, ◌≢◌, refl, ap, ◌∙◌, List, [], ◌∷◌, ◌++◌, map, some, arith, ◌==◌, if◌then◌else◌,
  append-nil, append_assoc, inl, ◌⊎◌, inr,
}

-- All lines that a function prints.
abbrev pub emits : Func → List ℕ
emits return = []
emits (print n f) = n ∷ emits f
emits (yields f) = emits f

-- Those that it prints before its next `co::yield`.
abbrev pub segment : Func → List ℕ
segment return = []
segment (print n f) = n ∷ segment f
segment (yields f) = []

-- What it has to print behind that.
abbrev pub after : Func → Func
after return = return
after (print n f) = after f
after (yields f) = f

abbrev pub stop : ℕ → Func → Coroutine → Coroutine
stop owner return c = record c { state = dead }
stop owner (print n f) c = stop owner f c
stop owner (yields f) c = record c { state = suspend; ctx = inside owner f }

abbrev pub tag : ℕ → List ℕ → List (ℕ × ℕ)
tag id = map (λ n. (id, n))

pub lookup-insert :
    (k j : ℕ) (c : Coroutine) (m : List (ℕ × Coroutine))
    → lookup j (insert k c m) ≡ (if k == j then some c else lookup j m)
unfolding lookup insert
lookup-insert k j c [] = refl
lookup-insert k j c ((i, d) ∷ m) = ground (arith, lookup-insert k j c m)

insert-insert :
    (k : ℕ) (c d : Coroutine) (m : List (ℕ × Coroutine)) → insert k c (insert k d m) ≡ insert k c m
unfolding insert
insert-insert k c d [] = ground arith
insert-insert k c d ((i, e) ∷ m) = ground (arith, insert-insert k c d m)

-- The state when control is back with the scheduler.
abbrev pub stopped : ℕ → Func → Coroutine → Scheduler → Scheduler
stopped owner f c s = record s {
  coroutines = insert owner (stop owner f c) s.coroutines;
  running_id = scheduler_id;
  out = s.out ++ tag owner (segment f);
}

run_func_lem :
    (owner : ℕ) (f : Func) (c : Coroutine) (s : Scheduler)
    → s.running_id ≡ owner
    → owner ≢ scheduler_id
    → lookup owner s.coroutines ≡ some c
    → run_func owner f s ≡ some (stopped owner f c s)
unfolding run_func yield suspend_current entry_end current
run_func_lem owner return c s here live found = rw found (ground (arith, append-nil s.out))
run_func_lem owner (print n f) c s here live found =
    run_func_lem owner f c (record s { out = s.out ++ (s.running_id, n) ∷ [] }) here live found
    ∙ ground (arith, append_assoc s.out ((s.running_id, n) ∷ []) (tag owner (segment f)))
run_func_lem owner (yields f) c s here live found = ground (arith, append-nil s.out)

pub segment-after : (f : Func) → segment f ++ emits (after f) ≡ emits f
segment-after return = refl
segment-after (print n f) = ap (◌∷◌ n) (segment-after f)
segment-after (yields f) = refl

-- What a coroutine that is not dead does when it is resumed: `f` is what is left of its function.
abbrev pub Waits : ℕ → Coroutine → Func → Type 0
Waits id c f = ((c.state ≡ ready) × (c.func ≡ f)) ⊎ ((c.state ≡ suspend) × (c.ctx ≡ inside id f))

abbrev pub entered : Coroutine → Coroutine
entered c = elim c.state [
  | ready ↦ record c { ctx = entry; state = running }
  | _ ↦ record c { state = running }
]

abbrev switched_to : ℕ → Coroutine → Scheduler → Scheduler
switched_to id c s = record s { coroutines = insert id (entered c) s.coroutines; running_id = id }

stopped-switched_to :
    (id : ℕ) (f : Func) (c : Coroutine) (s : Scheduler)
    → id ≢ scheduler_id
    → run_func id f (switched_to id c s) ≡ some (stopped id f (entered c) s)
stopped-switched_to id f c s live =
    run_func_lem id f (entered c) (switched_to id c s) refl live
      (lookup-insert id id (entered c) s.coroutines ∙ ground arith)
    ∙ ground (arith, insert-insert id (stop id f (entered c)) (entered c) s.coroutines)

-- A coroutine that waits runs one segment; then control is back, with nothing else changed.
pub resume_lem :
    (id : ℕ) (f : Func) (c : Coroutine) (s : Scheduler)
    → id ≢ scheduler_id
    → lookup id s.coroutines ≡ some c
    → Waits id c f
    → resume id s ≡ some (stopped id f (entered c) s)
unfolding resume swap_to coroutine_entry fake_stack
resume_lem id f c s live found (inl (st, e)) =
    ground (arith, stopped-switched_to id f c s live, lookup-insert id id (entered c) s.coroutines)
resume_lem id f c s live found (inr (st, e)) = ground (arith, stopped-switched_to id f c s live)
