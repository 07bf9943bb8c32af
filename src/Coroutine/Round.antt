-- ===== src/Coroutine/Round.antt =====
-- One round of the loop in `co::schedule` of cpp/cppcoro/01.coroutine_ucontext.cpp.
use code_study_example.Coroutine.Work.{work, stop-work, Waits-work, has, has_self}
use code_study_example.Coroutine.{dead, Func, Coroutine, Scheduler, lookup, scheduler_id, pass}
use code_study_example.Coroutine.Segment.{stop, lookup-insert, stopped, Waits, entered, resume_lem}
use code_study_example.Coroutine.Invariant.{Inv, Sane, stopped-Inv, stop-func}
use code_study_example.Shared.{
  ℕ, suc, ◌≡◌, ◌≢◌, refl, ◌∙◌, List, [], ◌∷◌, some, none, arith, ◌==◌, if◌then◌else◌, Bool, true,
  false, Bool-cases, inl, inr, Option, ◌≤◌,
}

-- The function of the coroutine with the number `j`, if there is one.
abbrev pub func_at : ℕ → Scheduler → Option Func
func_at j s = elim (lookup j s.coroutines) [ none ↦ none | some c ↦ some c.func ]

-- The round kept the invariant, the numbers and the functions, and left `n` resumptions at most.
pub record Passed (n : ℕ) (s s' : Scheduler) : Type 0 where
  pub inv : Inv s'
  pub same : (j : ℕ) → func_at j s' ≡ func_at j s
  pub left : (j : ℕ) (c : Coroutine) → lookup j s'.coroutines ≡ some c → work c ≤ n

abbrev pub Known : List (ℕ × Coroutine) → Scheduler → Type 0
Known es s = (j : ℕ) → has j es ≡ true → (c : Coroutine) × (lookup j s.coroutines ≡ some c)

abbrev pub Bound : ℕ → List (ℕ × Coroutine) → Scheduler → Type 0
Bound n es s =
    (j : ℕ) (c : Coroutine)
    → lookup j s.coroutines ≡ some c
    → work c ≤ (if has j es then suc n else n)

abbrev pub AllDead : List (ℕ × Coroutine) → Scheduler → Type 0
AllDead es s =
    (j : ℕ) (c : Coroutine) → has j es ≡ true → lookup j s.coroutines ≡ some c → c.state ≡ dead

abbrev pub PassResult : List (ℕ × Coroutine) → ℕ → Scheduler → Type 0
PassResult es n s =
    (b : Bool) × (s' : Scheduler) × (pass es s ≡ some (b, s'))
    × Passed n s s'
    × (b ≡ false → (s' ≡ s) × AllDead es s)

pass_nil : (n : ℕ) (s : Scheduler) → Inv s → Bound n [] s → PassResult [] n s
unfolding pass has
pass_nil n s inv bound = (
  false,
  s,
  refl,
  record { inv = inv; same = λ j. refl; left = bound },
  λ e. (refl, λ j c h at. absurd (ground arith)),
)

-- A dead coroutine is passed over.
pass_dead :
    (id : ℕ) (d c : Coroutine) (es : List (ℕ × Coroutine)) (n : ℕ) (s : Scheduler)
    → lookup id s.coroutines ≡ some c
    → c.state ≡ dead
    → PassResult es n s
    → PassResult ((id, d) ∷ es) n s
unfolding pass has
pass_dead id d c es n s found is (b, s', e, passed, idle) = (
  b,
  s',
  ground arith,
  passed,
  λ h. (
    (idle h).0,
    λ j x there at. elim (Bool-cases (id == j)) [
      | inl here ↦ ground arith
      | inr other ↦ (idle h).1 j x (rw other at there) at
    ],
  ),
)

abbrev next_state : ℕ → Func → Coroutine → Scheduler → Scheduler
next_state id f c s = stopped id f (entered c) s

-- Whoever waits is resumed, and has then been active.
pass_live :
    (id : ℕ) (d c : Coroutine) (f : Func) (es : List (ℕ × Coroutine)) (n : ℕ) (s : Scheduler)
    → id ≢ scheduler_id
    → lookup id s.coroutines ≡ some c
    → Waits id c f
    → PassResult es n (next_state id f c s)
    → PassResult ((id, d) ∷ es) n s
unfolding pass
pass_live id d c f es n s live found waits (b, s', e, passed, idle) = (
  true,
  s',
  ground (arith, resume_lem id f c s live found waits),
  record { inv = passed.inv; same = λ j. passed.same j ∙ func_same j; left = passed.left },
  λ h. absurd (cc h),
)
  where
    func_same : (j : ℕ) → func_at j (next_state id f c s) ≡ func_at j s
    func_same j =
        ground (
          arith,
          lookup-insert id j (stop id f (entered c)) s.coroutines,
          stop-func id f (entered c),
        )

next-Bound :
    (id : ℕ) (d c : Coroutine) (f : Func) (es : List (ℕ × Coroutine)) (n : ℕ) (s : Scheduler)
    → lookup id s.coroutines ≡ some c
    → Waits id c f
    → Bound n ((id, d) ∷ es) s
    → Bound n es (next_state id f c s)
unfolding has
next-Bound id d c f es n s found waits bound j x at = ground (
  arith,
  lookup-insert id j (stop id f (entered c)) s.coroutines,
  stop-work id f (entered c),
  Waits-work id f c waits,
  bound id c found,
  bound j x,
)

next-Known :
    (id : ℕ) (d c : Coroutine) (f : Func) (es : List (ℕ × Coroutine)) (s : Scheduler)
    → Known ((id, d) ∷ es) s
    → Known es (next_state id f c s)
unfolding has
next-Known id d c f es s known j there = elim (Bool-cases (id == j)) [
  | inl here ↦ (
    stop id f (entered c),
    lookup-insert id j (stop id f (entered c)) s.coroutines ∙ rw here refl,
  )
  | inr other ↦
      let (x, at) = known j (rw other there) in
      (x, lookup-insert id j (stop id f (entered c)) s.coroutines ∙ rw other at)
]

pub tail-Known :
    (id : ℕ) (d : Coroutine) (es : List (ℕ × Coroutine)) (s : Scheduler)
    → Known ((id, d) ∷ es) s
    → Known es s
unfolding has
tail-Known id d es s known j there = known j (ground arith)

dead-Bound :
    (id : ℕ) (d c : Coroutine) (es : List (ℕ × Coroutine)) (n : ℕ) (s : Scheduler)
    → lookup id s.coroutines ≡ some c
    → c.state ≡ dead
    → Bound n ((id, d) ∷ es) s
    → Bound n es s
unfolding has
dead-Bound id d c es n s found is bound j x at = ground (arith, bound j x at)

abbrev pub Total : List (ℕ × Coroutine) → ℕ → Type 0
Total es n = (t : Scheduler) → Inv t → Known es t → Bound n es t → PassResult es n t

visit :
    (id : ℕ) (d c : Coroutine) (es : List (ℕ × Coroutine)) (n : ℕ) (s : Scheduler)
    → Inv s
    → Known ((id, d) ∷ es) s
    → Bound n ((id, d) ∷ es) s
    → Total es n
    → lookup id s.coroutines ≡ some c
    → Sane id c s.out
    → PassResult ((id, d) ∷ es) n s
visit id d c es n s inv known bound rest found (live, (f, inl waits, total)) =
    pass_live id d c f es n s live found waits (
      rest (next_state id f c s) (stopped-Inv id f c s inv found total)
        (next-Known id d c f es s known) (next-Bound id d c f es n s found waits bound))
visit id d c es n s inv known bound rest found (live, (f, inr (is, e), total)) =
    pass_dead id d c es n s found is
      (rest s inv (tail-Known id d es s known) (dead-Bound id d c es n s found is bound))

pub pass-Total : (es : List (ℕ × Coroutine)) (n : ℕ) → Total es n
pass-Total [] n s inv known bound = pass_nil n s inv bound
pass-Total ((id, d) ∷ es) n s inv known bound =
    let (c, found) = known id (has_self id d es) in
    visit id d c es n s inv known bound (pass-Total es n) found (inv.sane id c found)
