-- ===== src/Coroutine/Work.antt =====
-- How often the coroutines of cpp/cppcoro/01.coroutine_ucontext.cpp have still to be resumed, and
-- which numbers a list of them has.
use code_study_example.Coroutine.{
  State, ready, suspend, Func, return, print, yields, Ctx, inside, Coroutine, lookup,
}
use code_study_example.Coroutine.Segment.{stop, Waits}
use code_study_example.Shared.{
  ℕ, suc, ◌≡◌, refl, List, [], ◌∷◌, some, arith, ◌==◌, if◌then◌else◌, Bool, true, false, Bool-cases,
  inl, inr, ◌≤◌,
}

abbrev pub yields_in : Func → ℕ
yields_in return = 0
yields_in (print n f) = yields_in f
yields_in (yields f) = suc (yields_in f)

abbrev work_of_ctx : Ctx → ℕ
work_of_ctx (inside owner f) = suc (yields_in f)
work_of_ctx _ = 0

abbrev work_of_state : State → Coroutine → ℕ
work_of_state ready c = suc (yields_in c.func)
work_of_state suspend c = work_of_ctx c.ctx
work_of_state _ c = 0

-- How often a coroutine has still to be resumed.
abbrev pub work : Coroutine → ℕ
work c = work_of_state c.state c

pub stop-work : (id : ℕ) (f : Func) (c : Coroutine) → work (stop id f c) ≤ yields_in f
stop-work id return c = omega arith
stop-work id (print n f) c = stop-work id f c
stop-work id (yields f) c = omega arith

pub Waits-work : (id : ℕ) (f : Func) (c : Coroutine) → Waits id c f → work c ≡ suc (yields_in f)
Waits-work id f c w = ground arith

unfoldable pub has : ℕ → List (ℕ × Coroutine) → Bool
has j [] = false
has j ((i, c) ∷ es) = let rest = has j es in if i == j then true else rest

pub lookup-has :
    (j : ℕ) (es : List (ℕ × Coroutine)) (c : Coroutine) → lookup j es ≡ some c → has j es ≡ true
unfolding lookup has
lookup-has j [] c e = cc
lookup-has j ((i, d) ∷ es) c e = ground (arith, lookup-has j es c)

pub has-lookup :
    (j : ℕ) (es : List (ℕ × Coroutine)) → has j es ≡ true → (c : Coroutine) × (lookup j es ≡ some c)
unfolding lookup has
has-lookup j [] e = absurd (ground arith)
has-lookup j ((i, d) ∷ es) e = elim (Bool-cases (i == j)) [
  | inl here ↦ (d, rw here refl)
  | inr there ↦ rw there (has-lookup j es (rw there at e))
]

pub has_self : (id : ℕ) (d : Coroutine) (es : List (ℕ × Coroutine)) → has id ((id, d) ∷ es) ≡ true
unfolding has
has_self id d es = ground arith

pub has-cons :
    (j id : ℕ) (d : Coroutine) (es : List (ℕ × Coroutine))
    → has j es ≡ true
    → has j ((id, d) ∷ es) ≡ true
unfolding has
has-cons j id d es there = ground arith
