-- ===== src/Coroutine/Invariant.antt =====
-- The state of the library of cpp/cppcoro/01.coroutine_ucontext.cpp between two calls of the
-- scheduler: what every coroutine has printed, and what it has still to do.
use code_study_example.Coroutine.{
  dead, Func, return, print, yields, Coroutine, Scheduler, lookup, create, new_coroutine,
  scheduler_id, new_scheduler, unset, ready,
}
use code_study_example.Coroutine.Segment.{
  emits, segment, after, stop, tag, lookup-insert, stopped, segment-after, Waits, entered,
}
use code_study_example.Shared.{
  ℕ, ◌+◌, ◌≡◌, ◌≢◌, refl, ◌∙◌, List, [], ◌∷◌, ◌++◌, some, none, arith, ◌==◌, if◌then◌else◌,
  append-nil, append_assoc, ◌⊎◌, ◌≤◌, ◌<◌, inr, ℕ_discrete, inl, ◌^◌, subst,
}

-- The lines of one coroutine among all that were printed.
pub lines : ℕ → List (ℕ × ℕ) → List ℕ
lines id [] = []
lines id ((j, n) ∷ out) = let rest = lines id out in if j == id then n ∷ rest else rest

lines-append : (id : ℕ) (xs ys : List (ℕ × ℕ)) → lines id (xs ++ ys) ≡ lines id xs ++ lines id ys
unfolding lines
lines-append id [] ys = refl
lines-append id ((j, n) ∷ xs) ys = ground (arith, lines-append id xs ys)

lines-tag : (id j : ℕ) (ns : List ℕ) → lines j (tag id ns) ≡ (if id == j then ns else [])
unfolding lines
lines-tag id j [] = ground arith
lines-tag id j (n ∷ ns) = ground (arith, lines-tag id j ns)

pub lines-append_tag :
    (id j : ℕ) (ns : List ℕ) (out : List (ℕ × ℕ))
    → lines j (out ++ tag id ns) ≡ (if id == j then lines j out ++ ns else lines j out)
lines-append_tag id j ns out =
    lines-append j out (tag id ns) ∙ ground (arith, lines-tag id j ns, append-nil (lines j out))

-- A coroutine waits with `rest` of its function to run, or is dead; what it has printed and what
-- it will print make up all that its function prints.
abbrev pub Stage : ℕ → Coroutine → Func → Type 0
Stage id c rest = Waits id c rest ⊎ ((c.state ≡ dead) × (rest ≡ return))

abbrev pub Sane : ℕ → Coroutine → List (ℕ × ℕ) → Type 0
Sane id c out =
    (id ≢ scheduler_id)
    × ((rest : Func) × Stage id c rest × (lines id out ++ emits rest ≡ emits c.func))

pub record Inv (s : Scheduler) : Type 0 where
  pub idle : s.running_id ≡ scheduler_id
  pub alloc : s.alloc_id ≢ scheduler_id
  pub fresh : (id : ℕ) → s.alloc_id ≤ id → (lookup id s.coroutines ≡ none) × (lines id s.out ≡ [])
  pub sane : (id : ℕ) (c : Coroutine) → lookup id s.coroutines ≡ some c → Sane id c s.out

stop-Stage : (id : ℕ) (f : Func) (c : Coroutine) → Stage id (stop id f c) (after f)
stop-Stage id return c = inr (refl, refl)
stop-Stage id (print n f) c = stop-Stage id f c
stop-Stage id (yields f) c = inl (inr (refl, refl))

pub stop-func : (id : ℕ) (f : Func) (c : Coroutine) → (stop id f c).func ≡ c.func
stop-func id return c = refl
stop-func id (print n f) c = stop-func id f c
stop-func id (yields f) c = refl

entered-func : (c : Coroutine) → (entered c).func ≡ c.func
entered-func c = ground arith

Sane-eq : (id : ℕ) (out : List (ℕ × ℕ)) (c d : Coroutine) → c ≡ d → Sane id c out → Sane id d out
Sane-eq id out c d e = subst (λ x. Sane id x out) e

stopped-Sane :
    (id : ℕ) (f : Func) (c : Coroutine) (out : List (ℕ × ℕ))
    → id ≢ scheduler_id
    → lines id out ++ emits f ≡ emits c.func
    → Sane id (stop id f (entered c)) (out ++ tag id (segment f))
stopped-Sane id f c out live total = (
  live,
  (
    after f,
    stop-Stage id f (entered c),
    ground (
      arith,
      total,
      lines-append_tag id id (segment f) out,
      append_assoc (lines id out) (segment f) (emits (after f)),
      segment-after f,
      stop-func id f (entered c),
      entered-func c,
    ),
  ),
)

-- What another coroutine prints changes nothing.
other-Sane :
    (id j : ℕ) (c : Coroutine) (ns : List ℕ) (out : List (ℕ × ℕ))
    → id ≢ j
    → Sane j c out
    → Sane j c (out ++ tag id ns)
other-Sane id j c ns out ne (live, (rest, stage, total)) =
    (live, (rest, stage, ground (arith, lines-append_tag id j ns out)))

pub stopped-Inv :
    (id : ℕ) (f : Func) (c : Coroutine) (s : Scheduler)
    → Inv s
    → lookup id s.coroutines ≡ some c
    → lines id s.out ++ emits f ≡ emits c.func
    → Inv (stopped id f (entered c) s)
stopped-Inv id f c s inv found total = record {
  idle = refl;
  alloc = inv.alloc;
  fresh = λ j le. ground (
    arith,
    inv.fresh j le,
    lookup-insert id j (stop id f (entered c)) s.coroutines,
    lines-append_tag id j (segment f) s.out,
  );
  sane = λ j d at. elim (ℕ_discrete id j) [
    | yes e ↦ rw (← e) (
        Sane-eq id (s.out ++ tag id (segment f)) (stop id f (entered c)) d
          (ground (arith, lookup-insert id j (stop id f (entered c)) s.coroutines))
          (stopped-Sane id f c s.out (inv.sane id c found).0 total))
    | no ne ↦
        other-Sane id j d (segment f) s.out ne
          (inv.sane j d (ground (arith, lookup-insert id j (stop id f (entered c)) s.coroutines)))
  ];
}

create-Inv : (f : Func) (s : Scheduler) → Inv s → s.alloc_id + 1 < 2 ^ 32 → Inv (create f s).1
unfolding create new_coroutine
create-Inv f s inv small = record {
  idle = inv.idle;
  alloc = ground (arith, inv.alloc);
  fresh = λ j le.
      ground
        (arith, inv.fresh j, lookup-insert s.alloc_id j (new_coroutine s.alloc_id f) s.coroutines);
  sane = λ j d at. elim (ℕ_discrete s.alloc_id j) [
    | yes e ↦ rw (← e) (
        Sane-eq s.alloc_id s.out (new_coroutine s.alloc_id f) d
          (ground (arith, lookup-insert s.alloc_id j (new_coroutine s.alloc_id f) s.coroutines))
          (inv.alloc, (f, inl (inl (refl, refl)), ground (arith, inv.fresh s.alloc_id))))
    | no ne ↦
        inv.sane j d
          (ground (arith, lookup-insert s.alloc_id j (new_coroutine s.alloc_id f) s.coroutines))
  ];
}

-- `co::create` gives a number that no coroutine has; under it the new coroutine is found, ready to
-- run the function, and the invariant is kept, as long as the counter does not wrap.
pub create_fresh :
    (f : Func) (s : Scheduler)
    → Inv s
    → s.alloc_id + 1 < 2 ^ 32
    → (lookup (create f s).0 s.coroutines ≡ none)
      × (lookup (create f s).0 (create f s).1.coroutines
          ≡ some (record { id = (create f s).0; ctx = unset; func = f; state = ready }))
      × Inv (create f s).1
unfolding create new_coroutine
create_fresh f s inv small = (
  (inv.fresh s.alloc_id (omega arith)).0,
  lookup-insert s.alloc_id s.alloc_id (new_coroutine s.alloc_id f) s.coroutines ∙ ground arith,
  create-Inv f s inv small,
)

pub new_scheduler-Inv : Inv new_scheduler
unfolding lookup lines
new_scheduler-Inv = record {
  idle = refl;
  alloc = λ e. cc;
  fresh = λ id le. (refl, refl);
  sane = λ id c e. cc;
}
