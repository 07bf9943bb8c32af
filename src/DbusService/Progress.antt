-- ===== src/DbusService/Progress.antt =====
-- The progress that cpp/qt/qdbus/Server/dbusservice.h reports.
use code_study_example.DbusService.{Service, new_service, do_loop, run_handlers, timeout}
use code_study_example.Shared.{
  ℕ, zero, suc, ◌+◌, ◌*◌, ◌≡◌, refl, sym, ap, ◌∙◌, List, [], ◌∷◌, ◌++◌, Bool, true, if_true, length,
  arith, subst,
}

abbrev pub do_loops : List Bool → Service → Service
do_loops [] s = s
do_loops (start ∷ starts) s = do_loops starts (do_loop start s)

abbrev pub timeouts : ℕ → Service → Service
timeouts zero s = s
timeouts (suc n) s = timeouts n (timeout s)

-- The numbers below n.
abbrev pub numbers : ℕ → List ℕ
numbers zero = []
numbers (suc n) = numbers n ++ n ∷ []

-- The numbers that were emitted are those below the next one.
pub record Counted (n : ℕ) (s : Service) : Type 0 where
  pub next : s.idx ≡ n
  pub all_below : s.emitted ≡ numbers n

zero_plus : (n : ℕ) → 0 + n ≡ n
zero_plus n = omega arith

zero_more : (n : ℕ) → n ≡ n + 0
zero_more n = omega arith

suc_more : (n k : ℕ) → suc n + k ≡ n + suc k
suc_more n k = omega arith

times_zero : (n h : ℕ) → n ≡ n + h * 0
times_zero n h = omega arith

times_suc : (n h m : ℕ) → n + h + h * m ≡ n + h * suc m
times_suc n h m = omega arith

pub handlers-Counted :
    (k n : ℕ) (s : Service)
    → Counted n s
    → Counted (n + k) (run_handlers k s)
      × ((run_handlers k s).handlers ≡ s.handlers)
      × ((run_handlers k s).is_active ≡ s.is_active)
unfolding run_handlers
handlers-Counted zero n s c = (subst (λ m. Counted m s) (zero_more n) c, refl, refl)
handlers-Counted (suc k) n s c =
    let one : Counted (suc n) (record s { idx = suc s.idx; emitted = s.emitted ++ s.idx ∷ [] }) =
      record { next = omega (arith, c.next); all_below = rw (c.next, c.all_below) refl } in
    let (d, h, a) = handlers-Counted k (suc n) _ one in
    (subst (λ m. Counted m (run_handlers (suc k) s)) (suc_more n k) d, h, a)

timeout_lem : (s : Service) → s.is_active ≡ true → timeout s ≡ run_handlers s.handlers s
unfolding timeout
timeout_lem s a = if_true s.is_active (run_handlers s.handlers s) s a

timeouts-Counted :
    (m n h : ℕ) (s : Service)
    → s.is_active ≡ true
    → s.handlers ≡ h
    → Counted n s
    → Counted (n + h * m) (timeouts m s)
timeouts-Counted zero n h s a e c = subst (λ k. Counted k s) (times_zero n h) c
timeouts-Counted (suc m) n h s a e c =
    let (d, k, b) = handlers-Counted s.handlers n s c in
    let t = timeout_lem s a in
    let after =
      timeouts-Counted m (n + h) h (timeout s) (ap (λ (x : Service). x.is_active) t ∙ b ∙ a)
        (ap (λ (x : Service). x.handlers) t ∙ k ∙ e)
        (subst (λ x. Counted (n + h) x) (sym t)
          (subst (λ j. Counted (n + j) (run_handlers s.handlers s)) e d)) in
    subst (λ k. Counted k (timeouts (suc m) s)) (times_suc n h m) after

do_loops_lem :
    (starts : List Bool) (s : Service)
    → ((do_loops starts s).handlers ≡ s.handlers + length starts)
      × ((do_loops starts s).idx ≡ s.idx)
      × ((do_loops starts s).emitted ≡ s.emitted)
unfolding do_loop
do_loops_lem [] s = (omega arith, refl, refl)
do_loops_lem (start ∷ starts) s =
    let (h, i, e) = do_loops_lem starts (do_loop start s) in (omega (arith, h), i, e)

do_loops_active :
    (start : Bool) (starts : List Bool) (s : Service)
    → (do_loops (start ∷ starts) s).is_active ≡ true
unfolding do_loop
do_loops_active start [] s = refl
do_loops_active start (next ∷ starts) s = do_loops_active next starts (do_loop start s)

-- After calls of `doLoop`, one at least, with whatever argument, every timeout emits as many signals
-- as there were calls; the signals are numbered from 0 without a gap.
pub progress_per_timeout :
    (start : Bool) (starts : List Bool) (m : ℕ)
    → ((timeouts m (do_loops (start ∷ starts) new_service)).idx ≡ length (start ∷ starts) * m)
      × ((timeouts m (do_loops (start ∷ starts) new_service)).emitted
          ≡ numbers (length (start ∷ starts) * m))
unfolding new_service
progress_per_timeout start starts m =
    let s = do_loops (start ∷ starts) new_service in
    let (h, i, e) = do_loops_lem (start ∷ starts) new_service in
    let c =
      timeouts-Counted m 0 (length (start ∷ starts)) s (do_loops_active start starts new_service)
        (omega (arith, h)) (record { next = i; all_below = e }) in
    (omega (arith, c.next), c.all_below ∙ ap numbers (zero_plus (length (start ∷ starts) * m)))
