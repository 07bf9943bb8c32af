-- ===== src/Semaphores/Turns.antt =====
-- How the two programs of cpp/qt/SystemSemaphore take turns.
use code_study_example.Semaphores.{
  Server, acquiring, capturing, Client, asleep, waiting, System, created, Step, acquires, ends,
  asks, reports, Run, here, then_step,
}
use code_study_example.Shared.{ℕ, zero, suc, ◌⊎◌, inl, inr, ◌↔◌, ◌+◌, ◌≤◌, ◌≡◌, refl, ap, arith}

abbrev at_capture : Server → ℕ
at_capture acquiring = 0
at_capture capturing = 1

abbrev at_wait : Client → ℕ
at_wait asleep = 0
at_wait waiting = 1

-- What the values of the semaphores are made of.
pub record Counted (s : System) : Type 0 where
  pub starts : s.start + s.begun ≡ s.asked
  pub captures : s.captured + at_capture s.server ≡ s.begun
  pub ended : s.end + s.reported ≡ suc s.captured
  pub asks_once : s.reported + at_wait s.client ≡ s.asked

created-Counted : Counted created
unfolding created
created-Counted = record {
  starts = omega arith;
  captures = omega arith;
  ended = omega arith;
  asks_once = omega arith;
}

Step-Counted : (s t : System) → Counted s → Step s t → Counted t
Step-Counted s t c (acquires n e f) = record {
  starts = omega (arith, c.starts, f);
  captures = omega (arith, c.captures, ap at_capture e);
  ended = c.ended;
  asks_once = c.asks_once;
}
Step-Counted s t c (ends e) = record {
  starts = c.starts;
  captures = omega (arith, c.captures, ap at_capture e);
  ended = omega (arith, c.ended);
  asks_once = c.asks_once;
}
Step-Counted s t c (asks e) = record {
  starts = omega (arith, c.starts);
  captures = c.captures;
  ended = c.ended;
  asks_once = omega (arith, c.asks_once, ap at_wait e);
}
Step-Counted s t c (reports n e f) = record {
  starts = c.starts;
  captures = c.captures;
  ended = omega (arith, c.ended, f);
  asks_once = omega (arith, c.asks_once, ap at_wait e);
}

Run-Counted : (s : System) → Run s → Counted s
Run-Counted s here = created-Counted
Run-Counted u (then_step s t r m) = Step-Counted s t (Run-Counted s r) m

-- In every run no capture happens that was not asked for, and none that was asked for is lost: those
-- that are begun and those that wait at the first semaphore are those that were asked for. The client
-- reports at most one capture that has not ended.
pub captures_as_asked :
    (s : System)
    → Run s
    → (s.start + s.begun ≡ s.asked) × (s.captured ≤ s.asked) × (s.reported ≤ suc s.captured)
captures_as_asked s r =
    let c = Run-Counted s r in
    (c.starts, omega (arith, c.starts, c.captures), omega (arith, c.ended))

-- The client does not wait for its own capture: while it waits after it has asked for the k-th one,
-- its wait can end exactly when k - 1 captures have ended.
pub waits_for_previous :
    (s : System) → Run s → s.client ≡ waiting → (1 ≤ s.end) ↔ (s.asked ≤ suc s.captured)
waits_for_previous s r w =
    let c = Run-Counted s r in omega (arith, c.ended, c.asks_once, ap at_wait w)

nat_cases : (n : ℕ) → (n ≡ 0) ⊎ ((k : ℕ) × (n ≡ suc k))
nat_cases zero = inl refl
nat_cases (suc k) = inr (k, refl)

positive : (n : ℕ) → 1 ≤ n → (k : ℕ) × (n ≡ suc k)
positive zero h = absurd (omega (arith, h))
positive (suc k) h = (k, refl)

some-Step :
    (s : System) (server : Server) (client : Client)
    → s.server ≡ server
    → s.client ≡ client
    → Counted s
    → (t : System) × Step s t
some-Step s capturing client e f c = (_, ends e)
some-Step s acquiring asleep e f c = (_, asks f)
some-Step s acquiring waiting e f c = elim (nat_cases s.start) [
  | inr (n, g) ↦ (_, acquires n e g)
  | inl g ↦
      let (n, h) = positive s.end (
        omega
          (arith, g, c.starts, c.captures, c.ended, c.asks_once, ap at_capture e, ap at_wait f)) in
      (_, reports n f h)
]

-- The programs never block each other: from every state of every run some step of one of them
-- is possible.
pub always_a-Step : (s : System) → Run s → (t : System) × Step s t
always_a-Step s r = some-Step s s.server s.client refl refl (Run-Counted s r)
