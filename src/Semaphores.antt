-- ===== src/Semaphores.antt =====
-- The two programs of cpp/qt/SystemSemaphore and the semaphores between them.
pub mod Turns
pub mod Examples
use code_study_example.Shared.{ℕ, suc, ◌+◌, ◌≡◌}

-- Where the server stands in its loop, and the client in its.
pub data Server : Type 0 where
  acquiring : Server  -- in `sem.acquire()`
  capturing : Server  -- between `sem.acquire()` and `sem_end.release()`

pub data Client : Type 0 where
  asleep : Client  -- before `sem.release()`
  waiting : Client  -- in `sem_end.acquire()`

-- The values of "capture-start" and "capture-end", and how many captures were begun and ended, asked
-- for and reported by the client.
pub record System : Type 0 where
  pub start : ℕ
  pub end : ℕ
  pub server : Server
  pub client : Client
  pub begun : ℕ
  pub captured : ℕ
  pub asked : ℕ
  pub reported : ℕ

-- The server creates the semaphores, with 0 and 1; the client opens them after it, which keeps
-- their values.
unfoldable pub created : System
created = record {
  start = 0;
  end = 1;
  server = acquiring;
  client = asleep;
  begun = 0;
  captured = 0;
  asked = 0;
  reported = 0;
}

pub data Step (s : System) : System → Type 0 where
  acquires :
      (n : ℕ)
      → s.server ≡ acquiring
      → s.start ≡ suc n
      → Step s (record s { start = n; server = capturing; begun = suc s.begun })
  ends :
      s.server ≡ capturing
      → Step s (record s { end = suc s.end; server = acquiring; captured = suc s.captured })
  asks :
      s.client ≡ asleep
      → Step s (record s { start = suc s.start; client = waiting; asked = suc s.asked })
  reports :
      (n : ℕ)
      → s.client ≡ waiting
      → s.end ≡ suc n
      → Step s (record s { end = n; client = asleep; reported = suc s.reported })

pub data Run : System → Type 0 where
  here : Run created
  then_step : (s t : System) → Run s → Step s t → Run t
