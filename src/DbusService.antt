-- ===== src/DbusService.antt =====
-- `DBusService` of cpp/qt/qdbus/Server/dbusservice.h.
pub mod Progress
pub mod Clients
pub mod Seen
pub mod Examples
use code_study_example.Shared.{ℕ, zero, suc, List, [], ◌∷◌, ◌++◌, Bool, true, false, if◌then◌else◌}

-- `idx` and the timer are static; `handlers` is how many connections its signal has, `emitted` the
-- numbers of the signals `sigProgress`, in order.
pub record Service : Type 0 where
  pub idx : ℕ
  pub handlers : ℕ
  pub is_active : Bool
  pub emitted : List ℕ

unfoldable pub new_service : Service
new_service = record { idx = 0; handlers = 0; is_active = false; emitted = [] }

-- `doLoop`, which does not read its argument but to print it: each call connects one more handler.
unfoldable pub do_loop : Bool → Service → Service
do_loop start s = record s { handlers = suc s.handlers; is_active = true }

-- The handlers at a timeout, in turn.
unfoldable pub run_handlers : ℕ → Service → Service
run_handlers zero s = s
run_handlers (suc n) s =
    run_handlers n (record s { idx = suc s.idx; emitted = s.emitted ++ s.idx ∷ [] })

-- 800 ms later.
unfoldable pub timeout : Service → Service
timeout s = if s.is_active then run_handlers s.handlers s else s
