-- ===== src/DbusService/Seen.antt =====
-- What the clients of cpp/qt/qdbus see of the progress.
use code_study_example.DbusService.{Service, new_service, do_loop, run_handlers, timeout}
use code_study_example.DbusService.Clients.{
  Bus, new_bus, new_client, doloop, on_progress, bus_timeout,
}
use code_study_example.DbusService.Progress.{Counted, numbers, handlers-Counted}
use code_study_example.Shared.{
  ℕ, zero, suc, ◌≡◌, refl, sym, ap, subst, ◌∙◌, List, [], ◌∷◌, ◌++◌, map, length, drop, All,
  All-append, Bool, true, false, if◌then◌else◌, append-nil, append_assoc, drop-append,
}

pub data Action : Type 0 where
  arrives : Action
  calls : Action
  ticks : Action

abbrev pub act : Action → Bus → Bus
act arrives b = new_client b
act calls b = doloop b
act ticks b = bus_timeout b

abbrev pub acts : List Action → Bus → Bus
acts [] b = b
acts (a ∷ actions) b = acts actions (act a b)

-- A client has printed the last of the emitted codes.
abbrev pub Follows : List ℕ → List ℕ → Type 0
Follows emitted printed = (before : List ℕ) × (before ++ printed ≡ emitted)

record Served (b : Bus) : Type 0 where
  counted : Counted b.service.idx b.service
  follow : All (Follows b.service.emitted) b.clients

-- A timeout only adds to what was emitted.
handlers_add :
    (k : ℕ) (s : Service) → (more : List ℕ) × ((run_handlers k s).emitted ≡ s.emitted ++ more)
unfolding run_handlers
handlers_add zero s = ([], sym (append-nil s.emitted))
handlers_add (suc k) s =
    let (more, e) =
      handlers_add k (record s { idx = suc s.idx; emitted = s.emitted ++ s.idx ∷ [] }) in
    (s.idx ∷ more, e ∙ append_assoc s.emitted (s.idx ∷ []) more)

timeout_adds : (s : Service) → (more : List ℕ) × ((timeout s).emitted ≡ s.emitted ++ more)
unfolding timeout
timeout_adds s = by_active s s.is_active
  where
    by_active :
        (s : Service) (b : Bool)
        → (more : List ℕ) × ((if b then run_handlers s.handlers s else s).emitted
            ≡ s.emitted ++ more)
    by_active s true = handlers_add s.handlers s
    by_active s false = ([], sym (append-nil s.emitted))

timeout-Counted : (s : Service) → Counted s.idx s → Counted (timeout s).idx (timeout s)
unfolding timeout
timeout-Counted s c = by_active s s.is_active c
  where
    by_active :
        (s : Service) (b : Bool)
        → Counted s.idx s
        → Counted
            (if b then run_handlers s.handlers s else s).idx
            (if b then run_handlers s.handlers s else s)
    by_active s true c =
        let d = (handlers-Counted s.handlers s.idx s c).0 in
        subst (λ n. Counted n (run_handlers s.handlers s)) (sym d.next) d
    by_active s false c = c

printed-Follows :
    (emitted more printed : List ℕ)
    → Follows emitted printed
    → Follows (emitted ++ more) (on_progress more printed)
unfolding on_progress
printed-Follows emitted more printed (before, e) =
    (before, sym (append_assoc before printed more) ∙ ap (λ (l : List ℕ). l ++ more) e)

map-Follows :
    (emitted more : List ℕ) (clients : List (List ℕ))
    → All (Follows emitted) clients
    → All (Follows (emitted ++ more)) (map (on_progress more) clients)
map-Follows emitted more [] h = tt
map-Follows emitted more (p ∷ ps) h =
    (printed-Follows emitted more p h.0, map-Follows emitted more ps h.1)

act-Served : (a : Action) (b : Bus) → Served b → Served (act a b)
unfolding new_client doloop bus_timeout do_loop
act-Served arrives b h = record {
  counted = h.counted;
  follow =
      All-append (Follows b.service.emitted) b.clients ([] ∷ []) h.follow
        ((b.service.emitted, append-nil b.service.emitted), tt);
}
act-Served calls b h = record {
  counted = record { next = refl; all_below = h.counted.all_below };
  follow = h.follow;
}
act-Served ticks b h =
    let (more, e) = timeout_adds b.service in
    let fresh = ap (drop (length b.service.emitted)) e ∙ drop-append b.service.emitted more in
    record {
      counted = timeout-Counted b.service h.counted;
      follow =
          subst
            (λ l. All (Follows l) (
              map (on_progress (drop (length b.service.emitted) (timeout b.service).emitted))
                b.clients))
            (sym e)
            (subst (λ m. All (Follows (b.service.emitted ++ more)) (map (on_progress m) b.clients))
              (sym fresh) (map-Follows b.service.emitted more b.clients h.follow));
    }

acts-Served : (actions : List Action) (b : Bus) → Served b → Served (acts actions b)
acts-Served [] b h = h
acts-Served (a ∷ actions) b h = acts-Served actions (act a b) (act-Served a b h)

-- Whenever the clients arrive and call `doLoop`, the service emits the numbers from 0 on without a gap, and every client
-- has printed the last of them, in order: all that were emitted since it arrived.
pub clients_follow :
    (actions : List Action)
    → let b = acts actions new_bus in
      (b.service.emitted ≡ numbers b.service.idx)
      × All (λ printed. (before : List ℕ) × (before ++ printed ≡ b.service.emitted)) b.clients
unfolding new_bus new_service
clients_follow actions =
    let h =
      acts-Served actions new_bus
        (record { counted = record { next = refl; all_below = refl }; follow = tt }) in
    (h.counted.all_below, h.follow)
