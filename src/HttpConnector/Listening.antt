-- ===== src/HttpConnector/Listening.antt =====
-- The thread of the server in cpp/jsonrpc/json-rpc-cxx/examples/conn/cpphttplibconnector.hpp.
use code_study_example.HttpConnector.{
  Listener, absent, starting, serving, ended, is_running, assign_thread, start_listening,
  stop_listening, destroy_thread, destroy, ℕ,
}
use code_study_example.Shared.{
  ℕ, zero, suc, ◌≡◌, refl, List, [], ◌∷◌, Bool, true, false, Option, none, some, ◌>>=◌, ap, suc,
}

-- What happens to a server: its two methods are called, its thread begins to serve, or `listen`
-- fails there, as it does where the port is taken.
pub data Event : Type 0 where
  start : Event
  stop : Event
  listens : Event
  fails : Event

abbrev pub serve : Listener → Listener
serve starting = serving
serve l = l

abbrev pub fail : Listener → Listener
fail starting = ended
fail l = l

abbrev thread_of : Option (Bool × Listener) → Option Listener
thread_of none = none
thread_of (some (result, l)) = some l

abbrev pub after_event : Event → Listener → Option Listener
after_event start l = thread_of (start_listening l)
after_event stop l = some (stop_listening l)
after_event listens l = some (serve l)
after_event fails l = some (fail l)

abbrev pub after_events : List Event → Listener → Option Listener
after_events [] l = some l
after_events (e ∷ es) l = after_event e l >>= after_events es

-- Starts and stops, where each start is given the time to serve.
pub data Use : Type 0 where
  start_and_wait : Use
  stop_it : Use

abbrev pub events_of : List Use → List Event
events_of [] = []
events_of (start_and_wait ∷ us) = start ∷ listens ∷ events_of us
events_of (stop_it ∷ us) = stop ∷ events_of us

-- Whether the program survives the events and then the destructor.
abbrev pub survives : Option Listener → Bool
survives none = false
survives (some l) = destroy l

settled_survives :
    (us : List Use)
    → (survives (after_events (events_of us) absent) ≡ true)
      × (survives (after_events (events_of us) serving) ≡ true)
unfolding start_listening stop_listening destroy destroy_thread assign_thread is_running
settled_survives [] = (refl, refl)
settled_survives (start_and_wait ∷ us) = ((settled_survives us).1, (settled_survives us).1)
settled_survives (stop_it ∷ us) = ((settled_survives us).0, (settled_survives us).0)

-- The program survives any starts and stops of a server, and its destructor after them, where each
-- start is given the time to serve and the port is free.
pub used_with_care : (us : List Use) → survives (after_events (events_of us) absent) ≡ true
used_with_care us = (settled_survives us).0

abbrev pub stops : ℕ → List Event
stops zero = []
stops (suc n) = stop ∷ stops n

stops_in_vain : (n : ℕ) (l : Listener) → is_running l ≡ false → after_events (stops n) l ≡ some l
unfolding stop_listening
stops_in_vain zero l h = refl
stops_in_vain (suc n) l h = rw h (stops_in_vain n l h)

-- Where `listen` fails, as on a port that is taken, or does not serve yet, no calls of
-- `StopListening` help: the program is terminated by the destructor that follows them.
pub unserved_terminates :
    (n : ℕ)
    → (survives (after_events (start ∷ fails ∷ stops n) absent) ≡ false)
      × (survives (after_events (start ∷ stops n) absent) ≡ false)
unfolding start_listening stop_listening destroy destroy_thread assign_thread is_running
unserved_terminates n =
    (ap survives (stops_in_vain n ended refl), ap survives (stops_in_vain n starting refl))
