-- ===== src/DbusService/Examples.antt =====
-- Clients of cpp/qt/qdbus, and a change of the power.
use code_study_example.DbusService.{new_service, do_loop, run_handlers, timeout}
use code_study_example.DbusService.Clients.{
  new_bus, new_client, doloop, on_progress, bus_timeout, on_battery, property_changed,
  check_low_power,
}
use code_study_example.DbusService.Seen.{Action, arrives, calls, ticks, acts}
use code_study_example.Shared.Texts.{codes}
use code_study_example.Shared.{◌≡◌, refl, List, [], ◌∷◌, true, false, some, none}

-- The second client makes the service twice as fast.
abbrev two_clients : List Action
two_clients = arrives ∷ calls ∷ ticks ∷ arrives ∷ calls ∷ ticks ∷ []

seen : (acts two_clients new_bus).clients ≡ (0 ∷ 1 ∷ 2 ∷ []) ∷ (1 ∷ 2 ∷ []) ∷ []
unfolding new_bus new_service new_client doloop bus_timeout on_progress do_loop timeout run_handlers
seen = refl

battery_only :
    property_changed 3
      (codes "com.deepin.daemon.Power")
      (codes "HasBattery" ∷ codes "OnBattery" ∷ [])
    ≡ on_battery ∷ []
unfolding property_changed
battery_only = refl

other_interface : property_changed 3 (codes "com.deepin.daemon") (codes "OnBattery" ∷ []) ≡ []
unfolding property_changed
other_interface = refl

low : check_low_power 0 (λ d. d) true (some 59) ≡ true
unfolding check_low_power
low = refl

no_display : check_low_power 0 (λ d. d) false none ≡ false
unfolding check_low_power
no_display = refl
