-- ===== src/DbusService/Clients.antt =====
-- The clients of the service: cpp/qt/qdbus/Client/Client.h, main.cpp and powerinterface.h.
use code_study_example.DbusService.{Service, new_service, do_loop, timeout}
use code_study_example.Shared.Texts.{Text, codes, same_text}
use code_study_example.Shared.{
  ℕ, ◌==◌, ◌&&◌, List, [], ◌∷◌, ◌++◌, map, length, drop, Bool, true, ltb, Option, none, some,
  if◌then◌else◌,
}

-- The service and, for each client in the order of arrival, the codes that its `onProgress` has
-- printed.
pub record Bus : Type 0 where
  pub service : Service
  pub clients : List (List ℕ)

unfoldable pub new_bus : Bus
new_bus = record { service = new_service; clients = [] }

-- The constructor of `Client` connects to the signal, reads `result`, and makes the call of `doLoop`,
-- which the service serves later.
unfoldable pub new_client : Bus → Bus
new_client b = record b { clients = b.clients ++ [] ∷ [] }

unfoldable pub doloop : Bus → Bus
doloop b = record b { service = do_loop true b.service }

-- `onProgress`, for the signals that one timeout of the service emits.
unfoldable pub on_progress : List ℕ → List ℕ → List ℕ
on_progress codes printed = printed ++ codes

unfoldable pub bus_timeout : Bus → Bus
bus_timeout b =
    let s = timeout b.service in
    let codes = drop (length b.service.emitted) s.emitted in
    record { service = s; clients = map (on_progress codes) b.clients }

-- The properties of `PowerInterface`, with the signals that notify of them.
pub data Property : Type 0 where
  on_battery : Property
  battery_percentage : Property

abbrev pub property_name : Property → Text
property_name on_battery = codes "OnBattery"
property_name battery_percentage = codes "BatteryPercentage"

-- The loop over the properties of the class.
abbrev notified : Text → List Property → List Property
notified prop [] = []
notified prop (p ∷ ps) =
    let rest = notified prop ps in if same_text (property_name p) prop then p ∷ rest else rest

abbrev all_notified : List Text → List Property
all_notified [] = []
all_notified (prop ∷ props) =
    notified prop (on_battery ∷ battery_percentage ∷ []) ++ all_notified props

-- `__propertyChanged__`, for a message with so many arguments, the name of an interface and the names
-- of the changed properties: the signals that it emits.
unfoldable pub property_changed : ℕ → Text → List Text → List Property
property_changed arguments interface_name changed_props =
    if arguments == 3
    then (if same_text interface_name (codes "com.deepin.daemon.Power")
        then all_notified changed_props
        else [])
    else []

-- `checkLowPower` of main.cpp. `clamped` is what qMin, qMax and uint make of a `double`, which is 0.0
-- where there is no display.
module _ {Double : Type 0} (zero_double : Double) (clamped : Double → ℕ) where
  abbrev display : Option Double → ℕ
  display none = clamped zero_double
  display (some percentage) = clamped percentage

  unfoldable pub check_low_power : Bool → Option Double → Bool
  check_low_power is_on_battery percentage = ltb (display percentage) 60 && is_on_battery
