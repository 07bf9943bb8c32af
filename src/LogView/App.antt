-- ===== src/LogView/App.antt =====
-- The state of cpp/ftxui/demo.cpp, its buttons and the thread that logs.
use code_study_example.Shared.Texts.{Text, codes, decimal}
use code_study_example.Shared.{
  ◌>>=◌, ℕ, suc, ◌%◌, leb, ◌==◌, List, [], ◌∷◌, ◌++◌, Bool, true, false, Option, none, some,
  if◌then◌else◌, get_elem?,
}

pub record AppState : Type 0 where
  pub feature_a : Bool
  pub feature_b : Bool
  pub radio_selected : ℕ
  pub dropdown_selected : ℕ
  pub input_value : Text
  pub last_action : Text
  pub log_show_real : Bool

unfoldable pub new_state : AppState
new_state = record {
  feature_a = false;
  feature_b = true;
  radio_selected = 0;
  dropdown_selected = 0;
  input_value = [];
  last_action = [];
  log_show_real = true;
}

abbrev on_off : Bool → Text
on_off b = if b then codes "ON" else codes "OFF"

-- `ToString`; an index beyond the options is undefined (`none`).
unfoldable pub to_string : List Text → List Text → AppState → Option Text
to_string radio_options dropdown_options s = do
  radio ← get_elem? radio_options s.radio_selected
  dropdown ← get_elem? dropdown_options s.dropdown_selected
  some (
      codes "FeatureA: "
      ++ on_off s.feature_a
      ++ codes " | FeatureB: "
      ++ on_off s.feature_b
      ++ codes " | Radio: "
      ++ radio
      ++ codes " | Dropdown: "
      ++ dropdown
      ++ codes " | Input: "
      ++ s.input_value
      ++ codes " | Action: "
      ++ s.last_action)

unfoldable pub radio_options : List Text
radio_options = codes "Option 1" ∷ codes "Option 2" ∷ codes "Option 3" ∷ []

unfoldable pub dropdown_options : List Text
dropdown_options = codes "Item 1" ∷ codes "Item 2" ∷ codes "Item 3" ∷ []

-- `state`, `logs`, whether `update_ui` is set, how many events it has posted, and how many messages
-- the logging thread has logged.
pub record App : Type 0 where
  pub state : AppState
  pub logs : List Text
  pub update_ui : Bool
  pub posted : ℕ
  pub logger : ℕ

unfoldable pub log_info : Text → App → App
log_info message app = record app {
  logs = app.logs ++ message ∷ [];
  posted = if app.update_ui then suc app.posted else app.posted;
}

unfoldable pub button_ok : App → App
button_ok app =
    log_info (codes "[User] Pressed OK")
      (record app { state = record app.state { last_action = codes "Pressed OK" } })

unfoldable pub button_cancel : App → App
button_cancel app =
    log_info (codes "[User] Pressed Cancel\n")
      (record app { state = record app.state { last_action = codes "Cancelled" } })

-- What the loop of the logging thread logs in turn `i`, from 1 to 90.
unfoldable pub log_line : ℕ → Text
log_line i =
    if i % 3 == 0
    then codes "🔴 Log line " ++ decimal i ++ codes " -> with some extra details to make it longer."
    else codes "  Log line " ++ decimal i

-- The n-th message of the thread, from 0, if it logs so many.
unfoldable pub logger_message : ℕ → Option Text
logger_message n =
    if leb (suc n) 90
    then some (log_line (suc n))
    else (if n == 90 then some (codes "✅ Logger finished.\n") else none)

abbrev pub logged : Option Text → App → App
logged none app = app
logged (some message) app = record (log_info message app) { logger = suc app.logger }

-- One turn of the logging thread; after its last message it has ended.
unfoldable pub logger_turn : App → App
logger_turn app = logged (logger_message app.logger) app
