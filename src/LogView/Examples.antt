-- ===== src/LogView/Examples.antt =====
-- The log view of cpp/ftxui/demo.cpp on concrete logs.
use code_study_example.LogView.{LogFileStream, visible_logs, drop}
use code_study_example.LogView.Window.{visible_part}
use code_study_example.LogView.App.{App}
use code_study_example.LogView.Follows.{ok, logger, after_turns, messages, view_follows}
use code_study_example.Shared.{
  ℕ, ◌*◌, ◌/◌, ◌≤◌, ◌≡◌, refl, List, [], ◌∷◌, ◌++◌, Bool, true, false, some, length, arith, ◌-◌,
}
use code_study_example.Shared.Int.{ℤ, pos, pos_part}

abbrev twenty : List ℕ
twenty =
    1 ∷ 2 ∷ 3 ∷ 4 ∷ 5 ∷ 6 ∷ 7 ∷ 8 ∷ 9 ∷ 10 ∷ 11 ∷ 12 ∷ 13 ∷ 14 ∷ 15 ∷ 16 ∷ 17 ∷ 18 ∷ 19 ∷ 20 ∷ []

-- The slider's share in whole numbers.
abbrev percent : ℕ → ℤ → ℤ
percent v n = pos (v * pos_part n / 100)

visible_part_example :
    (before : List ℕ) × (part : List ℕ) × (after : List ℕ) × (visible_logs percent false 90 twenty
      ≡ some part)
    × (before ++ (part ++ after) ≡ twenty)
    × (length part ≤ 15)
visible_part_example = visible_part percent false 90 twenty (λ n. ground arith)

abbrev buffered : LogFileStream
buffered = record { oss = 7 ∷ []; file = 5 ∷ 6 ∷ [] }

abbrev insertions : List (Bool × List ℕ)
insertions = (false, 8 ∷ 9 ∷ []) ∷ (true, 10 ∷ []) ∷ (false, 11 ∷ []) ∷ []

abbrev new_app : App
new_app = record {
  state = record {
    feature_a = false;
    feature_b = true;
    radio_selected = 0;
    dropdown_selected = 0;
    input_value = [];
    last_action = [];
    log_show_real = true;
  };
  logs = [];
  update_ui = true;
  posted = 0;
  logger = 2;
}

view_follows_example :
    visible_logs percent
      (after_turns (logger ∷ ok ∷ logger ∷ []) new_app).state.log_show_real
      40
      (after_turns (logger ∷ ok ∷ logger ∷ []) new_app).logs
    ≡ some (
        drop
          (length (new_app.logs ++ messages (logger ∷ ok ∷ logger ∷ []) new_app.logger) - 15)
          (new_app.logs ++ messages (logger ∷ ok ∷ logger ∷ []) new_app.logger))
view_follows_example = view_follows percent 40 (logger ∷ ok ∷ logger ∷ []) new_app refl
