-- ===== src/LogView/Follows.antt =====
-- What the log view of cpp/ftxui/demo.cpp shows while messages arrive.
use code_study_example.LogView.{visible_logs}
use code_study_example.LogView.App.{
  AppState, App, log_info, button_ok, button_cancel, logger_message, logged, logger_turn,
}
use code_study_example.LogView.Window.{visible_latest}
use code_study_example.Shared.Int.{ℤ}
use code_study_example.Shared.Texts.{Text, codes}
use code_study_example.Shared.{
  ℕ, suc, ◌-◌, ◌≡◌, refl, sym, ap, ◌∙◌, List, [], ◌∷◌, ◌++◌, true, Option, none, some, length, drop,
  append_assoc, append-nil,
}

-- The user at the buttons, and the logging thread, in any order.
pub data Turn : Type 0 where
  ok : Turn
  cancel : Turn
  logger : Turn

abbrev pub after_turn : Turn → App → App
after_turn ok app = button_ok app
after_turn cancel app = button_cancel app
after_turn logger app = logger_turn app

abbrev pub after_turns : List Turn → App → App
after_turns [] app = app
after_turns (t ∷ ts) app = after_turns ts (after_turn t app)

-- The messages that the turns amount to, where the thread has logged `n` before.
abbrev said : Option Text → List Text
said none = []
said (some message) = message ∷ []

abbrev one_more : Option Text → ℕ → ℕ
one_more none n = n
one_more (some message) n = suc n

abbrev pub messages : List Turn → ℕ → List Text
messages [] n = []
messages (ok ∷ ts) n = codes "[User] Pressed OK" ∷ messages ts n
messages (cancel ∷ ts) n = codes "[User] Pressed Cancel\n" ∷ messages ts n
messages (logger ∷ ts) n = said (logger_message n) ++ messages ts (one_more (logger_message n) n)

logged_lem :
    (message : Option Text) (app : App)
    → ((logged message app).logs ≡ app.logs ++ said message)
      × ((logged message app).logger ≡ one_more message app.logger)
      × ((logged message app).state ≡ app.state)
unfolding log_info
logged_lem none app = (sym (append-nil app.logs), refl, refl)
logged_lem (some message) app = (refl, refl, refl)

turns_logs :
    (ts : List Turn) (app : App)
    → ((after_turns ts app).logs ≡ app.logs ++ messages ts app.logger)
      × ((after_turns ts app).state.log_show_real ≡ app.state.log_show_real)
unfolding button_ok button_cancel log_info logger_turn
turns_logs [] app = (sym (append-nil app.logs), refl)
turns_logs (ok ∷ ts) app =
    let (l, s) = turns_logs ts (button_ok app) in (l ∙ append_assoc app.logs _ _, s)
turns_logs (cancel ∷ ts) app =
    let (l, s) = turns_logs ts (button_cancel app) in (l ∙ append_assoc app.logs _ _, s)
turns_logs (logger ∷ ts) app =
    let (l, s) = turns_logs ts (logger_turn app) in
    let (logs, n, state) = logged_lem (logger_message app.logger) app in
    (
      l
          ∙ ap (λ (x : List Text). x ++ messages ts (logger_turn app).logger) logs
          ∙ append_assoc app.logs _ _
          ∙ ap (λ k. app.logs ++ (said (logger_message app.logger) ++ messages ts k)) n,
      s ∙ ap (λ (x : AppState). x.log_show_real) state,
    )

-- While the view follows the log, it shows after any presses of the buttons and any messages of the
-- logging thread, in whatever order they come, the last 15 of all messages, in the order in which
-- they came, or all where there are fewer.
pub view_follows :
    (scaled : ℕ → ℤ → ℤ) (slider_value : ℕ) (ts : List Turn) (app : App)
    → app.state.log_show_real ≡ true
    → visible_logs scaled
        (after_turns ts app).state.log_show_real
        slider_value
        (after_turns ts app).logs
      ≡ some (
          drop
            (length (app.logs ++ messages ts app.logger) - 15)
            (app.logs ++ messages ts app.logger))
view_follows scaled v ts app e =
    let (l, s) = turns_logs ts app in
    ap (λ real. visible_logs scaled real v (after_turns ts app).logs) (s ∙ e)
    ∙ ap (visible_logs scaled true v) l
    ∙ visible_latest scaled v (app.logs ++ messages ts app.logger)
