-- ===== src/Screenshot/WindowExamples.antt =====
-- Drawing, typing and undoing in cpp/qt/ScreenShot/screenshots.cpp, on concrete events.
use code_study_example.Screenshot.Rect.{origin, ◌+P◌, min_ℤ}
use code_study_example.Screenshot.Area.{rt, spanned}
use code_study_example.Screenshot.Examples.{quads, at_point, selected}
use code_study_example.Screenshot.Window.{
  ScreenShots, OperateType, draw_text, draw_rect, item_rect, press_event, release_event, key_other,
}
use code_study_example.Screenshot.Window.Drawing.{move_events, drag_draws}
use code_study_example.Screenshot.Window.History.{
  Event, presses, moves, releases, types, chooses, paints, saves,
}
use code_study_example.Shared.{◌≡◌, refl, false, none, List, [], ◌∷◌, arith}
use code_study_example.Shared.Int.{pos, ◌+ℤ◌, ◌-ℤ◌, abs}

abbrev window : OperateType → ScreenShots quads
window t = record {
  sa = selected;
  operate_type = t;
  input_text = [];
  press_pos = origin;
  end_pos = origin;
  item_rt = quads.rect (pos 0) (pos 0) (pos 0) (pos 0);
  items = [];
  is_press = false;
  buttons = none;
  shown = [];
  saved = [];
  quitting = false;
}

drag_draws_example :
    (release_event quads (
      move_events quads
        (pos 900)
        (at_point 30 40 ∷ at_point 60 70 ∷ [])
        (press_event quads (at_point 20 20) (window draw_rect)))).items
    ≡ item_rect (spanned quads (at_point 20 20) (at_point 60 70)) ∷ []
drag_draws_example =
    drag_draws quads (pos 900) (window draw_rect) (at_point 20 20) (at_point 30 40)
      (at_point 60 70 ∷ []) (λ e. ground (arith, e)) refl

abbrev session : List (Event quads)
session =
    presses (at_point 20 30)
    ∷ moves (at_point 50 60)
    ∷ releases
    ∷ chooses draw_text
    ∷ types key_other false (72 ∷ [])
    ∷ paints
    ∷ saves
    ∷ []

selected_bottom : quads.bottom (rt quads selected) ≡ pos 79
unfolding rt ◌+P◌ ◌+ℤ◌ ◌-ℤ◌ min_ℤ abs
selected_bottom = refl
