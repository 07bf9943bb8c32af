-- ===== src/Screenshot/Area/Drag.antt =====
-- The first drag of cpp/qt/ScreenShot/selectshotarea.cpp, which draws the area.
use code_study_example.Screenshot.Rect.{Point, origin, Rects}
use code_study_example.Screenshot.Area.{
  SelectShotArea, init_select_area, border_none, rt, spanned, mouse_pressed, mouse_release,
  mouse_move, mouse_moves, judge_border, is_in_area, pressed_at, pressed_inside,
}
use code_study_example.Screenshot.Area.Numbers.{rt-spanned}
use code_study_example.Screenshot.Area.Gestures.{release-rt}
use code_study_example.Shared.{◌≡◌, refl, ◌∙◌, true, false, List, [], ◌∷◌}

-- Where the pointer is after these positions.
abbrev pub last_of : Point → List Point → Point
last_of p [] = p
last_of p (x ∷ xs) = last_of x xs

module _ (q : Rects) where
  move_sets :
      (p : Point) (s : SelectShotArea)
      → s.is_init_pressed ≡ true
      → mouse_move q p s ≡ record s { init_move = p }
  unfolding mouse_move
  move_sets p s i = rw i refl

  moves_follow :
      (ps : List Point) (s : SelectShotArea)
      → s.is_init_pressed ≡ true
      → s.move_offset ≡ origin
      → rt q (mouse_moves q ps s) ≡ spanned q s.init_pressed (last_of s.init_move ps)
  moves_follow [] s i o = rt-spanned q s o
  moves_follow (p ∷ ps) s i o =
      rw (move_sets p s i) (moves_follow ps (record s { init_move = p }) i o)

  press_starts :
      (s : SelectShotArea) (p : Point)
      → s.area_type ≡ init_select_area
      → judge_border q s p ≡ border_none
      → is_in_area q s p ≡ false
      → mouse_pressed q p s
        ≡ record s { border = border_none; is_init_pressed = true; init_pressed = p; init_move = p }
  unfolding mouse_pressed pressed_at pressed_inside is_in_area rt
  press_starts s p t b inside = rw (b, inside, t) refl

  -- On an area that was never moved or resized and is not being moved, a press away from what is selected, and any moves,
  -- select the rectangle between the place of the press and the last position; the release keeps
  -- it.
  pub drag_selects :
      (s : SelectShotArea) (p : Point) (ps : List Point)
      → s.area_type ≡ init_select_area
      → s.move_offset ≡ origin
      → judge_border q s p ≡ border_none
      → is_in_area q s p ≡ false
      → (rt q (mouse_moves q ps (mouse_pressed q p s)) ≡ spanned q p (last_of p ps))
        × (rt q (mouse_release (mouse_moves q ps (mouse_pressed q p s)))
            ≡ spanned q p (last_of p ps))
  drag_selects s p ps t o b inside =
      let selected : rt q (mouse_moves q ps (mouse_pressed q p s)) ≡ spanned q p (last_of p ps) =
        rw (press_starts s p t b inside) (
          moves_follow ps
            (record s {
              border = border_none;
              is_init_pressed = true;
              init_pressed = p;
              init_move = p;
            })
            refl o) in
      (selected, release-rt q _ ∙ selected)
