-- ===== src/Screenshot/Area/Shift.antt =====
-- Moving the area of cpp/qt/ScreenShot/selectshotarea.cpp as a whole.
use code_study_example.Screenshot.Rect.{Point, origin, ◌+P◌, ◌-P◌, Rects, min_ℤ}
use code_study_example.Screenshot.Area.{
  SelectShotArea, move_select_area, border_none, rt, spanned, mouse_pressed, mouse_release,
  mouse_move, mouse_moves, judge_border, is_in_area, pressed_at, pressed_inside,
}
use code_study_example.Screenshot.Area.Numbers.{
  min-shift, sub-shift, sub_self, shown, rt-spanned, spanned-rect,
}
use code_study_example.Screenshot.Area.Drag.{last_of}
use code_study_example.Screenshot.Area.Gestures.{release-rt}
use code_study_example.Shared.{◌≡◌, refl, sym, ◌∙◌, true, false, List, [], ◌∷◌}
use code_study_example.Shared.Int.{◌+ℤ◌, ◌-ℤ◌, abs}

module _ (q : Rects) where
  open q use {Rect, rect, left, top, width, height, left-rect, top-rect, width-rect, height-rect}

  -- The rectangle, with its left upper corner moved.
  abbrev pub translated : Rect → Point → Rect
  translated r o = rect (left r +ℤ o.x) (top r +ℤ o.y) (width r) (height r)

  spanned-shift : (a b o : Point) → spanned q (a +P o) (b +P o) ≡ translated (spanned q a b) o
  unfolding ◌+P◌
  spanned-shift a b o =
      rw
        (
          translated,
          spanned-rect q (a +P o) (b +P o),
          spanned-rect q a b,
          left-rect (min_ℤ a.x b.x) (min_ℤ a.y b.y) (abs (a.x -ℤ b.x)) (abs (a.y -ℤ b.y)),
          top-rect (min_ℤ a.x b.x) (min_ℤ a.y b.y) (abs (a.x -ℤ b.x)) (abs (a.y -ℤ b.y)),
          width-rect (min_ℤ a.x b.x) (min_ℤ a.y b.y) (abs (a.x -ℤ b.x)) (abs (a.y -ℤ b.y)),
          height-rect (min_ℤ a.x b.x) (min_ℤ a.y b.y) (abs (a.x -ℤ b.x)) (abs (a.y -ℤ b.y)),
          min-shift a.x b.x o.x,
          min-shift a.y b.y o.y,
          sub-shift a.x b.x o.x,
          sub-shift a.y b.y o.y,
        )
        refl

  sub_self_P : (p : Point) → p -P p ≡ origin
  unfolding ◌-P◌
  sub_self_P p = rw (sub_self p.x, sub_self p.y) refl

  move_sets_offset :
      (p : Point) (s : SelectShotArea)
      → s.is_init_pressed ≡ false
      → s.is_move_pressed ≡ true
      → mouse_move q p s ≡ record s { move_offset = p -P s.move_pressed_pos }
  unfolding mouse_move
  move_sets_offset p s i m = rw (i, m) refl

  moves_shift :
      (from : Point) (ps : List Point) (s : SelectShotArea)
      → s.is_init_pressed ≡ false
      → s.is_move_pressed ≡ true
      → s.move_offset ≡ from -P s.move_pressed_pos
      → rt q (mouse_moves q ps s)
        ≡ spanned q
            (s.init_pressed +P (last_of from ps -P s.move_pressed_pos))
            (s.init_move +P (last_of from ps -P s.move_pressed_pos))
  moves_shift from [] s i m o = rw (sym o) (shown q s)
  moves_shift from (p ∷ ps) s i m o =
      rw (move_sets_offset p s i m)
        (moves_shift p ps (record s { move_offset = p -P s.move_pressed_pos }) i m refl)

  press_grabs :
      (s : SelectShotArea) (p : Point)
      → judge_border q s p ≡ border_none
      → is_in_area q s p ≡ true
      → mouse_pressed q p s ≡ record s {
        border = border_none;
        area_type = move_select_area;
        is_move_pressed = true;
        move_pressed_pos = p;
      }
  unfolding mouse_pressed pressed_at pressed_inside is_in_area rt
  press_grabs s p b inside = rw (b, inside) refl

  -- A press inside the area, off its edges, while no first drag and no move is under way, and any
  -- moves, move the area
  -- with the pointer: by the last position less the place of the press, its size unchanged. The
  -- release keeps it there.
  pub grab_moves :
      (s : SelectShotArea) (p : Point) (ps : List Point)
      → s.is_init_pressed ≡ false
      → s.move_offset ≡ origin
      → judge_border q s p ≡ border_none
      → is_in_area q s p ≡ true
      → (rt q (mouse_moves q ps (mouse_pressed q p s)) ≡ translated (rt q s) (last_of p ps -P p))
        × (rt q (mouse_release (mouse_moves q ps (mouse_pressed q p s)))
            ≡ translated (rt q s) (last_of p ps -P p))
  grab_moves s p ps i o b inside =
      let moved : rt q (mouse_moves q ps (mouse_pressed q p s))
          ≡ translated (rt q s) (last_of p ps -P p) =
        rw (press_grabs s p b inside, rt-spanned q s o)
          (moves_shift p ps
              (record s {
                border = border_none;
                area_type = move_select_area;
                is_move_pressed = true;
                move_pressed_pos = p;
              })
              i refl (o ∙ sym (sub_self_P p))
            ∙ spanned-shift s.init_pressed s.init_move (last_of p ps -P p)) in
      (moved, release-rt q _ ∙ moved)
