-- ===== src/Screenshot/Area.antt =====
-- The selected area of a screenshot: cpp/qt/ScreenShot/selectshotarea.h and selectshotarea.cpp.
pub mod Numbers
pub mod Gestures
pub mod Drag
pub mod Shift
pub mod Resize
pub mod Edges
use code_study_example.Screenshot.Rect.{Point, origin, ◌+P◌, ◌-P◌, Rects, min_ℤ}
use code_study_example.Shared.{ℕ, ◌≡◌, Bool, true, false, ◌&&◌, if◌then◌else◌, List, [], ◌∷◌}
use code_study_example.Shared.Int.{ℤ, pos, negsuc, ◌+ℤ◌, ◌-ℤ◌, ltb_ℤ, abs}

pub data AreaType : Type 0 where
  init_select_area : AreaType
  resize_select_area : AreaType
  move_select_area : AreaType

pub data Border : Type 0 where
  border_none : Border
  left_border : Border
  top_border : Border
  right_border : Border
  bottom_border : Border

pub record SelectShotArea : Type 0 where
  pub is_init_pressed : Bool
  pub is_resize_pressed : Bool
  pub is_move_pressed : Bool
  pub init_pressed : Point
  pub init_move : Point
  pub move_pressed_pos : Point
  pub move_offset : Point
  pub area_type : AreaType
  pub border : Border

-- `border` is not set by the source; it is read only after a press has set it.
abbrev pub new_area : SelectShotArea
new_area = record {
  is_init_pressed = false;
  is_resize_pressed = false;
  is_move_pressed = false;
  init_pressed = origin;
  init_move = origin;
  move_pressed_pos = origin;
  move_offset = origin;
  area_type = init_select_area;
  border = border_none;
}

abbrev pub is_init : AreaType → Bool
is_init init_select_area = true
is_init _ = false

unfoldable pub mouse_release : SelectShotArea → SelectShotArea
mouse_release s =
    let s' = record s { is_resize_pressed = false; is_init_pressed = false } in
    if s.is_move_pressed
    then record s' {
      is_move_pressed = false;
      init_pressed = s.init_pressed +P s.move_offset;
      init_move = s.init_move +P s.move_offset;
      move_offset = origin;
    }
    else s'

-- The corners `tl` and `br` of `mouseMove` after one of their coordinates is set.
unfoldable pub resized : Border → Point → Point → Point → Point × Point
resized border_none p tl br = (tl, br)
resized left_border p tl br = (record tl { x = p.x }, br)
resized right_border p tl br = (tl, record br { x = p.x })
resized top_border p tl br = (record tl { y = p.y }, br)
resized bottom_border p tl br = (tl, record br { y = p.y })

module _ (q : Rects) where
  open q use {Rect, rect, left, top, right, bottom, contains}

  -- `Tool::rt`.
  unfoldable pub spanned : Point → Point → Rect
  spanned p1 p2 = rect (min_ℤ p1.x p2.x) (min_ℤ p1.y p2.y) (abs (p1.x -ℤ p2.x)) (abs (p1.y -ℤ p2.y))

  unfoldable pub rt : SelectShotArea → Rect
  rt s =
      let p1 = s.init_pressed +P s.move_offset in
      let p2 = s.init_move +P s.move_offset in
      rect (min_ℤ p1.x p2.x) (min_ℤ p1.y p2.y) (abs (p1.x -ℤ p2.x)) (abs (p1.y -ℤ p2.y))

  abbrev pub border_width : ℤ
  border_width = pos 8

  -- The tests of `judgeBorder`: the distance to an edge, and whether the other coordinate lies
  -- between the two edges that meet it.
  abbrev near : ℤ → ℤ → Bool
  near a b = ltb_ℤ (abs (a -ℤ b)) border_width

  abbrev between : ℤ → ℤ → ℤ → Bool
  between low a high = ltb_ℤ low a && ltb_ℤ a high

  unfoldable pub judge_border : SelectShotArea → Point → Border
  judge_border s p =
      let r = rt s in
      if near p.x (left r) && between (top r) p.y (bottom r)
      then left_border
      else (if near p.x (right r) && between (top r) p.y (bottom r)
          then right_border
          else (if near p.y (top r) && between (left r) p.x (right r)
              then top_border
              else (if near p.y (bottom r) && between (left r) p.x (right r)
                  then bottom_border
                  else border_none)))

  unfoldable pub is_in_area : SelectShotArea → Point → Bool
  is_in_area s p = contains (rt s) p

  -- The branches of `mousePressed`, after `border` is set.
  unfoldable pub pressed_inside : Point → SelectShotArea → SelectShotArea
  pressed_inside p s =
      if is_in_area s p
      then record s { area_type = move_select_area; is_move_pressed = true; move_pressed_pos = p }
      else (if is_init s.area_type
          then record s { is_init_pressed = true; init_pressed = p; init_move = p }
          else s)

  unfoldable pub pressed_at : Border → Point → SelectShotArea → SelectShotArea
  pressed_at border_none p s = pressed_inside p (record s { border = border_none })
  pressed_at b p s = record s {
    border = b;
    area_type = resize_select_area;
    is_resize_pressed = true;
  }

  unfoldable pub mouse_pressed : Point → SelectShotArea → SelectShotArea
  mouse_pressed p s = pressed_at (judge_border s p) p s

  unfoldable pub top_left : Rect → Point
  top_left r = record { x = left r; y = top r }

  unfoldable pub bottom_right : Rect → Point
  bottom_right r = record { x = right r; y = bottom r }

  unfoldable pub resize : Point → SelectShotArea → SelectShotArea
  resize p s =
      let (tl, br) = resized s.border p (top_left (rt s)) (bottom_right (rt s)) in
      record s { init_pressed = tl; init_move = br +P (record { x = pos 1; y = pos 1 }) }

  unfoldable pub mouse_move : Point → SelectShotArea → SelectShotArea
  mouse_move p s =
      if s.is_init_pressed
      then record s { init_move = p }
      else (if s.is_move_pressed
          then record s { move_offset = p -P s.move_pressed_pos }
          else (if s.is_resize_pressed then resize p s else s))

  -- The pointer moves over these positions in turn.
  abbrev pub mouse_moves : List Point → SelectShotArea → SelectShotArea
  mouse_moves [] s = s
  mouse_moves (p ∷ ps) s = mouse_moves ps (mouse_move p s)
