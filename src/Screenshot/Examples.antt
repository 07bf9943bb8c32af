-- ===== src/Screenshot/Examples.antt =====
-- Screenshot areas of cpp/qt/ScreenShot at concrete positions.
use code_study_example.Screenshot.Rect.{Point, origin, Rects, ◌+P◌, min_ℤ, ◌-P◌}
use code_study_example.Screenshot.Area.{
  SelectShotArea, new_area, border_none, left_border, rt, mouse_pressed, mouse_release, mouse_moves,
  judge_border, is_in_area,
}
use code_study_example.Screenshot.Area.Gestures.{press, move, gestures, release_settles}
use code_study_example.Screenshot.Area.Resize.{Box, edge_to, box_rect, Upright}
use code_study_example.Screenshot.Area.Edges.{Idle, edge_follows}
use code_study_example.Shared.{ℕ, ◌≡◌, refl, Bool, true, false, ◌&&◌, [], ◌∷◌, arith, All, ◌≢◌}
use code_study_example.Shared.Int.{ℤ, pos, ◌+ℤ◌, ◌-ℤ◌, ltb_ℤ, abs}

pub record Quad : Type 0 where
  pub qx : ℤ
  pub qy : ℤ
  pub qw : ℤ
  pub qh : ℤ

abbrev pub inside : Quad → Point → Bool
inside r p =
    ltb_ℤ (r.qx -ℤ pos 1) p.x
    && ltb_ℤ p.x (r.qx +ℤ r.qw)
    && ltb_ℤ (r.qy -ℤ pos 1) p.y
    && ltb_ℤ p.y (r.qy +ℤ r.qh)

abbrev pub quads : Rects
quads = record {
  Rect = Quad;
  rect = λ x y w h. record { qx = x; qy = y; qw = w; qh = h };
  left = λ r. r.qx;
  top = λ r. r.qy;
  right = λ r. r.qx +ℤ r.qw -ℤ pos 1;
  bottom = λ r. r.qy +ℤ r.qh -ℤ pos 1;
  width = λ r. r.qw;
  height = λ r. r.qh;
  contains = inside;
  left-rect = λ x y w h. refl;
  top-rect = λ x y w h. refl;
  right-rect = λ x y w h. refl;
  bottom-rect = λ x y w h. refl;
  width-rect = λ x y w h. refl;
  height-rect = λ x y w h. refl;
}

abbrev pub at_point : ℕ → ℕ → Point
at_point a b = record { x = pos a; y = pos b }

-- After a drag from (100, 80) to (20, 30).
abbrev pub selected : SelectShotArea
selected = record new_area { init_pressed = at_point 100 80; init_move = at_point 20 30 }

abbrev selected_box : Box
selected_box = record { x1 = pos 20; y1 = pos 30; x2 = pos 100; y2 = pos 80 }

selected-Idle : Idle quads selected_box selected
unfolding rt ◌+P◌ ◌+ℤ◌ ◌-ℤ◌ min_ℤ abs
selected-Idle = record { no_init = refl; no_move = refl; still = refl; shows = refl }

off_edge : judge_border quads new_area (at_point 100 80) ≡ border_none
unfolding judge_border rt is_in_area min_ℤ abs ◌+P◌ ◌-P◌ ◌+ℤ◌ ◌-ℤ◌
off_edge = refl

outside : is_in_area quads new_area (at_point 100 80) ≡ false
unfolding judge_border rt is_in_area min_ℤ abs ◌+P◌ ◌-P◌ ◌+ℤ◌ ◌-ℤ◌
outside = refl

middle : judge_border quads selected (at_point 50 50) ≡ border_none
unfolding judge_border rt is_in_area min_ℤ abs ◌+P◌ ◌-P◌ ◌+ℤ◌ ◌-ℤ◌
middle = refl

within : is_in_area quads selected (at_point 50 50) ≡ true
unfolding judge_border rt is_in_area min_ℤ abs ◌+P◌ ◌-P◌ ◌+ℤ◌ ◌-ℤ◌
within = refl

on_left : judge_border quads selected (at_point 22 50) ≡ left_border
unfolding judge_border rt is_in_area min_ℤ abs ◌+P◌ ◌-P◌ ◌+ℤ◌ ◌-ℤ◌
on_left = refl

on_an_edge : judge_border quads selected (at_point 22 50) ≢ border_none
on_an_edge h = ground (arith, on_left)

kept-Upright :
    All
      (λ x. Upright (edge_to (judge_border quads selected (at_point 22 50)) x selected_box))
      (at_point 40 50 ∷ [])
kept-Upright = rw on_left (ground arith, tt)

edge_follows_example :
    (rt quads
        (mouse_moves quads (at_point 40 50 ∷ []) (mouse_pressed quads (at_point 22 50) selected))
      ≡ box_rect quads
          (edge_to (judge_border quads selected (at_point 22 50)) (at_point 40 50) selected_box))
    × (rt quads (
          mouse_release (
            mouse_moves quads
              (at_point 40 50 ∷ [])
              (mouse_pressed quads (at_point 22 50) selected)))
        ≡ box_rect quads
            (edge_to (judge_border quads selected (at_point 22 50)) (at_point 40 50) selected_box))
edge_follows_example =
    edge_follows quads selected (at_point 22 50) (at_point 40 50) [] selected_box selected-Idle
      on_an_edge kept-Upright

release_settles_example :
    let s = gestures quads (press (at_point 100 80) ∷ move (at_point 20 30) ∷ []) new_area in
    let s' = mouse_release s in
    (s'.is_init_pressed ≡ false)
    × (s'.is_resize_pressed ≡ false)
    × (s'.is_move_pressed ≡ false)
    × (s'.move_offset ≡ origin)
    × (rt quads s' ≡ rt quads s)
release_settles_example =
    release_settles quads (press (at_point 100 80) ∷ move (at_point 20 30) ∷ [])
