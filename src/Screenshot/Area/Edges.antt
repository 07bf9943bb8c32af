-- ===== src/Screenshot/Area/Edges.antt =====
-- Dragging an edge of the area of cpp/qt/ScreenShot/selectshotarea.cpp.
use code_study_example.Screenshot.Rect.{Point, origin, Rects}
use code_study_example.Screenshot.Area.{
  SelectShotArea, Border, resize_select_area, border_none, left_border, right_border, top_border,
  bottom_border, rt, spanned, mouse_pressed, mouse_release, mouse_move, mouse_moves, judge_border,
  pressed_at,
}
use code_study_example.Screenshot.Area.Numbers.{
  min_first, min_second, abs_first, abs_second, rt-spanned, spanned-rect,
}
use code_study_example.Screenshot.Area.Drag.{last_of}
use code_study_example.Screenshot.Area.Gestures.{release-rt}
use code_study_example.Screenshot.Area.Resize.{
  Box, Upright, edge_to, box_rect, upper, lower, Resizing, follow_moves, one_move, move-resizes,
  resize-box,
}
use code_study_example.Shared.{◌≡◌, ◌≢◌, refl, ◌∙◌, true, false, List, [], ◌∷◌, All, subst, arith}
use code_study_example.Shared.Int.{◌-ℤ◌, ◌≤ℤ◌}

module _ (q : Rects) where
  open q use {rect}

  -- Nothing is pressed.
  pub record Idle (b : Box) (s : SelectShotArea) : Type 0 where
    pub no_init : s.is_init_pressed ≡ false
    pub no_move : s.is_move_pressed ≡ false
    pub still : s.move_offset ≡ origin
    pub shows : rt q s ≡ box_rect q b

  press_at_edge :
      (e : Border) (s : SelectShotArea) (p : Point)
      → e ≢ border_none
      → pressed_at q e p s
        ≡ record s { border = e; area_type = resize_select_area; is_resize_pressed = true }
  unfolding pressed_at
  press_at_edge border_none s p n = absurd (n refl)
  press_at_edge left_border s p n = refl
  press_at_edge right_border s p n = refl
  press_at_edge top_border s p n = refl
  press_at_edge bottom_border s p n = refl

  press-Resizing :
      (s : SelectShotArea) (p : Point) (b : Box)
      → Idle b s
      → judge_border q s p ≢ border_none
      → Resizing q (judge_border q s p) b (mouse_pressed q p s)
  unfolding mouse_pressed rt
  press-Resizing s p b h n = rw (press_at_edge (judge_border q s p) s p n) (record {
    no_init = h.no_init;
    no_move = h.no_move;
    resizing = refl;
    at_edge = refl;
    still = h.still;
    shows = h.shows;
  })

  -- A press at an edge of the area, while no button is down, and moves that never take this edge
  -- beyond the opposite one, set this edge to the last position of the pointer and leave the other
  -- three where they were. The release keeps the area.
  pub edge_follows :
      (s : SelectShotArea) (p r : Point) (ps : List Point) (b : Box)
      → Idle b s
      → judge_border q s p ≢ border_none
      → All (λ x. Upright (edge_to (judge_border q s p) x b)) (r ∷ ps)
      → (rt q (mouse_moves q (r ∷ ps) (mouse_pressed q p s))
          ≡ box_rect q (edge_to (judge_border q s p) (last_of r ps) b))
        × (rt q (mouse_release (mouse_moves q (r ∷ ps) (mouse_pressed q p s)))
            ≡ box_rect q (edge_to (judge_border q s p) (last_of r ps) b))
  edge_follows s p r ps b h n u =
      let e = judge_border q s p in
      let end =
        follow_moves q e ps r b (mouse_move q r (mouse_pressed q p s)) u.1
          (one_move q e r b (mouse_pressed q p s) u.0 (press-Resizing s p b h n)) in
      (end.shows, release-rt q _ ∙ end.shows)

  -- The box between the old right edge and the pointer.
  abbrev pub beyond : Point → Box → Box
  beyond p b = record b { x1 = b.x2; x2 = p.x }

  spanned-beyond :
      (p : Point) (b : Box)
      → b.x2 ≤ℤ p.x
      → b.y1 ≤ℤ b.y2
      → spanned q (upper q (edge_to left_border p b)) (lower q (edge_to left_border p b))
        ≡ box_rect q (beyond p b)
  spanned-beyond p b h k =
      rw
        (
          spanned-rect q (upper q (edge_to left_border p b)) (lower q (edge_to left_border p b)),
          min_second p.x b.x2 h,
          min_first b.y1 b.y2 k,
          abs_second p.x b.x2 h,
          abs_first b.y1 b.y2 k,
        )
        refl

  move_beyond :
      (p : Point) (b : Box) (s : SelectShotArea)
      → b.x2 ≤ℤ p.x
      → b.y1 ≤ℤ b.y2
      → Resizing q left_border b s
      → Resizing q left_border (beyond p b) (mouse_move q p s)
  move_beyond p b s u k h =
      let s' : SelectShotArea = record s {
        init_pressed = upper q (edge_to left_border p b);
        init_move = lower q (edge_to left_border p b);
      } in
      let moved : mouse_move q p s ≡ s' =
        move-resizes q p s h.no_init h.no_move h.resizing
        ∙ resize-box q p s b h.shows
        ∙ rw h.at_edge refl in
      rw moved (record {
        no_init = h.no_init;
        no_move = h.no_move;
        resizing = h.resizing;
        at_edge = h.at_edge;
        still = h.still;
        shows = rt-spanned q s' h.still ∙ spanned-beyond p b u k;
      })

  -- A press at the left edge, a move to a place right of the area and one back to a place that is
  -- still right of it select what lies between these two places, wherever the right edge was.
  pub edge_lost :
      (s : SelectShotArea) (p x y : Point) (b : Box)
      → Idle b s
      → judge_border q s p ≡ left_border
      → b.y1 ≤ℤ b.y2
      → b.x2 ≤ℤ y.x
      → y.x ≤ℤ x.x
      → rt q (mouse_moves q (x ∷ y ∷ []) (mouse_pressed q p s))
        ≡ rect y.x b.y1 (x.x -ℤ y.x) (b.y2 -ℤ b.y1)
  edge_lost s p x y b h e k u v =
      let start : Resizing q left_border b (mouse_pressed q p s) =
        subst (λ d. Resizing q d b (mouse_pressed q p s)) e
          (press-Resizing s p b h (λ n. ground arith)) in
      (one_move q left_border y (beyond x b) (mouse_move q x (mouse_pressed q p s)) (v, k)
        (move_beyond x b (mouse_pressed q p s) (omega arith) k start)).shows
