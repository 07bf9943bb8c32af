-- ===== src/Screenshot/Area/Resize.antt =====
-- Resizing the area of cpp/qt/ScreenShot/selectshotarea.cpp by one of its edges.
use code_study_example.Screenshot.Rect.{Point, origin, ◌+P◌, Rects}
use code_study_example.Screenshot.Area.{
  SelectShotArea, Border, border_none, left_border, right_border, top_border, bottom_border, rt,
  spanned, mouse_move, mouse_moves, resized, resize, top_left, bottom_right,
}
use code_study_example.Screenshot.Area.Numbers.{min_first, abs_first, rt-spanned, spanned-rect}
use code_study_example.Screenshot.Area.Drag.{last_of}
use code_study_example.Shared.{◌≡◌, refl, ◌∙◌, true, false, List, [], ◌∷◌, All, subst}
use code_study_example.Shared.Int.{ℤ, pos, ◌+ℤ◌, ◌-ℤ◌, ◌≤ℤ◌, int_laws}

-- A rectangle by its first and its past-the-end column and row, the latter not smaller.
pub record Box : Type 0 where
  pub x1 : ℤ
  pub y1 : ℤ
  pub x2 : ℤ
  pub y2 : ℤ

abbrev pub Upright : Box → Type 0
Upright b = (b.x1 ≤ℤ b.x2) × (b.y1 ≤ℤ b.y2)

-- The edge is moved to the pointer; the right and the bottom edge then lie in the box.
abbrev pub edge_to : Border → Point → Box → Box
edge_to border_none p b = b
edge_to left_border p b = record b { x1 = p.x }
edge_to right_border p b = record b { x2 = p.x +ℤ pos 1 }
edge_to top_border p b = record b { y1 = p.y }
edge_to bottom_border p b = record b { y2 = p.y +ℤ pos 1 }

module _ (q : Rects) where
  open q use {
    Rect, rect, left, top, right, bottom, width, height, left-rect, top-rect, right-rect,
    bottom-rect, width-rect, height-rect,
  }

  abbrev pub box_rect : Box → Rect
  box_rect b = rect b.x1 b.y1 (b.x2 -ℤ b.x1) (b.y2 -ℤ b.y1)

  abbrev pub upper : Box → Point
  upper b = record { x = b.x1; y = b.y1 }

  abbrev pub lower : Box → Point
  lower b = record { x = b.x2; y = b.y2 }

  spanned_box : (b : Box) → Upright b → spanned q (upper b) (lower b) ≡ box_rect b
  spanned_box b (h, k) =
      rw
        (
          spanned-rect q (upper b) (lower b),
          min_first b.x1 b.x2 h,
          min_first b.y1 b.y2 k,
          abs_first b.x1 b.x2 h,
          abs_first b.y1 b.y2 k,
        )
        refl

  abbrev last_inside : Box → Point
  last_inside b = record { x = b.x2 -ℤ pos 1; y = b.y2 -ℤ pos 1 }

  last_column : (a b : ℤ) → a +ℤ (b -ℤ a) -ℤ pos 1 ≡ b -ℤ pos 1
  last_column a b = omega int_laws

  one_less : (b : ℤ) → b -ℤ pos 1 +ℤ pos 1 ≡ b
  one_less b = omega int_laws

  abbrev one_one : Point
  one_one = record { x = pos 1; y = pos 1 }

  top_left-box : (b : Box) → top_left q (box_rect b) ≡ upper b
  unfolding top_left
  top_left-box b =
      rw
        (
          left-rect b.x1 b.y1 (b.x2 -ℤ b.x1) (b.y2 -ℤ b.y1),
          top-rect b.x1 b.y1 (b.x2 -ℤ b.x1) (b.y2 -ℤ b.y1),
        )
        refl

  bottom_right-box : (b : Box) → bottom_right q (box_rect b) ≡ last_inside b
  unfolding bottom_right
  bottom_right-box b =
      rw
        (
          right-rect b.x1 b.y1 (b.x2 -ℤ b.x1) (b.y2 -ℤ b.y1),
          bottom-rect b.x1 b.y1 (b.x2 -ℤ b.x1) (b.y2 -ℤ b.y1),
          last_column b.x1 b.x2,
          last_column b.y1 b.y2,
        )
        refl

  resized-upper :
      (e : Border) (p : Point) (b : Box)
      → (resized e p (upper b) (last_inside b)).0 ≡ upper (edge_to e p b)
  unfolding resized
  resized-upper border_none p b = refl
  resized-upper left_border p b = refl
  resized-upper right_border p b = refl
  resized-upper top_border p b = refl
  resized-upper bottom_border p b = refl

  resized-lower :
      (e : Border) (p : Point) (b : Box)
      → (resized e p (upper b) (last_inside b)).1 +P one_one ≡ lower (edge_to e p b)
  unfolding resized ◌+P◌
  resized-lower border_none p b = rw (one_less b.x2, one_less b.y2) refl
  resized-lower left_border p b = rw (one_less b.x2, one_less b.y2) refl
  resized-lower right_border p b = rw (one_less b.y2) refl
  resized-lower top_border p b = rw (one_less b.x2, one_less b.y2) refl
  resized-lower bottom_border p b = rw (one_less b.x2) refl

  -- What `mouseMove` does to an area that is shown as a box: it moves the edge.
  pub resize-box :
      (p : Point) (s : SelectShotArea) (b : Box)
      → rt q s ≡ box_rect b
      → resize q p s ≡ record s {
        init_pressed = upper (edge_to s.border p b);
        init_move = lower (edge_to s.border p b);
      }
  unfolding resize
  resize-box p s b h =
      rw
        (
          h,
          top_left-box b,
          bottom_right-box b,
          resized-upper s.border p b,
          resized-lower s.border p b,
        )
        refl

  pub move-resizes :
      (p : Point) (s : SelectShotArea)
      → s.is_init_pressed ≡ false
      → s.is_move_pressed ≡ false
      → s.is_resize_pressed ≡ true
      → mouse_move q p s ≡ resize q p s
  unfolding mouse_move
  move-resizes p s i m r = rw (i, m, r) refl

  -- The area during a resize by the edge `e`.
  pub record Resizing (e : Border) (b : Box) (s : SelectShotArea) : Type 0 where
    pub no_init : s.is_init_pressed ≡ false
    pub no_move : s.is_move_pressed ≡ false
    pub resizing : s.is_resize_pressed ≡ true
    pub at_edge : s.border ≡ e
    pub still : s.move_offset ≡ origin
    pub shows : rt q s ≡ box_rect b

  edge_twice : (e : Border) (p r : Point) (b : Box) → edge_to e r (edge_to e p b) ≡ edge_to e r b
  edge_twice border_none p r b = refl
  edge_twice left_border p r b = refl
  edge_twice right_border p r b = refl
  edge_twice top_border p r b = refl
  edge_twice bottom_border p r b = refl

  pub one_move :
      (e : Border) (p : Point) (b : Box) (s : SelectShotArea)
      → Upright (edge_to e p b)
      → Resizing e b s
      → Resizing e (edge_to e p b) (mouse_move q p s)
  one_move e p b s u h =
      let s' : SelectShotArea = record s {
        init_pressed = upper (edge_to e p b);
        init_move = lower (edge_to e p b);
      } in
      let moved : mouse_move q p s ≡ s' =
        move-resizes p s h.no_init h.no_move h.resizing
        ∙ resize-box p s b h.shows
        ∙ rw (h.at_edge) refl in
      rw moved (record {
        no_init = h.no_init;
        no_move = h.no_move;
        resizing = h.resizing;
        at_edge = h.at_edge;
        still = h.still;
        shows = rt-spanned q s' h.still ∙ spanned_box (edge_to e p b) u;
      })

  pub follow_moves :
      (e : Border) (ps : List Point) (p : Point) (b : Box) (s : SelectShotArea)
      → All (λ r. Upright (edge_to e r b)) ps
      → Resizing e (edge_to e p b) s
      → Resizing e (edge_to e (last_of p ps) b) (mouse_moves q ps s)
  follow_moves e [] p b s u h = h
  follow_moves e (r ∷ ps) p b s u h = follow_moves e ps r b (mouse_move q r s) u.1 (
      subst (λ x. Resizing e x (mouse_move q r s)) (edge_twice e p r b)
        (one_move e r (edge_to e p b) s (rw (edge_twice e p r b) u.0) h))
