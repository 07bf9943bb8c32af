-- ===== src/Screenshot/Window/Buttons.antt =====
-- Where cpp/qt/ScreenShot/screenshots.cpp shows its buttons, and its cursor.
use code_study_example.Screenshot.Rect.{Point, Rects}
use code_study_example.Screenshot.Area.{
  SelectShotArea, Border, border_none, left_border, right_border, top_border, bottom_border,
  judge_border, is_in_area, mouse_pressed, pressed_at, pressed_inside, rt, is_init,
}
use code_study_example.Screenshot.Window.{
  ScreenShots, Cursor, size_hor_cursor, size_ver_cursor, size_all_cursor, select_area, buttons_pos,
  buttons_height, update_mouse_shape, select_cursor,
}
use code_study_example.Shared.{
  ◌≡◌, ◌≢◌, refl, ◌∙◌, Bool, true, false, Option, none, some, ◌⊎◌, inl, inr, if◌then◌else◌,
  Bool-cases, arith, ltb→lt,
}
use code_study_example.Shared.Int.{ℤ, pos, ◌+ℤ◌, ◌-ℤ◌, ◌≤ℤ◌, ltb_ℤ, int_laws}

module _ (q : Rects) where
  open q use {Rect, right, bottom}

  column_fits : (a : ℤ) → pos 0 ≤ℤ (if ltb_ℤ (pos 0) a then a else pos 0)
  column_fits a = ground arith

  row_above :
      (h b : ℤ)
      → pos 120 ≤ℤ h
      → b ≤ℤ h
      → ltb_ℤ h (b +ℤ pos 20 +ℤ pos 40) ≡ true
      → (pos 0 ≤ℤ b -ℤ pos 20 -ℤ pos 40) × (b -ℤ pos 20 -ℤ pos 40 +ℤ pos 40 ≤ℤ h)
  row_above h b x y t = let low = ltb→lt _ _ t in (omega (int_laws, low), omega int_laws)

  row_below :
      (h b : ℤ)
      → pos 0 ≤ℤ b
      → ltb_ℤ h (b +ℤ pos 20 +ℤ pos 40) ≡ false
      → (pos 0 ≤ℤ b +ℤ pos 20) × (b +ℤ pos 20 +ℤ pos 40 ≤ℤ h)
  row_below h b x t = (omega int_laws, ground arith)

  -- On a screen at least 120 high, for an area that ends on the screen, at row 0 or below, the
  -- buttons lie wholly between its top and its bottom, and not left of its left edge.
  pub buttons_on_screen :
      (screen_h : ℤ) (r : Rect)
      → pos 120 ≤ℤ screen_h
      → pos 0 ≤ℤ bottom r
      → bottom r ≤ℤ screen_h
      → let p = buttons_pos q screen_h r in
        (pos 0 ≤ℤ p.x) × (pos 0 ≤ℤ p.y) × (p.y +ℤ buttons_height q ≤ℤ screen_h)
  unfolding buttons_pos
  buttons_on_screen screen_h r a b d =
      elim (Bool-cases (ltb_ℤ screen_h (bottom r +ℤ pos 20 +ℤ pos 40))) [
        | inl t ↦ rw t (
            let (y, z) = row_above screen_h (bottom r) a d t in
            (column_fits (right r -ℤ pos 500), y, z))
        | inr t ↦ rw t (
            let (y, z) = row_below screen_h (bottom r) b t in
            (column_fits (right r -ℤ pos 500), y, z))
      ]

  -- The cursor at a place, and whether a press there starts a resize or a move.
  abbrev pub Told : ScreenShots q → Point → Option Cursor → Bool → Bool → Type 0
  Told s p cursor resizes moves =
      (update_mouse_shape q p s ≡ cursor)
      × (((mouse_pressed q p s.sa).is_resize_pressed ≡ resizes)
          × ((mouse_pressed q p s.sa).is_move_pressed ≡ moves))

  shape_at :
      (s : ScreenShots q) (p : Point)
      → s.operate_type ≡ select_area
      → update_mouse_shape q p s ≡ select_cursor q (judge_border q s.sa p) (is_in_area q s.sa p)
  unfolding update_mouse_shape
  shape_at s p o = rw o refl

  edge_flags :
      (b : Border) (s : SelectShotArea) (p : Point)
      → s.is_move_pressed ≡ false
      → judge_border q s p ≡ b
      → b ≢ border_none
      → ((mouse_pressed q p s).is_resize_pressed ≡ true)
        × ((mouse_pressed q p s).is_move_pressed ≡ false)
  unfolding mouse_pressed pressed_at
  edge_flags border_none s p m e n = absurd (n refl)
  edge_flags left_border s p m e n = rw e (refl, m)
  edge_flags right_border s p m e n = rw e (refl, m)
  edge_flags top_border s p m e n = rw e (refl, m)
  edge_flags bottom_border s p m e n = rw e (refl, m)

  inside_flags :
      (s : SelectShotArea) (p : Point)
      → s.is_resize_pressed ≡ false
      → judge_border q s p ≡ border_none
      → is_in_area q s p ≡ true
      → ((mouse_pressed q p s).is_resize_pressed ≡ false)
        × ((mouse_pressed q p s).is_move_pressed ≡ true)
  unfolding mouse_pressed pressed_at pressed_inside is_in_area rt
  inside_flags s p r e i = rw (e, i) (r, refl)

  outside_flags :
      (s : SelectShotArea) (p : Point)
      → s.is_resize_pressed ≡ false
      → s.is_move_pressed ≡ false
      → judge_border q s p ≡ border_none
      → is_in_area q s p ≡ false
      → ((mouse_pressed q p s).is_resize_pressed ≡ false)
        × ((mouse_pressed q p s).is_move_pressed ≡ false)
  unfolding mouse_pressed pressed_at pressed_inside is_in_area rt
  outside_flags s p r m e i = elim (Bool-cases (is_init s.area_type)) [
    | inl t ↦ rw (e, i, t) (r, m)
    | inr t ↦ rw (e, i, t) (r, m)
  ]

  told :
      (s : ScreenShots q) (p : Point)
      → s.operate_type ≡ select_area
      → s.sa.is_resize_pressed ≡ false
      → s.sa.is_move_pressed ≡ false
      → (b : Border) → judge_border q s.sa p ≡ b
      → Told s p (some size_hor_cursor) true false
        ⊎ (Told s p (some size_ver_cursor) true false
            ⊎ (Told s p (some size_all_cursor) false true ⊎ Told s p none false false))
  unfolding select_cursor
  told s p o r m left_border e =
      inl (shape_at s p o ∙ rw e refl, edge_flags left_border s.sa p m e (λ n. ground (arith, n)))
  told s p o r m right_border e =
      inl (shape_at s p o ∙ rw e refl, edge_flags right_border s.sa p m e (λ n. ground (arith, n)))
  told s p o r m top_border e =
      inr (
        inl (shape_at s p o ∙ rw e refl, edge_flags top_border s.sa p m e (λ n. ground (arith, n))))
  told s p o r m bottom_border e = inr (
      inl
        (shape_at s p o ∙ rw e refl, edge_flags bottom_border s.sa p m e (λ n. ground (arith, n))))
  told s p o r m border_none e = elim (Bool-cases (is_in_area q s.sa p)) [
    | inl i ↦ inr (inr (inl (shape_at s p o ∙ rw (e, i) refl, inside_flags s.sa p r e i)))
    | inr i ↦ inr (inr (inr (shape_at s p o ∙ rw (e, i) refl, outside_flags s.sa p r m e i)))
  ]

  -- In the mode of selecting, the cursor tells what a press there does: an arrow across an edge
  -- where it starts a resize, the cross of arrows where it starts a move; it is left as it is where
  -- the press starts neither.
  pub cursor_tells :
      (s : ScreenShots q) (p : Point)
      → s.operate_type ≡ select_area
      → s.sa.is_resize_pressed ≡ false
      → s.sa.is_move_pressed ≡ false
      → Told s p (some size_hor_cursor) true false
        ⊎ (Told s p (some size_ver_cursor) true false
            ⊎ (Told s p (some size_all_cursor) false true ⊎ Told s p none false false))
  cursor_tells s p o r m = told s p o r m (judge_border q s.sa p) refl
