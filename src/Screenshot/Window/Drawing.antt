-- ===== src/Screenshot/Window/Drawing.antt =====
-- Drawing rectangles and arrows in cpp/qt/ScreenShot/screenshots.cpp.
use code_study_example.Screenshot.Rect.{Point, Rects}
use code_study_example.Screenshot.Area.{spanned}
use code_study_example.Screenshot.Area.Drag.{last_of}
use code_study_example.Screenshot.Window.{
  ScreenShots, OperateType, select_area, draw_text, draw_rect, draw_line_arrow, DrawItem, item_rect,
  item_line_arrow, commit_text, press_event, release_event, drag_event, move_event, draw_back,
  pop_back,
}
use code_study_example.Shared.{
  ◌≡◌, ◌≢◌, refl, sym, ap, ◌∙◌, ◌++◌, true, List, [], ◌∷◌, ◌⊎◌, append-nil, arith, inl, inr,
}
use code_study_example.Shared.Int.{ℤ, pos}

pub pop_back-append {ℓ} : {A : Type ℓ} (xs : List A) (x : A) → pop_back (xs ++ x ∷ []) ≡ xs
unfolding pop_back
pop_back-append {A = A} [] x = refl
pop_back-append {A = A} (y ∷ []) x = refl
pop_back-append {A = A} (y ∷ z ∷ xs) x = ap (λ (ys : List A). y ∷ ys) (pop_back-append (z ∷ xs) x)

module _ (q : Rects) where
  open q use {rect}

  -- The window moves of the pointer.
  abbrev pub move_events : ℤ → List Point → ScreenShots q → ScreenShots q
  move_events h [] s = s
  move_events h (p ∷ ps) s = move_events h ps (move_event q h p s)

  -- What a drag from one point to another draws, in each mode.
  abbrev pub drawn : OperateType → Point → Point → List (DrawItem q)
  drawn draw_rect a b = item_rect (spanned q a b) ∷ []
  drawn draw_line_arrow a b = item_line_arrow a b ∷ []
  drawn _ a b = []

  pub press_draws :
      (t : OperateType) (p : Point) (s : ScreenShots q)
      → s.operate_type ≡ t
      → t ≢ select_area
      → s.input_text ≡ []
      → press_event q p s
        ≡ record s { is_press = true; press_pos = p; item_rt = rect p.x p.y (pos 200) (pos 150) }
  unfolding press_event commit_text
  press_draws select_area p s e n i = absurd (n refl)
  press_draws draw_text p s e n i = rw (e, i) refl
  press_draws draw_rect p s e n i = rw (e, i) refl
  press_draws draw_line_arrow p s e n i = rw (e, i) refl

  move_drags :
      (h : ℤ) (p : Point) (s : ScreenShots q)
      → s.is_press ≡ true
      → move_event q h p s ≡ drag_event q h p s
  unfolding move_event
  move_drags h p s i = rw i refl

  drag_sets :
      (t : OperateType) (h : ℤ) (p : Point) (s : ScreenShots q)
      → s.operate_type ≡ t
      → t ≢ select_area
      → drag_event q h p s ≡ record s { item_rt = spanned q s.press_pos p; end_pos = p }
  unfolding drag_event
  drag_sets select_area h p s e n = absurd (n refl)
  drag_sets draw_text h p s e n = rw e refl
  drag_sets draw_rect h p s e n = rw e refl
  drag_sets draw_line_arrow h p s e n = rw e refl

  move_draws :
      (t : OperateType) (h : ℤ) (p : Point) (s : ScreenShots q)
      → s.operate_type ≡ t
      → t ≢ select_area
      → s.is_press ≡ true
      → move_event q h p s ≡ record s { item_rt = spanned q s.press_pos p; end_pos = p }
  move_draws t h p s e n i = move_drags h p s i ∙ drag_sets t h p s e n

  moves_draw :
      (t : OperateType) (h : ℤ) (p : Point) (ps : List Point) (s : ScreenShots q)
      → s.operate_type ≡ t
      → t ≢ select_area
      → s.is_press ≡ true
      → move_events h (p ∷ ps) s
        ≡ record s { item_rt = spanned q s.press_pos (last_of p ps); end_pos = last_of p ps }
  moves_draw t h p [] s e n i = move_draws t h p s e n i
  moves_draw t h p (x ∷ ps) s e n i =
      rw (move_draws t h p s e n i)
        (moves_draw t h x ps (record s { item_rt = spanned q s.press_pos p; end_pos = p }) e n i)

  release_draws :
      (t : OperateType) (a b : Point) (s : ScreenShots q)
      → s.operate_type ≡ t
      → t ≢ select_area
      → s.press_pos ≡ a
      → s.end_pos ≡ b
      → s.item_rt ≡ spanned q a b
      → (release_event q s).items ≡ s.items ++ drawn t a b
  unfolding release_event
  release_draws select_area a b s e n x y z = absurd (n refl)
  release_draws draw_text a b s e n x y z = rw e (sym (append-nil s.items))
  release_draws draw_rect a b s e n x y z = rw (e, z) refl
  release_draws draw_line_arrow a b s e n x y z = rw (e, x, y) refl

  -- In every mode but that of selecting, with no text entered, a press, one move or more and a
  -- release add what the mode draws between the press and the last position, and nothing else: one
  -- rectangle, one arrow, or in text mode nothing.
  pub drag_draws :
      (h : ℤ) (s : ScreenShots q) (p x : Point) (ps : List Point)
      → s.operate_type ≢ select_area
      → s.input_text ≡ []
      → (release_event q (move_events h (x ∷ ps) (press_event q p s))).items
        ≡ s.items ++ drawn s.operate_type p (last_of x ps)
  drag_draws h s p x ps n i =
      let s1 : ScreenShots q = record s {
        is_press = true;
        press_pos = p;
        item_rt = rect p.x p.y (pos 200) (pos 150);
      } in
      rw (press_draws s.operate_type p s refl n i, moves_draw s.operate_type h x ps s1 refl n refl)
        (release_draws s.operate_type p (last_of x ps)
          (record s1 { item_rt = spanned q p (last_of x ps); end_pos = last_of x ps }) refl n refl
          refl refl)

  release_undone :
      (s : ScreenShots q)
      → (s.operate_type ≡ draw_rect) ⊎ (s.operate_type ≡ draw_line_arrow)
      → (draw_back q (release_event q s)).items ≡ s.items
  unfolding draw_back release_event
  release_undone s (inl e) = rw e (pop_back-append s.items _)
  release_undone s (inr e) = rw e (pop_back-append s.items _)

  not_select : (t : OperateType) → (t ≡ draw_rect) ⊎ (t ≡ draw_line_arrow) → t ≢ select_area
  not_select t m e = ground (arith, m)

  -- In the modes for rectangles and for arrows, with no text entered, the back button after a press,
  -- one move or more and a release leaves the items as they were before.
  pub drag_undone :
      (h : ℤ) (s : ScreenShots q) (p x : Point) (ps : List Point)
      → (s.operate_type ≡ draw_rect) ⊎ (s.operate_type ≡ draw_line_arrow)
      → s.input_text ≡ []
      → (draw_back q (release_event q (move_events h (x ∷ ps) (press_event q p s)))).items ≡ s.items
  drag_undone h s p x ps m i =
      let s1 : ScreenShots q = record s {
        is_press = true;
        press_pos = p;
        item_rt = rect p.x p.y (pos 200) (pos 150);
      } in
      let n : s.operate_type ≢ select_area = not_select s.operate_type m in
      rw (press_draws s.operate_type p s refl n i, moves_draw s.operate_type h x ps s1 refl n refl)
        (release_undone (record s1 { item_rt = spanned q p (last_of x ps); end_pos = last_of x ps })
          m)

  abbrev pub click_drawn : OperateType → Point → Point → List (DrawItem q)
  click_drawn draw_rect p before = item_rect (rect p.x p.y (pos 200) (pos 150)) ∷ []
  click_drawn draw_line_arrow p before = item_line_arrow p before ∷ []
  click_drawn _ p before = []

  release_click :
      (t : OperateType) (p : Point) (s : ScreenShots q)
      → s.operate_type ≡ t
      → t ≢ select_area
      → s.press_pos ≡ p
      → s.item_rt ≡ rect p.x p.y (pos 200) (pos 150)
      → (release_event q s).items ≡ s.items ++ click_drawn t p s.end_pos
  unfolding release_event
  release_click select_area p s e n x z = absurd (n refl)
  release_click draw_text p s e n x z = rw e (sym (append-nil s.items))
  release_click draw_rect p s e n x z = rw (e, z) refl
  release_click draw_line_arrow p s e n x z = rw (e, x) refl

  -- A click alone, with no move between press and release, draws too: in the mode for rectangles
  -- one of 200 by 150, in the mode for arrows one to wherever the last drag ended.
  pub click_draws :
      (s : ScreenShots q) (p : Point)
      → s.operate_type ≢ select_area
      → s.input_text ≡ []
      → (release_event q (press_event q p s)).items
        ≡ s.items ++ click_drawn s.operate_type p s.end_pos
  click_draws s p n i = rw (press_draws s.operate_type p s refl n i) (
      release_click s.operate_type p
        (record s { is_press = true; press_pos = p; item_rt = rect p.x p.y (pos 200) (pos 150) })
        refl n refl refl)
